-- ===== src/Tests/Polls.antt =====
-- Polls and flushes of a small device.
use swr.Base.{ℕ, ◌≡◌, refl, arith, some, [], ◌∷◌, All}
use swr.Base.Int.{pos}
use swr.Model.{WriteRequest, big_endian}
use swr.Comm.Io.{ok}
use swr.Exec.{Executor, words, read_field, write_field, apply_byte_order, effective_byte_order}
use swr.Exec.Order.{read_field-write_field}
use swr.Store.DeviceList.{DeviceList}
use swr.Store.DeviceList.Queue.{pending}
use swr.Store.Hash.{find}
use swr.Collector.{before, build_batches, collect_all_fields}
use swr.Collector.Batches.{IsBatch, build_batches-IsBatch}
use swr.Collector.Transparent.{of_read}
use swr.Collector.Poll.{poll_as_alone}
use swr.Collector.Flush.Retries.{Retries, flushes, flushes_end}
use swr.Tests.Data.{
  station, temperature, pump, level, memory, Held, memory-Memory, station_registers,
  station_batches, word_at, bit_at, sort_by, count-sort_by,
}

abbrev online : Executor ℕ
online = record { client = some 0; default_byte_order = big_endian }

poll_as_alone_example :
    (s : ℕ) × (collect_all_fields memory station (build_batches station.registers sort_by) online
      ≡ (
        ok (
            of_read (read_field memory temperature online).0
            ∷ (of_read (read_field memory pump online).0
                ∷ (of_read (read_field memory level online).0 ∷ []))),
        record { client = some s; default_byte_order = big_endian },
      ))
poll_as_alone_example =
    poll_as_alone memory station (λ _. Unit {0}) word_at bit_at Held Held memory-Memory big_endian
      sort_by 0 (count-sort_by (before station.registers)) tt station_registers station_batches

build_batches-IsBatch_example :
    All (IsBatch station.registers) (build_batches station.registers sort_by)
build_batches-IsBatch_example = build_batches-IsBatch station.registers sort_by

-- One waiting write of a coil that brings a word in place of a bit.
abbrev stuck_write : WriteRequest ℕ
stuck_write = record { config = pump; raw_values = 1 ∷ []; coil_values = []; retry_count = 1 }

abbrev waiting : DeviceList ℕ
waiting = record {
  devices = (pos 1, station) ∷ [];
  writes = (pos 1, stuck_write ∷ []) ∷ ((pos 2, stuck_write ∷ []) ∷ []);
}

waiting_one : All (Retries 2) (pending (pos 1) waiting)
unfolding find
waiting_one = (omega arith, tt)

flushes_end_example : pending (pos 1) (flushes memory station 2 (online, waiting)).1 ≡ []
flushes_end_example = flushes_end memory station 2 online waiting waiting_one

read_back :
    memory.read_words 12 2 1
    ≡ (ok (apply_byte_order (39 ∷ (36 ∷ [])) (effective_byte_order big_endian temperature)), 2)
unfolding apply_byte_order effective_byte_order
read_back = refl

-- The device returns the words of `temperature` in reverse, as they were written.
read_field-write_field_example :
    read_field memory temperature (write_field memory temperature (39 ∷ (36 ∷ [])) [] online).1
    ≡ (ok (words (39 ∷ (36 ∷ []))), record { client = some 2; default_byte_order = big_endian })
read_field-write_field_example =
    read_field-write_field memory temperature (39 ∷ (36 ∷ [])) big_endian 0 1 2 refl refl refl refl
      read_back
