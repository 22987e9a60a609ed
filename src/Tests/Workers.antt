-- ===== src/Tests/Workers.antt =====
-- The workers with a small device.
use swr.Base.{
  ℕ, ◌+◌, String, ◌≡◌, ◌≢◌, refl, true, false, some, none, List, [], ◌∷◌, ◌++◌, if◌then◌else◌, All,
}
use swr.Base.Int.{pos}
use swr.Model.{RegisterConfig, DeviceInfo, big_endian}
use swr.Comm.Io.{Error, err, response_timeout}
use swr.Comm.Client.{DeviceClient}
use swr.Exec.{Executor, read_field, read_batch, is_connected}
use swr.Store.Hash.{find, insert, remove}
use swr.Store.DeviceList.{get_all, id_not_found, update_status, take_writes}
use swr.Store.RegisterTable.{state, update_state}
use swr.Store.RegisterTable.States.{entry_of}
use swr.Collector.{FieldResult, before, build_batches, collect_all_fields}
use swr.Collector.Flush.{flush_writes}
use swr.Collector.Transparent.{of_read}
use swr.Polling.{
  Step, done, escaped, halted, unreachable, Readings, Tracker, fresh, Shared, next_state,
  poll_device, text_of, interval_for_quality, effective_interval, tcp_turn, tcp_run, LogLine,
}
use swr.Polling.Stored.{all_good}
use swr.Polling.Whole.{poll_stores_each_alone}
use swr.Polling.Alarms.{replay}
use swr.Polling.Outcomes.{outcomes, tcp_run_alarms}
use swr.Polling.Known.{tcp_run_throws_only_unknown}
use swr.Polling.Serial.{Slot, Turn, slot_of, serial_rounds}
use swr.Polling.Untouched.{serial_rounds_untouched}
use swr.Polling.Manager.{
  idle, start, stop, serial_devices, of_id, enabled_of, is_serial, start_polls_enabled,
}
use swr.Tests.Data.{
  whole, station, temperature, pump, level, memory, Held, memory-Memory, station_registers,
  station_batches, word_at, bit_at, sort_by, count-sort_by,
}

abbrev readings : Readings
readings = record { poll_start = 100; poll_end = 120; clock = λ i. 100 + i; running = λ i. true }

abbrev known : Shared ℕ
known = record {
  table = [];
  list = record { devices = (pos 1, station) ∷ []; writes = [] };
  log = [];
}

abbrev unknown : Shared ℕ
unknown = record { table = []; list = record { devices = []; writes = [] }; log = [] }

abbrev online : Executor ℕ
online = record { client = some 0; default_byte_order = big_endian }

abbrev no_text : Error → String
no_text e = ""

abbrev alone : RegisterConfig ℕ → FieldResult
alone config = of_read (read_field memory config online).0

known_station : find (pos 1) known.list.devices ≡ some station
unfolding find
known_station = refl

unknown_station : find (pos 1) unknown.list.devices ≡ none
unfolding find
unknown_station = refl

-- The coil at address 6 of the table: the second register.
poll_stores_each_alone_example :
    let r = alone pump in
    let good = all_good (alone temperature ∷ (alone pump ∷ (alone level ∷ []))) in
    (s' : ℕ) × (w' : Tracker) × (shared' : Shared ℕ) × (new : DeviceInfo ℕ) × (poll_device memory
        station whole no_text sort_by readings
        (online, fresh, known)
      ≡ done (record { client = some s'; default_byte_order = big_endian }, w', shared'))
    × (state whole (pos 6) shared'.table
        ≡ entry_of whole 101 pump r.register_values r.coil_values r.is_ok
            (text_of no_text r.error)
            1000
            (state whole (pos 6) []))
    × (state whole (pos 9) shared'.table ≡ state whole (pos 9) [])
    × (find (pos 1) shared'.list.devices ≡ some new)
    × (shared'.list.writes ≡ [])
    × (record new { status = station.status } ≡ station)
    × (new.status.last_poll_timestamp ≡ 100)
    × (new.status.state ≡ next_state good)
    × (new.status.consecutive_errors ≡ (if good then 0 else 1))
unfolding interval_for_quality effective_interval
poll_stores_each_alone_example =
    poll_stores_each_alone memory station (λ _. Unit {0}) word_at bit_at Held Held memory-Memory
      big_endian whole no_text sort_by readings 0 fresh known station 1 pump (pos 9) (pos 1)
      (count-sort_by (before station.registers)) tt station_registers station_batches (λ j. refl)
      (
        refl,
        (refl, (refl, tt)),
        (refl, (refl, tt)),
        (refl, (refl, tt), (refl, tt), (refl, tt, tt, tt)),
      )
      known_station refl (refl, (refl, (refl, tt)))

-- A device that never answers: after two turns there is one alarm, and the count is 2.
abbrev silent : DeviceClient ℕ
silent = record memory {
  read_words = λ a n s. (err response_timeout, s);
  read_bits = λ a n s. (err response_timeout, s);
}

abbrev turns : List Readings
turns = readings ∷ (readings ∷ [])

abbrev value_or : {A : Type 0} → A → Step A → A
value_or a (done b) = b
value_or a (escaped e) = a
value_or a halted = a

silent_end : Executor ℕ × Tracker × Shared ℕ
unfolding tcp_run
silent_end =
    value_or (online, fresh, known)
      (tcp_run silent station whole no_text sort_by turns (online, known))

silent_ends : tcp_run silent station whole no_text sort_by turns (online, known) ≡ done silent_end
unfolding tcp_run silent_end collect_all_fields is_connected build_batches read_batch update_status
    find flush_writes take_writes insert
silent_ends = refl

-- Both polls fail.
tcp_run_alarms_example :
    (lines : List LogLine) × (silent_end.2.log ≡ [] ++ lines)
    × (replay false lines ≡ some true)
    × (silent_end.1.consecutive_errors ≡ 2)
unfolding outcomes tcp_turn collect_all_fields is_connected build_batches read_batch update_status
    find flush_writes take_writes insert
tcp_run_alarms_example =
    tcp_run_alarms silent station whole no_text sort_by turns online silent_end.0 silent_end.1 known
      silent_end.2 silent_ends

silent_log : silent_end.2.log ≡ unreachable "" "" ∷ []
unfolding silent_end tcp_run collect_all_fields is_connected build_batches read_batch update_status
    find flush_writes take_writes insert
silent_log = refl

silent_count : silent_end.1.consecutive_errors ≡ 2
unfolding silent_end tcp_run collect_all_fields is_connected build_batches read_batch update_status
    find flush_writes take_writes insert
silent_count = refl

tcp_run_throws_only_unknown_example :
    (tcp_run silent station whole no_text sort_by turns (online, known)
      ≢ escaped (id_not_found (pos 1)))
    × (poll_device silent station whole no_text sort_by readings (online, fresh, unknown)
        ≢ done silent_end)
tcp_run_throws_only_unknown_example =
    tcp_run_throws_only_unknown silent station whole no_text sort_by turns online known unknown
      (id_not_found (pos 1)) readings fresh silent_end (station, known_station) unknown_station

abbrev turn : Turn
turn = record { runs = true; still_runs = true; readings = readings }

abbrev rounds : List (ℕ × List Turn)
rounds = (100, turn ∷ []) ∷ ((200, turn ∷ []) ∷ [])

abbrev slots : List (Slot ℕ)
slots = slot_of station true ∷ []

serial_end : List (Slot ℕ) × ℕ × Shared ℕ
unfolding serial_rounds
serial_end =
    value_or (slots, 0, known)
      (serial_rounds (λ device. memory) whole no_text sort_by rounds (slots, 0, known))

serial_ends :
    serial_rounds (λ device. memory) whole no_text sort_by rounds (slots, 0, known)
    ≡ done serial_end
unfolding serial_rounds serial_end collect_all_fields is_connected build_batches read_batch
    update_status find flush_writes take_writes insert state update_state remove
serial_ends = refl

serial_rounds_untouched_example :
    state whole (pos 9) serial_end.2.table ≡ state whole (pos 9) known.table
serial_rounds_untouched_example =
    serial_rounds_untouched (λ device. memory) whole no_text sort_by (pos 9) rounds slots
      serial_end.0 0 serial_end.1 known serial_end.2 ((refl, (refl, (refl, tt))), tt) serial_ends

start_polls_enabled_example :
    let (started, (m, table)) = start known.list (idle, []) in
    (started ≡ true)
    × (of_id (pos 1) (serial_devices m ++ m.tcp_workers) ≡ enabled_of (pos 1) (get_all known.list))
    × All (λ device. (is_serial device ≡ true) × (device.enabled ≡ true)) (serial_devices m)
    × All (λ device. (is_serial device ≡ false) × (device.enabled ≡ true)) m.tcp_workers
    × (table ≡ [])
    × (start unknown.list (m, table) ≡ (false, (m, table)))
    × (stop m ≡ idle)
start_polls_enabled_example = start_polls_enabled (pos 1) known.list unknown.list []
