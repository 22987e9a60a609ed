-- ===== src/Trend/Writer.antt =====
-- TrendHandler/TrendFileWriter.cpp. A call returns `none` in place of true, or its error. Every
-- path on which a call of the file fails is there, with what it leaves in the members.
use swr.Base.{
  ℕ, zero, suc, ◌+◌, ◌*◌, ◌%◌, ◌^◌, not, Option, none, some, List, ◌==◌, ltb, if◌then◌else◌, length,
  get_or, replicate,
}
use swr.Base.Int.{pos, eq_ℤ}
use swr.Trend.{
  header_size, block_size, block_header_size, record_size, records_per_block, block_pad_size,
  max_file_size, le16, words_le, no_channel, channel_bytes, WriterConfig, StartTime,
  fixed_header_bytes, block_header_bytes, TrendError, make_path_failed, open_failed, header_failed,
  channel_failed, block_header_failed, file_not_open, capacity_exceeded, file_error, File,
}

pub record Writer (F : Type 0) : Type 0 where
  pub file : F
  pub blk_index : ℕ
  pub data_cnt : ℕ
  pub record_count : ℕ

module _ {F : Type 0} where
  unfoldable pub fresh_writer : F → Writer F
  fresh_writer f = record { file = f; blk_index = 0; data_cnt = 0; record_count = 0 }

  unfoldable pub block_offset : Writer F → ℕ
  block_offset w = header_size + w.blk_index * block_size

  unfoldable pub worst_case : Writer F → ℕ
  worst_case w =
      if w.data_cnt == 30 then record_size + block_pad_size + block_header_size else record_size

module _ {F : Type 0} (dev : File F) where
  -- A write that must write all its bytes.
  unfoldable pub write_all : TrendError → List ℕ → F → Option TrendError × F
  write_all e bytes f =
      let (n, f') = dev.write bytes f in (if eq_ℤ n (pos (length bytes)) then none else some e, f')

  -- A seek, then a write.
  unfoldable pub put_at : ℕ → TrendError → List ℕ → F → Option TrendError × F
  unfolding write_all
  put_at offset e bytes f =
      let (sought, f') = dev.seek offset f in
      if sought then write_all e bytes f' else (some file_error, f')

  unfoldable pub close : Writer F → Writer F
  unfolding fresh_writer
  close w = fresh_writer (if dev.is_open w.file then dev.close w.file else w.file)

  -- The channels from `i` on, `n` of them.
  unfoldable pub write_channels : WriterConfig → ℕ → ℕ → F → Option TrendError × F
  unfolding write_all channel_bytes
  write_channels config i zero f = (none, f)
  write_channels config i (suc n) f =
      let ch = if ltb i config.ch_cnt then get_or config.channels i no_channel else no_channel in
      let (e, f') = write_all channel_failed (channel_bytes ch) f in
      elim e [ some x ↦ (some x, f') | none ↦ write_channels config (i + 1) n f' ]

  -- A step of `open` that failed closes the file and leaves the members, which `close` reset.
  unfoldable pub or_close :
      (F → Option TrendError × Writer F) → Option TrendError × F → Option TrendError × Writer F
  unfolding fresh_writer
  or_close next (some e, f) = (some e, fresh_writer (dev.close f))
  or_close next (none, f) = next f

  unfoldable pub open_file : WriterConfig → StartTime → Writer F → Option TrendError × Writer F
  unfolding close write_channels write_all or_close fixed_header_bytes
  open_file config t w =
      let (made, f) = dev.make_path (close w).file in
      let (opened, f') = dev.open_write f in
      if not made
      then (some make_path_failed, fresh_writer f)
      else if not opened
      then (some open_failed, fresh_writer f')
      else or_close
          (λ f1.
            or_close
              (λ f2.
                or_close (λ f3. (none, fresh_writer f3))
                  (write_all block_header_failed (block_header_bytes 0 0) f2))
              (write_channels config 0 16 f1))
          (write_all header_failed (fixed_header_bytes config t) f')

  unfoldable pub after_header : Writer F → Option TrendError × F → Option TrendError × Writer F
  after_header w (some e, f) = (some e, record w { file = f })
  after_header w (none, f) =
      (none, record w { file = dev.flush f; blk_index = (w.blk_index + 1) % 2 ^ 32; data_cnt = 0 })

  unfoldable pub after_pad : Writer F → Option TrendError × F → Option TrendError × Writer F
  unfolding put_at after_header
  after_pad w (some e, f) = (some e, record w { file = f })
  after_pad w (none, f) =
      let next = (w.blk_index + 1) % 2 ^ 32 in
      after_header w
        (put_at (header_size + next * block_size) block_header_failed (block_header_bytes next 0) f)

  unfoldable pub after_count : Writer F → Option TrendError × F → Option TrendError × Writer F
  unfolding put_at after_pad block_offset
  after_count w (some e, f) = (some e, record w { file = f })
  after_count w (none, f) =
      if w.data_cnt == records_per_block
      then after_pad w (
          put_at (block_offset w + block_header_size + records_per_block * record_size) file_error
            (replicate block_pad_size 0) f)
      else (none, record w { file = dev.flush f })

  unfoldable pub after_record : Writer F → Option TrendError × F → Option TrendError × Writer F
  unfolding put_at after_count block_offset
  after_record w (some e, f) = (some e, record w { file = f })
  after_record w (none, f) =
      let counted = record w {
        data_cnt = (w.data_cnt + 1) % 2 ^ 16;
        record_count = (w.record_count + 1) % 2 ^ 32;
      } in
      after_count counted (put_at (block_offset w + 4) file_error (le16 counted.data_cnt) f)

  unfoldable pub append_record : List ℕ → Writer F → Option TrendError × Writer F
  unfolding put_at after_record worst_case block_offset words_le
  append_record values w =
      if not (dev.is_open w.file)
      then (some file_not_open, w)
      else if ltb max_file_size (dev.size w.file + worst_case w)
      then (some capacity_exceeded, w)
      else after_record w (
          put_at (block_offset w + block_header_size + w.data_cnt * record_size) file_error
            (words_le values) w.file)
