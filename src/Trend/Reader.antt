-- ===== src/Trend/Reader.antt =====
-- TrendHandler/TrendFileReader.cpp, the reads of one file. QDate, QTime and mktime are the fields of
-- a calendar; the result of a `seek` is not looked at.
use swr.Base.{
  ℕ, zero, suc, ◌+◌, ◌-◌, ◌*◌, ◌/◌, ◌%◌, ◌^◌, Bool, false, not, ◌||◌, String, Option, none, some,
  ◌⊎◌, inl, inr, List, [], ◌++◌, ◌==◌, ltb, leb, if◌then◌else◌, length, get_or, take, drop,
}
use swr.Base.Int.{ℤ, pos, negsuc}
use swr.Trend.{
  header_size, block_size, block_header_size, record_size, records_per_block, TrendError,
  open_failed, header_too_short, invalid_magic, no_records, file_too_short, header_read_failed,
  zero_freq, File,
}

pub record Calendar : Type 0 where
  pub date_valid : ℕ → ℕ → ℕ → Bool
  pub time_valid : ℕ → ℕ → ℕ → Bool
  pub mktime : List ℕ → ℤ

pub record FileInfo : Type 0 where
  pub filename : String
  pub start_time : ℕ
  pub end_time : ℕ
  pub freq : ℕ
  pub ch_count : ℕ
  pub record_count : ℕ
  pub file_size : ℕ

-- The bytes of a struct's member, 0 past the end, where the code does not look.
abbrev pub byte : List ℕ → ℕ → ℕ
byte bytes i = get_or bytes i 0

abbrev pub word : List ℕ → ℕ → ℕ
word bytes i = byte bytes i + byte bytes (i + 1) * 256

abbrev pub data_cnt_of : List ℕ → ℕ
data_cnt_of header = word header 4

abbrev pub freq_of : List ℕ → ℕ
freq_of header = word header 12

abbrev pub stime_of : List ℕ → List ℕ
stime_of header = take 6 (drop 6 header)

unfoldable pub unix_of : ℤ → ℕ
unix_of (pos secs) = secs % 2 ^ 32
unix_of (negsuc n) = 0

unfoldable pub stime_to_unix : Calendar → List ℕ → ℕ
unfolding unix_of
stime_to_unix cal s =
    if not (cal.date_valid (2000 + byte s 0) (byte s 1) (byte s 2))
      || not (cal.time_valid (byte s 3) (byte s 4) (byte s 5))
    then 0
    else unix_of (cal.mktime s)

-- The index of the record at a time, from the start of the file.
abbrev pub index_at : ℕ → ℕ → ℕ → ℕ
index_at time start freq = (time - start) / freq

module _ {F : Type 0} (dev : File F) where
  abbrev pub read_at : ℕ → ℕ → F → List ℕ × F
  read_at offset n f = dev.read n (dev.seek offset f).1

  -- The result of a read, and the file, which the destructor closes.
  unfoldable pub read_header : F → (TrendError ⊎ List ℕ) × F
  read_header f =
      let (opened, f1) = dev.open_read f in
      let (bytes, f2) = dev.read header_size f1 in
      if not opened
      then (inl open_failed, f1)
      else if ltb (length bytes) header_size
      then (inl file_too_short, f2)
      else (inr bytes, f2)

  -- One block of the walk: `none` is `continue`.
  unfoldable pub latest_in : ℕ → ℕ → F → Option (List ℕ) × F
  latest_in size block f =
      let offset = header_size + block * block_size in
      let (head, f1) = read_at offset block_header_size f in
      let at_record = offset + block_header_size + (data_cnt_of head - 1) * record_size in
      let (rec, f2) = read_at at_record record_size f1 in
      if ltb size (offset + block_header_size)
      then (none, f)
      else if ltb (length head) block_header_size
      then (none, f1)
      else if data_cnt_of head == 0
      then (none, f1)
      else if ltb size (at_record + record_size)
      then (none, f1)
      else if ltb (length rec) record_size
      then (none, f2)
      else (some rec, f2)

  -- The blocks below `n`, from the last one.
  unfoldable pub latest_below : ℕ → ℕ → F → (TrendError ⊎ List ℕ) × F
  unfolding latest_in
  latest_below size zero f = (inl no_records, f)
  latest_below size (suc n) f =
      let (found, f') = latest_in size n f in
      elim found [ some rec ↦ (inr rec, f') | none ↦ latest_below size n f' ]

  unfoldable pub read_latest : F → (TrendError ⊎ List ℕ) × F
  unfolding latest_below
  read_latest f =
      let (opened, f1) = dev.open_read f in
      let size = dev.size f1 in
      if not opened
      then (inl open_failed, f1)
      else latest_below size ((size - header_size) / block_size + 1) f1

  -- The block header, loaded if the block is another one: `none` is `break`.
  unfoldable pub load_block : ℕ → ℕ → Option ℕ → ℕ → F → Option ℕ × F
  load_block size block current count f =
      let offset = header_size + block * block_size in
      let (head, f') = read_at offset block_header_size f in
      let same : Bool = elim current [ none ↦ false | some b ↦ b == block ] in
      if same
      then (some count, f)
      else if ltb size (offset + block_header_size)
      then (none, f)
      else if ltb (length head) block_header_size
      then (none, f')
      else (some (data_cnt_of head), f')

  -- The record of index `ri`, once its block holds `count` records: `none` is `break`.
  unfoldable pub load_record : ℕ → ℕ → ℕ → F → Option (List ℕ) × F
  load_record size ri count f =
      let offset =
        header_size
        + ri / records_per_block * block_size
        + block_header_size
        + ri % records_per_block * record_size in
      let (rec, f') = read_at offset record_size f in
      if leb count (ri % records_per_block)
      then (none, f)
      else if ltb size (offset + record_size)
      then (none, f)
      else if ltb (length rec) record_size
      then (none, f')
      else (some rec, f')

  -- The loop from `ri` to `last`; `fuel` is at least the number of its turns. A block is left out
  -- of the cursor only before the first one is loaded.
  unfoldable pub sample_loop : ℕ → ℕ → ℕ → ℕ → ℕ → Option ℕ → ℕ → F → List ℕ × F
  unfolding load_block load_record
  sample_loop size last step zero ri current count f = ([], f)
  sample_loop size last step (suc fuel) ri current count f =
      let block = ri / records_per_block in
      let (loaded, f1) = load_block size block current count f in
      if ltb last ri then ([], f) else elim loaded [
        | none ↦ ([], f1)
        | some count' ↦
            let (found, f2) = load_record size ri count' f1 in
            elim found [
              | none ↦ ([], f2)
              | some rec ↦
                  let (rest, f3) =
                    sample_loop size last step fuel (ri + step) (some block) count' f2 in
                  (rec ++ rest, f3)
            ]
      ]

  unfoldable pub read_sample : Calendar → ℕ → ℕ → ℕ → F → (TrendError ⊎ List ℕ) × F
  unfolding sample_loop stime_to_unix
  read_sample cal from to step f =
      let (opened, f1) = dev.open_read f in
      let size = dev.size f1 in
      let (head, f2) = dev.read header_size f1 in
      let freq = freq_of head in
      let step' = if step == 0 then 1 else step in
      let start = stime_to_unix cal (stime_of head) in
      let first = if leb start from then index_at from start freq else 0 in
      let last = index_at to start freq in
      let (bytes, f3) = sample_loop size last step' (last + 1 - first) first none 0 f2 in
      if not opened
      then (inl open_failed, f1)
      else if ltb size (header_size + block_header_size)
      then (inl file_too_short, f1)
      else if ltb (length head) header_size
      then (inl header_read_failed, f2)
      else if freq == 0
      then (inl zero_freq, f2)
      else if ltb to start
      then (inr [], f2)
      else if ltb last first
      then (inr [], f2)
      else (inr bytes, f3)

  -- The number of records by the last block's header.
  unfoldable pub count_records : ℕ → F → ℕ × F
  count_records size f =
      let last = (size - header_size) / block_size in
      let offset = header_size + last * block_size in
      let (head, f') = read_at offset block_header_size f in
      if ltb size (header_size + block_header_size)
      then (0, f)
      else if ltb size (offset + block_header_size)
      then (0, f)
      else if length head == block_header_size
      then ((last * records_per_block + data_cnt_of head) % 2 ^ 32, f')
      else (0, f')

  unfoldable pub parse_header : Calendar → String → F → (TrendError ⊎ FileInfo) × F
  unfolding stime_to_unix count_records
  parse_header cal filename f =
      let (opened, f1) = dev.open_read f in
      let (head, f2) = dev.read header_size f1 in
      let start = stime_to_unix cal (stime_of head) in
      let (count, f3) = count_records (dev.size f2) f2 in
      if not opened
      then (inl open_failed, f1)
      else if ltb (length head) header_size
      then (inl header_too_short, f2)
      else if not (byte head 0 == 83) || not (byte head 1 == 87)
      then (inl invalid_magic, f2)
      else (
        inr (record {
          filename = filename;
          start_time = start;
          end_time =
              if ltb 0 (freq_of head) then (start + count * freq_of head) % 2 ^ 32 else start;
          freq = freq_of head;
          ch_count = byte head 5;
          record_count = count;
          file_size = dev.size f2;
        }),
        f3,
      )
