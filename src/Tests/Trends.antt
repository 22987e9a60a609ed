-- ===== src/Tests/Trends.antt =====
-- Trend files on a file that is kept in memory.
use swr.Base.{
  ℕ, ◌+◌, ◌≡◌, refl, ap, arith, Bool, true, false, none, List, [], ◌∷◌, ◌++◌, map, length, ◌==◌,
  take, drop, replicate, inr, All-replicate,
}
use swr.Base.Int.{pos}
use swr.Trend.{
  words_le, fixed_header_bytes, channel_bytes, WriterConfig, no_channel, StartTime, stime, File,
  Storage, overwrite,
}
use swr.Trend.Chunks.{Sized}
use swr.Trend.Writer.{Writer, close, open_file}
use swr.Trend.Reader.{
  byte, word, freq_of, stime_of, Calendar, stime_to_unix, read_latest, read_sample,
}
use swr.Trend.Layout.{Record, file_image, IsFile}
use swr.Trend.Appends.{writer_at}
use swr.Trend.Appends.Recorded.{append_all, append_all_recorded}
use swr.Trend.Opened.{header_of, open_file_empty}
use swr.Trend.Samples.{records}
use swr.Trend.Samples.Latest.{read_latest_last}
use swr.Trend.Samples.Selected.{in_range, selected, every}
use swr.Trend.Samples.Times.{read_sample_by_time}
use swr.Store.RegisterTable.{update_state}
use swr.Trend.Recorder.{TrendFileRecorder, on_timer}
use swr.Trend.Recorder.Polled.{poll_recorded}
use swr.Tests.Data.{whole, temperature}

-- Whether it is open, its bytes and the position.
abbrev Memory : Type 0
Memory = Bool × List ℕ × ℕ

abbrev disk : File Memory
disk = record {
  make_path = λ m. (true, m);
  open_write = λ m. (true, (true, [], 0));
  open_read = λ m. (true, (true, m.1, 0));
  is_open = λ m. m.0;
  seek = λ q m. (true, (m.0, m.1, q));
  write = λ bytes m. (pos (length bytes), (m.0, overwrite m.2 bytes m.1, m.2 + length bytes));
  read = λ n m. (take n (drop m.2 m.1), (m.0, m.1, m.2 + length (take n (drop m.2 m.1))));
  size = λ m. length m.1;
  flush = λ m. m;
  close = λ m. (false, m.1, m.2);
}

abbrev At : Memory → List ℕ → ℕ → Type 0
At m c p = m ≡ (true, c, p)

disk-Storage : Storage disk At
disk-Storage = record {
  opened = λ f c p a. ap (λ (m : Memory). m.0) a;
  sized = λ f c p a. ap (λ (m : Memory). length m.1) a;
  sought = λ f c p q le a. ((f.0, f.1, q), refl, ap (λ (m : Memory). (m.0, m.1, q)) a);
  written = λ f c p bytes le a. (
    (f.0, overwrite f.2 bytes f.1, f.2 + length bytes),
    refl,
    ap (λ (m : Memory). (m.0, overwrite m.2 bytes m.1, m.2 + length bytes)) a,
  );
  got = λ f c p n a. (
    (f.0, f.1, f.2 + length (take n (drop f.2 f.1))),
    ap (λ (m : Memory). (take n (drop m.2 m.1), (f.0, f.1, f.2 + length (take n (drop f.2 f.1)))))
        a,
    ap (λ (m : Memory). (m.0, m.1, m.2 + length (take n (drop m.2 m.1)))) a,
  );
  flushed = λ f c p a. a;
}

abbrev config : WriterConfig
config = record { ch_cnt = 1; freq = 10; zcode = 1; fver = 2; channels = no_channel ∷ [] }

abbrev noon : StartTime
noon = record { year = 2026; month = 5; day = 4; hour = 12; minute = 0; second = 0 }

abbrev head : List ℕ
head = header_of config noon

abbrev closed : Writer Memory
closed = record { file = (false, [], 0); blk_index = 3; data_cnt = 5; record_count = 98 }

open_file_empty_example :
    (f' : Memory) × (p : ℕ) × (open_file disk config noon closed ≡ (none, writer_at f' [] []))
    × At f' (file_image head [] []) p
    × IsFile head [] []
    × (byte head 0 ≡ 83)
    × (byte head 1 ≡ 87)
    × (freq_of head ≡ 10)
    × (stime_of head ≡ stime noon)
unfolding close
open_file_empty_example =
    open_file_empty disk At disk-Storage config noon closed (false, [], 0) (true, [], 0)
      ((refl, refl), tt) (omega arith) refl refl refl

-- A full block and one record behind it.
abbrev sevens : List ℕ
sevens = replicate 16 7

abbrev first_rec : Record
first_rec = replicate 32 1

abbrev last_rec : Record
last_rec = replicate 32 2

abbrev full_block : List Record
full_block = replicate 31 first_rec

abbrev blocks : List (List Record)
blocks = full_block ∷ []

abbrev current : List Record
current = last_rec ∷ []

two_blocks : IsFile head blocks current
unfolding fixed_header_bytes channel_bytes
two_blocks =
    (refl, ((refl, All-replicate (Sized 32) 31 first_rec refl), tt), omega arith, (refl, tt))

abbrev stored : Memory
stored = (true, file_image head blocks current, 0)

append_all_recorded_example :
    (f' : Memory) × (p' : ℕ) × (blocks' : List (List Record)) × (current' : List Record)
    × (append_all disk (sevens ∷ (sevens ∷ [])) (writer_at stored blocks current)
        ≡ (none, writer_at f' blocks' current'))
    × At f' (file_image head blocks' current') p'
    × IsFile head blocks' current'
    × (records blocks' current' ≡ records blocks current ++ map words_le (sevens ∷ (sevens ∷ [])))
append_all_recorded_example =
    append_all_recorded disk At disk-Storage head (sevens ∷ (sevens ∷ [])) blocks current stored 0
      two_blocks (refl, (refl, tt)) (omega arith) refl

-- The file as another process left it.
abbrev shut : Memory
shut = (false, file_image head blocks current, 5)

read_latest_last_example : (read_latest disk shut).0 ≡ inr last_rec
read_latest_last_example =
    read_latest_last disk At disk-Storage head blocks current two_blocks shut stored
      (full_block ++ []) last_rec refl refl refl

abbrev calendar : Calendar
calendar = record { date_valid = λ y m d. true; time_valid = λ h m s. true; mktime = λ s. pos 1000 }

head_freq : (freq_of head == 0) ≡ false
unfolding fixed_header_bytes
head_freq = refl

-- Every fifth record from the eleventh on.
read_sample_by_time_example :
    (read_sample disk calendar 1110 2000 5 shut).0
    ≡ inr (
        every 5 0 (
          selected
            (in_range (stime_to_unix calendar (stime_of head)) (freq_of head) 1110 2000)
            0
            (records blocks current)))
read_sample_by_time_example =
    read_sample_by_time disk At disk-Storage head blocks current two_blocks calendar 1110 2000 5
      shut stored refl refl head_freq

abbrev recorder : TrendFileRecorder Memory
recorder = record {
  writer = writer_at stored blocks current;
  recording = true;
  filename = "a.tnd";
  start_time = noon;
  freq = pos 10;
  channel_ids = pos 9 ∷ (temperature.unified_address ∷ []);
  last_record_count = 0;
  last_file_size = 0;
}

-- The second channel is polled.
poll_recorded_example :
    (f2 : Memory) × (p2 : ℕ) × (blocks2 : List (List Record)) × (current2 : List Record)
    × (added : Record) × (on_timer disk whole
          (update_state whole 7 temperature (300 ∷ (4 ∷ [])) [] true "" 1000 [])
          recorder
        ≡ record recorder { writer = writer_at f2 blocks2 current2 })
    × At f2 (file_image head blocks2 current2) p2
    × (records blocks2 current2 ≡ records blocks current ++ (added ∷ []))
    × (word added 2 ≡ 300)
poll_recorded_example =
    poll_recorded disk whole At disk-Storage head blocks current stored 0 recorder 1 7 temperature
      (300 ∷ (4 ∷ [])) [] true "" 1000 [] two_blocks (omega arith) refl refl refl (omega arith) refl
