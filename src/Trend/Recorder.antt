-- ===== src/Trend/Recorder.antt =====
-- TrendHandler/TrendFileRecorder.cpp, and TrendConfig of config/AppConfig.h. The timer calls
-- `on_timer`; the texts of the log are left out, and so are the build's test data. The bytes of a
-- text, cut and filled up to a length, the clock and the two build constants are arguments.
pub mod Ticks
pub mod Polled
use swr.Base.{
  ℕ, zero, suc, ◌+◌, ◌-◌, ◌%◌, ◌^◌, String, Bool, true, false, not, ◌||◌, Option, none, some, List,
  [], ◌∷◌, map, ltb, if◌then◌else◌, length, take, replicate,
}
use swr.Base.Int.{ℤ, pos, wrap16}
use swr.Model.{
  Doubles, RegisterType, unknown_type, coil, discrete_input, holding_register, input_register,
}
use swr.Store.Hash.{Hash}
use swr.Store.RegisterTable.{RegisterState, state}
use swr.Trend.{ChannelInfo, WriterConfig, StartTime, TrendError, File}
use swr.Trend.Writer.{Writer, close, open_file, append_record}

pub record TrendChannelConfig (D : Type 0) : Type 0 where
  pub reg_id : ℤ
  pub name : String
  pub tag : String
  pub unit : String
  pub scale : D
  pub is_signed : Bool
  pub min_value : ℕ
  pub max_value : ℕ

pub record TrendConfig (D : Type 0) : Type 0 where
  pub sample_interval_sec : ℤ
  pub channels : List (TrendChannelConfig D)

pub record TrendFileRecorder (F : Type 0) : Type 0 where
  pub writer : Writer F
  pub recording : Bool
  pub filename : String
  pub start_time : StartTime
  pub freq : ℤ
  pub channel_ids : List ℤ
  pub last_record_count : ℕ
  pub last_file_size : ℕ

pub data StartError : Type 0 where
  already_recording no_channels directory_failed : StartError
  not_opened : TrendError → StartError

-- The turns of `while (s < 1.0 && dp < 4)` that are left.
unfoldable pub dotpos_loop : {D : Type 0} → Doubles D → ℕ → D → ℕ
dotpos_loop d zero s = 0
dotpos_loop d (suc n) s =
    let rest = dotpos_loop d n (d.mul s (d.of_ℤ (pos 10))) in if d.lt s d.one then rest + 1 else 0

unfoldable pub scale_to_dotpos : {D : Type 0} → Doubles D → D → ℕ
unfolding dotpos_loop
scale_to_dotpos d scale =
    if not (d.lt d.zero scale) || not (d.lt scale d.one) then 0 else dotpos_loop d 4 scale

module _ {D : Type 0} (d : Doubles D) where
  unfoldable pub channel_info : (ℕ → String → List ℕ) → TrendChannelConfig D → ChannelInfo
  unfolding scale_to_dotpos
  channel_info latin1 src = record {
    chtag = latin1 16 src.tag;
    inrh = src.max_value;
    inrl = src.min_value;
    dotpos = scale_to_dotpos d src.scale;
    is_signed = if src.is_signed then 1 else 0;
    unit = latin1 4 src.unit;
  }

  unfoldable pub build_writer_config : (ℕ → String → List ℕ) → ℕ → ℕ → TrendConfig D → WriterConfig
  unfolding channel_info
  build_writer_config latin1 zcode fver config =
      let used = take 16 config.channels in
      record {
        ch_cnt = length used;
        freq = wrap16 config.sample_interval_sec;
        zcode = zcode % 256;
        fver = fver % 256;
        channels = map (channel_info latin1) used;
      }

  -- The word of a channel; 0 where the state is not valid or has no value.
  unfoldable pub channel_word : RegisterState D → ℕ
  channel_word st = if not st.is_valid then 0 else elim st.config.type [
    | coil ↦ first_coil st.raw_coils
    | discrete_input ↦ first_coil st.raw_coils
    | holding_register ↦ first_word st.raw_registers
    | input_register ↦ first_word st.raw_registers
    | unknown_type ↦ first_word st.raw_registers
  ]
    where
      first_coil : List Bool → ℕ
      first_coil [] = 0
      first_coil (b ∷ bs) = if b then 1 else 0

      first_word : List ℕ → ℕ
      first_word [] = 0
      first_word (w ∷ ws) = w

  -- `values[16]`, zero behind the channels.
  unfoldable pub values_of : ℕ → List ℤ → Hash (RegisterState D) → List ℕ
  unfolding channel_word state
  values_of n [] table = replicate n 0
  values_of zero (id ∷ ids) table = []
  values_of (suc n) (id ∷ ids) table = channel_word (state d id table) ∷ values_of n ids table

module _ {F : Type 0} (dev : File F) where
  unfoldable pub stop : TrendFileRecorder F → TrendFileRecorder F
  unfolding close
  stop r = if not r.recording then r else record r {
    last_record_count = r.writer.record_count;
    last_file_size = dev.size r.writer.file;
    writer = close dev r.writer;
    recording = false;
  }

  -- `open_config` is the configuration that `build_writer_config` made; `made` says whether the
  -- directory of the files can be made, and `filename` is the time of the start as a name.
  unfoldable pub start :
      {D : Type 0}
      → TrendConfig D
      → WriterConfig
      → Bool
      → String
      → StartTime
      → TrendFileRecorder F
      → Option StartError × TrendFileRecorder F
  unfolding open_file
  start {D = D} config open_config made filename now r =
      let named = record r { filename = filename } in
      let (e, w) = open_file dev open_config now r.writer in
      if r.recording then (some already_recording, r) else elim config.channels [
        | [] ↦ (some no_channels, r)
        | ◌∷◌ channel channels ↦ if not made then (some directory_failed, r) else elim e [
          | some x ↦ (some (not_opened x), record named { writer = w })
          | none ↦ (
            none,
            record named {
              writer = w;
              channel_ids =
                  map (λ (c : TrendChannelConfig D). c.reg_id) (take 16 (channel ∷ channels));
              freq = config.sample_interval_sec;
              start_time = now;
              recording = true;
            },
          )
        ]
      ]

  -- One timeout of the timer: a record, or the end of the recording.
  unfoldable pub on_timer :
      {D : Type 0} → Doubles D → Hash (RegisterState D) → TrendFileRecorder F → TrendFileRecorder F
  unfolding values_of append_record stop
  on_timer d table r =
      let (e, w) = append_record dev (values_of d 16 r.channel_ids table) r.writer in
      elim e [ none ↦ record r { writer = w } | some x ↦ stop (record r { writer = w }) ]

pub record RecorderStatus : Type 0 where
  pub recording : Bool
  pub filename : String
  pub elapsed_sec : ℤ
  pub file_size : ℕ
  pub record_count : ℕ
  pub freq : ℤ

-- `secs_to_now` is the time since the start.
unfoldable pub recorder_status : {F : Type 0} → File F → ℤ → TrendFileRecorder F → RecorderStatus
recorder_status dev secs_to_now r = record {
  recording = r.recording;
  filename = r.filename;
  elapsed_sec = if r.recording then secs_to_now else pos 0;
  file_size = if r.recording then dev.size r.writer.file else r.last_file_size;
  record_count = if r.recording then r.writer.record_count else r.last_record_count;
  freq = r.freq;
}
