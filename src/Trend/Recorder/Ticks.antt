-- ===== src/Trend/Recorder/Ticks.antt =====
-- What the ticks of the timer record.
use mathlib.Core.Option.{none-ne-some}
use swr.Base.{
  ℕ, zero, suc, ◌+◌, ◌*◌, ◌≤◌, ◌≡◌, refl, sym, ap, ◌∙◌, arith, Option, none, List, [], ◌∷◌, ◌++◌,
  map, length, length-map, length-replicate, All, Option-cases, inl, inr,
}
use swr.Base.Int.{ℤ}
use swr.Model.{Doubles}
use swr.Store.Hash.{Hash}
use swr.Store.RegisterTable.{RegisterState}
use swr.Trend.{max_file_size, words_le, TrendError, File, Storage}
use swr.Trend.Chunks.{Sized}
use swr.Trend.Layout.{Record, file_image, IsFile}
use swr.Trend.Writer.{Writer, append_record}
use swr.Trend.Appends.{writer_at}
use swr.Trend.Appends.Recorded.{append_all, append_all-cons, append_all_recorded}
use swr.Trend.Samples.{records}
use swr.Trend.Recorder.{TrendFileRecorder, values_of, on_timer}

pub length-values_of :
    {D : Type 0} (d : Doubles D) (n : ℕ) (ids : List ℤ) (table : Hash (RegisterState D))
    → length (values_of d n ids table) ≡ n
unfolding values_of
length-values_of d n [] table = length-replicate n 0
length-values_of d zero (id ∷ ids) table = refl
length-values_of d (suc n) (id ∷ ids) table = ap suc (length-values_of d n ids table)

-- Timeouts, each with the register table at its time.
abbrev pub ticks :
    {F D : Type 0}
    → File F
    → Doubles D
    → List (Hash (RegisterState D))
    → TrendFileRecorder F
    → TrendFileRecorder F
ticks dev d [] r = r
ticks dev d (table ∷ tables) r = ticks dev d tables (on_timer dev d table r)

module _ {F D : Type 0} (dev : File F) (d : Doubles D) where
  all_16 :
      (ids : List ℤ) (tables : List (Hash (RegisterState D)))
      → All (Sized 16) (map (values_of d 16 ids) tables)
  all_16 ids [] = tt
  all_16 ids (table ∷ tables) = (length-values_of d 16 ids table, all_16 ids tables)

  written_all :
      (tables : List (Hash (RegisterState D))) (r : TrendFileRecorder F) (w : Writer F)
      → append_all dev (map (values_of d 16 r.channel_ids) tables) r.writer ≡ (none, w)
      → ticks dev d tables r ≡ record r { writer = w }
  unfolding append_all on_timer
  written_all [] r w e = ap (λ (q : Option TrendError × Writer F). record r { writer = q.1 }) e
  written_all (table ∷ tables) r w e =
      let first = append_record dev (values_of d 16 r.channel_ids table) r.writer in
      elim (Option-cases first.0) [
        | inl ok ↦
            let step : on_timer dev d table r ≡ record r { writer = first.1 } =
              rw (ok, on_timer) refl in
            ap (ticks dev d tables) step
            ∙ written_all tables (record r { writer = first.1 }) w
                (sym (
                    append_all-cons dev (values_of d 16 r.channel_ids table)
                      (map (values_of d 16 r.channel_ids) tables) r.writer first.1
                      (ap (λ o. (o, first.1)) ok))
                  ∙ e)
        | inr (x, bad) ↦ absurd (
            none-ne-some x
              (sym (ap (λ (q : Option TrendError × Writer F). q.0) e) ∙ rw (bad, append_all) refl))
      ]

  -- While a recorder records into a file that holds the image of records, no call of the file
  -- fails and the file stays below its largest size, every timeout of the timer adds one record:
  -- the words that the register table held for the recorder's channels at that time, in the
  -- order of the channels, with 0 for a state that is not valid and behind the last channel. The
  -- recorder goes on recording.
  pub ticks_recorded :
      (At : F → List ℕ → ℕ → Type 0) (law : Storage dev At) (header : List ℕ)
      (tables : List (Hash (RegisterState D))) (blocks : List (List Record)) (current : List Record)
      (f : F) (p : ℕ) (r : TrendFileRecorder F)
      → IsFile header blocks current
      → 584 + 34 * (31 * length blocks + length current + length tables) ≤ max_file_size
      → At f (file_image header blocks current) p
      → r.writer ≡ writer_at f blocks current
      → (f' : F) × (p' : ℕ) × (blocks' : List (List Record)) × (current' : List Record) × (ticks dev
            d tables r
          ≡ record r { writer = writer_at f' blocks' current' })
        × At f' (file_image header blocks' current') p'
        × IsFile header blocks' current'
        × (records blocks' current'
            ≡ records blocks current ++ map words_le (map (values_of d 16 r.channel_ids) tables))
  ticks_recorded At law header tables blocks current f p r h small a e =
      let vs = map (values_of d 16 r.channel_ids) tables in
      let n : length vs ≡ length tables = length-map tables (values_of d 16 r.channel_ids) in
      let (f', p', blocks', current', done', a', h', all) =
        append_all_recorded dev At law header vs blocks current f p h (all_16 r.channel_ids tables)
          (omega (arith, small, n)) a in
      (
        f',
        p',
        blocks',
        current',
        written_all tables r (writer_at f' blocks' current') (ap (append_all dev vs) e ∙ done'),
        a',
        h',
        all,
      )
