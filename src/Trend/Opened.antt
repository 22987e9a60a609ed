-- ===== src/Trend/Opened.antt =====
-- A trend file as `open` leaves it.
use mathlib.Core.List.{append_assoc, append-nil}
use mathlib.Core.Path.{subst}
use swr.Base.{
  ℕ, zero, suc, ◌+◌, ◌*◌, ◌<◌, ◌≡◌, refl, sym, ap, ◌∙◌, arith, true, Option, none, some, List, [],
  ◌∷◌, ◌++◌, length, length-append, ltb, if◌then◌else◌, get_or, All, All-get_or, Bool-cases, inl,
  inr,
}
use swr.Base.Int.{pos}
use swr.Store.Hash.{eq_ℤ_self}
use swr.Trend.{
  le16, ChannelInfo, no_channel, channel_bytes, WriterConfig, StartTime, stime, fixed_header_bytes,
  block_header_bytes, TrendError, header_failed, channel_failed, block_header_failed, File, Storage,
}
use swr.Trend.Layout.{file_image, IsFile}
use swr.Trend.Reader.{byte, freq_of, stime_of}
use swr.Trend.Writer.{Writer, fresh_writer, close, write_all, write_channels, or_close, open_file}
use swr.Trend.Appends.{writer_at, overwrite_end}

-- The channel at place `i` of the header.
abbrev channel_at : WriterConfig → ℕ → ChannelInfo
channel_at config i =
    if ltb i config.ch_cnt then get_or config.channels i no_channel else no_channel

abbrev channel_area : WriterConfig → ℕ → ℕ → List ℕ
channel_area config i zero = []
channel_area config i (suc n) = channel_bytes (channel_at config i) ++ channel_area config (i + 1) n

abbrev pub header_of : WriterConfig → StartTime → List ℕ
header_of config t = fixed_header_bytes config t ++ channel_area config 0 16

-- The tag and the unit have the lengths of their arrays.
abbrev pub IsChannel : ChannelInfo → Type 0
IsChannel ch = (length ch.chtag ≡ 16) × (length ch.unit ≡ 4)

length-channel_bytes : (ch : ChannelInfo) → IsChannel ch → length (channel_bytes ch) ≡ 28
unfolding channel_bytes
length-channel_bytes ch h =
    let tail =
      le16 ch.inrh
      ++ (le16 ch.inrl ++ (ch.dotpos ∷ (ch.is_signed ∷ (ch.unit ++ (0 ∷ (0 ∷ [])))))) in
    omega (arith, length-append ch.chtag tail, length-append ch.unit (0 ∷ (0 ∷ [])), h.0, h.1)

module _ (config : WriterConfig) (hc : All IsChannel config.channels) where
  channel_at-IsChannel : (i : ℕ) → IsChannel (channel_at config i)
  channel_at-IsChannel i = elim (Bool-cases (ltb i config.ch_cnt)) [
    | inl e ↦ rw e (All-get_or IsChannel config.channels i no_channel hc (refl, refl))
    | inr e ↦ rw e (refl, refl)
  ]

  length-channel_area : (i n : ℕ) → length (channel_area config i n) ≡ 28 * n
  length-channel_area i zero = omega arith
  length-channel_area i (suc n) =
      length-append (channel_bytes (channel_at config i)) (channel_area config (i + 1) n)
      ∙ omega (
        arith,
        length-channel_bytes (channel_at config i) (channel_at-IsChannel i),
        length-channel_area (i + 1) n,
      )

  pub length-header_of : (t : StartTime) → length (header_of config t) ≡ 512
  unfolding fixed_header_bytes
  length-header_of t = omega (
    arith,
    length-append (fixed_header_bytes config t) (channel_area config 0 16),
    length-channel_area 0 16,
  )

module _ {F : Type 0} (dev : File F) (At : F → List ℕ → ℕ → Type 0) (law : Storage dev At) where
  -- A write at the end.
  added :
      (e : TrendError) (bytes : List ℕ) (f : F) (c : List ℕ) (p : ℕ)
      → p ≡ length c
      → At f c p
      → (f' : F) × (q : ℕ) × (write_all dev e bytes f ≡ (none, f'))
        × (q ≡ length (c ++ bytes))
        × At f' (c ++ bytes) q
  unfolding write_all
  added e bytes f c p ep a =
      let (f1, e1, a1) = law.written f c p bytes (omega (arith, ep)) a in
      (
        f1,
        p + length bytes,
        rw (e1, write_all, eq_ℤ_self (pos (length bytes))) refl,
        omega (arith, ep, length-append c bytes),
        subst (λ z. At f1 z (p + length bytes)) (overwrite_end p bytes c ep) a1,
      )

  channels_added :
      (config : WriterConfig) (n i : ℕ) (f : F) (c : List ℕ) (p : ℕ)
      → p ≡ length c
      → At f c p
      → (f' : F) × (q : ℕ) × (write_channels dev config i n f ≡ (none, f'))
        × (q ≡ length (c ++ channel_area config i n))
        × At f' (c ++ channel_area config i n) q
  unfolding write_channels
  channels_added config zero i f c p ep a = (
    f,
    p,
    refl,
    ep ∙ ap length (sym (append-nil c)),
    subst (λ z. At f z p) (sym (append-nil c)) a,
  )
  channels_added config (suc n) i f c p ep a =
      let own = channel_bytes (channel_at config i) in
      let rest = channel_area config (i + 1) n in
      let (f1, q1, e1, l1, a1) = added channel_failed own f c p ep a in
      let (f2, q2, e2, l2, a2) = channels_added config n (i + 1) f1 (c ++ own) q1 l1 a1 in
      (
        f2,
        q2,
        ap
              (λ (q : Option TrendError × F). elim q.0 as (λ z. Option TrendError × F) [
                | some x ↦ (some x, q.1)
                | none ↦ write_channels dev config (i + 1) n q.1
              ])
              e1
            ∙ e2,
        l2 ∙ ap length (append_assoc c own rest),
        subst (λ z. At f2 z q2) (append_assoc c own rest) a2,
      )

  -- `open` with no call of the file failing, on a path whose directory can be made, for channels
  -- whose tags and units have the lengths of their arrays: it succeeds, the file then holds a
  -- header of 512 bytes and an empty block, and no record; the header begins with `SW` and gives
  -- back the interval, if it is a number of 16 bits, and the start time.
  pub open_file_empty :
      (config : WriterConfig) (t : StartTime) (w : Writer F) (f f1 : F)
      → All IsChannel config.channels
      → config.freq < 65536
      → dev.make_path (close dev w).file ≡ (true, f)
      → dev.open_write f ≡ (true, f1)
      → At f1 [] 0
      → let header = header_of config t in
        (f' : F) × (p : ℕ) × (open_file dev config t w ≡ (none, writer_at f' [] []))
        × At f' (file_image header [] []) p
        × IsFile header [] []
        × (byte header 0 ≡ 83)
        × (byte header 1 ≡ 87)
        × (freq_of header ≡ config.freq)
        × (stime_of header ≡ stime t)
  unfolding open_file or_close fresh_writer fixed_header_bytes
  open_file_empty config t w f f1 hc hf made opened a =
      let fixed = fixed_header_bytes config t in
      let (f2, q2, e2, l2, a2) = added header_failed fixed f1 [] 0 refl a in
      let (f3, q3, e3, l3, a3) = channels_added config 16 0 f2 fixed q2 l2 a2 in
      let (f4, q4, e4, l4, a4) =
        added block_header_failed (block_header_bytes 0 0) f3 (header_of config t) q3 l3 a3 in
      (
        f4,
        q4,
        rw (made, open_file) (rw opened (rw e2 (rw e3 (rw e4 refl)))),
        a4,
        (length-header_of config hc t, tt, omega arith, tt),
        refl,
        refl,
        omega (arith, hf),
        refl,
      )
