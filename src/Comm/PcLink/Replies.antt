-- ===== src/Comm/PcLink/Replies.antt =====
-- Replies of the PLCs as the clients read them.
use mathlib.Core.List.{append_assoc}
use mathlib.Core.Path.{subst}
use swr.Base.{
  ℕ, zero, suc, ◌+◌, ◌-◌, ◌*◌, ◌%◌, ◌<◌, ◌≤◌, ◌≡◌, refl, sym, ap, ◌∙◌, arith, Bool, true, false,
  none, some, List, [], ◌∷◌, ◌++◌, ltb, leb, length, length-append, get_or, take, take_prefix,
  drop_prefix, All, Bool-cases, inl, inr,
}
use swr.Comm.Io.{
  checksum_mismatch, response_too_short, unexpected_header, Result, ok, err, check, ◌>>◌,
}
use swr.Comm.Modbus.Ascii.{byte_sum}
use swr.Comm.PcLink.{NumberText, NumberLaws, eq_bytes, mid, hex_words}
use swr.Comm.PcLink.Serial.{checksum, read_hex_words, parse_read_response}
use swr.Comm.PcLink.Sum.{
  sum_digits, wrap_frame, comma_words, verify_frame_sum, check_ng_response, read_values,
  parse_rsd_response,
}

abbrev pub IsWord : ℕ → Type 0
IsWord n = n < 65536

eq_bytes_self : (xs : List ℕ) → eq_bytes xs xs ≡ true
unfolding eq_bytes
eq_bytes_self [] = refl
eq_bytes_self (x ∷ xs) = ground (arith, eq_bytes_self xs)

byte_sum-lt : (xs : List ℕ) (s : ℕ) → s < 256 → byte_sum xs s < 256
unfolding byte_sum
byte_sum-lt [] s h = h
byte_sum-lt (x ∷ xs) s h = byte_sum-lt xs ((s + x) % 256) (omega arith)

-- A piece in the middle.
mid_piece :
    (o n : ℕ) (pre piece rest : List ℕ)
    → length pre ≡ o
    → length piece ≡ n
    → mid (pre ++ (piece ++ rest)) o n ≡ piece
mid_piece o n pre piece rest ho hn =
    ap (take n) (drop_prefix o pre (piece ++ rest) ho) ∙ take_prefix n piece rest hn

ltb_ge : (a b : ℕ) → b ≤ a → ltb a b ≡ false
ltb_ge a b h = ground arith

leb_le : (a b : ℕ) → a ≤ b → leb a b ≡ true
leb_le a b h = ground arith

module _ (text : NumberText) (law : NumberLaws text) where
  length-hex_words : (ws : List ℕ) → All IsWord ws → length (hex_words text ws) ≡ 4 * length ws
  length-hex_words [] h = omega arith
  length-hex_words (w ∷ ws) h =
      length-append (text.hex 4 w) (hex_words text ws)
      ∙ omega (arith, law.four w h.0, length-hex_words ws h.1)

  read_hex_words-hex_words :
      (ws pre rest : List ℕ) (o : ℕ)
      → All IsWord ws
      → length pre ≡ o
      → read_hex_words text (length ws) o (pre ++ (hex_words text ws ++ rest)) ≡ ok ws
  unfolding read_hex_words
  read_hex_words-hex_words [] pre rest o h e = refl
  read_hex_words-hex_words (w ∷ ws) pre rest o h e =
      let own = text.hex 4 w in
      let tail = hex_words text ws ++ rest in
      let split : pre ++ (hex_words text (w ∷ ws) ++ rest) ≡ pre ++ (own ++ tail) =
        ap (◌++◌ pre) (append_assoc own (hex_words text ws) rest) in
      let first : text.parse_hex (mid (pre ++ (own ++ tail)) o 4) ≡ some w =
        ap text.parse_hex (mid_piece o 4 pre own tail e (law.four w h.0)) ∙ law.parsed w h.0 in
      let n : length (pre ++ own) ≡ o + 4 =
        omega (arith, length-append pre own, e, law.four w h.0) in
      let rest_read : read_hex_words text (length ws) (o + 4) (pre ++ (own ++ tail)) ≡ ok ws =
        ap (read_hex_words text (length ws) (o + 4)) (sym (append_assoc pre own tail))
        ∙ read_hex_words-hex_words ws (pre ++ own) rest (o + 4) h.1 n in
      ap (read_hex_words text (suc (length ws)) o) split
      ∙ rw (first, read_hex_words) (rw rest_read refl)

  -- The reply to a read: six characters for the station, the command and the count, the words in
  -- four digits each, the check sum and the end.
  abbrev pub read_reply : List ℕ → List ℕ → ℕ → List ℕ
  read_reply fields ws end =
      let body = fields ++ hex_words text ws in 0x02 ∷ (body ++ (checksum text body ++ (end ∷ [])))

  -- The client on the bus reads the words from a reply that carries them in four digits each,
  -- whatever its station, command and count fields and its last byte are, if the conversions of
  -- numbers give two digits for a byte and four for a word and read them back.
  pub parse_read_response-read_reply :
      (fields ws : List ℕ) (end : ℕ)
      → length fields ≡ 6
      → All IsWord ws
      → parse_read_response text (length ws) (read_reply fields ws end) ≡ ok ws
  unfolding parse_read_response checksum
  parse_read_response-read_reply fields ws end hf h =
      let body = fields ++ hex_words text ws in
      let sum = checksum text body in
      let reply = read_reply fields ws end in
      let hs : length sum ≡ 2 = law.two (byte_sum body 0) (byte_sum-lt body 0 (omega arith)) in
      let hb : length body ≡ 6 + 4 * length ws =
        omega (arith, length-append fields (hex_words text ws), hf, length-hex_words ws h) in
      let n : length reply ≡ 10 + 4 * length ws =
        omega
          (arith, length-append body (sum ++ (end ∷ [])), length-append sum (end ∷ []), hb, hs) in
      let long : leb (10 + length ws * 4) (length reply) ≡ true =
        leb_le _ (length reply) (omega (arith, n)) in
      let n4 : length reply - 4 ≡ length body = omega (arith, n, hb) in
      let n3 : length reply - 3 ≡ 1 + length body = omega (arith, n, hb) in
      let the_body : mid reply 1 (length reply - 4) ≡ body =
        ap (mid reply 1) n4
        ∙ mid_piece 1 (length body) (0x02 ∷ []) body (sum ++ (end ∷ [])) refl refl in
      let the_sum : mid reply (length reply - 3) 2 ≡ sum =
        ap (λ o. mid reply o 2) n3
        ∙ mid_piece (1 + length body) 2 (0x02 ∷ body) sum (end ∷ []) (omega arith) hs in
      let read : read_hex_words text (length ws) 7 reply ≡ ok ws =
        ap (λ q. read_hex_words text (length ws) 7 (0x02 ∷ q))
          (append_assoc fields (hex_words text ws) (sum ++ (end ∷ [])))
        ∙ read_hex_words-hex_words ws (0x02 ∷ fields) (sum ++ (end ∷ [])) 7 h (omega (arith, hf)) in
      rw (long, the_body, the_sum, eq_bytes_self sum, parse_read_response) read

  length-comma_words : (ws : List ℕ) → All IsWord ws → length (comma_words text ws) ≡ 5 * length ws
  unfolding comma_words
  length-comma_words [] h = omega arith
  length-comma_words (w ∷ ws) h =
      length-append (0x2C ∷ text.hex 4 w) (comma_words text ws)
      ∙ omega (arith, law.four w h.0, length-comma_words ws h.1)

  get_or-piece : (pre rest : List ℕ) (x o : ℕ) → length pre ≡ o → get_or (pre ++ (x ∷ rest)) o 0 ≡ x
  get_or-piece [] rest x o e = subst (λ q. get_or (x ∷ rest) q 0 ≡ x) e refl
  get_or-piece (p ∷ pre) rest x zero e = absurd (omega (arith, e))
  get_or-piece (p ∷ pre) rest x (suc o) e = get_or-piece pre rest x o (omega (arith, e))

  -- The values between what is before them and at least four bytes behind them.
  read_values-comma_words :
      (ws pre rest : List ℕ) (i o : ℕ)
      → All IsWord ws
      → length pre ≡ o
      → 4 ≤ length rest
      → read_values text (length ws) i o (pre ++ (comma_words text ws ++ rest)) ≡ ok ws
  unfolding read_values comma_words
  read_values-comma_words [] pre rest i o h e k = refl
  read_values-comma_words (w ∷ ws) pre rest i o h e k =
      let own = 0x2C ∷ text.hex 4 w in
      let tail = comma_words text ws ++ rest in
      let all = pre ++ (own ++ tail) in
      let split : pre ++ (comma_words text (w ∷ ws) ++ rest) ≡ all =
        ap (◌++◌ pre) (append_assoc own (comma_words text ws) rest) in
      let n : length all ≡ o + 5 + length tail = omega (
        arith,
        length-append pre (own ++ tail),
        length-append (text.hex 4 w) tail,
        e,
        law.four w h.0,
      ) in
      let inside : ltb (length all - 4) (o + 5) ≡ false =
        ltb_ge _ _ (omega (arith, n, k, length-append (comma_words text ws) rest)) in
      let comma : get_or all o 0 ≡ 0x2C = get_or-piece pre (text.hex 4 w ++ tail) 0x2C o e in
      let again : all ≡ (pre ++ (0x2C ∷ [])) ++ (text.hex 4 w ++ tail) =
        sym (append_assoc pre (0x2C ∷ []) (text.hex 4 w ++ tail)) in
      let first : text.parse_hex (mid all (o + 1) 4) ≡ some w =
        ap text.parse_hex (
          ap (λ q. mid q (o + 1) 4) again
          ∙ mid_piece (o + 1) 4 (pre ++ (0x2C ∷ [])) (text.hex 4 w) tail
              (omega (arith, length-append pre (0x2C ∷ []), e)) (law.four w h.0))
        ∙ law.parsed w h.0 in
      let rest_read : read_values text (length ws) (i + 1) (o + 5) all ≡ ok ws =
        ap (read_values text (length ws) (i + 1) (o + 5)) (sym (append_assoc pre own tail))
        ∙ read_values-comma_words ws (pre ++ own) rest (i + 1) (o + 5) h.1
            (omega (arith, length-append pre own, e, law.four w h.0)) k in
      ap (read_values text (suc (length ws)) i o) split
      ∙ rw (inside, comma, first, read_values) (rw rest_read refl)

  -- `verifyFrameSum` accepts what `wrapFrame` makes of a body that is not empty.
  verify_frame_sum-wrap_frame :
      (body : List ℕ) → 1 ≤ length body → verify_frame_sum text (wrap_frame text body) ≡ true
  unfolding verify_frame_sum wrap_frame
  verify_frame_sum-wrap_frame body hb =
      let s = byte_sum body 0 in
      let lt = byte_sum-lt body 0 (omega arith) in
      let sum = sum_digits text body in
      let frame = 0x02 ∷ (body ++ (sum ++ (0x0D ∷ (0x0A ∷ [])))) in
      let hs : length sum ≡ 2 = law.two s lt in
      let n : length frame ≡ length body + 5 = omega (
        arith,
        length-append body (sum ++ (0x0D ∷ (0x0A ∷ []))),
        length-append sum (0x0D ∷ (0x0A ∷ [])),
        hs,
      ) in
      let long : ltb (length frame) 6 ≡ false = ltb_ge _ 6 (omega (arith, n, hb)) in
      let front : frame ≡ (0x02 ∷ (body ++ sum)) ++ (0x0D ∷ (0x0A ∷ [])) =
        ap (◌∷◌ 0x02) (sym (append_assoc body sum (0x0D ∷ (0x0A ∷ [])))) in
      let n2 : length (0x02 ∷ (body ++ sum)) ≡ length frame - 2 =
        omega (arith, n, length-append body sum, hs) in
      let cr : get_or frame (length frame - 2) 0 ≡ 0x0D =
        ap (λ q. get_or q (length frame - 2) 0) front
        ∙ get_or-piece (0x02 ∷ (body ++ sum)) (0x0A ∷ []) 0x0D (length frame - 2) n2 in
      let lf : get_or frame (length frame - 1) 0 ≡ 0x0A =
        ap (λ q. get_or q (length frame - 1) 0)
          (front ∙ sym (append_assoc (0x02 ∷ (body ++ sum)) (0x0D ∷ []) (0x0A ∷ [])))
        ∙ get_or-piece ((0x02 ∷ (body ++ sum)) ++ (0x0D ∷ [])) [] 0x0A (length frame - 1)
            (omega (arith, n, n2, length-append (0x02 ∷ (body ++ sum)) (0x0D ∷ []))) in
      let received : mid frame (length frame - 4) 2 ≡ sum =
        mid_piece (length frame - 4) 2 (0x02 ∷ body) sum (0x0D ∷ (0x0A ∷ [])) (omega (arith, n))
          hs in
      let n5 : length frame - 5 ≡ length body = omega (arith, n) in
      let summed : mid frame 1 (length frame - 5) ≡ body =
        ap (mid frame 1) n5
        ∙ mid_piece 1 (length body) (0x02 ∷ []) body (sum ++ (0x0D ∷ (0x0A ∷ []))) refl refl in
      rw (long, cr, lf, received, summed, law.upper s lt, eq_bytes_self sum, verify_frame_sum) refl

  -- The body of a reply of the station `a`, `b`: `RSD,OK` and the values.
  abbrev pub rsd_body : ℕ → ℕ → List ℕ → List ℕ
  rsd_body a b ws =
      (a ∷ (b ∷ (0x52 ∷ (0x53 ∷ (0x44 ∷ (0x2C ∷ (0x4F ∷ (0x4B ∷ [])))))))) ++ comma_words text ws

  no_ng :
      (a b : ℕ) (ws : List ℕ) → check_ng_response text (wrap_frame text (rsd_body a b ws)) ≡ none
  unfolding check_ng_response wrap_frame eq_bytes
  no_ng a b ws =
      let frame = wrap_frame text (rsd_body a b ws) in
      elim (Bool-cases (ltb (length frame) 11)) [
        | inl e ↦ rw (e, check_ng_response) refl
        | inr e ↦ rw (e, check_ng_response) refl
      ]

  abbrev ok_text : List ℕ
  ok_text = 0x52 ∷ (0x53 ∷ (0x44 ∷ (0x2C ∷ (0x4F ∷ (0x4B ∷ [])))))

  -- The tests behind the one for an error reply.
  abbrev checked : Bool → Bool → Bool → ℕ → ℕ → List ℕ → Result (List ℕ) → Result (List ℕ)
  checked summed long header n needed found values =
      check summed checksum_mismatch
      >> (check long (response_too_short n needed)
          >> (check header (unexpected_header found) >> values))

  rsd_read :
      (frame ws : List ℕ)
      → check_ng_response text frame ≡ none
      → verify_frame_sum text frame ≡ true
      → leb (13 + length ws * 5) (length frame) ≡ true
      → eq_bytes (mid frame 3 6) (0x52 ∷ (0x53 ∷ (0x44 ∷ (0x2C ∷ (0x4F ∷ (0x4B ∷ [])))))) ≡ true
      → read_values text (length ws) 0 9 frame ≡ ok ws
      → parse_rsd_response text (length ws) frame ≡ ok ws
  unfolding parse_rsd_response
  rsd_read frame ws ng summed long header read =
      ap
        (λ o. elim o as (λ z. Result (List ℕ)) [
          | some e ↦ err e
          | none ↦
              checked (verify_frame_sum text frame) (leb (13 + length ws * 5) (length frame))
                (eq_bytes (mid frame 3 6) ok_text) (length frame) (13 + length ws * 5)
                (mid frame 3 6) (read_values text (length ws) 0 9 frame)
        ])
        ng
      ∙ rw (summed, long, header) read

  -- The client on the socket reads the values from a frame that `wrapFrame` makes of `RSD,OK` and
  -- of the values, each behind a comma, whatever the two characters of the station are, if the
  -- conversions of numbers give two digits for a byte and four for a word and read them back. Such
  -- a frame passes the test of the check sum and is not taken for an error reply.
  pub parse_rsd_response-wrap_frame :
      (a b : ℕ) (ws : List ℕ)
      → All IsWord ws
      → (parse_rsd_response text (length ws) (wrap_frame text (rsd_body a b ws)) ≡ ok ws)
        × (verify_frame_sum text (wrap_frame text (rsd_body a b ws)) ≡ true)
        × (check_ng_response text (wrap_frame text (rsd_body a b ws)) ≡ none)
  unfolding wrap_frame eq_bytes
  parse_rsd_response-wrap_frame a b ws h =
      let body = rsd_body a b ws in
      let sum = sum_digits text body in
      let rest = sum ++ (0x0D ∷ (0x0A ∷ [])) in
      let frame = wrap_frame text body in
      let hs : length sum ≡ 2 = law.two (byte_sum body 0) (byte_sum-lt body 0 (omega arith)) in
      let hr : length rest ≡ 4 = omega (arith, length-append sum (0x0D ∷ (0x0A ∷ [])), hs) in
      let n : length frame ≡ 13 + 5 * length ws =
        omega (arith, length-append (comma_words text ws) rest, length-comma_words ws h, hr) in
      let long : leb (13 + length ws * 5) (length frame) ≡ true =
        leb_le _ (length frame) (omega (arith, n)) in
      let summed = verify_frame_sum-wrap_frame body (omega arith) in
      let pre = 0x02 ∷ (a ∷ (b ∷ (0x52 ∷ (0x53 ∷ (0x44 ∷ (0x2C ∷ (0x4F ∷ (0x4B ∷ [])))))))) in
      let read : read_values text (length ws) 0 9 frame ≡ ok ws =
        read_values-comma_words ws pre rest 0 9 h refl (omega (arith, hr)) in
      (rsd_read frame ws (no_ng a b ws) summed long refl read, summed, no_ng a b ws)
