-- ===== src/Tests/PcLink.antt =====
-- Replies of PLCs, with hexadecimal digits as an instance of the conversions.
use swr.Base.{
  ℕ, zero, suc, ◌+◌, ◌*◌, ◌-◌, ◌/◌, ◌%◌, ◌<◌, ◌≡◌, refl, ap, arith, Option, none, some, List, [],
  ◌∷◌, ◌++◌, true, ltb, if◌then◌else◌,
}
use swr.Base.Int.{pos}
use swr.Comm.Io.{ok}
use swr.Comm.PcLink.{NumberText, NumberLaws}
use swr.Comm.PcLink.Sum.{wrap_frame, verify_frame_sum, check_ng_response, parse_rsd_response}
use swr.Comm.PcLink.Replies.{rsd_body, parse_rsd_response-wrap_frame}

abbrev digit : ℕ → ℕ
digit n = if ltb n 10 then 48 + n else 55 + n

abbrev undigit : ℕ → ℕ
undigit d = if ltb d 58 then d - 48 else d - 55

abbrev digits : ℕ → ℕ → List ℕ
digits zero n = []
digits (suc w) n = digits w (n / 16) ++ (digit (n % 16) ∷ [])

abbrev four_digits : List ℕ → Option ℕ
four_digits (a ∷ (b ∷ (c ∷ (d ∷ [])))) =
    some (((undigit a * 16 + undigit b) * 16 + undigit c) * 16 + undigit d)
four_digits ds = none

abbrev text : NumberText
text = record {
  hex = digits;
  dec = digits;
  parse_hex = four_digits;
  parse_dec = λ ds. pos 0;
  to_upper = λ ds. ds;
}

undigit-digit : (n : ℕ) → n < 16 → undigit (digit n) ≡ n
undigit-digit n h = ground arith

text-NumberLaws : NumberLaws text
text-NumberLaws = record {
  two = λ n h. refl;
  four = λ n h. refl;
  parsed = λ n h. ap some (read_back n h);
  upper = λ n h. refl;
}
  where
    read_back :
        (n : ℕ)
        → n < 65536
        → ((undigit (digit (n / 16 / 16 / 16 % 16)) * 16 + undigit (digit (n / 16 / 16 % 16))) * 16
                + undigit (digit (n / 16 % 16)))
              * 16
            + undigit (digit (n % 16))
          ≡ n
    read_back n h = omega (
      arith,
      h,
      undigit-digit (n / 16 / 16 / 16 % 16) (omega arith),
      undigit-digit (n / 16 / 16 % 16) (omega arith),
      undigit-digit (n / 16 % 16) (omega arith),
      undigit-digit (n % 16) (omega arith),
    )

abbrev fields : List ℕ
fields = 48 ∷ (49 ∷ (82 ∷ (68 ∷ (48 ∷ (49 ∷ [])))))

parse_rsd_response-wrap_frame_example :
    let frame = wrap_frame text (rsd_body text text-NumberLaws 48 49 (39 ∷ (65535 ∷ []))) in
    (parse_rsd_response text 2 frame ≡ ok (39 ∷ (65535 ∷ [])))
    × (verify_frame_sum text frame ≡ true)
    × (check_ng_response text frame ≡ none)
parse_rsd_response-wrap_frame_example =
    parse_rsd_response-wrap_frame text text-NumberLaws 48 49 (39 ∷ (65535 ∷ []))
      (omega arith, (omega arith, tt))
