-- ===== src/Maintenance/Sums.antt =====
-- maintenance/: the list of hashes that BackupManager writes is one that RestoreManager accepts.
use swr.Base.{ℕ, ◌<◌, ◌≡◌, refl, sym, ap, ◌∙◌, arith, Bool, false, some, [], ◌∷◌, ◌++◌, All}
use mathlib.Core.List.{append_assoc}
use swr.Maintenance.Files.{
  Bytes, is_space, is_wide_space, trim_left, cons_kept, trim_right, trimmed, split_lines,
  split_at_gap, eq_bytes_self, Files, lookup,
}
use swr.Maintenance.Backup.{build_checksum}
use swr.Maintenance.Check.{accepted, check_hash, check_line, check_lines}

-- A character of ASCII that is printed.
abbrev pub IsGraphic : ℕ → Type 0
IsGraphic c = (32 < c) × (c < 127)

split_line :
    (line rest : Bytes)
    → All (λ c. 10 < c) line
    → split_lines (line ++ (10 ∷ rest)) ≡ line ∷ split_lines rest
unfolding split_lines
split_line [] rest h = refl
split_line (c ∷ line) rest (h, hs) = rw (split_line line rest hs) (ground (arith, h))

-- Both kinds of `trimmed` leave a text alone that starts and ends with a graphic character.
module _ (space : ℕ → Bool) (shown : (c : ℕ) → IsGraphic c → space c ≡ false) where
  trim_left_shown : (c : ℕ) (cs : Bytes) → IsGraphic c → trim_left space (c ∷ cs) ≡ c ∷ cs
  unfolding trim_left
  trim_left_shown c cs h = rw (shown c h) refl

  cons_kept_shown : (c : ℕ) (cs : Bytes) → IsGraphic c → cons_kept space c cs ≡ c ∷ cs
  cons_kept_shown c [] h = rw (shown c h) refl
  cons_kept_shown c (d ∷ ds) h = refl

  trim_right_shown : (cs : Bytes) → All IsGraphic cs → trim_right space cs ≡ cs
  unfolding trim_right
  trim_right_shown [] h = refl
  trim_right_shown (c ∷ cs) (h, hs) = rw (trim_right_shown cs hs) (cons_kept_shown c cs h)

  trim_right_append :
      (xs ys : Bytes) (d : ℕ)
      → trim_right space (d ∷ ys) ≡ d ∷ ys
      → trim_right space (xs ++ (d ∷ ys)) ≡ xs ++ (d ∷ ys)
  unfolding trim_right
  trim_right_append [] ys d h = h
  trim_right_append (x ∷ []) ys d h = rw h refl
  trim_right_append (x ∷ (y ∷ xs)) ys d h = rw (trim_right_append (y ∷ xs) ys d h) refl

  trimmed_shown : (cs : Bytes) → All IsGraphic cs → trimmed space cs ≡ cs
  unfolding trimmed
  trimmed_shown [] h = refl
  trimmed_shown (c ∷ cs) (h, hs) = rw (trim_left_shown c cs h) (trim_right_shown (c ∷ cs) (h, hs))

  -- A hash, two spaces and a name.
  trimmed_line :
      (c : ℕ) (cs : Bytes) (d : ℕ) (ds : Bytes)
      → IsGraphic c
      → All IsGraphic (d ∷ ds)
      → trimmed space (c ∷ (cs ++ (32 ∷ (32 ∷ (d ∷ ds))))) ≡ c ∷ (cs ++ (32 ∷ (32 ∷ (d ∷ ds))))
  unfolding trimmed
  trimmed_line c cs d ds h hs = rw (trim_left_shown c (cs ++ (32 ∷ (32 ∷ (d ∷ ds)))) h) (
      trim_right_append (c ∷ cs) (32 ∷ (d ∷ ds)) 32
        (trim_right_append (32 ∷ (32 ∷ [])) ds d (trim_right_shown (d ∷ ds) hs)))

split_at_gap_line :
    (xs ys : Bytes) → All IsGraphic xs → split_at_gap (xs ++ (32 ∷ (32 ∷ ys))) ≡ some (xs, ys)
unfolding split_at_gap
split_at_gap_line [] ys h = refl
split_at_gap_line (x ∷ []) ys (h, hs) = ground (arith, h)
split_at_gap_line (x ∷ (y ∷ xs)) ys (h, hs) =
    rw (split_at_gap_line (y ∷ xs) ys hs) (ground (arith, h))

space_shown : (c : ℕ) → IsGraphic c → is_space c ≡ false
space_shown c h = ground (arith, h)

wide_space_shown : (c : ℕ) → IsGraphic c → is_wide_space c ≡ false
wide_space_shown c h = ground (arith, h)

-- A text of graphic characters that is not empty.
abbrev pub IsShown : Bytes → Type 0
IsShown [] = ⊥
IsShown (c ∷ cs) = All IsGraphic (c ∷ cs)

line_above :
    (xs ys : Bytes)
    → All IsGraphic xs
    → All IsGraphic ys
    → All (λ c. 10 < c) (xs ++ (32 ∷ (32 ∷ ys)))
line_above [] [] h k = (omega arith, (omega arith, tt))
line_above [] (y ∷ ys) h (k, ks) =
    let (a, (b, rest)) = line_above [] ys h ks in (a, (b, (omega arith, rest)))
line_above (x ∷ xs) ys (h, hs) k = (omega arith, line_above xs ys hs k)

-- What a file of the archive has to be for its line to be accepted.
abbrev pub IsListed : Files → Bytes × Bytes → Type 0
IsListed files (name, content) = IsShown name × (lookup name files ≡ some content)

module _ (sha256 : Bytes → Bytes) where
  line_accepted :
      (files : Files) (name content h : Bytes)
      → sha256 content ≡ h
      → IsShown h
      → IsListed files (name, content)
      → check_line sha256 files (trimmed is_space (h ++ (32 ∷ (32 ∷ name)))) ≡ accepted tt
  unfolding check_line check_hash
  line_accepted files [] content h e s (n, l) = absurd n
  line_accepted files (d ∷ ds) content [] e s (n, l) = absurd s
  line_accepted files (d ∷ ds) content (c ∷ cs) e s (n, l) =
      rw
        (
          trimmed_line is_space space_shown c cs d ds s.0 n,
          split_at_gap_line (c ∷ cs) (d ∷ ds) s,
          check_line,
          check_hash,
          trimmed_shown is_wide_space wide_space_shown (d ∷ ds) n,
          l,
          e,
          eq_bytes_self (c ∷ cs),
        )
        refl

  shown-IsGraphic : (h : Bytes) → IsShown h → All IsGraphic h
  shown-IsGraphic [] s = tt
  shown-IsGraphic (c ∷ cs) s = s

  pub sums_accepted :
      (files entries : Files)
      → ((content : Bytes) → IsShown (sha256 content))
      → All (IsListed files) entries
      → check_lines sha256 files (split_lines (build_checksum sha256 entries)) ≡ accepted tt
  unfolding check_lines build_checksum split_lines check_line trimmed
  sums_accepted files [] hash ls = refl
  sums_accepted files ((name, content) ∷ entries) hash (l, ls) =
      let h = sha256 content in
      let rest = build_checksum sha256 entries in
      ap (λ t. check_lines sha256 files (split_lines t))
        (sym (append_assoc h (32 ∷ (32 ∷ name)) (10 ∷ rest)))
      ∙ rw
          (
            split_line (h ++ (32 ∷ (32 ∷ name))) rest
                (line_above h name (shown-IsGraphic h (hash content)) (shown-IsGraphic name l.0)),
            line_accepted files name content h refl (hash content) l,
          )
          (sums_accepted files entries hash ls)
