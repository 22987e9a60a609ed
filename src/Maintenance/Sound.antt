-- ===== src/Maintenance/Sound.antt =====
-- maintenance/RestoreManager.cpp: what holds of the files of an archive that `validate` accepts.
use mathlib.Core.Path.{subst}
use swr.Base.{
  ◌≡◌, ◌≢◌, refl, ap, arith, true, false, ◌||◌, Option, none, some, List, [], ◌∷◌, All, Bool-cases,
  ||-eq-false, Option-cases, inl, inr, ◌⊎◌,
}
use swr.Maintenance.Files.{
  Bytes, codes, is_space, is_wide_space, trimmed, split_at_gap, eq_bytes, eq_bytes_iff, lt_bytes,
  Files, lookup, insert,
}
use swr.Maintenance.Check.{
  Entry, RestoreError, Checked, refused, accepted, has_dots, has_slash, collect_files, check_hash,
  check_line, check_lines,
}

-- A name that stands for nothing outside the directory that it is put in.
abbrev pub IsInside : Bytes × Bytes → Type 0
IsInside (name, content) = All (λ c. c ≢ b'/') name × (name ≢ codes "..")

true_ne : true ≡ false → ⊥
true_ne e = cc

no_slash : (name : Bytes) → has_slash name ≡ false → All (λ c. c ≢ b'/') name
unfolding has_slash
no_slash [] h = tt
no_slash (c ∷ cs) h = ground (arith, h, no_slash cs)

not_dots : (name : Bytes) → has_dots name ≡ false → name ≢ codes ".."
unfolding has_dots
not_dots name h e = absurd (true_ne (subst (λ n. has_dots n ≡ false) e h))

All-insert :
    (P : Bytes × Bytes → Type 0) (name content : Bytes) (files : Files)
    → All P files
    → P (name, content)
    → All P (insert name content files)
unfolding insert
All-insert P name content [] h p = (p, tt)
All-insert P name content ((n, c) ∷ files) (h, hs) p = elim (Bool-cases (lt_bytes name n)) [
  | inl e ↦ rw e (p, (h, hs))
  | inr e ↦ elim (Bool-cases (eq_bytes n name)) [
    | inl e2 ↦ rw (e, e2) (p, hs)
    | inr e2 ↦ rw (e, e2) (h, All-insert P name content files hs p)
  ]
]

abbrev files_or : Files → Checked Files → Files
files_or files (refused e) = files
files_or files (accepted fs) = fs

pub refused_ne : {A : Type 0} {x : RestoreError} {a : A} → refused x ≡ accepted a → ⊥
refused_ne e = cc

pub collect-IsInside :
    (es : List Entry) (files fs : Files)
    → All IsInside files
    → collect_files es files ≡ accepted fs
    → All IsInside fs
unfolding collect_files
collect-IsInside [] files fs h e = subst (All IsInside) (ap (files_or files) e) h
collect-IsInside (x ∷ es) files fs h e = elim (Bool-cases x.is_file) [
  | inr k ↦ collect-IsInside es files fs h (rw k at e)
  | inl k ↦ elim (Bool-cases (has_dots x.file_path || has_slash x.file_path)) [
    | inl bad ↦ absurd (refused_ne (rw (k, bad) at e))
    | inr good ↦
        let plain = ||-eq-false (has_dots x.file_path) (has_slash x.file_path) good in
        collect-IsInside es (insert x.file_path x.content files) fs
          (All-insert IsInside x.file_path x.content files h
            (no_slash x.file_path plain.1, not_dots x.file_path plain.0))
          (rw (k, good) at e)
  ]
]

Checked-cases :
    (c : Checked (Unit {0})) → ((x : RestoreError) × (c ≡ refused x)) ⊎ (c ≡ accepted tt)
Checked-cases (refused x) = inl (x, refl)
Checked-cases (accepted u) = inr refl

module _ (sha256 : Bytes → Bytes) (files : Files) where
  -- A hash and a name, with spaces around it, of a file that has this hash.
  abbrev pub SumHolds : Option (Bytes × Bytes) → Type 0
  SumHolds none = Unit {0}
  SumHolds (some (expected, rest)) =
      (content : Bytes) × (lookup (trimmed is_wide_space rest) files ≡ some content)
      × (sha256 content ≡ expected)

  abbrev pub LineHolds : Bytes → Type 0
  LineHolds line = SumHolds (split_at_gap (trimmed is_space line))

  check_hash_sound :
      (expected name : Bytes)
      → check_hash sha256 files expected name ≡ accepted tt
      → (content : Bytes) × (lookup name files ≡ some content) × (sha256 content ≡ expected)
  unfolding check_hash
  check_hash_sound expected name e = elim (Option-cases (lookup name files)) [
    | inl k ↦ absurd (refused_ne (rw (k, check_hash) at e))
    | inr (content, k) ↦ elim (Bool-cases (eq_bytes (sha256 content) expected)) [
      | inl q ↦ (content, k, (eq_bytes_iff (sha256 content) expected).0 q)
      | inr q ↦ absurd (refused_ne (rw (check_hash, k, q) at e))
    ]
  ]

  check_gap_sound :
      (line : Bytes) → check_line sha256 files line ≡ accepted tt → SumHolds (split_at_gap line)
  unfolding check_line split_at_gap
  check_gap_sound [] e = tt
  check_gap_sound (c ∷ cs) e = elim (Option-cases (split_at_gap (c ∷ cs))) [
    | inl k ↦ rw k tt
    | inr (pair, k) ↦
        rw k (check_hash_sound pair.0 (trimmed is_wide_space pair.1) (rw (check_line, k) at e))
  ]

  pub check_lines_sound :
      (lines : List Bytes) → check_lines sha256 files lines ≡ accepted tt → All LineHolds lines
  unfolding check_lines
  check_lines_sound [] e = tt
  check_lines_sound (line ∷ lines) e =
      let t = trimmed is_space line in
      elim (Checked-cases (check_line sha256 files t)) [
        | inl (x, k) ↦ absurd (refused_ne (rw k at e))
        | inr k ↦ (check_gap_sound t k, check_lines_sound lines (rw k at e))
      ]
