-- ===== src/Maintenance/Check.antt =====
-- maintenance/RestoreManager.cpp: the steps of `validate` that read the files of an archive and check
-- their hashes. The hash in hexadecimal digits is a parameter.
use swr.Base.{Bool, false, not, ◌||◌, ◌&&◌, none, some, List, [], ◌∷◌, ◌==◌, if◌then◌else◌}
use swr.Base.Int.{ℤ}
use swr.Maintenance.Files.{
  Bytes, codes, is_space, is_wide_space, trimmed, split_lines, split_at_gap, is_empty, eq_bytes,
  Files, lookup, insert, contains,
}

pub record Entry : Type 0 where
  pub is_file : Bool
  pub file_path : Bytes
  pub content : Bytes

pub data RestoreError : Type 0 where
  invalid_zip : RestoreError
  invalid_path : Bytes → RestoreError
  missing_required : RestoreError
  missing_file : Bytes → RestoreError
  checksum_mismatch : Bytes → RestoreError
  invalid_manifest : RestoreError
  incompatible_schema : ℤ → ℤ → RestoreError
  no_temp_dir : RestoreError
  not_written : Bytes → RestoreError

pub data Checked (A : Type 0) : Type 0 where
  refused : RestoreError → Checked A
  accepted : A → Checked A

infixl 5 ◌>>=◌
abbrev pub ◌>>=◌ : {A B : Type 0} → Checked A → (A → Checked B) → Checked B
refused e >>= f = refused e
accepted a >>= f = f a

-- `contains("..")`
unfoldable pub has_dots : Bytes → Bool
has_dots [] = false
has_dots (c ∷ []) = false
has_dots (c ∷ (d ∷ cs)) = ((c == b'.') && (d == b'.')) || has_dots (d ∷ cs)

unfoldable pub has_slash : Bytes → Bool
has_slash [] = false
has_slash (c ∷ cs) = (c == b'/') || has_slash cs

-- Step 2, from the files that were read before.
unfoldable pub collect_files : List Entry → Files → Checked Files
unfolding has_dots has_slash
collect_files [] files = accepted files
collect_files (e ∷ es) files =
    let skipped = collect_files es files in
    let added = collect_files es (insert e.file_path e.content files) in
    if not e.is_file
    then skipped
    else if has_dots e.file_path || has_slash e.file_path
    then refused (invalid_path e.file_path)
    else added

module _ (sha256 : Bytes → Bytes) where
  unfoldable pub check_hash : Files → Bytes → Bytes → Checked (Unit {0})
  check_hash files expected name = elim (lookup name files) [
    | none ↦ refused (missing_file name)
    | some content ↦
        if eq_bytes (sha256 content) expected then accepted tt else refused (checksum_mismatch name)
  ]

  unfoldable pub check_line : Files → Bytes → Checked (Unit {0})
  unfolding check_hash
  check_line files line = if is_empty line then accepted tt else elim (split_at_gap line) [
    | none ↦ accepted tt
    | some (expected, rest) ↦ check_hash files expected (trimmed is_wide_space rest)
  ]

  unfoldable pub check_lines : Files → List Bytes → Checked (Unit {0})
  unfolding check_line
  check_lines files [] = accepted tt
  check_lines files (line ∷ lines) =
      check_line files (trimmed is_space line) >>= λ _. check_lines files lines

  -- Steps 3 and 4.
  unfoldable pub check_sums : Files → Checked (Unit {0})
  unfolding check_lines
  check_sums files = elim (lookup (codes "checksum.sha256") files) [
    | none ↦ refused missing_required
    | some sums ↦
        if contains (codes "manifest.json") files
        then check_lines files (split_lines sums)
        else refused missing_required
  ]
