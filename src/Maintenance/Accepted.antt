-- ===== src/Maintenance/Accepted.antt =====
-- maintenance/RestoreManager.cpp: what `validate` promises of an archive that it accepts.
use mathlib.Core.Path.{subst}
use swr.Base.{
  ◌≡◌, refl, ap, inl, inr, String, Option, none, some, List, [], All, Bool-cases, Option-cases,
}
use swr.Base.Int.{ℤ, pos, eq_ℤ, eq_ℤ_iff}
use swr.Base.Json.{Json, object, Numerals, Object, to_object, to_int}
use swr.Maintenance.Files.{Bytes, codes, split_lines, Files, lookup, contains}
use swr.Maintenance.Check.{Entry, Checked, refused, accepted, ◌>>=◌, collect_files, check_sums}
use swr.Maintenance.Validate.{
  RestorePreview, TempDir, json_file, check_manifest, read_manifest, check_archive, save_files,
  save_checked, validate,
}
use swr.Maintenance.Sound.{IsInside, collect-IsInside, LineHolds, check_lines_sound, refused_ne}

pub >>=-eq-accepted :
    {A B : Type 0} (c : Checked A) (g : A → Checked B) {b : B}
    → (c >>= g) ≡ accepted b
    → (a : A) × (c ≡ accepted a) × (g a ≡ accepted b)
>>=-eq-accepted (refused x) g e = absurd (refused_ne e)
>>=-eq-accepted (accepted a) g e = (a, refl, e)

abbrev value_or : {A : Type 0} → A → Checked A → A
value_or a (refused e) = a
value_or a (accepted b) = b

module _ (sha256 : Bytes → Bytes) (files : Files) where
  -- Both required files are there, and every line of the list of hashes holds.
  abbrev pub SumsHold : Type 0
  SumsHold =
      ((manifest : Bytes) × (lookup (codes "manifest.json") files ≡ some manifest))
      × ((sums : Bytes) × (lookup (codes "checksum.sha256") files ≡ some sums)
          × All (LineHolds sha256 files) (split_lines sums))

  check_sums_sound : check_sums sha256 files ≡ accepted tt → SumsHold
  unfolding check_sums contains
  check_sums_sound e = elim (Option-cases (lookup (codes "checksum.sha256") files)) [
    | inl k ↦ absurd (refused_ne (rw (check_sums, k) at e))
    | inr (sums, k) ↦ elim (Option-cases (lookup (codes "manifest.json") files)) [
      | inl q ↦ absurd (refused_ne (rw (check_sums, k, contains, q) at e))
      | inr (manifest, q) ↦ (
        (manifest, q),
        (
          sums,
          k,
          check_lines_sound sha256 files (split_lines sums) (rw (check_sums, k, contains, q) at e),
        ),
      )
    ]
  ]

module _ {D : Type 0} (m : Numerals D) (from_json : Bytes → Json D) where
  -- The manifest is an object of this schema version.
  abbrev pub SchemaFits : ℤ → Files → Type 0
  SchemaFits schema files =
      (o : Object D) × (json_file m from_json (codes "manifest.json") files ≡ object o)
      × (to_int m (to_object (o "sourceDevice") "schemaVersion") (pos 0) ≡ schema)

  check_manifest_sound :
      (schema : ℤ) (j : Json D) (r : Object D × Object D)
      → check_manifest m schema j ≡ accepted r
      → (o : Object D) × (j ≡ object o)
        × (to_int m (to_object (o "sourceDevice") "schemaVersion") (pos 0) ≡ schema)
  unfolding check_manifest
  check_manifest_sound schema (object o) r e =
      let version = to_int m (to_object (o "sourceDevice") "schemaVersion") (pos 0) in
      elim (Bool-cases (eq_ℤ version schema)) [
        | inl k ↦ (o, refl, (eq_ℤ_iff version schema).0 k)
        | inr k ↦ absurd (refused_ne (rw k at e))
      ]
  check_manifest_sound schema j r e = absurd (refused_ne e)

  -- What `check_archive` has seen of the files of an archive that it accepts.
  checked_sound :
      (sha256 : Bytes → Bytes) (schema : ℤ) (my_hostname : String) (id : Bytes)
      (entries : Option (List Entry)) (r : Files × RestorePreview)
      → check_archive m from_json sha256 schema my_hostname id entries ≡ accepted r
      → All IsInside r.0 × SumsHold sha256 r.0 × SchemaFits schema r.0
  unfolding check_archive read_manifest
  checked_sound sha256 schema my_hostname id none r e = absurd (refused_ne e)
  checked_sound sha256 schema my_hostname id (some entries) r e =
      let (files, c, e1) = >>=-eq-accepted (collect_files entries []) _ e in
      let (u, s, e2) = >>=-eq-accepted (check_sums sha256 files) _ e1 in
      let (o, k, e3) = >>=-eq-accepted (read_manifest m from_json schema files) _ e2 in
      subst (λ fs. All IsInside fs × SumsHold sha256 fs × SchemaFits schema fs)
        (ap (λ a. (value_or r a).0) e3)
        (
          collect-IsInside entries [] files tt c,
          check_sums_sound sha256 files s,
          check_manifest_sound schema (json_file m from_json (codes "manifest.json") files) o k,
        )

module _ {F : Type 0} (dev : TempDir F) where
  saved_sound :
      (id : Bytes) (c : Checked (Files × RestorePreview)) (preview : RestorePreview) (f : F)
      → (save_checked dev id c f).0 ≡ accepted preview
      → (r : Files × RestorePreview) × (c ≡ accepted r)
        × (save_files dev id r.0 f ≡ (accepted tt, (save_checked dev id c f).1))
  saved_sound id (refused x) preview f e = absurd (refused_ne e)
  saved_sound id (accepted (files, p)) preview f e =
      let (u, k, e2) = >>=-eq-accepted (save_files dev id files f).0 _ e in
      ((files, p), refl, ap (λ c. (c, (save_files dev id files f).1)) k)

  -- Where `validate` accepts an archive, there are files of which all were saved in the directory of the
  -- restoration, behind the clearing of the old ones: none of their names leads out of that
  -- directory, the manifest and the list of hashes are among them, every line of that list with a hash and a
  -- name has the hash of the file with this name, and the schema version of the manifest is that of
  -- the device.
  pub validate_sound :
      {D : Type 0} (m : Numerals D) (from_json : Bytes → Json D) (sha256 : Bytes → Bytes)
      (schema : ℤ) (my_hostname : String) (id : Bytes) (entries : Option (List Entry)) (f : F)
      (preview : RestorePreview)
      → (validate dev m from_json sha256 schema my_hostname id entries f).0 ≡ accepted preview
      → (files : Files) × (save_files dev id files (dev.clear f)
          ≡ (accepted tt, (validate dev m from_json sha256 schema my_hostname id entries f).1))
        × All IsInside files
        × SumsHold sha256 files
        × SchemaFits m from_json schema files
  unfolding validate
  validate_sound m from_json sha256 schema my_hostname id entries f preview e =
      let (r, c, s) =
        saved_sound id (check_archive m from_json sha256 schema my_hostname id entries) preview
          (dev.clear f) e in
      let (inside, sums, fits) =
        checked_sound m from_json sha256 schema my_hostname id entries r c in
      (r.0, s, inside, sums, fits)
