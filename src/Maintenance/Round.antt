-- ===== src/Maintenance/Round.antt =====
-- maintenance/: a backup that BackupManager makes is one that RestoreManager takes.
use mathlib.Core.Path.{subst}
use swr.Base.{◌≡◌, refl, sym, ap, ◌∙◌, arith, String, true, some, List, [], ◌∷◌, map, All}
use swr.Base.Int.{IsInt, eq_ℤ_iff}
use swr.Base.Json.{Json, object, Numerals, Object, to_object}
use swr.Config.Round.{KeepsInts}
use swr.Maintenance.Files.{Bytes, codes, eq_bytes, lt_bytes, Files, lookup, insert, contains}
use swr.Maintenance.Backup.{
  BuildInfo, Fetched, failed, fetched, build_manifest, build_checksum, backup_files, with_checksum,
  create,
}
use swr.Maintenance.Check.{Entry, accepted, ◌>>=◌, has_dots, has_slash, collect_files, check_sums}
use swr.Maintenance.Sums.{IsShown, IsListed, sums_accepted}
use swr.Maintenance.Validate.{
  RestorePreview, TempDir, read_manifest, preview_of, check_archive, write_files, save_files,
  save_checked, validate,
}

-- The files of a backup in the order of their names.
abbrev data_files : Bytes → Bytes → Bytes → Bytes → Bytes → Bytes → Files
data_files manifest config devices registers users hmi =
    (codes "config.json", config)
    ∷ ((codes "devices.json", devices)
        ∷ ((codes "hmi.json", hmi)
            ∷ ((codes "manifest.json", manifest)
                ∷ ((codes "registers.json", registers) ∷ ((codes "users.json", users) ∷ [])))))

abbrev all_files : Bytes → Bytes → Bytes → Bytes → Bytes → Bytes → Bytes → Files
all_files sums manifest config devices registers users hmi =
    (codes "checksum.sha256", sums) ∷ data_files manifest config devices registers users hmi

-- An archive of these files.
abbrev pub entry_of : Bytes × Bytes → Entry
entry_of (name, content) = record { is_file = true; file_path = name; content = content }

module _ (sha256 : Bytes → Bytes) (manifest config devices registers users hmi : Bytes) where
  backup_with_checksum :
      with_checksum sha256 (backup_files manifest config devices registers users hmi)
      ≡ all_files
          (build_checksum sha256 (data_files manifest config devices registers users hmi))
          manifest
          config
          devices
          registers
          users
          hmi
  unfolding with_checksum backup_files insert lt_bytes eq_bytes
  backup_with_checksum = refl

  files_collected :
      (sums : Bytes)
      → collect_files (map entry_of (all_files sums manifest config devices registers users hmi)) []
        ≡ accepted (all_files sums manifest config devices registers users hmi)
  unfolding collect_files has_dots has_slash insert lt_bytes eq_bytes
  files_collected sums = refl

  data-IsListed :
      (sums : Bytes)
      → All
          (IsListed (all_files sums manifest config devices registers users hmi))
          (data_files manifest config devices registers users hmi)
  unfolding lookup eq_bytes
  data-IsListed sums = (
    (omega arith, refl),
    (
      (omega arith, refl),
      (
        (omega arith, refl),
        ((omega arith, refl), ((omega arith, refl), ((omega arith, refl), tt))),
      ),
    ),
  )

  sums_hold :
      ((content : Bytes) → IsShown (sha256 content))
      → check_sums sha256 (
          all_files
            (build_checksum sha256 (data_files manifest config devices registers users hmi))
            manifest
            config
            devices
            registers
            users
            hmi)
        ≡ accepted tt
  unfolding check_sums contains lookup eq_bytes
  sums_hold hash =
      sums_accepted sha256
        (all_files (build_checksum sha256 (data_files manifest config devices registers users hmi))
          manifest config devices registers users hmi)
        (data_files manifest config devices registers users hmi) hash
        (data-IsListed
          (build_checksum sha256 (data_files manifest config devices registers users hmi)))

module _ {D : Type 0} (m : Numerals D) (from_json : Bytes → Json D) (info : BuildInfo) where
  manifest_read :
      (sums manifest config devices registers users hmi : Bytes) (hostname created_at : String)
      → KeepsInts m
      → IsInt info.schema_version
      → from_json manifest ≡ object (build_manifest m info hostname created_at)
      → (read_manifest m from_json info.schema_version
            (all_files sums manifest config devices registers users hmi)
          ≡ accepted (
            build_manifest m info hostname created_at,
            to_object (build_manifest m info hostname created_at "sourceDevice"),
          ))
  unfolding read_manifest lookup eq_bytes build_manifest
  manifest_read sums manifest config devices registers users hmi hostname created_at keeps int e =
      rw
        (
          e,
          keeps info.schema_version int,
          (eq_ℤ_iff info.schema_version info.schema_version).1 refl,
        )
        refl

abbrev files_of : Fetched Files → Files
files_of (failed error) = []
files_of (fetched files) = files

-- The directories take every file.
pub record TakesFiles {F : Type 0} (dev : TempDir F) : Type 0 where
  pub makes : (id : Bytes) (f : F) → (g : F) × (dev.make_dir id f ≡ some g)
  pub writes :
      (id name content : Bytes) (f : F) → (g : F) × (dev.write_file id name content f ≡ some g)

module _ {F : Type 0} (dev : TempDir F) (takes : TakesFiles dev) where
  all_written : (id : Bytes) (files : Files) (f : F) → (write_files dev id files f).0 ≡ accepted tt
  unfolding write_files
  all_written id [] f = refl
  all_written id ((name, content) ∷ files) f =
      let (g, e) = takes.writes id name content f in rw (write_files, e) (all_written id files g)

  all_saved : (id : Bytes) (files : Files) (f : F) → (save_files dev id files f).0 ≡ accepted tt
  unfolding save_files
  all_saved id files f =
      let (g, e) = takes.makes id f in rw (save_files, e) (all_written id files g)

  checked_saved :
      (id : Bytes) (files : Files) (preview : RestorePreview) (f : F)
      → (save_checked dev id (accepted (files, preview)) f).0 ≡ accepted preview
  checked_saved id files preview f = ap (λ c. c >>= λ _. accepted preview) (all_saved id files f)

module _ {D : Type 0} (m : Numerals D) (from_json : Bytes → Json D) (info : BuildInfo)
    (sha256 : Bytes → Bytes) where
  archive_checked :
      (my_hostname : String) (id : Bytes) (entries : List Entry) (files : Files)
      (o : Object D × Object D)
      → collect_files entries [] ≡ accepted files
      → check_sums sha256 files ≡ accepted tt
      → read_manifest m from_json info.schema_version files ≡ accepted o
      → check_archive m from_json sha256 info.schema_version my_hostname id (some entries)
        ≡ accepted (files, preview_of m from_json id info.schema_version my_hostname files o)
  unfolding check_archive
  archive_checked my_hostname id entries files o c s r = rw (c, ◌>>=◌, s, ◌>>=◌, r, ◌>>=◌) refl

  -- The six contents of a backup, whose manifest is read as the object that was written, are given to
  -- `create` without a database error. Where hashes are graphic characters, the schema version fits an
  -- `int` and the directories take every file, `validate` accepts the archive of the files that
  -- `create` makes and gives the preview of these files, on a device of any host name.
  pub validate-create :
      {F : Type 0} (dev : TempDir F) (manifest config devices registers users hmi id : Bytes)
      (hostname created_at my_hostname : String) (files : Files) (f : F)
      → KeepsInts m
      → IsInt info.schema_version
      → ((content : Bytes) → IsShown (sha256 content))
      → TakesFiles dev
      → from_json manifest ≡ object (build_manifest m info hostname created_at)
      → create sha256 manifest config
          (fetched devices)
          (fetched registers)
          (fetched users)
          (fetched hmi)
        ≡ fetched files
      → ((validate dev m from_json sha256 info.schema_version my_hostname id
            (some (map entry_of files))
            f).0
          ≡ accepted (
              preview_of m from_json id info.schema_version my_hostname files (
                build_manifest m info hostname created_at,
                to_object (build_manifest m info hostname created_at "sourceDevice"),
              )))
  unfolding create validate check_archive
  validate-create dev manifest config devices registers users hmi id hostname created_at my_hostname
        files f keeps int hash takes e made =
      let sums = build_checksum sha256 (data_files manifest config devices registers users hmi) in
      let o = build_manifest m info hostname created_at in
      subst
        (λ fs.
          (validate dev m from_json sha256 info.schema_version my_hostname id
            (some (map entry_of fs)) f).0
          ≡ accepted (
              preview_of m from_json id info.schema_version my_hostname fs
                (o, to_object (o "sourceDevice"))))
        (sym (backup_with_checksum sha256 manifest config devices registers users hmi)
          ∙ ap files_of made)
        (ap (λ c. (save_checked dev id c (dev.clear f)).0)
            (archive_checked my_hostname id
              (map entry_of (all_files sums manifest config devices registers users hmi))
              (all_files sums manifest config devices registers users hmi)
              (o, to_object (o "sourceDevice"))
              (files_collected sha256 manifest config devices registers users hmi sums)
              (sums_hold sha256 manifest config devices registers users hmi hash)
              (manifest_read m from_json info sums manifest config devices registers users hmi
                hostname created_at keeps int e))
          ∙ checked_saved dev takes id (all_files sums manifest config devices registers users hmi)
              (preview_of m from_json id info.schema_version my_hostname
                (all_files sums manifest config devices registers users hmi)
                (o, to_object (o "sourceDevice")))
              (dev.clear f))
