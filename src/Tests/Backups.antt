-- ===== src/Tests/Backups.antt =====
-- A backup of small files, and its check.
use swr.Base.{ℕ, suc, ◌≡◌, refl, arith, true, none, some, [], ◌∷◌, map, All}
use swr.Base.Int.{pos}
use swr.Base.Json.{Json, undefined, object, to_object}
use swr.Maintenance.Files.{Bytes, Files, codes}
use swr.Maintenance.Backup.{BuildInfo, build_manifest, backup_files, with_checksum, create}
use swr.Maintenance.Check.{accepted}
use swr.Maintenance.Validate.{RestorePreview, TempDir, preview_of, validate, save_files}
use swr.Maintenance.Round.{entry_of, TakesFiles, validate-create}
use swr.Maintenance.Sound.{IsInside}
use swr.Maintenance.Accepted.{SumsHold, SchemaFits, validate_sound}
use swr.Tests.Settings.{coded, coded_keeps}

abbrev info : BuildInfo
info = record { version = "1"; revision = "2"; zcode = "3"; schema_version = pos 7 }

-- Every text that is not empty is the manifest, and every hash is "ab".
abbrev pub parsed : Bytes → Json ℕ
parsed [] = undefined
parsed (c ∷ cs) = object (build_manifest coded info "host" "now")

abbrev hash : Bytes → Bytes
hash content = codes "ab"

-- The directories as the number of their files.
abbrev pub counted : TempDir ℕ
counted = record {
  clear = λ n. 0;
  make_dir = λ id n. some n;
  write_file = λ id name content n. some (suc n);
  remove_dir = λ id n. 0;
  exists = λ id n. true;
  read_file = λ id name n. none;
}

counted_takes : TakesFiles counted
counted_takes = record { makes = λ id f. (f, refl); writes = λ id name content f. (suc f, refl) }

abbrev one : Bytes
one = codes "1"

abbrev small_backup : Files
small_backup = with_checksum hash (backup_files one one one one one one)

abbrev small_preview : RestorePreview
small_preview = preview_of coded parsed (codes "id") (pos 7) "other" small_backup (
  build_manifest coded info "host" "now",
  to_object (build_manifest coded info "host" "now" "sourceDevice"),
)

validate-create_example :
    (validate counted coded parsed hash
      (pos 7)
      "other"
      (codes "id")
      (some (map entry_of small_backup))
      5).0
    ≡ accepted small_preview
unfolding create
validate-create_example =
    validate-create coded parsed info hash counted one one one one one one (codes "id") "host" "now"
      "other" small_backup 5 coded_keeps (omega arith) (λ content. omega arith) counted_takes refl
      refl

small_accepted :
    (validate counted coded parsed hash
      (pos 7)
      "other"
      (codes "id")
      (some (map entry_of small_backup))
      5).0
    ≡ accepted small_preview
unfolding create
small_accepted =
    validate-create coded parsed info hash counted one one one one one one (codes "id") "host" "now"
      "other" small_backup 5 coded_keeps (omega arith) (λ content. omega arith) counted_takes refl
      refl

validate_sound_example :
    (files : Files) × (save_files counted (codes "id") files 0 ≡ (
      accepted tt,
      (validate counted coded parsed hash
          (pos 7)
          "other"
          (codes "id")
          (some (map entry_of small_backup))
          5).1,
    ))
    × All IsInside files
    × SumsHold hash files
    × SchemaFits coded parsed (pos 7) files
validate_sound_example =
    validate_sound counted coded parsed hash (pos 7) "other" (codes "id")
      (some (map entry_of small_backup)) 5 small_preview small_accepted
