-- ===== src/Maintenance/Backup.antt =====
-- maintenance/BackupManager.cpp: the files of a backup. The version of the program, the time, the hash in
-- hexadecimal digits, and the text of an object are parameters. The names of the files are ASCII, whose
-- bytes are their characters.
use swr.Base.{String, ◌<>◌, true, [], ◌∷◌, ◌++◌}
use swr.Base.Int.{ℤ}
use swr.Base.Json.{bool, text, object, Numerals, Object, empty_object, put, int}
use swr.Maintenance.Files.{Bytes, codes, Files, insert}

-- The macros SR_VERSION, SR_REVISION, SR_ZCODE and SR_SCHEMA_VERSION.
pub record BuildInfo : Type 0 where
  pub version : String
  pub revision : String
  pub zcode : String
  pub schema_version : ℤ

-- What the database gives for a file, or its error.
pub data Fetched (A : Type 0) : Type 0 where
  failed : String → Fetched A
  fetched : A → Fetched A

infixl 5 ◌>>=◌
abbrev pub ◌>>=◌ : {A B : Type 0} → Fetched A → (A → Fetched B) → Fetched B
failed error >>= f = failed error
fetched a >>= f = f a

module _ {D : Type 0} (m : Numerals D) (info : BuildInfo) where
  unfoldable pub build_manifest : String → String → Object D
  build_manifest hostname created_at = put "product" (text "SmartRoute") (
      put "createdAt" (text created_at) (
        put "sourceDevice"
          (object (
            put "hostname" (text hostname) (
              put "version" (text info.version) (
                put "revision" (text info.revision) (
                  put "zcode" (text ("Z" <> info.zcode))
                    (put "schemaVersion" (int m info.schema_version) empty_object))))))
          (put "contents"
            (object (
              put "config" (bool true) (
                put "devices" (bool true) (
                  put "registers" (bool true)
                    (put "users" (bool true) (put "hmi" (bool true) empty_object))))))
            empty_object)))

-- The six files of a backup.
unfoldable pub backup_files : Bytes → Bytes → Bytes → Bytes → Bytes → Bytes → Files
backup_files manifest config devices registers users hmi = insert (codes "hmi.json") hmi (
    insert (codes "users.json") users (
      insert (codes "registers.json") registers (
        insert (codes "devices.json") devices
          (insert (codes "config.json") config (insert (codes "manifest.json") manifest [])))))

module _ (sha256 : Bytes → Bytes) where
  unfoldable pub build_checksum : Files → Bytes
  build_checksum [] = []
  build_checksum ((name, content) ∷ files) =
      sha256 content ++ (32 ∷ (32 ∷ (name ++ (10 ∷ build_checksum files))))

  unfoldable pub with_checksum : Files → Files
  unfolding build_checksum
  with_checksum files = insert (codes "checksum.sha256") (build_checksum files) files

  -- `create`, up to the archive that QZipWriter makes of the files.
  unfoldable pub create :
      Bytes → Bytes → Fetched Bytes → Fetched Bytes → Fetched Bytes → Fetched Bytes → Fetched Files
  unfolding backup_files with_checksum
  create manifest config devices registers users hmi = do
    d ← devices
    r ← registers
    u ← users
    h ← hmi
    fetched (with_checksum (backup_files manifest config d r u h))
