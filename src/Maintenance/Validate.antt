-- ===== src/Maintenance/Validate.antt =====
-- maintenance/RestoreManager.cpp, `validate`: the check of an archive, and its files in a directory for a
-- later restoration. The archive as QZipReader reads it, the directories, JSON text and the id of the
-- restoration are parameters. Where the source returns a preview that is not valid, with an error text,
-- the model gives the error alone; the warnings are constructors.
use swr.Base.{
  ℕ, String, Bool, true, false, ◌||◌, Option, none, some, List, [], ◌∷◌, ◌++◌, length, ltb,
  if◌then◌else◌,
}
use swr.Base.Int.{ℤ, pos, eq_ℤ}
use swr.Base.Json.{
  Json, object, undefined, Numerals, Object, to_object, to_array, to_string, to_int,
}
use text.Mathlib.Text.{◌==◌}
use swr.Maintenance.Files.{Bytes, codes, Files, lookup}
use swr.Maintenance.Check.{
  Entry, invalid_zip, invalid_manifest, incompatible_schema, no_temp_dir, not_written, Checked,
  refused, accepted, ◌>>=◌, collect_files, check_sums,
}

-- The host of the backup and this one, and the numbers of the screens and tags that are replaced.
pub data Warning : Type 0 where
  other_host : String → String → Warning
  network_not_restored : Warning
  hmi_replaced : ℕ → ℕ → Warning
  tags_without_registers : Warning

pub record RestoreItemInfo : Type 0 where
  pub available : Bool
  pub count : ℕ
  pub warning : Option Warning

pub record BackupInfo : Type 0 where
  pub product : String
  pub created_at : String
  pub hostname : String
  pub version : String
  pub revision : String
  pub zcode : String
  pub schema_version : ℤ

pub record RestorePreview : Type 0 where
  pub restore_id : Bytes
  pub backup_info : BackupInfo
  pub config : RestoreItemInfo
  pub devices : RestoreItemInfo
  pub registers : RestoreItemInfo
  pub users : RestoreItemInfo
  pub hmi : RestoreItemInfo
  pub warnings : List Warning

-- The directory of the restorations, a value of `F`: emptied, and a directory with files in it.
pub record TempDir (F : Type 0) : Type 0 where
  pub clear : F → F
  pub make_dir : Bytes → F → Option F
  pub write_file : Bytes → Bytes → Bytes → F → Option F
  pub remove_dir : Bytes → F → F
  pub exists : Bytes → F → Bool
  pub read_file : Bytes → Bytes → F → Option Bytes

abbrev pub no_item : RestoreItemInfo
no_item = record { available = false; count = 0; warning = none }

module _ {D : Type 0} (m : Numerals D) where
  -- Step 5: the manifest, and its object `sourceDevice`.
  unfoldable pub check_manifest : ℤ → Json D → Checked (Object D × Object D)
  check_manifest schema (object o) =
      let src = to_object (o "sourceDevice") in
      let version = to_int m (src "schemaVersion") (pos 0) in
      if eq_ℤ version schema
      then accepted (o, src)
      else refused (incompatible_schema version schema)
  check_manifest schema _ = refused invalid_manifest

module _ {D : Type 0} (m : Numerals D) (from_json : Bytes → Json D) where
  -- The JSON of a file, or of nothing.
  abbrev pub json_file : Bytes → Files → Json D
  json_file name files = elim (lookup name files) [
    | none ↦ undefined
    | some content ↦ from_json content
  ]

  -- A file that holds an array.
  unfoldable pub array_item : Bytes → Files → RestoreItemInfo
  array_item name files = elim (lookup name files) [
    | none ↦ no_item
    | some content ↦ record {
      available = true;
      count = length (to_array (from_json content));
      warning = none;
    }
  ]

  unfoldable pub hmi_counts : Files → ℕ × ℕ
  hmi_counts files =
      let o = to_object (json_file (codes "hmi.json") files) in
      (length (to_array (o "screens")), length (to_array (o "tags")))

  unfoldable pub hmi_item : Files → RestoreItemInfo
  unfolding hmi_counts
  hmi_item files = elim (lookup (codes "hmi.json") files) [
    | none ↦ no_item
    | some content ↦
        let (screens, tags) = hmi_counts files in
        record {
          available = ltb 0 screens || ltb 0 tags;
          count = screens;
          warning = if ltb 0 screens || ltb 0 tags then some (hmi_replaced screens tags) else none;
        }
  ]

  unfoldable pub config_item : Files → RestoreItemInfo
  config_item files = elim (lookup (codes "config.json") files) [
    | none ↦ no_item
    | some content ↦ record { available = true; count = 1; warning = some network_not_restored }
  ]

  unfoldable pub warnings_of : String → String → Files → List Warning
  unfolding hmi_counts
  warnings_of hostname my_hostname files =
      (if hostname == my_hostname then [] else other_host hostname my_hostname ∷ [])
      ++ (if ltb 0 (hmi_counts files).1 then tags_without_registers ∷ [] else [])

  unfoldable pub read_manifest : ℤ → Files → Checked (Object D × Object D)
  unfolding check_manifest
  read_manifest schema files = check_manifest m schema (json_file (codes "manifest.json") files)

  -- Steps 6 to 8.
  unfoldable pub preview_of : Bytes → ℤ → String → Files → Object D × Object D → RestorePreview
  unfolding array_item hmi_item config_item warnings_of
  preview_of id schema my_hostname files (manifest, src) = record {
    restore_id = id;
    backup_info = record {
      product = to_string (manifest "product") "";
      created_at = to_string (manifest "createdAt") "";
      hostname = to_string (src "hostname") "";
      version = to_string (src "version") "";
      revision = to_string (src "revision") "";
      zcode = to_string (src "zcode") "";
      schema_version = schema;
    };
    config = config_item files;
    devices = array_item (codes "devices.json") files;
    registers = array_item (codes "registers.json") files;
    users = array_item (codes "users.json") files;
    hmi = hmi_item files;
    warnings = warnings_of (to_string (src "hostname") "") my_hostname files;
  }

  -- Steps 1 to 8, from the entries of the archive, where it is one.
  unfoldable pub check_archive :
      (Bytes → Bytes) → ℤ → String → Bytes → Option (List Entry) → Checked (Files × RestorePreview)
  unfolding collect_files check_sums read_manifest preview_of
  check_archive sha256 schema my_hostname id none = refused invalid_zip
  check_archive sha256 schema my_hostname id (some entries) = do
    files ← collect_files entries []
    _ ← check_sums sha256 files
    manifest ← read_manifest schema files
    accepted (files, preview_of id schema my_hostname files manifest)

module _ {F : Type 0} (dev : TempDir F) where
  -- Step 9, behind the making of the directory `id`, which is removed when a file cannot be opened.
  unfoldable pub write_files : Bytes → Files → F → Checked (Unit {0}) × F
  write_files id [] f = (accepted tt, f)
  write_files id ((name, content) ∷ files) f = elim (dev.write_file id name content f) [
    | none ↦ (refused (not_written name), dev.remove_dir id f)
    | some g ↦ write_files id files g
  ]

  unfoldable pub save_files : Bytes → Files → F → Checked (Unit {0}) × F
  unfolding write_files
  save_files id files f = elim (dev.make_dir id f) [
    | none ↦ (refused no_temp_dir, f)
    | some g ↦ write_files id files g
  ]

  abbrev pub save_checked :
      Bytes → Checked (Files × RestorePreview) → F → Checked RestorePreview × F
  save_checked id (refused e) f = (refused e, f)
  save_checked id (accepted (files, preview)) f =
      let (saved, g) = save_files id files f in (saved >>= λ _. accepted preview, g)

  unfoldable pub validate :
      {D : Type 0}
      → Numerals D
      → (Bytes → Json D)
      → (Bytes → Bytes)
      → ℤ
      → String
      → Bytes
      → Option (List Entry)
      → F
      → Checked RestorePreview × F
  unfolding check_archive save_files
  validate m from_json sha256 schema my_hostname id entries f =
      save_checked id (check_archive m from_json sha256 schema my_hostname id entries) (dev.clear f)
