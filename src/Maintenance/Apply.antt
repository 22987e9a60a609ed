-- ===== src/Maintenance/Apply.antt =====
-- maintenance/RestoreManager.cpp, `apply`: the restoration of what `validate` has left in a directory. The
-- state is the directories, the database and the file of the settings; whether polling runs and the current
-- settings are arguments.
use swr.Base.{String, Bool, true, false, not, ◌||◌, Option, none, some, List, [], if◌then◌else◌}
use swr.Base.Json.{Json, object, undefined, Numerals, Object, to_object, to_array, or_default}
use swr.Config.{AppConfig}
use swr.Config.File.{ConfigFile, save_config}
use swr.Database.Tx.{Outcome, failed, done, Sql}
use swr.Database.Restore.{HmiWarning, Restored, restore_data}
use swr.Maintenance.Files.{Bytes, codes, is_empty}
use swr.Maintenance.Settings.{restored_config}
use swr.Maintenance.Validate.{TempDir}

pub record RestoreOptions : Type 0 where
  pub config : Bool
  pub network : Bool
  pub devices : Bool
  pub registers : Bool
  pub users : Bool
  pub hmi : Bool

pub data ApplyResult : Type 0 where
  session_not_found : ApplyResult
  polling_runs : ApplyResult
  not_restored : String → ApplyResult
  -- `restartRequired` is set, and the warnings were logged.
  applied : List HmiWarning → ApplyResult

pub record World (F S C : Type 0) : Type 0 where
  pub dirs : F
  pub database : S
  pub settings : C

-- An error of the file is only logged.
abbrev pub saved_or_old : {C : Type 0} → Option C → C → C
saved_or_old none c = c
saved_or_old (some saved) c = saved

abbrev pub is_applied : ApplyResult → Bool
is_applied (applied warnings) = true
is_applied _ = false

module _ {F D : Type 0} (dev : TempDir F) (from_json : Bytes → Json D) where
  -- The JSON of a file that is to be restored; nothing is read otherwise.
  abbrev pub read_json : Bool → Bytes → Bytes → F → Json D
  read_json false id name f = undefined
  read_json true id name f = from_json (or_default (dev.read_file id name f) [])

  unfoldable pub to_restore : RestoreOptions → Bytes → F → Restored D
  to_restore o id f = record {
    with_devices = o.devices;
    devices = to_array (read_json o.devices id (codes "devices.json") f);
    registers = to_array (read_json o.registers id (codes "registers.json") f);
    with_users = o.users;
    users = to_array (read_json o.users id (codes "users.json") f);
    with_hmi = o.hmi;
    hmi = to_object (read_json o.hmi id (codes "hmi.json") f);
  }

module _ {F S D : Type 0} (dev : TempDir F) (db : Sql S D) (m : Numerals D)
    (from_json : Bytes → Json D) (to_text : Object D → String) (now : String) where
  -- Step 5: nothing is done for the registers alone.
  unfoldable pub apply_database : RestoreOptions → Bytes → F → S → Outcome S (List HmiWarning)
  unfolding to_restore
  apply_database o id f s =
      if o.devices || (o.users || o.hmi)
      then restore_data db m to_text now (to_restore dev from_json o id f) s
      else done [] s

module _ {F C T D : Type 0} (dev : TempDir F) (file : ConfigFile C T D) (m : Numerals D)
    (from_json : Bytes → Json D) where
  abbrev pub apply_document : Bool → Json D → AppConfig D → C → C
  apply_document network (object root) current c =
      saved_or_old (save_config file m (restored_config m network root current) c) c
  apply_document network _ current c = c

  -- Step 6.
  unfoldable pub apply_config : RestoreOptions → Bytes → F → AppConfig D → C → C
  apply_config o id f current c =
      if not o.config then c else elim (dev.read_file id (codes "config.json") f) [
        | none ↦ c
        | some content ↦
            if is_empty content then c else apply_document o.network (from_json content) current c
      ]

  unfoldable pub finish_apply :
      {S : Type 0}
      → RestoreOptions
      → Bytes
      → AppConfig D
      → World F S C
      → Outcome S (List HmiWarning)
      → ApplyResult × World F S C
  unfolding apply_config
  finish_apply o id current w (failed error s) =
      (not_restored error, record w { dirs = dev.remove_dir id w.dirs; database = s })
  finish_apply o id current w (done warnings s) = (
    applied warnings,
    record {
      dirs = dev.remove_dir id w.dirs;
      database = s;
      settings = apply_config o id w.dirs current w.settings;
    },
  )

module _ {F S C T D : Type 0} (dev : TempDir F) (db : Sql S D) (file : ConfigFile C T D)
    (m : Numerals D) (from_json : Bytes → Json D) (to_text : Object D → String) (now : String) where
  unfoldable pub apply :
      Bool → Bytes → RestoreOptions → AppConfig D → World F S C → ApplyResult × World F S C
  unfolding apply_database finish_apply
  apply running id o current w =
      if not (dev.exists id w.dirs)
      then (session_not_found, w)
      else if running
      then (polling_runs, w)
      else (finish_apply dev file m from_json o id current w
          (apply_database dev db m from_json to_text now o id w.dirs w.database))
