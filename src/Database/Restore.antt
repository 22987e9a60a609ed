-- ===== src/Database/Restore.antt =====
-- data_collection/database/DeviceDatabase.cpp, `restoreData`: the data of a backup in one transaction. The
-- warnings, which are texts in the source, are constructors.
use swr.Base.{
  ℕ, ◌+◌, String, Bool, true, false, not, ◌&&◌, ◌||◌, Option, none, some, List, [], ◌∷◌, ◌++◌, ltb,
  if◌then◌else◌,
}
use swr.Base.Int.{ℤ, pos, negsuc, is_neg}
use swr.Base.Json.{
  Json, Numerals, Object, to_object, to_array, to_string, to_int, is_double, or_default,
}
use text.Mathlib.Text.{◌==◌}
use swr.Store.Hash.{Hash}
use swr.Store.Hash
use swr.Database.Rows.{device_row, register_row, screen_row, tag_row, not_empty, user_row}
use swr.Database.Tx.{
  Outcome, failed, done, Tx, ◌>>=◌, return, TagSnapshot, delete_devices, insert_device,
  insert_register, insert_kept_tag, insert_user, delete_tags, delete_screens, delete_project,
  insert_screen, insert_project, insert_tag, Sql,
}

pub data HmiWarning : Type 0 where
  tags_removed : List String → HmiWarning
  start_screen_missing : String → Option String → HmiWarning
  tags_skipped : ℕ → HmiWarning

-- `map.value(key, -1)`
abbrev pub id_or_none : Hash ℤ → ℤ → ℤ
id_or_none h key = or_default (Hash.find key h) (negsuc 0)

unfoldable pub by_unified : List (ℤ × ℤ) → Hash ℤ → Hash ℤ
by_unified [] h = h
by_unified ((unified, id) ∷ rows) h = by_unified rows (Hash.insert unified id h)

abbrev pub first : List String → Option String
first [] = none
first (id ∷ ids) = some id

unfoldable pub has_id : String → List String → Bool
has_id id [] = false
has_id id (x ∷ xs) = if x == id then true else has_id id xs

-- The start screen and the warning, from the one of the backup and the screens that were restored.
unfoldable pub start_screen_of : String → List String → String × List HmiWarning
unfolding has_id
start_screen_of start ids =
    if start == ""
    then (or_default (first ids) "", [])
    else if has_id start ids
    then (start, [])
    else (or_default (first ids) "", start_screen_missing start (first ids) ∷ [])

module _ {S D : Type 0} (db : Sql S D) (m : Numerals D) where
  -- The ids of the new rows, by the ids in the backup.
  unfoldable pub insert_devices : List (Json D) → Hash ℤ → Tx S (Hash ℤ)
  insert_devices [] ids = return ids
  insert_devices (v ∷ vs) ids = do
    id ← db.run (insert_device (device_row m (to_object v)))
    insert_devices vs (Hash.insert (to_int m (to_object v "id") (pos 0)) id ids)

  -- A register without its device is left out.
  unfoldable pub insert_registers : Hash ℤ → List (Json D) → Tx S (Unit {0})
  insert_registers ids [] = return tt
  insert_registers ids (v ∷ vs) =
      let rest = insert_registers ids vs in
      let id = id_or_none ids (to_int m (to_object v "deviceId") (pos 0)) in
      if is_neg id
      then rest
      else (db.run (insert_register id (register_row m (to_object v))) >>= λ _. rest)

  unfoldable pub restore_devices : List (Json D) → List (Json D) → Tx S (Unit {0})
  unfolding insert_devices insert_registers
  restore_devices devices registers = do
    _ ← db.run delete_devices
    ids ← insert_devices devices []
    insert_registers ids registers

  -- The ids of the tags whose register is gone.
  unfoldable pub relink : Hash ℤ → List (TagSnapshot D) → Tx S (List String)
  relink h [] = return []
  relink h (t ∷ ts) =
      let id = if is_neg t.unified_address then negsuc 0 else id_or_none h t.unified_address in
      let rest = relink h ts in
      if is_neg id
      then (rest >>= λ dropped. return (t.row.id ∷ dropped))
      else (db.run (insert_kept_tag id t) >>= λ _. rest)

  unfoldable pub relink_tags : List (TagSnapshot D) → Tx S (List HmiWarning)
  unfolding by_unified relink
  relink_tags [] = return []
  relink_tags (t ∷ ts) = do
    rows ← db.unified_registers
    dropped ← relink (by_unified rows []) (t ∷ ts)
    return (elim dropped [ [] ↦ [] | ◌∷◌ x xs ↦ tags_removed (x ∷ xs) ∷ [] ])

  -- A user who is there already, "admin" and a user without a name are left out.
  unfoldable pub restore_users : List (Json D) → Tx S (Unit {0})
  restore_users [] = return tt
  restore_users (v ∷ vs) =
      let rest = restore_users vs in
      let name = to_string (to_object v "username") "" in
      let added = (db.run (insert_user (user_row (to_object v))) >>= λ _. rest) in
      if (name == "") || (name == "admin")
      then rest
      else (db.count_users name >>= λ n. if ltb 0 n then rest else added)

  -- The ids of the screens, in the order of the backup.
  unfoldable pub insert_screens :
      (Object D → String) → String → ℕ → List (Json D) → Tx S (List String)
  insert_screens to_text now order [] = return []
  insert_screens to_text now order (v ∷ vs) =
      let o = to_object v in
      let id = to_string (o "id") "" in
      let skipped = insert_screens to_text now order vs in
      let rest = insert_screens to_text now (order + 1) vs in
      if id == ""
      then skipped
      else (db.run (insert_screen (screen_row m to_text now (pos order) o)) >>= λ _.
          (rest >>= λ ids. return (id ∷ ids)))

  -- The number of the tags whose register is not there.
  unfoldable pub insert_tags : Hash ℤ → List (Json D) → Tx S ℕ
  insert_tags h [] = return 0
  insert_tags h (v ∷ vs) =
      let o = to_object v in
      let rest = insert_tags h vs in
      let id =
        if is_double (o "unifiedAddress")
        then id_or_none h (to_int m (o "unifiedAddress") (negsuc 0))
        else negsuc 0 in
      if to_string (o "id") "" == ""
      then rest
      else if is_neg id
      then (rest >>= λ n. return (n + 1))
      else (db.run (insert_tag id (tag_row m o)) >>= λ _. rest)

  unfoldable pub wipe_hmi : Tx S ℤ
  wipe_hmi = do _ ← db.run delete_tags; _ ← db.run delete_screens; db.run delete_project

  -- The project and the tags, behind the screens `ids`.
  unfoldable pub insert_hmi : Object D → List (ℤ × ℤ) → List String → Tx S (List HmiWarning)
  unfolding by_unified start_screen_of insert_tags
  insert_hmi hmi rows ids = do
    let project = to_object (hmi "project")
    let start = start_screen_of (to_string (project "startScreen") "") ids
    _ ← db.run (
        insert_project (to_string (project "name") "") (not_empty start.0)
          (to_int m (project "revision") (pos 0)))
    skipped ← insert_tags (by_unified rows []) (to_array (hmi "tags"))
    return (start.1 ++ (if ltb 0 skipped then tags_skipped skipped ∷ [] else []))

  unfoldable pub restore_hmi : (Object D → String) → String → Object D → Tx S (List HmiWarning)
  unfolding wipe_hmi insert_screens insert_hmi
  restore_hmi to_text now hmi = do
    rows ← db.unified_registers
    _ ← wipe_hmi
    ids ← insert_screens to_text now 0 (to_array (hmi "screens"))
    insert_hmi hmi rows ids

-- What is to be restored, and from what.
pub record Restored (D : Type 0) : Type 0 where
  pub with_devices : Bool
  pub devices : List (Json D)
  pub registers : List (Json D)
  pub with_users : Bool
  pub users : List (Json D)
  pub with_hmi : Bool
  pub hmi : Object D

abbrev pub when : {S A : Type 0} → Bool → A → Tx S A → Tx S A
when test default c = if test then c else return default

-- An error ends the transaction without its changes.
abbrev pub or_roll_back : {S D A : Type 0} → Sql S D → Outcome S A → Outcome S A
or_roll_back db (done a s) = done a s
or_roll_back db (failed error s) = failed error (db.rollback s)

module _ {S D : Type 0} (db : Sql S D) (m : Numerals D) (to_text : Object D → String)
    (now : String) where
  -- What stands between the beginning and the end of the transaction.
  unfoldable pub restore_parts : Restored D → Tx S (List HmiWarning)
  unfolding restore_devices relink_tags restore_users restore_hmi
  restore_parts r = do
    kept ← when (r.with_devices && not r.with_hmi) [] db.kept_tags
    _ ← when r.with_devices tt (restore_devices db m r.devices r.registers)
    relinked ← relink_tags db m kept
    _ ← when r.with_users tt (restore_users db m r.users)
    warned ← when r.with_hmi [] (restore_hmi db m to_text now r.hmi)
    return (relinked ++ warned)

  unfoldable pub restore_data : Restored D → Tx S (List HmiWarning)
  unfolding restore_parts
  restore_data r s =
      if not (db.is_open s)
      then failed "Database is not open." s
      else (db.transaction >>= λ _. λ t.
            or_roll_back db
              ((restore_parts r >>= λ warnings. (db.commit >>= λ _. return warnings)) t))
          s
