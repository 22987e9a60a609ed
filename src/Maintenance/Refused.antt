-- ===== src/Maintenance/Refused.antt =====
-- maintenance/RestoreManager.cpp: a restoration that is refused changes neither the database nor the settings.
use swr.Base.{◌≡◌, refl, String, Bool, true, false, ◌||◌, List, Option, Bool-cases, inl, inr}
use swr.Base.Json.{Json, Numerals, Object}
use swr.Config.{AppConfig}
use swr.Config.File.{ConfigFile}
use swr.Database.Tx.{Outcome, failed, done, Sql}
use swr.Database.Restore.{HmiWarning}
use swr.Database.Rollback.{IsTransactional, done_ne, failed_restore}
use swr.Maintenance.Files.{Bytes}
use swr.Maintenance.Validate.{TempDir}
use swr.Maintenance.Apply.{
  RestoreOptions, World, to_restore, apply_database, finish_apply, apply, is_applied,
}

true_ne : true ≡ false → ⊥
true_ne e = cc

module _ {F S C T D : Type 0} (dev : TempDir F) (db : Sql S D) (file : ConfigFile C T D)
    (m : Numerals D) (from_json : Bytes → Json D) (to_text : Object D → String) (now : String)
    (base : S → Option S) (laws : IsTransactional db base) where
  database_kept :
      (o : RestoreOptions) (id : Bytes) (f : F) (s t : S) (error : String)
      → apply_database dev db m from_json to_text now o id f s ≡ failed error t
      → t ≡ s
  unfolding apply_database
  database_kept o id f s t error e = elim (Bool-cases (o.devices || (o.users || o.hmi))) [
    | inl k ↦
        failed_restore db m base laws to_text now (to_restore dev from_json o id f) s t error
          (rw k at e)
    | inr k ↦ absurd (done_ne (rw k at e))
  ]

  finish_refused :
      (o : RestoreOptions) (id : Bytes) (current : AppConfig D) (w : World F S C)
      (out : Outcome S (List HmiWarning))
      → ((error : String) (t : S) → out ≡ failed error t → t ≡ w.database)
      → is_applied (finish_apply dev file m from_json o id current w out).0 ≡ false
      → ((finish_apply dev file m from_json o id current w out).1.database ≡ w.database)
        × ((finish_apply dev file m from_json o id current w out).1.settings ≡ w.settings)
  unfolding finish_apply
  finish_refused o id current w (failed error s) h e = (h error s refl, refl)
  finish_refused o id current w (done warnings s) h e = absurd (true_ne e)

  -- A restoration that is not applied, because its directory is gone, polling runs or a statement fails,
  -- leaves the database and the settings as they were.
  pub refused_apply :
      (running : Bool) (id : Bytes) (o : RestoreOptions) (current : AppConfig D) (w : World F S C)
      → is_applied (apply dev db file m from_json to_text now running id o current w).0 ≡ false
      → ((apply dev db file m from_json to_text now running id o current w).1.database ≡ w.database)
        × ((apply dev db file m from_json to_text now running id o current w).1.settings
            ≡ w.settings)
  unfolding apply
  refused_apply running id o current w e = elim (Bool-cases (dev.exists id w.dirs)) [
    | inr k ↦ rw k (refl, refl)
    | inl k ↦ elim (Bool-cases running) [
      | inl z ↦ rw (k, z) (refl, refl)
      | inr z ↦
          rw (k, z)
            (finish_refused o id current w
              (apply_database dev db m from_json to_text now o id w.dirs w.database)
              (λ error t q. database_kept o id w.dirs w.database t error q) (rw (k, z) at e))
    ]
  ]
