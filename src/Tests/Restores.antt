-- ===== src/Tests/Restores.antt =====
-- Restorations into a database that is a list of user names, from the directory of a backup.
use swr.Base.{
  ℕ, ◌≡◌, refl, arith, ap, sym, ◌∙◌, String, Bool, true, false, Option, none, some, List, [], ◌∷◌,
  ◌++◌, ltb, if◌then◌else◌,
}
use mathlib.Core.List.{append-nil}
use swr.Base.Int.{ℤ, pos}
use swr.Base.Json.{object, text, Object, put, empty_object}
use swr.Config.{initial_config}
use swr.Database.Rows.{UserRow, user_row}
use swr.Database.Tx.{Outcome, failed, done, Statement, delete_devices, insert_user, Sql}
use swr.Database.Restore.{has_id, Restored, restore_data}
use swr.Database.Rollback.{KeepsBase, done_ne, IsTransactional}
use swr.Database.Calls.{inserted_users}
use swr.Database.Users.{ShowsUsers}
use swr.Database.Users.Added.{Adds, restore_data-Adds}
use swr.Maintenance.Files.{codes}
use swr.Maintenance.Apply.{RestoreOptions, World, apply}
use swr.Maintenance.Refused.{refused_apply}
use swr.Tests.Settings.{coded, object_file}
use swr.Tests.Backups.{parsed, counted}

-- A database of user names, with the names at the beginning of a transaction. Devices cannot be deleted.
abbrev Names : Type 0
Names = List String × Option (List String)

abbrev names_before : Names → Option Names
names_before (names, none) = none
names_before (names, some old) = some (old, none)

abbrev names_back : Names → Names
names_back (names, none) = (names, none)
names_back (names, some old) = (old, none)

abbrev names_run : Statement ℕ → Names → Outcome Names ℤ
names_run (insert_user u) (names, old) = done (pos 9) (names ++ (u.username ∷ []), old)
names_run delete_devices s = failed "locked" s
names_run _ s = done (pos 9) s

abbrev names_begin : Names → Outcome Names (Unit {0})
names_begin (names, none) = done tt (names, some names)
names_begin (names, some old) = failed "nested" (names, some old)

abbrev names_database : Sql Names ℕ
names_database = record {
  is_open = λ s. true;
  transaction = names_begin;
  commit = λ (names, old). done tt (names, none);
  rollback = names_back;
  run = names_run;
  kept_tags = λ s. done [] s;
  unified_registers = λ s. done [] s;
  count_users = λ name (names, old). done (if has_id name names then 1 else 0) (names, old);
}

abbrev end_of : {S A : Type 0} → S → Outcome S A → S
end_of s (failed error t) = t
end_of s (done a t) = t

begins_before : (s t : Names) → names_begin s ≡ done tt t → names_before t ≡ some s
begins_before (names, none) t e = ap (λ o. names_before (end_of t o)) (sym e)
begins_before (names, some old) t e = absurd (done_ne (sym e))

begin_fails : (s t : Names) (error : String) → names_begin s ≡ failed error t → t ≡ s
begin_fails (names, none) t error e = absurd (done_ne e)
begin_fails (names, some old) t error e = ap (end_of t) (sym e)

insert_before :
    (u : UserRow) (s old : Names)
    → names_before s ≡ some old
    → names_before (end_of s (names_run (insert_user u) s)) ≡ some old
insert_before u (names, none) old b = b
insert_before u (names, some x) old b = b

run_before : (q : Statement ℕ) → KeepsBase names_before (names_run q)
run_before (insert_user u) = record { apply = insert_before u }
run_before q = record { apply = λ s old b. b }

back : (s old : Names) → names_before s ≡ some old → names_back s ≡ old
back (names, none) old b = ground (arith, b)
back (names, some x) old b = ground (arith, b)

names-IsTransactional : IsTransactional names_database names_before
names-IsTransactional = record {
  begins = begins_before;
  not_begun = begin_fails;
  run = run_before;
  kept_tags = record { apply = λ s old b. b };
  unified_registers = record { apply = λ s old b. b };
  count_users = λ name. record { apply = λ (names, x) old b. b };
  commit = λ s t old error b e. absurd (done_ne e);
  undoes = back;
}

abbrev world : World ℕ Names (Option (Object ℕ))
world = record { dirs = 3; database = ("op" ∷ [], none); settings = none }

abbrev all_options : RestoreOptions
all_options = record {
  config = true;
  network = false;
  devices = true;
  registers = true;
  users = true;
  hmi = false;
}

abbrev applied_world : World ℕ Names (Option (Object ℕ))
applied_world =
    (apply counted names_database object_file coded parsed (λ o. "") "now" false (codes "id")
      all_options initial_config world).1

refused_apply_example :
    (applied_world.database ≡ world.database) × (applied_world.settings ≡ world.settings)
unfolding apply restore_data
refused_apply_example =
    refused_apply counted names_database object_file coded parsed (λ o. "") "now" names_before
      names-IsTransactional false (codes "id") all_options initial_config world refl

abbrev count_in : {S : Type 0} → Outcome S ℕ → ℕ
count_in (failed error s) = 0
count_in (done n s) = n

counted_is : (b : Bool) → ltb 0 (if b then 1 else 0) ≡ b
counted_is true = refl
counted_is false = refl

names_of : {A : Type 0} (s t : Names) (a b : A) → done a s ≡ done b t → t.0 ≡ s.0
names_of s t a b e = cc

names_count :
    (name : String) (s t : Names) (n : ℕ)
    → names_database.count_users name s ≡ done n t
    → (t.0 ≡ s.0) × (ltb 0 n ≡ has_id name s.0)
names_count name (names, old) t n e = (
  names_of (names, old) t _ n e,
  ap (λ o. ltb 0 (count_in o)) (sym e) ∙ counted_is (has_id name names),
)

names_begin_same : (s t : Names) → names_begin s ≡ done tt t → t.0 ≡ s.0
names_begin_same (names, none) t e = ap (λ o. (end_of t o).0) (sym e)
names_begin_same (names, some old) t e = absurd (done_ne (sym e))

names_run_same :
    (q : Statement ℕ) (s t : Names) (id : ℤ)
    → names_run q s ≡ done id t
    → t.0 ≡ s.0 ++ inserted_users q
names_run_same (insert_user u) (names, old) t id e = ap (λ o. (end_of t o).0) (sym e)
names_run_same delete_devices s t id e = absurd (done_ne (sym e))
names_run_same q s t id e = ap (λ o. (end_of t o).0) (sym e) ∙ sym (append-nil s.0)

names_shown : ShowsUsers names_database (λ s. s.0)
names_shown = record {
  begins = names_begin_same;
  run = names_run_same;
  kept_tags = λ s t tags e. ap (λ o. (end_of t o).0) (sym e);
  unified_registers = λ s t rows e. ap (λ o. (end_of t o).0) (sym e);
  count_users = names_count;
  commit = λ (names, old) t e. ap (λ o. (end_of t o).0) (sym e);
}

abbrev one_user : Restored ℕ
one_user = record {
  with_devices = false;
  devices = [];
  registers = [];
  with_users = true;
  users = object (put "username" (text "new") empty_object) ∷ [];
  with_hmi = false;
  hmi = empty_object;
}

restore_data-Adds_example : Adds ("op" ∷ []) ("op" ∷ "new" ∷ [])
unfolding restore_data user_row
restore_data-Adds_example =
    restore_data-Adds names_database coded (λ s. s.0) names_shown (λ o. "") "now" one_user
      ("op" ∷ [], none) ("op" ∷ "new" ∷ [], none) [] refl
