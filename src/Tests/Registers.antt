-- ===== src/Tests/Registers.antt =====
-- New registers in a database that has room for two.
use swr.Base.{ℕ, suc, ◌+◌, ◌≡◌, ◌≢◌, refl, sym, arith, List, [], ◌∷◌, ◌++◌, All}
use swr.Base.Int.{ℤ, pos, negsuc}
use swr.Model.{RegisterConfig}
use swr.Database.Rows.{RegisterRow}
use swr.Database.Stored.{stored_register}
use swr.Database.Tx.{Outcome, failed, done}
use swr.Database.Rollback.{done_ne}
use swr.Database.Registers.{Registers, insert_register}
use swr.Database.Registers.Assigned.{
  highest, with_address, ShowsAddresses, Assigns, insert_register-IsFree,
}
use swr.Tests.Data.{temperature}

abbrev Rows : Type 0
Rows = List (ℤ × ℤ)

abbrev next_id : ℤ → ℤ
next_id (pos n) = pos (suc n)
next_id (negsuc n) = pos 0

abbrev insert_two : RegisterRow ℕ → Rows → Outcome Rows ℤ
insert_two r [] = done (pos 1) ((pos 1, r.unified_register_id) ∷ [])
insert_two r (x ∷ []) = done (next_id x.0) (x ∷ ((next_id x.0, r.unified_register_id) ∷ []))
insert_two r (x ∷ (y ∷ zs)) = failed "full" (x ∷ (y ∷ zs))

abbrev two_rows : Registers Rows ℕ
two_rows = record {
  insert_row = λ device r s. insert_two r s;
  next_address = λ max s. done (pos (highest max s + 1)) s;
  set_address = λ id a s. done tt (with_address id a s);
  update_row = λ id r s. done tt (with_address id r.unified_register_id s);
  delete_row = λ id s. done tt [];
}

done_same : {S A : Type 0} {a b : A} {s t : S} → done a s ≡ done b t → (b ≡ a) × (t ≡ s)
done_same e = (cc, cc)

next_id-ne : (id : ℤ) → id ≢ next_id id
next_id-ne (pos n) e = ground (arith, e)
next_id-ne (negsuc n) e = ground (arith, e)

two_inserted :
    (r : RegisterRow ℕ) (s t : Rows) (id : ℤ)
    → insert_two r s ≡ done id t
    → (t ≡ s ++ ((id, r.unified_register_id) ∷ [])) × All (λ x. x.0 ≢ id) s
two_inserted r [] t id e = rw ((done_same e).0, (done_same e).1) (refl, tt)
two_inserted r (x ∷ []) t id e = rw ((done_same e).0, (done_same e).1) (refl, (next_id-ne x.0, tt))
two_inserted r (x ∷ (y ∷ zs)) t id e = absurd (done_ne (sym e))

two-ShowsAddresses : ShowsAddresses two_rows (λ s. s)
two-ShowsAddresses = record {
  insert_row = λ device r s t id e. two_inserted r s t id e;
  next_address = λ max s t n e. ((done_same e).1, (done_same e).0);
  set_address = λ id a s t e. (done_same e).1;
}

abbrev unassigned : RegisterConfig ℕ
unassigned = record temperature { unified_address = negsuc 0 }

abbrev assigned : RegisterConfig ℕ
assigned = record temperature { id = pos 5; device_id = pos 3; unified_address = pos 18 }

abbrev rows_before : Rows
rows_before = (pos 4, pos 17) ∷ []

abbrev rows_behind : Rows
rows_behind = (pos 4, pos 17) ∷ ((pos 5, pos 18) ∷ [])

insert_register-IsFree_example :
    (rows_behind ≡ rows_before ++ ((assigned.id, assigned.unified_address) ∷ []))
    × Assigns unassigned.unified_address assigned.unified_address rows_before
unfolding insert_register stored_register
insert_register-IsFree_example =
    insert_register-IsFree two_rows (λ s. s) two-ShowsAddresses (pos 3) unassigned assigned
      rows_before rows_behind refl
