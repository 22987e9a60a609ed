-- ===== src/Database/Users/Added.antt =====
-- data_collection/database/DeviceDatabase.cpp: a restoration adds new users behind the ones that are there,
-- and changes nothing else in the list of their names.
use mathlib.Core.Path.{subst}
use mathlib.Core.List.{append_assoc, append-nil}
use package.text.Mathlib.TextEquality.{eq_iff}
use swr.Base.{
  ◌≡◌, ◌≢◌, sym, ap, ◌∙◌, String, true, false, not, ◌&&◌, ◌||◌, List, [], ◌∷◌, ◌++◌, ltb,
  if◌then◌else◌, Bool-cases, ||-eq-false, inl, inr,
}
use swr.Base.Json.{Json, Numerals, Object, to_object, to_string}
use text.Mathlib.Text.{◌==◌}
use swr.Database.Rows.{user_row}
use swr.Database.Tx.{Outcome, failed, done, Tx, ◌>>=◌, return, insert_user, Sql}
use swr.Database.Restore.{
  HmiWarning, has_id, restore_devices, restore_users, restore_hmi, Restored, restore_parts,
  or_roll_back, restore_data,
}
use swr.Database.Rollback.{Outcome-cases, done_ne}
use swr.Database.Calls.{restore_devices_kept, relink_tags_kept, restore_hmi_kept}
use swr.Database.Users.{
  ShowsUsers, Ensures, SameUsers, bind-Ensures, bind-SameUsers, return-Same, if-Ensures,
  others-IsInherited,
}

-- Each name is new behind the names before it, is not empty, and is not that of the default administrator.
abbrev pub AreNew : List String → List String → Type 0
AreNew us [] = Unit {0}
AreNew us (n ∷ ns) = (n ≢ "") × (n ≢ "admin") × (has_id n us ≡ false) × AreNew (us ++ (n ∷ [])) ns

abbrev pub Adds : List String → List String → Type 0
Adds us vs = (new : List String) × (vs ≡ us ++ new) × AreNew us new

true_ne : true ≡ false → ⊥
true_ne e = cc

Adds-none : (us vs : List String) → vs ≡ us → Adds us vs
Adds-none us vs e = ([], e ∙ sym (append-nil us), tt)

Adds-one :
    (us vs ws : List String) (n : String)
    → n ≢ ""
    → n ≢ "admin"
    → has_id n us ≡ false
    → vs ≡ us ++ (n ∷ [])
    → Adds vs ws
    → Adds us ws
Adds-one us vs ws n a b h e (new, q, k) = (
  n ∷ new,
  q ∙ (ap (λ x. x ++ new) e ∙ append_assoc us (n ∷ []) new),
  (a, b, h, subst (λ x. AreNew x new) e k),
)

differs : (a b : String) → (a == b) ≡ false → a ≢ b
differs a b h e = absurd (true_ne (sym ((eq_iff a b).1 e) ∙ h))

module _ {S : Type 0} {users : S → List String} where
  none_added : {A : Type 0} {c : Tx S A} → Ensures users SameUsers c → Ensures users Adds c
  none_added h = record { apply = λ s t a e. Adds-none (users s) (users t) (h.apply s t a e) }

  same_first :
      {A B : Type 0} {c : Tx S A} {f : A → Tx S B}
      → Ensures users SameUsers c
      → ((a : A) → Ensures users Adds (f a))
      → Ensures users Adds (c >>= f)
  same_first h k = bind-Ensures SameUsers Adds Adds (λ us vs ws p q. subst (λ x. Adds x ws) p q) h k

  same_last :
      {A B : Type 0} {c : Tx S A} {f : A → Tx S B}
      → Ensures users Adds c
      → ((a : A) → Ensures users SameUsers (f a))
      → Ensures users Adds (c >>= f)
  same_last h k = bind-Ensures Adds SameUsers Adds (λ us vs ws p q. subst (Adds us) (sym q) p) h k

committed :
    {S D A : Type 0} (db : Sql S D) (o : Outcome S A) (t : S) (a : A)
    → or_roll_back db o ≡ done a t
    → o ≡ done a t
committed db (done b s) t a e = e
committed db (failed error s) t a e = absurd (done_ne (sym e))

module _ {S D : Type 0} (db : Sql S D) (m : Numerals D) (users : S → List String)
    (laws : ShowsUsers db users) where
  added_user :
      (o : Object D) (c : Tx S (Unit {0})) (s t : S)
      → to_string (o "username") "" ≢ ""
      → to_string (o "username") "" ≢ "admin"
      → has_id (to_string (o "username") "") (users s) ≡ false
      → Ensures users Adds c
      → (db.run (insert_user (user_row o)) >>= λ _. c) s ≡ done tt t
      → Adds (users s) (users t)
  unfolding user_row
  added_user o c s t a b h k e = elim (Outcome-cases (db.run (insert_user (user_row o)) s)) [
    | inl (error, u, q) ↦ absurd (done_ne (sym (rw q at e)))
    | inr (id, u, q) ↦
        Adds-one (users s) (users u) (users t) (to_string (o "username") "") a b h
          (laws.run (insert_user (user_row o)) s u id q) (k.apply u t tt (rw q at e))
  ]

  user-Adds :
      (o : Object D) (c : Tx S (Unit {0})) (s t : S)
      → Ensures users Adds c
      → (if (to_string (o "username") "" == "") || (to_string (o "username") "" == "admin")
            then c
            else (db.count_users (to_string (o "username") "") >>= λ n.
                if ltb 0 n then c else (db.run (insert_user (user_row o)) >>= λ _. c)))
          s
        ≡ done tt t
      → Adds (users s) (users t)
  user-Adds o c s t k e =
      let name = to_string (o "username") "" in
      elim (Bool-cases ((name == "") || (name == "admin"))) [
        | inl z ↦ k.apply s t tt (rw z at e)
        | inr z ↦ elim (Outcome-cases (db.count_users name s)) [
          | inl (error, u, q) ↦ absurd (done_ne (sym (rw (z, q) at e)))
          | inr (n, u, q) ↦ elim (Bool-cases (ltb 0 n)) [
            | inl p ↦
                subst (λ x. Adds x (users t)) (laws.count_users name s u n q).0
                  (k.apply u t tt (rw (z, q, p) at e))
            | inr p ↦
                subst (λ x. Adds x (users t)) (laws.count_users name s u n q).0
                  (added_user o c u t
                    (differs name "" (||-eq-false (name == "") (name == "admin") z).0)
                    (differs name "admin" (||-eq-false (name == "") (name == "admin") z).1)
                    (ap (has_id name) (laws.count_users name s u n q).0
                      ∙ (sym (laws.count_users name s u n q).1 ∙ p))
                    k (rw (z, q, p) at e))
          ]
        ]
      ]

  restore_users-Adds : (vs : List (Json D)) → Ensures users Adds (restore_users db m vs)
  unfolding restore_users
  restore_users-Adds [] = none_added (return-Same tt)
  restore_users-Adds (v ∷ vs) = record {
    apply =
        λ s t a e. user-Adds (to_object v) (restore_users db m vs) s t (restore_users-Adds vs) e;
  }

  restore_parts-Adds :
      (to_text : Object D → String) (now : String) (r : Restored D)
      → Ensures users Adds (restore_parts db m to_text now r)
  unfolding restore_parts
  restore_parts-Adds to_text now r =
      same_first
        (if-Ensures (r.with_devices && not r.with_hmi) db.kept_tags (return [])
          (record { apply = laws.kept_tags }) (return-Same []))
        (λ kept.
          same_first
            (if-Ensures r.with_devices (restore_devices db m r.devices r.registers) (return tt)
              (restore_devices_kept db m (λ A. Ensures users SameUsers)
                (others-IsInherited db users laws) r.devices r.registers)
              (return-Same tt))
            (λ b.
              same_first
                (relink_tags_kept db m (λ A. Ensures users SameUsers)
                  (others-IsInherited db users laws) kept)
                (λ relinked.
                  same_last
                    (if-Ensures r.with_users (restore_users db m r.users) (return tt)
                      (restore_users-Adds r.users) (none_added (return-Same tt)))
                    (λ c.
                      bind-SameUsers
                        (if-Ensures r.with_hmi (restore_hmi db m to_text now r.hmi) (return [])
                          (restore_hmi_kept db m (λ A. Ensures users SameUsers)
                            (others-IsInherited db users laws) to_text now r.hmi)
                          (return-Same []))
                        (λ warned. return-Same (relinked ++ warned))))))

  -- A restoration that succeeds, of whatever parts, leaves every user in the list of the names and adds names
  -- behind them: each is not there before, is not empty and is not "admin".
  pub restore_data-Adds :
      (to_text : Object D → String) (now : String) (r : Restored D) (s t : S)
      (warnings : List HmiWarning)
      → restore_data db m to_text now r s ≡ done warnings t
      → Adds (users s) (users t)
  unfolding restore_data
  restore_data-Adds to_text now r s t warnings e = elim (Bool-cases (db.is_open s)) [
    | inr k ↦ absurd (done_ne (sym (rw k at e)))
    | inl k ↦ elim (Outcome-cases (db.transaction s)) [
      | inl (x, u, q) ↦ absurd (done_ne (sym (rw (k, q) at e)))
      | inr (a, u, q) ↦
          subst (λ us. Adds us (users t)) (laws.begins s u q)
            ((same_last (restore_parts-Adds to_text now r) (λ w.
                bind-SameUsers (record { apply = λ x y b z. laws.commit x y z })
                  (λ _. return-Same w))).apply
              u t warnings
              (committed db
                ((restore_parts db m to_text now r >>= λ w. (db.commit >>= λ _. return w)) u) t
                warnings (rw (k, q) at e)))
    ]
  ]
