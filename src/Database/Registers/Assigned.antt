-- ===== src/Database/Registers/Assigned.antt =====
-- data_collection/database/DeviceDatabase.cpp: the unified address of a new register. What the statements do to
-- the ids and the addresses of the registers is a hypothesis.
use swr.Base.{
  ℕ, ◌+◌, ◌<◌, ◌≡◌, ◌≢◌, refl, sym, ap, ◌∙◌, arith, true, false, ◌&&◌, List, [], ◌∷◌, ◌++◌, All,
  All-append_inv, ltb, leb, if◌then◌else◌, Bool-cases, inl, inr, ◌⊎◌,
}
use mathlib.Core.Path.{subst}
use swr.Base.Int.{ℤ, pos, negsuc, is_neg, eq_ℤ, eq_ℤ_iff}
use swr.Model.{RegisterConfig}
use swr.Database.Rows.{RegisterRow}
use swr.Database.Stored.{stored_register}
use swr.Database.Tx.{done}
use swr.Database.Rollback.{Outcome-cases, done_ne}
use swr.Database.Registers.{
  Registers, manual_unified_id_min, is_manual, next_free, assign_address, insert_register,
}

-- The highest of the addresses below `max`, and 0 without one.
abbrev pub highest : ℕ → List (ℤ × ℤ) → ℕ
highest max [] = 0
highest max ((id, pos u) ∷ rows) = let h = highest max rows in if ltb u max && ltb h u then u else h
highest max ((id, negsuc u) ∷ rows) = highest max rows

abbrev pub with_address : ℤ → ℤ → List (ℤ × ℤ) → List (ℤ × ℤ)
with_address id a [] = []
with_address id a ((i, b) ∷ rows) = (i, if eq_ℤ i id then a else b) ∷ with_address id a rows

-- `rows s` are the id and the address of every register.
pub record ShowsAddresses {S D : Type 0} (db : Registers S D) (rows : S → List (ℤ × ℤ))
    : Type 0 where
  pub insert_row :
      (device : ℤ) (r : RegisterRow D) (s t : S) (id : ℤ)
      → db.insert_row device r s ≡ done id t
      → (rows t ≡ rows s ++ ((id, r.unified_register_id) ∷ [])) × All (λ x. x.0 ≢ id) (rows s)
  pub next_address :
      (max : ℕ) (s t : S) (n : ℤ)
      → db.next_address max s ≡ done n t
      → (rows t ≡ rows s) × (n ≡ pos (highest max (rows s) + 1))
  pub set_address :
      (id a : ℤ) (s t : S) → db.set_address id a s ≡ done tt t → rows t ≡ with_address id a (rows s)

-- A number of the automatic range that no register has.
abbrev pub IsFree : ℕ → List (ℤ × ℤ) → Type 0
IsFree n rows = (0 < n) × (n < manual_unified_id_min) × All (λ x. x.1 ≢ pos n) rows

larger-lt :
    (u h max n : ℕ) → (if ltb u max && ltb h u then u else h) < n → n < max → (u ≢ n) × (h < n)
larger-lt u h max n k l = (λ e. ground (arith, k, l, e), ground (arith, k, l))

pos_injective : (a b : ℕ) → pos a ≡ pos b → a ≡ b
pos_injective a b e = cc

negsuc_ne : (a b : ℕ) → negsuc a ≡ pos b → ⊥
negsuc_ne a b e = cc

above_highest :
    (max n : ℕ) (rows : List (ℤ × ℤ)) → highest max rows < n → n < max → All (λ x. x.1 ≢ pos n) rows
above_highest max n [] h l = tt
above_highest max n ((id, pos u) ∷ rows) h l =
    let k = larger-lt u (highest max rows) max n h l in
    (λ e. k.0 (pos_injective u n e), above_highest max n rows k.1 l)
above_highest max n ((id, negsuc u) ∷ rows) h l =
    (λ e. negsuc_ne u n e, above_highest max n rows h l)

eq-same : (a : ℤ) → eq_ℤ a a ≡ true
eq-same a = (eq_ℤ_iff a a).1 refl

eq-other : (a b : ℤ) → a ≢ b → eq_ℤ a b ≡ false
eq-other a b h = elim (Bool-cases (eq_ℤ a b)) [
  | inl e ↦ absurd (h ((eq_ℤ_iff a b).0 e))
  | inr e ↦ e
]

with_address-last :
    (id a b : ℤ) (rows : List (ℤ × ℤ))
    → All (λ x. x.0 ≢ id) rows
    → with_address id a (rows ++ ((id, b) ∷ [])) ≡ rows ++ ((id, a) ∷ [])
with_address-last id a b [] h = rw (eq-same id) refl
with_address-last id a b ((i, c) ∷ rows) (h, hs) =
    rw (eq-other i id h, with_address-last id a b rows hs) refl

done_injective : {S A : Type 0} {a b : A} {s t : S} → done a s ≡ done b t → (a ≡ b) × (s ≡ t)
done_injective e = (cc, cc)

below : (m : ℕ) → leb manual_unified_id_min m ≡ false → m < manual_unified_id_min
below m k = ground (arith, k)

not_manual : (a : ℤ) (n : ℕ) → is_manual a ≡ false → a ≡ pos n → n < manual_unified_id_min
not_manual (pos m) n k e = omega (arith, pos_injective m n e, below m k)
not_manual (negsuc m) n k e = absurd (negsuc_ne m n e)

-- The address that is given when another is wanted, next to the addresses before.
abbrev pub Assigns : ℤ → ℤ → List (ℤ × ℤ) → Type 0
Assigns wanted given rows =
    ((is_neg wanted ≡ false) × (given ≡ wanted))
    ⊎ ((n : ℕ) × (is_neg wanted ≡ true) × (given ≡ pos n) × IsFree n rows)

module _ {S D : Type 0} (db : Registers S D) (rows : S → List (ℤ × ℤ))
    (laws : ShowsAddresses db rows) where
  next_free-IsFree :
      (s t : S) (a : ℤ)
      → next_free db s ≡ done a t
      → (rows t ≡ rows s) × (n : ℕ) × (a ≡ pos n) × IsFree n (rows s)
  unfolding next_free
  next_free-IsFree s t a e = elim (Outcome-cases (db.next_address manual_unified_id_min s)) [
    | inl (x, u, q) ↦ absurd (done_ne (sym (rw q at e)))
    | inr (b, u, q) ↦ elim (Bool-cases (is_manual b)) [
      | inl k ↦ absurd (done_ne (sym (rw (q, k) at e)))
      | inr k ↦
          let (r, z) = laws.next_address manual_unified_id_min s u b q in
          let (v, w) = done_injective (rw (q, k) at e) in
          (
            ap rows (sym w) ∙ r,
            highest manual_unified_id_min (rows s) + 1,
            sym v ∙ z,
            (
              omega arith,
              not_manual b (highest manual_unified_id_min (rows s) + 1) k z,
              above_highest manual_unified_id_min (highest manual_unified_id_min (rows s) + 1)
                  (rows s) (omega arith)
                  (not_manual b (highest manual_unified_id_min (rows s) + 1) k z),
            ),
          )
    ]
  ]

  assigned :
      (c d : RegisterConfig D) (old : List (ℤ × ℤ)) (s t : S)
      → rows s ≡ old ++ ((c.id, c.unified_address) ∷ [])
      → All (λ x. x.0 ≢ c.id) old
      → assign_address db c s ≡ done tt (t, d)
      → (rows t ≡ old ++ ((d.id, d.unified_address) ∷ []))
        × Assigns c.unified_address d.unified_address old
  unfolding assign_address
  assigned c d old s t r new e = elim (Bool-cases (is_neg c.unified_address)) [
    | inr k ↦
        let w = (done_injective (rw k at e)).1 in
        (
          ap (λ p. rows p.0) (sym w)
              ∙ (r ∙ ap (λ p. old ++ ((p.1.id, p.1.unified_address) ∷ [])) w),
          inl (k, ap (λ p. p.1.unified_address) (sym w)),
        )
    | inl k ↦ elim (Outcome-cases (next_free db s)) [
      | inl (x, u, q) ↦ absurd (done_ne (sym (rw (k, q) at e)))
      | inr (a, u, q) ↦ elim (Outcome-cases (db.set_address c.id a u)) [
        | inl (x, w, z) ↦ absurd (done_ne (sym (rw (k, q, z) at e)))
        | inr (y, w, z) ↦
            let l = (done_injective (rw (k, q, z) at e)).1 in
            let (same, n, is_n, (low, high, fresh)) = next_free-IsFree s u a q in
            (
              ap (λ p. rows p.0) (sym l)
                  ∙ (laws.set_address c.id a u w z
                      ∙ (ap (with_address c.id a) (same ∙ r)
                          ∙ (with_address-last c.id a c.unified_address old new
                              ∙ ap (λ p. old ++ ((p.1.id, p.1.unified_address) ∷ [])) l))),
              inr (
                n,
                k,
                ap (λ p. p.1.unified_address) (sym l) ∙ is_n,
                (
                  low,
                  high,
                  (All-append_inv (λ x. x.1 ≢ pos n) old ((c.id, c.unified_address) ∷ [])
                      (subst (All (λ x. x.1 ≢ pos n)) r fresh)).0,
                ),
              ),
            )
      ]
    ]
  ]

  -- A register that is inserted without an error stands, under the id and the address that the caller gets,
  -- behind the registers before; its address is the wanted one, or where that is negative, one from 1
  -- to 4999 that no register had.
  pub insert_register-IsFree :
      (device_id : ℤ) (c d : RegisterConfig D) (s t : S)
      → insert_register db device_id c s ≡ done tt (t, d)
      → (rows t ≡ rows s ++ ((d.id, d.unified_address) ∷ []))
        × Assigns c.unified_address d.unified_address (rows s)
  unfolding insert_register stored_register
  insert_register-IsFree device_id c d s t e =
      elim (Outcome-cases (db.insert_row device_id (stored_register c) s)) [
        | inl (x, u, q) ↦ absurd (done_ne (sym (rw q at e)))
        | inr (id, u, q) ↦
            let (r, new) = laws.insert_row device_id (stored_register c) s u id q in
            assigned (record c { id = id; device_id = device_id }) d (rows s) u t r new (rw q at e)
      ]
