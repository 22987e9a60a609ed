-- ===== src/Server/Block.antt =====
-- The block of holding registers that Qt's server is given.
use swr.Base.{
  ℕ, ◌≤◌, ◌<◌, ◌≡◌, sym, ap, ◌∙◌, arith, Bool, none, some, Option-cases, Bool-cases, inl, inr, List,
  [], ◌∷◌, map, if◌then◌else◌,
}
use mathlib.Core.Path.{subst}
use swr.Base.Int.{ℤ, pos, negsuc}
use swr.Model.{RegisterConfig, DeviceInfo}
use swr.Store.Hash.{Hash}
use swr.Store.DeviceList.{
  DeviceList, get_all, find_by_unified_address, search_devices, first_register,
}
use swr.Server.{larger, max_of_registers, max_of_devices, block_size}
use swr.Server.Writes.{found_address}

larger-le : (m : ℕ) (z : ℤ) → m ≤ larger m z
larger-le m (pos a) = ground arith
larger-le m (negsuc a) = ground arith

-- The highest address so far is at least the register's.
abbrev AtMost : ℤ → ℕ → Type 0
AtMost (pos a) m = a ≤ m
AtMost (negsuc a) m = Unit {0}

larger-AtMost : (m : ℕ) (z : ℤ) → AtMost z (larger m z)
larger-AtMost m (pos a) = ground arith
larger-AtMost m (negsuc a) = tt

AtMost-le : (z : ℤ) (m n : ℕ) → AtMost z m → m ≤ n → AtMost z n
AtMost-le (pos a) m n h le = omega (arith, h)
AtMost-le (negsuc a) m n h le = tt

module _ {D : Type 0} where
  registers-le : (m : ℕ) (regs : List (RegisterConfig D)) → m ≤ max_of_registers m regs
  unfolding max_of_registers
  registers-le m [] = omega arith
  registers-le m (r ∷ regs) =
      let rest = registers-le (larger m r.unified_address) regs in
      omega (arith, rest, larger-le m r.unified_address)

  devices-le : (m : ℕ) (ds : List (DeviceInfo D)) → m ≤ max_of_devices m ds
  unfolding max_of_devices
  devices-le m [] = omega arith
  devices-le m (d ∷ ds) =
      let rest = devices-le (max_of_registers m d.registers) ds in
      omega (arith, rest, registers-le m d.registers)

  registers-AtMost :
      (test : RegisterConfig D → Bool) (m : ℕ) (regs : List (RegisterConfig D))
      (f : RegisterConfig D)
      → first_register test regs ≡ some f
      → AtMost f.unified_address (max_of_registers m regs)
  unfolding max_of_registers first_register
  registers-AtMost test m [] f e = absurd (ground (arith, e))
  registers-AtMost test m (r ∷ regs) f e = elim (Bool-cases (test r)) [
    | inl t ↦
        let same : r ≡ f =
          ap (λ o. elim o [ none ↦ f | some c ↦ c ])
            (sym (ap (λ b. if b then some r else first_register test regs) t) ∙ e) in
        rw (sym same) (
          AtMost-le r.unified_address (larger m r.unified_address) _
            (larger-AtMost m r.unified_address) (registers-le (larger m r.unified_address) regs))
    | inr t ↦
        registers-AtMost test (larger m r.unified_address) regs f
          (sym (ap (λ b. if b then some r else first_register test regs) t) ∙ e)
  ]

  devices-AtMost :
      (test : RegisterConfig D → Bool) (m : ℕ) (h : Hash (DeviceInfo D)) (f : RegisterConfig D)
      → search_devices test h ≡ some f
      → AtMost f.unified_address (max_of_devices m (map (λ (p : ℤ × DeviceInfo D). p.1) h))
  unfolding max_of_devices search_devices
  devices-AtMost test m [] f e = absurd (ground (arith, e))
  devices-AtMost test m ((id, d) ∷ h) f e = elim (Option-cases (first_register test d.registers)) [
    | inl n ↦ devices-AtMost test (max_of_registers m d.registers) h f (ground (arith, n, e))
    | inr (g, s) ↦
        AtMost-le f.unified_address (max_of_registers m d.registers) _
          (registers-AtMost test m d.registers f (ground (arith, s, e)))
          (devices-le (max_of_registers m d.registers) (map (λ (p : ℤ × DeviceInfo D). p.1) h))
  ]

  -- If no register has a unified address above 65534, then the block that `start` gives to Qt's
  -- server has the address of every register that can be found by its unified address.
  pub found-lt-block_size :
      (l : DeviceList D) (address : ℕ) (config : RegisterConfig D)
      → max_of_devices 100 (get_all l) ≤ 65534
      → find_by_unified_address (pos address) l ≡ some config
      → address < block_size l
  unfolding block_size get_all find_by_unified_address
  found-lt-block_size l address config small e =
      let own = devices-AtMost _ 100 l.devices config e in
      let at_most =
        subst (λ z. AtMost z (max_of_devices 100 (get_all l)))
          (found_address (pos address) l config e) own in
      omega (arith, at_most, small)
