-- ===== src/Comm/Io.antt =====
-- How a call of a protocol client ends, and calls in sequence.
use swr.Base.{◌≡◌, ◌≢◌, refl, sym, ℕ, String, some, List, get_elem?, none, Bool, true, false}
use mathlib.Core.Path.{subst}
use swr.Base.Int.{ℤ}
use swr.Model.{RegisterType}

-- The error texts, without the protocol's prefix; what a text quotes is an argument.
pub data Error : Type 0 where
  no_error_text no_client bus_not_open not_connected write_timeout read_timeout : Error
  write_failed connect_failed : String → Error
  response_timeout too_short crc_mismatch lrc_mismatch checksum_mismatch : Error
  slave_mismatch : ℕ → ℕ → Error
  modbus_exception : ℕ → Error
  function_mismatch byte_count_mismatch buffer_too_short length_mismatch : Error
  framing_error invalid_hex_length missing_stx invalid_hex_data : Error
  bit_read_unsupported bit_write_unsupported write_rejected : Error
  response_too_short : ℕ → ℕ → Error
  plc_error : ℤ → Error
  unexpected_header : List ℕ → Error
  data_truncated expected_comma invalid_value : ℕ → Error
  unsupported_register unsupported_target : RegisterType → Error
  register_read_only bit_count_mismatch word_count_mismatch : String → Error

-- `fault` is an index out of range, on which Qt aborts; `stuck` is no outcome of the program: a
-- loop of the model ran out of fuel.
pub data Result {ℓ} (A : Type ℓ) : Type ℓ where
  ok : A → Result A
  err : Error → Result A
  fault : Result A
  stuck : Result A

infixl 5 ◌>>=◌
abbrev pub ◌>>=◌ {ℓ κ} : {A : Type ℓ} {B : Type κ} → Result A → (A → Result B) → Result B
ok a >>= f = f a
err e >>= f = err e
fault >>= f = fault
stuck >>= f = stuck

abbrev pub check : Bool → Error → Result (Unit {0})
check true e = ok tt
check false e = err e

infixl 5 ◌>>◌
abbrev pub ◌>>◌ {ℓ} : {B : Type ℓ} → Result (Unit {0}) → Result B → Result B
m >> k = m >>= λ _. k

-- `QByteArray::at`.
abbrev pub at {ℓ} : {A : Type ℓ} → List A → ℕ → Result A
at xs i = elim (get_elem? xs i) [ none ↦ fault | some x ↦ ok x ]

-- A call on an object of state `S`.
abbrev pub Io : Type 0 → Type 0 → Type 0
Io S A = S → Result A × S

abbrev pub next : {S A B : Type 0} → Result A × S → (A → Io S B) → Result B × S
next (ok a, s) f = f a s
next (err e, s) f = (err e, s)
next (fault, s) f = (fault, s)
next (stuck, s) f = (stuck, s)

-- A check that keeps its error text in the object.
abbrev pub noting : {S A : Type 0} → (Error → S → S) → Result A → Io S A
noting note (ok a) s = (ok a, s)
noting note (err e) s = (err e, note e s)
noting note fault s = (fault, s)
noting note stuck s = (stuck, s)

-- A call that indexes nothing out of range, and whose value, if it returns one, has `P`.
abbrev pub Ends : {A : Type 0} → (A → Type 0) → Result A → Type 0
Ends P (ok a) = P a
Ends P (err e) = Unit {0}
Ends P fault = ⊥
Ends P stuck = Unit {0}

pub next-Ends :
    {S A B : Type 0} (P : A → Type 0) (Q : B → Type 0) (r : Result A × S) (f : A → Io S B)
    → Ends P r.0
    → ((a : A) (s : S) → P a → Ends Q (f a s).0)
    → Ends Q (next r f).0
next-Ends P Q (ok a, s) f h k = k a s h
next-Ends P Q (err e, s) f h k = tt
next-Ends P Q (fault, s) f h k = absurd h
next-Ends P Q (stuck, s) f h k = tt

pub noting-Ends :
    {S A : Type 0} (P : A → Type 0) (note : Error → S → S) (r : Result A) (s : S)
    → Ends P r
    → Ends P (noting note r s).0
noting-Ends P note (ok a) s h = h
noting-Ends P note (err e) s h = h
noting-Ends P note fault s h = absurd h
noting-Ends P note stuck s h = h

pub total-Ends : {A : Type 0} (P : A → Type 0) (r : Result A) (a : A) → r ≡ ok a → P a → Ends P r
total-Ends P r a e p = subst (Ends P) (sym e) p

pub ne_fault-Ends : {A : Type 0} (r : Result A) → r ≢ fault → Ends (λ _. Unit {0}) r
ne_fault-Ends (ok a) h = tt
ne_fault-Ends (err e) h = tt
ne_fault-Ends fault h = absurd (h refl)
ne_fault-Ends stuck h = tt

-- To use what a check established.
pub ok-Ends :
    {A : Type 0} (P : A → Type 0) (r : Result A) → r ≢ fault → ((a : A) → r ≡ ok a → P a) → Ends P r
ok-Ends P (ok a) n h = h a refl
ok-Ends P (err e) n h = tt
ok-Ends P fault n h = absurd (n refl)
ok-Ends P stuck n h = tt
