-- ===== src/Comm/Modbus/Pdu/Verify.antt =====
-- What `verify_body` accepts: the body of the addressed slave, with the function code that was
-- asked for and as many bytes as that function answers.
use swr.Base.{
  ℕ, ◌+◌, ◌≤◌, ◌<◌, ◌≡◌, ◌≢◌, refl, arith, List, [], ◌∷◌, ◌++◌, true, ◌==◌, ==_iff, if◌then◌else◌,
  length, length-append, get_elem?-append_right, bit_or,
}
use swr.Base.Table.{passes_below, passes_below-lt}
use swr.Comm.Io.{ok, fault}
use swr.Comm.Bytes.{lo_byte}
use swr.Comm.Modbus.Pdu.{is_read, verify_body}

-- The bytes behind the function code: a read answers a byte count and that many bytes at least, a
-- write `expected` bytes.
abbrev pub Carries : ℕ → ℕ → List ℕ → Type 0
Carries function expected [] = ⊥
Carries function expected (x ∷ values) =
    if is_read function
    then ((x ≡ expected) × (expected ≤ length values))
    else (length (x ∷ values) ≡ expected)

exception_table : passes_below (λ f. bit_or f 0x80 == f + 128) 128 ≡ true
unfolding passes_below
exception_table = refl

pub exception_code : (f : ℕ) → f < 128 → bit_or f 0x80 ≡ f + 128
exception_code f h =
    (==_iff _ _).0 (passes_below-lt (λ f. bit_or f 0x80 == f + 128) 128 f h exception_table)

pub verify_body_accepts :
    (slave function expected : ℕ) (rest : List ℕ)
    → function < 128
    → Carries function expected rest
    → verify_body 0 slave function expected (lo_byte slave ∷ (function ∷ rest)) ≡ ok tt
unfolding verify_body
verify_body_accepts slave function expected [] h f = absurd f
verify_body_accepts slave function expected (x ∷ values) h f =
    ground (arith, exception_code function h)

-- Nothing else is accepted.
pub verify_body_sound :
    (slave function expected : ℕ) (body : List ℕ)
    → 3 ≤ length body
    → verify_body 0 slave function expected body ≡ ok tt
    → (rest : List ℕ) × (body ≡ lo_byte slave ∷ (function ∷ rest)) × Carries function expected rest
unfolding verify_body
verify_body_sound slave function expected [] h e = absurd (omega arith)
verify_body_sound slave function expected (a ∷ []) h e = absurd (omega arith)
verify_body_sound slave function expected (a ∷ (b ∷ [])) h e = absurd (omega arith)
verify_body_sound slave function expected (a ∷ (b ∷ (x ∷ values))) h e =
    (x ∷ values, ground arith, ground arith)

-- Bytes before the slave do not matter.
pub verify_body_skip :
    (header : List ℕ) (slave function expected : ℕ) (body : List ℕ)
    → 3 ≤ length body
    → verify_body (length header) slave function expected (header ++ body)
      ≡ verify_body 0 slave function expected body
unfolding verify_body
verify_body_skip header slave function expected [] h = absurd (omega arith)
verify_body_skip header slave function expected (a ∷ []) h = absurd (omega arith)
verify_body_skip header slave function expected (a ∷ (b ∷ [])) h = absurd (omega arith)
verify_body_skip header slave function expected (a ∷ (b ∷ (x ∷ values))) h =
    let body = a ∷ (b ∷ (x ∷ values)) in
    ground (
      arith,
      get_elem?-append_right header body 0,
      get_elem?-append_right header body 1,
      get_elem?-append_right header body 2,
      length-append header body,
    )

pub verify_body-ne-fault :
    (slave function expected : ℕ) (body : List ℕ)
    → 3 ≤ length body
    → verify_body 0 slave function expected body ≢ fault
unfolding verify_body
verify_body-ne-fault slave function expected [] h e = absurd (omega arith)
verify_body-ne-fault slave function expected (a ∷ []) h e = absurd (omega arith)
verify_body-ne-fault slave function expected (a ∷ (b ∷ [])) h e = absurd (omega arith)
verify_body-ne-fault slave function expected (a ∷ (b ∷ (x ∷ values))) h e = ground arith
