-- ===== src/Comm/Modbus/Tcp/Frames.antt =====
-- The TCP client's frames beside those of the serial clients, and the replies it accepts.
use swr.Base.{
  ℕ, ◌≤◌, ◌<◌, ◌≡◌, ◌↔◌, refl, sym, ap, ◌∙◌, arith, none, some, List, ◌∷◌, ◌++◌, Bool, true,
  if◌then◌else◌, length, length-append,
}
use swr.Comm.Io.{ok}
use swr.Comm.Bytes.{lo_byte}
use swr.Comm.Modbus.Pdu
use swr.Comm.Modbus.Pdu.Verify.{Carries, verify_body_accepts, verify_body_sound, verify_body_skip}
use swr.Comm.Modbus.Tcp.{tcp_pdu, verify_response}

-- For each of the six function codes that are sent, the body that the TCP client builds is the
-- one of the serial clients.
pub same_bodies :
    (slave function address n : ℕ) (v : Bool) (vs : List Bool) (ws : List ℕ)
    → Pdu.is_read function ≡ true
    → (tcp_pdu slave function address n none none ≡ Pdu.build_read_request slave function address n)
      × (tcp_pdu slave 0x06 address n none none
          ≡ Pdu.build_write_single_register_request slave address n)
      × (tcp_pdu slave 0x05 address (if v then 0xFF00 else 0x0000) none none
          ≡ Pdu.build_write_single_coil_request slave address v)
      × (tcp_pdu slave 0x10 address (length ws) none (some ws)
          ≡ Pdu.build_write_multiple_registers_request slave address ws)
      × (tcp_pdu slave 0x0F address (length vs) (some vs) none
          ≡ Pdu.build_write_multiple_coils_request slave address vs)
unfolding tcp_pdu Pdu.build_read_request Pdu.build_write_single_register_request
    Pdu.build_write_single_coil_request Pdu.build_write_multiple_registers_request
    Pdu.build_write_multiple_coils_request
same_bodies slave function address n v vs ws r = (ground arith, refl, refl, refl, refl)

-- Behind any six bytes, a body of at least three bytes is accepted exactly if it is one of the
-- addressed slave with the awaited function code, below 128, and as much data as that function
-- answers: the transaction, protocol and length fields of the header are not looked at.
pub accepts_any_header :
    (slave function expected : ℕ) (header body : List ℕ)
    → function < 128
    → length header ≡ 6
    → 3 ≤ length body
    → (verify_response slave (header ++ body) function expected ≡ ok tt) ↔ (
        (rest : List ℕ) × (body ≡ lo_byte slave ∷ (function ∷ rest))
        × Carries function expected rest)
accepts_any_header slave function expected header body f six long = (
  λ e. verify_body_sound slave function expected body long (sym body_only ∙ e),
  λ (rest, e, k).
      body_only
      ∙ ap (λ b. Pdu.verify_body 0 slave function expected b) e
      ∙ verify_body_accepts slave function expected rest f k,
)
  where
    body_only :
        verify_response slave (header ++ body) function expected
        ≡ Pdu.verify_body 0 slave function expected body
    body_only =
        unfold verify_response in
        ground (
          arith,
          length-append header body,
          verify_body_skip header slave function expected body long,
          ap (λ n. Pdu.verify_body n slave function expected (header ++ body)) six,
        )
