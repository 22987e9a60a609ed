-- ===== src/Tests/Frames.antt =====
-- Frames of the Modbus clients.
use swr.Base.{◌↔◌, ℕ, ◌≡◌, ◌≢◌, refl, arith, true, false, List, [], ◌∷◌, ◌++◌, drop}
use swr.Comm.Io.{ok}
use swr.Comm.Bytes.{lo_byte, pack_coils, pack_loop, set_bit}
use swr.Comm.Modbus.Crc.{crc16, crc_loop, crc_bits, crc_bit}
use swr.Comm.Modbus.Pdu.Verify.{Carries}
use swr.Comm.Modbus.Rtu
use swr.Comm.Modbus.Rtu.{add_crc}
use swr.Comm.Modbus.Rtu.Frames.{verify_sound}
use swr.Comm.Modbus.Rtu.Corruption.{corrupted_byte}
use swr.Comm.Modbus.Tcp
use swr.Comm.Modbus.Tcp.Frames.{accepts_any_header}
use swr.Tests.Data.{all_bytes_lem}

abbrev reply : List ℕ
reply = 1 ∷ (3 ∷ (2 ∷ (0 ∷ (7 ∷ (249 ∷ (134 ∷ []))))))

reply_accepted : Rtu.verify_response 1 reply 3 2 ≡ ok tt
unfolding Rtu.verify_response crc16 crc_loop crc_bits crc_bit
reply_accepted = refl

corrupted_byte_example :
    Rtu.verify_response 1 (1 ∷ (3 ∷ (2 ∷ (0 ∷ (8 ∷ (249 ∷ (134 ∷ []))))))) 3 2 ≢ ok tt
corrupted_byte_example =
    corrupted_byte 1 3 2 (1 ∷ (3 ∷ (2 ∷ (0 ∷ [])))) (249 ∷ (134 ∷ [])) 7 8
      (all_bytes_lem (1 ∷ (3 ∷ (2 ∷ (0 ∷ [])))) refl) (all_bytes_lem (249 ∷ (134 ∷ [])) refl)
      (omega arith) (omega arith) (omega arith) reply_accepted

verify_sound_example :
    (rest : List ℕ) × (reply ≡ add_crc (lo_byte 1 ∷ (3 ∷ rest))) × Carries 3 2 rest
verify_sound_example = verify_sound 1 3 2 reply (all_bytes_lem reply refl) reply_accepted

packed : drop 3 (1 ∷ (1 ∷ (1 ∷ (5 ∷ [])))) ≡ pack_coils (true ∷ (false ∷ (true ∷ []))) ++ []
unfolding pack_coils pack_loop set_bit
packed = refl

accepts_any_header_example :
    (Tcp.verify_response 1 (0 ∷ (9 ∷ (0 ∷ (0 ∷ (0 ∷ (5 ∷ (1 ∷ (3 ∷ (2 ∷ (0 ∷ (7 ∷ []))))))))))) 3 2
      ≡ ok tt)
    ↔ ((rest : List ℕ) × ((1 ∷ (3 ∷ (2 ∷ (0 ∷ (7 ∷ []))))) ≡ lo_byte 1 ∷ (3 ∷ rest))
        × Carries 3 2 rest)
accepts_any_header_example =
    accepts_any_header 1 3 2 (0 ∷ (9 ∷ (0 ∷ (0 ∷ (0 ∷ (5 ∷ [])))))) (1 ∷ (3 ∷ (2 ∷ (0 ∷ (7 ∷ [])))))
      (omega arith) refl (omega arith)
