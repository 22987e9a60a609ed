-- ===== src/Comm/Serial/Exchange.antt =====
-- A reply that comes in pieces is put together, and the loop that does so ends.
use mathlib.Core.List.{append_assoc, append-nil}
use swr.Base.{
  ℕ, zero, suc, ◌<◌, ◌≡◌, ◌≢◌, refl, sym, ap, ◌∙◌, arith, List, [], ◌∷◌, ◌++◌, true, false, length,
}
use swr.Base.Int.{pos, eq_ℤ_iff}
use swr.Model.{DeviceConnection}
use swr.Comm.Io.{ok, fault}
use swr.Comm.Serial.{SerialBus, Session, timeout_or, drain, send_request}

abbrev pub joined : List (List ℕ) → List ℕ
joined [] = []
joined (c ∷ cs) = c ++ joined cs

module _ {B : Type 0} (dev : SerialBus B) (ms : ℕ) where
  -- From the state on the left the bus offers the chunks, and then nothing for `ms` milliseconds.
  pub data Delivers : B → List (List ℕ) → B → Type 0 where
    quiet : {b b' : B} → dev.wait_for_ready_read ms b ≡ (false, b') → Delivers b [] b'
    more :
        {b b₁ b₂ b' : B} {chunk : List ℕ} {chunks : List (List ℕ)}
        → dev.wait_for_ready_read ms b ≡ (true, b₁)
        → dev.read_all b₁ ≡ (chunk, b₂)
        → Delivers b₂ chunks b'
        → Delivers b (chunk ∷ chunks) b'

  drain_quiet :
      (fuel : ℕ) (response : List ℕ) (b b' : B)
      → dev.wait_for_ready_read ms b ≡ (false, b')
      → drain dev (suc fuel) ms response b ≡ (ok response, b')
  unfolding drain
  drain_quiet fuel response b b' e = rw (e, drain) refl

  drain_more :
      (fuel : ℕ) (response chunk : List ℕ) (b b₁ b₂ : B)
      → dev.wait_for_ready_read ms b ≡ (true, b₁)
      → dev.read_all b₁ ≡ (chunk, b₂)
      → drain dev (suc fuel) ms response b ≡ drain dev fuel ms (response ++ chunk) b₂
  unfolding drain
  drain_more fuel response chunk b b₁ b₂ e f = rw (e, f, drain) refl

  pub drain-Delivers :
      (fuel : ℕ) (response : List ℕ) {b : B} {chunks : List (List ℕ)} {b' : B}
      → length chunks < fuel
      → Delivers b chunks b'
      → drain dev fuel ms response b ≡ (ok (response ++ joined chunks), b')
  drain-Delivers zero response h d = absurd (omega arith)
  drain-Delivers (suc fuel) response h (quiet {b = b} {b' = b'} e) =
      drain_quiet fuel response b b' e ∙ ap (λ (r : List ℕ). (ok r, b')) (sym (append-nil response))
  drain-Delivers (suc fuel) response h
        (more {b = b} {b₁ = b₁} {b₂ = b₂} {b' = b'} {chunk = k} {chunks = ks} e f d) =
      drain_more fuel response k b b₁ b₂ e f
      ∙ drain-Delivers fuel (response ++ k) (omega arith) d
      ∙ ap (λ (r : List ℕ). (ok r, b')) (append_assoc response k (joined ks))

  drain-ne-fault : (fuel : ℕ) (response : List ℕ) (b : B) → (drain dev fuel ms response b).0 ≢ fault
  unfolding drain
  drain-ne-fault zero response b e = cc
  drain-ne-fault (suc fuel) response b e =
      let (ready, b') = dev.wait_for_ready_read ms b in
      let (chunk, b'') = dev.read_all b' in
      ground (arith, drain-ne-fault fuel (response ++ chunk) b'')

module _ {B : Type 0} (dev : SerialBus B) (ms : ℕ) (c : DeviceConnection) where
  -- If the bus, its buffers cleared, takes the whole request and answers in time, then with fuel
  -- for every piece the reply is all that the bus delivers until it falls silent, and no error
  -- text changes.
  pub send_request_lem :
      (fuel : ℕ) (request first : List ℕ) (chunks : List (List ℕ)) (s : Session B)
      (b₁ b₂ b₃ b₄ b₅ : B)
      → length chunks < fuel
      → dev.write request (dev.clear_buffers s.bus) ≡ (pos (length request), b₁)
      → dev.wait_for_bytes_written (timeout_or c 1000) b₁ ≡ (true, b₂)
      → dev.wait_for_ready_read (timeout_or c 3000) b₂ ≡ (true, b₃)
      → dev.read_all b₃ ≡ (first, b₄)
      → Delivers dev ms b₄ chunks b₅
      → send_request dev fuel ms c request s ≡ (ok (first ++ joined chunks), record s { bus = b₅ })
  unfolding send_request
  send_request_lem fuel request first chunks s b₁ b₂ b₃ b₄ b₅ h w f r a d =
      rw
        (
          w,
          f,
          r,
          a,
          drain-Delivers dev ms fuel first h d,
          (eq_ℤ_iff (pos (length request)) (pos (length request))).1 refl,
        )
        refl

  -- Whatever the bus does, the exchange indexes nothing out of range.
  pub send_request-ne-fault :
      (fuel : ℕ) (request : List ℕ) (s : Session B)
      → (send_request dev fuel ms c request s).0 ≢ fault
  unfolding send_request
  send_request-ne-fault fuel request s e =
      let (written, b) = dev.write request (dev.clear_buffers s.bus) in
      let (flushed, b') = dev.wait_for_bytes_written (timeout_or c 1000) b in
      let (ready, b₂) = dev.wait_for_ready_read (timeout_or c 3000) b' in
      let (first, b₃) = dev.read_all b₂ in ground (arith, drain-ne-fault dev ms fuel first b₃)
