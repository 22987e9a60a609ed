-- ===== src/Comm/Serial.antt =====
-- data_collection/comm/SerialBus.h: the bus that the RS485 clients share, with what a client keeps,
-- and the exchange of one request for one reply, which the three RS485 clients write out alike.
-- The port behind the bus is not part of the program: its calls are a parameter.
pub mod Exchange
use swr.Base.{
  ℕ, zero, suc, String, Bool, true, false, not, ◌||◌, Option, none, some, List, ◌++◌, ltb,
  if◌then◌else◌, length,
}
use swr.Base.Int.{ℤ, pos, eq_ℤ}
use swr.Model.{DeviceConnection}
use swr.Comm.Io.{Error, write_failed, response_timeout, Result, ok, err, stuck, Io, next}

pub record SerialBus (B : Type 0) : Type 0 where
  pub is_open : B → Bool
  pub clear_buffers : B → B
  pub write : List ℕ → B → ℤ × B
  pub wait_for_bytes_written : ℕ → B → Bool × B
  pub wait_for_ready_read : ℕ → B → Bool × B
  pub read_all : B → List ℕ × B
  pub error_string : B → String

-- A client on the bus: the shared bus and `m_lastError`, which is empty at first.
pub record Session (B : Type 0) : Type 0 where
  pub bus : B
  pub last_error : Option Error

abbrev pub note : {B : Type 0} → Error → Session B → Session B
note e s = record s { last_error = some e }

abbrev pub fail : {B A : Type 0} → Error → Io (Session B) A
fail e s = (err e, note e s)

-- `m_connection.timeoutMs > 0 ? m_connection.timeoutMs : ms`.
abbrev pub timeout_or : DeviceConnection → ℕ → ℕ
timeout_or c ms = if ltb 0 c.timeout_ms then c.timeout_ms else ms

module _ {B : Type 0} (dev : SerialBus B) where
  -- `while (m_bus.waitForReadyRead(ms)) response.append(m_bus.readAll());`
  unfoldable pub drain : ℕ → ℕ → List ℕ → Io B (List ℕ)
  drain zero ms response b = (stuck, b)
  drain (suc fuel) ms response b =
      let (ready, b') = dev.wait_for_ready_read ms b in
      let (chunk, b'') = dev.read_all b' in
      let more = drain fuel ms (response ++ chunk) b'' in if ready then more else (ok response, b')

  after_write : ℕ → ℕ → DeviceConnection → Io (Session B) (List ℕ)
  unfolding drain
  after_write fuel ms c s =
      let (ready, b) = dev.wait_for_ready_read (timeout_or c 3000) s.bus in
      let (first, b') = dev.read_all b in
      let (response, b'') = drain fuel ms first b' in
      if ready
      then (response, record s { bus = b'' })
      else fail response_timeout (record s { bus = b })

  -- `sendRequest`, with `ms` the pause that ends a reply.
  unfoldable pub send_request : ℕ → ℕ → DeviceConnection → List ℕ → Io (Session B) (List ℕ)
  unfolding after_write
  send_request fuel ms c request s =
      let (written, b) = dev.write request (dev.clear_buffers s.bus) in
      let (flushed, b') = dev.wait_for_bytes_written (timeout_or c 1000) b in
      if eq_ℤ written (pos (length request))
      then (if flushed
          then after_write fuel ms c (record s { bus = b' })
          else fail (write_failed (dev.error_string b')) (record s { bus = b' }))
      else fail (write_failed (dev.error_string b)) (record s { bus = b })
