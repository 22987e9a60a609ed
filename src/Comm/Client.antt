-- ===== src/Comm/Client.antt =====
-- data_collection/comm/IDeviceClient.h: what the layers above see of a protocol client, and
-- ModbusRTUClient as one.
use swr.Base.{ℕ, Bool, List, Option, none, some}
use swr.Model.{DeviceConnection}
use swr.Comm.Io.{Error, no_error_text, Io}
use swr.Comm.Serial.{SerialBus, Session}
use swr.Comm.Modbus.Rtu

pub record DeviceClient (S : Type 0) : Type 0 where
  pub connect : S → Bool × S
  pub is_connected : S → Bool
  pub read_words : ℕ → ℕ → Io S (List ℕ)
  pub read_bits : ℕ → ℕ → Io S (List Bool)
  pub write_words : ℕ → List ℕ → Io S (Unit {0})
  pub write_bits : ℕ → List Bool → Io S (Unit {0})
  pub error_string : S → Error

abbrev pub or_no_text : Option Error → Error
or_no_text none = no_error_text
or_no_text (some e) = e

unfoldable pub rtu_client :
    {B : Type 0} → SerialBus B → ℕ → DeviceConnection → DeviceClient (Session B)
rtu_client dev fuel c = record {
  connect = λ s. (dev.is_open s.bus, s);
  is_connected = λ s. dev.is_open s.bus;
  read_words = Rtu.read_words dev fuel c;
  read_bits = Rtu.read_bits dev fuel c;
  write_words = Rtu.write_words dev fuel c;
  write_bits = Rtu.write_bits dev fuel c;
  error_string = λ s. or_no_text s.last_error;
}
