-- ===== src/Config/Round.antt =====
-- config/AppConfig.cpp: the settings that `saveConfig` writes are the ones that `loadConfig` reads.
use swr.Base.{ℕ, ◌+◌, ◌<◌, ◌^◌, ◌≡◌, refl, arith, String, ◌<>◌, some, List, [], ◌∷◌, map, All}
use swr.Base.Int.{ℤ, pos, wrap16, IsInt}
use swr.Base.Json.{object, to_object, Numerals, to_int, int, elements-items_of, map-map_cancel}
use swr.Trend.Recorder.{TrendChannelConfig}
use swr.Config.{Rs485Config, NetInterfaceConfig, ModbusServerConfig, LoginSecurityConfig, AppConfig}
use swr.Config.Parts.{
  interface_json, interface_of, system_json, system_of, serial_json, serial_of, modbus_server_json,
  modbus_server_of, login_security_json, login_security_of, channel_json, channel_of, channels_of,
  config_json, config_of,
}
use swr.Config.File.{ConfigFile, config_of_document, load_config, save_config}

-- An `int` that is stored as a double is read back.
abbrev pub KeepsInts : {D : Type 0} → Numerals D → Type 0
KeepsInts m = (n : ℤ) → IsInt n → m.as_int (m.of_int n) ≡ some n

-- The numbers are in the range of their types.
pub record ChannelFits {D : Type 0} (c : TrendChannelConfig D) : Type 0 where
  pub reg_id : IsInt c.reg_id
  pub min_value : c.min_value < 2 ^ 16
  pub max_value : c.max_value < 2 ^ 16

pub record Rs485Fits (s : Rs485Config) : Type 0 where
  pub baud_rate : IsInt s.baud_rate
  pub data_bits : IsInt s.data_bits
  pub stop_bits : IsInt s.stop_bits

pub record ServerFits (s : ModbusServerConfig) : Type 0 where
  pub port : s.port < 2 ^ 16
  pub slave_id : IsInt s.slave_id

pub record LoginFits (s : LoginSecurityConfig) : Type 0 where
  pub max_failed_attempts : IsInt s.max_failed_attempts
  pub session_timeout_minutes : IsInt s.session_timeout_minutes
  pub min_password_length : IsInt s.min_password_length

pub record ConfigFits {D : Type 0} (c : AppConfig D) : Type 0 where
  pub rs485 : Rs485Fits c.rs485
  pub modbus_server : ServerFits c.modbus_server
  pub login_security : LoginFits c.login_security
  pub interval : IsInt c.trend.sample_interval_sec
  pub channels : All ChannelFits c.trend.channels
  pub max_screens : IsInt c.hmi.max_screens

pub interface-round :
    (D : Type 0) (i : NetInterfaceConfig) → interface_of {D = D} (interface_json i) ≡ i
unfolding interface_of interface_json
interface-round D i = refl

module _ {D : Type 0} (m : Numerals D) (keeps : KeepsInts m) where
  pub int-round : (n default : ℤ) → IsInt n → to_int m (int m n) default ≡ n
  int-round n default h = rw (keeps n h) refl

  pub word-round :
      (n : ℕ) (default : ℤ) → n < 2 ^ 16 → wrap16 (to_int m (int m (pos n)) default) ≡ n
  word-round n default h = rw (keeps (pos n) (omega arith)) (omega arith)

  pub serial-round : (s : Rs485Config) → Rs485Fits s → serial_of m (to_object (serial_json m s)) ≡ s
  unfolding serial_of serial_json
  serial-round s f =
      rw
        (
          keeps s.baud_rate f.baud_rate,
          keeps s.data_bits f.data_bits,
          keeps s.stop_bits f.stop_bits,
        )
        refl

  pub modbus_server-round :
      (s : ModbusServerConfig)
      → ServerFits s
      → modbus_server_of m (to_object (modbus_server_json m s)) ≡ s
  unfolding modbus_server_of modbus_server_json
  modbus_server-round s f =
      rw (word-round s.port (pos 502) f.port, keeps s.slave_id f.slave_id) refl

  pub login_security-round :
      (s : LoginSecurityConfig)
      → LoginFits s
      → login_security_of m (to_object (login_security_json m s)) ≡ s
  unfolding login_security_of login_security_json
  login_security-round s f =
      rw
        (
          keeps s.max_failed_attempts f.max_failed_attempts,
          keeps s.session_timeout_minutes f.session_timeout_minutes,
          keeps s.min_password_length f.min_password_length,
        )
        refl

  pub channel-round :
      (tag : String) (c : TrendChannelConfig D)
      → ChannelFits c
      → channel_of m tag (channel_json m c) ≡ c
  unfolding channel_of channel_json
  channel-round tag c f =
      rw
        (
          keeps c.reg_id f.reg_id,
          word-round c.min_value (pos 0) f.min_value,
          word-round c.max_value (pos 65535) f.max_value,
        )
        refl

  pub channels-round :
      (digits : ℕ → String) (i : ℕ) (cs : List (TrendChannelConfig D))
      → All ChannelFits cs
      → channels_of m digits i (map (channel_json m) cs) ≡ cs
  unfolding channels_of
  channels-round digits i [] f = refl
  channels-round digits i (c ∷ cs) (f, fs) =
      rw (channel-round ("CH_" <> digits (i + 1)) c f, channels-round digits (i + 1) cs fs) refl

  pub config-round :
      (digits : ℕ → String) (c : AppConfig D)
      → ConfigFits c
      → config_of m digits (config_json m c) ≡ c
  unfolding config_of config_json system_of system_json
  config-round digits c f =
      rw
        (
          elements-items_of (map interface_json c.network_interfaces),
          map-map_cancel interface_json interface_of c.network_interfaces (interface-round D),
          serial-round c.rs485 f.rs485,
          modbus_server-round c.modbus_server f.modbus_server,
          login_security-round c.login_security f.login_security,
          keeps c.trend.sample_interval_sec f.interval,
          elements-items_of (map (channel_json m) c.trend.channels),
          channels-round digits 0 c.trend.channels f.channels,
          keeps c.hmi.max_screens f.max_screens,
        )
        refl

-- What is written is what is read.
abbrev pub WritesStay : {F T D : Type 0} → ConfigFile F T D → Type 0
WritesStay {F = F} {T = T} dev =
    (t : T) (f g : F) → dev.write_all t f ≡ some g → dev.read_all g ≡ some t

-- Settings whose numbers are in the range of their types, once they are saved without an error, are the
-- ones that a load of the file gives, provided that the text of their object is read back as it.
pub load_config-save_config :
    {F T D : Type 0} (dev : ConfigFile F T D) (m : Numerals D) (digits : ℕ → String)
    (c : AppConfig D) (file saved : F)
    → KeepsInts m
    → WritesStay dev
    → ConfigFits c
    → dev.from_json (dev.to_json (config_json m c)) ≡ object (config_json m c)
    → save_config dev m c file ≡ some saved
    → load_config dev m digits saved ≡ c
unfolding load_config save_config config_of_document
load_config-save_config dev m digits c file saved keeps stay fits back e =
    rw
      (
        load_config,
        stay (dev.to_json (config_json m c)) file saved e,
        config_of_document,
        back,
        config-round m keeps digits c fits,
      )
      refl
