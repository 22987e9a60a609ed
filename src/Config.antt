-- ===== src/Config.antt =====
-- config/AppConfig.h, and the initial and factory values of AppConfig.cpp: the settings. An `int` is an
-- integer here, and a port and a bound of a channel, which are `quint16`, are natural numbers.
pub mod Parts
pub mod File
pub mod Round
use swr.Base.{ℕ, ◌+◌, String, ◌<>◌, Bool, true, false, Option, none, some, List, [], ◌∷◌, map}
use swr.Base.Int.{ℤ, pos, negsuc, wrap16}
use swr.Base.Json.{
  Json, bool, number, text, array, object, Numerals, Object, empty_object, put, items_of, to_object,
  to_array, to_string, to_bool, to_double, to_int, int,
}
use swr.Trend.Recorder.{TrendConfig, TrendChannelConfig}

pub record Rs485Config : Type 0 where
  pub device : String
  pub baud_rate : ℤ
  pub data_bits : ℤ
  pub parity : String
  pub stop_bits : ℤ

pub record NetInterfaceConfig : Type 0 where
  pub name : String
  pub role : String
  pub enabled : Bool
  pub mode : String
  pub ip_address : String
  pub netmask : String
  pub gateway : String
  pub dns : String

pub record SysSettings : Type 0 where
  pub hostname : String
  pub ntp_server : String
  pub language : String

pub record ModbusServerConfig : Type 0 where
  pub enabled : Bool
  pub port : ℕ
  pub slave_id : ℤ

pub record LoginSecurityConfig : Type 0 where
  pub max_failed_attempts : ℤ
  pub session_timeout_minutes : ℤ
  pub min_password_length : ℤ
  pub auto_logout : Bool

pub record HmiConfig : Type 0 where
  pub max_screens : ℤ

pub record AppConfig (D : Type 0) : Type 0 where
  pub network_interfaces : List NetInterfaceConfig
  pub rs485 : Rs485Config
  pub system : SysSettings
  pub modbus_server : ModbusServerConfig
  pub login_security : LoginSecurityConfig
  pub trend : TrendConfig D
  pub hmi : HmiConfig

-- `AppConfig config;`
unfoldable pub initial_config : {D : Type 0} → AppConfig D
initial_config = record {
  network_interfaces = [];
  rs485 = record {
    device = "";
    baud_rate = pos 9600;
    data_bits = pos 8;
    parity = "none";
    stop_bits = pos 1;
  };
  system = record { hostname = "smartroute"; ntp_server = "pool.ntp.org"; language = "ko" };
  modbus_server = record { enabled = false; port = 502; slave_id = pos 1 };
  login_security = record {
    max_failed_attempts = pos 5;
    session_timeout_minutes = pos 30;
    min_password_length = pos 8;
    auto_logout = true;
  };
  trend = record { sample_interval_sec = pos 10; channels = [] };
  hmi = record { max_screens = pos 50 };
}

unfoldable pub factory_default_config : {D : Type 0} → AppConfig D
unfolding initial_config
factory_default_config = record initial_config {
  network_interfaces =
      record {
        name = "eth0";
        role = "field";
        enabled = true;
        mode = "static";
        ip_address = "192.168.0.150";
        netmask = "255.255.255.0";
        gateway = "192.168.0.1";
        dns = "8.8.8.8";
      }
      ∷ (record {
        name = "eth1";
        role = "service";
        enabled = true;
        mode = "static";
        ip_address = "192.168.1.150";
        netmask = "255.255.255.0";
        gateway = "";
        dns = "";
      }
          ∷ []);
  rs485 = record {
    device = "/dev/ttymxc1";
    baud_rate = pos 9600;
    data_bits = pos 8;
    parity = "none";
    stop_bits = pos 1;
  };
}
