-- ===== src/Config/Parts.antt =====
-- config/AppConfig.cpp: the JSON objects of the settings, and the settings that an object holds, with
-- what stands in for a missing or a wrong value.
use swr.Base.{ℕ, ◌+◌, String, ◌<>◌, true, false, List, [], ◌∷◌, map}
use swr.Base.Int.{pos, negsuc, wrap16}
use swr.Base.Json.{
  Json, bool, number, text, array, object, Numerals, Object, empty_object, put, items_of, to_object,
  to_array, to_string, to_bool, to_double, to_int, int,
}
use swr.Trend.Recorder.{TrendChannelConfig}
use swr.Config.{
  Rs485Config, NetInterfaceConfig, SysSettings, ModbusServerConfig, LoginSecurityConfig, AppConfig,
}

-- The objects of the parts, and the parts of an object.
module _ {D : Type 0} where
  unfoldable pub interface_json : NetInterfaceConfig → Json D
  interface_json i = object (
      put "name" (text i.name) (
        put "role" (text i.role) (
          put "enabled" (bool i.enabled) (
            put "mode" (text i.mode) (
              put "ipAddress" (text i.ip_address) (
                put "netmask" (text i.netmask)
                  (put "gateway" (text i.gateway) (put "dns" (text i.dns) empty_object))))))))

  unfoldable pub interface_of : Json D → NetInterfaceConfig
  interface_of v =
      let o = to_object v in
      record {
        name = to_string (o "name") "";
        role = to_string (o "role") "";
        enabled = to_bool (o "enabled") true;
        mode = to_string (o "mode") "static";
        ip_address = to_string (o "ipAddress") "";
        netmask = to_string (o "netmask") "";
        gateway = to_string (o "gateway") "";
        dns = to_string (o "dns") "";
      }

  unfoldable pub system_json : SysSettings → Json D
  system_json s = object (
      put "hostname" (text s.hostname)
        (put "ntpServer" (text s.ntp_server) (put "language" (text s.language) empty_object)))

  unfoldable pub system_of : Object D → SysSettings
  system_of o = record {
    hostname = to_string (o "hostname") "smartroute";
    ntp_server = to_string (o "ntpServer") "pool.ntp.org";
    language = to_string (o "language") "ko";
  }

module _ {D : Type 0} (m : Numerals D) where
  unfoldable pub serial_json : Rs485Config → Json D
  serial_json s = object (
      put "device" (text s.device) (
        put "baudRate" (int m s.baud_rate) (
          put "dataBits" (int m s.data_bits)
            (put "parity" (text s.parity) (put "stopBits" (int m s.stop_bits) empty_object)))))

  unfoldable pub serial_of : Object D → Rs485Config
  serial_of o = record {
    device = to_string (o "device") "/dev/ttymxc1";
    baud_rate = to_int m (o "baudRate") (pos 9600);
    data_bits = to_int m (o "dataBits") (pos 8);
    parity = to_string (o "parity") "none";
    stop_bits = to_int m (o "stopBits") (pos 1);
  }

  unfoldable pub modbus_server_json : ModbusServerConfig → Json D
  modbus_server_json s = object (
      put "enabled" (bool s.enabled)
        (put "port" (int m (pos s.port)) (put "slaveId" (int m s.slave_id) empty_object)))

  unfoldable pub modbus_server_of : Object D → ModbusServerConfig
  modbus_server_of o = record {
    enabled = to_bool (o "enabled") false;
    port = wrap16 (to_int m (o "port") (pos 502));
    slave_id = to_int m (o "slaveId") (pos 1);
  }

  unfoldable pub login_security_json : LoginSecurityConfig → Json D
  login_security_json s = object (
      put "maxFailedAttempts" (int m s.max_failed_attempts) (
        put "sessionTimeoutMinutes" (int m s.session_timeout_minutes) (
          put "minPasswordLength" (int m s.min_password_length)
            (put "autoLogout" (bool s.auto_logout) empty_object))))

  unfoldable pub login_security_of : Object D → LoginSecurityConfig
  login_security_of o = record {
    max_failed_attempts = to_int m (o "maxFailedAttempts") (pos 5);
    session_timeout_minutes = to_int m (o "sessionTimeoutMinutes") (pos 30);
    min_password_length = to_int m (o "minPasswordLength") (pos 8);
    auto_logout = to_bool (o "autoLogout") true;
  }

  unfoldable pub channel_json : TrendChannelConfig D → Json D
  channel_json c = object (
      put "regId" (int m c.reg_id) (
        put "name" (text c.name) (
          put "tag" (text c.tag) (
            put "unit" (text c.unit) (
              put "scale" (number c.scale) (
                put "isSigned" (bool c.is_signed) (
                  put "minValue" (int m (pos c.min_value))
                    (put "maxValue" (int m (pos c.max_value)) empty_object))))))))

  -- `tag` stands in for a missing one.
  unfoldable pub channel_of : String → Json D → TrendChannelConfig D
  channel_of tag v =
      let o = to_object v in
      record {
        reg_id = to_int m (o "regId") (negsuc 0);
        name = to_string (o "name") "";
        tag = to_string (o "tag") tag;
        unit = to_string (o "unit") "";
        scale = to_double (o "scale") (m.of_int (pos 1));
        is_signed = to_bool (o "isSigned") false;
        min_value = wrap16 (to_int m (o "minValue") (pos 0));
        max_value = wrap16 (to_int m (o "maxValue") (pos 65535));
      }

  -- From the channel with the index `i` on; `digits` writes a number with at least two of them.
  unfoldable pub channels_of : (ℕ → String) → ℕ → List (Json D) → List (TrendChannelConfig D)
  channels_of digits i [] = []
  channels_of digits i (v ∷ vs) =
      channel_of ("CH_" <> digits (i + 1)) v ∷ channels_of digits (i + 1) vs

  unfoldable pub config_json : AppConfig D → Object D
  config_json c =
      put "network"
        (object (
          put "interfaces" (array (items_of (map interface_json c.network_interfaces)))
            empty_object))
        (put "serial" (serial_json c.rs485) (
          put "system" (system_json c.system) (
            put "modbus_server" (modbus_server_json c.modbus_server) (
              put "login_security" (login_security_json c.login_security) (
                put "trend"
                  (object (
                    put "sampleIntervalSec" (int m c.trend.sample_interval_sec) (
                      put "channels" (array (items_of (map channel_json c.trend.channels)))
                        empty_object)))
                  (put "hmi" (object (put "maxScreens" (int m c.hmi.max_screens) empty_object))
                    empty_object))))))

  unfoldable pub config_of : (ℕ → String) → Object D → AppConfig D
  config_of digits root =
      let trend = to_object (root "trend") in
      record {
        network_interfaces = map interface_of (to_array (to_object (root "network") "interfaces"));
        rs485 = serial_of (to_object (root "serial"));
        system = system_of (to_object (root "system"));
        modbus_server = modbus_server_of (to_object (root "modbus_server"));
        login_security = login_security_of (to_object (root "login_security"));
        trend = record {
          sample_interval_sec = to_int m (trend "sampleIntervalSec") (pos 10);
          channels = channels_of digits 0 (to_array (trend "channels"));
        };
        hmi = record { max_screens = to_int m (to_object (root "hmi") "maxScreens") (pos 50) };
      }
