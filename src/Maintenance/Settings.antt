-- ===== src/Maintenance/Settings.antt =====
-- maintenance/BackupManager.cpp and RestoreManager.cpp: the settings in a backup, and what a restoration
-- makes of the settings of the device. The test whether one of their objects is empty is left out: from
-- an empty object every member keeps its value.
use swr.Base.{◌≡◌, refl, Bool, true, false, List, [], ◌∷◌, map, if◌then◌else◌}
use swr.Base.Int.{pos, wrap16}
use swr.Base.Json.{
  Json, text, array, object, Numerals, Object, empty_object, put, items_of, to_object, to_array,
  to_string, to_bool, to_int, elements-items_of, map-map_cancel,
}
use swr.Config.{
  Rs485Config, NetInterfaceConfig, SysSettings, ModbusServerConfig, LoginSecurityConfig, AppConfig,
}
use swr.Config.Parts.{
  interface_json, interface_of, serial_json, modbus_server_json, login_security_json,
}
use swr.Config.Round.{KeepsInts, Rs485Fits, ServerFits, LoginFits, interface-round, word-round}

module _ {D : Type 0} where
  unfoldable pub backup_system_json : SysSettings → Json D
  backup_system_json s =
      object (put "hostname" (text s.hostname) (put "ntpServer" (text s.ntp_server) empty_object))

  unfoldable pub restored_system : Object D → SysSettings → SysSettings
  restored_system o s = record s {
    hostname = to_string (o "hostname") s.hostname;
    ntp_server = to_string (o "ntpServer") s.ntp_server;
  }

  -- `network` says whether the interfaces are to be restored; an empty list is not.
  unfoldable pub restored_interfaces :
      Bool → List (Json D) → List NetInterfaceConfig → List NetInterfaceConfig
  restored_interfaces false vs interfaces = interfaces
  restored_interfaces true [] interfaces = interfaces
  restored_interfaces true (v ∷ vs) interfaces = map interface_of (v ∷ vs)

module _ {D : Type 0} (m : Numerals D) where
  unfoldable pub build_config : AppConfig D → Object D
  build_config c =
      put "network"
        (object (
          put "interfaces" (array (items_of (map interface_json c.network_interfaces)))
            empty_object))
        (put "serial" (serial_json m c.rs485) (
          put "system" (backup_system_json c.system) (
            put "modbus_server" (modbus_server_json m c.modbus_server)
              (put "login_security" (login_security_json m c.login_security) empty_object))))

  unfoldable pub restored_serial : Object D → Rs485Config → Rs485Config
  restored_serial o s = record {
    device = to_string (o "device") s.device;
    baud_rate = to_int m (o "baudRate") s.baud_rate;
    data_bits = to_int m (o "dataBits") s.data_bits;
    parity = to_string (o "parity") s.parity;
    stop_bits = to_int m (o "stopBits") s.stop_bits;
  }

  unfoldable pub restored_server : Object D → ModbusServerConfig → ModbusServerConfig
  restored_server o s = record {
    enabled = to_bool (o "enabled") s.enabled;
    port = wrap16 (to_int m (o "port") (pos s.port));
    slave_id = to_int m (o "slaveId") s.slave_id;
  }

  unfoldable pub restored_security : Object D → LoginSecurityConfig → LoginSecurityConfig
  restored_security o s = record {
    max_failed_attempts = to_int m (o "maxFailedAttempts") s.max_failed_attempts;
    session_timeout_minutes = to_int m (o "sessionTimeoutMinutes") s.session_timeout_minutes;
    min_password_length = to_int m (o "minPasswordLength") s.min_password_length;
    auto_logout = to_bool (o "autoLogout") s.auto_logout;
  }

  unfoldable pub restored_config : Bool → Object D → AppConfig D → AppConfig D
  restored_config network root c = record c {
    system = restored_system (to_object (root "system")) c.system;
    rs485 = restored_serial (to_object (root "serial")) c.rs485;
    modbus_server = restored_server (to_object (root "modbus_server")) c.modbus_server;
    login_security = restored_security (to_object (root "login_security")) c.login_security;
    network_interfaces =
        restored_interfaces network (to_array (to_object (root "network") "interfaces"))
          c.network_interfaces;
  }

  -- What a restored backup of the settings `b` makes of the settings `c`.
  unfoldable pub taken_over : Bool → AppConfig D → AppConfig D → AppConfig D
  taken_over network b c = record c {
    system = record c.system { hostname = b.system.hostname; ntp_server = b.system.ntp_server };
    rs485 = b.rs485;
    modbus_server = b.modbus_server;
    login_security = b.login_security;
    network_interfaces =
        if network
        then elim b.network_interfaces [ [] ↦ c.network_interfaces | ◌∷◌ i is ↦ i ∷ is ]
        else c.network_interfaces;
  }

  interfaces-round :
      (network : Bool) (is js : List NetInterfaceConfig)
      → restored_interfaces network (map (interface_json {D = D}) is) js
        ≡ (if network then elim is [ [] ↦ js | ◌∷◌ i is ↦ i ∷ is ] else js)
  unfolding restored_interfaces
  interfaces-round false is js = refl
  interfaces-round true [] js = refl
  interfaces-round true (i ∷ is) js =
      map-map_cancel (interface_json {D = D}) interface_of (i ∷ is) (interface-round D)

  -- From the settings in a backup whose numbers are in the range of their types, a restoration takes the
  -- host name, the time server, the serial line, the Modbus server and the login security, and the
  -- interfaces if it is asked to and there are any; all other settings stay.
  pub restored_config-build_config :
      (network : Bool) (b c : AppConfig D)
      → KeepsInts m
      → Rs485Fits b.rs485
      → ServerFits b.modbus_server
      → LoginFits b.login_security
      → restored_config network (build_config b) c ≡ taken_over network b c
  unfolding restored_config build_config taken_over restored_system backup_system_json
      restored_serial serial_json restored_server modbus_server_json restored_security
      login_security_json
  restored_config-build_config network b c keeps s w l =
      rw
        (
          elements-items_of (map (interface_json {D = D}) b.network_interfaces),
          interfaces-round network b.network_interfaces c.network_interfaces,
          keeps b.rs485.baud_rate s.baud_rate,
          keeps b.rs485.data_bits s.data_bits,
          keeps b.rs485.stop_bits s.stop_bits,
          word-round m keeps b.modbus_server.port (pos c.modbus_server.port) w.port,
          keeps b.modbus_server.slave_id w.slave_id,
          keeps b.login_security.max_failed_attempts l.max_failed_attempts,
          keeps b.login_security.session_timeout_minutes l.session_timeout_minutes,
          keeps b.login_security.min_password_length l.min_password_length,
        )
        refl
