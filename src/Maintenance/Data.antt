-- ===== src/Maintenance/Data.antt =====
-- maintenance/BackupManager.cpp: the objects of the devices, the registers and the users in a backup.
use swr.Base.{◌≡◌, refl, List, [], ◌∷◌, ◌++◌, map, if◌then◌else◌}
use swr.Base.Int.{ℤ, pos, eq_ℤ, IsInt}
use swr.Base.Json.{Json, bool, number, text, object, Numerals, empty_object, put, int, to_object}
use swr.Config.Round.{KeepsInts}
use swr.Model.{DeviceInfo, RegisterConfig}
use swr.Model.Names.{
  connection_type_to_string, protocol_to_string, byte_order_to_string, register_type_to_string,
  user_role_to_string, user_status_to_string,
}
use swr.Database.Rows.{device_row, register_row, user_row}
use swr.Database.Stored.{UserInfo, stored_device, stored_register, stored_user}

module _ {D : Type 0} where
  unfoldable pub user_json : UserInfo → Json D
  user_json u = object (
      put "username" (text u.username) (
        put "displayName" (text u.display_name) (
          put "description" (text u.description) (
            put "passwordHash" (text u.password_hash) (
              put "role" (text (user_role_to_string u.role))
                (put "status" (text (user_status_to_string u.status)) empty_object))))))

  -- All users but the default administrator.
  unfoldable pub build_users : List UserInfo → List (Json D)
  unfolding user_json
  build_users [] = []
  build_users (u ∷ us) =
      let rest = build_users us in if eq_ℤ u.id (pos 0) then rest else user_json u ∷ rest

module _ {D : Type 0} (m : Numerals D) where
  unfoldable pub device_json : DeviceInfo D → Json D
  device_json d = object (
      put "id" (int m d.id) (
        put "deviceCode" (text d.device_code) (
          put "name" (text d.name) (
            put "displayName" (text d.display_name) (
              put "enabled" (bool d.enabled) (
                put "connection"
                  (object (
                    put "type" (text (connection_type_to_string d.connection.type)) (
                      put "protocol" (text (protocol_to_string d.connection.protocol)) (
                        put "defaultByteOrder"
                          (text (byte_order_to_string d.connection.default_byte_order))
                          (put "ipAddress" (text d.connection.ip_address) (
                            put "tcpPort" (int m (pos d.connection.tcp_port)) (
                              put "slaveId" (int m (pos d.connection.slave_id)) (
                                put "timeoutMs" (int m (pos d.connection.timeout_ms))
                                  empty_object))))))))
                  (put "polling"
                    (object (
                      put "intervalMs" (int m (pos d.polling.interval_ms))
                        (put "retryCount" (int m (pos d.polling.retry_count)) empty_object)))
                    empty_object)))))))

  unfoldable pub register_json : ℤ → RegisterConfig D → Json D
  register_json device_id f = object (
      put "deviceId" (int m device_id) (
        put "tagName" (text f.tag_name) (
          put "displayName" (text f.display_name) (
            put "localAddress" (int m (pos f.local_address)) (
              put "type" (text (register_type_to_string f.type)) (
                put "readOnly" (bool f.read_only) (
                  put "length" (int m (pos f.length)) (
                    put "unifiedAddress" (int m f.unified_address) (
                      put "unit" (text f.unit) (
                        put "scale" (number f.scale) (
                          put "isSigned" (bool f.is_signed) (
                            put "minValue" (number f.min_value) (
                              put "maxValue" (number f.max_value) (
                                put "byteOrder" (text (byte_order_to_string f.byte_order))
                                  (put "bitLabels" (text f.bit_labels) empty_object)))))))))))))))

  unfoldable pub build_devices : List (DeviceInfo D) → List (Json D)
  unfolding device_json
  build_devices ds = map device_json ds

  unfoldable pub build_registers : List (DeviceInfo D) → List (Json D)
  unfolding register_json
  build_registers [] = []
  build_registers (d ∷ ds) = map (register_json d.id) d.registers ++ build_registers ds

-- The numbers of a device are in the range of `int`.
pub record DeviceFits {D : Type 0} (d : DeviceInfo D) : Type 0 where
  pub tcp_port : IsInt (pos d.connection.tcp_port)
  pub slave_id : IsInt (pos d.connection.slave_id)
  pub timeout_ms : IsInt (pos d.connection.timeout_ms)
  pub interval_ms : IsInt (pos d.polling.interval_ms)
  pub retry_count : IsInt (pos d.polling.retry_count)

pub record RegisterFits {D : Type 0} (f : RegisterConfig D) : Type 0 where
  pub local_address : IsInt (pos f.local_address)
  pub length : IsInt (pos f.length)
  pub unified_address : IsInt f.unified_address

user_round :
    (D : Type 0) (u : UserInfo) → user_row (to_object (user_json {D = D} u)) ≡ stored_user u
unfolding user_row user_json stored_user
user_round D u = refl

module _ {D : Type 0} (m : Numerals D) (keeps : KeepsInts m) where
  device_round :
      (d : DeviceInfo D)
      → DeviceFits d
      → device_row m (to_object (device_json m d)) ≡ record (stored_device d) { poll_mode = "auto" }
  unfolding device_row device_json stored_device
  device_round d f =
      rw
        (
          keeps (pos d.connection.tcp_port) f.tcp_port,
          keeps (pos d.connection.slave_id) f.slave_id,
          keeps (pos d.connection.timeout_ms) f.timeout_ms,
          keeps (pos d.polling.interval_ms) f.interval_ms,
          keeps (pos d.polling.retry_count) f.retry_count,
        )
        refl

  register_round :
      (device_id : ℤ) (f : RegisterConfig D)
      → RegisterFits f
      → register_row m (to_object (register_json m device_id f)) ≡ stored_register f
  unfolding register_row register_json stored_register
  register_round device_id f h =
      rw
        (
          keeps (pos f.local_address) h.local_address,
          keeps (pos f.length) h.length,
          keeps f.unified_address h.unified_address,
        )
        refl

  -- A device, a register and a user whose numbers are in the range of `int` are restored from their objects
  -- in a backup with the values that were stored for them when they were added, but the device gets
  -- the poll mode "auto", whatever its own was.
  pub restored_rows :
      (d : DeviceInfo D) (f : RegisterConfig D) (u : UserInfo)
      → DeviceFits d
      → RegisterFits f
      → (device_row m (to_object (device_json m d))
          ≡ record (stored_device d) { poll_mode = "auto" })
        × (register_row m (to_object (register_json m d.id f)) ≡ stored_register f)
        × (user_row (to_object (user_json {D = D} u)) ≡ stored_user u)
  restored_rows d f u h k = (device_round d h, register_round d.id f k, user_round D u)
