-- ===== src/Database/Stored.antt =====
-- data_collection/database/DeviceDatabase.cpp: the values that `insertDevice`, `insertRegister` and
-- `insertUser` bind to their statements.
use swr.Base.{String}
use swr.Base.Int.{ℤ, pos}
use swr.Model.{DeviceInfo, RegisterConfig}
use swr.Model.Names.{
  UserRole, UserStatus, connection_type_to_string, protocol_to_string, byte_order_to_string,
  register_type_to_string, poll_mode_to_string, user_role_to_string, user_status_to_string,
}
use swr.Database.Rows.{DeviceRow, RegisterRow, UserRow}

-- The members of `UserInfo` that are stored for a new user, and the id.
pub record UserInfo : Type 0 where
  pub id : ℤ
  pub username : String
  pub display_name : String
  pub description : String
  pub password_hash : String
  pub role : UserRole
  pub status : UserStatus

unfoldable pub stored_user : UserInfo → UserRow
stored_user u = record {
  username = u.username;
  display_name = u.display_name;
  description = u.description;
  password_hash = u.password_hash;
  role = user_role_to_string u.role;
  status = user_status_to_string u.status;
}

module _ {D : Type 0} where
  unfoldable pub stored_device : DeviceInfo D → DeviceRow
  stored_device d = record {
    device_code = d.device_code;
    name = d.name;
    display_name = d.display_name;
    conn_type = connection_type_to_string d.connection.type;
    ip_address = d.connection.ip_address;
    tcp_port = pos d.connection.tcp_port;
    slave_id = pos d.connection.slave_id;
    timeout_ms = pos d.connection.timeout_ms;
    interval_ms = pos d.polling.interval_ms;
    retry_count = pos d.polling.retry_count;
    byte_order = byte_order_to_string d.connection.default_byte_order;
    protocol = protocol_to_string d.connection.protocol;
    poll_mode = poll_mode_to_string d.polling.poll_mode;
    enabled = d.enabled;
  }

  unfoldable pub stored_register : RegisterConfig D → RegisterRow D
  stored_register f = record {
    name = f.tag_name;
    address = pos f.local_address;
    type = register_type_to_string f.type;
    read_only = f.read_only;
    length = pos f.length;
    unified_register_id = f.unified_address;
    display_name = f.display_name;
    unit = f.unit;
    scale = f.scale;
    is_signed = f.is_signed;
    min_value = f.min_value;
    max_value = f.max_value;
    byte_order = byte_order_to_string f.byte_order;
    bit_labels = f.bit_labels;
  }
