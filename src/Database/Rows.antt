-- ===== src/Database/Rows.antt =====
-- data_collection/database/DeviceDatabase.cpp, `restoreData`: the values that are bound to its statements,
-- from the objects of a backup. A value that may be NULL is an option.
use swr.Base.{String, Bool, true, false, Option, none, some, if◌then◌else◌}
use swr.Base.Int.{ℤ, pos, negsuc}
use swr.Base.Json.{
  Json, Numerals, Object, to_object, to_string, to_bool, to_double, to_int, is_double,
}
use text.Mathlib.Text.{◌==◌}

pub record DeviceRow : Type 0 where
  pub device_code : String
  pub name : String
  pub display_name : String
  pub conn_type : String
  pub ip_address : String
  pub tcp_port : ℤ
  pub slave_id : ℤ
  pub timeout_ms : ℤ
  pub interval_ms : ℤ
  pub retry_count : ℤ
  pub byte_order : String
  pub protocol : String
  pub poll_mode : String
  pub enabled : Bool

pub record RegisterRow (D : Type 0) : Type 0 where
  pub name : String
  pub address : ℤ
  pub type : String
  pub read_only : Bool
  pub length : ℤ
  pub unified_register_id : ℤ
  pub display_name : String
  pub unit : String
  pub scale : D
  pub is_signed : Bool
  pub min_value : D
  pub max_value : D
  pub byte_order : String
  pub bit_labels : String

pub record UserRow : Type 0 where
  pub username : String
  pub display_name : String
  pub description : String
  pub password_hash : String
  pub role : String
  pub status : String

pub record ScreenRow : Type 0 where
  pub id : String
  pub title : String
  pub content : String
  pub revision : ℤ
  pub sort_order : ℤ
  pub updated_at : String
  pub updated_by : String

pub record TagRow (D : Type 0) : Type 0 where
  pub id : String
  pub name : String
  pub unit : Option String
  pub min_value : Option D
  pub max_value : Option D
  pub decimals : Option ℤ
  pub access : Option String

abbrev pub not_empty : String → Option String
not_empty s = if s == "" then none else some s

module _ {D : Type 0} (m : Numerals D) where
  unfoldable pub device_row : Object D → DeviceRow
  device_row o =
      let conn = to_object (o "connection") in
      let poll = to_object (o "polling") in
      record {
        device_code = to_string (o "deviceCode") "";
        name = to_string (o "name") "";
        display_name = to_string (o "displayName") "";
        conn_type = to_string (conn "type") "";
        ip_address = to_string (conn "ipAddress") "";
        tcp_port = to_int m (conn "tcpPort") (pos 502);
        slave_id = to_int m (conn "slaveId") (pos 1);
        timeout_ms = to_int m (conn "timeoutMs") (pos 5000);
        interval_ms = to_int m (poll "intervalMs") (pos 1000);
        retry_count = to_int m (poll "retryCount") (pos 3);
        byte_order = to_string (conn "defaultByteOrder") "big";
        protocol = to_string (conn "protocol") "";
        poll_mode = to_string (poll "pollMode") "auto";
        enabled = to_bool (o "enabled") true;
      }

  unfoldable pub register_row : Object D → RegisterRow D
  register_row o = record {
    name = to_string (o "tagName") "";
    address = to_int m (o "localAddress") (pos 0);
    type = to_string (o "type") "";
    read_only = to_bool (o "readOnly") true;
    length = to_int m (o "length") (pos 1);
    unified_register_id = to_int m (o "unifiedAddress") (negsuc 0);
    display_name = to_string (o "displayName") "";
    unit = to_string (o "unit") "";
    scale = to_double (o "scale") (m.of_int (pos 1));
    is_signed = to_bool (o "isSigned") false;
    min_value = to_double (o "minValue") (m.of_int (pos 0));
    max_value = to_double (o "maxValue") (m.of_int (pos 0));
    byte_order = to_string (o "byteOrder") "default";
    bit_labels = to_string (o "bitLabels") "";
  }

  -- `now` stands in for a missing time, `to_text` is the compact text of an object.
  unfoldable pub screen_row : (Object D → String) → String → ℤ → Object D → ScreenRow
  screen_row to_text now sort_order o = record {
    id = to_string (o "id") "";
    title = to_string (o "title") "";
    content = to_text (to_object (o "content"));
    revision = to_int m (o "revision") (pos 1);
    sort_order = sort_order;
    updated_at = to_string (o "updatedAt") now;
    updated_by = to_string (o "updatedBy") "";
  }

  abbrev pub opt_real : Json D → Option D
  opt_real v = if is_double v then some (to_double v (m.of_int (pos 0))) else none

  unfoldable pub tag_row : Object D → TagRow D
  tag_row o = record {
    id = to_string (o "id") "";
    name = to_string (o "name") "";
    unit = not_empty (to_string (o "unit") "");
    min_value = opt_real (o "minValue");
    max_value = opt_real (o "maxValue");
    decimals = if is_double (o "decimals") then some (to_int m (o "decimals") (pos 0)) else none;
    access = not_empty (to_string (o "access") "");
  }

module _ {D : Type 0} where
  unfoldable pub user_row : Object D → UserRow
  user_row o = record {
    username = to_string (o "username") "";
    display_name = to_string (o "displayName") "";
    description = to_string (o "description") "";
    password_hash = to_string (o "passwordHash") "";
    role = to_string (o "role") "user";
    status = to_string (o "status") "active";
  }
