-- ===== src/Model/Names.antt =====
-- data_collection/model/DeviceModels.h: the names under which enumerations are stored.
use text.Mathlib.Text.{◌==◌}
use swr.Base.{String, ◌≡◌, refl, if◌then◌else◌}
use swr.Model.{
  RegisterType, coil, discrete_input, holding_register, input_register, unknown_type, PollMode,
  auto, manual, ByteOrder, default_order, big_endian, little_endian, ConnectionType, serial, tcp,
  Protocol, unknown_protocol, modbus_rtu, modbus_tcp, modbus_ascii, pc_link, pc_link_sum,
}

pub data UserRole : Type 0 where
  user manager admin : UserRole

pub data UserStatus : Type 0 where
  active disabled locked : UserStatus

pub connection_type_to_string : ConnectionType → String
connection_type_to_string tcp = "tcp"
connection_type_to_string serial = "serial"

pub connection_type_from_string : String → ConnectionType
connection_type_from_string s = if s == "tcp" then tcp else serial

pub protocol_to_string : Protocol → String
protocol_to_string modbus_rtu = "modbus_rtu"
protocol_to_string modbus_tcp = "modbus_tcp"
protocol_to_string modbus_ascii = "modbus_ascii"
protocol_to_string pc_link = "pclink"
protocol_to_string pc_link_sum = "pclink_sum"
protocol_to_string unknown_protocol = "unknown"

pub protocol_from_string : String → Protocol
protocol_from_string s =
    if s == "modbus_rtu"
    then modbus_rtu
    else if s == "modbus_tcp"
    then modbus_tcp
    else if s == "modbus_ascii"
    then modbus_ascii
    else if s == "pclink"
    then pc_link
    else if s == "pclink_sum"
    then pc_link_sum
    else unknown_protocol

pub register_type_to_string : RegisterType → String
register_type_to_string coil = "coil"
register_type_to_string discrete_input = "discrete_input"
register_type_to_string holding_register = "holding_register"
register_type_to_string input_register = "input_register"
register_type_to_string unknown_type = "unknown"

pub poll_mode_to_string : PollMode → String
poll_mode_to_string manual = "manual"
poll_mode_to_string auto = "auto"

pub user_role_to_string : UserRole → String
user_role_to_string admin = "admin"
user_role_to_string manager = "manager"
user_role_to_string user = "user"

unfoldable pub user_role_from_string : String → UserRole
user_role_from_string s = if s == "admin" then admin else if s == "manager" then manager else user

pub user_status_to_string : UserStatus → String
user_status_to_string disabled = "disabled"
user_status_to_string locked = "locked"
user_status_to_string active = "active"

unfoldable pub user_status_from_string : String → UserStatus
user_status_from_string s =
    if s == "disabled" then disabled else if s == "locked" then locked else active

pub byte_order_to_string : ByteOrder → String
byte_order_to_string little_endian = "little"
byte_order_to_string big_endian = "big"
byte_order_to_string default_order = "default"

pub byte_order_from_string : String → ByteOrder
byte_order_from_string s =
    if s == "little" then little_endian else if s == "big" then big_endian else default_order

connection_type_kept :
    (c : ConnectionType) → connection_type_from_string (connection_type_to_string c) ≡ c
unfolding connection_type_from_string connection_type_to_string
connection_type_kept tcp = refl
connection_type_kept serial = refl

protocol_kept : (p : Protocol) → protocol_from_string (protocol_to_string p) ≡ p
unfolding protocol_from_string protocol_to_string
protocol_kept modbus_rtu = refl
protocol_kept p = refl

user_role_kept : (r : UserRole) → user_role_from_string (user_role_to_string r) ≡ r
unfolding user_role_from_string user_role_to_string
user_role_kept admin = refl
user_role_kept r = refl

user_status_kept : (s : UserStatus) → user_status_from_string (user_status_to_string s) ≡ s
unfolding user_status_from_string user_status_to_string
user_status_kept locked = refl
user_status_kept s = refl

byte_order_kept : (o : ByteOrder) → byte_order_from_string (byte_order_to_string o) ≡ o
unfolding byte_order_from_string byte_order_to_string
byte_order_kept big_endian = refl
byte_order_kept o = refl

-- Every connection type, protocol, user role, user status and byte order is read back from the
-- name under which it is stored.
pub stored_names_round_trip :
    ((c : ConnectionType) → connection_type_from_string (connection_type_to_string c) ≡ c)
    × ((p : Protocol) → protocol_from_string (protocol_to_string p) ≡ p)
    × ((r : UserRole) → user_role_from_string (user_role_to_string r) ≡ r)
    × ((s : UserStatus) → user_status_from_string (user_status_to_string s) ≡ s)
    × ((o : ByteOrder) → byte_order_from_string (byte_order_to_string o) ≡ o)
stored_names_round_trip =
    (connection_type_kept, protocol_kept, user_role_kept, user_status_kept, byte_order_kept)
