-- ===== src/Model.antt =====
-- data_collection/model/DeviceModels.h: the configuration records that every component shares.
-- `D` is the type of a double; an id or an address that uses -1 for "none" is an integer, and the
-- other `int` fields are natural numbers.
pub mod Names
use swr.Base.{ℕ, String, Bool, List, true, false}
use swr.Base.Int.{ℤ, pos, negsuc}

pub data ByteOrder : Type 0 where
  default_order big_endian little_endian : ByteOrder

pub data RegisterType : Type 0 where
  unknown_type coil discrete_input holding_register input_register : RegisterType

pub record RegisterConfig (D : Type 0) : Type 0 where
  pub id : ℤ
  pub device_id : ℤ
  pub tag_name : String
  pub display_name : String
  pub local_address : ℕ
  pub unified_address : ℤ
  pub type : RegisterType
  pub read_only : Bool
  pub length : ℕ
  pub unit : String
  pub scale : D
  pub is_signed : Bool
  pub bit_labels : String
  pub min_value : D
  pub max_value : D
  pub byte_order : ByteOrder

pub data PollMode : Type 0 where
  auto manual : PollMode

pub record PollingConfig : Type 0 where
  pub poll_mode : PollMode
  pub interval_ms : ℕ
  pub retry_count : ℕ

pub data ConnectionType : Type 0 where
  serial tcp : ConnectionType

pub data Protocol : Type 0 where
  unknown_protocol modbus_rtu modbus_tcp modbus_ascii pc_link pc_link_sum : Protocol

pub record DeviceConnection : Type 0 where
  pub type : ConnectionType
  pub protocol : Protocol
  pub default_byte_order : ByteOrder
  pub ip_address : String
  pub tcp_port : ℕ
  pub slave_id : ℕ
  pub timeout_ms : ℕ

pub data DeviceState : Type 0 where
  unknown_state ok_state error_state : DeviceState

pub record Status : Type 0 where
  pub state : DeviceState
  pub last_poll_timestamp : ℕ
  pub last_poll_duration_ms : ℤ
  pub effective_interval_ms : ℤ
  pub consecutive_errors : ℕ
  pub last_error : String

pub record DeviceInfo (D : Type 0) : Type 0 where
  pub id : ℤ
  pub device_code : String
  pub name : String
  pub display_name : String
  pub connection : DeviceConnection
  pub registers : List (RegisterConfig D)
  pub polling : PollingConfig
  pub enabled : Bool
  pub status : Status

pub record WriteRequest (D : Type 0) : Type 0 where
  pub config : RegisterConfig D
  pub raw_values : List ℕ
  pub coil_values : List Bool
  pub retry_count : ℕ

-- A double and what the program computes with it, which is not part of the program: the order, the
-- product, the conversion of an integer, 0, 1 and the least and the greatest value.
pub record Doubles (D : Type 0) : Type 0 where
  pub lt : D → D → Bool
  pub mul : D → D → D
  pub of_ℤ : ℤ → D
  pub zero : D
  pub one : D
  pub lowest : D
  pub max : D

-- The members that `RegisterConfig{}` starts with.
unfoldable pub default_config : {D : Type 0} → Doubles D → RegisterConfig D
default_config d = record {
  id = negsuc 0;
  device_id = negsuc 0;
  tag_name = "";
  display_name = "";
  local_address = 0;
  unified_address = negsuc 0;
  type = unknown_type;
  read_only = false;
  length = 1;
  unit = "";
  scale = d.one;
  is_signed = false;
  bit_labels = "";
  min_value = d.lowest;
  max_value = d.max;
  byte_order = default_order;
}
