-- ===== src/Comm/Factory.antt =====
-- data_collection/comm/DeviceClientFactory.cpp: which client a connection gets.
use swr.Base.{Bool, true, false}
use swr.Model.{
  unknown_protocol, modbus_rtu, modbus_tcp, modbus_ascii, pc_link, pc_link_sum, DeviceConnection,
}

pub data ClientClass : Type 0 where
  rtu_class ascii_class tcp_class pc_link_class pc_link_sum_class : ClientClass

-- `null_client` is a null result, `null_bus` a reference through a null pointer.
pub data Created : Type 0 where
  created : ClientClass → Created
  null_client null_bus : Created

abbrev pub on_bus : Bool → ClientClass → Created
on_bus true client = created client
on_bus false client = null_bus

-- `has_bus` is false where the caller leaves the bus out.
unfoldable pub create_device_client : DeviceConnection → Bool → Created
create_device_client connection has_bus = elim connection.protocol [
  | modbus_rtu ↦ on_bus has_bus rtu_class
  | modbus_ascii ↦ on_bus has_bus ascii_class
  | modbus_tcp ↦ created tcp_class
  | pc_link ↦ on_bus has_bus pc_link_class
  | pc_link_sum ↦ created pc_link_sum_class
  | unknown_protocol ↦ null_client
]
