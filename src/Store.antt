-- ===== src/Store.antt =====
-- data_collection/store: the shared tables. A QHash is a list of keys and values in the order of
-- its iteration, which Qt leaves open.
pub mod Hash
pub mod DeviceList
pub mod RegisterTable
