-- ===== src/Lib.antt =====
-- A gateway that polls field devices over Modbus and PcLink, keeps the last value of every register
-- and serves the values to Modbus masters, whose writes it passes on to the devices.
--
-- The parts and how they interact. A worker polls a device through its DataCollector
-- (data_collection/processor), which flushes the pending writes of the device, then reads its
-- registers in batches. It uses a RegisterExecutor (data_collection/comm), which puts the words in
-- order and calls the protocol client of the device, and the client exchanges frames over a serial
-- bus or a socket. Results go to the RegisterTable, devices and pending writes are in the
-- DeviceList (data_collection/store). The ModbusTcpServer (modbus_server) reads the table and
-- enqueues writes. The PollingManager (data_collection/polling) gives every TCP device a worker of
-- its own and the devices of a serial bus a common one. The TrendFileRecorder (TrendHandler) writes
-- values of the table to a file for each day. The ApiServer (api) lets users log in, whose accounts
-- are in the database (data_collection/database). The BackupManager (maintenance) makes an archive of
-- the database and the settings (config), and the RestoreManager checks such an archive, keeps its
-- files in a directory and, on a second request, restores from them.
--
-- The files.
--   Base: lists, integers, Boolean tests and bit operations on the native numbers.
--   Model: data_collection/model/DeviceModels.h.
--   Comm/Io: results and errors of calls. Comm/Bytes: bytes, words and packed coils.
--   Comm/Serial: SerialBus.h and `sendRequest` of the serial clients.
--   Comm/Modbus: Crc, Pdu (request bodies and the checks that the clients share), Rtu, Tcp and Ascii
--     for ModbusRTUClient.cpp, ModbusTCPClient.cpp and ModbusASCIIClient.cpp.
--   Comm/PcLink: PcLinkClient.cpp and PcLinkSumTCPClient.cpp of data_collection/comm/pclink.
--   Comm/Client: IDeviceClient.h as a record of operations, and the RTU client as one.
--   Comm/Factory: DeviceClientFactory.cpp.
--   Exec: RegisterExecutor.cpp. Collector: DataCollector.cpp, with `flushWrites` in Collector/Flush.
--   Store: Hash (QHash), DeviceList.cpp, RegisterTable.cpp. Server: ModbusTcpServer.cpp.
--   Polling: TcpWorker.cpp, SerialWorker.cpp and PollingManager.cpp.
--   Trend: TrendFileWriter.cpp, TrendFileReader.cpp and TrendFileRecorder.cpp of TrendHandler, and
--     `TrendConfig` of config/AppConfig.h.
--   Api: Users for the login in data_collection/database/DeviceDatabase.cpp, Sessions for the
--     sessions in api/ApiServer.cpp.
--   Config: config/AppConfig.h and AppConfig.cpp, with the objects of the settings in Config/Parts
--     and the file in Config/File.
--   Database: `restoreData` of data_collection/database/DeviceDatabase.cpp, with the values that are
--     bound to its statements in Database/Rows, and those of a new device, register or user in
--     Database/Stored. Database/Registers: `insertRegister`, `updateRegister` and `deleteRegister`.
--   Maintenance: Settings, Data and Backup for BackupManager.cpp, Check, Validate and Apply for
--     RestoreManager.cpp of maintenance.
--   Tests: the theorems at concrete inputs.
-- A method is a function with its name in snake case; what it changes is an argument and part of
-- the result.
--
-- What is abstract. The serial port, the socket, QFile, the conversions of numbers to and from
-- text, std::sort, the ZIP format, the text of JSON values, directories, the statements on the
-- database, the hash of a password, the arithmetic of doubles, mktime, and the readings of the
-- clock and of `m_running` are parameters; a theorem that needs a law of them has it as a
-- hypothesis. Error texts are constructors without the protocol's prefix. A QHash is an association
-- list, in the order in which it is iterated.
--
-- Numbers. Addresses, lengths, slave ids and timeouts are `int` in the code and natural numbers
-- here: negative ones are outside the model. Ids and unified addresses, which use -1, are integers.
-- Bytes and words are numbers below 256 and 65536; the 64 bits of a combined register wrap around.
--
-- Failure. `fault` stands for an index out of range, on which Qt aborts, and `stuck` for a loop of
-- the model without fuel; a poll that aborts or is stuck is `halted`, and one from which an
-- exception leaves the worker is `escaped`. Two kinds of loop are on fuel. Those that collect a
-- reply take one unit for each piece that arrives, until the line is silent or, over TCP with
-- PcLink, until the line ends; a line that never does so keeps the code in the loop. The loop over
-- the samples of a trend file takes one unit for each index, which is enough because its step is at
-- least 1.
--
-- Not modelled: threads and sleeps (a mutex makes every method of the stores one step); the rest of
-- the HTTP interface and of the database, which copies rows to JSON and back, but also
-- edits the HMI; the object of the HMI in a backup (`buildHmi`); the cached settings of
-- SystemConfig.cpp; logging, the system monitor, the network configurator and start-up, which call
-- the operating system.
pub mod Base
pub mod Model
pub mod Config
pub mod Database
pub mod Maintenance
pub mod Comm
pub mod Exec
pub mod Store
pub mod Collector
pub mod Polling
pub mod Trend
pub mod Server
pub mod Api
pub mod Tests
