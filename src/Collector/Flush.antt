-- ===== src/Collector/Flush.antt =====
-- data_collection/processor/DataCollector.cpp, `flushWrites`: the pending writes of the device go
-- out; what fails is queued again while it has retries left.
pub mod Retries
use swr.Base.{ℕ, ◌-◌, List, [], ◌∷◌, ltb, if◌then◌else◌}
use swr.Model.{DeviceInfo, WriteRequest}
use swr.Comm.Io.{Result, ok}
use swr.Comm.Client.{DeviceClient}
use swr.Exec.{Executor, write_field}
use swr.Store.DeviceList.{DeviceList, take_writes, enqueue_write}
use swr.Collector.{ensure_connected}

module _ {S D : Type 0} (dev : DeviceClient S) (device : DeviceInfo D) where
  -- A write that fails goes back to the end of the queue with one retry less, if it has any left.
  unfoldable pub after_write :
      WriteRequest D → DeviceList D → Result (Unit {0}) × Executor S → Executor S × DeviceList D
  after_write req l (ok _, x) = (x, l)
  after_write req l (_, x) = (
    x,
    if ltb 0 req.retry_count
        then enqueue_write device.id (record req { retry_count = req.retry_count - 1 }) l
        else l,
  )

  -- Without a connection the write is dropped.
  unfoldable pub after_connect :
      WriteRequest D → DeviceList D → Result (Unit {0}) × Executor S → Executor S × DeviceList D
  unfolding after_write
  after_connect req l (ok _, x) =
      after_write req l (write_field dev req.config req.raw_values req.coil_values x)
  after_connect req l (_, x) = (x, l)

  unfoldable pub flush_all :
      List (WriteRequest D) → Executor S × DeviceList D → Executor S × DeviceList D
  unfolding after_connect ensure_connected
  flush_all [] (x, l) = (x, l)
  flush_all (req ∷ reqs) (x, l) = flush_all reqs (after_connect req l (ensure_connected dev x))

  unfoldable pub flush_writes : Executor S × DeviceList D → Executor S × DeviceList D
  unfolding flush_all
  flush_writes (x, l) = let (reqs, l') = take_writes device.id l in flush_all reqs (x, l')
