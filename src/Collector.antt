-- ===== src/Collector.antt =====
-- data_collection/processor/DataCollector.cpp: the registers of one device read in batches, and its
-- pending writes. `std::sort` is a parameter: which of two equal elements comes first is open.
pub mod Batches
pub mod Coverage
pub mod Transparent
pub mod Poll
pub mod Flush
use swr.Base.{
  ℕ, zero, suc, ◌+◌, ◌-◌, Bool, true, false, not, ◌&&◌, ◌||◌, Option, none, some, List, [], ◌∷◌,
  ◌++◌, ◌==◌, leb, ltb, if◌then◌else◌, length, get_elem?, set, take, drop, replicate,
}
use swr.Base.Int.{ℤ}
use swr.Model.{
  ByteOrder, RegisterType, unknown_type, coil, discrete_input, holding_register, input_register,
  RegisterConfig, DeviceInfo, WriteRequest,
}
use swr.Comm.Io.{Error, Result, ok, err, fault, stuck, Io, next}
use swr.Comm.Client.{DeviceClient}
use swr.Exec.{
  Executor, Values, apply_field_byte_order, connect, is_connected, read_batch, read_field,
  write_field,
}
use swr.Store.DeviceList.{DeviceList, take_writes, enqueue_write}

abbrev pub max_read_quantity : ℕ
max_read_quantity = 64

pub record FieldSlice : Type 0 where
  pub field_index : ℕ
  pub offset : ℕ
  pub length : ℕ

pub record RegisterBatch : Type 0 where
  pub start_address : ℕ
  pub total_length : ℕ
  pub type : RegisterType
  pub slices : List FieldSlice

pub record FieldResult : Type 0 where
  pub register_values : List ℕ
  pub coil_values : List Bool
  pub is_ok : Bool
  pub error : Option Error

-- `static_cast<int>(type)`.
abbrev pub rank : RegisterType → ℕ
rank unknown_type = 0
rank coil = 1
rank discrete_input = 2
rank holding_register = 3
rank input_register = 4

abbrev pub eq_type : RegisterType → RegisterType → Bool
eq_type a b = rank a == rank b

abbrev pub range_from : ℕ → ℕ → List ℕ
range_from i zero = []
range_from i (suc n) = i ∷ range_from (i + 1) n

module _ {D : Type 0} where
  abbrev pub can_merge : RegisterBatch → RegisterConfig D → Bool
  can_merge last config =
      eq_type last.type config.type
      && config.local_address == last.start_address + last.total_length
      && leb (last.total_length + config.length) max_read_quantity

  abbrev pub merge : RegisterBatch → ℕ → RegisterConfig D → RegisterBatch
  merge last i config = record last {
    slices =
        last.slices
        ++ (record { field_index = i; offset = last.total_length; length = config.length } ∷ []);
    total_length = last.total_length + config.length;
  }

  abbrev pub new_batch : ℕ → RegisterConfig D → RegisterBatch
  new_batch i config = record {
    start_address = config.local_address;
    total_length = config.length;
    type = config.type;
    slices = record { field_index = i; offset = 0; length = config.length } ∷ [];
  }

  -- Into the last batch if it fits, else into a new one behind it.
  unfoldable pub add_field : ℕ → RegisterConfig D → List RegisterBatch → List RegisterBatch
  add_field i config [] = new_batch i config ∷ []
  add_field i config (last ∷ []) =
      if can_merge last config then merge last i config ∷ [] else last ∷ (new_batch i config ∷ [])
  add_field i config (b ∷ (b' ∷ bs)) = b ∷ add_field i config (b' ∷ bs)

module _ {D : Type 0} (registers : List (RegisterConfig D)) where
  -- The comparison that the indices are sorted by: the type, then the address.
  unfoldable pub before : ℕ → ℕ → Bool
  before a b = elim (get_elem? registers a) [
    | none ↦ false
    | some ra ↦ elim (get_elem? registers b) [
      | none ↦ false
      | some rb ↦
          if not (eq_type ra.type rb.type)
          then ltb (rank ra.type) (rank rb.type)
          else ltb ra.local_address rb.local_address
    ]
  ]

  -- Every index is below the number of registers, so `none` does not occur.
  unfoldable pub add_fields : List ℕ → List RegisterBatch → List RegisterBatch
  unfolding add_field
  add_fields [] batches = batches
  add_fields (i ∷ is) batches =
      add_fields is
        (elim (get_elem? registers i) [ none ↦ batches | some config ↦ add_field i config batches ])

  unfoldable pub build_batches : ((ℕ → ℕ → Bool) → List ℕ → List ℕ) → List RegisterBatch
  unfolding before add_fields
  build_batches sort = add_fields (sort before (range_from 0 (length registers))) []

abbrev pub empty_result : FieldResult
empty_result = record { register_values = []; coil_values = []; is_ok = false; error = none }

abbrev pub failed_with : Error → FieldResult
failed_with e = record { register_values = []; coil_values = []; is_ok = false; error = some e }

-- `QList::mid`.
abbrev pub mid {ℓ} : {A : Type ℓ} → List A → ℕ → ℕ → List A
mid xs offset n = take n (drop offset xs)

unfoldable pub ensure_connected : {S : Type 0} → DeviceClient S → Io (Executor S) (Unit {0})
ensure_connected dev x = if is_connected dev x then (ok tt, x) else connect dev x

unfoldable pub fill_slices :
    (FieldSlice → FieldResult) → List FieldSlice → List FieldResult → List FieldResult
fill_slices f [] results = results
fill_slices f (s ∷ ss) results = fill_slices f ss (set results s.field_index (f s))

module _ {D : Type 0} (device : DeviceInfo D) where
  -- What a slice gets from the values of its batch; the executor knows the device's word order.
  unfoldable pub slice_result : ByteOrder → RegisterType → Values → FieldSlice → FieldResult
  slice_result order coil values slice = record empty_result {
    is_ok = true;
    coil_values = mid values.coil_values slice.offset slice.length;
  }
  slice_result order discrete_input values slice = record empty_result {
    is_ok = true;
    coil_values = mid values.coil_values slice.offset slice.length;
  }
  slice_result order type values slice =
      let read = mid values.register_values slice.offset slice.length in
      record empty_result {
        is_ok = true;
        register_values = elim (get_elem? device.registers slice.field_index) [
          | none ↦ []
          | some config ↦ apply_field_byte_order order read config
        ];
      }

  unfoldable pub fill_batch :
      ByteOrder → RegisterBatch → Result Values → List FieldResult → Result (List FieldResult)
  unfolding fill_slices slice_result
  fill_batch order batch (ok values) results =
      ok (fill_slices (slice_result order batch.type values) batch.slices results)
  fill_batch order batch (err e) results =
      ok (fill_slices (λ _. failed_with e) batch.slices results)
  fill_batch order batch fault results = fault
  fill_batch order batch stuck results = stuck

module _ {S D : Type 0} (dev : DeviceClient S) (device : DeviceInfo D) where
  unfoldable pub collect_batches :
      List RegisterBatch → List FieldResult → Io (Executor S) (List FieldResult)
  unfolding fill_batch
  collect_batches [] results x = (ok results, x)
  collect_batches (b ∷ bs) results x =
      let (r, x') = read_batch dev b.start_address b.total_length b.type x in
      let filled = fill_batch device x.default_byte_order b r results in
      elim filled [
        | ok results' ↦ collect_batches bs results' x'
        | err e ↦ (err e, x')
        | fault ↦ (fault, x')
        | stuck ↦ (stuck, x')
      ]

  unfoldable pub connected_collect :
      List RegisterBatch → Result (Unit {0}) × Executor S → Result (List FieldResult) × Executor S
  unfolding collect_batches
  connected_collect batches (ok _, x) =
      collect_batches batches (replicate (length device.registers) empty_result) x
  connected_collect batches (err e, x) =
      (ok (replicate (length device.registers) (failed_with e)), x)
  connected_collect batches (fault, x) = (fault, x)
  connected_collect batches (stuck, x) = (stuck, x)

  unfoldable pub collect_all_fields : List RegisterBatch → Io (Executor S) (List FieldResult)
  unfolding connected_collect ensure_connected
  collect_all_fields batches x = connected_collect batches (ensure_connected dev x)

-- `collectField`: one register, without a batch.
unfoldable pub collect_field :
    {S D : Type 0} → DeviceClient S → RegisterConfig D → Io (Executor S) Values
unfolding ensure_connected
collect_field dev config x = next (ensure_connected dev x) λ _ x'. read_field dev config x'
