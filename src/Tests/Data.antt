-- ===== src/Tests/Data.antt =====
-- Shared test data: a device, its registers, a bus that plays a script, a device with a memory.
use swr.Base.{
  ℕ, ◌+◌, ◌*◌, ◌%◌, ◌≡◌, refl, arith, Bool, true, false, ◌&&◌, &&-eq-true, ◌==◌, ltb, ltb→lt, leb,
  ◌≤◌, if◌then◌else◌, none, List, [], ◌∷◌, length, All,
}
use swr.Base.Int.{ℤ, pos, negsuc}
use swr.Model.{
  RegisterConfig, RegisterType, coil, holding_register, DeviceConnection, DeviceInfo, Doubles,
  big_endian, little_endian, serial, modbus_rtu, Status, unknown_state, auto,
}
use swr.Comm.Io.{ok, err, response_timeout, no_error_text}
use swr.Comm.Bytes.{IsByte}
use swr.Comm.Serial.{SerialBus, Session}
use swr.Comm.Client.{DeviceClient}
use swr.Collector.Coverage.{count}
use swr.Collector.{build_batches}
use swr.Collector.Poll.{AnswersRegister, AnswersBatch}
use swr.Collector.Transparent.{Memory}
use swr.Collector.Transparent.Slices.{cells}

-- Natural numbers in place of doubles.
abbrev pub whole : Doubles ℕ
whole = record {
  lt = ltb;
  mul = λ a b. a * b;
  of_ℤ = λ z. elim z [ pos n ↦ n | negsuc n ↦ 0 ];
  zero = 0;
  one = 1;
  lowest = 0;
  max = 1000000;
}

pub whole_irreflexive : (x : ℕ) → ltb x x ≡ false
whole_irreflexive x = ground arith

-- A register with the defaults of the program's struct elsewhere.
abbrev pub register : ℤ → RegisterType → ℕ → ℕ → RegisterConfig ℕ
register unified type address n = record {
  id = unified;
  device_id = pos 1;
  tag_name = "tag";
  display_name = "";
  local_address = address;
  unified_address = unified;
  type = type;
  read_only = false;
  length = n;
  unit = "";
  scale = 1;
  is_signed = false;
  bit_labels = "";
  min_value = 10;
  max_value = 100;
  byte_order = little_endian;
}

abbrev pub temperature : RegisterConfig ℕ
temperature = register (pos 5) holding_register 12 2

abbrev pub pump : RegisterConfig ℕ
pump = register (pos 6) coil 3 1

abbrev pub level : RegisterConfig ℕ
level = register (pos 7) holding_register 10 2

abbrev pub connection : DeviceConnection
connection = record {
  type = serial;
  protocol = modbus_rtu;
  default_byte_order = big_endian;
  ip_address = "";
  tcp_port = 502;
  slave_id = 1;
  timeout_ms = 0;
}

abbrev pub all_bytes : List ℕ → Bool
all_bytes [] = true
all_bytes (x ∷ xs) = ltb x 256 && all_bytes xs

pub all_bytes_lem : (xs : List ℕ) → all_bytes xs ≡ true → All IsByte xs
all_bytes_lem [] h = tt
all_bytes_lem (x ∷ xs) h =
    let (own, rest) = &&-eq-true (ltb x 256) (all_bytes xs) h in
    (ltb→lt x 256 own, all_bytes_lem xs rest)

abbrev pub status : Status
status = record {
  state = unknown_state;
  last_poll_timestamp = 0;
  last_poll_duration_ms = pos 0;
  effective_interval_ms = pos 0;
  consecutive_errors = 0;
  last_error = "";
}

abbrev pub station : DeviceInfo ℕ
station = record {
  id = pos 1;
  device_code = "S1";
  name = "";
  display_name = "";
  connection = connection;
  registers = temperature ∷ (pump ∷ (level ∷ []));
  polling = record { poll_mode = auto; interval_ms = 1000; retry_count = 3 };
  enabled = true;
  status = status;
}

abbrev has_more : List (List ℕ) → Bool
has_more [] = false
has_more (c ∷ cs) = true

-- A bus that takes every request and plays the chunks of a script.
abbrev pub bus : SerialBus (List (List ℕ))
bus = record {
  is_open = λ b. true;
  clear_buffers = λ b. b;
  write = λ request b. (pos (length request), b);
  wait_for_bytes_written = λ ms b. (true, b);
  wait_for_ready_read = λ ms b. (has_more b, b);
  read_all = λ b. elim b [ [] ↦ ([], []) | ◌∷◌ c cs ↦ (c, cs) ];
  error_string = λ b. "";
}

abbrev pub session : List (List ℕ) → Session (List (List ℕ))
session chunks = record { bus = chunks; last_error = none }

-- A device that answers from a memory of 100 words and coils and counts the calls.
abbrev pub word_at : ℕ → ℕ
word_at a = a * 3

abbrev pub bit_at : ℕ → Bool
bit_at a = a % 2 == 1

abbrev pub memory : DeviceClient ℕ
memory = record {
  connect = λ s. (true, s);
  is_connected = λ s. true;
  read_words =
      λ a n s. (if leb (a + n) 100 then ok (cells word_at a n) else err response_timeout, s + 1);
  read_bits =
      λ a n s. (if leb (a + n) 100 then ok (cells bit_at a n) else err response_timeout, s + 1);
  write_words = λ a ws s. (ok tt, s + 1);
  write_bits = λ a bs s. (ok tt, s + 1);
  error_string = λ s. no_error_text;
}

abbrev pub Held : ℕ → ℕ → Type 0
Held a n = a + n ≤ 100

Held-leb : (a n : ℕ) → Held a n → leb (a + n) 100 ≡ true
Held-leb a n h = ground (arith, h)

pub memory-Memory : Memory memory (λ _. Unit {0}) word_at bit_at Held Held
memory-Memory = record {
  connected = λ s p. refl;
  words_read = λ s a n h p. (s + 1, rw (Held-leb a n h) refl, tt);
  bits_read = λ s a n h p. (s + 1, rw (Held-leb a n h) refl, tt);
}

-- An insertion sort.
abbrev pub insert_by : (ℕ → ℕ → Bool) → ℕ → List ℕ → List ℕ
insert_by before x [] = x ∷ []
insert_by before x (y ∷ ys) =
    let rest = insert_by before x ys in if before y x then y ∷ rest else x ∷ (y ∷ ys)

abbrev pub sort_by : (ℕ → ℕ → Bool) → List ℕ → List ℕ
sort_by before [] = []
sort_by before (x ∷ xs) = insert_by before x (sort_by before xs)

count-insert_by :
    (before : ℕ → ℕ → Bool) (x j : ℕ) (ys : List ℕ)
    → count j (insert_by before x ys) ≡ count j (x ∷ ys)
count-insert_by before x j [] = refl
count-insert_by before x j (y ∷ ys) = ground (arith, count-insert_by before x j ys)

pub count-sort_by :
    (before : ℕ → ℕ → Bool) (xs : List ℕ) (j : ℕ) → count j (sort_by before xs) ≡ count j xs
count-sort_by before [] j = refl
count-sort_by before (x ∷ xs) j =
    ground (arith, count-insert_by before x j (sort_by before xs), count-sort_by before xs j)

pub station_registers :
    All
      (AnswersRegister memory station
        (λ _. Unit {0})
        word_at
        bit_at
        Held
        Held
        memory-Memory
        big_endian)
      station.registers
station_registers = (omega arith, (omega arith, (omega arith, tt)))

pub station_batches :
    All
      (AnswersBatch memory station
        (λ _. Unit {0})
        word_at
        bit_at
        Held
        Held
        memory-Memory
        big_endian)
      (build_batches station.registers sort_by)
unfolding build_batches
station_batches = (omega arith, (omega arith, tt))
