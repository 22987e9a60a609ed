-- ===== src/Comm/Bytes/Coils.antt =====
-- Coils in packed bytes: what is packed is read back bit by bit, and no read leaves the buffer.
use swr.Base.{
  ℕ, zero, suc, ◌+◌, ◌*◌, ◌/◌, ◌%◌, ◌^◌, ◌≤◌, ◌<◌, ◌≡◌, refl, ap, ◌∙◌, arith, Bool, true, false,
  List, [], ◌∷◌, ◌++◌, some, drop, get_elem?-drop, get_elem?-append_left, get_elem?-get_or,
  get_or-replicate, All-replicate, ◌≢◌, ◌==◌, if◌then◌else◌, length, get_or, get_elem?, replicate,
  length-replicate, get_elem?-lt, All,
}
use mathlib.Core.Path.{ap₂}
use swr.Comm.Io.{ok}
use swr.Comm.Bytes.SetBit.{bit, bit-set_bit, set_bit_bytes, set_bit_length}
use swr.Comm.Bytes.{IsByte, read_bit_list, set_bit, pack_loop, pack_coils}

read_bit_list_step :
    (bytes : List ℕ) (offset i n v : ℕ) (bs : List Bool)
    → get_elem? bytes (offset + i / 8) ≡ some v
    → read_bit_list bytes offset (i + 1) n ≡ ok bs
    → read_bit_list bytes offset i (suc n) ≡ ok ((v / 2 ^ (i % 8) % 2 == 1) ∷ bs)
unfolding read_bit_list
read_bit_list_step bytes offset i n v bs ev er = ground arith

-- A read of `n` coils needs `(n + 7) / 8` bytes behind the offset, and then it returns `n` coils.
read_bits_from :
    (bytes : List ℕ) (offset i n : ℕ)
    → offset + (i + n + 7) / 8 ≤ length bytes
    → (bs : List Bool) × (read_bit_list bytes offset i n ≡ ok bs) × (length bs ≡ n)
unfolding read_bit_list
read_bits_from bytes offset i zero h = ([], refl, refl)
read_bits_from bytes offset i (suc n) h =
    let (v, ev) = get_elem?-lt bytes (offset + i / 8) (omega arith) in
    let (bs, er, e) = read_bits_from bytes offset (i + 1) n (omega arith) in
    ((v / 2 ^ (i % 8) % 2 == 1) ∷ bs, read_bit_list_step bytes offset i n v bs ev er, ap suc e)

pub read_bit_list_total :
    (bytes : List ℕ) (offset n : ℕ)
    → offset + (n + 7) / 8 ≤ length bytes
    → (bs : List Bool) × (read_bit_list bytes offset 0 n ≡ ok bs) × (length bs ≡ n)
read_bit_list_total bytes offset n h = read_bits_from bytes offset 0 n (omega arith)

-- One round of the packing loop.
abbrev put : Bool → ℕ → List ℕ → List ℕ
put v i packed = if v then set_bit packed i else packed

put_bytes : (v : Bool) (i : ℕ) (packed : List ℕ) → All IsByte packed → All IsByte (put v i packed)
put_bytes true i packed h = set_bit_bytes packed i h
put_bytes false i packed h = h

put_length : (v : Bool) (i : ℕ) (packed : List ℕ) → length (put v i packed) ≡ length packed
put_length true i packed = set_bit_length packed i
put_length false i packed = refl

bit-put :
    (v : Bool) (i k : ℕ) (packed : List ℕ)
    → All IsByte packed
    → i / 8 < length packed
    → i ≢ k
    → bit (put v i packed) k ≡ bit packed k
bit-put true i k packed h lt ne = ground (arith, bit-set_bit packed i k h lt)
bit-put false i k packed h lt ne = refl

put_own :
    (v : Bool) (i : ℕ) (packed : List ℕ)
    → All IsByte packed
    → i / 8 < length packed
    → bit packed i ≡ 0
    → bit (put v i packed) i ≡ (if v then 1 else 0)
put_own true i packed h lt z = ground (arith, bit-set_bit packed i i h lt)
put_own false i packed h lt z = z

pack_loop_length :
    (vs : List Bool) (i : ℕ) (packed : List ℕ) → length (pack_loop vs i packed) ≡ length packed
unfolding pack_loop
pack_loop_length [] i packed = refl
pack_loop_length (v ∷ vs) i packed =
    pack_loop_length vs (i + 1) (put v i packed) ∙ put_length v i packed

pack_loop_bytes :
    (vs : List Bool) (i : ℕ) (packed : List ℕ)
    → All IsByte packed
    → All IsByte (pack_loop vs i packed)
unfolding pack_loop
pack_loop_bytes [] i packed h = h
pack_loop_bytes (v ∷ vs) i packed h = pack_loop_bytes vs (i + 1) _ (put_bytes v i packed h)

-- The loop from `i` on leaves the bits below `i` alone.
pack_loop_below :
    (vs : List Bool) (i k : ℕ) (packed : List ℕ)
    → All IsByte packed
    → i + length vs ≤ length packed * 8
    → k < i
    → bit (pack_loop vs i packed) k ≡ bit packed k
unfolding pack_loop
pack_loop_below [] i k packed h fits lt = refl
pack_loop_below (v ∷ vs) i k packed h fits lt =
    pack_loop_below vs (i + 1) k (put v i packed) (put_bytes v i packed h)
      (omega (arith, put_length v i packed)) (omega arith)
    ∙ bit-put v i k packed h (omega arith) (omega arith)

bits : List ℕ → ℕ → ℕ → List Bool
bits packed i zero = []
bits packed i (suc n) = (bit packed i == 1) ∷ bits packed (i + 1) n

bits-pack_loop :
    (vs : List Bool) (i : ℕ) (packed : List ℕ)
    → All IsByte packed
    → i + length vs ≤ length packed * 8
    → ((k : ℕ) → i ≤ k → bit packed k ≡ 0)
    → bits (pack_loop vs i packed) i (length vs) ≡ vs
unfolding pack_loop bits
bits-pack_loop [] i packed h fits z = refl
bits-pack_loop (v ∷ vs) i packed h fits z = ap₂ ◌∷◌ (head v own) (
    bits-pack_loop vs (i + 1) (put v i packed) (put_bytes v i packed h)
      (omega (arith, put_length v i packed))
      (λ k le. bit-put v i k packed h (omega arith) (omega arith) ∙ z k (omega arith)))
  where
    own : bit (pack_loop vs (i + 1) (put v i packed)) i ≡ (if v then 1 else 0)
    own =
        pack_loop_below vs (i + 1) i (put v i packed) (put_bytes v i packed h)
          (omega (arith, put_length v i packed)) (omega arith)
        ∙ put_own v i packed h (omega arith) (z i (omega arith))

    head : (v : Bool) {n : ℕ} → n ≡ (if v then 1 else 0) → (n == 1) ≡ v
    head true e = ground arith
    head false e = ground arith

read_bits-bits :
    (bytes packed post : List ℕ) (offset i n : ℕ)
    → drop offset bytes ≡ packed ++ post
    → i + n ≤ length packed * 8
    → read_bit_list bytes offset i n ≡ ok (bits packed i n)
unfolding read_bit_list bits
read_bits-bits bytes packed post offset i zero e h = refl
read_bits-bits bytes packed post offset i (suc n) e h =
    read_bit_list_step bytes offset i n (get_or packed (i / 8) 0) (bits packed (i + 1) n)
      (get_elem?-drop bytes offset (i / 8)
        ∙ ap (λ l. get_elem? l (i / 8)) e
        ∙ get_elem?-append_left packed post (i / 8) (omega arith)
        ∙ get_elem?-get_or packed (i / 8) 0 (omega arith))
      (read_bits-bits bytes packed post offset (i + 1) n e (omega arith))

pub length-pack_coils : (vs : List Bool) → length (pack_coils vs) ≡ (length vs + 7) / 8
unfolding pack_coils
length-pack_coils vs = pack_loop_length vs 0 _ ∙ length-replicate _ 0

pub pack_coils-IsByte : (vs : List Bool) → All IsByte (pack_coils vs)
unfolding pack_coils
pack_coils-IsByte vs = pack_loop_bytes vs 0 _ (All-replicate IsByte _ 0 (omega arith))

-- From a reply that holds packed coils behind an offset, exactly these coils are read back.
pub read_bit_list-pack_coils :
    (vs : List Bool) (bytes post : List ℕ) (offset : ℕ)
    → drop offset bytes ≡ pack_coils vs ++ post
    → read_bit_list bytes offset 0 (length vs) ≡ ok vs
read_bit_list-pack_coils vs bytes post offset e =
    read_bits-bits bytes (pack_coils vs) post offset 0 (length vs) e
      (omega (arith, length-pack_coils vs))
    ∙ ap ok (packed_bits vs)
  where
    packed_bits : (vs : List Bool) → bits (pack_coils vs) 0 (length vs) ≡ vs
    packed_bits vs =
        unfold pack_coils in
        bits-pack_loop vs 0 (replicate ((length vs + 7) / 8) 0)
          (All-replicate IsByte _ 0 (omega arith))
          (omega (arith, length-replicate {A = ℕ} ((length vs + 7) / 8) 0))
          (λ k _. ground (arith, get_or-replicate {A = ℕ} ((length vs + 7) / 8) (k / 8) 0))
