-- ===== src/Comm/Bytes/Words.antt =====
-- Words in two bytes: what is written is read back, and no read leaves the buffer.
use swr.Base.{
  ℕ, zero, suc, ◌+◌, ◌*◌, ◌≤◌, bit_or, ◌≡◌, refl, ap, ◌∙◌, arith, List, [], ◌∷◌, ◌++◌, some, length,
  get_elem?, get_elem?-lt, drop, get_elem?-drop, drop-drop, All,
}
use swr.Base.Or.{bit_or_disjoint}
use swr.Comm.Io.{ok}
use swr.Comm.Bytes.{IsByte, IsWord, hi_byte, lo_byte, word_bytes, read_word_list}

pub length-word_bytes : (vs : List ℕ) → length (word_bytes vs) ≡ length vs * 2
unfolding word_bytes
length-word_bytes [] = refl
length-word_bytes (v ∷ vs) = omega (arith, length-word_bytes vs)

read_word_list_step :
    (bytes : List ℕ) (offset n hi lo : ℕ) (ws : List ℕ)
    → get_elem? bytes offset ≡ some hi
    → get_elem? bytes (offset + 1) ≡ some lo
    → read_word_list bytes (offset + 2) n ≡ ok ws
    → read_word_list bytes offset (suc n) ≡ ok (bit_or (hi * 256) lo ∷ ws)
unfolding read_word_list
read_word_list_step bytes offset n hi lo ws eh el er = ground arith

-- A read of `n` words needs `2 * n` bytes behind the offset, and then it returns `n` words.
pub read_word_list_total :
    (bytes : List ℕ) (offset n : ℕ)
    → offset + n * 2 ≤ length bytes
    → (ws : List ℕ) × (read_word_list bytes offset n ≡ ok ws) × (length ws ≡ n)
unfolding read_word_list
read_word_list_total bytes offset zero h = ([], refl, refl)
read_word_list_total bytes offset (suc n) h =
    let (hi, eh) = get_elem?-lt bytes offset (omega arith) in
    let (lo, el) = get_elem?-lt bytes (offset + 1) (omega arith) in
    let (ws, er, e) = read_word_list_total bytes (offset + 2) n (omega arith) in
    (bit_or (hi * 256) lo ∷ ws, read_word_list_step bytes offset n hi lo ws eh el er, ap suc e)

plus_nothing : (o : ℕ) → o ≡ o + 0
plus_nothing o = omega arith

pub join_bytes : (v : ℕ) → IsWord v → bit_or (hi_byte v * 256) (lo_byte v) ≡ v
join_bytes v h = omega (arith, bit_or_disjoint 8 (hi_byte v) (lo_byte v) (omega arith))

-- The words that were written behind the offset are read back.
pub read_word_list-word_bytes :
    (ws bytes post : List ℕ) (offset : ℕ)
    → All IsWord ws
    → drop offset bytes ≡ word_bytes ws ++ post
    → read_word_list bytes offset (length ws) ≡ ok ws
unfolding read_word_list word_bytes
read_word_list-word_bytes [] bytes post offset h e = refl
read_word_list-word_bytes (w ∷ ws) bytes post offset (hw, hs) e =
    read_word_list_step bytes offset (length ws) (hi_byte w) (lo_byte w) ws first second
      (read_word_list-word_bytes ws bytes post (offset + 2) hs rest)
    ∙ ap (λ v. ok (v ∷ ws)) (join_bytes w hw)
  where
    first : get_elem? bytes offset ≡ some (hi_byte w)
    first =
        ap (get_elem? bytes) (plus_nothing offset)
        ∙ get_elem?-drop bytes offset 0
        ∙ ap (λ l. get_elem? l 0) e

    second : get_elem? bytes (offset + 1) ≡ some (lo_byte w)
    second = get_elem?-drop bytes offset 1 ∙ ap (λ l. get_elem? l 1) e

    rest : drop (offset + 2) bytes ≡ word_bytes ws ++ post
    rest = drop-drop bytes offset 2 (offset + 2) refl ∙ ap (drop 2) e

pub word_bytes-IsByte : (ws : List ℕ) → All IsByte (word_bytes ws)
unfolding word_bytes
word_bytes-IsByte [] = tt
word_bytes-IsByte (w ∷ ws) = (omega arith, (omega arith, word_bytes-IsByte ws))
