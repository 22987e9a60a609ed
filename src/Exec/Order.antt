-- ===== src/Exec/Order.antt =====
-- The order of the words: what `writeField` sends and `readField` gets back.
use mathlib.Core.List.{reverse, reverse-reverse, reverse-cons}
use swr.Base.{ℕ, ◌≡◌, refl, ap, ◌∙◌, arith, List, [], ◌∷◌, false, some, length, length-append}
use swr.Model.{ByteOrder, big_endian, holding_register, RegisterConfig}
use swr.Comm.Io.{ok}
use swr.Comm.Client.{DeviceClient}
use swr.Exec.{words, apply_byte_order, effective_byte_order, read_field, write_field}

length-reverse : (xs : List ℕ) → length (reverse xs) ≡ length xs
length-reverse [] = refl
length-reverse (x ∷ xs) =
    ap length (reverse-cons x xs)
    ∙ omega (arith, length-append (reverse xs) (x ∷ []), length-reverse xs)

pub length-apply_byte_order :
    (ws : List ℕ) (o : ByteOrder) → length (apply_byte_order ws o) ≡ length ws
unfolding apply_byte_order
length-apply_byte_order ws big_endian = refl
length-apply_byte_order ws o = ground (arith, length-reverse ws)

-- The order of the words is its own inverse.
pub apply_byte_order_twice :
    (ws : List ℕ) (o : ByteOrder) → apply_byte_order (apply_byte_order ws o) o ≡ ws
unfolding apply_byte_order
apply_byte_order_twice ws big_endian = refl
apply_byte_order_twice ws o = ground (arith, length-reverse ws, reverse-reverse ws)

-- For a holding register that is not read-only and as long as `ws`: if the device took the words
-- that `writeField` sends for `ws`, and answers a read of that address and length with what it
-- took, then `readField` returns `ws`, for every word order.
pub read_field-write_field :
    {S D : Type 0} (dev : DeviceClient S) (config : RegisterConfig D) (ws : List ℕ) (o : ByteOrder)
    (s s' s'' : S)
    → config.type ≡ holding_register
    → config.read_only ≡ false
    → length ws ≡ config.length
    → dev.write_words config.local_address (apply_byte_order ws (effective_byte_order o config)) s
      ≡ (ok tt, s')
    → dev.read_words config.local_address config.length s'
      ≡ (ok (apply_byte_order ws (effective_byte_order o config)), s'')
    → read_field dev config
        (write_field dev config ws [] (record { client = some s; default_byte_order = o })).1
      ≡ (ok (words ws), record { client = some s''; default_byte_order = o })
unfolding read_field write_field
read_field-write_field dev config ws o s s' s'' t r n sent got =
    ground (arith, apply_byte_order_twice ws (effective_byte_order o config))
