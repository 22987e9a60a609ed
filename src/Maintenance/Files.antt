-- ===== src/Maintenance/Files.antt =====
-- What maintenance/ uses of Qt's strings and maps: bytes, names as their characters, and the files of an
-- archive as a QMap, which is kept in the order of its keys.
use Prim.Native.Char.{code}
use swr.Base.{
  ℕ, ◌↔◌, ◌≡◌, refl, arith, String, Bool, true, false, ◌&&◌, ◌||◌, Option, none, some, List, [],
  ◌∷◌, ◌==◌, ltb, leb, if◌then◌else◌, ==_iff,
}

abbrev pub Bytes : Type 0
Bytes = List ℕ

abbrev pub codes : String → Bytes
codes String.[] = []
codes (String.◌∷◌ c s) = code c ∷ codes s

-- `QByteArray::trimmed` takes the spaces of ASCII away at both ends, `QString::trimmed` two more.
abbrev pub is_space : ℕ → Bool
is_space c = (leb 9 c && leb c 13) || c == 32

abbrev pub is_wide_space : ℕ → Bool
is_wide_space c = is_space c || (c == 0x85 || c == 0xa0)

module _ (space : ℕ → Bool) where
  unfoldable pub trim_left : Bytes → Bytes
  trim_left [] = []
  trim_left (c ∷ cs) = let rest = trim_left cs in if space c then rest else c ∷ cs

  abbrev pub cons_kept : ℕ → Bytes → Bytes
  cons_kept c [] = if space c then [] else c ∷ []
  cons_kept c (d ∷ ds) = c ∷ (d ∷ ds)

  unfoldable pub trim_right : Bytes → Bytes
  trim_right [] = []
  trim_right (c ∷ cs) = cons_kept c (trim_right cs)

  unfoldable pub trimmed : Bytes → Bytes
  unfolding trim_left trim_right
  trimmed cs = trim_right (trim_left cs)

abbrev pub cons_head : ℕ → List Bytes → List Bytes
cons_head c [] = (c ∷ []) ∷ []
cons_head c (line ∷ lines) = (c ∷ line) ∷ lines

-- `split('\n')`
unfoldable pub split_lines : Bytes → List Bytes
split_lines [] = [] ∷ []
split_lines (c ∷ cs) = let rest = split_lines cs in if c == 10 then [] ∷ rest else cons_head c rest

abbrev pub cons_first : ℕ → Option (Bytes × Bytes) → Option (Bytes × Bytes)
cons_first c none = none
cons_first c (some (left, right)) = some (c ∷ left, right)

-- `indexOf("  ")`, with what is to its left and to its right.
unfoldable pub split_at_gap : Bytes → Option (Bytes × Bytes)
split_at_gap [] = none
split_at_gap (c ∷ []) = none
split_at_gap (c ∷ (d ∷ cs)) =
    let rest = split_at_gap (d ∷ cs) in
    if (c == 32) && (d == 32) then some ([], cs) else cons_first c rest

abbrev pub is_empty : Bytes → Bool
is_empty [] = true
is_empty (c ∷ cs) = false

unfoldable pub eq_bytes : Bytes → Bytes → Bool
eq_bytes [] [] = true
eq_bytes [] (d ∷ ds) = false
eq_bytes (c ∷ cs) [] = false
eq_bytes (c ∷ cs) (d ∷ ds) = (c == d) && eq_bytes cs ds

-- The order of the keys of a QMap.
unfoldable pub lt_bytes : Bytes → Bytes → Bool
lt_bytes cs [] = false
lt_bytes [] (d ∷ ds) = true
lt_bytes (c ∷ cs) (d ∷ ds) = ltb c d || ((c == d) && lt_bytes cs ds)

abbrev pub Files : Type 0
Files = List (Bytes × Bytes)

unfoldable pub lookup : Bytes → Files → Option Bytes
lookup name [] = none
lookup name ((n, content) ∷ files) = if eq_bytes n name then some content else lookup name files

-- `files[name] = content`
unfoldable pub insert : Bytes → Bytes → Files → Files
insert name content [] = (name, content) ∷ []
insert name content ((n, c) ∷ files) =
    let rest = insert name content files in
    if lt_bytes name n
    then (name, content) ∷ ((n, c) ∷ files)
    else if eq_bytes n name
    then (name, content) ∷ files
    else (n, c) ∷ rest

unfoldable pub contains : Bytes → Files → Bool
unfolding lookup
contains name files = elim (lookup name files) [ none ↦ false | some content ↦ true ]

pub eq_bytes_iff : (a b : Bytes) → (eq_bytes a b ≡ true) ↔ (a ≡ b)
unfolding eq_bytes
eq_bytes_iff [] [] = (λ h. refl, λ h. refl)
eq_bytes_iff [] (d ∷ ds) = (λ h. cc, λ h. cc)
eq_bytes_iff (c ∷ cs) [] = (λ h. cc, λ h. cc)
eq_bytes_iff (c ∷ cs) (d ∷ ds) = ground (arith, ==_iff c d, eq_bytes_iff cs ds)

pub eq_bytes_self : (a : Bytes) → eq_bytes a a ≡ true
eq_bytes_self a = (eq_bytes_iff a a).1 refl

pub lookup-insert :
    (k j v : Bytes) (files : Files)
    → lookup j (insert k v files) ≡ (if eq_bytes k j then some v else lookup j files)
unfolding lookup insert
lookup-insert k j v [] = refl
lookup-insert k j v ((i, w) ∷ files) =
    ground (arith, eq_bytes_iff k j, eq_bytes_iff i k, eq_bytes_iff i j, lookup-insert k j v files)
