-- ===== src/Base/Json.antt =====
-- QJsonValue, QJsonObject and QJsonArray, as the program builds and reads them. A number is a double;
-- what turns an `int` into one, and one that is a whole `int` back, is a parameter, and so is the text.
-- An object gives the value of each key, `undefined` for a key that it lacks.
use Prim.Native.String.{String}
use mathlib.Core.Path.{◌≡◌, refl, ap}
use mathlib.Core.Bool.{Bool, true, false}
use mathlib.Core.Option.{Option, none, some}
use mathlib.Core.List.{List, [], ◌∷◌, map}
use package.text.Mathlib.Text.{◌==◌}
use swr.Base.Tests.{if◌then◌else◌}
use swr.Base.Int.{ℤ}

mutual
  pub data Json (D : Type 0) : Type 0 where
    undefined : Json D
    null : Json D
    bool : Bool → Json D
    number : D → Json D
    text : String → Json D
    array : Items D → Json D
    object : (String → Json D) → Json D

  pub data Items (D : Type 0) : Type 0 where
    nil : Items D
    cons : Json D → Items D → Items D

-- An `int` as a double, and a double that is a whole number in the range of `int` as that number.
pub record Numerals (D : Type 0) : Type 0 where
  pub of_int : ℤ → D
  pub as_int : D → Option ℤ

abbrev pub Object : Type 0 → Type 0
Object D = String → Json D

abbrev pub or_default {ℓ} : {A : Type ℓ} → Option A → A → A
or_default none default = default
or_default (some a) default = a

pub map-map_cancel :
    {A B : Type 0} (f : A → B) (g : B → A) (xs : List A)
    → ((x : A) → g (f x) ≡ x)
    → map g (map f xs) ≡ xs
map-map_cancel f g [] h = refl
map-map_cancel f g (x ∷ xs) h = simp (h x, map-map_cancel f g xs h)

module _ {D : Type 0} where
  abbrev pub empty_object : Object D
  empty_object key = undefined

  -- `o[key] = value`
  abbrev pub put : String → Json D → Object D → Object D
  put key value o k = if k == key then value else o k

  abbrev pub items_of : List (Json D) → Items D
  items_of [] = nil
  items_of (x ∷ xs) = cons x (items_of xs)

  abbrev pub elements : Items D → List (Json D)
  elements nil = []
  elements (cons x xs) = x ∷ elements xs

  abbrev pub to_object : Json D → Object D
  to_object (object o) = o
  to_object _ = empty_object

  abbrev pub to_array : Json D → List (Json D)
  to_array (array xs) = elements xs
  to_array _ = []

  abbrev pub to_string : Json D → String → String
  to_string (text s) default = s
  to_string _ default = default

  abbrev pub to_bool : Json D → Bool → Bool
  to_bool (bool b) default = b
  to_bool _ default = default

  abbrev pub to_double : Json D → D → D
  to_double (number x) default = x
  to_double _ default = default

  abbrev pub to_int : Numerals D → Json D → ℤ → ℤ
  to_int m (number x) default = or_default (m.as_int x) default
  to_int m _ default = default

  abbrev pub int : Numerals D → ℤ → Json D
  int m n = number (m.of_int n)

  abbrev pub is_double : Json D → Bool
  is_double (number x) = true
  is_double _ = false

  -- `QJsonDocument::isObject`
  abbrev pub is_object : Json D → Bool
  is_object (object o) = true
  is_object _ = false

  pub elements-items_of : (xs : List (Json D)) → elements (items_of xs) ≡ xs
  elements-items_of [] = refl
  elements-items_of (x ∷ xs) = ap (◌∷◌ x) (elements-items_of xs)
