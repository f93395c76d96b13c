-- ===== src/Json/Values.antt =====
-- Values of JSON. Of an object's fields a later one of the same name overrides an earlier one, as
-- JSON.parse reads them; a field that is undefined is left out, as JSON.stringify leaves it out.
use shatters.Common.{
  ℕ, Bool, true, false, Option, none, some, List, [], ◌∷◌, Text, text_eq, if◌then◌else◌, ltb,
}

-- A number by what the code asks of it: whether it is finite, an integer, positive. The number `n` of a
-- `negative n` is `- n - 1`; a `fraction` is no integer, with its sign and its literal; an `overflow`
-- is infinite. Integers are taken exactly, also where a double is not.
pub data Number : Type 0 where
  natural negative : ℕ → Number
  fraction : (positive : Bool) (literal : Text) → Number
  overflow : (positive : Bool) → Number

mutual
  pub data Json : Type 0 where
    null : Json
    boolean : Bool → Json
    number : Number → Json
    string : Text → Json
    array : Items → Json
    object : Fields → Json

  pub data Items : Type 0 where
    empty : Items
    item : Json → Items → Items

  pub data Fields : Type 0 where
    end : Fields
    field : Text → Json → Fields → Fields

abbrev later_or : Option Json → Option Json → Option Json
later_or none earlier = earlier
later_or (some j) earlier = some j

-- `object[name]`.
abbrev pub get_field : Text → Fields → Option Json
get_field name end = none
get_field name (field k v fields) =
    later_or (get_field name fields) (if text_eq k name then some v else none)

-- The same, of any value; only an object has fields of these names.
abbrev pub get : Text → Json → Option Json
get name (object fields) = get_field name fields
get name _ = none

abbrev pub strings : List Text → Items
strings [] = empty
strings (t ∷ ts) = item (string t) (strings ts)

abbrev pub is_string : Option Json → Bool
is_string (some (string t)) = true
is_string _ = false

abbrev pub is_nonempty_string : Option Json → Bool
is_nonempty_string (some (string (u ∷ us))) = true
is_nonempty_string _ = false

abbrev pub is_boolean : Option Json → Bool
is_boolean (some (boolean b)) = true
is_boolean _ = false

abbrev pub is_array : Option Json → Bool
is_array (some (array items)) = true
is_array _ = false

abbrev pub is_nonempty_array : Option Json → Bool
is_nonempty_array (some (array (item j items))) = true
is_nonempty_array _ = false

-- `Number.isFinite(value)`.
abbrev pub is_finite : Option Json → Bool
is_finite (some (number (overflow positive))) = false
is_finite (some (number n)) = true
is_finite _ = false

abbrev pub is_positive_number : Number → Bool
is_positive_number (natural n) = ltb 0 n
is_positive_number (negative n) = false
is_positive_number (fraction positive digits) = positive
is_positive_number (overflow positive) = positive

-- `Number.isFinite(value) && value > 0`.
abbrev pub is_finite_positive : Option Json → Bool
is_finite_positive (some (number (overflow positive))) = false
is_finite_positive (some (number n)) = is_positive_number n
is_finite_positive _ = false

-- `Number.isInteger(value) && value >= 0`, with the number.
abbrev pub natural_of : Option Json → Option ℕ
natural_of (some (number (natural n))) = some n
natural_of _ = none
