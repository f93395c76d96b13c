-- ===== src/Json/Print.antt =====
-- `JSON.stringify(value)`.
use shatters.Common.{
  ℕ, suc, ◌+◌, ◌/◌, ◌%◌, true, false, ◌||◌, Option, none, some, [], ◌∷◌, ◌++◌, Text, ltb, ◌==◌,
  if◌then◌else◌, decimal, ascii, is_high, is_low,
}
use shatters.Json.Values.{
  Number, natural, negative, fraction, overflow, Json, null, boolean, number, string, array, object,
  Items, empty, item, Fields, end, field,
}

abbrev pub hex_digit : ℕ → ℕ
hex_digit d = if ltb d 10 then 48 + d else 87 + d

-- `\\uXXXX`.
abbrev pub unicode_escape : ℕ → Text
unicode_escape u =
    92
    ∷ 117
    ∷ hex_digit (u / 4096)
    ∷ hex_digit (u / 256 % 16)
    ∷ hex_digit (u / 16 % 16)
    ∷ hex_digit (u % 16)
    ∷ []

-- The letter of an escape of two characters.
abbrev pub short_escape : ℕ → Option ℕ
short_escape u =
    if u == 8
    then some 98
    else if u == 9
    then some 116
    else if u == 10
    then some 110
    else if u == 12
    then some 102
    else if u == 13
    then some 114
    else if u == 34
    then some 34
    else if u == 92
    then some 92
    else none

abbrev pub escape_or : ℕ → Option ℕ → Text
escape_or u (some letter) = 92 ∷ letter ∷ []
escape_or u none = if ltb u 32 || is_low u then unicode_escape u else u ∷ []

-- A code unit that starts no surrogate pair.
abbrev pub quote_alone : ℕ → Text
quote_alone u = escape_or u (short_escape u)

abbrev pub waiting_for : ℕ → Option ℕ
waiting_for u = if is_high u then some u else none

abbrev quote_first : ℕ → Text
quote_first u = if is_high u then [] else quote_alone u

abbrev quote_next : Option ℕ → ℕ → Text
quote_next none u = quote_first u
quote_next (some h) u = if is_low u then h ∷ u ∷ [] else unicode_escape h ++ quote_first u

-- From a high surrogate that waits for its partner on.
abbrev pub quote_from : Option ℕ → Text → Text
quote_from none [] = []
quote_from (some h) [] = unicode_escape h
quote_from waiting (u ∷ us) = quote_next waiting u ++ quote_from (waiting_for u) us

abbrev pub quote : Text → Text
quote t = 34 ∷ quote_from none t ++ 34 ∷ []

abbrev pub print_number : Number → Text
print_number (natural n) = decimal n
print_number (negative n) = 45 ∷ decimal (suc n)
print_number (fraction positive literal) = literal
print_number (overflow positive) = ascii "null"

unfoldable mutual
  pub print_value : Json → Text
  print_value null = ascii "null"
  print_value (boolean true) = ascii "true"
  print_value (boolean false) = ascii "false"
  print_value (number n) = print_number n
  print_value (string t) = quote t
  print_value (array empty) = 91 ∷ 93 ∷ []
  print_value (array (item j items)) = 91 ∷ print_value j ++ print_items items
  print_value (object end) = 123 ∷ 125 ∷ []
  print_value (object (field k j fields)) =
      123 ∷ quote k ++ (58 ∷ print_value j ++ print_fields fields)

  pub print_items : Items → Text
  print_items empty = 93 ∷ []
  print_items (item j items) = 44 ∷ print_value j ++ print_items items

  pub print_fields : Fields → Text
  print_fields end = 125 ∷ []
  print_fields (field k j fields) = 44 ∷ quote k ++ (58 ∷ print_value j ++ print_fields fields)

unfoldable pub stringify : Json → Text
unfolding print_value
stringify j = print_value j
