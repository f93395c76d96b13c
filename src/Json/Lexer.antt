-- ===== src/Json/Lexer.antt =====
-- The tokens of `JSON.parse`: white space, strings and numbers.
use shatters.Common.{
  ℕ, zero, suc, ◌+◌, ◌-◌, ◌*◌, ◌/◌, ◌%◌, ◌^◌, Bool, true, false, not, ◌&&◌, ◌||◌, Option, none,
  some, [], ◌∷◌, ◌++◌, Text, length, take, ltb, leb, ◌==◌, if◌then◌else◌, value_from,
}
use shatters.Json.Values.{Number, natural, negative, fraction, overflow}

abbrev pub is_white : ℕ → Bool
is_white c = c == 32 || c == 9 || c == 10 || c == 13

abbrev pub skip_white : Text → Text
skip_white [] = []
skip_white (c ∷ rest) = let skipped = skip_white rest in if is_white c then skipped else c ∷ rest

abbrev pub hex_value : ℕ → Option ℕ
hex_value c =
    if leb 48 c && leb c 57
    then some (c - 48)
    else if leb 97 c && leb c 102
    then some (c - 87)
    else if leb 65 c && leb c 70
    then some (c - 55)
    else none

-- Within a string: as it is, behind a backslash, and with hexadecimal digits to come.
pub data Lexing : Type 0 where
  plain escaped : Lexing
  hex : (left value : ℕ) → Lexing

pub data LexStep : Type 0 where
  close refuse : LexStep
  go_on : Text → Lexing → LexStep

abbrev pub plain_step : ℕ → LexStep
plain_step c =
    if c == 34
    then close
    else if c == 92
    then go_on [] escaped
    else if ltb c 32
    then refuse
    else go_on (c ∷ []) plain

abbrev pub escaped_step : ℕ → LexStep
escaped_step c =
    if c == 117
    then go_on [] (hex 3 0)
    else if c == 34 || c == 92 || c == 47
    then go_on (c ∷ []) plain
    else if c == 98
    then go_on (8 ∷ []) plain
    else if c == 102
    then go_on (12 ∷ []) plain
    else if c == 110
    then go_on (10 ∷ []) plain
    else if c == 114
    then go_on (13 ∷ []) plain
    else if c == 116
    then go_on (9 ∷ []) plain
    else refuse

abbrev pub hex_step : ℕ → ℕ → Option ℕ → LexStep
hex_step left value none = refuse
hex_step zero value (some d) = go_on ((value * 16 + d) ∷ []) plain
hex_step (suc left) value (some d) = go_on [] (hex left (value * 16 + d))

abbrev pub lex_step : Lexing → ℕ → LexStep
lex_step plain c = plain_step c
lex_step escaped c = escaped_step c
lex_step (hex left value) c = hex_step left value (hex_value c)

abbrev pub prepend : Text → Option (Text × Text) → Option (Text × Text)
prepend out none = none
prepend out (some (t, rest)) = some (out ++ t, rest)

-- A string behind its opening quote, and what follows its closing one.
abbrev pub lex_string : Lexing → Text → Option (Text × Text)
lex_string s [] = none
lex_string s (c ∷ rest) = elim (lex_step s c) [
  | close ↦ some ([], rest)
  | refuse ↦ none
  | go_on out s' ↦ prepend out (lex_string s' rest)
]

abbrev pub is_digit : ℕ → Bool
is_digit c = leb 48 c && leb c 57

-- The digits in front, and what follows them.
abbrev pub span_digits : Text → Text × Text
span_digits [] = ([], [])
span_digits (c ∷ rest) =
    let (ds, more) = span_digits rest in if is_digit c then (c ∷ ds, more) else ([], c ∷ rest)

-- An exponent, or a fraction's digits: absent, or malformed.
pub data Part : Type 0 where
  absent : Text → Part
  malformed : Part
  present : (digits rest : Text) → Part

abbrev digits_part : Text × Text → Part
digits_part ([], rest) = malformed
digits_part (d ∷ ds, rest) = present (d ∷ ds) rest

abbrev pub lex_fraction : Text → Part
lex_fraction [] = absent []
lex_fraction (c ∷ rest) =
    let digits = span_digits rest in if c == 46 then digits_part digits else absent (c ∷ rest)

-- What stands behind an `e`: whether the sign is a minus, and the digits.
abbrev lex_sign : Text → Bool × Text
lex_sign [] = (false, [])
lex_sign (c ∷ rest) =
    if c == 45 then (true, rest) else if c == 43 then (false, rest) else (false, c ∷ rest)

abbrev signed_part : Bool × Text → Bool × Part
signed_part (minus, rest) = (minus, digits_part (span_digits rest))

abbrev pub lex_exponent : Text → Bool × Part
lex_exponent [] = (false, absent [])
lex_exponent (c ∷ rest) =
    let part = signed_part (lex_sign rest) in
    if c == 101 || c == 69 then part else (false, absent (c ∷ rest))

-- The least integer that a double does not hold, which rounds to Infinity.
unfoldable pub overflow_limit : ℕ
overflow_limit = 2 ^ 1024 - 2 ^ 970

abbrev integer : Bool → ℕ → Number
integer minus zero = natural 0
integer minus (suc n) =
    if ltb (suc n) overflow_limit
    then (if minus then negative n else natural (suc n))
    else overflow (not minus)

-- Decimals are taken exactly. The number of a literal, by its digits and the power of ten that they are times, `up` over `down`.
abbrev pub number_of : (minus : Bool) (digits up down : ℕ) (literal : Text) → Number
number_of minus digits up down literal =
    if digits * 10 ^ up % 10 ^ down == 0
    then integer minus (digits * 10 ^ up / 10 ^ down)
    else if ltb (digits * 10 ^ up / 10 ^ down) overflow_limit
    then fraction (not minus) literal
    else overflow (not minus)

-- The literal in front of the rest.
abbrev taken : Text → Text → Text
taken ts rest = take (length ts - length rest) ts

abbrev pub is_leading_zero : Text → Bool
is_leading_zero [] = false
is_leading_zero (d ∷ []) = false
is_leading_zero (d ∷ _ ∷ _) = d == 48

abbrev with_exponent : Bool → Text → Text → Text → Bool × Part → Option (Number × Text)
with_exponent minus int frac ts (_, malformed) = none
with_exponent minus int frac ts (_, absent rest) =
    some (number_of minus (value_from 0 (int ++ frac)) 0 (length frac) (taken ts rest), rest)
with_exponent minus int frac ts (down, present ds rest) =
    let power = value_from 0 ds in
    some (
      number_of minus (value_from 0 (int ++ frac)) (if down then 0 else power)
          (length frac + (if down then power else 0)) (taken ts rest),
      rest,
    )

abbrev with_fraction : Bool → Text → Text → Part → Option (Number × Text)
with_fraction minus int ts malformed = none
with_fraction minus int ts (absent rest) = with_exponent minus int [] ts (lex_exponent rest)
with_fraction minus int ts (present frac rest) = with_exponent minus int frac ts (lex_exponent rest)

abbrev pub with_integer : Bool → Text → Text × Text → Option (Number × Text)
with_integer minus ts ([], rest) = none
with_integer minus ts (d ∷ ds, rest) =
    let more = with_fraction minus (d ∷ ds) ts (lex_fraction rest) in
    if is_leading_zero (d ∷ ds) then none else more

-- A number, and what follows it.
abbrev pub lex_number : Text → Option (Number × Text)
lex_number [] = none
lex_number (c ∷ rest) =
    let unsigned = with_integer false (c ∷ rest) (span_digits (c ∷ rest)) in
    let signed = with_integer true (c ∷ rest) (span_digits rest) in
    if c == 45 then signed else unsigned
