-- ===== src/Json/Forms.antt =====
-- The values that JSON.stringify prints without loss, and how the text of each form starts and is read.
use shatters.Common.{
  ℕ, suc, ◌+◌, ◌^◌, ◌<◌, ◌≤◌, ◌≡◌, ◌≢◌, refl, ap, ◌∙◌, sym, Bool, true, false, ◌&&◌, none, some, [],
  ◌∷◌, ◌++◌, Text, ascii, All, ltb, arith, append_assoc, decimal, decimal-IsDigit, decimal-nonempty,
  IsDigit,
}
use shatters.Json.Values.{
  Number, natural, negative, fraction, overflow, Json, null, boolean, number, string, array, object,
  Items, empty, item, Fields, end, field,
}
use shatters.Json.Print.{quote, quote_from, print_number, print_value, print_items, print_fields}
use shatters.Json.Lexer.{overflow_limit, is_white, plain, lex_string, lex_number}
use shatters.Json.Parse.{parse_value, lead_of, other, opened, more, behind, comma, final}
use shatters.Json.Steps.{parse_value-number}
use shatters.Json.Strings.{lex_string-quote_from}
use shatters.Json.Numbers.{is_stop, is_plain_number, lex_number-print_number}

abbrev pub is_units : Text → Bool
is_units [] = true
is_units (u ∷ us) = ltb u 65536 && is_units us

-- A value without fractions, with integers that a double has room for.
abbrev mutual
  pub is_plain : Json → Bool
  is_plain null = true
  is_plain (boolean b) = true
  is_plain (number n) = is_plain_number n
  is_plain (string t) = is_units t
  is_plain (array items) = are_plain_items items
  is_plain (object fields) = are_plain_fields fields

  pub are_plain_items : Items → Bool
  are_plain_items empty = true
  are_plain_items (item j items) = is_plain j && are_plain_items items

  pub are_plain_fields : Fields → Bool
  are_plain_fields end = true
  are_plain_fields (field k j fields) = is_units k && is_plain j && are_plain_fields fields

-- The fuel that reading a value takes.
abbrev mutual
  pub weight : Json → ℕ
  weight (array (item j items)) = 3 + weight j + weight_items items
  weight (object (field k j fields)) = 4 + weight j + weight_fields fields
  weight _ = 2

  pub weight_items : Items → ℕ
  weight_items empty = 0
  weight_items (item j items) = 1 + weight j + weight_items items

  pub weight_fields : Fields → ℕ
  weight_fields end = 0
  weight_fields (field k j fields) = 2 + weight j + weight_fields fields

pub is_units-All : (t : Text) → is_units t ≡ true → All (λ u. u < 65536) t
is_units-All [] h = tt
is_units-All (u ∷ us) h = (ground arith, is_units-All us (ground arith))

pub lex_string-quote :
    (t rest : Text)
    → is_units t ≡ true
    → lex_string plain ((quote_from none t ++ 34 ∷ []) ++ rest) ≡ some (t, rest)
lex_string-quote t rest h =
    ap (lex_string plain) (append_assoc (quote_from none t) (34 ∷ []) rest)
    ∙ lex_string-quote_from none t rest tt (is_units-All t h)

pub digit-start : (c : ℕ) → IsDigit c → (lead_of c ≡ other) × (is_white c ≡ false) × (c ≢ 93)
unfolding lead_of
digit-start c h = (ground arith, ground arith, λ e. omega (arith, h))

pub decimal-start :
    (ds : Text)
    → ds ≢ []
    → All IsDigit ds
    → (c : ℕ) × (cs : Text) × (ds ≡ c ∷ cs) × (lead_of c ≡ other) × (is_white c ≡ false) × (c ≢ 93)
decimal-start [] h digits = absurd (h refl)
decimal-start (c ∷ cs) h digits =
    let (lead, white, apart) = digit-start c digits.0 in (c, cs, refl, lead, white, apart)

pub number_start :
    (n : Number)
    → is_plain_number n ≡ true
    → (c : ℕ) × (cs : Text) × (print_number n ≡ c ∷ cs)
      × (lead_of c ≡ other)
      × (is_white c ≡ false)
      × (c ≢ 93)
unfolding lead_of
number_start (natural n) h = decimal-start (decimal n) (decimal-nonempty n) (decimal-IsDigit n)
number_start (negative n) h = (45, decimal (suc n), refl, refl, refl, λ e. omega (arith, e))
number_start (fraction p l) h = absurd (ground arith)
number_start (overflow p) h = absurd (ground arith)

pub value_start :
    (j : Json)
    → is_plain j ≡ true
    → (c : ℕ) × (cs : Text) × (print_value j ≡ c ∷ cs) × (is_white c ≡ false) × (c ≢ 93)
unfolding print_value
value_start null h = (110, _, refl, refl, λ e. omega (arith, e))
value_start (boolean true) h = (116, _, refl, refl, λ e. omega (arith, e))
value_start (boolean false) h = (102, _, refl, refl, λ e. omega (arith, e))
value_start (number n) h =
    let (c, cs, e, lead, white, apart) = number_start n h in (c, cs, e, white, apart)
value_start (string t) h = (34, _, refl, refl, λ e. omega (arith, e))
value_start (array empty) h = (91, _, refl, refl, λ e. omega (arith, e))
value_start (array (item j items)) h = (91, _, refl, refl, λ e. omega (arith, e))
value_start (object end) h = (123, _, refl, refl, λ e. omega (arith, e))
value_start (object (field k j fields)) h = (123, _, refl, refl, λ e. omega (arith, e))

pub opened-other : (c : ℕ) (ts : Text) → is_white c ≡ false → c ≢ 93 → opened 93 (c ∷ ts) ≡ more
unfolding opened
opened-other c ts white apart = ground arith

pub opened-value :
    (j : Json) (rest : Text) → is_plain j ≡ true → opened 93 (print_value j ++ rest) ≡ more
opened-value j rest h =
    let (c, cs, e, white, apart) = value_start j h in rw e (opened-other c (cs ++ rest) white apart)

pub opened-name : (ts : Text) → opened 125 (34 ∷ ts) ≡ more
unfolding opened
opened-name ts = refl

pub print_items-stop : (items : Items) (rest : Text) → is_stop (print_items items ++ rest) ≡ true
unfolding print_value
print_items-stop empty rest = refl
print_items-stop (item j items) rest = refl

pub print_fields-stop :
    (fields : Fields) (rest : Text) → is_stop (print_fields fields ++ rest) ≡ true
unfolding print_value
print_fields-stop end rest = refl
print_fields-stop (field k j fields) rest = refl

-- The name of a field, and what follows its closing quote.
pub lex_string-name :
    (k behind_it rest : Text)
    → is_units k ≡ true
    → lex_string plain (((quote_from none k ++ 34 ∷ []) ++ behind_it) ++ rest)
      ≡ some (k, behind_it ++ rest)
lex_string-name k behind_it rest h =
    ap (lex_string plain) (append_assoc (quote_from none k ++ 34 ∷ []) behind_it rest)
    ∙ lex_string-quote k (behind_it ++ rest) h

pub weight-two : (j : Json) → 2 ≤ weight j
weight-two null = omega arith
weight-two (boolean b) = omega arith
weight-two (number n) = omega arith
weight-two (string t) = omega arith
weight-two (array empty) = omega arith
weight-two (array (item j items)) = omega arith
weight-two (object end) = omega arith
weight-two (object (field k j fields)) = omega arith

pub parse_value-print_number :
    (n : Number) (fuel : ℕ) (rest : Text)
    → is_plain_number n ≡ true
    → is_stop rest ≡ true
    → parse_value (suc (suc fuel)) (print_number n ++ rest) ≡ some (number n, rest)
parse_value-print_number n fuel rest h stop =
    let (c, cs, e, lead, white, apart) = number_start n h in
    rw e (
      parse_value-number c (cs ++ rest) fuel n rest lead white
        (ap (λ ts. lex_number (ts ++ rest)) (sym e) ∙ lex_number-print_number n rest h stop))

pub behind-comma : (c : ℕ) (ts : Text) → behind c (44 ∷ ts) ≡ comma ts
unfolding behind
behind-comma c ts = refl

pub behind-final : (c : ℕ) (ts : Text) → 44 < c → is_white c ≡ false → behind c (c ∷ ts) ≡ final ts
unfolding behind
behind-final c ts apart white = ground arith

pub plain_field :
    (k : Text) (j : Json) (fields : Fields)
    → are_plain_fields (field k j fields) ≡ true
    → (is_units k ≡ true) × (is_plain j ≡ true) × (are_plain_fields fields ≡ true)
plain_field k j fields h = (ground arith, ground arith, ground arith)

-- What stands between the brackets of a list of items, the closing one included.
abbrev pub inner_items : Items → Text
inner_items empty = []
inner_items (item j items) = print_value j ++ print_items items

abbrev pub inner_fields : Fields → Text
inner_fields end = []
inner_fields (field k j fields) = quote k ++ (58 ∷ print_value j ++ print_fields fields)

pub parse_value-words :
    (fuel : ℕ) (rest : Text)
    → (parse_value (suc (suc fuel)) (ascii "null" ++ rest) ≡ some (null, rest))
      × (parse_value (suc (suc fuel)) (ascii "true" ++ rest) ≡ some (boolean true, rest))
      × (parse_value (suc (suc fuel)) (ascii "false" ++ rest) ≡ some (boolean false, rest))
unfolding parse_value lead_of
parse_value-words fuel rest = (refl, refl, refl)

pub parse_value-empty :
    (fuel : ℕ) (rest : Text)
    → (parse_value (suc (suc fuel)) (91 ∷ 93 ∷ rest) ≡ some (array empty, rest))
      × (parse_value (suc (suc fuel)) (123 ∷ 125 ∷ rest) ≡ some (object end, rest))
unfolding parse_value lead_of opened
parse_value-empty fuel rest = (refl, refl)

-- The integers that a double holds exactly.
pub plain_safe : (n : ℕ) → n < 2 ^ 53 → is_plain_number (natural n) ≡ true
unfolding overflow_limit
plain_safe n h = ground arith

pub is_units-of_All : (t : Text) → All (λ u. u < 65536) t → is_units t ≡ true
is_units-of_All [] h = refl
is_units-of_All (u ∷ us) h = let ih = is_units-of_All us h.1 in ground (arith, h.0, ih)
