-- ===== src/Json/Paired.antt =====
-- A printed value has no surrogate without its partner, so that its bytes are read back.
use shatters.Common.{
  ℕ, suc, ◌/◌, ◌%◌, ◌<◌, ◌≡◌, refl, ap, ◌∙◌, Bool, true, false, not, ◌&&◌, ◌||◌, Option,
  Option-cases, none, some, [], ◌∷◌, ◌++◌, Text, All, ltb, arith, inl, inr, decimal,
  decimal-IsDigit, IsDigit, Bool-cases, is_high, is_low, is_paired, is_well_formed,
  starts_with_mark, pending, utf8_encode, utf8_decode, utf8_decode-utf8_encode,
}
use shatters.Json.Values.{
  Number, natural, negative, fraction, overflow, Json, null, boolean, number, string, array, object,
  Items, empty, item, Fields, end, field,
}
use shatters.Json.Print.{
  hex_digit, unicode_escape, short_escape, quote_alone, quote_from, quote, print_number,
  print_value, print_items, print_fields, stringify,
}
use shatters.Json.Parse.{parse}
use shatters.Json.Strings.{with_waiting, WaitsFor, IsUnits}
use shatters.Json.Numbers.{is_plain_number}
use shatters.Json.Forms.{
  is_units, is_units-All, is_plain, are_plain_items, are_plain_fields, plain_field,
}
use shatters.Json.Roundtrip.{parse-stringify}

and_last : (a b c d : Bool) → (a && b && c) ≡ true → (c ≡ true → d ≡ true) → (a && b && d) ≡ true
and_last true true c d h f = f h
and_last true false c d h f = absurd (ground arith)
and_last false b c d h f = absurd (ground arith)

is_paired-append :
    (waiting : Option ℕ) (xs ys : Text)
    → is_paired waiting xs ≡ true
    → is_paired none ys ≡ true
    → is_paired waiting (xs ++ ys) ≡ true
is_paired-append none [] ys h k = k
is_paired-append (some x) [] ys h k = absurd (ground arith)
is_paired-append none (u ∷ us) ys h k =
    and_last (ltb u 65536) (not (is_low u)) (is_paired (pending u) us) _ h
      (λ e. is_paired-append (pending u) us ys e k)
is_paired-append (some x) (u ∷ us) ys h k = ground (arith, is_paired-append none us ys)

-- Units below those of the surrogates.
below_surrogates : (ds : Text) → All (λ u. u < 55296) ds → is_paired none ds ≡ true
below_surrogates [] h = refl
below_surrogates (d ∷ ds) h =
    let plain : is_high d ≡ false = ground (arith, h.0) in
    rw plain (ground (arith, h.0, below_surrogates ds h.1))

digits_below : (ds : Text) → All IsDigit ds → All (λ u. u < 55296) ds
digits_below [] h = tt
digits_below (d ∷ ds) h = (omega (arith, h.0), digits_below ds h.1)

hex_digit-small : (d : ℕ) → d < 16 → hex_digit d < 55296
hex_digit-small d small = ground arith

unicode_escape-below : (u : ℕ) → u < 65536 → All (λ u. u < 55296) (unicode_escape u)
unicode_escape-below u small = (
  omega arith,
  (
    omega arith,
    (
      hex_digit-small (u / 4096) (omega arith),
      (
        hex_digit-small (u / 256 % 16) (omega arith),
        (hex_digit-small (u / 16 % 16) (omega arith), (hex_digit-small (u % 16) (omega arith), tt)),
      ),
    ),
  ),
)

unicode_escape-paired : (u : ℕ) → u < 65536 → is_paired none (unicode_escape u) ≡ true
unicode_escape-paired u small = below_surrogates (unicode_escape u) (unicode_escape-below u small)

short_escape-letter : (u letter : ℕ) → short_escape u ≡ some letter → letter < 55296
short_escape-letter u letter e = ground arith

quote_alone-paired : (u : ℕ) → u < 65536 → is_high u ≡ false → is_paired none (quote_alone u) ≡ true
quote_alone-paired u small alone = elim (Option-cases (short_escape u)) [
  | inr (letter, e) ↦
      rw e (below_surrogates (92 ∷ letter ∷ []) (omega arith, (short_escape-letter u letter e, tt)))
  | inl e ↦ elim (Bool-cases (ltb u 32 || is_low u)) [
    | inl coded ↦ rw (e, coded) (unicode_escape-paired u small)
    | inr direct ↦ rw (e, direct) (below_surrogates_or u small alone (ground arith))
  ]
]
  where
    below_surrogates_or :
        (u : ℕ) → u < 65536 → is_high u ≡ false → is_low u ≡ false → is_paired none (u ∷ []) ≡ true
    below_surrogates_or u small high low = ground arith

quote_first-paired :
    (u : ℕ) (us : Text)
    → u < 65536
    → (is_high u ≡ true → is_paired none (quote_from (some u) us) ≡ true)
    → is_paired none (quote_from none us) ≡ true
    → is_paired none (quote_from none (u ∷ us)) ≡ true
quote_first-paired u us small when_high otherwise = elim (Bool-cases (is_high u)) [
  | inl high ↦ rw high (when_high high)
  | inr alone ↦ rw alone (
      is_paired-append none (quote_alone u) (quote_from none us) (quote_alone-paired u small alone)
        otherwise)
]

pair-paired :
    (x u : ℕ) (ts : Text)
    → is_high x ≡ true
    → is_low u ≡ true
    → is_paired none ts ≡ true
    → is_paired none (x ∷ u ∷ ts) ≡ true
pair-paired x u ts high low h = rw high (ground arith)

quote_from-paired :
    (waiting : Option ℕ) (us : Text)
    → WaitsFor waiting
    → IsUnits (with_waiting waiting us)
    → is_paired none (quote_from waiting us) ≡ true
quote_from-paired none [] w h = refl
quote_from-paired (some x) [] w h = unicode_escape-paired x h.0
quote_from-paired none (u ∷ us) w h =
    quote_first-paired u us h.0 (λ high. quote_from-paired (some u) us high h)
      (quote_from-paired none us tt h.1)
quote_from-paired (some x) (u ∷ us) w h = elim (Bool-cases (is_low u)) [
  | inl low ↦
      let single : is_high u ≡ false = ground arith in
      rw (low, single)
        (pair-paired x u (quote_from none us) w low (quote_from-paired none us tt h.1.1))
  | inr other ↦ rw other (
      is_paired-append none (unicode_escape x) (quote_from none (u ∷ us))
        (unicode_escape-paired x h.0)
        (quote_first-paired u us h.1.0 (λ high. quote_from-paired (some u) us high h.1)
          (quote_from-paired none us tt h.1.1)))
]

quote-paired : (t : Text) → is_units t ≡ true → is_paired none (quote t) ≡ true
quote-paired t h =
    is_paired-append none (34 ∷ quote_from none t) (34 ∷ [])
      (is_paired-append none (34 ∷ []) (quote_from none t) refl
        (quote_from-paired none t tt (is_units-All t h)))
      refl

number-paired : (n : Number) → is_plain_number n ≡ true → is_paired none (print_number n) ≡ true
number-paired (natural n) h =
    below_surrogates (decimal n) (digits_below (decimal n) (decimal-IsDigit n))
number-paired (negative n) h =
    below_surrogates (45 ∷ decimal (suc n))
      (omega arith, digits_below (decimal (suc n)) (decimal-IsDigit (suc n)))
number-paired (fraction p l) h = absurd (ground arith)
number-paired (overflow p) h = absurd (ground arith)

-- A unit of punctuation in front.
in_front : (c : ℕ) (ts : Text) → c < 128 → is_paired none ts ≡ true → is_paired none (c ∷ ts) ≡ true
in_front c ts small h =
    is_paired-append none (c ∷ []) ts (below_surrogates (c ∷ []) (omega (arith, small), tt)) h

field-paired :
    (c : ℕ) (k value rest : Text)
    → c < 128
    → is_units k ≡ true
    → is_paired none value ≡ true
    → is_paired none rest ≡ true
    → is_paired none (c ∷ quote k ++ (58 ∷ value ++ rest)) ≡ true
field-paired c k value rest small named hv hr = in_front c (quote k ++ (58 ∷ value ++ rest)) small (
    is_paired-append none (quote k) (58 ∷ value ++ rest) (quote-paired k named)
      (in_front 58 (value ++ rest) (omega arith) (is_paired-append none value rest hv hr)))

mutual
  unfolding print_value

  print_value-paired : (j : Json) → is_plain j ≡ true → is_paired none (print_value j) ≡ true
  print_value-paired null h = refl
  print_value-paired (boolean true) h = refl
  print_value-paired (boolean false) h = refl
  print_value-paired (number n) h = number-paired n h
  print_value-paired (string t) h = quote-paired t h
  print_value-paired (array empty) h = refl
  print_value-paired (array (item j items)) h =
      in_front 91 (print_value j ++ print_items items) (omega arith) (
        is_paired-append none (print_value j) (print_items items)
          (print_value-paired j (ground arith)) (print_items-paired items (ground arith)))
  print_value-paired (object end) h = refl
  print_value-paired (object (field k j fields)) h =
      let (named, plain_value, plain_rest) = plain_field k j fields h in
      field-paired 123 k (print_value j) (print_fields fields) (omega arith) named
        (print_value-paired j plain_value) (print_fields-paired fields plain_rest)

  print_items-paired :
      (items : Items) → are_plain_items items ≡ true → is_paired none (print_items items) ≡ true
  print_items-paired empty h = refl
  print_items-paired (item j items) h =
      in_front 44 (print_value j ++ print_items items) (omega arith) (
        is_paired-append none (print_value j) (print_items items)
          (print_value-paired j (ground arith)) (print_items-paired items (ground arith)))

  print_fields-paired :
      (fields : Fields)
      → are_plain_fields fields ≡ true
      → is_paired none (print_fields fields) ≡ true
  print_fields-paired end h = refl
  print_fields-paired (field k j fields) h =
      let (named, plain_value, plain_rest) = plain_field k j fields h in
      field-paired 44 k (print_value j) (print_fields fields) (omega arith) named
        (print_value-paired j plain_value) (print_fields-paired fields plain_rest)

object-unmarked : (fields : Fields) → starts_with_mark (print_value (object fields)) ≡ false
unfolding print_value
object-unmarked end = refl
object-unmarked (field k j fields) = refl

-- An object is read back from the bytes of its text.
pub parse-stringify_bytes :
    (fields : Fields)
    → are_plain_fields fields ≡ true
    → parse (utf8_decode (utf8_encode (stringify (object fields)))) ≡ some (object fields)
unfolding stringify
parse-stringify_bytes fields h =
    let formed : is_well_formed (print_value (object fields)) ≡ true =
      ground (arith, print_value-paired (object fields) h, object-unmarked fields) in
    ap parse (utf8_decode-utf8_encode (print_value (object fields)) formed)
    ∙ parse-stringify (object fields) h
