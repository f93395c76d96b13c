-- ===== src/Json/Roundtrip.antt =====
-- `JSON.parse` reads back what `JSON.stringify` writes.
use shatters.Common.{
  ℕ, zero, suc, ◌+◌, ◌*◌, ◌≤◌, ◌≡◌, ◌≢◌, refl, ap, ◌∙◌, sym, true, false, none, some, [], ◌∷◌, ◌++◌,
  Text, length, arith, append_assoc, append-nil, length-append,
}
use shatters.Json.Values.{
  Number, Json, null, boolean, number, string, array, object, Items, empty, item, Fields, end,
  field,
}
use shatters.Json.Print.{
  quote, quote_from, print_number, print_value, print_items, print_fields, stringify,
}
use shatters.Json.Parse.{parse_value, parse_items, parse_fields, opened, whole, parse}
use shatters.Json.Steps.{
  parse_value-string, parse_value-array, parse_value-object, parse_items-last, parse_items-more,
  parse_fields-last, parse_fields-more,
}
use shatters.Json.Numbers.{is_stop, is_plain_number}
use shatters.Json.Forms.{
  lex_string-quote, number_start, opened-value, opened-name, lex_string-name, weight-two,
  parse_value-print_number, behind-comma, behind-final, plain_field, parse_value-words,
  parse_value-empty, inner_items, inner_fields, is_plain, are_plain_items, are_plain_fields, weight,
  weight_items, weight_fields,
}

mutual
  unfolding print_value

  parse_value-print_value :
      (j : Json) (fuel : ℕ) (rest : Text)
      → weight j ≤ suc (suc fuel)
      → is_plain j ≡ true
      → is_stop rest ≡ true
      → parse_value (suc (suc fuel)) (print_value j ++ rest) ≡ some (j, rest)
  parse_value-print_value null fuel rest w h stop = (parse_value-words fuel rest).0
  parse_value-print_value (boolean true) fuel rest w h stop = (parse_value-words fuel rest).1
  parse_value-print_value (boolean false) fuel rest w h stop = (parse_value-words fuel rest).2
  parse_value-print_value (number n) fuel rest w h stop =
      parse_value-print_number n fuel rest h stop
  parse_value-print_value (string t) fuel rest w h stop =
      parse_value-string ((quote_from none t ++ 34 ∷ []) ++ rest) fuel t rest
        (lex_string-quote t rest h)
  parse_value-print_value (array empty) fuel rest w h stop = (parse_value-empty fuel rest).0
  parse_value-print_value (array (item j items)) fuel rest w h stop =
      parse_value-array ((print_value j ++ print_items items) ++ rest) fuel (item j items) rest
        (ap (opened 93) (append_assoc (print_value j) (print_items items) rest)
          ∙ opened-value j (print_items items ++ rest) (ground arith))
        (parse_items-inner_items (item j items) fuel rest (λ e. cc) (omega arith) (ground arith))
  parse_value-print_value (object end) fuel rest w h stop = (parse_value-empty fuel rest).1
  parse_value-print_value (object (field k j fields)) fuel rest w h stop =
      parse_value-object ((quote k ++ (58 ∷ print_value j ++ print_fields fields)) ++ rest) fuel
        (field k j fields) rest (opened-name _)
        (parse_fields-inner_fields (field k j fields) fuel rest (λ e. cc) (omega arith)
          (ground arith))

  parse_items-inner_items :
      (items : Items) (fuel : ℕ) (rest : Text)
      → items ≢ empty
      → weight_items items ≤ fuel
      → are_plain_items items ≡ true
      → parse_items fuel (inner_items items ++ rest) ≡ some (items, rest)
  parse_items-inner_items empty fuel rest some_item w h = absurd (some_item refl)
  parse_items-inner_items (item j items) zero rest some_item w h = absurd (omega arith)
  parse_items-inner_items (item j items) (suc zero) rest some_item w h =
      absurd (omega (arith, weight-two j))
  parse_items-inner_items (item j items) (suc (suc zero)) rest some_item w h =
      absurd (omega (arith, weight-two j))
  parse_items-inner_items (item j empty) (suc (suc (suc fuel))) rest some_item w h =
      parse_items-last (inner_items (item j empty) ++ rest) (suc (suc fuel)) j (93 ∷ rest) rest
        (ap (parse_value (suc (suc fuel))) (append_assoc (print_value j) (93 ∷ []) rest)
          ∙ parse_value-print_value j fuel (93 ∷ rest) (omega arith) (ground arith) refl)
        (behind-final 93 rest (omega arith) refl)
  parse_items-inner_items (item j (item i items)) (suc (suc (suc fuel))) rest some_item w h =
      let next = inner_items (item i items) ++ rest in
      parse_items-more (inner_items (item j (item i items)) ++ rest) (suc (suc fuel)) j (44 ∷ next)
        next (item i items) rest
        (ap (parse_value (suc (suc fuel)))
            (append_assoc (print_value j) (44 ∷ inner_items (item i items)) rest)
          ∙ parse_value-print_value j fuel (44 ∷ next) (omega arith) (ground arith) refl)
        (behind-comma 93 next)
        (parse_items-inner_items (item i items) (suc (suc fuel)) rest (λ e. cc) (omega arith)
          (ground arith))

  parse_fields-inner_fields :
      (fields : Fields) (fuel : ℕ) (rest : Text)
      → fields ≢ end
      → weight_fields fields ≤ fuel
      → are_plain_fields fields ≡ true
      → parse_fields fuel (inner_fields fields ++ rest) ≡ some (fields, rest)
  parse_fields-inner_fields end fuel rest some_field w h = absurd (some_field refl)
  parse_fields-inner_fields (field k j fields) zero rest some_field w h = absurd (omega arith)
  parse_fields-inner_fields (field k j fields) (suc zero) rest some_field w h = absurd (omega arith)
  parse_fields-inner_fields (field k j fields) (suc (suc zero)) rest some_field w h =
      absurd (omega (arith, weight-two j))
  parse_fields-inner_fields (field k j end) (suc (suc (suc fuel))) rest some_field w h =
      let (named, plain_value, plain_rest) = plain_field k j end h in
      let inner = print_value j ++ 125 ∷ [] in
      parse_fields-last (((quote_from none k ++ 34 ∷ []) ++ (58 ∷ inner)) ++ rest) (suc fuel) k j
        (inner ++ rest) (125 ∷ rest) rest (lex_string-name k (58 ∷ inner) rest named)
        (ap (parse_value (suc (suc fuel))) (append_assoc (print_value j) (125 ∷ []) rest)
          ∙ parse_value-print_value j fuel (125 ∷ rest) (omega arith) plain_value refl)
        (behind-final 125 rest (omega arith) refl)
  parse_fields-inner_fields (field k j (field l i fields)) (suc (suc (suc fuel))) rest some_field w
        h =
      let (named, plain_value, plain_rest) = plain_field k j (field l i fields) h in
      let inner = inner_fields (field l i fields) in
      let whole = print_value j ++ 44 ∷ inner in
      parse_fields-more (((quote_from none k ++ 34 ∷ []) ++ (58 ∷ whole)) ++ rest) (suc fuel) k j
        (whole ++ rest) (44 ∷ inner ++ rest) (inner ++ rest) (field l i fields) rest
        (lex_string-name k (58 ∷ whole) rest named)
        (ap (parse_value (suc (suc fuel))) (append_assoc (print_value j) (44 ∷ inner) rest)
          ∙ parse_value-print_value j fuel (44 ∷ inner ++ rest) (omega arith) plain_value refl)
        (behind-comma 125 (inner ++ rest))
        (parse_fields-inner_fields (field l i fields) (suc fuel) rest (λ e. cc) (omega arith)
          plain_rest)

number-length : (n : Number) → is_plain_number n ≡ true → 2 ≤ 4 * length (print_number n)
number-length n h = let (c, cs, e, lead, white, apart) = number_start n h in rw e (omega arith)

mutual
  unfolding print_value

  weight-print_value : (j : Json) → is_plain j ≡ true → weight j ≤ 4 * length (print_value j)
  weight-print_value null h = omega arith
  weight-print_value (boolean true) h = omega arith
  weight-print_value (boolean false) h = omega arith
  weight-print_value (number n) h = number-length n h
  weight-print_value (string t) h = omega arith
  weight-print_value (array empty) h = omega arith
  weight-print_value (array (item j items)) h = omega (
    arith,
    weight-print_value j (ground arith),
    weight-print_items items (ground arith),
    length-append (print_value j) (print_items items),
  )
  weight-print_value (object end) h = omega arith
  weight-print_value (object (field k j fields)) h = omega (
    arith,
    weight-print_value j (ground arith),
    weight-print_fields fields (ground arith),
    length-append (quote_from none k ++ 34 ∷ []) (58 ∷ print_value j ++ print_fields fields),
    length-append (print_value j) (print_fields fields),
  )

  weight-print_items :
      (items : Items)
      → are_plain_items items ≡ true
      → weight_items items ≤ 4 * length (print_items items)
  weight-print_items empty h = omega arith
  weight-print_items (item j items) h = omega (
    arith,
    weight-print_value j (ground arith),
    weight-print_items items (ground arith),
    length-append (print_value j) (print_items items),
  )

  weight-print_fields :
      (fields : Fields)
      → are_plain_fields fields ≡ true
      → weight_fields fields ≤ 4 * length (print_fields fields)
  weight-print_fields end h = omega arith
  weight-print_fields (field k j fields) h = omega (
    arith,
    weight-print_value j (ground arith),
    weight-print_fields fields (ground arith),
    length-append (quote_from none k ++ 34 ∷ []) (58 ∷ print_value j ++ print_fields fields),
    length-append (print_value j) (print_fields fields),
  )

-- `JSON.parse(JSON.stringify(value))` is the value, if it holds no fraction, its integers are ones that
-- a double has room for, and its texts are of 16-bit units, which need not be paired surrogates.
pub parse-stringify : (j : Json) → is_plain j ≡ true → parse (stringify j) ≡ some j
unfolding parse stringify
parse-stringify j h =
    let ts = print_value j in
    let fuel : 4 * length ts + 4 ≡ suc (suc (4 * length ts + 2)) = omega arith in
    ap (whole) (
      ap (λ n. parse_value n ts) fuel
      ∙ ap (parse_value (suc (suc (4 * length ts + 2)))) (sym (append-nil ts))
      ∙ parse_value-print_value j (4 * length ts + 2) [] (omega (arith, weight-print_value j h)) h
          refl)
