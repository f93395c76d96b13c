-- ===== src/Json/Steps.antt =====
-- What each form of a value takes to be read.
use shatters.Common.{ℕ, suc, ◌≡◌, false, some, ◌∷◌, Text, arith}
use shatters.Json.Values.{
  Number, Json, number, string, array, object, Items, empty, item, Fields, end, field,
}
use shatters.Json.Lexer.{is_white, plain, lex_string, lex_number}
use shatters.Json.Parse.{
  parse_value, parse_items, parse_fields, lead_of, other, opened, more, behind, comma, final,
}

pub parse_value-number :
    (c : ℕ) (ts : Text) (fuel : ℕ) (n : Number) (rest : Text)
    → lead_of c ≡ other
    → is_white c ≡ false
    → lex_number (c ∷ ts) ≡ some (n, rest)
    → parse_value (suc (suc fuel)) (c ∷ ts) ≡ some (number n, rest)
unfolding parse_value
parse_value-number c ts fuel n rest lead white e = ground (arith, white, lead, e)

pub parse_value-string :
    (ts : Text) (fuel : ℕ) (t rest : Text)
    → lex_string plain ts ≡ some (t, rest)
    → parse_value (suc (suc fuel)) (34 ∷ ts) ≡ some (string t, rest)
unfolding parse_value lead_of
parse_value-string ts fuel t rest e = ground (arith, e)

pub parse_value-array :
    (ts : Text) (fuel : ℕ) (items : Items) (rest : Text)
    → opened 93 ts ≡ more
    → parse_items fuel ts ≡ some (items, rest)
    → parse_value (suc (suc fuel)) (91 ∷ ts) ≡ some (array items, rest)
unfolding parse_value lead_of
parse_value-array ts fuel items rest inside e = ground (arith, inside, e)

pub parse_value-object :
    (ts : Text) (fuel : ℕ) (fields : Fields) (rest : Text)
    → opened 125 ts ≡ more
    → parse_fields fuel ts ≡ some (fields, rest)
    → parse_value (suc (suc fuel)) (123 ∷ ts) ≡ some (object fields, rest)
unfolding parse_value lead_of
parse_value-object ts fuel fields rest inside e = ground (arith, inside, e)

pub parse_items-last :
    (ts : Text) (fuel : ℕ) (j : Json) (after rest : Text)
    → parse_value fuel ts ≡ some (j, after)
    → behind 93 after ≡ final rest
    → parse_items (suc fuel) ts ≡ some (item j empty, rest)
unfolding parse_value
parse_items-last ts fuel j after rest e stop = ground (arith, e, stop)

pub parse_items-more :
    (ts : Text) (fuel : ℕ) (j : Json) (after next : Text) (items : Items) (rest : Text)
    → parse_value fuel ts ≡ some (j, after)
    → behind 93 after ≡ comma next
    → parse_items fuel next ≡ some (items, rest)
    → parse_items (suc fuel) ts ≡ some (item j items, rest)
unfolding parse_value
parse_items-more ts fuel j after next items rest e stop es = ground (arith, e, stop, es)

pub parse_fields-last :
    (ts : Text) (fuel : ℕ) (k : Text) (j : Json) (colon after rest : Text)
    → lex_string plain ts ≡ some (k, 58 ∷ colon)
    → parse_value (suc fuel) colon ≡ some (j, after)
    → behind 125 after ≡ final rest
    → parse_fields (suc (suc fuel)) (34 ∷ ts) ≡ some (field k j end, rest)
unfolding parse_value
parse_fields-last ts fuel k j colon after rest named e stop = ground (arith, named, e, stop)

pub parse_fields-more :
    (ts : Text) (fuel : ℕ) (k : Text) (j : Json) (colon after next : Text) (fields : Fields)
    (rest : Text)
    → lex_string plain ts ≡ some (k, 58 ∷ colon)
    → parse_value (suc fuel) colon ≡ some (j, after)
    → behind 125 after ≡ comma next
    → parse_fields fuel next ≡ some (fields, rest)
    → parse_fields (suc (suc fuel)) (34 ∷ ts) ≡ some (field k j fields, rest)
unfolding parse_value
parse_fields-more ts fuel k j colon after next fields rest named e stop es =
    ground (arith, named, e, stop, es)
