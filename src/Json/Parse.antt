-- ===== src/Json/Parse.antt =====
-- `JSON.parse(text)`: `none` where it throws.
use shatters.Common.{
  ℕ, zero, suc, ◌+◌, ◌*◌, true, false, Option, none, some, [], ◌∷◌, Text, length, ◌==◌,
  if◌then◌else◌, ascii,
}
use shatters.Json.Values.{
  Json, null, boolean, number, string, array, object, Items, empty, item, Fields, end, field,
}
use shatters.Json.Lexer.{skip_white, plain, lex_string, lex_number}

infixl 5 ◌>>=◌
abbrev pub ◌>>=◌ : {A B : Type 0} → Option A → (A → Option B) → Option B
none >>= f = none
some a >>= f = f a

abbrev pub pure : {A : Type 0} → A → Option A
pure a = some a

-- What follows the character, which stands behind white space.
abbrev pub expect : ℕ → Text → Option Text
expect c ts = first (skip_white ts)
  where
    first : Text → Option Text
    first [] = none
    first (d ∷ rest) = if d == c then some rest else none

-- What follows the word.
abbrev pub expect_word : Text → Text → Option Text
expect_word [] ts = some ts
expect_word (w ∷ ws) [] = none
expect_word (w ∷ ws) (t ∷ ts) = let rest = expect_word ws ts in if w == t then rest else none

pub data Lead : Type 0 where
  brace bracket quotation letter_n letter_t letter_f other : Lead

unfoldable pub lead_of : ℕ → Lead
lead_of c =
    if c == 123
    then brace
    else if c == 91
    then bracket
    else if c == 34
    then quotation
    else if c == 110
    then letter_n
    else if c == 116
    then letter_t
    else if c == 102
    then letter_f
    else other

-- What stands behind an opening bracket: the closing one, or more.
pub data Opened : Type 0 where
  closed : Text → Opened
  more : Opened

unfoldable pub opened : ℕ → Text → Opened
opened c ts = elim (expect c ts) [ none ↦ more | some rest ↦ closed rest ]

-- What stands behind an element: a comma, with what follows it, or the end.
pub data Behind : Type 0 where
  comma final : Text → Behind
  neither : Behind

unfoldable pub behind : ℕ → Text → Behind
behind c ts = elim (expect 44 ts) [
  | some rest ↦ comma rest
  | none ↦ elim (expect c ts) [ some rest ↦ final rest | none ↦ neither ]
]

unfoldable mutual
  -- A value, and what follows it, on fuel.
  pub parse_value : ℕ → Text → Option (Json × Text)
  parse_value zero ts = none
  parse_value (suc fuel) ts = parse_lead fuel (skip_white ts)

  pub parse_lead : ℕ → Text → Option (Json × Text)
  parse_lead zero ts = none
  parse_lead (suc fuel) [] = none
  parse_lead (suc fuel) (c ∷ rest) = elim (lead_of c) [
    | brace ↦ elim (opened 125 rest) [
      | closed after ↦ some (object end, after)
      | more ↦ parse_fields fuel rest >>= λ (fields, after). some (object fields, after)
    ]
    | bracket ↦ elim (opened 93 rest) [
      | closed after ↦ some (array empty, after)
      | more ↦ parse_items fuel rest >>= λ (items, after). some (array items, after)
    ]
    | quotation ↦ lex_string plain rest >>= λ (t, after). some (string t, after)
    | letter_n ↦ expect_word (ascii "ull") rest >>= λ after. some (null, after)
    | letter_t ↦ expect_word (ascii "rue") rest >>= λ after. some (boolean true, after)
    | letter_f ↦ expect_word (ascii "alse") rest >>= λ after. some (boolean false, after)
    | other ↦ lex_number (c ∷ rest) >>= λ (n, after). some (number n, after)
  ]

  pub parse_items : ℕ → Text → Option (Items × Text)
  parse_items zero ts = none
  parse_items (suc fuel) ts = parse_value fuel ts >>= λ (j, after). elim (behind 93 after) [
    | comma rest ↦ parse_items fuel rest >>= λ (items, end_of). some (item j items, end_of)
    | final rest ↦ some (item j empty, rest)
    | neither ↦ none
  ]

  pub parse_fields : ℕ → Text → Option (Fields × Text)
  parse_fields zero ts = none
  parse_fields (suc fuel) ts = do
    opening ← expect 34 ts
    named ← lex_string plain opening
    colon ← expect 58 named.1
    value ← parse_value fuel colon
    parse_behind fuel named.0 value.0 (behind 125 value.1)

  pub parse_behind : ℕ → Text → Json → Behind → Option (Fields × Text)
  parse_behind zero k j b = none
  parse_behind (suc fuel) k j (comma rest) =
      parse_fields fuel rest >>= λ (fields, after). some (field k j fields, after)
  parse_behind (suc fuel) k j (final rest) = some (field k j end, rest)
  parse_behind (suc fuel) k j neither = none

abbrev pub whole : Option (Json × Text) → Option Json
whole none = none
whole (some (j, rest)) = elim (skip_white rest) [ [] ↦ some j | c ∷ _ ↦ none ]

-- A character of the text is worth at most four calls.
unfoldable pub parse : Text → Option Json
parse ts = whole (parse_value (4 * length ts + 4) ts)
