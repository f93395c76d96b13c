-- ===== src/Json/Numbers.antt =====
-- A printed integer is read back.
use shatters.Common.{
  ℕ, zero, suc, ◌-◌, ◌*◌, ◌/◌, ◌%◌, ◌^◌, ◌≡◌, ◌≢◌, refl, ap, ◌∙◌, Bool, true, false, ◌||◌,
  if◌then◌else◌, some, [], ◌∷◌, ◌++◌, Text, All, ltb, ◌==◌, arith, append-nil, decimal, length,
  take, value_from, value_from-decimal, decimal-IsDigit, IsDigit, Leads, decimal-Leads,
}
use shatters.Json.Values.{Number, natural, negative, fraction, overflow}
use shatters.Json.Print.{print_number}
use shatters.Json.Lexer.{
  is_digit, span_digits, number_of, overflow_limit, lex_number, is_leading_zero, with_integer,
  lex_fraction, lex_exponent, absent,
}

-- What may stand behind a value: a comma, a closing bracket, or nothing.
abbrev pub is_stop : Text → Bool
is_stop [] = true
is_stop (c ∷ rest) = c == 44 || c == 93 || c == 125

span_digits-append :
    (ds rest : Text) → All IsDigit ds → is_stop rest ≡ true → span_digits (ds ++ rest) ≡ (ds, rest)
span_digits-append [] [] h stop = refl
span_digits-append [] (c ∷ rest) h stop = ground arith
span_digits-append (d ∷ ds) rest h stop =
    let digit : is_digit d ≡ true = ground (arith, h.0) in
    rw (span_digits-append ds rest h.1 stop, digit) refl

lex_fraction-stop : (rest : Text) → is_stop rest ≡ true → lex_fraction rest ≡ absent rest
lex_fraction-stop [] h = refl
lex_fraction-stop (c ∷ rest) h = ground arith

lex_exponent-stop : (rest : Text) → is_stop rest ≡ true → lex_exponent rest ≡ (false, absent rest)
lex_exponent-stop [] h = refl
lex_exponent-stop (c ∷ rest) h = ground arith

-- The integer of a sign and its digits.
abbrev integer_of : Bool → ℕ → Number
integer_of minus zero = natural 0
integer_of minus (suc n) = if minus then negative n else natural (suc n)

number_of-integer :
    (minus : Bool) (n : ℕ) (literal : Text)
    → ltb n overflow_limit ≡ true
    → number_of minus n 0 0 literal ≡ integer_of minus n
number_of-integer minus zero literal h = refl
number_of-integer minus (suc n) literal h =
    let whole : (suc n * 10 ^ 0 % 10 ^ 0 == 0) ≡ true = ground arith in
    let same : suc n * 10 ^ 0 / 10 ^ 0 ≡ suc n = omega arith in rw (whole, same, h) refl

with_integer-digits :
    (minus : Bool) (ts ds rest : Text) (n : ℕ)
    → ds ≢ []
    → is_leading_zero ds ≡ false
    → value_from 0 ds ≡ n
    → ltb n overflow_limit ≡ true
    → is_stop rest ≡ true
    → with_integer minus ts (ds, rest) ≡ some (integer_of minus n, rest)
with_integer-digits minus ts [] rest n h lead value small stop = absurd (h refl)
with_integer-digits minus ts (d ∷ ds) rest n h lead value small stop =
    rw (lead, lex_fraction-stop rest stop, lex_exponent-stop rest stop)
      (ap (λ v. some (v, rest))
        (ap (λ xs. number_of minus (value_from 0 (d ∷ xs)) 0 0 (take (length ts - length rest) ts))
            (append-nil ds)
          ∙ ap (λ (v : ℕ). number_of minus v 0 0 (take (length ts - length rest) ts)) value
          ∙ number_of-integer minus n (take (length ts - length rest) ts) small))

-- A list of digits is not empty, and starts with no zero, unless it is the one zero.
decimal-first : (n : ℕ) → (decimal n ≢ []) × (is_leading_zero (decimal n) ≡ false)
decimal-first zero = unfold decimal in (λ e. cc, refl)
decimal-first (suc n) = go (decimal (suc n)) (decimal-Leads (suc n) (omega arith))
  where
    go : (ds : Text) → Leads ds → (ds ≢ []) × (is_leading_zero ds ≡ false)
    go [] h = absurd h
    go (d ∷ []) h = (λ e. cc, refl)
    go (d ∷ e ∷ ds) h = (λ q. cc, ground (arith, h))

lex_number-unsigned :
    (ds rest : Text) (n : ℕ)
    → All IsDigit ds
    → (ds ≢ [])
    → is_leading_zero ds ≡ false
    → value_from 0 ds ≡ n
    → ltb n overflow_limit ≡ true
    → is_stop rest ≡ true
    → lex_number (ds ++ rest) ≡ some (integer_of false n, rest)
lex_number-unsigned [] rest n digits h lead value small stop = absurd (h refl)
lex_number-unsigned (d ∷ ds) rest n digits h lead value small stop =
    let unsigned : (d == 45) ≡ false = ground (arith, digits.0) in
    rw (unsigned, span_digits-append (d ∷ ds) rest digits stop)
      (with_integer-digits false (d ∷ ds ++ rest) (d ∷ ds) rest n h lead value small stop)

pub lex_number-natural :
    (n : ℕ) (rest : Text)
    → ltb n overflow_limit ≡ true
    → is_stop rest ≡ true
    → lex_number (decimal n ++ rest) ≡ some (integer_of false n, rest)
lex_number-natural n rest small stop =
    lex_number-unsigned (decimal n) rest n (decimal-IsDigit n) (decimal-first n).0
      (decimal-first n).1 (value_from-decimal n) small stop

pub lex_number-negative :
    (n : ℕ) (rest : Text)
    → ltb (suc n) overflow_limit ≡ true
    → is_stop rest ≡ true
    → lex_number (45 ∷ decimal (suc n) ++ rest) ≡ some (negative n, rest)
lex_number-negative n rest small stop =
    rw (span_digits-append (decimal (suc n)) rest (decimal-IsDigit (suc n)) stop) (
      with_integer-digits true (45 ∷ decimal (suc n) ++ rest) (decimal (suc n)) rest (suc n)
        (decimal-first (suc n)).0 (decimal-first (suc n)).1 (value_from-decimal (suc n)) small stop)

-- The integers that a double has room for.
abbrev pub is_plain_number : Number → Bool
is_plain_number (natural n) = ltb n overflow_limit
is_plain_number (negative n) = ltb (suc n) overflow_limit
is_plain_number _ = false

pub lex_number-print_number :
    (n : Number) (rest : Text)
    → is_plain_number n ≡ true
    → is_stop rest ≡ true
    → lex_number (print_number n ++ rest) ≡ some (n, rest)
lex_number-print_number (natural zero) rest small stop = lex_number-natural 0 rest small stop
lex_number-print_number (natural (suc n)) rest small stop =
    lex_number-natural (suc n) rest small stop
lex_number-print_number (negative n) rest small stop = lex_number-negative n rest small stop
lex_number-print_number (fraction p l) rest small stop = absurd (ground arith)
lex_number-print_number (overflow p) rest small stop = absurd (ground arith)
