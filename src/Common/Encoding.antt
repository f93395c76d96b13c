-- ===== src/Common/Encoding.antt =====
-- Texts that the language makes of bytes and numbers: `btoa`, the digits of a template literal, and
-- `TextEncoder` on ASCII text.
use Prim.Native.Nat.{ℕ, zero, suc, ◌+◌, ◌-◌, ◌*◌, ◌/◌, ◌%◌, ◌<◌, ◌≤◌}
use Prim.Native.Char.{code}
use Prim.Native.String.{String}
use mathlib.Core.Path.{◌≡◌, sym, ap, ◌∙◌}
use mathlib.Core.List.{List, [], ◌∷◌}
use native.Mathlib.Omega.{arith}
use shatters.Common.Tests.{ltb, Bool-cases, if◌then◌else◌}
use shatters.Common.Strings.{Text}
use shatters.Common.Lists.{All, length}
use mathlib.Core.Logic.{◌≢◌, inl, inr}
use mathlib.Core.Bool.{true}

-- The bytes of an ASCII text.
abbrev pub ascii : String → List ℕ
ascii String.[] = []
ascii (String.◌∷◌ c s) = code c ∷ ascii s

-- The code unit of a group of six bits.
abbrev pub sextet : ℕ → ℕ
sextet n =
    if ltb n 26
    then n + 65
    else if ltb n 52
    then n + 71
    else if ltb n 62
    then n - 4
    else if ltb n 63
    then 43
    else 47

-- `btoa` of the bytes, three at a time, padded by `=`.
unfoldable pub btoa : List ℕ → Text
btoa [] = []
btoa (a ∷ []) = sextet (a / 4) ∷ sextet (a % 4 * 16) ∷ 61 ∷ 61 ∷ []
btoa (a ∷ b ∷ []) = sextet (a / 4) ∷ sextet (a % 4 * 16 + b / 16) ∷ sextet (b % 16 * 4) ∷ 61 ∷ []
btoa (a ∷ b ∷ c ∷ rest) =
    sextet (a / 4)
    ∷ sextet (a % 4 * 16 + b / 16)
    ∷ sextet (b % 16 * 4 + c / 64)
    ∷ sextet (c % 64)
    ∷ btoa rest

digits_from : ℕ → ℕ → Text → Text
digits_from zero n acc = acc
digits_from (suc fuel) n acc =
    let more = digits_from fuel (n / 10) ((n % 10 + 48) ∷ acc) in
    if ltb n 10 then (n + 48) ∷ acc else more

-- `${n}`, the decimal digits.
unfoldable pub decimal : ℕ → Text
unfolding digits_from
decimal n = digits_from (suc n) n []

-- The number that digits spell after those of `v`.
unfoldable pub value_from : ℕ → Text → ℕ
value_from v [] = v
value_from v (d ∷ ds) = value_from (v * 10 + (d - 48)) ds

value-digits_from :
    (fuel n : ℕ) (acc : Text) → n < fuel → value_from 0 (digits_from fuel n acc) ≡ value_from n acc
unfolding digits_from value_from
value-digits_from zero n acc h = absurd (omega arith)
value-digits_from (suc fuel) n acc h = ground (
  arith,
  value-digits_from fuel (n / 10) ((n % 10 + 48) ∷ acc),
  ap (λ (k : ℕ). value_from k acc) (back n),
  ap (λ (k : ℕ). value_from k acc) (last n),
)
  where
    back : (n : ℕ) → n / 10 * 10 + (n % 10 + 48 - 48) ≡ n
    back n = omega arith

    last : (n : ℕ) → 0 * 10 + (n + 48 - 48) ≡ n
    last n = omega arith

pub value_from-decimal : (n : ℕ) → value_from 0 (decimal n) ≡ n
unfolding decimal value_from
value_from-decimal n = value-digits_from (suc n) n [] (omega arith)

-- Different numbers have different digits.
pub decimal-injective : (m n : ℕ) → decimal m ≡ decimal n → m ≡ n
unfolding decimal value_from
decimal-injective m n e =
    sym (value-digits_from (suc m) m [] (omega arith))
    ∙ ap (value_from 0) e
    ∙ value-digits_from (suc n) n [] (omega arith)

digits_from-colonless :
    (fuel n : ℕ) (acc : Text) → All (λ d. d ≢ 58) acc → All (λ d. d ≢ 58) (digits_from fuel n acc)
unfolding digits_from
digits_from-colonless zero n acc h = h
digits_from-colonless (suc fuel) n acc h =
    ground (arith, digits_from-colonless fuel (n / 10) ((n % 10 + 48) ∷ acc) (λ e. omega arith, h))

-- No digit is a colon.
pub decimal-colonless : (n : ℕ) → All (λ d. d ≢ 58) (decimal n)
unfolding decimal
decimal-colonless n = digits_from-colonless (suc n) n [] tt

-- A decimal digit's code unit.
abbrev pub IsDigit : ℕ → Type 0
IsDigit d = (48 ≤ d) × (d ≤ 57)

digits_from-IsDigit :
    (fuel n : ℕ) (acc : Text) → All IsDigit acc → All IsDigit (digits_from fuel n acc)
unfolding digits_from
digits_from-IsDigit zero n acc h = h
digits_from-IsDigit (suc fuel) n acc h =
    ground (arith, digits_from-IsDigit fuel (n / 10) ((n % 10 + 48) ∷ acc) (omega arith, h))

pub decimal-IsDigit : (n : ℕ) → All IsDigit (decimal n)
unfolding decimal
decimal-IsDigit n = digits_from-IsDigit (suc n) n [] tt

-- A number whose first digit is no zero.
abbrev pub Leads : Text → Type 0
Leads [] = ⊥
Leads (d ∷ ds) = d ≢ 48

digits_from-Leads : (fuel n : ℕ) (acc : Text) → 0 < n → n < fuel → Leads (digits_from fuel n acc)
unfolding digits_from
digits_from-Leads zero n acc h f = absurd (omega arith)
digits_from-Leads (suc fuel) n acc h f = elim (Bool-cases (ltb n 10)) [
  | inl small ↦ rw small (λ e. omega (arith, h))
  | inr large ↦
      rw large (digits_from-Leads fuel (n / 10) ((n % 10 + 48) ∷ acc) (ground arith) (ground arith))
]

pub decimal-Leads : (n : ℕ) → 0 < n → Leads (decimal n)
unfolding decimal
decimal-Leads n h = digits_from-Leads (suc n) n [] h (omega arith)

pub decimal-nonempty : (n : ℕ) → decimal n ≢ []
unfolding decimal digits_from
decimal-nonempty zero = λ e. cc
decimal-nonempty (suc n) = go (decimal (suc n)) (decimal-Leads (suc n) (omega arith))
  where
    go : (ds : Text) → Leads ds → ds ≢ []
    go [] h = absurd h
    go (d ∷ ds) h = λ e. cc

abbrev power_of_ten : ℕ → ℕ
power_of_ten zero = 1
power_of_ten (suc k) = 10 * power_of_ten k

digits_from-length :
    (k fuel n : ℕ) (acc : Text)
    → n < 10 * power_of_ten k
    → n < fuel
    → length (digits_from fuel n acc) ≤ suc k + length acc
unfolding digits_from
digits_from-length k zero n acc h f = absurd (omega arith)
digits_from-length zero (suc fuel) n acc h f =
    let small : ltb n 10 ≡ true = ground arith in rw small (omega arith)
digits_from-length (suc k) (suc fuel) n acc h f = elim (Bool-cases (ltb n 10)) [
  | inl small ↦ rw small (omega arith)
  | inr large ↦ rw large (
      ground (
        arith,
        digits_from-length k fuel (n / 10) ((n % 10 + 48) ∷ acc) (omega arith) (ground arith),
      ))
]

-- A number below 100000 has at most five digits.
pub decimal-length : (n : ℕ) → n < 100000 → length (decimal n) ≤ 5
unfolding decimal
decimal-length n h = digits_from-length 4 (suc n) n [] (omega arith) (omega arith)
