-- ===== src/Common/Base64.antt =====
-- `atob`, and that it undoes `btoa`.
use Prim.Native.Nat.{ℕ, ◌+◌, ◌-◌, ◌*◌, ◌/◌, ◌%◌, ◌<◌}
use mathlib.Core.Path.{◌≡◌, refl, ap, ◌∙◌}
use mathlib.Core.Logic.{◌≢◌}
use mathlib.Core.Bool.{Bool, false, ◌||◌, ◌&&◌}
use mathlib.Core.Option.{Option, none, some}
use mathlib.Core.List.{List, [], ◌∷◌, ◌++◌}
use native.Mathlib.Omega.{arith}
use shatters.Common.Tests.{leb, ◌==◌, if◌then◌else◌}
use shatters.Common.Strings.{Text}
use shatters.Common.Lists.{All}
use shatters.Common.Encoding.{btoa, sextet}

abbrev is_space : ℕ → Bool
is_space u = u == 9 || (u == 10 || (u == 12 || (u == 13 || u == 32)))

abbrev without_spaces : Text → Text
without_spaces [] = []
without_spaces (u ∷ us) = if is_space u then without_spaces us else u ∷ without_spaces us

-- The six bits of a code unit; `none` outside the alphabet.
abbrev unsextet : ℕ → Option ℕ
unsextet u =
    if leb 65 u && leb u 90
    then some (u - 65)
    else if leb 97 u && leb u 122
    then some (u - 71)
    else if leb 48 u && leb u 57
    then some (u + 4)
    else if u == 43
    then some 62
    else if u == 47
    then some 63
    else none

abbrev and_then : Option ℕ → (ℕ → Option (List ℕ)) → Option (List ℕ)
and_then none f = none
and_then (some n) f = f n

abbrev cons_all : List ℕ → Option (List ℕ) → Option (List ℕ)
cons_all bytes none = none
cons_all bytes (some more) = some (bytes ++ more)

abbrev one_byte : ℕ → ℕ → Option (List ℕ)
one_byte a b = and_then (unsextet a) λ i. and_then (unsextet b) λ j. some ((i * 4 + j / 16) ∷ [])

abbrev two_bytes : ℕ → ℕ → ℕ → Option (List ℕ)
two_bytes a b c = and_then (unsextet a) λ i.
    and_then (unsextet b)
      λ j. and_then (unsextet c) λ k. some ((i * 4 + j / 16) ∷ (j % 16 * 16 + k / 4) ∷ [])

abbrev three_bytes : ℕ → ℕ → ℕ → ℕ → Option (List ℕ)
three_bytes a b c d = and_then (unsextet a) λ i. and_then (unsextet b) λ j.
    and_then (unsextet c) λ k.
      and_then (unsextet d)
        λ l. some ((i * 4 + j / 16) ∷ (j % 16 * 16 + k / 4) ∷ (k % 4 * 64 + l) ∷ [])

abbrev append_results : Option (List ℕ) → Option (List ℕ) → Option (List ℕ)
append_results none more = none
append_results (some bytes) more = cons_all bytes more

-- A last group of four may be padded; a last group of two or three units needs no padding.
atob_groups : Text → Option (List ℕ)
atob_groups [] = some []
atob_groups (a ∷ []) = none
atob_groups (a ∷ b ∷ []) = one_byte a b
atob_groups (a ∷ b ∷ c ∷ []) = two_bytes a b c
atob_groups (a ∷ b ∷ c ∷ d ∷ []) =
    if d == 61 then (if c == 61 then one_byte a b else two_bytes a b c) else three_bytes a b c d
atob_groups (a ∷ b ∷ c ∷ d ∷ e ∷ rest) =
    append_results (three_bytes a b c d) (atob_groups (e ∷ rest))

-- `atob`, as bytes; `none` is the error that it throws on other text.
unfoldable pub atob : Text → Option (List ℕ)
unfolding atob_groups
atob text = atob_groups (without_spaces text)

unsextet-sextet : (n : ℕ) → n < 64 → unsextet (sextet n) ≡ some n
unsextet-sextet n h = ground arith

sextet-not_space : (n : ℕ) → n < 64 → is_space (sextet n) ≡ false
sextet-not_space n h = ground arith

sextet-not_padding : (n : ℕ) → n < 64 → sextet n == 61 ≡ false
sextet-not_padding n h = ground arith

three_bytes-sextet :
    (a b c : ℕ)
    → a < 256
    → b < 256
    → c < 256
    → three_bytes
        (sextet (a / 4))
        (sextet (a % 4 * 16 + b / 16))
        (sextet (b % 16 * 4 + c / 64))
        (sextet (c % 64))
      ≡ some (a ∷ b ∷ c ∷ [])
three_bytes-sextet a b c p q r = rw (unsextet-sextet (a / 4) (omega arith)) (
    rw (unsextet-sextet (a % 4 * 16 + b / 16) (omega arith)) (
      rw (unsextet-sextet (b % 16 * 4 + c / 64) (omega arith))
        (rw (unsextet-sextet (c % 64) (omega arith)) (ground arith))))

two_bytes-sextet :
    (a b : ℕ)
    → a < 256
    → b < 256
    → two_bytes (sextet (a / 4)) (sextet (a % 4 * 16 + b / 16)) (sextet (b % 16 * 4))
      ≡ some (a ∷ b ∷ [])
two_bytes-sextet a b p q = rw (unsextet-sextet (a / 4) (omega arith)) (
    rw (unsextet-sextet (a % 4 * 16 + b / 16) (omega arith))
      (rw (unsextet-sextet (b % 16 * 4) (omega arith)) (ground arith)))

one_byte-sextet :
    (a : ℕ) → a < 256 → one_byte (sextet (a / 4)) (sextet (a % 4 * 16)) ≡ some (a ∷ [])
one_byte-sextet a p =
    rw (unsextet-sextet (a / 4) (omega arith))
      (rw (unsextet-sextet (a % 4 * 16) (omega arith)) (ground arith))

atob_groups-step :
    (a b c d x y z : ℕ) (t : Text) (more : List ℕ)
    → three_bytes a b c d ≡ some (x ∷ y ∷ z ∷ [])
    → d == 61 ≡ false
    → atob_groups t ≡ some more
    → atob_groups (a ∷ b ∷ c ∷ d ∷ t) ≡ some (x ∷ y ∷ z ∷ more)
unfolding atob_groups
atob_groups-step a b c d x y z [] more e n h =
    rw n (e ∙ ap (λ (m : Option (List ℕ)). append_results (some (x ∷ y ∷ z ∷ [])) m) h)
atob_groups-step a b c d x y z (u ∷ t) more e n h = rw e (rw h refl)

atob_groups-btoa : (xs : List ℕ) → All (λ b. b < 256) xs → atob_groups (btoa xs) ≡ some xs
unfolding btoa atob_groups
atob_groups-btoa [] h = refl
atob_groups-btoa (a ∷ []) h = one_byte-sextet a h.0
atob_groups-btoa (a ∷ b ∷ []) h =
    rw (sextet-not_padding (b % 16 * 4) (omega arith)) (two_bytes-sextet a b h.0 h.1.0)
atob_groups-btoa (a ∷ b ∷ c ∷ rest) h =
    atob_groups-step (sextet (a / 4)) (sextet (a % 4 * 16 + b / 16)) (sextet (b % 16 * 4 + c / 64))
      (sextet (c % 64)) a b c (btoa rest) rest (three_bytes-sextet a b c h.0 h.1.0 h.1.1.0)
      (sextet-not_padding (c % 64) (omega arith)) (atob_groups-btoa rest h.1.1.1)

btoa-without_spaces : (xs : List ℕ) → All (λ b. b < 256) xs → without_spaces (btoa xs) ≡ btoa xs
unfolding btoa
btoa-without_spaces [] h = refl
btoa-without_spaces (a ∷ []) h =
    rw (sextet-not_space (a / 4) (omega arith))
      (rw (sextet-not_space (a % 4 * 16) (omega arith)) refl)
btoa-without_spaces (a ∷ b ∷ []) h = rw (sextet-not_space (a / 4) (omega arith)) (
    rw (sextet-not_space (a % 4 * 16 + b / 16) (omega arith))
      (rw (sextet-not_space (b % 16 * 4) (omega arith)) refl))
btoa-without_spaces (a ∷ b ∷ c ∷ rest) h = rw (sextet-not_space (a / 4) (omega arith)) (
    rw (sextet-not_space (a % 4 * 16 + b / 16) (omega arith)) (
      rw (sextet-not_space (b % 16 * 4 + c / 64) (omega arith)) (
        rw (sextet-not_space (c % 64) (omega arith)) (rw (btoa-without_spaces rest h.1.1.1) refl))))

-- `atob` undoes `btoa`, on bytes.
pub atob-btoa : (xs : List ℕ) → All (λ b. b < 256) xs → atob (btoa xs) ≡ some xs
unfolding atob
atob-btoa xs h = rw (btoa-without_spaces xs h) (atob_groups-btoa xs h)

-- Only the empty array has an empty text.
pub btoa-nonempty : (xs : List ℕ) → xs ≢ [] → btoa xs ≢ []
unfolding btoa
btoa-nonempty [] h = absurd (h refl)
btoa-nonempty (a ∷ []) h = λ e. cc
btoa-nonempty (a ∷ b ∷ []) h = λ e. cc
btoa-nonempty (a ∷ b ∷ c ∷ rest) h = λ e. cc

sextet-lt : (n : ℕ) → sextet n < 65536
sextet-lt n = ground arith

-- The text is ASCII.
pub btoa-units : (xs : List ℕ) → All (λ u. u < 65536) (btoa xs)
unfolding btoa
btoa-units [] = tt
btoa-units (a ∷ []) =
    (sextet-lt (a / 4), (sextet-lt (a % 4 * 16), (omega arith, (omega arith, tt))))
btoa-units (a ∷ b ∷ []) = (
  sextet-lt (a / 4),
  (sextet-lt (a % 4 * 16 + b / 16), (sextet-lt (b % 16 * 4), (omega arith, tt))),
)
btoa-units (a ∷ b ∷ c ∷ rest) = (
  sextet-lt (a / 4),
  (
    sextet-lt (a % 4 * 16 + b / 16),
    (sextet-lt (b % 16 * 4 + c / 64), (sextet-lt (c % 64), btoa-units rest)),
  ),
)
