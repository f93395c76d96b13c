-- ===== src/Bytes.antt =====
-- Byte arrays of the language: a `Uint8Array` is a list of numbers, each below 256 where `IsBytes`
-- says so; `slice` copies a range and the big-endian accessors are those of `DataView`.
use shatters.Common.{
  ℕ, zero, suc, ◌+◌, ◌-◌, ◌*◌, ◌/◌, ◌%◌, ◌^◌, ◌<◌, ◌≡◌, List, [], ◌∷◌, ◌++◌, All, arith, take, drop,
  length,
}

abbrev pub Bytes : Type 0
Bytes = List ℕ

abbrev pub IsBytes : Bytes → Type 0
IsBytes = All (λ b. b < 256)

-- `view.setUint32(offset, n, false)`, the four bytes that it writes.
abbrev pub set_u32 : ℕ → Bytes
set_u32 n = (n / 2 ^ 24 % 256) ∷ (n / 2 ^ 16 % 256) ∷ (n / 2 ^ 8 % 256) ∷ (n % 256) ∷ []

-- `view.getUint32(offset, false)` over the bytes from that offset.
abbrev pub get_u32 : Bytes → ℕ
get_u32 (a ∷ b ∷ c ∷ d ∷ _) = a * 2 ^ 24 + b * 2 ^ 16 + c * 2 ^ 8 + d
get_u32 _ = 0

-- `bytes.slice(from, to)` for `from <= to`.
abbrev pub slice : Bytes → ℕ → ℕ → Bytes
slice xs from to = take (to - from) (drop from xs)

-- `new Uint8Array(n)`.
abbrev pub zeroes : ℕ → Bytes
zeroes zero = []
zeroes (suc n) = 0 ∷ zeroes n

pub get_u32-set_u32 : (n : ℕ) (rest : Bytes) → n < 2 ^ 32 → get_u32 (set_u32 n ++ rest) ≡ n
get_u32-set_u32 n rest h = omega arith

pub set_u32-get_u32 :
    (a b c d : ℕ) (rest : Bytes)
    → a < 256
    → b < 256
    → c < 256
    → d < 256
    → set_u32 (get_u32 (a ∷ b ∷ c ∷ d ∷ rest)) ≡ a ∷ b ∷ c ∷ d ∷ []
set_u32-get_u32 a b c d rest p q r s = ground arith

pub get_u32-lt :
    (a b c d : ℕ) (rest : Bytes)
    → a < 256
    → b < 256
    → c < 256
    → d < 256
    → get_u32 (a ∷ b ∷ c ∷ d ∷ rest) < 2 ^ 32
get_u32-lt a b c d rest p q r s = omega arith

pub set_u32-IsBytes : (n : ℕ) → IsBytes (set_u32 n)
set_u32-IsBytes n = omega arith

pub length-zeroes : (n : ℕ) → length (zeroes n) ≡ n
length-zeroes zero = omega arith
length-zeroes (suc n) = omega (arith, length-zeroes n)
