-- ===== src/Safety.antt =====
-- web/src/lib/crypto/safety.ts: the number that two people compare.
pub mod Numbers
pub mod Examples
use Prim.Native.Nat.{bit_or}
use shatters.Common.{
  ℕ, zero, suc, ◌+◌, ◌-◌, ◌*◌, ◌%◌, ◌^◌, List, [], ◌∷◌, ◌++◌, Text, length, take, drop, ltb,
  if◌then◌else◌, text_lt, ascii, decimal,
}
use shatters.Bytes.{Bytes}
use shatters.Crypto.{Crypto}

abbrev pub safety_domain : Bytes
safety_domain = ascii "shatters-safety-v1"

abbrev pub iterations : ℕ
iterations = 5200

abbrev pub digits_per_key : ℕ
digits_per_key = 30

-- `x << n` as an unsigned number of 32 bits; the language takes the count modulo 32.
abbrev pub shift_left : ℕ → ℕ → ℕ
shift_left x n = x * 2 ^ (n % 32) % 2 ^ 32

-- `digest[i % digest.length]`.
abbrev pub digest_at : Bytes → ℕ → ℕ
digest_at digest i = first (drop (i % length digest) digest)
  where
    first : Bytes → ℕ
    first [] = 0
    first (b ∷ _) = b

unfoldable pub chunk_at : Bytes → ℕ → ℕ
chunk_at digest i =
    bit_or
      (bit_or
        (bit_or
          (bit_or (shift_left (digest_at digest i) 32) (shift_left (digest_at digest (i + 1)) 24))
          (shift_left (digest_at digest (i + 2)) 16))
        (shift_left (digest_at digest (i + 3)) 8))
      (digest_at digest (i + 4))
    % 2 ^ 32

abbrev pub repeat_zero : ℕ → Text
repeat_zero zero = []
repeat_zero (suc n) = 48 ∷ repeat_zero n

-- `text.padStart(5, "0")`.
unfoldable pub pad_start : Text → Text
pad_start text = repeat_zero (5 - length text) ++ text

unfoldable pub chunk_digits : Bytes → ℕ → Text
chunk_digits digest i = pad_start (decimal (chunk_at digest i % 100000))

-- `for (let i = 0; out.length < DIGITS_PER_KEY; i += 5)`, on fuel.
unfoldable pub digits_loop : ℕ → Bytes → ℕ → Text → Text
digits_loop zero digest i out = out
digits_loop (suc fuel) digest i out =
    let rest = digits_loop fuel digest (i + 5) (out ++ chunk_digits digest i) in
    if ltb (length out) digits_per_key then rest else out

module _ (c : Crypto) where
  -- The loop over the iterations left.
  unfoldable pub hash_loop : ℕ → (identity_key digest : Bytes) → Bytes
  hash_loop zero identity_key digest = digest
  hash_loop (suc n) identity_key digest =
      hash_loop n identity_key (c.hash_sha256 (digest ++ identity_key))

  -- Six rounds fill the 30 digits.
  unfoldable pub fingerprint : Bytes → Text
  fingerprint identity_key = take digits_per_key (
      digits_loop 6
        (hash_loop (iterations - 1) identity_key (c.hash_sha256 (safety_domain ++ identity_key))) 0
        [])

  unfoldable pub safety_number : (own_identity_key peer_identity_key : Bytes) → Text
  safety_number own_identity_key peer_identity_key =
      let a = fingerprint own_identity_key in
      let b = fingerprint peer_identity_key in if text_lt a b then a ++ b else b ++ a

-- `digits.slice(i, i + 5)` over the text that is left, joined by blanks; on fuel.
unfoldable pub group_loop : ℕ → Text → Text
group_loop zero digits = []
group_loop (suc fuel) [] = []
group_loop (suc fuel) (d ∷ ds) =
    join (take 5 (d ∷ ds)) (drop 5 (d ∷ ds)) (group_loop fuel (drop 5 (d ∷ ds)))
  where
    join : Text → Text → Text → Text
    join group [] more = group
    join group (_ ∷ _) more = group ++ 32 ∷ more

unfoldable pub format_safety_number : Text → Text
format_safety_number digits = group_loop (length digits) digits
