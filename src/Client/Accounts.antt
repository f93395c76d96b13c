-- ===== src/Client/Accounts.antt =====
-- web/src/lib/crypto/identity.ts, `accountId`, and web/src/lib/client/format.ts, `normalizeAccountId`.
use shatters.Common.{
  ℕ, ◌+◌, ◌-◌, ◌*◌, ◌/◌, ◌%◌, ◌<◌, ◌≡◌, refl, ap, ap₂, sym, ◌∙◌, true, false, some, [], ◌∷◌, ◌++◌,
  Text, if◌then◌else◌, leb, ◌&&◌, ◌==◌, length, All, sextet, btoa, arith,
}
use shatters.Bytes.{Bytes}
use shatters.Crypto.{Crypto}
use shatters.Identity.{
  url_unit, with_url_units, unless_padding, without_padding, to_base64_url, account_domain,
  account_id,
}
use shatters.Client.Format.{are_id_units, is_id_unit, normalize_account_id, format_account_id}
use shatters.Client.AccountIds.{normalize_account_id_iff, without_spaces-are_id_units}

-- The unit of six bits.
abbrev url_sextet : ℕ → ℕ
url_sextet n = url_unit (sextet n)

-- The text of bytes, three at a time.
abbrev url_text : Bytes → Text
url_text [] = []
url_text (a ∷ []) = url_sextet (a / 4) ∷ url_sextet (a % 4 * 16) ∷ []
url_text (a ∷ b ∷ []) =
    url_sextet (a / 4) ∷ url_sextet (a % 4 * 16 + b / 16) ∷ url_sextet (b % 16 * 4) ∷ []
url_text (a ∷ b ∷ c ∷ rest) =
    url_sextet (a / 4)
    ∷ url_sextet (a % 4 * 16 + b / 16)
    ∷ url_sextet (b % 16 * 4 + c / 64)
    ∷ url_sextet (c % 64)
    ∷ url_text rest

url_sextet-not_padding : (n : ℕ) → n < 64 → url_sextet n == 61 ≡ false
url_sextet-not_padding n h = ground arith

url_sextet-is_id_unit : (n : ℕ) → n < 64 → is_id_unit (url_sextet n) ≡ true
url_sextet-is_id_unit n h = ground arith

url_sextet-injective : (m n : ℕ) → m < 64 → n < 64 → url_sextet m ≡ url_sextet n → m ≡ n
url_sextet-injective m n h k e = ground arith

unless_padding-kept :
    (n : ℕ) (t : Text) → n < 64 → unless_padding (url_sextet n) t ≡ url_sextet n ∷ t
unless_padding-kept n [] h = rw (url_sextet-not_padding n h) refl
unless_padding-kept n (u ∷ us) h = refl

to_base64_url-url_text :
    (bytes : Bytes) → All (λ b. b < 256) bytes → to_base64_url bytes ≡ url_text bytes
unfolding to_base64_url with_url_units without_padding btoa
to_base64_url-url_text [] h = refl
to_base64_url-url_text (a ∷ []) h =
    ap (unless_padding (url_sextet (a / 4))) (unless_padding-kept (a % 4 * 16) [] (omega arith))
to_base64_url-url_text (a ∷ b ∷ []) h =
    ap
      (λ t.
        unless_padding (url_sextet (a / 4)) (unless_padding (url_sextet (a % 4 * 16 + b / 16)) t))
      (unless_padding-kept (b % 16 * 4) [] (omega arith))
to_base64_url-url_text (a ∷ b ∷ c ∷ rest) h =
    ap
      (λ t. unless_padding (url_sextet (a / 4)) (
        unless_padding (url_sextet (a % 4 * 16 + b / 16)) (
          unless_padding (url_sextet (b % 16 * 4 + c / 64))
            (unless_padding (url_sextet (c % 64)) t))))
      (to_base64_url-url_text rest h.1.1.1)
    ∙ ap
        (λ t. unless_padding (url_sextet (a / 4)) (
          unless_padding (url_sextet (a % 4 * 16 + b / 16))
            (unless_padding (url_sextet (b % 16 * 4 + c / 64)) t)))
        (unless_padding-kept (c % 64) (url_text rest) (omega arith))

are_id_units-url_text :
    (bytes : Bytes) → All (λ b. b < 256) bytes → are_id_units (url_text bytes) ≡ true
unfolding are_id_units
are_id_units-url_text [] h = refl
are_id_units-url_text (a ∷ []) h =
    rw
      (
        url_sextet-is_id_unit (a / 4) (omega arith),
        url_sextet-is_id_unit (a % 4 * 16) (omega arith),
      )
      refl
are_id_units-url_text (a ∷ b ∷ []) h =
    rw
      (
        url_sextet-is_id_unit (a / 4) (omega arith),
        url_sextet-is_id_unit (a % 4 * 16 + b / 16) (omega arith),
        url_sextet-is_id_unit (b % 16 * 4) (omega arith),
      )
      refl
are_id_units-url_text (a ∷ b ∷ c ∷ rest) h =
    rw
      (
        url_sextet-is_id_unit (a / 4) (omega arith),
        url_sextet-is_id_unit (a % 4 * 16 + b / 16) (omega arith),
        url_sextet-is_id_unit (b % 16 * 4 + c / 64) (omega arith),
        url_sextet-is_id_unit (c % 64) (omega arith),
      )
      (are_id_units-url_text rest h.1.1.1)

-- Four units for three bytes, and one more than the bytes that are left.
length-url_text : (bytes : Bytes) → length (url_text bytes) ≡ (4 * length bytes + 2) / 3
length-url_text [] = refl
length-url_text (a ∷ []) = refl
length-url_text (a ∷ b ∷ []) = refl
length-url_text (a ∷ b ∷ c ∷ rest) = omega (arith, length-url_text rest)

-- The six bits of a unit.
abbrev bits : ℕ → ℕ
bits u =
    if leb 65 u && leb u 90
    then u - 65
    else if leb 97 u && leb u 122
    then u - 71
    else if leb 48 u && leb u 57
    then u + 4
    else if u == 45
    then 62
    else 63

bits-url_sextet : (n : ℕ) → n < 64 → bits (url_sextet n) ≡ n
bits-url_sextet n h = ground arith

-- The bytes of a text of `url_text`.
abbrev bytes_of : Text → Bytes
bytes_of [] = []
bytes_of (s ∷ []) = []
bytes_of (s ∷ t ∷ []) = (bits s * 4 + bits t / 16) ∷ []
bytes_of (s ∷ t ∷ u ∷ []) = (bits s * 4 + bits t / 16) ∷ (bits t % 16 * 16 + bits u / 4) ∷ []
bytes_of (s ∷ t ∷ u ∷ v ∷ rest) =
    (bits s * 4 + bits t / 16)
    ∷ (bits t % 16 * 16 + bits u / 4)
    ∷ (bits u % 4 * 64 + bits v)
    ∷ bytes_of rest

bytes_of-url_text : (xs : Bytes) → All (λ b. b < 256) xs → bytes_of (url_text xs) ≡ xs
bytes_of-url_text [] h = refl
bytes_of-url_text (a ∷ []) h =
    ap (λ n. n ∷ [])
      (omega
        (arith, bits-url_sextet (a / 4) (omega arith), bits-url_sextet (a % 4 * 16) (omega arith)))
bytes_of-url_text (a ∷ b ∷ []) h =
    rw
      (
        bits-url_sextet (a / 4) (omega arith),
        bits-url_sextet (a % 4 * 16 + b / 16) (omega arith),
        bits-url_sextet (b % 16 * 4) (omega arith),
      )
      (ap₂ (λ x y. x ∷ y ∷ []) (omega arith) (omega arith))
bytes_of-url_text (a ∷ b ∷ c ∷ rest) h =
    rw
      (
        bits-url_sextet (a / 4) (omega arith),
        bits-url_sextet (a % 4 * 16 + b / 16) (omega arith),
        bits-url_sextet (b % 16 * 4 + c / 64) (omega arith),
        bits-url_sextet (c % 64) (omega arith),
        bytes_of-url_text rest h.1.1.1,
      )
      (ap₂ (λ x t. x ∷ t) (omega arith) (ap₂ (λ y z. y ∷ z ∷ rest) (omega arith) (omega arith)))

-- What SHA-256 gives.
abbrev pub IsDigest : Bytes → Type 0
IsDigest digest = (length digest ≡ 32) × All (λ b. b < 256) digest

account_id-url_text :
    (c : Crypto) (key : Bytes)
    → All (λ b. b < 256) (c.hash_sha256 (account_domain ++ key))
    → account_id c key ≡ url_text (c.hash_sha256 (account_domain ++ key))
unfolding account_id
account_id-url_text c key h = to_base64_url-url_text (c.hash_sha256 (account_domain ++ key)) h

-- While SHA-256 gives 32 bytes, the account id of any key is accepted by `normalizeAccountId` as it is, and
-- as `formatAccountId` shows it in groups of any positive size; and keys with the same account id
-- have the same digest under the domain of accounts.
pub normalize_account_id-account_id :
    (c : Crypto) (key other : Bytes)
    → ((message : Bytes) → IsDigest (c.hash_sha256 message))
    → (normalize_account_id (account_id c key) ≡ some (account_id c key))
      × ((group_size : ℕ)
          → 0 < group_size
          → normalize_account_id (format_account_id (account_id c key) group_size)
            ≡ some (account_id c key))
      × (account_id c key ≡ account_id c other
          → c.hash_sha256 (account_domain ++ key) ≡ c.hash_sha256 (account_domain ++ other))
normalize_account_id-account_id c key other digests =
    let (size, bytes) = digests (account_domain ++ key) in
    let digest = c.hash_sha256 (account_domain ++ key) in
    let id = account_id-url_text c key bytes in
    let long : length (account_id c key) ≡ 43 =
      ap length id ∙ omega (arith, length-url_text digest, size) in
    let units : are_id_units (account_id c key) ≡ true =
      ap are_id_units id ∙ are_id_units-url_text digest bytes in
    let accepted = normalize_account_id_iff (account_id c key) (account_id c key) in
    (
      accepted.0.1 (without_spaces-are_id_units (account_id c key) units, long, units),
      λ group_size positive. accepted.1 group_size positive long units,
      λ e.
          sym (bytes_of-url_text digest bytes)
          ∙ ap bytes_of
              (sym id ∙ e ∙ account_id-url_text c other (digests (account_domain ++ other)).1)
          ∙ bytes_of-url_text (c.hash_sha256 (account_domain ++ other))
              (digests (account_domain ++ other)).1,
    )
