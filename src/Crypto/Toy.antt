-- ===== src/Crypto/Toy.antt =====
-- An instance of the library's parameter for the examples: it has the documented laws and no secrecy.
use shatters.Common.{
  ℕ, ◌+◌, ◌*◌, ◌%◌, ◌≡◌, refl, ◌||◌, Option, none, some, [], ◌∷◌, ◌==◌, if◌then◌else◌, arith,
}
use shatters.Bytes.{Bytes, zeroes}
use shatters.Crypto.{Crypto, IsSound, KeyPair, IsPair, IsSigningPair}

abbrev pub total : Bytes → ℕ
total [] = 0
total (x ∷ xs) = x + total xs

-- 32 bytes that start with the number.
abbrev pub block : ℕ → Bytes
block n = n % 256 ∷ zeroes 31

abbrev pub toy_scalarmult : Bytes → Bytes → Option Bytes
toy_scalarmult a b = if total a == 0 || total b == 0 then none else some (block (total a + total b))

abbrev tag : Bytes → Bytes → Bytes → Bytes → ℕ
tag plaintext ad nonce key = (total plaintext + total ad + total nonce + total key) % 256

abbrev pub toy_decrypt : Bytes → Bytes → Bytes → Bytes → Option Bytes
toy_decrypt [] ad nonce key = none
toy_decrypt (t ∷ plaintext) ad nonce key =
    if t == tag plaintext ad nonce key then some plaintext else none

abbrev pub toy : Crypto
toy = record {
  hmac_sha256 = λ message key. block (3 * total message + total key);
  hash_sha256 = λ message. block (5 * total message);
  scalarmult = toy_scalarmult;
  public_of = λ b. b;
  aead_encrypt = λ plaintext ad nonce key. tag plaintext ad nonce key ∷ plaintext;
  aead_decrypt = toy_decrypt;
  verify_detached =
      λ signature message public_key. some (total signature == total message + total public_key);
  sign_detached = λ message private_key. (total message + total private_key) ∷ [];
  sign_public_of = λ b. b;
}

toy_scalarmult_comm : (a b : Bytes) → toy_scalarmult a b ≡ toy_scalarmult b a
toy_scalarmult_comm a b = ground arith

pub toy-IsSound : IsSound toy
toy-IsSound = record {
  hmac_length = λ message key. refl;
  scalarmult_comm = λ a b. toy_scalarmult_comm a b;
  decrypt_encrypt = λ plaintext ad nonce key. ground arith;
  encrypt_nonempty = λ plaintext ad nonce key e. cc;
  verify_sign = λ message private_key. ground arith;
}

-- A pair whose public half has 32 bytes.
abbrev pub toy_pair : ℕ → KeyPair
toy_pair n = record { public_key = block n; private_key = block n }

pub toy_pair-IsPair : (n : ℕ) → IsPair toy (toy_pair n)
toy_pair-IsPair n = record { public_key = refl; public_length = refl; private_length = refl }

pub toy_pair-IsSigningPair : (n : ℕ) → IsSigningPair toy (toy_pair n)
toy_pair-IsSigningPair n = record { public_key = refl; public_length = refl }
