-- ===== src/Crypto.antt =====
-- What the client calls of libsodium (the package libsodium-wrappers-sumo), as a parameter: the
-- functions that web/src/lib/crypto/kdf.ts, ratchet.ts and x3dh.ts use, and their documented laws.
pub mod Toy
pub mod Labelled
use shatters.Common.{ℕ, ◌≡◌, ◌≢◌, [], Bool, true, Option, none, some, length}
use shatters.Bytes.{Bytes}

-- `KeyPair` of web/src/lib/crypto/identity.ts, without the label of its type.
pub record KeyPair : Type 0 where
  pub public_key : Bytes
  pub private_key : Bytes

-- `none` is a thrown error: `crypto_scalarmult` refuses a weak public key, and the decryption
-- refuses what does not authenticate.
pub record Crypto : Type 0 where
  -- `crypto_auth_hmacsha256(message, key)`.
  pub hmac_sha256 : Bytes → Bytes → Bytes
  -- `crypto_hash_sha256(message)`.
  pub hash_sha256 : Bytes → Bytes
  -- `crypto_scalarmult(private_key, public_key)`.
  pub scalarmult : Bytes → Bytes → Option Bytes
  -- `crypto_scalarmult_base(private_key)`, the public half of a key pair.
  pub public_of : Bytes → Bytes
  -- `crypto_aead_xchacha20poly1305_ietf_encrypt(plaintext, ad, null, nonce, key)`.
  pub aead_encrypt : (plaintext ad nonce key : Bytes) → Bytes
  -- `crypto_aead_xchacha20poly1305_ietf_decrypt(null, ciphertext, ad, nonce, key)`.
  pub aead_decrypt : (ciphertext ad nonce key : Bytes) → Option Bytes
  -- `crypto_sign_verify_detached(signature, message, public_key)`.
  -- `none` where it throws, for an argument of a length that it does not take.
  pub verify_detached : (signature message public_key : Bytes) → Option Bool
  -- `crypto_sign_detached(message, private_key)`.
  pub sign_detached : (message private_key : Bytes) → Bytes
  -- The public half of a signing key pair of `crypto_sign_keypair`.
  pub sign_public_of : Bytes → Bytes

-- What the documentation promises: sizes, Diffie-Hellman, and that what was encrypted decrypts.
pub record IsSound (c : Crypto) : Type 0 where
  pub hmac_length : (message key : Bytes) → length (c.hmac_sha256 message key) ≡ 32
  pub scalarmult_comm :
      (a b : Bytes) → c.scalarmult a (c.public_of b) ≡ c.scalarmult b (c.public_of a)
  pub decrypt_encrypt :
      (plaintext ad nonce key : Bytes)
      → c.aead_decrypt (c.aead_encrypt plaintext ad nonce key) ad nonce key ≡ some plaintext
  -- A ciphertext carries a tag.
  pub encrypt_nonempty :
      (plaintext ad nonce key : Bytes) → c.aead_encrypt plaintext ad nonce key ≢ []
  pub verify_sign :
      (message private_key : Bytes)
      → c.verify_detached
          (c.sign_detached message private_key)
          message
          (c.sign_public_of private_key)
        ≡ some true

-- A key pair as `crypto_kx_keypair` makes it.
pub record IsPair (c : Crypto) (pair : KeyPair) : Type 0 where
  pub public_key : pair.public_key ≡ c.public_of pair.private_key
  pub public_length : length pair.public_key ≡ 32
  pub private_length : length pair.private_key ≡ 32

-- A key pair as `crypto_sign_keypair` makes it.
pub record IsSigningPair (c : Crypto) (pair : KeyPair) : Type 0 where
  pub public_key : pair.public_key ≡ c.sign_public_of pair.private_key
  pub public_length : length pair.public_key ≡ 32
