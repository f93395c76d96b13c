-- ===== src/Identity.antt =====
-- web/src/lib/crypto/identity.ts: the two key pairs of a device, and what it signs. `sodium()` only
-- loads the library, and what it makes of keys is an argument.
pub mod Domains
pub mod Examples
use shatters.Common.{ℕ, Bool, Option, List, [], ◌∷◌, ◌++◌, Text, ascii, ◌==◌, if◌then◌else◌, btoa}
use shatters.Bytes.{Bytes, set_u32}
use shatters.Crypto.{Crypto, KeyPair}

pub record Identity : Type 0 where
  pub signing : KeyPair
  pub dh : KeyPair

pub record SignedPrekey : Type 0 where
  pub id : ℕ
  pub public_key : Bytes
  pub signature : Bytes

-- `generateIdentity`, of the pairs that `crypto_sign_keypair` and `crypto_kx_keypair` return.
unfoldable pub generate_identity : (signing dh : KeyPair) → Identity
generate_identity signing dh = record { signing = signing; dh = dh }

abbrev pub account_domain : Bytes
account_domain = ascii "shatters-account-v1"

abbrev pub signed_prekey_domain : Bytes
signed_prekey_domain = ascii "shatters-spk-v1"

abbrev pub auth_domain : Bytes
auth_domain = ascii "shatters-auth-v1"

abbrev pub identity_dh_domain : Bytes
identity_dh_domain = ascii "shatters-idk-v1"

-- The replacement of "+" by "-" and of "/" by "_".
abbrev pub url_unit : ℕ → ℕ
url_unit u = if u == 43 then 45 else if u == 47 then 95 else u

unfoldable pub with_url_units : Text → Text
with_url_units [] = []
with_url_units (u ∷ us) = url_unit u ∷ with_url_units us

-- A "=" that only such units follow is left out.
abbrev pub unless_padding : ℕ → Text → Text
unless_padding u [] = if u == 61 then [] else u ∷ []
unless_padding u (v ∷ vs) = u ∷ v ∷ vs

-- `replace(/=+$/, "")`.
unfoldable pub without_padding : Text → Text
without_padding [] = []
without_padding (u ∷ us) = unless_padding u (without_padding us)

unfoldable pub to_base64_url : Bytes → Text
to_base64_url bytes = without_padding (with_url_units (btoa bytes))

unfoldable pub auth_proof_message : Bytes → Bytes
auth_proof_message nonce = auth_domain ++ nonce

unfoldable pub identity_dh_message : Bytes → Bytes
identity_dh_message dh_public_key = identity_dh_domain ++ dh_public_key

unfoldable pub signed_prekey_message : Bytes → ℕ → Bytes
signed_prekey_message public_key id = signed_prekey_domain ++ (public_key ++ set_u32 id)

module _ (c : Crypto) where
  unfoldable pub account_id : (identity_public_key : Bytes) → Text
  account_id identity_public_key =
      to_base64_url (c.hash_sha256 (account_domain ++ identity_public_key))

  unfoldable pub create_auth_proof : (signing_private_key nonce : Bytes) → Bytes
  create_auth_proof signing_private_key nonce =
      c.sign_detached (auth_proof_message nonce) signing_private_key

  unfoldable pub sign_identity_dh_key : Identity → Bytes
  sign_identity_dh_key identity =
      c.sign_detached (identity_dh_message identity.dh.public_key) identity.signing.private_key

  -- `none` is a thrown error.
  unfoldable pub verify_identity_dh_key : (identity_key dh_key signature : Bytes) → Option Bool
  verify_identity_dh_key identity_key dh_key signature =
      c.verify_detached signature (identity_dh_message dh_key) identity_key

  -- `spk` is what `crypto_kx_keypair` returns.
  unfoldable pub create_signed_prekey :
      (signing_private_key : Bytes) → ℕ → (spk : KeyPair) → SignedPrekey
  create_signed_prekey signing_private_key id spk = record {
    id = id;
    public_key = spk.public_key;
    signature = c.sign_detached (signed_prekey_message spk.public_key id) signing_private_key;
  }

  unfoldable pub verify_signed_prekey : (identity_key : Bytes) → SignedPrekey → Option Bool
  verify_signed_prekey identity_key prekey =
      c.verify_detached prekey.signature (signed_prekey_message prekey.public_key prekey.id)
        identity_key
