-- ===== src/X3dh.antt =====
-- web/src/lib/crypto/x3dh.ts: both halves of the handshake.
pub mod Agreement
pub mod Refusals
pub mod Examples
use shatters.Common.{
  Outcome, err, ok, pure, ◌>>=◌, ◌>>◌, ℕ, zero, suc, Bool, true, false, not, Option, none, some,
  List, [], ◌∷◌, ◌++◌, length, ascii, ◌==◌, if◌then◌else◌, is_some,
}
use shatters.Bytes.{Bytes, zeroes}
use shatters.Message.{InitialMessageHeader}
use shatters.Crypto.{Crypto, KeyPair}
use shatters.Kdf.{KdfError, hkdf_sha256, hash_length}
use shatters.Kdf
use shatters.Identity.{Identity, SignedPrekey, verify_signed_prekey, verify_identity_dh_key}

abbrev pub x3dh_domain : Bytes
x3dh_domain = ascii "shatters-x3dh-v1"

abbrev pub key_length : ℕ
key_length = 32

pub record OneTimePrekey : Type 0 where
  pub id : ℕ
  pub public_key : Bytes

pub record PrekeyBundle : Type 0 where
  pub identity_key : Bytes
  pub identity_dh_key : Bytes
  pub identity_dh_signature : Bytes
  pub signed_prekey : SignedPrekey
  pub one_time_prekey : Option OneTimePrekey

pub record InitiatorSession : Type 0 where
  pub shared_secret : Bytes
  pub header : InitialMessageHeader
  pub associated_data : Bytes

pub record ResponderSession : Type 0 where
  pub shared_secret : Bytes
  pub associated_data : Bytes

pub record ResponderPrekeys : Type 0 where
  pub signed_prekey_private : Bytes
  pub one_time_prekey_private : Option Bytes

-- The keys that `assertKey` names in its message.
pub data KeyName : Type 0 where
  bundle_identity_key bundle_identity_dh_key bundle_signed_prekey bundle_one_time_prekey : KeyName
  header_identity_key header_identity_dh_key header_ephemeral_key : KeyName
  signed_prekey_private one_time_prekey_private : KeyName

-- The messages of an `X3DHError`, and the errors of the functions below.
pub data X3dhError : Type 0 where
  wrong_length : KeyName → ℕ → X3dhError
  signed_prekey_signature identity_dh_signature one_time_prekey_mismatch : X3dhError
  refused_signature weak_public_key : X3dhError
  kdf : KdfError → X3dhError

abbrev pub Result {ℓ} : Type ℓ → Type ℓ
Result A = Outcome X3dhError A

unfoldable pub assert_key : KeyName → Bytes → Result (Unit {0})
assert_key name key =
    if length key == key_length then ok tt else err (wrong_length name (length key))

unfoldable pub assert_optional_key : KeyName → Option Bytes → Result (Unit {0})
assert_optional_key name none = ok tt
assert_optional_key name (some key) = assert_key name key

-- `associatedData`.
unfoldable pub associated_data_of : (initiator_identity_key responder_identity_key : Bytes) → Bytes
associated_data_of initiator_identity_key responder_identity_key =
    initiator_identity_key ++ responder_identity_key

-- `new Uint8Array(n).fill(0xff)`.
abbrev pub filled : ℕ → Bytes
filled zero = []
filled (suc n) = 255 ∷ filled n

abbrev pub concat : List Bytes → Bytes
concat [] = []
concat (dh ∷ dhs) = dh ++ concat dhs

abbrev pub or_kdf : Kdf.Result → Result Bytes
or_kdf (ok out) = ok out
or_kdf (err e) = err (kdf e)

abbrev pub or_weak : Option Bytes → Result Bytes
or_weak none = err weak_public_key
or_weak (some dh) = ok dh

-- `if (!(await verify...)) throw`; the verification itself throws on a malformed argument.
abbrev pub require_verified : X3dhError → Option Bool → Result (Unit {0})
require_verified e none = err refused_signature
require_verified e (some true) = ok tt
require_verified e (some false) = err e

abbrev pub public_key_of : OneTimePrekey → Bytes
public_key_of prekey = prekey.public_key

abbrev pub id_of : OneTimePrekey → ℕ
id_of prekey = prekey.id

abbrev pub optional {ℓ} : {A B : Type ℓ} → (A → B) → Option A → Option B
optional f none = none
optional f (some a) = some (f a)

-- `!==` of two tests.
abbrev pub differ : Bool → Bool → Bool
differ true b = not b
differ false b = b

module _ (c : Crypto) where
  -- Each Diffie-Hellman output has its 32 bytes, so the outputs in a row are the buffer.
  unfoldable pub derive_secret : List Bytes → Result Bytes
  derive_secret dhs =
      or_kdf (
        hkdf_sha256 c (filled key_length ++ concat dhs) (zeroes hash_length) x3dh_domain key_length)

  abbrev pub dh : (private_key public_key : Bytes) → Result Bytes
  dh private_key public_key = or_weak (c.scalarmult private_key public_key)

  -- The fourth output, where there is a one-time prekey.
  unfoldable pub dh_by_private : (private_key : Bytes) → Option Bytes → Result (List Bytes)
  dh_by_private private_key none = ok []
  dh_by_private private_key (some public_key) = do dh4 ← dh private_key public_key; pure (dh4 ∷ [])

  unfoldable pub dh_by_public : Option Bytes → (public_key : Bytes) → Result (List Bytes)
  dh_by_public none public_key = ok []
  dh_by_public (some private_key) public_key = do dh4 ← dh private_key public_key; pure (dh4 ∷ [])

  unfoldable pub check_bundle : PrekeyBundle → Result (Unit {0})
  check_bundle bundle = do
    assert_key bundle_identity_key bundle.identity_key
    assert_key bundle_identity_dh_key bundle.identity_dh_key
    assert_key bundle_signed_prekey bundle.signed_prekey.public_key
    assert_optional_key bundle_one_time_prekey (optional public_key_of bundle.one_time_prekey)
    require_verified signed_prekey_signature
        (verify_signed_prekey c bundle.identity_key bundle.signed_prekey)
    require_verified identity_dh_signature (
        verify_identity_dh_key c bundle.identity_key bundle.identity_dh_key
          bundle.identity_dh_signature)

  -- `ephemeral` is what `crypto_kx_keypair` returns.
  unfoldable pub initiate_x3dh :
      Identity → PrekeyBundle → (ephemeral : KeyPair) → Result InitiatorSession
  initiate_x3dh our_identity bundle ephemeral = do
    check_bundle bundle
    dh1 ← dh our_identity.dh.private_key bundle.signed_prekey.public_key
    dh2 ← dh ephemeral.private_key bundle.identity_dh_key
    dh3 ← dh ephemeral.private_key bundle.signed_prekey.public_key
    dh4 ← dh_by_private ephemeral.private_key (optional public_key_of bundle.one_time_prekey)
    secret ← derive_secret (dh1 ∷ dh2 ∷ dh3 ∷ dh4)
    pure (record {
      shared_secret = secret;
      header = record {
        identity_key = our_identity.signing.public_key;
        identity_dh_key = our_identity.dh.public_key;
        ephemeral_key = ephemeral.public_key;
        signed_prekey_id = bundle.signed_prekey.id;
        one_time_prekey_id = optional id_of bundle.one_time_prekey;
      };
      associated_data = associated_data_of our_identity.signing.public_key bundle.identity_key;
    })

  unfoldable pub check_header : ResponderPrekeys → InitialMessageHeader → Result (Unit {0})
  check_header prekeys header = do
    assert_key header_identity_key header.identity_key
    assert_key header_identity_dh_key header.identity_dh_key
    assert_key header_ephemeral_key header.ephemeral_key
    assert_key signed_prekey_private prekeys.signed_prekey_private
    if differ (is_some header.one_time_prekey_id) (is_some prekeys.one_time_prekey_private)
        then err one_time_prekey_mismatch
        else assert_optional_key one_time_prekey_private prekeys.one_time_prekey_private

  unfoldable pub respond_x3dh :
      Identity → ResponderPrekeys → InitialMessageHeader → Result ResponderSession
  respond_x3dh our_identity prekeys header = do
    check_header prekeys header
    dh1 ← dh prekeys.signed_prekey_private header.identity_dh_key
    dh2 ← dh our_identity.dh.private_key header.ephemeral_key
    dh3 ← dh prekeys.signed_prekey_private header.ephemeral_key
    dh4 ← dh_by_public prekeys.one_time_prekey_private header.ephemeral_key
    secret ← derive_secret (dh1 ∷ dh2 ∷ dh3 ∷ dh4)
    pure (record {
      shared_secret = secret;
      associated_data = associated_data_of header.identity_key our_identity.signing.public_key;
    })
