-- ===== src/Ratchet/State.antt =====
-- web/src/lib/crypto/ratchet.ts: the session state, the key derivations, and the start of a session.
-- Wiping a key (`memzero`) has no counterpart: a wiped array is always replaced or dropped.
use shatters.Common.{
  Outcome, err, ok, ℕ, not, Option, none, some, List, [], ◌∷◌, ◌++◌, Text, length, take, drop, ◌==◌,
  if◌then◌else◌, ascii, btoa, decimal,
}
use shatters.Bytes.{Bytes, set_u32, zeroes}
use shatters.Message.{MessageHeader}
use shatters.Crypto.{Crypto, KeyPair}
use shatters.Kdf.{KdfError, hkdf_sha256, hash_length}
use shatters.Kdf

abbrev pub root_domain : Bytes
root_domain = ascii "shatters-ratchet-root-v1"

abbrev pub message_domain : Bytes
message_domain = ascii "shatters-msg-v1"

abbrev pub key_length : ℕ
key_length = 32

abbrev pub nonce_length : ℕ
nonce_length = 24

abbrev pub max_skipped_keys : ℕ
max_skipped_keys = 2000

abbrev pub max_skip_chains : ℕ
max_skip_chains = 64

-- The messages that a `RatchetError` is thrown with, and the errors of the functions below.
pub data RatchetError : Type 0 where
  shared_secret_length signed_prekey_length no_sending_chain authentication_failed : RatchetError
  too_many_skipped malformed_ratchet_key no_receiving_chain weak_public_key : RatchetError
  kdf : KdfError → RatchetError

abbrev pub Result {ℓ} : Type ℓ → Type ℓ
Result A = Outcome RatchetError A

pub record SessionState : Type 0 where
  pub root_key : Bytes
  pub our_ratchet_key : KeyPair
  pub their_ratchet_key : Option Bytes
  pub sending_chain_key : Option Bytes
  pub receiving_chain_key : Option Bytes
  pub send_count : ℕ
  pub receive_count : ℕ
  pub previous_chain_length : ℕ
  pub skipped_keys : List (Text × Bytes)
  pub associated_data : Bytes

-- A function that mutates the state that it is given; what it changed before it throws stays changed.
abbrev pub M : Type 0 → Type 0
M A = SessionState → Result A × SessionState

abbrev pub bind_result :
    {A B : Type 0} → Result A × SessionState → (A → M B) → Result B × SessionState
bind_result (ok a, s) f = f a s
bind_result (err e, s) f = (err e, s)

infixl 5 ◌>>=◌ ◌>>◌
abbrev pub ◌>>=◌ : {A B : Type 0} → M A → (A → M B) → M B
◌>>=◌ m f s = bind_result (m s) f

abbrev pub ◌>>◌ : {B : Type 0} → M (Unit {0}) → M B → M B
m >> k = m >>= λ _. k

abbrev pub pure : {A : Type 0} → A → M A
pure a s = (ok a, s)

abbrev pub throw : {A : Type 0} → RatchetError → M A
throw e s = (err e, s)

abbrev pub lift : {A : Type 0} → Result A → M A
lift r s = (r, s)

abbrev pub gets : {A : Type 0} → (SessionState → A) → M A
gets f s = (ok (f s), s)

abbrev pub modify : (SessionState → SessionState) → M (Unit {0})
modify f s = (ok tt, f s)

abbrev pub from_kdf : {A : Type 0} → Kdf.Result → (Bytes → A) → Result A
from_kdf (ok out) f = ok (f out)
from_kdf (err e) f = err (kdf e)

abbrev pub or_weak : Option Bytes → Result Bytes
or_weak none = err weak_public_key
or_weak (some dh) = ok dh

-- A root key with the chain key that was derived beside it.
pub record RootStep : Type 0 where
  pub root_key : Bytes
  pub chain_key : Bytes

pub record ChainStep : Type 0 where
  pub chain_key : Bytes
  pub message_key : Bytes

pub record KeyMaterial : Type 0 where
  pub key : Bytes
  pub nonce : Bytes

module _ (c : Crypto) where
  unfoldable pub advance_root_key : (root_key dh_output : Bytes) → Result RootStep
  advance_root_key root_key dh_output =
      from_kdf (hkdf_sha256 c dh_output root_key root_domain 64) λ derived. record {
        root_key = take key_length derived;
        chain_key = drop key_length derived;
      }

  unfoldable pub advance_chain_key : Bytes → ChainStep
  advance_chain_key chain_key = record {
    message_key = c.hmac_sha256 (1 ∷ []) chain_key;
    chain_key = c.hmac_sha256 (2 ∷ []) chain_key;
  }

  unfoldable pub message_key_material : Bytes → Result KeyMaterial
  message_key_material message_key =
      from_kdf (hkdf_sha256 c message_key (zeroes hash_length) message_domain 56)
        λ material. record { key = take key_length material; nonce = drop key_length material }

-- `out.set(dhPublicKey)` into 40 zeroes, over whose end the two counters are written. The key has 32
-- bytes wherever this is called, and at most 40 is assumed.
unfoldable pub serialize_header : MessageHeader → Bytes
serialize_header header =
    take key_length (header.dh_public_key ++ zeroes key_length)
    ++ (set_u32 header.previous_chain_length ++ set_u32 header.message_number)

unfoldable pub message_associated_data : SessionState → MessageHeader → Bytes
message_associated_data state header = state.associated_data ++ serialize_header header

-- `base64(dh_pub):n`.
unfoldable pub skipped_key_id : Bytes → ℕ → Text
skipped_key_id dh_public_key message_number = btoa dh_public_key ++ 58 ∷ decimal message_number

module _ (c : Crypto) where
  -- `generated` is what `crypto_kx_keypair` returns.
  unfoldable pub initialize_initiator :
      (shared_secret associated_data their_signed_prekey : Bytes)
      → (generated : KeyPair) → Result SessionState
  initialize_initiator shared_secret associated_data their_signed_prekey generated =
      if not (length shared_secret == key_length)
      then err shared_secret_length
      else if not (length their_signed_prekey == key_length)
      then err signed_prekey_length
      else elim (or_weak (c.scalarmult generated.private_key their_signed_prekey)) [
        | err e ↦ err e
        | ok dh_output ↦ elim (advance_root_key c shared_secret dh_output) [
          | err e ↦ err e
          | ok step ↦ ok (record {
            root_key = step.root_key;
            our_ratchet_key = generated;
            their_ratchet_key = some their_signed_prekey;
            sending_chain_key = some step.chain_key;
            receiving_chain_key = none;
            send_count = 0;
            receive_count = 0;
            previous_chain_length = 0;
            skipped_keys = [];
            associated_data = associated_data;
          })
        ]
      ]

unfoldable pub initialize_responder :
    (shared_secret associated_data : Bytes) → KeyPair → Result SessionState
initialize_responder shared_secret associated_data our_signed_prekey =
    if not (length shared_secret == key_length)
    then err shared_secret_length
    else ok (record {
      root_key = shared_secret;
      our_ratchet_key = our_signed_prekey;
      their_ratchet_key = none;
      sending_chain_key = none;
      receiving_chain_key = none;
      send_count = 0;
      receive_count = 0;
      previous_chain_length = 0;
      skipped_keys = [];
      associated_data = associated_data;
    })
