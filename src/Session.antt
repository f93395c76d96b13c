-- ===== src/Session.antt =====
-- web/src/lib/crypto/session.ts: the facade over the handshake, the ratchet and the codec.
pub mod Errors
pub mod First
pub mod Examples
use shatters.Common.{
  Outcome, err, ok, pure, ◌>>=◌, ℕ, Bool, true, false, not, Option, none, some, ◌≡◌, ◌==◌,
  if◌then◌else◌,
}
use shatters.Bytes.{Bytes}
use shatters.Message.{InitialMessageHeader, RatchetMessage}
use shatters.Crypto.{Crypto, KeyPair}
use shatters.Identity.{Identity}
use shatters.Envelope.Writer.{
  initial_type, EnvelopeError, encode_initial_message, encode_normal_message,
}
use shatters.Envelope.Writer
use shatters.Envelope.Reader.{InnerMessage, decode_message}
use shatters.Ratchet.State.{SessionState, RatchetError, initialize_initiator, initialize_responder}
use shatters.Ratchet.State
use shatters.Ratchet.Send.{encrypt_message}
use shatters.Ratchet.Receive.{decrypt_message}
use shatters.X3dh.{X3dhError, PrekeyBundle, ResponderPrekeys, initiate_x3dh, respond_x3dh}
use shatters.X3dh

-- The messages of a `SessionError`, and the errors of the parts.
pub data SessionError : Type 0 where
  not_initial : SessionError
  unknown_signed_prekey one_time_prekey_unavailable : ℕ → SessionError
  envelope : EnvelopeError → SessionError
  x3dh : X3dhError → SessionError
  ratchet : RatchetError → SessionError

abbrev pub Result {ℓ} : Type ℓ → Type ℓ
Result A = Outcome SessionError A

pub record Session : Type 0 where
  pub state : SessionState
  pub pending_x3dh : Option InitialMessageHeader

-- The interface `PrekeyStore`, over the state of the store.
pub record PrekeyStore (S : Type 0) : Type 0 where
  pub signed_prekey : ℕ → S → Option KeyPair
  pub take_one_time_prekey : ℕ → S → Option KeyPair × S

-- `takeOneTimePrekey` must remove the key that it returns.
pub record IsConsuming {S : Type 0} (store : PrekeyStore S) : Type 0 where
  pub taken :
      (id : ℕ) (key : KeyPair) (s s' : S)
      → store.take_one_time_prekey id s ≡ (some key, s')
      → (store.take_one_time_prekey id s').0 ≡ none
  pub keeps_signed :
      (id n : ℕ) (s : S)
      → store.signed_prekey n (store.take_one_time_prekey id s).1 ≡ store.signed_prekey n s

abbrev pub from_envelope : {A : Type 0} → Writer.Result A → Result A
from_envelope (ok a) = ok a
from_envelope (err e) = err (envelope e)

abbrev pub from_x3dh : {A : Type 0} → X3dh.Result A → Result A
from_x3dh (ok a) = ok a
from_x3dh (err e) = err (x3dh e)

abbrev pub from_ratchet : {A : Type 0} → State.Result A → Result A
from_ratchet (ok a) = ok a
from_ratchet (err e) = err (ratchet e)

abbrev pub private_key_of : KeyPair → Bytes
private_key_of pair = pair.private_key

module _ (c : Crypto) where
  -- `ephemeral` and `generated` are what `crypto_kx_keypair` returns in the two calls.
  unfoldable pub start_session :
      Identity → PrekeyBundle → (ephemeral generated : KeyPair) → Result Session
  start_session our_identity bundle ephemeral generated = do
    agreement ← from_x3dh (initiate_x3dh c our_identity bundle ephemeral)
    state ← from_ratchet (
        initialize_initiator c agreement.shared_secret agreement.associated_data
          bundle.signed_prekey.public_key generated)
    pure (record { state = state; pending_x3dh = some agreement.header })

  -- The handshake and the first message, with the prekeys looked up.
  unfoldable pub establish :
      Identity
      → (generated signed_prekey : KeyPair) → Option KeyPair
      → InitialMessageHeader
      → RatchetMessage
      → Result (Session × Bytes)
  establish our_identity generated signed_prekey one_time_prekey header message = do
    agreement ← from_x3dh (
        respond_x3dh c our_identity
          (record {
            signed_prekey_private = signed_prekey.private_key;
            one_time_prekey_private = X3dh.optional private_key_of one_time_prekey;
          })
          header)
    state ←
        from_ratchet
          (initialize_responder agreement.shared_secret agreement.associated_data signed_prekey)
    let outcome = decrypt_message c generated message state
    plaintext ← from_ratchet outcome.0
    pure (record { state = outcome.1; pending_x3dh = none }, plaintext)

  module _ {S : Type 0} (store : PrekeyStore S) where
    -- `acceptSession` once the one-time prekey that the header names is taken from the store.
    unfoldable pub accept_taken :
        Identity
        → (generated signed_prekey : KeyPair) → ℕ
        → InitialMessageHeader
        → RatchetMessage
        → Option KeyPair × S
        → Result (Session × Bytes) × S
    accept_taken our_identity generated signed_prekey id header message (none, s) =
        (err (one_time_prekey_unavailable id), s)
    accept_taken our_identity generated signed_prekey id header message (some key, s) =
        (establish our_identity generated signed_prekey (some key) header message, s)

    unfoldable pub accept_with :
        Identity
        → (generated signed_prekey : KeyPair) → InitialMessageHeader
        → RatchetMessage
        → S
        → Result (Session × Bytes) × S
    accept_with our_identity generated signed_prekey header message s =
        elim header.one_time_prekey_id [
          | none ↦ (establish our_identity generated signed_prekey none header message, s)
          | some id ↦
              accept_taken our_identity generated signed_prekey id header message
                (store.take_one_time_prekey id s)
        ]

    unfoldable pub accept_header :
        Identity
        → (generated : KeyPair) → InitialMessageHeader
        → RatchetMessage
        → S
        → Result (Session × Bytes) × S
    accept_header our_identity generated header message s =
        elim (store.signed_prekey header.signed_prekey_id s) [
          | none ↦ (err (unknown_signed_prekey header.signed_prekey_id), s)
          | some signed_prekey ↦ accept_with our_identity generated signed_prekey header message s
        ]

    -- `message.type !== MessageType.Initial || !message.x3dh`.
    unfoldable pub accept_message :
        Identity → (generated : KeyPair) → InnerMessage → S → Result (Session × Bytes) × S
    accept_message our_identity generated message s = elim message.x3dh [
      | none ↦ (err not_initial, s)
      | some header ↦
          if message.type == initial_type
          then accept_header our_identity generated header message.ratchet s
          else (err not_initial, s)
    ]

    unfoldable pub accept_session :
        Identity → (generated : KeyPair) → (raw : Bytes) → S → Result (Session × Bytes) × S
    accept_session our_identity generated raw s = elim (decode_message raw) [
      | err e ↦ (err (envelope e), s)
      | ok message ↦ accept_message our_identity generated message s
    ]

  -- `session.pendingX3DH ? encodeInitialMessage(...) : encodeNormalMessage(...)`.
  unfoldable pub encode_for : Option InitialMessageHeader → RatchetMessage → Result Bytes
  encode_for none message = from_envelope (encode_normal_message message)
  encode_for (some header) message = from_envelope (encode_initial_message header message)

  unfoldable pub encoded :
      Session → State.Result RatchetMessage × SessionState → Result Bytes × Session
  encoded session (ok message, state) =
      (encode_for session.pending_x3dh message, record session { state = state })
  encoded session (err e, state) = (err (ratchet e), record session { state = state })

  unfoldable pub encrypt : (plaintext : Bytes) → Session → Result Bytes × Session
  encrypt plaintext session = encoded session (encrypt_message c plaintext session.state)

  -- A plaintext proves that the peer has the session.
  unfoldable pub decrypted : Session → State.Result Bytes × SessionState → Result Bytes × Session
  decrypted session (ok plaintext, state) =
      (ok plaintext, record { state = state; pending_x3dh = none })
  decrypted session (err e, state) = (err (ratchet e), record session { state = state })

  -- `generated` is what `crypto_kx_keypair` returns in this call.
  unfoldable pub decrypt : (generated : KeyPair) → (raw : Bytes) → Session → Result Bytes × Session
  decrypt generated raw session = elim (decode_message raw) [
    | err e ↦ (err (envelope e), session)
    | ok message ↦ decrypted session (decrypt_message c generated message.ratchet session.state)
  ]
