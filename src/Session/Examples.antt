-- ===== src/Session/Examples.antt =====
-- A session on concrete keys, its first message, and that message again.
use shatters.Common.{
  err, ok, ◌≡◌, refl, Option, none, some, [], ◌∷◌, arith, ◌==◌, if◌then◌else◌, text_eq, lookup,
}
use shatters.Bytes.{Bytes}
use shatters.Message.{InitialMessageHeader}
use shatters.Crypto.{KeyPair}
use shatters.Crypto.Toy.{toy, toy-IsSound, toy_pair, toy_pair-IsPair, block}
use shatters.Kdf.{hkdf_sha256, expand}
use shatters.Identity.{
  signed_prekey_message, identity_dh_message, sign_identity_dh_key, create_signed_prekey,
  verify_signed_prekey, verify_identity_dh_key,
}
use shatters.Envelope.Writer.{
  EnvelopeError, truncated, encode_initial_message, finish_message, write_ratchet_header,
}
use shatters.Envelope.Writer
use shatters.Envelope.Reader.{
  InnerMessage, decode_message, read_message, read_type_header, read_x3dh, read_one_time_prekey,
  read_ratchet, u8, u32, bytes, rest, require,
}
use shatters.Ratchet.State.{
  SessionState, advance_root_key, advance_chain_key, message_key_material, message_associated_data,
  serialize_header, initialize_initiator, initialize_responder,
}
use shatters.Ratchet.Send.{encrypt_message, seal_message}
use shatters.Ratchet.Window.{skip_message_keys, skip_loop}
use shatters.Ratchet.Receive.{
  decrypt_message, receive_message, turn_ratchet, is_new_ratchet_key, dh_ratchet, take_message_key,
  decrypt_with_message_key, clone_state, commit_state, conclude,
}
use shatters.X3dh.{
  check_bundle, check_header, assert_key, assert_optional_key, dh_by_private, dh_by_public,
  derive_secret, initiate_x3dh, respond_x3dh, associated_data_of,
}
use shatters.X3dh.Examples.{parties, bundle}
use shatters.Session.{
  Session, envelope, one_time_prekey_unavailable, Result, PrekeyStore, IsConsuming, start_session,
  establish, accept_taken, accept_with, accept_header, accept_message, accept_session, encode_for,
  encoded, encrypt, decrypt,
}
use shatters.Ratchet.Start.{Awaits}
use shatters.Session.Errors.{decrypt-atomic, accept_session-replay}
use shatters.Session.First.{start_session-accept_session}

-- A store with signed prekey 5, and one-time prekey 77 while its state is `some`.
abbrev store : PrekeyStore (Option KeyPair)
store = record {
  signed_prekey = λ n s. if n == 5 then some parties.signed_prekey else none;
  take_one_time_prekey = λ id s. if id == 77 then (s, none) else (none, s);
}

store-IsConsuming : IsConsuming store
store-IsConsuming = record { taken = λ id key s s' e. ground arith; keeps_signed = λ id n s. refl }

start_session-accept_session_example :
    (session later accepted : Session) × (raw : Bytes) × (s' : Option KeyPair) × (start_session toy
        parties.a bundle parties.ephemeral
        (toy_pair 18)
      ≡ ok session)
    × (encrypt toy (104 ∷ 105 ∷ []) session ≡ (ok raw, later))
    × (accept_session toy store parties.b (toy_pair 19) raw (some (toy_pair 17))
        ≡ (ok (accepted, 104 ∷ 105 ∷ []), s'))
    × Awaits toy accepted.state later.state
unfolding text_eq
start_session-accept_session_example =
    start_session-accept_session toy toy-IsSound parties store (some (toy_pair 17)) (toy_pair 18)
      (toy_pair 19) (block 34) (block 37) (104 ∷ 105 ∷ []) (toy_pair-IsPair 18) (toy_pair-IsPair 19)
      refl refl refl refl (none, refl) (omega arith) (omega arith)

abbrev blank : SessionState
blank = record {
  root_key = [];
  our_ratchet_key = toy_pair 1;
  their_ratchet_key = none;
  sending_chain_key = none;
  receiving_chain_key = none;
  send_count = 0;
  receive_count = 0;
  previous_chain_length = 0;
  skipped_keys = [];
  associated_data = [];
}

abbrev session_or : Result Session → Session
session_or (ok session) = session
session_or (err _) = record { state = blank; pending_x3dh = none }

abbrev bytes_or : Result Bytes → Bytes
bytes_or (ok raw) = raw
bytes_or (err _) = []

abbrev message_or : Writer.Result InnerMessage → InnerMessage
message_or (ok m) = m
message_or (err _) = record {
  type = 0;
  x3dh = none;
  ratchet = record {
    header = record { dh_public_key = []; previous_chain_length = 0; message_number = 0 };
    ciphertext = [];
  };
}

abbrev header_or : Option InitialMessageHeader → InitialMessageHeader
header_or (some header) = header
header_or none = record {
  identity_key = [];
  identity_dh_key = [];
  ephemeral_key = [];
  signed_prekey_id = 0;
  one_time_prekey_id = none;
}

abbrev accepted_or : Result (Session × Bytes) → Session × Bytes
accepted_or (ok got) = got
accepted_or (err _) = (record { state = blank; pending_x3dh = none }, [])

abbrev started : Session
started = session_or (start_session toy parties.a bundle parties.ephemeral (toy_pair 18))

cut_short : (decrypt toy (toy_pair 19) (1 ∷ 1 ∷ 0 ∷ []) started).0 ≡ err (envelope truncated)
unfolding decrypt decode_message read_message read_type_header read_x3dh u8 u32 bytes rest require
cut_short = refl

decrypt-atomic_example : (decrypt toy (toy_pair 19) (1 ∷ 1 ∷ 0 ∷ []) started).1 ≡ started
decrypt-atomic_example =
    decrypt-atomic toy (toy_pair 19) (1 ∷ 1 ∷ 0 ∷ []) started (envelope truncated) cut_short

first_bytes : Bytes
first_bytes = bytes_or (encrypt toy (104 ∷ 105 ∷ []) started).0

abbrev first_message : InnerMessage
first_message = message_or (decode_message first_bytes)

abbrev first_header : InitialMessageHeader
first_header = header_or first_message.x3dh

abbrev first_accepted : Session × Bytes
first_accepted =
    accepted_or
      (accept_session toy store parties.b (toy_pair 19) first_bytes (some (toy_pair 17))).0

first_bytes_decode : decode_message first_bytes ≡ ok first_message
unfolding start_session initiate_x3dh check_bundle assert_key assert_optional_key
    verify_signed_prekey verify_identity_dh_key signed_prekey_message identity_dh_message
    sign_identity_dh_key create_signed_prekey dh_by_private derive_secret hkdf_sha256 expand
    initialize_initiator advance_root_key encrypt encoded encode_for encrypt_message seal_message
    message_key_material message_associated_data serialize_header advance_chain_key
    encode_initial_message finish_message write_ratchet_header Writer.assert_key first_bytes
    decode_message read_message read_type_header read_x3dh read_one_time_prekey read_ratchet u8 u32
    bytes rest require associated_data_of
first_bytes_decode = refl

first_message_is_initial : first_message.x3dh ≡ some first_header
unfolding start_session initiate_x3dh check_bundle assert_key assert_optional_key
    verify_signed_prekey verify_identity_dh_key signed_prekey_message identity_dh_message
    sign_identity_dh_key create_signed_prekey dh_by_private derive_secret hkdf_sha256 expand
    initialize_initiator advance_root_key encrypt encoded encode_for encrypt_message seal_message
    message_key_material message_associated_data serialize_header advance_chain_key
    encode_initial_message finish_message write_ratchet_header Writer.assert_key first_bytes
    decode_message read_message read_type_header read_x3dh read_one_time_prekey read_ratchet u8 u32
    bytes rest require associated_data_of
first_message_is_initial = refl

first_header_names_prekey : first_header.one_time_prekey_id ≡ some 77
unfolding start_session initiate_x3dh check_bundle assert_key assert_optional_key
    verify_signed_prekey verify_identity_dh_key signed_prekey_message identity_dh_message
    sign_identity_dh_key create_signed_prekey dh_by_private derive_secret hkdf_sha256 expand
    initialize_initiator advance_root_key encrypt encoded encode_for encrypt_message seal_message
    message_key_material message_associated_data serialize_header advance_chain_key
    encode_initial_message finish_message write_ratchet_header Writer.assert_key first_bytes
    decode_message read_message read_type_header read_x3dh read_one_time_prekey read_ratchet u8 u32
    bytes rest require associated_data_of
first_header_names_prekey = refl

first_bytes_accepted :
    accept_session toy store parties.b (toy_pair 19) first_bytes (some (toy_pair 17))
    ≡ (ok first_accepted, none)
unfolding start_session initiate_x3dh check_bundle assert_key assert_optional_key
    verify_signed_prekey verify_identity_dh_key signed_prekey_message identity_dh_message
    sign_identity_dh_key create_signed_prekey dh_by_private derive_secret hkdf_sha256 expand
    initialize_initiator advance_root_key encrypt encoded encode_for encrypt_message seal_message
    message_key_material message_associated_data serialize_header advance_chain_key
    encode_initial_message finish_message write_ratchet_header Writer.assert_key first_bytes
    decode_message read_message read_type_header read_x3dh read_one_time_prekey read_ratchet u8 u32
    bytes rest require associated_data_of accept_session accept_message accept_header accept_with
    accept_taken establish respond_x3dh check_header dh_by_public initialize_responder
    decrypt_message receive_message turn_ratchet is_new_ratchet_key dh_ratchet skip_message_keys
    skip_loop take_message_key decrypt_with_message_key clone_state commit_state conclude text_eq
    lookup
first_bytes_accepted = refl

accept_session-replay_example :
    (accept_session toy store parties.b (toy_pair 20) first_bytes none).0
    ≡ err (one_time_prekey_unavailable 77)
accept_session-replay_example =
    accept_session-replay toy store store-IsConsuming parties.b (toy_pair 19) (toy_pair 20)
      first_bytes first_message first_header 77 (some (toy_pair 17)) none first_accepted
      first_bytes_decode first_message_is_initial first_header_names_prekey first_bytes_accepted
