-- ===== src/Serialize.antt =====
-- web/src/lib/crypto/serialize.ts: the stored form of a session. Of a record that is read back, the
-- fields are taken to have their types, as the code takes them; the label `keyType` is left out.
pub mod Roundtrip
pub mod Examples
use shatters.Common.{
  Outcome, err, ok, pure, ◌>>=◌, ℕ, Option, none, some, not, List, [], ◌∷◌, Text, ◌==◌,
  if◌then◌else◌, btoa, atob, assign,
}
use shatters.Bytes.{Bytes}
use shatters.Message.{InitialMessageHeader}
use shatters.Crypto.{KeyPair}
use shatters.Ratchet.State.{SessionState}
use shatters.Session.{Session}

abbrev pub session_format_version : ℕ
session_format_version = 1

-- The messages of a `SerializationError`, and the error of `atob`.
pub data SerializationError : Type 0 where
  not_an_object invalid_character : SerializationError
  unsupported_format : ℕ → SerializationError

abbrev pub Result {ℓ} : Type ℓ → Type ℓ
Result A = Outcome SerializationError A

pub record SerializedKeyPair : Type 0 where
  pub public_key : Text
  pub private_key : Text

pub record SerializedHeader : Type 0 where
  pub identity_key : Text
  pub identity_dh_key : Text
  pub ephemeral_key : Text
  pub signed_prekey_id : ℕ
  pub one_time_prekey_id : Option ℕ

pub record SerializedSession : Type 0 where
  pub version : ℕ
  pub root_key : Text
  pub our_ratchet_key : SerializedKeyPair
  pub their_ratchet_key : Option Text
  pub sending_chain_key : Option Text
  pub receiving_chain_key : Option Text
  pub send_count : ℕ
  pub receive_count : ℕ
  pub previous_chain_length : ℕ
  pub skipped_keys : Option (List (Text × Text))
  pub associated_data : Text
  pub pending_x3dh : Option SerializedHeader

unfoldable pub encode : Bytes → Text
encode bytes = btoa bytes

abbrev pub or_invalid : Option Bytes → Result Bytes
or_invalid none = err invalid_character
or_invalid (some bytes) = ok bytes

unfoldable pub decode : Text → Result Bytes
decode text = or_invalid (atob text)

unfoldable pub encode_key_pair : KeyPair → SerializedKeyPair
encode_key_pair pair = record {
  public_key = encode pair.public_key;
  private_key = encode pair.private_key;
}

unfoldable pub decode_key_pair : SerializedKeyPair → Result KeyPair
decode_key_pair pair = do
  public_key ← decode pair.public_key
  private_key ← decode pair.private_key
  pure (record { public_key = public_key; private_key = private_key })

-- `bytes && encode(bytes)`; an array is never falsy.
unfoldable pub encode_optional : Option Bytes → Option Text
encode_optional none = none
encode_optional (some bytes) = some (encode bytes)

-- `text ? decode(text) : undefined`; the empty text is falsy.
unfoldable pub decode_optional : Option Text → Result (Option Bytes)
decode_optional none = ok none
decode_optional (some []) = ok none
decode_optional (some (u ∷ us)) = decode (u ∷ us) >>= λ bytes. ok (some bytes)

unfoldable pub encode_entries : List (Text × Bytes) → List (Text × Text)
encode_entries [] = []
encode_entries ((id, key) ∷ rest) = (id, encode key) ∷ encode_entries rest

unfoldable pub decode_entries : List (Text × Text) → Result (List (Text × Bytes))
decode_entries [] = ok []
decode_entries ((id, text) ∷ rest) = do
  key ← decode text
  more ← decode_entries rest
  pure ((id, key) ∷ more)

-- `new Map(entries)`.
unfoldable pub map_of : List (Text × Bytes) → List (Text × Bytes) → List (Text × Bytes)
map_of map [] = map
map_of map ((id, key) ∷ rest) = map_of (assign id key map) rest

unfoldable pub encode_header : Option InitialMessageHeader → Option SerializedHeader
encode_header none = none
encode_header (some header) = some (record {
  identity_key = encode header.identity_key;
  identity_dh_key = encode header.identity_dh_key;
  ephemeral_key = encode header.ephemeral_key;
  signed_prekey_id = header.signed_prekey_id;
  one_time_prekey_id = header.one_time_prekey_id;
})

unfoldable pub decode_header : Option SerializedHeader → Result (Option InitialMessageHeader)
decode_header none = ok none
decode_header (some header) = do
  identity_key ← decode header.identity_key
  identity_dh_key ← decode header.identity_dh_key
  ephemeral_key ← decode header.ephemeral_key
  pure (
      some (record {
        identity_key = identity_key;
        identity_dh_key = identity_dh_key;
        ephemeral_key = ephemeral_key;
        signed_prekey_id = header.signed_prekey_id;
        one_time_prekey_id = header.one_time_prekey_id;
      }))

unfoldable pub serialize_session : Session → SerializedSession
serialize_session session = record {
  version = session_format_version;
  root_key = encode session.state.root_key;
  our_ratchet_key = encode_key_pair session.state.our_ratchet_key;
  their_ratchet_key = encode_optional session.state.their_ratchet_key;
  sending_chain_key = encode_optional session.state.sending_chain_key;
  receiving_chain_key = encode_optional session.state.receiving_chain_key;
  send_count = session.state.send_count;
  receive_count = session.state.receive_count;
  previous_chain_length = session.state.previous_chain_length;
  skipped_keys = some (encode_entries session.state.skipped_keys);
  associated_data = encode session.state.associated_data;
  pending_x3dh = encode_header session.pending_x3dh;
}

-- `data.skippedKeys ?? []`.
abbrev pub or_empty : Option (List (Text × Text)) → List (Text × Text)
or_empty none = []
or_empty (some entries) = entries

unfoldable pub rebuild_session : SerializedSession → Result Session
rebuild_session stored = do
  root_key ← decode stored.root_key
  our_ratchet_key ← decode_key_pair stored.our_ratchet_key
  their_ratchet_key ← decode_optional stored.their_ratchet_key
  sending_chain_key ← decode_optional stored.sending_chain_key
  receiving_chain_key ← decode_optional stored.receiving_chain_key
  entries ← decode_entries (or_empty stored.skipped_keys)
  associated_data ← decode stored.associated_data
  pending_x3dh ← decode_header stored.pending_x3dh
  pure (record {
    state = record {
      root_key = root_key;
      our_ratchet_key = our_ratchet_key;
      their_ratchet_key = their_ratchet_key;
      sending_chain_key = sending_chain_key;
      receiving_chain_key = receiving_chain_key;
      send_count = stored.send_count;
      receive_count = stored.receive_count;
      previous_chain_length = stored.previous_chain_length;
      skipped_keys = map_of [] entries;
      associated_data = associated_data;
    };
    pending_x3dh = pending_x3dh;
  })

-- `none` is a value that is no object.
unfoldable pub deserialize_session : Option SerializedSession → Result Session
deserialize_session none = err not_an_object
deserialize_session (some stored) =
    if not (stored.version == session_format_version)
    then err (unsupported_format stored.version)
    else rebuild_session stored
