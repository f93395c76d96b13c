-- ===== src/Envelope/Examples.antt =====
-- Runs of the codec of web/src/lib/crypto/envelope.ts, and instances of its theorems.
use shatters.Common.{err, ok, ◌≡◌, refl, ◌↔◌, none, some, [], ◌∷◌, ◌++◌, arith}
use shatters.Bytes.{Bytes, zeroes}
use shatters.Message.{RatchetMessage, InitialMessageHeader}
use shatters.Envelope.Writer.{
  initial_type, normal_type, truncated, unsupported_version, unknown_type, encode_initial_message,
  encode_normal_message, assert_key, finish_message, write_ratchet_header,
}
use shatters.Envelope.Reader.{
  InnerMessage, decode_message, read_message, u8, u32, bytes, rest, require, read_type_header,
  read_ratchet,
}
use shatters.Envelope.Wire.{wire, IsX3dhHeader, IsRatchetMessage, IsMessage}
use shatters.Envelope.Roundtrip.{decode_message-encode_message}
use shatters.Envelope.Canonical.{decode_message_iff}

abbrev hello : RatchetMessage
hello = record {
  header = record { dh_public_key = zeroes 32; previous_chain_length = 3; message_number = 258 };
  ciphertext = 104 ∷ 105 ∷ [];
}

abbrev first_contact : InitialMessageHeader
first_contact = record {
  identity_key = zeroes 32;
  identity_dh_key = 1 ∷ zeroes 31;
  ephemeral_key = 2 ∷ zeroes 31;
  signed_prekey_id = 70000;
  one_time_prekey_id = some 9;
}

abbrev normal_message : InnerMessage
normal_message = record { type = normal_type; x3dh = none; ratchet = hello }

hello-IsRatchetMessage : IsRatchetMessage hello
hello-IsRatchetMessage = record {
  dh_public_key = refl;
  previous_chain_length = omega arith;
  message_number = omega arith;
  ciphertext = λ e. cc;
}

first_contact-IsX3dhHeader : IsX3dhHeader first_contact
first_contact-IsX3dhHeader = record {
  identity_key = refl;
  identity_dh_key = refl;
  ephemeral_key = refl;
  signed_prekey_id = omega arith;
  one_time_prekey_id = omega arith;
}

encode_normal_test :
    encode_normal_message hello
    ≡ ok (1 ∷ 2 ∷ (zeroes 32 ++ (0 ∷ 0 ∷ 0 ∷ 3 ∷ 0 ∷ 0 ∷ 1 ∷ 2 ∷ 104 ∷ 105 ∷ [])))
unfolding encode_normal_message finish_message write_ratchet_header assert_key
encode_normal_test = refl

decode_tests :
    (decode_message [] ≡ err truncated)
    × (decode_message (7 ∷ []) ≡ err (unsupported_version 7))
    × (decode_message (1 ∷ 3 ∷ []) ≡ err (unknown_type 3))
    × (decode_message (wire normal_message) ≡ ok normal_message)
unfolding decode_message read_message u8 u32 bytes rest require read_type_header read_ratchet
decode_tests = (refl, refl, refl, refl)

decode_message-encode_message_example :
    ((raw : Bytes) × (encode_initial_message first_contact hello ≡ ok raw)
      × (decode_message raw
          ≡ ok (record { type = initial_type; x3dh = some first_contact; ratchet = hello })))
    × ((raw : Bytes) × (encode_normal_message hello ≡ ok raw)
        × (decode_message raw ≡ ok (record { type = normal_type; x3dh = none; ratchet = hello })))
decode_message-encode_message_example =
    decode_message-encode_message first_contact hello first_contact-IsX3dhHeader
      hello-IsRatchetMessage

decode_message_iff_example :
    (decode_message (wire normal_message) ≡ ok normal_message)
    ↔ ((wire normal_message ≡ wire normal_message) × IsMessage normal_message)
decode_message_iff_example = decode_message_iff (wire normal_message) normal_message (omega arith)
