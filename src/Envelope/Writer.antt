-- ===== src/Envelope/Writer.antt =====
-- web/src/lib/crypto/envelope.ts: `Writer` and the two encoders.
use Prim.Native.String.{String}
use shatters.Common.{
  Outcome, err, ok, ℕ, ◌%◌, true, false, Option, none, some, List, [], ◌∷◌, ◌++◌, length, ◌==◌,
}
use shatters.Bytes.{Bytes, set_u32}
use shatters.Message.{MessageHeader, RatchetMessage, InitialMessageHeader}

abbrev pub envelope_version : ℕ
envelope_version = 1

-- `MessageType`: the two values of the type byte.
abbrev pub initial_type : ℕ
initial_type = 1

abbrev pub normal_type : ℕ
normal_type = 2

abbrev pub key_length : ℕ
key_length = 32

-- The messages that an `EnvelopeError` is thrown with.
pub data EnvelopeError : Type 0 where
  truncated : EnvelopeError
  bad_key : String → EnvelopeError
  unsupported_version : ℕ → EnvelopeError
  unknown_type : ℕ → EnvelopeError
  malformed_flag : EnvelopeError
  missing_ciphertext : EnvelopeError

abbrev pub Result {ℓ} : Type ℓ → Type ℓ
Result A = Outcome EnvelopeError A

-- The parts of a `Writer`, in the order in which they were pushed.
abbrev pub Writer : Type 0
Writer = List Bytes

abbrev pub write_u8 : ℕ → Writer → Writer
write_u8 value w = w ++ ((value % 256) ∷ []) ∷ []

abbrev pub write_u32 : ℕ → Writer → Writer
write_u32 value w = w ++ set_u32 value ∷ []

abbrev pub write_bytes : Bytes → Writer → Writer
write_bytes value w = w ++ value ∷ []

abbrev pub finish : Writer → Bytes
finish [] = []
finish (part ∷ parts) = part ++ finish parts

unfoldable pub assert_key {ℓ} : {A : Type ℓ} → String → Bytes → Result A → Result A
assert_key name key after = elim (length key == key_length) [
  | true ↦ after
  | false ↦ err (bad_key name)
]

unfoldable pub write_ratchet_header : MessageHeader → Writer → Result Writer
write_ratchet_header header w = assert_key "ratchet header dhPublicKey" header.dh_public_key (
    ok (
      write_u32 header.message_number
        (write_u32 header.previous_chain_length (write_bytes header.dh_public_key w))))

-- The ratchet header, the ciphertext, and the bytes of it all.
unfoldable pub finish_message : RatchetMessage → Writer → Result Bytes
finish_message ratchet w = elim (write_ratchet_header ratchet.header w) [
  | ok w' ↦ ok (finish (write_bytes ratchet.ciphertext w'))
  | err e ↦ err e
]

-- `if (x3dh.oneTimePrekeyId !== undefined) w.u32(x3dh.oneTimePrekeyId)`, behind its flag.
abbrev pub write_one_time_prekey : Option ℕ → Writer → Writer
write_one_time_prekey none w = write_u8 0 w
write_one_time_prekey (some id) w = write_u32 id (write_u8 1 w)

unfoldable pub encode_initial_message : InitialMessageHeader → RatchetMessage → Result Bytes
encode_initial_message x3dh ratchet = assert_key "identityKey" x3dh.identity_key (
    assert_key "identityDhKey" x3dh.identity_dh_key (
      assert_key "ephemeralKey" x3dh.ephemeral_key (
        finish_message ratchet (
          write_one_time_prekey x3dh.one_time_prekey_id (
            write_u32 x3dh.signed_prekey_id (
              write_bytes x3dh.ephemeral_key (
                write_bytes x3dh.identity_dh_key (
                  write_bytes x3dh.identity_key
                    (write_u8 initial_type (write_u8 envelope_version []))))))))))

unfoldable pub encode_normal_message : RatchetMessage → Result Bytes
encode_normal_message ratchet =
    finish_message ratchet (write_u8 normal_type (write_u8 envelope_version []))
