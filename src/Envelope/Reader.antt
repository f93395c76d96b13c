-- ===== src/Envelope/Reader.antt =====
-- web/src/lib/crypto/envelope.ts: `Reader` and `decodeMessage`.
pub mod Framing
use shatters.Common.{
  err, ok, ℕ, ◌+◌, Bool, true, false, not, ◌&&◌, Option, none, some, [], ◌∷◌, length, drop, ◌==◌,
  ltb, is_empty,
}
use shatters.Bytes.{Bytes, slice, get_u32}
use shatters.Message.{RatchetMessage, InitialMessageHeader}
use shatters.Envelope.Writer.{
  envelope_version, initial_type, normal_type, key_length, EnvelopeError, truncated,
  unsupported_version, unknown_type, malformed_flag, missing_ciphertext, Result,
}

-- `x3dh` is present exactly for initial messages.
pub record InnerMessage : Type 0 where
  pub type : ℕ
  pub x3dh : Option InitialMessageHeader
  pub ratchet : RatchetMessage

pub record Reader : Type 0 where
  pub buf : Bytes
  pub offset : ℕ

-- A method of the reader: it may throw, and it moves the offset.
abbrev pub M : Type 0 → Type 0
M A = Reader → Result (A × Reader)

infixl 5 ◌>>=◌ ◌>>◌
abbrev pub ◌>>=◌ : {A B : Type 0} → M A → (A → M B) → M B
◌>>=◌ m f r = elim (m r) [ ok (a, r') ↦ f a r' | err e ↦ err e ]

abbrev pub ◌>>◌ : {B : Type 0} → M (Unit {0}) → M B → M B
m >> k = m >>= λ _. k

abbrev pub pure : {A : Type 0} → A → M A
pure a r = ok (a, r)

-- `if (!test) throw new EnvelopeError(...)`.
abbrev pub guard : Bool → EnvelopeError → M (Unit {0})
guard true e r = ok (tt, r)
guard false e r = err e

abbrev pub skip : ℕ → Reader → Reader
skip n r = record r { offset = r.offset + n }

unfoldable pub require : ℕ → M (Unit {0})
require n r = guard (not (ltb (length r.buf) (r.offset + n))) truncated r

-- `buf[offset]`, which `require` has shown to be in range.
abbrev pub byte_at : Bytes → ℕ
byte_at [] = 0
byte_at (b ∷ _) = b

unfoldable pub u8 : M ℕ
u8 = require 1 >> λ r. ok (byte_at (drop r.offset r.buf), skip 1 r)

unfoldable pub u32 : M ℕ
u32 = require 4 >> λ r. ok (get_u32 (drop r.offset r.buf), skip 4 r)

unfoldable pub bytes : ℕ → M Bytes
bytes n = require n >> λ r. ok (slice r.buf r.offset (r.offset + n), skip n r)

unfoldable pub rest : M Bytes
rest r = ok (drop r.offset r.buf, record r { offset = length r.buf })

-- `hasOneTimePrekey === 1 ? r.u32() : undefined`.
unfoldable pub read_one_time_prekey : ℕ → M (Option ℕ)
read_one_time_prekey flag = elim (flag == 1) [
  | true ↦ do id ← u32; pure (some id)
  | false ↦ pure none
]

-- The block `if (type === MessageType.Initial) { ... }`.
unfoldable pub read_x3dh : M InitialMessageHeader
read_x3dh = do
  identity_key ← bytes key_length
  identity_dh_key ← bytes key_length
  ephemeral_key ← bytes key_length
  signed_prekey_id ← u32
  has_one_time_prekey ← u8
  guard (not (ltb 1 has_one_time_prekey)) malformed_flag
  one_time_prekey_id ← read_one_time_prekey has_one_time_prekey
  pure (record {
    identity_key = identity_key;
    identity_dh_key = identity_dh_key;
    ephemeral_key = ephemeral_key;
    signed_prekey_id = signed_prekey_id;
    one_time_prekey_id = one_time_prekey_id;
  })

unfoldable pub read_type_header : ℕ → M (Option InitialMessageHeader)
read_type_header type = elim (type == initial_type) [
  | true ↦ do x3dh ← read_x3dh; pure (some x3dh)
  | false ↦ pure none
]

-- The ratchet header and the ciphertext behind it.
unfoldable pub read_ratchet : M RatchetMessage
read_ratchet = do
  dh_public_key ← bytes key_length
  previous_chain_length ← u32
  message_number ← u32
  ciphertext ← rest
  guard (not (is_empty ciphertext)) missing_ciphertext
  pure (record {
    header = record {
      dh_public_key = dh_public_key;
      previous_chain_length = previous_chain_length;
      message_number = message_number;
    };
    ciphertext = ciphertext;
  })

unfoldable pub read_message : M InnerMessage
read_message = do
  version ← u8
  guard (version == envelope_version) (unsupported_version version)
  type ← u8
  guard (not (not (type == initial_type) && not (type == normal_type))) (unknown_type type)
  x3dh ← read_type_header type
  ratchet ← read_ratchet
  pure (record { type = type; x3dh = x3dh; ratchet = ratchet })

unfoldable pub decode_message : Bytes → Result InnerMessage
decode_message raw = elim (read_message (record { buf = raw; offset = 0 })) [
  | ok (message, _) ↦ ok message
  | err e ↦ err e
]
