-- ===== src/Envelope/Wire.antt =====
-- The wire format of docs/protocol.md §9, as the comment at the top of
-- web/src/lib/crypto/envelope.ts gives it, and the messages that it can carry.
use shatters.Common.{ℕ, ◌<◌, ◌^◌, ◌≡◌, ◌≢◌, Option, none, some, [], ◌∷◌, ◌++◌, length}
use shatters.Bytes.{Bytes, set_u32}
use shatters.Message.{RatchetMessage, InitialMessageHeader}
use shatters.Envelope.Writer.{initial_type, normal_type}
use shatters.Envelope.Reader.{InnerMessage}

abbrev pub one_time_prekey_wire : Option ℕ → Bytes
one_time_prekey_wire none = 0 ∷ []
one_time_prekey_wire (some id) = 1 ∷ set_u32 id

-- The X3DH header in front of `rest`.
abbrev pub x3dh_wire : InitialMessageHeader → Bytes → Bytes
x3dh_wire h rest =
    h.identity_key
    ++ (h.identity_dh_key
        ++ (h.ephemeral_key
            ++ (set_u32 h.signed_prekey_id ++ (one_time_prekey_wire h.one_time_prekey_id ++ rest))))

-- The ratchet header and the ciphertext.
abbrev pub ratchet_wire : RatchetMessage → Bytes
ratchet_wire m =
    m.header.dh_public_key
    ++ (set_u32 m.header.previous_chain_length ++ (set_u32 m.header.message_number ++ m.ciphertext))

abbrev pub x3dh_part : Option InitialMessageHeader → Bytes → Bytes
x3dh_part none rest = rest
x3dh_part (some h) rest = x3dh_wire h rest

abbrev pub wire : InnerMessage → Bytes
wire m = 1 ∷ m.type ∷ x3dh_part m.x3dh (ratchet_wire m.ratchet)

abbrev pub IsU32 : ℕ → Type 0
IsU32 n = n < 2 ^ 32

abbrev pub IsOptionalU32 : Option ℕ → Type 0
IsOptionalU32 none = Unit
IsOptionalU32 (some n) = IsU32 n

pub record IsX3dhHeader (h : InitialMessageHeader) : Type 0 where
  pub identity_key : length h.identity_key ≡ 32
  pub identity_dh_key : length h.identity_dh_key ≡ 32
  pub ephemeral_key : length h.ephemeral_key ≡ 32
  pub signed_prekey_id : IsU32 h.signed_prekey_id
  pub one_time_prekey_id : IsOptionalU32 h.one_time_prekey_id

pub record IsRatchetMessage (m : RatchetMessage) : Type 0 where
  pub dh_public_key : length m.header.dh_public_key ≡ 32
  pub previous_chain_length : IsU32 m.header.previous_chain_length
  pub message_number : IsU32 m.header.message_number
  pub ciphertext : m.ciphertext ≢ []

-- The type byte and the presence of an X3DH header agree.
abbrev pub IsTyped : ℕ → Option InitialMessageHeader → Type 0
IsTyped type none = type ≡ normal_type
IsTyped type (some h) = (type ≡ initial_type) × IsX3dhHeader h

pub record IsMessage (m : InnerMessage) : Type 0 where
  pub typed : IsTyped m.type m.x3dh
  pub ratchet : IsRatchetMessage m.ratchet
