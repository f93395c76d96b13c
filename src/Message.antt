-- ===== src/Message.antt =====
-- The message headers that the handshake (web/src/lib/crypto/x3dh.ts), the ratchet
-- (web/src/lib/crypto/ratchet.ts) and the wire format share.
use shatters.Common.{ℕ, Option}
use shatters.Bytes.{Bytes}

pub record MessageHeader : Type 0 where
  pub dh_public_key : Bytes
  pub previous_chain_length : ℕ
  pub message_number : ℕ

pub record RatchetMessage : Type 0 where
  pub header : MessageHeader
  pub ciphertext : Bytes

pub record InitialMessageHeader : Type 0 where
  pub identity_key : Bytes
  pub identity_dh_key : Bytes
  pub ephemeral_key : Bytes
  pub signed_prekey_id : ℕ
  pub one_time_prekey_id : Option ℕ
