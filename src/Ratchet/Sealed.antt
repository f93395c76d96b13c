-- ===== src/Ratchet/Sealed.antt =====
-- web/src/lib/crypto/ratchet.ts, `encryptMessage`: encryption on a sending chain succeeds, and what it
-- makes decrypts under the message key of its place in the chain.
use shatters.Common.{ok, ◌+◌, ◌≡◌, refl, sym, ap, inl, inr, some, ◌++◌, take, drop, arith}
use shatters.Bytes.{Bytes, zeroes}
use shatters.Message.{MessageHeader, RatchetMessage}
use shatters.Crypto.{Crypto, IsSound}
use shatters.Kdf.Output.{hkdf_sha256-length}
use shatters.Ratchet.State.{
  SessionState, KeyMaterial, message_domain, message_key_material, message_associated_data,
  serialize_header, advance_chain_key,
}
use shatters.Ratchet.Send.{next_header, seal_message, encrypt_message}
use shatters.Ratchet.Receive.{decrypt_with_message_key}
use shatters.Ratchet.Chain.{chain_at, message_key_at}
use shatters.Ratchet.Skip.{Chain, chain_at-next}

-- The sender stands on the chain at its count.
pub record SendsOn (c : Crypto) (h : Chain) (a : SessionState) : Type 0 where
  pub sending_chain_key : a.sending_chain_key ≡ some (chain_at c h.start a.send_count)
  pub our_ratchet_key : a.our_ratchet_key.public_key ≡ h.ratchet_key
  pub associated_data : a.associated_data ≡ h.associated_data

-- The message holds a plaintext for place `message_number` of the chain.
pub record IsSealed (c : Crypto) (h : Chain) (plaintext : Bytes) (m : RatchetMessage) : Type 0 where
  pub material : KeyMaterial
  pub material_is :
      message_key_material c (message_key_at c h.start m.header.message_number) ≡ ok material
  pub dh_public_key : m.header.dh_public_key ≡ h.ratchet_key
  pub ciphertext :
      m.ciphertext
      ≡ c.aead_encrypt plaintext
          (h.associated_data ++ serialize_header m.header)
          material.nonce
          material.key

module _ (c : Crypto) (laws : IsSound c) where
  -- The salt and the length are such that the derivation cannot throw.
  pub message_key_material-ok :
      (key : Bytes) → (material : KeyMaterial) × (message_key_material c key ≡ ok material)
  unfolding message_key_material
  message_key_material-ok key = elim (hkdf_sha256-length c laws key (zeroes 32) message_domain 56) [
    | inl (out, e, _, _, _, _) ↦ (record { key = take 32 out; nonce = drop 32 out }, rw e refl)
    | inr (_, _, why) ↦ absurd (ground (arith, why))
  ]

  -- Encryption succeeds on every chain, its message is sealed at the count, and the sender moves on.
  pub encrypt_message-IsSealed :
      (h : Chain) (plaintext : Bytes) (a : SessionState)
      → SendsOn c h a
      → (m : RatchetMessage) × (a' : SessionState) × (encrypt_message c plaintext a ≡ (ok m, a'))
        × IsSealed c h plaintext m
        × (m.header ≡ next_header a)
        × (a'.send_count ≡ a.send_count + 1)
        × SendsOn c h a'
  unfolding encrypt_message seal_message message_associated_data
  encrypt_message-IsSealed h plaintext a s =
      let ck : Bytes = chain_at c h.start a.send_count in
      let (material, e) = message_key_material-ok (message_key_at c h.start a.send_count) in
      let header : MessageHeader = next_header a in
      let after : SessionState = record a {
        sending_chain_key = some (advance_chain_key c ck).chain_key;
        send_count = a.send_count + 1;
      } in
      let m : RatchetMessage = record {
        header = header;
        ciphertext =
            c.aead_encrypt plaintext (a.associated_data ++ serialize_header header) material.nonce
              material.key;
      } in
      (
        m,
        after,
        simp (s.sending_chain_key, e, encrypt_message, seal_message) refl,
        record {
          material = material;
          material_is = e;
          dh_public_key = s.our_ratchet_key;
          ciphertext = rw s.associated_data refl;
        },
        refl,
        refl,
        record {
          sending_chain_key = ap some (sym (chain_at-next c h.start a.send_count));
          our_ratchet_key = s.our_ratchet_key;
          associated_data = s.associated_data;
        },
      )

  -- The right message key opens it, under the same associated data.
  pub decrypt_with_message_key-IsSealed :
      (h : Chain) (plaintext : Bytes) (m : RatchetMessage) (b : SessionState)
      → IsSealed c h plaintext m
      → b.associated_data ≡ h.associated_data
      → decrypt_with_message_key c
          (message_key_at c h.start m.header.message_number)
          m.header
          m.ciphertext
          b
        ≡ (ok plaintext, b)
  unfolding decrypt_with_message_key message_associated_data
  decrypt_with_message_key-IsSealed h plaintext m b s e =
      let opens =
        laws.decrypt_encrypt plaintext (h.associated_data ++ serialize_header m.header)
          s.material.nonce s.material.key in
      simp (s.material_is, s.ciphertext, e, opens, decrypt_with_message_key) refl
