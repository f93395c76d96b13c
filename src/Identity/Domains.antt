-- ===== src/Identity/Domains.antt =====
-- web/src/lib/crypto/identity.ts: the three kinds of signed byte strings are told apart by their
-- domains, and each pins what it is about.
use shatters.Common.{
  ℕ, ◌^◌, ◌<◌, ◌≡◌, ◌≢◌, sym, ap, ◌∙◌, [], ◌++◌, length, take, drop, take-append_self,
  drop-append_self, arith, some, true,
}
use shatters.Bytes.{Bytes, set_u32, get_u32, get_u32-set_u32}
use shatters.Crypto.{Crypto, KeyPair, IsSound, IsSigningPair}
use shatters.Identity.{
  Identity, auth_proof_message, identity_dh_message, signed_prekey_message, sign_identity_dh_key,
  verify_identity_dh_key, create_signed_prekey, verify_signed_prekey,
}

-- No byte string is signed for two purposes: an authentication proof, an identity key and a signed
-- prekey are never the same bytes.
pub messages_apart :
    (nonce dh_key prekey : Bytes) (id : ℕ)
    → (auth_proof_message nonce ≢ identity_dh_message dh_key)
      × (auth_proof_message nonce ≢ signed_prekey_message prekey id)
      × (identity_dh_message dh_key ≢ signed_prekey_message prekey id)
unfolding auth_proof_message identity_dh_message signed_prekey_message
messages_apart nonce dh_key prekey id = (λ e. ground arith, λ e. ground arith, λ e. ground arith)

-- Prekeys of 32 bytes with ids of 32 bits are signed as different byte strings unless both the keys
-- and the ids are the same.
pub signed_prekey_message-injective :
    (k l : Bytes) (i j : ℕ)
    → length k ≡ 32
    → length l ≡ 32
    → i < 2 ^ 32
    → j < 2 ^ 32
    → signed_prekey_message k i ≡ signed_prekey_message l j
    → (k ≡ l) × (i ≡ j)
unfolding signed_prekey_message
signed_prekey_message-injective k l i j m n p q e =
    let tails : k ++ set_u32 i ≡ l ++ set_u32 j = ap (drop 15) e in
    let keys : k ≡ l =
      sym (take-append_self k (set_u32 i))
      ∙ (ap (λ n. take n (k ++ set_u32 i)) m
          ∙ (ap (take 32) tails
              ∙ (ap (λ n. take n (l ++ set_u32 j)) (sym n) ∙ take-append_self l (set_u32 j)))) in
    let ids : set_u32 i ≡ set_u32 j =
      sym (drop-append_self k (set_u32 i))
      ∙ (ap (λ n. drop n (k ++ set_u32 i)) m
          ∙ (ap (drop 32) tails
              ∙ (ap (λ n. drop n (l ++ set_u32 j)) (sym n) ∙ drop-append_self l (set_u32 j)))) in
    (
      keys,
      sym (get_u32-set_u32 i [] p) ∙ (ap (λ b. get_u32 (b ++ [])) ids ∙ get_u32-set_u32 j [] q),
    )

module _ (c : Crypto) (laws : IsSound c) where
  -- What a device signs, every peer accepts: its signed prekeys, and its Diffie-Hellman key.
  pub verify-create :
      (identity : Identity) (id : ℕ) (spk : KeyPair)
      → IsSigningPair c identity.signing
      → (verify_signed_prekey c identity.signing.public_key
            (create_signed_prekey c identity.signing.private_key id spk)
          ≡ some true)
        × (verify_identity_dh_key c identity.signing.public_key identity.dh.public_key
              (sign_identity_dh_key c identity)
            ≡ some true)
  unfolding verify_signed_prekey create_signed_prekey verify_identity_dh_key sign_identity_dh_key
  verify-create identity id spk pair = (
    ap
          (c.verify_detached
            (c.sign_detached (signed_prekey_message spk.public_key id) identity.signing.private_key)
            (signed_prekey_message spk.public_key id))
          pair.public_key
        ∙ laws.verify_sign (signed_prekey_message spk.public_key id) identity.signing.private_key,
    ap
          (c.verify_detached
            (c.sign_detached (identity_dh_message identity.dh.public_key)
              identity.signing.private_key)
            (identity_dh_message identity.dh.public_key))
          pair.public_key
        ∙ laws.verify_sign (identity_dh_message identity.dh.public_key)
            identity.signing.private_key,
  )
