-- ===== src/Ratchet/Opening.antt =====
-- web/src/lib/crypto/ratchet.ts: the first message of a session, from one end to the other.
use shatters.Common.{
  ok, ◌≡◌, refl, sym, ap, ◌∙◌, inl, true, false, some, [], ◌∷◌, Text, length, arith, lookup,
  contains, btoa, text_eq, text_eq_refl,
}
use shatters.Bytes.{Bytes}
use shatters.Message.{RatchetMessage}
use shatters.Crypto.{Crypto, KeyPair, IsSound, IsPair}
use shatters.Envelope.Wire.{IsRatchetMessage}
use shatters.Ratchet.State.{SessionState}
use shatters.Ratchet.Send.{encrypt_message}
use shatters.Ratchet.Receive.{decrypt_message}
use shatters.Ratchet.Window.{chain_ids}
use shatters.Ratchet.Tracks.{IsRoomy}
use shatters.Ratchet.Skip.{Chain}
use shatters.Ratchet.Sealed.{SendsOn, encrypt_message-IsSealed}
use shatters.Ratchet.Start.{Awaits, IsStart}
use shatters.Ratchet.Waiting.{encrypt_message-Awaits}
use shatters.Ratchet.Handover.{decrypt_message-hands_over}

empty-IsRoomy : (dh : Bytes) → IsRoomy dh 1 (btoa dh ∷ []) 0 []
unfolding chain_ids contains lookup
empty-IsRoomy dh = record { fresh = λ i le. refl; room = omega arith; known = λ k e. cc }

head-contains : (t : Text) → contains (t ∷ []) t ≡ true
unfolding contains
head-contains t = rw (text_eq_refl t) refl

-- `a` encrypts a plaintext, `b` decrypts it, and then it is `a` that `b`'s messages go to.
pub record Opening (c : Crypto) (generated : KeyPair) (plaintext : Bytes) (a b : SessionState)
    : Type 0 where
  pub message : RatchetMessage
  pub sent : SessionState
  pub received : SessionState
  pub on_wire : IsRatchetMessage message
  pub encrypts : encrypt_message c plaintext a ≡ (ok message, sent)
  pub decrypts : decrypt_message c generated message b ≡ (ok plaintext, received)
  pub awaits : Awaits c received sent

module _ (c : Crypto) (laws : IsSound c) where
  -- The chain that the initiator stands on before its first message.
  abbrev first_chain : (a b : SessionState) → Awaits c a b → Chain
  first_chain a b aw = record {
    start = aw.step.chain_key;
    ratchet_key = a.our_ratchet_key.public_key;
    associated_data = a.associated_data;
    top = 1;
    peers = btoa a.our_ratchet_key.public_key ∷ [];
    few = omega arith;
    ours = head-contains (btoa a.our_ratchet_key.public_key);
  }

  pub Awaits-Opening :
      (signed_prekey a_ratchet b_ratchet : KeyPair) (dh_out plaintext : Bytes) (a b : SessionState)
      → IsStart signed_prekey a_ratchet a b
      → Awaits c a b
      → IsPair c b_ratchet
      → c.scalarmult b_ratchet.private_key a_ratchet.public_key ≡ some dh_out
      → text_eq signed_prekey.public_key b_ratchet.public_key ≡ false
      → Opening c b_ratchet plaintext a b
  Awaits-Opening signed_prekey a_ratchet b_ratchet dh_out plaintext a b st aw pair_b e_out other =
      let h = first_chain a b aw in
      let on : SendsOn c h a = record {
        sending_chain_key = aw.sending_chain_key;
        our_ratchet_key = refl;
        associated_data = refl;
      } in
      let (m, a1, em, sealed, hd, _, _) = encrypt_message-IsSealed c laws h plaintext a on in
      let number : m.header.message_number ≡ 0 = ap (λ n. n.message_number) hd ∙ st.a_count in
      let previous : m.header.previous_chain_length ≡ 0 =
        ap (λ n. n.previous_chain_length) hd ∙ st.a_previous in
      let (b1, ed, _, waits) =
        decrypt_message-hands_over c laws h b_ratchet plaintext dh_out m a b aw refl refl refl
          sealed (omega arith) (rw st.b_empty (empty-IsRoomy a.our_ratchet_key.public_key))
          (inl st.b_idle) pair_b (rw st.a_pair e_out) (rw st.b_pair other) in
      record {
        message = m;
        sent = a1;
        received = b1;
        on_wire = record {
          dh_public_key = ap length sealed.dh_public_key ∙ aw.our_pair.public_length;
          previous_chain_length = omega arith;
          message_number = omega arith;
          ciphertext = λ e.
              laws.encrypt_nonempty plaintext _ sealed.material.nonce sealed.material.key
                (sym sealed.ciphertext ∙ e);
        };
        encrypts = em;
        decrypts = ed;
        awaits = encrypt_message-Awaits c plaintext b1 a a1 m em waits;
      }
