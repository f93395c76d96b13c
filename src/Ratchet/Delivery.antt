-- ===== src/Ratchet/Delivery.antt =====
-- web/src/lib/crypto/ratchet.ts, `encryptMessage` and `decryptMessage` together: the messages of one
-- chain decrypt in whatever order they arrive.
use shatters.Common.{
  ok, ℕ, ◌+◌, ◌≤◌, ◌<◌, ◌≡◌, ◌≢◌, refl, sym, ap, ◌∙◌, inl, inr, none, some, length, arith, lookup,
  text_eq_refl, remove_key,
}
use shatters.Bytes.{Bytes}
use shatters.Message.{RatchetMessage}
use shatters.Crypto.{Crypto, KeyPair, IsSound}
use shatters.Ratchet.State.{SessionState, M, ◌>>=◌, skipped_key_id, advance_chain_key}
use shatters.Ratchet.Window.{skip_message_keys}
use shatters.Ratchet.Receive.{
  decrypt_with_message_key, is_new_ratchet_key, turn_ratchet, take_message_key, receive_message,
  clone_state, commit_state, conclude, conclude_cached, decrypt_message,
}
use shatters.Ratchet.Atomic.{message_id, decrypt_message-cached, decrypt_message-live}
use shatters.Ratchet.Chain.{chain_at, message_key_at}
use shatters.Ratchet.Tracks.{pass-IsRoomy, remove-IsRoomy, lookup-remove_id}
use shatters.Ratchet.Skip.{Chain, Tracks, Holds, skip_message_keys-Reaches, chain_at-next}
use shatters.Ratchet.Sealed.{IsSealed, decrypt_with_message_key-IsSealed}

module _ (c : Crypto) (laws : IsSound c) (h : Chain) where
  -- A receiver after message `i`: it has not lost any other.
  pub record Received (i : ℕ) (a b : SessionState) : Type 0 where
    pub tracks : Tracks c h b
    pub holds : (j : ℕ) → i ≢ j → Holds c h j a → Holds c h j b

  -- The key of the message that a receiver stands at.
  take_message_key-Received :
      (b : SessionState)
      → Tracks c h b
      → (next : SessionState) × (take_message_key c b
          ≡ (ok (message_key_at c h.start b.receive_count), next))
        × Received b.receive_count b next
  unfolding take_message_key
  take_message_key-Received b t =
      let ck : Bytes = chain_at c h.start b.receive_count in
      (
        record b {
          receiving_chain_key = some (advance_chain_key c ck).chain_key;
          receive_count = b.receive_count + 1;
        },
        simp (t.receiving_chain_key, take_message_key) refl,
        record {
          tracks = record {
            their_ratchet_key = t.their_ratchet_key;
            receiving_chain_key = ap some (sym (chain_at-next c h.start b.receive_count));
            associated_data = t.associated_data;
            roomy =
                pass-IsRoomy h.ratchet_key h.top h.peers h.few h.ours b.receive_count b.skipped_keys
                  t.roomy;
          };
          holds = λ j n p. elim p [ inl ahead ↦ inl (omega arith) | inr there ↦ inr there ];
        },
      )

  -- What `receive_message` does once the ratchet key is the peer's.
  abbrev pub read_on : RatchetMessage → M Bytes
  read_on m = skip_message_keys c m.header.message_number >>= λ _.
      take_message_key c >>= λ key. decrypt_with_message_key c key m.header m.ciphertext

  pub read_on-Received :
      (plaintext : Bytes) (m : RatchetMessage) (b : SessionState)
      → IsSealed c h plaintext m
      → Tracks c h b
      → b.receive_count ≤ m.header.message_number
      → m.header.message_number < h.top
      → (next : SessionState) × (read_on m b ≡ (ok plaintext, next))
        × Received m.header.message_number b next
  read_on-Received plaintext m b s t le lt =
      let i : ℕ = m.header.message_number in
      let (skipped, e, r) = skip_message_keys-Reaches c h i b le (omega arith) t in
      let (next, f, q) = take_message_key-Received skipped r.tracks in
      let g =
        decrypt_with_message_key-IsSealed c laws h plaintext m next s q.tracks.associated_data in
      let there : take_message_key c skipped ≡ (ok (message_key_at c h.start i), next) =
        f ∙ ap (λ n. (ok (message_key_at c h.start n), next)) r.count_is in
      (
        next,
        rw (e, there, g) refl,
        record { tracks = q.tracks; holds = λ j n p. q.holds j (rw r.count_is n) (r.holds j p) },
      )

  turn_ratchet-Tracks :
      (generated : KeyPair) (m : RatchetMessage) (b : SessionState)
      → m.header.dh_public_key ≡ h.ratchet_key
      → Tracks c h b
      → turn_ratchet c generated m.header b ≡ (ok tt, b)
  unfolding turn_ratchet is_new_ratchet_key
  turn_ratchet-Tracks generated m b e t =
      simp (e, t.their_ratchet_key, text_eq_refl h.ratchet_key, turn_ratchet, is_new_ratchet_key)
        refl

  pub commit_state-Received :
      (i : ℕ) (live b next : SessionState)
      → live.associated_data ≡ h.associated_data
      → Received i b next
      → Received i b (commit_state live next)
  unfolding commit_state
  commit_state-Received i live b next e r = record {
    tracks = record {
      their_ratchet_key = r.tracks.their_ratchet_key;
      receiving_chain_key = r.tracks.receiving_chain_key;
      associated_data = e;
      roomy = r.tracks.roomy;
    };
    holds = r.holds;
  }

  module _ (long : length h.ratchet_key ≡ 32) (generated : KeyPair) (plaintext : Bytes)
      (m : RatchetMessage) (b : SessionState) (s : IsSealed c h plaintext m)
      (t : Tracks c h b) where
    decrypt_message-ahead :
        b.receive_count ≤ m.header.message_number
        → m.header.message_number < h.top
        → (next : SessionState) × (decrypt_message c generated m b ≡ (ok plaintext, next))
          × Received m.header.message_number b next
    unfolding receive_message conclude clone_state
    decrypt_message-ahead le lt =
        let miss : lookup (message_id m) b.skipped_keys ≡ none =
          rw s.dh_public_key (t.roomy.fresh m.header.message_number le) in
        let (next, e, r) = read_on-Received plaintext m b s t le lt in
        let turned = turn_ratchet-Tracks generated m b s.dh_public_key t in
        (
          commit_state b next,
          decrypt_message-live c generated m b (ap length s.dh_public_key ∙ long) miss
              ∙ rw (turned, e) refl,
          commit_state-Received m.header.message_number b b next t.associated_data r,
        )

    decrypt_message-late :
        lookup (skipped_key_id h.ratchet_key m.header.message_number) b.skipped_keys
          ≡ some (message_key_at c h.start m.header.message_number)
        → (next : SessionState) × (decrypt_message c generated m b ≡ (ok plaintext, next))
          × Received m.header.message_number b next
    unfolding conclude_cached
    decrypt_message-late there =
        let i : ℕ = m.header.message_number in
        let hit : lookup (message_id m) b.skipped_keys ≡ some (message_key_at c h.start i) =
          rw s.dh_public_key there in
        let g = decrypt_with_message_key-IsSealed c laws h plaintext m b s t.associated_data in
        (
          record b { skipped_keys = remove_key (message_id m) b.skipped_keys },
          decrypt_message-cached c generated m b (message_key_at c h.start i)
                (ap length s.dh_public_key ∙ long) hit
              ∙ rw g refl,
          record {
            tracks = record {
              their_ratchet_key = t.their_ratchet_key;
              receiving_chain_key = t.receiving_chain_key;
              associated_data = t.associated_data;
              roomy =
                  remove-IsRoomy h.ratchet_key h.top h.peers h.few h.ours b.receive_count
                    (message_id m) b.skipped_keys t.roomy;
            };
            holds = λ j n p. elim p [
              | inl ahead ↦ inl ahead
              | inr kept ↦
                  inr (
                    rw s.dh_public_key (lookup-remove_id h.ratchet_key i j b.skipped_keys n ∙ kept))
            ];
          },
        )

    -- A message that the receiver holds decrypts to what was encrypted, and no other one is lost.
    pub decrypt_message-Received :
        Holds c h m.header.message_number b
        → m.header.message_number < h.top
        → (next : SessionState) × (decrypt_message c generated m b ≡ (ok plaintext, next))
          × Received m.header.message_number b next
    decrypt_message-Received (inl ahead) lt = decrypt_message-ahead ahead lt
    decrypt_message-Received (inr there) lt = decrypt_message-late there
