-- ===== src/Ratchet/Handover.antt =====
-- web/src/lib/crypto/ratchet.ts, `dhRatchet`: the turns that the two ends take.
use shatters.Common.{
  ok, ℕ, ◌-◌, ◌≤◌, ◌<◌, ◌≡◌, refl, sym, ap, ◌∙◌, ◌⊎◌, inl, inr, false, none, some, length, arith,
  lookup, text_eq, Option-cases, Text,
}
use shatters.Bytes.{Bytes}
use shatters.Message.{MessageHeader, RatchetMessage}
use shatters.Crypto.{Crypto, KeyPair, IsSound, IsPair}
use shatters.Ratchet.State.{skipped_key_id, SessionState, RootStep, advance_root_key}
use shatters.Ratchet.Window.{skip_loop, skip_message_keys}
use shatters.Ratchet.Receive.{
  dh_ratchet, is_new_ratchet_key, turn_ratchet, receive_message, clone_state, commit_state,
  conclude, decrypt_message,
}
use shatters.Ratchet.Atomic.{message_id, decrypt_message-live}
use shatters.Ratchet.Tracks.{IsRoomy}
use shatters.Ratchet.Skip.{Chain, Tracks}
use shatters.Ratchet.Sealed.{IsSealed}
use shatters.Ratchet.Delivery.{read_on-Received, commit_state-Received}
use shatters.Ratchet.Others.{read_on-keeps}
use shatters.Ratchet.Steady.{sending_half, skip_message_keys-Steady, read_on-Steady}
use shatters.Ratchet.Start.{Awaits, advance_root_key-ok, advance_root_key-length}

module _ (c : Crypto) (laws : IsSound c) where
  -- A chain that is read to its end needs no skipping.
  skip_message_keys-nothing :
      (until : ℕ) (b : SessionState)
      → (b.receiving_chain_key ≡ none) ⊎ (until ≤ b.receive_count)
      → skip_message_keys c until b ≡ (ok tt, b)
  unfolding skip_message_keys skip_loop
  skip_message_keys-nothing until b (inl idle) = simp (idle, skip_message_keys) refl
  skip_message_keys-nothing until b (inr read) =
      let none_left : until - b.receive_count ≡ 0 = omega arith in
      elim (Option-cases b.receiving_chain_key) [
        | inl idle ↦ simp (idle, skip_message_keys) refl
        | inr (receiving, e) ↦ simp (e, none_left, skip_message_keys, skip_loop) refl
      ]

  -- The state after `dhRatchet`.
  turned :
      SessionState → (generated : KeyPair) → Bytes → (receiving sending : RootStep) → SessionState
  turned b generated key receiving sending = record b {
    root_key = sending.root_key;
    our_ratchet_key = generated;
    their_ratchet_key = some key;
    sending_chain_key = some sending.chain_key;
    receiving_chain_key = some receiving.chain_key;
    send_count = 0;
    receive_count = 0;
    previous_chain_length = b.send_count;
  }

  dh_ratchet-turned :
      (b : SessionState) (generated : KeyPair) (key dh dh_out : Bytes)
      (receiving sending : RootStep)
      → c.scalarmult b.our_ratchet_key.private_key key ≡ some dh
      → advance_root_key c b.root_key dh ≡ ok receiving
      → c.scalarmult generated.private_key key ≡ some dh_out
      → advance_root_key c receiving.root_key dh_out ≡ ok sending
      → dh_ratchet c generated key b ≡ (ok tt, turned b generated key receiving sending)
  unfolding dh_ratchet turned
  dh_ratchet-turned b generated key dh dh_out receiving sending e f g k =
      rw e (rw f (rw g (rw k refl)))

  -- The peer turns its ratchet, when a message of the new chain reaches it, to the key that the sender
  -- encrypts under.
  turn_ratchet-turned :
      (a b skipped : SessionState) (generated : KeyPair) (header : MessageHeader) (w : Awaits c a b)
      (dh_out : Bytes) (sending : RootStep)
      → header.dh_public_key ≡ a.our_ratchet_key.public_key
      → skip_message_keys c header.previous_chain_length b ≡ (ok tt, skipped)
      → sending_half skipped ≡ sending_half b
      → c.scalarmult generated.private_key a.our_ratchet_key.public_key ≡ some dh_out
      → advance_root_key c w.step.root_key dh_out ≡ ok sending
      → turn_ratchet c generated header b
        ≡ (ok tt, turned skipped generated a.our_ratchet_key.public_key w.step sending)
  unfolding turn_ratchet
  turn_ratchet-turned a b skipped generated header w dh_out sending e skips steady g k =
      let receive_dh : c.scalarmult b.our_ratchet_key.private_key a.our_ratchet_key.public_key
          ≡ some w.shared =
        ap (c.scalarmult b.our_ratchet_key.private_key) w.our_pair.public_key
        ∙ (laws.scalarmult_comm b.our_ratchet_key.private_key a.our_ratchet_key.private_key
            ∙ (ap (c.scalarmult a.our_ratchet_key.private_key) (sym w.peer_pair.public_key)
                ∙ w.shared_is)) in
      let private_key : skipped.our_ratchet_key ≡ b.our_ratchet_key =
        ap (λ s. s.our_ratchet_key) steady in
      let root : skipped.root_key ≡ b.root_key = ap (λ s. s.root_key) steady in
      rw e (
        rw w.is_new (
          rw skips (
            dh_ratchet-turned skipped generated a.our_ratchet_key.public_key w.shared dh_out w.step
              sending
              (ap (λ q. c.scalarmult q.private_key a.our_ratchet_key.public_key) private_key
                ∙ receive_dh)
              (ap (λ q. advance_root_key c q w.shared) root ∙ w.step_is) g k)))

  -- The turned state reads on the sender's chain.
  turned-Tracks :
      (h : Chain) (a b skipped : SessionState) (generated : KeyPair) (w : Awaits c a b)
      (sending : RootStep)
      → sending_half skipped ≡ sending_half b
      → h.start ≡ w.step.chain_key
      → h.ratchet_key ≡ a.our_ratchet_key.public_key
      → h.associated_data ≡ a.associated_data
      → IsRoomy h.ratchet_key h.top h.peers 0 skipped.skipped_keys
      → Tracks c h (turned skipped generated a.our_ratchet_key.public_key w.step sending)
  unfolding turned
  turned-Tracks h a b skipped generated w sending steady start key ad roomy = record {
    their_ratchet_key = ap some (sym key);
    receiving_chain_key = ap some (sym start);
    associated_data = ap (λ s. s.associated_data) steady ∙ w.associated_data ∙ sym ad;
    roomy = roomy;
  }

  -- It also stands on a new chain of its own, which the sender has not turned to.
  turned-Awaits :
      (a b skipped next : SessionState) (generated : KeyPair) (w : Awaits c a b) (dh_out : Bytes)
      (sending : RootStep)
      → length w.step.root_key ≡ 32
      → IsPair c generated
      → c.scalarmult generated.private_key a.our_ratchet_key.public_key ≡ some dh_out
      → advance_root_key c w.step.root_key dh_out ≡ ok sending
      → text_eq b.our_ratchet_key.public_key generated.public_key ≡ false
      → sending_half next
        ≡ sending_half (turned skipped generated a.our_ratchet_key.public_key w.step sending)
      → Awaits c (commit_state b next) a
  unfolding turned commit_state is_new_ratchet_key
  turned-Awaits a b skipped next generated w dh_out sending long pair e f other same =
      let ours : next.our_ratchet_key ≡ generated = ap (λ s. s.our_ratchet_key) same in
      let theirs : next.their_ratchet_key ≡ some a.our_ratchet_key.public_key =
        ap (λ s. s.their_ratchet_key) same in
      let root : next.root_key ≡ sending.root_key = ap (λ s. s.root_key) same in
      let chain : next.sending_chain_key ≡ some sending.chain_key =
        ap (λ s. s.sending_chain_key) same in
      let count : next.send_count ≡ 0 = ap (λ s. s.send_count) same in
      record {
        our_pair = rw ours pair;
        peer_pair = w.our_pair;
        their_ratchet_key = theirs;
        associated_data = sym w.associated_data;
        root_length = rw w.root_key long;
        shared = dh_out;
        shared_is = rw ours e;
        step = sending;
        step_is = rw w.root_key f;
        root_key = root;
        sending_chain_key = rw count chain;
        is_new = rw (w.their_ratchet_key, ours) (rw other refl);
      }

  -- The receiver skips on the chain before, turns, and reads on the new chain.
  pub decrypt_message-turns :
      (h : Chain) (generated : KeyPair) (plaintext dh_out : Bytes) (m : RatchetMessage)
      (a b skipped : SessionState) (w : Awaits c a b)
      → h.start ≡ w.step.chain_key
      → h.ratchet_key ≡ a.our_ratchet_key.public_key
      → h.associated_data ≡ a.associated_data
      → IsSealed c h plaintext m
      → m.header.message_number < h.top
      → lookup (message_id m) b.skipped_keys ≡ none
      → skip_message_keys c m.header.previous_chain_length b ≡ (ok tt, skipped)
      → IsRoomy h.ratchet_key h.top h.peers 0 skipped.skipped_keys
      → IsPair c generated
      → c.scalarmult generated.private_key a.our_ratchet_key.public_key ≡ some dh_out
      → text_eq b.our_ratchet_key.public_key generated.public_key ≡ false
      → (next : SessionState) × (decrypt_message c generated m b ≡ (ok plaintext, next))
        × Tracks c h next
        × Awaits c next a
        × ((id : Text)
            → ((n : ℕ) → text_eq (skipped_key_id h.ratchet_key n) id ≡ false)
            → lookup id next.skipped_keys ≡ lookup id skipped.skipped_keys)
  unfolding receive_message conclude clone_state
  decrypt_message-turns h generated plaintext dh_out m a b skipped w start key ad s lt miss skips
        roomy pair e other =
      let steady : sending_half skipped ≡ sending_half b =
        ap (λ r. sending_half r.1) (sym skips)
        ∙ skip_message_keys-Steady c m.header.previous_chain_length b in
      let long : length w.step.root_key ≡ 32 =
        advance_root_key-length c laws b.root_key w.shared w.step w.root_length w.step_is in
      let (sending, g, _) = advance_root_key-ok c laws w.step.root_key dh_out long in
      let fresh_start : SessionState =
        turned skipped generated a.our_ratchet_key.public_key w.step sending in
      let tracks = turned-Tracks h a b skipped generated w sending steady start key ad roomy in
      let zero_read : fresh_start.receive_count ≤ m.header.message_number =
        unfold turned in omega arith in
      let (next, reads, r) =
        read_on-Received c laws h plaintext m fresh_start s tracks zero_read lt in
      let turn =
        turn_ratchet-turned a b skipped generated m.header w dh_out sending (s.dh_public_key ∙ key)
          skips steady e g in
      let size : length m.header.dh_public_key ≡ 32 =
        ap length (s.dh_public_key ∙ key) ∙ w.our_pair.public_length in
      let on : sending_half next ≡ sending_half fresh_start =
        ap (λ r. sending_half r.1) (sym reads) ∙ read_on-Steady c m fresh_start in
      (
        commit_state b next,
        decrypt_message-live c generated m b size miss ∙ rw (turn, reads) refl,
        (commit_state-Received c laws h m.header.message_number b fresh_start next
            (w.associated_data ∙ sym ad) r).tracks,
        turned-Awaits a b skipped next generated w dh_out sending long pair e g other on,
        λ id apart.
            unfold commit_state in
            (ap (λ r. lookup id r.1.skipped_keys) (sym reads)
              ∙ read_on-keeps id c h apart laws m fresh_start zero_read lt tracks
              ∙ unfold turned in refl),
      )

  -- The same where the chain before is read to its end, or there was none.
  pub decrypt_message-hands_over :
      (h : Chain) (generated : KeyPair) (plaintext dh_out : Bytes) (m : RatchetMessage)
      (a b : SessionState) (w : Awaits c a b)
      → h.start ≡ w.step.chain_key
      → h.ratchet_key ≡ a.our_ratchet_key.public_key
      → h.associated_data ≡ a.associated_data
      → IsSealed c h plaintext m
      → m.header.message_number < h.top
      → IsRoomy h.ratchet_key h.top h.peers 0 b.skipped_keys
      → (b.receiving_chain_key ≡ none) ⊎ (m.header.previous_chain_length ≤ b.receive_count)
      → IsPair c generated
      → c.scalarmult generated.private_key a.our_ratchet_key.public_key ≡ some dh_out
      → text_eq b.our_ratchet_key.public_key generated.public_key ≡ false
      → (next : SessionState) × (decrypt_message c generated m b ≡ (ok plaintext, next))
        × Tracks c h next
        × Awaits c next a
  decrypt_message-hands_over h generated plaintext dh_out m a b w start key ad s lt roomy read pair
        e other =
      let miss : lookup (message_id m) b.skipped_keys ≡ none =
        rw s.dh_public_key (roomy.fresh m.header.message_number (omega arith)) in
      let (next, opens, tracks, awaits, _) =
        decrypt_message-turns h generated plaintext dh_out m a b b w start key ad s lt miss
          (skip_message_keys-nothing m.header.previous_chain_length b read) roomy pair e other in
      (next, opens, tracks, awaits)
