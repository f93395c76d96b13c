-- ===== src/Ratchet/Crossing.antt =====
-- web/src/lib/crypto/ratchet.ts: a message of a new chain that arrives before the last ones of the old chain.
use shatters.Common.{
  text_eq_iff, ok, ℕ, ◌+◌, ◌≤◌, ◌<◌, ◌≡◌, sym, ap, ◌∙◌, inl, inr, false, none, some, arith, lookup,
  text_eq, btoa,
}
use shatters.Bytes.{Bytes}
use shatters.Message.{RatchetMessage}
use shatters.Crypto.{Crypto, KeyPair, IsSound, IsPair}
use shatters.Ratchet.State.{SessionState, skipped_key_id}
use shatters.Ratchet.Window.{skip_message_keys}
use shatters.Ratchet.Receive.{decrypt_message}
use shatters.Ratchet.Atomic.{message_id}
use shatters.Ratchet.Chain.{message_key_at}
use shatters.Ratchet.Tracks.{IsRoomy}
use shatters.Ratchet.Skip.{Chain, Tracks, Holds, Reaches, skip_message_keys-Reaches}
use shatters.Ratchet.Others.{skipped_key_id-apart, skip_message_keys-keeps}
use shatters.Ratchet.Sealed.{IsSealed}
use shatters.Ratchet.Start.{Awaits}
use shatters.Ratchet.Handover.{decrypt_message-turns}

-- The cache has room for the keys of the new chain behind those of the old one, whose `top` counts them in.
skipped-IsRoomy :
    (c : Crypto) (old h : Chain) (until : ℕ) (b skipped : SessionState)
    → skip_message_keys c until b ≡ (ok tt, skipped)
    → Reaches c old until b skipped
    → b.receive_count ≤ until
    → until + h.top ≤ old.top
    → Tracks c old b
    → h.peers ≡ old.peers
    → text_eq (btoa old.ratchet_key) (btoa h.ratchet_key) ≡ false
    → ((i : ℕ) → lookup (skipped_key_id h.ratchet_key i) b.skipped_keys ≡ none)
    → IsRoomy h.ratchet_key h.top h.peers 0 skipped.skipped_keys
skipped-IsRoomy c old h until b skipped e r le room t peers apart fresh = record {
  fresh = λ i _.
      ap (λ s. lookup (skipped_key_id h.ratchet_key i) s.1.skipped_keys) (sym e)
      ∙ skip_message_keys-keeps (skipped_key_id h.ratchet_key i) c old
          (λ n. skipped_key_id-apart old.ratchet_key h.ratchet_key n i apart) until b le
          (omega arith) t
      ∙ fresh i;
  room = omega (arith, r.tracks.roomy.room, r.count_is);
  known = λ k there. rw peers (r.tracks.roomy.known k there);
}

-- What was held of the messages before `until` is cached once the receiver is there.
passed-cached :
    (c : Crypto) (old : Chain) (until j : ℕ) (b skipped : SessionState)
    → Reaches c old until b skipped
    → j < until
    → Holds c old j b
    → lookup (skipped_key_id old.ratchet_key j) skipped.skipped_keys
      ≡ some (message_key_at c old.start j)
passed-cached c old until j b skipped r lt holds = elim (r.holds j holds) [
  | inl ahead ↦ absurd (omega (arith, r.count_is, ahead))
  | inr there ↦ there
]

-- A receiver reads on a chain, wherever it stands in it, when the first message of the sender's next chain
-- arrives, of any number there. It decrypts to what was encrypted; the receiver then reads on the
-- new chain, and has turned to a chain of its own that the sender awaits; and of every message of the
-- old chain that it could still decrypt, up to the length that the header gives, the right key is
-- cached. Both chains must fit the cache, the keys of the two chains differ in base64, the cache hold
-- no key of the new chain, and the receiver's fresh key pair be none it had and not meet the weak-key
-- refusal.
pub decrypt_message-crosses :
    (c : Crypto) (laws : IsSound c) (old h : Chain) (generated : KeyPair) (plaintext dh_out : Bytes)
    (m : RatchetMessage) (a b : SessionState) (w : Awaits c a b)
    → h.start ≡ w.step.chain_key
    → h.ratchet_key ≡ a.our_ratchet_key.public_key
    → h.associated_data ≡ a.associated_data
    → IsSealed c h plaintext m
    → m.header.message_number < h.top
    → Tracks c old b
    → b.receive_count ≤ m.header.previous_chain_length
    → m.header.previous_chain_length + h.top ≤ old.top
    → h.peers ≡ old.peers
    → text_eq (btoa old.ratchet_key) (btoa h.ratchet_key) ≡ false
    → ((i : ℕ) → lookup (skipped_key_id h.ratchet_key i) b.skipped_keys ≡ none)
    → IsPair c generated
    → c.scalarmult generated.private_key a.our_ratchet_key.public_key ≡ some dh_out
    → text_eq b.our_ratchet_key.public_key generated.public_key ≡ false
    → (next : SessionState) × (decrypt_message c generated m b ≡ (ok plaintext, next))
      × Tracks c h next
      × Awaits c next a
      × ((j : ℕ)
          → j < m.header.previous_chain_length
          → Holds c old j b
          → lookup (skipped_key_id old.ratchet_key j) next.skipped_keys
            ≡ some (message_key_at c old.start j))
decrypt_message-crosses c laws old h generated plaintext dh_out m a b w start key ad s lt t le room
      peers apart fresh pair e other =
    let until : ℕ = m.header.previous_chain_length in
    let apart_back : text_eq (btoa h.ratchet_key) (btoa old.ratchet_key) ≡ false = ground (
      arith,
      text_eq_iff (btoa h.ratchet_key) (btoa old.ratchet_key),
      text_eq_iff (btoa old.ratchet_key) (btoa h.ratchet_key),
    ) in
    let (skipped, skips, r) = skip_message_keys-Reaches c old until b le (omega arith) t in
    let roomy = skipped-IsRoomy c old h until b skipped skips r le room t peers apart fresh in
    let miss : lookup (message_id m) b.skipped_keys ≡ none =
      rw s.dh_public_key (fresh m.header.message_number) in
    let (next, opens, tracks, awaits, keeps) =
      decrypt_message-turns c laws h generated plaintext dh_out m a b skipped w start key ad s lt
        miss skips roomy pair e other in
    (
      next,
      opens,
      tracks,
      awaits,
      λ j before holds.
          keeps (skipped_key_id old.ratchet_key j)
            (λ n. skipped_key_id-apart h.ratchet_key old.ratchet_key n j apart_back)
          ∙ passed-cached c old until j b skipped r before holds,
    )
