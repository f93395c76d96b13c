-- ===== src/Ratchet/Others.antt =====
-- web/src/lib/crypto/ratchet.ts: reading on a chain keeps the cached keys of other chains.
use shatters.Common.{
  ok, ℕ, zero, suc, ◌+◌, ◌-◌, ◌≤◌, ◌<◌, ◌≡◌, refl, sym, ap, ◌∙◌, inl, inr, true, false, Text, ltb,
  arith, lookup, lookup-assign, text_eq, text_eq_iff, Bool-cases, Option-cases, btoa, err,
}
use shatters.Bytes.{Bytes}
use shatters.Message.{RatchetMessage}
use shatters.Crypto.{Crypto, IsSound}
use shatters.Ratchet.State.{
  SessionState, Result, M, bind_result, ◌>>=◌, max_skipped_keys, skipped_key_id, advance_chain_key,
}
use shatters.Ratchet.Window.{skip_one, skip_loop, skip_message_keys, chain_of}
use shatters.Ratchet.Receive.{take_message_key}
use shatters.Ratchet.Atomic.{decrypt_with_message_key-state}
use shatters.Ratchet.Chain.{chain_at, message_key_at, chain_of-skipped_key_id}
use shatters.Ratchet.Skip.{
  Chain, Tracks, skip_one-skipped_keys, skip_one-Tracks, skipped_cache, chain_at-next,
  skip_message_keys-Reaches,
}
use shatters.Ratchet.Delivery.{read_on}

-- The ids of two chains differ where their ratchet keys do, in base64.
pub skipped_key_id-apart :
    (dh other : Bytes) (i j : ℕ)
    → text_eq (btoa dh) (btoa other) ≡ false
    → text_eq (skipped_key_id dh i) (skipped_key_id other j) ≡ false
skipped_key_id-apart dh other i j h =
    elim (Bool-cases (text_eq (skipped_key_id dh i) (skipped_key_id other j))) [
      | inr apart ↦ apart
      | inl same ↦
          let equal : btoa dh ≡ btoa other =
            sym (chain_of-skipped_key_id dh i)
            ∙ ap chain_of ((text_eq_iff (skipped_key_id dh i) (skipped_key_id other j)).0 same)
            ∙ chain_of-skipped_key_id other j in
          let never = (text_eq_iff (btoa dh) (btoa other)).1 equal in absurd (ground arith)
    ]

module _ (id : Text) where
  -- The cached key of this id stays.
  abbrev Keeps : {A : Type 0} → M A → Type 0
  Keeps m = (s : SessionState) → lookup id (m s).1.skipped_keys ≡ lookup id s.skipped_keys

  >>=-Keeps :
      {A B : Type 0} (m : M A) (f : A → M B) → Keeps m → ((a : A) → Keeps (f a)) → Keeps (m >>= f)
  >>=-Keeps m f p q s = rest (m s) ∙ p s
    where
      rest :
          (r : Result _ × SessionState)
          → lookup id (bind_result r f).1.skipped_keys ≡ lookup id r.1.skipped_keys
      rest (ok a, t) = q a t
      rest (err e, t) = refl

  take_message_key-Keeps : (c : Crypto) → Keeps (take_message_key c)
  unfolding take_message_key
  take_message_key-Keeps c s = elim (Option-cases s.receiving_chain_key) [
    | inl idle ↦ simp (idle, take_message_key) refl
    | inr (receiving, e) ↦ simp (e, take_message_key) refl
  ]

  module _ (c : Crypto) (h : Chain)
      (apart : (n : ℕ) → text_eq (skipped_key_id h.ratchet_key n) id ≡ false) where
    skip_one-keeps :
        (b : SessionState)
        → b.receive_count < h.top
        → Tracks c h b
        → lookup id (skip_one c (chain_at c h.start b.receive_count) b).skipped_keys
          ≡ lookup id b.skipped_keys
    unfolding skipped_cache
    skip_one-keeps b lt t =
        ap (lookup id) (skip_one-skipped_keys c h b lt t)
        ∙ rw
            (
              lookup-assign id (skipped_key_id h.ratchet_key b.receive_count)
                  (message_key_at c h.start b.receive_count) b.skipped_keys,
              apart b.receive_count,
            )
            refl

    skip_loop-keeps :
        (fuel until : ℕ) (receiving : Bytes) (b : SessionState)
        → receiving ≡ chain_at c h.start b.receive_count
        → b.receive_count + fuel ≡ until
        → until ≤ h.top
        → Tracks c h b
        → lookup id (skip_loop c fuel until receiving b).skipped_keys ≡ lookup id b.skipped_keys
    unfolding skip_loop
    skip_loop-keeps zero until receiving b e n le t = refl
    skip_loop-keeps (suc fuel) until receiving b e n le t =
        let more : ltb b.receive_count until ≡ true = ground arith in
        let lt : b.receive_count < h.top = omega arith in
        let ck : Bytes = chain_at c h.start b.receive_count in
        rw more (
          rw e (
            skip_loop-keeps fuel until (advance_chain_key c ck).chain_key (skip_one c ck b)
              (unfold skip_one in sym (chain_at-next c h.start b.receive_count))
              (unfold skip_one in omega arith) le (skip_one-Tracks c h b lt t)
            ∙ skip_one-keeps b lt t))

    pub skip_message_keys-keeps :
        (until : ℕ) (b : SessionState)
        → b.receive_count ≤ until
        → until ≤ h.top
        → Tracks c h b
        → lookup id (skip_message_keys c until b).1.skipped_keys ≡ lookup id b.skipped_keys
    unfolding skip_message_keys
    skip_message_keys-keeps until b le top t =
        let within : ltb max_skipped_keys (until - b.receive_count) ≡ false =
          ground (arith, t.roomy.room) in
        let ck : Bytes = chain_at c h.start b.receive_count in
        simp (t.receiving_chain_key, within, skip_message_keys)
          (skip_loop-keeps (until - b.receive_count) until ck b refl (omega arith) top t)

    pub read_on-keeps :
        (laws : IsSound c) (m : RatchetMessage) (b : SessionState)
        → b.receive_count ≤ m.header.message_number
        → m.header.message_number < h.top
        → Tracks c h b
        → lookup id (read_on c laws h m b).1.skipped_keys ≡ lookup id b.skipped_keys
    read_on-keeps laws m b le lt t =
        let (skipped, e, _) =
          skip_message_keys-Reaches c h m.header.message_number b le (omega arith) t in
        let first : lookup id skipped.skipped_keys ≡ lookup id b.skipped_keys =
          ap (λ r. lookup id r.1.skipped_keys) (sym e)
          ∙ skip_message_keys-keeps m.header.message_number b le (omega arith) t in
        rw e (
          >>=-Keeps (take_message_key c) _ (take_message_key-Keeps c)
            (λ key s.
              ap (λ r. lookup id r.skipped_keys)
                (decrypt_with_message_key-state c key m.header m.ciphertext s))
            skipped
          ∙ first)
