-- ===== src/Ratchet/Skip.antt =====
-- web/src/lib/crypto/ratchet.ts, `skipMessageKeys`: the loop reaches the message it is to reach, and
-- caches the right key for every message that it passes.
use shatters.Common.{
  ok, ℕ, zero, suc, ◌+◌, ◌-◌, ◌≤◌, ◌<◌, ◌≡◌, ◌≢◌, refl, sym, ap, ◌∙◌, ◌⊎◌, inl, inr, true, false,
  some, List, Text, length, arith, ltb, assign, lookup, contains, Bool-cases, btoa,
}
use shatters.Bytes.{Bytes}
use shatters.Crypto.{Crypto}
use shatters.Ratchet.State.{SessionState, max_skipped_keys, skipped_key_id, advance_chain_key}
use shatters.Ratchet.Window.{skip_one, skip_loop, skip_message_keys}
use shatters.Ratchet.Bounds.{Cache}
use shatters.Ratchet.Chain.{chain_at, message_key_at}
use shatters.Ratchet.Tracks.{
  IsRoomy, assign-IsRoomy, evict-IsRoomy, lookup-assign_id, lookup-assign_same,
}

-- A chain as both ends see it: the chain key it starts from, the sender's ratchet key, the associated
-- data of the session; no message has a number from `top` on, and the receiver's cache holds keys of
-- `peers` only.
pub record Chain : Type 0 where
  pub start : Bytes
  pub ratchet_key : Bytes
  pub associated_data : Bytes
  pub top : ℕ
  pub peers : List Text
  pub few : length peers ≤ 64
  pub ours : contains peers (btoa ratchet_key) ≡ true

-- The receiver stands on the chain at its count.
pub record Tracks (c : Crypto) (h : Chain) (b : SessionState) : Type 0 where
  pub their_ratchet_key : b.their_ratchet_key ≡ some h.ratchet_key
  pub receiving_chain_key : b.receiving_chain_key ≡ some (chain_at c h.start b.receive_count)
  pub associated_data : b.associated_data ≡ h.associated_data
  pub roomy : IsRoomy h.ratchet_key h.top h.peers b.receive_count b.skipped_keys

-- The receiver can decrypt message `j`: it is ahead, or its key is cached.
abbrev pub Holds : Crypto → Chain → ℕ → SessionState → Type 0
Holds c h j b =
    (b.receive_count ≤ j)
    ⊎ (lookup (skipped_key_id h.ratchet_key j) b.skipped_keys ≡ some (message_key_at c h.start j))

pub chain_at-next :
    (c : Crypto) (start : Bytes) (n : ℕ)
    → chain_at c start (n + 1) ≡ (advance_chain_key c (chain_at c start n)).chain_key
chain_at-next c start n = let e : n + 1 ≡ suc n = omega arith in rw e refl

module _ (c : Crypto) (h : Chain) where
  unfoldable pub skipped_cache : SessionState → Cache
  skipped_cache b =
      assign (skipped_key_id h.ratchet_key b.receive_count)
        (message_key_at c h.start b.receive_count) b.skipped_keys

  pub skip_one-skipped_keys :
      (b : SessionState)
      → b.receive_count < h.top
      → Tracks c h b
      → (skip_one c (chain_at c h.start b.receive_count) b).skipped_keys ≡ skipped_cache b
  unfolding skip_one skipped_cache
  skip_one-skipped_keys b lt t = rw t.their_ratchet_key (
      evict-IsRoomy h.ratchet_key h.top h.peers h.few h.ours (b.receive_count + 1) (skipped_cache b)
        (assign-IsRoomy h.ratchet_key h.top h.peers h.few h.ours b.receive_count
          (message_key_at c h.start b.receive_count) b.skipped_keys lt t.roomy))

  pub skip_one-Tracks :
      (b : SessionState)
      → b.receive_count < h.top
      → Tracks c h b
      → Tracks c h (skip_one c (chain_at c h.start b.receive_count) b)
  unfolding skip_one skipped_cache
  skip_one-Tracks b lt t = record {
    their_ratchet_key = t.their_ratchet_key;
    receiving_chain_key = ap some (sym (chain_at-next c h.start b.receive_count));
    associated_data = t.associated_data;
    roomy = rw (skip_one-skipped_keys b lt t) (
        assign-IsRoomy h.ratchet_key h.top h.peers h.few h.ours b.receive_count
          (message_key_at c h.start b.receive_count) b.skipped_keys lt t.roomy);
  }

  skip_one-Holds :
      (b : SessionState)
      → b.receive_count < h.top
      → Tracks c h b
      → (j : ℕ) → Holds c h j b
      → Holds c h j (skip_one c (chain_at c h.start b.receive_count) b)
  unfolding skip_one skipped_cache
  skip_one-Holds b lt t j (inr there) =
      let other : b.receive_count ≢ j = λ e. ground (arith, t.roomy.fresh j (omega arith), there) in
      inr (
        rw (skip_one-skipped_keys b lt t) (
          lookup-assign_id h.ratchet_key (message_key_at c h.start b.receive_count) b.receive_count
            j b.skipped_keys other
          ∙ there))
  skip_one-Holds b lt t j (inl ahead) = elim (Bool-cases (ltb b.receive_count j)) [
    | inl later ↦ inl (ground arith)
    | inr now ↦
        let same : j ≡ b.receive_count = ground arith in
        inr (
          rw (skip_one-skipped_keys b lt t) (
            rw same (
              lookup-assign_same h.ratchet_key (message_key_at c h.start b.receive_count)
                b.receive_count b.skipped_keys)))
  ]

  -- What a state `b` is to a state `a` that has moved on along the chain.
  pub record Reaches (count : ℕ) (a b : SessionState) : Type 0 where
    pub tracks : Tracks c h b
    pub count_is : b.receive_count ≡ count
    pub holds : (j : ℕ) → Holds c h j a → Holds c h j b

  skip_loop-Reaches :
      (fuel until : ℕ) (receiving : Bytes) (b : SessionState)
      → receiving ≡ chain_at c h.start b.receive_count
      → b.receive_count + fuel ≡ until
      → until ≤ h.top
      → Tracks c h b
      → Reaches until b (skip_loop c fuel until receiving b)
  unfolding skip_loop
  skip_loop-Reaches zero until receiving b e n le t = record {
    tracks = t;
    count_is = omega arith;
    holds = λ j p. p;
  }
  skip_loop-Reaches (suc fuel) until receiving b e n le t =
      let more : ltb b.receive_count until ≡ true = ground arith in
      let lt : b.receive_count < h.top = omega arith in
      let ck : Bytes = chain_at c h.start b.receive_count in
      let next : Bytes = (advance_chain_key c ck).chain_key in
      let rest : Reaches until (skip_one c ck b) (skip_loop c fuel until next (skip_one c ck b)) =
        skip_loop-Reaches fuel until next (skip_one c ck b)
          (unfold skip_one in sym (chain_at-next c h.start b.receive_count))
          (unfold skip_one in omega arith) le (skip_one-Tracks b lt t) in
      rw more (
        rw e (record {
          tracks = rest.tracks;
          count_is = rest.count_is;
          holds = λ j p. rest.holds j (skip_one-Holds b lt t j p);
        }))

  -- A receiver that is not past message `until` skips to it.
  pub skip_message_keys-Reaches :
      (until : ℕ) (b : SessionState)
      → b.receive_count ≤ until
      → until ≤ h.top
      → Tracks c h b
      → (skipped : SessionState) × (skip_message_keys c until b ≡ (ok tt, skipped))
        × Reaches until b skipped
  unfolding skip_message_keys
  skip_message_keys-Reaches until b le top t =
      let within : ltb max_skipped_keys (until - b.receive_count) ≡ false =
        ground (arith, t.roomy.room) in
      let ck : Bytes = chain_at c h.start b.receive_count in
      (
        skip_loop c (until - b.receive_count) until ck b,
        simp (t.receiving_chain_key, within, skip_message_keys) refl,
        skip_loop-Reaches (until - b.receive_count) until ck b refl (omega arith) top t,
      )
