-- ===== src/Ratchet/Tracks.antt =====
-- web/src/lib/crypto/ratchet.ts: a receiver on a chain, and what `skipMessageKeys` caches for it.
use shatters.Common.{
  ℕ, ◌+◌, ◌-◌, ◌≤◌, ◌<◌, ◌≡◌, ◌≢◌, sym, ◌∙◌, inl, inr, true, false, none, some, List, Text, length,
  arith, assign, lookup, lookup-assign, lookup-remove_key, remove_key, text_eq, text_eq_iff,
  text_eq_refl, contains, Bool-cases, btoa,
}
use shatters.Bytes.{Bytes}
use shatters.Ratchet.State.{skipped_key_id}
use shatters.Ratchet.Window.{chain_ids, evict_skipped_keys}
use shatters.Ratchet.Bounds.{Cache, chains-le, remove_key-length, chain_ids-remove_key}
use shatters.Ratchet.Chain.{
  skipped_key_id-injective, chain_of-skipped_key_id, evict_skipped_keys-id, length-assign,
  chain_ids-assign,
}

-- The cache `m` of a receiver that has passed `count` messages of a chain, of which none has a number
-- from `top` on: no key of a later message is there, and no eviction will be needed.
pub record IsRoomy (dh : Bytes) (top : ℕ) (peers : List Text) (count : ℕ) (m : Cache) : Type 0 where
  pub fresh : (i : ℕ) → count ≤ i → lookup (skipped_key_id dh i) m ≡ none
  pub room : length m + (top - count) ≤ 2000
  pub known : (k : Text) → contains (chain_ids m) k ≡ true → contains peers k ≡ true

other_id :
    (dh : Bytes) (i j : ℕ) → i ≢ j → text_eq (skipped_key_id dh i) (skipped_key_id dh j) ≡ false
other_id dh i j n = elim (Bool-cases (text_eq (skipped_key_id dh i) (skipped_key_id dh j))) [
  | inl same ↦ absurd (
      n (
        skipped_key_id-injective dh i j
          ((text_eq_iff (skipped_key_id dh i) (skipped_key_id dh j)).0 same)))
  | inr e ↦ e
]

pub lookup-assign_id :
    (dh key : Bytes) (i j : ℕ) (m : Cache)
    → i ≢ j
    → lookup (skipped_key_id dh j) (assign (skipped_key_id dh i) key m)
      ≡ lookup (skipped_key_id dh j) m
lookup-assign_id dh key i j m n =
    ground
      (arith, lookup-assign (skipped_key_id dh j) (skipped_key_id dh i) key m, other_id dh i j n)

pub lookup-assign_same :
    (dh key : Bytes) (i : ℕ) (m : Cache)
    → lookup (skipped_key_id dh i) (assign (skipped_key_id dh i) key m) ≡ some key
lookup-assign_same dh key i m = ground (
  arith,
  lookup-assign (skipped_key_id dh i) (skipped_key_id dh i) key m,
  text_eq_refl (skipped_key_id dh i),
)

pub lookup-remove_id :
    (dh : Bytes) (i j : ℕ) (m : Cache)
    → i ≢ j
    → lookup (skipped_key_id dh j) (remove_key (skipped_key_id dh i) m)
      ≡ lookup (skipped_key_id dh j) m
lookup-remove_id dh i j m n =
    ground
      (arith, lookup-remove_key (skipped_key_id dh j) (skipped_key_id dh i) m, other_id dh i j n)

module _ (dh : Bytes) (top : ℕ) (peers : List Text) (few : length peers ≤ 64)
    (ours : contains peers (btoa dh) ≡ true) where
  -- The next message passed, its key cached.
  pub assign-IsRoomy :
      (count : ℕ) (key : Bytes) (m : Cache)
      → count < top
      → IsRoomy dh top peers count m
      → IsRoomy dh top peers (count + 1) (assign (skipped_key_id dh count) key m)
  assign-IsRoomy count key m h r = record {
    fresh = λ i le. lookup-assign_id dh key count i m (λ e. omega arith) ∙ r.fresh i (omega arith);
    room = omega (arith, length-assign (skipped_key_id dh count) key m, r.room);
    known = λ k e. elim (chain_ids-assign (skipped_key_id dh count) key m k e) [
      | inl here ↦
          let name : btoa dh ≡ k = sym (chain_of-skipped_key_id dh count) ∙ here in rw⁻¹ name ours
      | inr old ↦ r.known k old
    ];
  }

  -- The eviction after that finds nothing to do.
  pub evict-IsRoomy :
      (count : ℕ) (m : Cache) → IsRoomy dh top peers count m → evict_skipped_keys m ≡ m
  evict-IsRoomy count m r =
      evict_skipped_keys-id m (omega (arith, r.room))
        (omega (arith, few, chains-le m peers r.known))

  -- The next message passed without its key being cached.
  pub pass-IsRoomy :
      (count : ℕ) (m : Cache) → IsRoomy dh top peers count m → IsRoomy dh top peers (count + 1) m
  pass-IsRoomy count m r = record {
    fresh = λ i le. r.fresh i (omega arith);
    room = omega (arith, r.room);
    known = r.known;
  }

  pub remove-IsRoomy :
      (count : ℕ) (id : Text) (m : Cache)
      → IsRoomy dh top peers count m
      → IsRoomy dh top peers count (remove_key id m)
  remove-IsRoomy count id m r = record {
    fresh = λ i le. ground (arith, lookup-remove_key (skipped_key_id dh i) id m, r.fresh i le);
    room = omega (arith, remove_key-length id m, r.room);
    known = λ k e. r.known k (chain_ids-remove_key id m k e);
  }
