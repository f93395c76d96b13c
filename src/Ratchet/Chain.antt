-- ===== src/Ratchet/Chain.antt =====
-- web/src/lib/crypto/ratchet.ts: the keys of one sending chain, and the ids their message keys are
-- cached under.
use shatters.Common.{
  ℕ, zero, suc, ◌≤◌, ◌≡◌, ◌≢◌, refl, ◌⊎◌, true, none, some, [], ◌∷◌, ◌++◌, Text, length, All, arith,
  assign, text_eq_iff, contains, decimal, decimal-injective, decimal-colonless, take-append_self,
  btoa,
}
use shatters.Bytes.{Bytes}
use shatters.Crypto.{Crypto}
use shatters.Ratchet.State.{skipped_key_id, advance_chain_key}
use shatters.Ratchet.Window.{
  evict_oldest, last_colon, chain_of, chain_ids, chains, evict_chains, evict_skipped_keys,
}
use shatters.Ratchet.Bounds.{Cache}

module _ (c : Crypto) where
  -- The chain key after `n` messages.
  abbrev pub chain_at : Bytes → ℕ → Bytes
  chain_at start zero = start
  chain_at start (suc n) = (advance_chain_key c (chain_at start n)).chain_key

  abbrev pub message_key_at : Bytes → ℕ → Bytes
  message_key_at start n = (advance_chain_key c (chain_at start n)).message_key

append_cancel : (a b d : Text) → a ++ b ≡ a ++ d → b ≡ d
append_cancel [] b d e = e
append_cancel (x ∷ a) b d e = append_cancel a b d cc

pub skipped_key_id-injective :
    (dh : Bytes) (i j : ℕ) → skipped_key_id dh i ≡ skipped_key_id dh j → i ≡ j
unfolding skipped_key_id
skipped_key_id-injective dh i j e =
    let digits = append_cancel (btoa dh) (58 ∷ decimal i) (58 ∷ decimal j) e in
    decimal-injective i j cc

last_colon-colonless : (d : Text) → All (λ u. u ≢ 58) d → last_colon d ≡ none
unfolding last_colon
last_colon-colonless [] h = refl
last_colon-colonless (u ∷ d) h = ground (arith, last_colon-colonless d h.1, h.0)

last_colon-append : (b d : Text) → All (λ u. u ≢ 58) d → last_colon (b ++ 58 ∷ d) ≡ some (length b)
unfolding last_colon
last_colon-append [] d h = ground (arith, last_colon-colonless d h)
last_colon-append (u ∷ b) d h = ground (arith, last_colon-append b d h)

-- The id of a message key names its ratchet key before the last colon.
pub chain_of-skipped_key_id : (dh : Bytes) (n : ℕ) → chain_of (skipped_key_id dh n) ≡ btoa dh
unfolding chain_of skipped_key_id
chain_of-skipped_key_id dh n =
    rw (last_colon-append (btoa dh) (decimal n) (decimal-colonless n), chain_of)
      (take-append_self (btoa dh) (58 ∷ decimal n))

-- A cache within the bounds is left alone.
evict_oldest-id : (m : Cache) → length m ≤ 2000 → evict_oldest m ≡ m
unfolding evict_oldest
evict_oldest-id [] h = refl
evict_oldest-id (e ∷ m) h = ground arith

pub evict_skipped_keys-id :
    (m : Cache) → length m ≤ 2000 → length (chains m) ≤ 64 → evict_skipped_keys m ≡ m
unfolding evict_skipped_keys evict_chains
evict_skipped_keys-id m h k = rw (evict_oldest-id m h) (ground arith)

pub length-assign :
    (id : Text) (key : Bytes) (m : Cache) → length (assign id key m) ≤ suc (length m)
unfolding assign
length-assign id key [] = omega arith
length-assign id key ((j, v) ∷ m) = ground (arith, length-assign id key m)

pub chain_ids-assign :
    (id : Text) (key : Bytes) (m : Cache) (k : Text)
    → contains (chain_ids (assign id key m)) k ≡ true
    → (chain_of id ≡ k) ⊎ (contains (chain_ids m) k ≡ true)
unfolding assign chain_ids contains
chain_ids-assign id key [] k h = ground (arith, text_eq_iff (chain_of id) k)
chain_ids-assign id key ((j, v) ∷ m) k h =
    ground (arith, chain_ids-assign id key m k, text_eq_iff (chain_of j) k)
