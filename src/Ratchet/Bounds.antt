-- ===== src/Ratchet/Bounds.antt =====
-- web/src/lib/crypto/ratchet.ts, `evictSkippedKeys`: at most MAX_SKIPPED_KEYS cached keys, of at most
-- MAX_SKIP_CHAINS ratchet keys, after every operation.
use shatters.Common.{
  starts_with, ℕ, zero, suc, ◌-◌, ◌≤◌, ◌<◌, ◌≡◌, ◌≢◌, sym, ◌∙◌, inl, inr, true, false, none, some,
  List, [], ◌∷◌, ◌++◌, Text, length, take, drop, All, arith, assign, remove_key, text_eq_iff,
  contains, contains-unique_from, unique_from-NoneTwice, length-le_of_contains, length-drop,
  Bool-cases, Option-cases, decimal,
}
use shatters.Bytes.{Bytes}
use shatters.Ratchet.Window.{
  evict_oldest, last_colon, chain_of, chain_ids, chains, is_doomed, drop_doomed, evict_chains,
  evict_skipped_keys,
}
use shatters.Ratchet.State.{skipped_key_id}

abbrev pub Cache : Type 0
Cache = List (Text × Bytes)

-- Every id has the form `chain:number`.
abbrev pub IsKeyed : Cache → Type 0
IsKeyed = All (λ e. last_colon e.0 ≢ none)

pub record IsWindow (m : Cache) : Type 0 where
  pub keyed : IsKeyed m
  pub keys_bounded : length m ≤ 2000
  pub chains_bounded : length (chains m) ≤ 64

last_colon-append : (a b : Text) → last_colon b ≢ none → last_colon (a ++ b) ≢ none
unfolding last_colon
last_colon-append [] b h = h
last_colon-append (u ∷ a) b h = ground (arith, last_colon-append a b h)

last_colon-head : (b : Text) → last_colon (58 ∷ b) ≢ none
unfolding last_colon
last_colon-head b = ground arith

pub skipped_key_id-IsKeyed : (dh : Bytes) (n : ℕ) → last_colon (skipped_key_id dh n) ≢ none
unfolding skipped_key_id
skipped_key_id-IsKeyed dh n = last_colon-append _ (58 ∷ decimal n) (last_colon-head (decimal n))

-- An id starts with its chain and a colon.
starts_with-chain :
    (id : Text) (i : ℕ) → last_colon id ≡ some i → starts_with id (take i id ++ 58 ∷ []) ≡ true
unfolding last_colon starts_with
starts_with-chain [] i e = cc
starts_with-chain (u ∷ id) i e = elim (Option-cases (last_colon id)) [
  | inl miss ↦ let first : i ≡ 0 = ground arith in rw first (ground arith)
  | inr (j, hit) ↦
      let later : i ≡ suc j = ground arith in rw later (ground (arith, starts_with-chain id j))
]

starts_with-chain_of :
    (id : Text) → last_colon id ≢ none → starts_with id (chain_of id ++ 58 ∷ []) ≡ true
unfolding chain_of
starts_with-chain_of id h = elim (Option-cases (last_colon id)) [
  | inl miss ↦ absurd (h miss)
  | inr (i, hit) ↦ rw (hit, chain_of) (starts_with-chain id i hit)
]

is_doomed-chain :
    (doomed : List Text) (id : Text)
    → last_colon id ≢ none
    → contains doomed (chain_of id) ≡ true
    → is_doomed doomed id ≡ true
unfolding is_doomed contains
is_doomed-chain [] id h k = cc
is_doomed-chain (chain ∷ doomed) id h k =
    ground (
      arith,
      text_eq_iff chain (chain_of id),
      starts_with-chain_of id h,
      is_doomed-chain doomed id h,
    )

not_doomed :
    (doomed : List Text) (id : Text)
    → last_colon id ≢ none
    → is_doomed doomed id ≡ false
    → contains doomed (chain_of id) ≡ false
not_doomed doomed id h n = elim (Bool-cases (contains doomed (chain_of id))) [
  | inl k ↦ absurd (ground (arith, is_doomed-chain doomed id h k))
  | inr e ↦ e
]

contains-take-drop :
    (n : ℕ) (xs : List Text) (k : Text)
    → contains xs k ≡ true
    → contains (take n xs) k ≡ false
    → contains (drop n xs) k ≡ true
unfolding contains
contains-take-drop zero xs k h n = h
contains-take-drop (suc n) [] k h m = cc
contains-take-drop (suc n) (x ∷ xs) k h m = ground (arith, contains-take-drop n xs k)

evict_oldest-length : (m : Cache) → length (evict_oldest m) ≤ 2000
unfolding evict_oldest
evict_oldest-length [] = omega arith
evict_oldest-length (e ∷ m) = ground (arith, evict_oldest-length m)

evict_oldest-IsKeyed : (m : Cache) → IsKeyed m → IsKeyed (evict_oldest m)
unfolding evict_oldest
evict_oldest-IsKeyed [] h = tt
evict_oldest-IsKeyed (e ∷ m) h = ground (arith, evict_oldest-IsKeyed m)

drop_doomed-length : (d : List Text) (m : Cache) → length (drop_doomed d m) ≤ length m
unfolding drop_doomed
drop_doomed-length d [] = omega arith
drop_doomed-length d ((id, key) ∷ m) = ground (arith, drop_doomed-length d m)

drop_doomed-IsKeyed : (d : List Text) (m : Cache) → IsKeyed m → IsKeyed (drop_doomed d m)
unfolding drop_doomed
drop_doomed-IsKeyed d [] h = tt
drop_doomed-IsKeyed d ((id, key) ∷ m) h = ground (arith, drop_doomed-IsKeyed d m)

-- What survives belongs to a chain that was there and is not doomed.
chain_ids-drop_doomed :
    (d : List Text) (m : Cache) (k : Text)
    → IsKeyed m
    → contains (chain_ids (drop_doomed d m)) k ≡ true
    → (contains (chain_ids m) k ≡ true) × (contains d k ≡ false)
unfolding drop_doomed chain_ids contains
chain_ids-drop_doomed d [] k h e = cc
chain_ids-drop_doomed d ((id, key) ∷ m) k h e = elim (Bool-cases (is_doomed d id)) [
  | inl gone ↦ ground (arith, chain_ids-drop_doomed d m k h.1)
  | inr kept ↦ ground (
    arith,
    chain_ids-drop_doomed d m k h.1,
    not_doomed d id h.0 kept,
    text_eq_iff (chain_of id) k,
  )
]

contains-chains : (m : Cache) (k : Text) → contains (chains m) k ≡ contains (chain_ids m) k
unfolding chains contains
contains-chains m k = contains-unique_from k [] (chain_ids m)

pub chains-le :
    (m : Cache) (xs : List Text)
    → ((k : Text) → contains (chain_ids m) k ≡ true → contains xs k ≡ true)
    → length (chains m) ≤ length xs
chains-le m xs sub =
    length-le_of_contains (chains m) xs (unfold chains in unique_from-NoneTwice [] (chain_ids m) tt)
      (λ k h. sub k (sym (contains-chains m k) ∙ h))

evict_chains-length : (m : Cache) → length (evict_chains m) ≤ length m
unfolding evict_chains
evict_chains-length m =
    ground (arith, drop_doomed-length (take (length (chains m) - 64) (chains m)) m)

evict_chains-IsKeyed : (m : Cache) → IsKeyed m → IsKeyed (evict_chains m)
unfolding evict_chains
evict_chains-IsKeyed m h =
    ground (arith, drop_doomed-IsKeyed (take (length (chains m) - 64) (chains m)) m h)

doomed-bound :
    (m : Cache)
    → IsKeyed m
    → 64 < length (chains m)
    → length (chains (drop_doomed (take (length (chains m) - 64) (chains m)) m)) ≤ 64
doomed-bound m h over =
    let excess : ℕ = length (chains m) - 64 in
    let kept = drop_doomed (take excess (chains m)) m in
    omega (
      arith,
      length-drop excess (chains m),
      chains-le kept (drop excess (chains m)) (λ k e.
          let (there, alive) = chain_ids-drop_doomed (take excess (chains m)) m k h e in
          contains-take-drop excess (chains m) k (contains-chains m k ∙ there) alive),
    )

evict_chains-bound : (m : Cache) → IsKeyed m → length (chains (evict_chains m)) ≤ 64
unfolding evict_chains
evict_chains-bound m h = ground (arith, doomed-bound m h)

-- The window holds after an eviction, whatever the cache was.
pub evict_skipped_keys-IsWindow : (m : Cache) → IsKeyed m → IsWindow (evict_skipped_keys m)
unfolding evict_skipped_keys
evict_skipped_keys-IsWindow m h = record {
  keyed = evict_chains-IsKeyed (evict_oldest m) (evict_oldest-IsKeyed m h);
  keys_bounded = omega (arith, evict_chains-length (evict_oldest m), evict_oldest-length m);
  chains_bounded = evict_chains-bound (evict_oldest m) (evict_oldest-IsKeyed m h);
}

pub assign-IsKeyed :
    (id : Text) (key : Bytes) (m : Cache)
    → last_colon id ≢ none
    → IsKeyed m
    → IsKeyed (assign id key m)
unfolding assign
assign-IsKeyed id key [] h k = (h, tt)
assign-IsKeyed id key ((j, v) ∷ m) h k = ground (arith, assign-IsKeyed id key m h k.1)

remove_key-IsKeyed : (id : Text) (m : Cache) → IsKeyed m → IsKeyed (remove_key id m)
unfolding remove_key
remove_key-IsKeyed id [] h = tt
remove_key-IsKeyed id ((j, v) ∷ m) h = ground (arith, remove_key-IsKeyed id m h.1)

pub remove_key-length : (id : Text) (m : Cache) → length (remove_key id m) ≤ length m
unfolding remove_key
remove_key-length id [] = omega arith
remove_key-length id ((j, v) ∷ m) = ground (arith, remove_key-length id m)

pub chain_ids-remove_key :
    (id : Text) (m : Cache) (k : Text)
    → contains (chain_ids (remove_key id m)) k ≡ true
    → contains (chain_ids m) k ≡ true
unfolding remove_key chain_ids contains
chain_ids-remove_key id [] k e = e
chain_ids-remove_key id ((j, v) ∷ m) k e = ground (arith, chain_ids-remove_key id m k)

-- Taking a key out keeps the window.
pub remove_key-IsWindow : (id : Text) (m : Cache) → IsWindow m → IsWindow (remove_key id m)
remove_key-IsWindow id m w = record {
  keyed = remove_key-IsKeyed id m w.keyed;
  keys_bounded = omega (arith, remove_key-length id m, w.keys_bounded);
  chains_bounded = omega (
    arith,
    w.chains_bounded,
    chains-le (remove_key id m) (chains m)
        (λ k e. contains-chains m k ∙ chain_ids-remove_key id m k e),
  );
}
