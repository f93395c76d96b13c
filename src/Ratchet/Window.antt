-- ===== src/Ratchet/Window.antt =====
-- web/src/lib/crypto/ratchet.ts: the cache of skipped message keys, `skipMessageKeys` and
-- `evictSkippedKeys`. The cache is a `Map`: an association list in insertion order.
use shatters.Common.{
  starts_with, ℕ, zero, suc, ◌+◌, ◌-◌, Bool, false, ◌||◌, Option, none, some, List, [], ◌∷◌, ◌++◌,
  Text, length, take, ltb, leb, ◌==◌, if◌then◌else◌, assign, unique_from,
}
use shatters.Bytes.{Bytes}
use shatters.Crypto.{Crypto}
use shatters.Ratchet.State.{
  SessionState, M, too_many_skipped, throw, pure, max_skipped_keys, max_skip_chains,
  advance_chain_key, skipped_key_id,
}

-- `while (skippedKeys.size > MAX_SKIPPED_KEYS)` drops the oldest entry.
unfoldable pub evict_oldest : List (Text × Bytes) → List (Text × Bytes)
evict_oldest [] = []
evict_oldest (entry ∷ rest) =
    if ltb max_skipped_keys (suc (length rest)) then evict_oldest rest else entry ∷ rest

-- `id.lastIndexOf(":")`; `none` is -1.
unfoldable pub last_colon : Text → Option ℕ
last_colon [] = none
last_colon (u ∷ rest) = elim (last_colon rest) [
  | some i ↦ some (suc i)
  | none ↦ if u == 58 then some 0 else none
]

-- `id.slice(0, id.lastIndexOf(":"))`; from -1 the slice lacks the last unit only.
unfoldable pub chain_of : Text → Text
chain_of id = elim (last_colon id) [ some i ↦ take i id | none ↦ take (length id - 1) id ]

unfoldable pub chain_ids : List (Text × Bytes) → List Text
chain_ids [] = []
chain_ids ((id, _) ∷ rest) = chain_of id ∷ chain_ids rest

-- The set `chains`, in insertion order.
unfoldable pub chains : List (Text × Bytes) → List Text
chains skipped = unique_from [] (chain_ids skipped)

-- `doomed.some((chain) => id.startsWith(`${chain}:`))`.
unfoldable pub is_doomed : List Text → Text → Bool
is_doomed [] id = false
is_doomed (chain ∷ rest) id = starts_with id (chain ++ 58 ∷ []) || is_doomed rest id

unfoldable pub drop_doomed : List Text → List (Text × Bytes) → List (Text × Bytes)
drop_doomed doomed [] = []
drop_doomed doomed ((id, key) ∷ rest) =
    if is_doomed doomed id then drop_doomed doomed rest else (id, key) ∷ drop_doomed doomed rest

unfoldable pub evict_chains : List (Text × Bytes) → List (Text × Bytes)
evict_chains skipped =
    let seen = chains skipped in
    if leb (length seen) max_skip_chains
    then skipped
    else drop_doomed (take (length seen - max_skip_chains) seen) skipped

unfoldable pub evict_skipped_keys : List (Text × Bytes) → List (Text × Bytes)
evict_skipped_keys skipped = evict_chains (evict_oldest skipped)

abbrev pub or_no_bytes : Option Bytes → Bytes
or_no_bytes none = []
or_no_bytes (some key) = key

module _ (c : Crypto) where
  -- One round of the loop of `skipMessageKeys`. The peer's key is known where a receiving chain is.
  unfoldable pub skip_one : Bytes → SessionState → SessionState
  skip_one receiving state =
      let step = advance_chain_key c receiving in
      record state {
        receiving_chain_key = some step.chain_key;
        skipped_keys = evict_skipped_keys (
            assign (skipped_key_id (or_no_bytes state.their_ratchet_key) state.receive_count)
              step.message_key state.skipped_keys);
        receive_count = state.receive_count + 1;
      }

  -- `while (state.receiveCount < until)`, on fuel.
  unfoldable pub skip_loop : ℕ → (until : ℕ) → Bytes → SessionState → SessionState
  skip_loop zero until receiving state = state
  skip_loop (suc fuel) until receiving state =
      let next = (advance_chain_key c receiving).chain_key in
      let rest = skip_loop fuel until next (skip_one receiving state) in
      if ltb state.receive_count until then rest else state

  unfoldable pub skip_message_keys : ℕ → M (Unit {0})
  skip_message_keys until state = elim state.receiving_chain_key [
    | none ↦ pure tt state
    | some receiving ↦
        if ltb max_skipped_keys (until - state.receive_count)
        then throw too_many_skipped state
        else pure tt (skip_loop (until - state.receive_count) until receiving state)
  ]
