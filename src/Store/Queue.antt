-- ===== src/Store/Queue.antt =====
-- web/src/lib/store/chat.ts, `serialize`: the promises of the writes, while the calls of the store
-- interleave. A promise starts its work once the promise that it was chained to has settled, with a value or
-- an error; a work reads its record when it starts and writes it when it ends.
use shatters.Common.{
  ◌≡◌, ℕ, ◌==◌, Bool, true, false, Option, none, some, List, [], ◌∷◌, Text, length, if◌then◌else◌,
  text_eq,
}
use shatters.Store.{StoredMessage}
use shatters.Store.Chat.{or_empty, append_in}

-- What a work writes of what it reads; `none` where it writes nothing.
abbrev pub Work : Type 0 → Type 0
Work V = Option V → Option V

-- The state of a promise; that of a work that runs holds what the work has read.
pub data Status (V : Type 0) : Type 0 where
  pending : Status V
  running : Option V → Status V
  done failed : Status V

-- `next`: `previous` is the promise that `writeChains` held, as its number in the order of creation.
pub record Promise (V : Type 0) : Type 0 where
  pub previous : Option ℕ
  pub work : Work V
  pub status : Status V

-- A record of the vault, what `writeChains` holds under its key, and the promises, the newest first.
-- `deleted` tells that the record was deleted by a call of the vault that does not queue.
pub record Chain (V : Type 0) : Type 0 where
  pub stored : Option V
  pub tail : Option ℕ
  pub promises : List (Promise V)
  pub deleted : Bool

abbrev pub new_chain : {V : Type 0} → Option V → Chain V
new_chain stored = record { stored = stored; tail = none; promises = []; deleted = false }

-- `serialize`, up to the return of the promise that it makes.
abbrev pub serialize : {V : Type 0} → Work V → Chain V → Chain V
serialize work c = record c {
  tail = some (length c.promises);
  promises = (record { previous = c.tail; work = work; status = pending }) ∷ c.promises;
}

-- The promise of this number.
abbrev pub promise_at : {V : Type 0} → ℕ → List (Promise V) → Option (Promise V)
promise_at i [] = none
promise_at i (p ∷ ps) = if i == length ps then some p else promise_at i ps

abbrev pub set_status : {V : Type 0} → ℕ → Status V → List (Promise V) → List (Promise V)
set_status i s [] = []
set_status i s (p ∷ ps) =
    if i == length ps then record p { status = s } ∷ ps else p ∷ set_status i s ps

abbrev pub is_settled : {V : Type 0} → Status V → Bool
is_settled pending = false
is_settled (running read) = false
is_settled done = true
is_settled failed = true

abbrev pub has_settled : {V : Type 0} → Option (Promise V) → Bool
has_settled none = false
has_settled (some p) = is_settled p.status

-- `Promise.resolve()` has settled.
abbrev pub previous_settled : {V : Type 0} → Option ℕ → List (Promise V) → Bool
previous_settled none ps = true
previous_settled (some i) ps = has_settled (promise_at i ps)

abbrev pub written : {V : Type 0} → Option V → Option V → Option V
written none old = old
written (some new) old = some new

-- One event after the calls. Because of `catch`, a work starts after one that failed as after one that did
-- not.
pub data ChainStep {V : Type 0} (c : Chain V) : Chain V → Type 0 where
  begins :
      (i : ℕ) {p : Promise V}
      → promise_at i c.promises ≡ some p
      → p.status ≡ pending
      → previous_settled p.previous c.promises ≡ true
      → ChainStep c (record c { promises = set_status i (running c.stored) c.promises })
  ends :
      (i : ℕ) {p : Promise V} {read : Option V}
      → promise_at i c.promises ≡ some p
      → p.status ≡ running read
      → ChainStep c (record c {
        stored = written (p.work read) c.stored;
        promises = set_status i done c.promises;
      })
  fails :
      (i : ℕ) {p : Promise V} {read : Option V}
      → promise_at i c.promises ≡ some p
      → p.status ≡ running read
      → ChainStep c (record c { promises = set_status i failed c.promises })
  deletes : ChainStep c (record c { stored = none; deleted = true })

abbrev pub at : {V : Type 0} → Text → Chain V → (Text → Chain V) → Text → Chain V
at key chain chains other = if text_eq key other then chain else chains other

-- `writeChains`, the chains by their key. Any of them may move.
pub data QueueStep {V : Type 0} (chains : Text → Chain V) : (Text → Chain V) → Type 0 where
  calls :
      (key : Text) (work : Work V) → QueueStep chains (at key (serialize work (chains key)) chains)
  moves :
      (key : Text) {chain : Chain V}
      → ChainStep (chains key) chain
      → QueueStep chains (at key chain chains)

pub data Interleaved {V : Type 0} (initial : Text → Option V) : (Text → Chain V) → Type 0 where
  start : Interleaved initial (λ key. new_chain (initial key))
  after :
      {chains chains' : Text → Chain V}
      → Interleaved initial chains
      → QueueStep chains chains'
      → Interleaved initial chains'

-- The work that `appendMessage` passes to `serialize`.
abbrev pub append_work : StoredMessage → Work (List StoredMessage)
append_work message read = some (append_in message (or_empty read))

-- The first call that `appendMessage` makes.
abbrev pub append_queued :
    StoredMessage → (Text → Chain (List StoredMessage)) → Text → Chain (List StoredMessage)
append_queued message chains =
    at message.conversation_id (serialize (append_work message) (chains message.conversation_id))
      chains

-- Calls of `appendMessage`, the newest first, while their works run.
pub data Appending (initial : Text → Option (List StoredMessage))
    : List StoredMessage → (Text → Chain (List StoredMessage)) → Type 0 where
  idle : Appending initial [] (λ key. new_chain (initial key))
  appends :
      {ms : List StoredMessage} {chains : Text → Chain (List StoredMessage)}
      → (m : StoredMessage) → Appending initial ms chains
      → Appending initial (m ∷ ms) (append_queued m chains)
  steps :
      {ms : List StoredMessage} {chains : Text → Chain (List StoredMessage)}
      {chain : Chain (List StoredMessage)}
      → (key : Text) → ChainStep (chains key) chain
      → Appending initial ms chains
      → Appending initial ms (at key chain chains)
