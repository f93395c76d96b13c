-- ===== src/Store/Appends.antt =====
-- web/src/lib/store/chat.ts, `appendMessage`: what interleaved appends to the histories leave.
use shatters.Common.{
  ◌≡◌, refl, sym, ap, subst, ◌∙◌, Bool, true, false, ◌&&◌, Option, List, [], ◌∷◌, Text, text_eq,
  text_eq_iff, Bool-cases, inl, inr, arith, if◌then◌else◌, lookup, lookup-assign, length, ℕ, ◌==◌,
}
use shatters.Store.{StoredMessage}
use shatters.Store.Chat.{
  ChatStore, or_empty, history, append_in, append_message, upsert_conversation,
}
use shatters.Store.Appending.{history-append_message}
use shatters.Store.Queue.{
  Work, Status, pending, running, done, failed, Promise, set_status, written, Chain, ChainStep,
  begins, ends, fails, deletes, calls, moves, Interleaved, start, after, append_work, Appending,
  idle, appends, steps,
}
use shatters.Store.Serial.{Interleaved-IsSerial}
use shatters.Store.Serial.Order.{effect, run_all}

abbrev pub works_of : {V : Type 0} → List (Promise V) → List (Work V)
works_of [] = []
works_of (p ∷ ps) = p.work ∷ works_of ps

abbrev is_done : {V : Type 0} → Status V → Bool
is_done pending = false
is_done (running read) = false
is_done done = true
is_done failed = false

abbrev pub all_done : {V : Type 0} → List (Promise V) → Bool
all_done [] = true
all_done (p ∷ ps) = is_done p.status && all_done ps

-- The works, each on what the ones before it left.
abbrev run_each : {V : Type 0} → List (Work V) → Option V → Option V
run_each [] stored = stored
run_each (work ∷ works) stored = let read = run_each works stored in written (work read) read

-- The messages that were appended to one conversation.
abbrev works_for : Text → List StoredMessage → List (Work (List StoredMessage))
works_for id [] = []
works_for id (m ∷ ms) =
    if text_eq m.conversation_id id then append_work m ∷ works_for id ms else works_for id ms

-- The same calls, one by one; the newest is the first of the list.
abbrev pub append_all : List StoredMessage → ChatStore → ChatStore
append_all [] store = store
append_all (m ∷ ms) store = append_message m (append_all ms store)

effect-done :
    {V : Type 0} (s : Status V) (work : Work V) (stored : Option V)
    → is_done s ≡ true
    → effect s work stored ≡ written (work stored) stored
effect-done pending work stored h = cc
effect-done (running read) work stored h = cc
effect-done done work stored h = refl
effect-done failed work stored h = cc

run_all-done :
    {V : Type 0} (ps : List (Promise V)) (stored : Option V)
    → all_done ps ≡ true
    → run_all ps stored ≡ run_each (works_of ps) stored
run_all-done [] stored h = refl
run_all-done (p ∷ ps) stored h =
    effect-done p.status p.work (run_all ps stored) (ground arith)
    ∙ ap (λ o. written (p.work o) o) (run_all-done ps stored (ground arith))

works_of-set_status :
    {V : Type 0} (i : ℕ) (s : Status V) (ps : List (Promise V))
    → works_of (set_status i s ps) ≡ works_of ps
works_of-set_status i s [] = refl
works_of-set_status i s (p ∷ ps) = elim (Bool-cases (i == length ps)) [
  | inl here ↦ rw here refl
  | inr on ↦ rw on (ap (λ ws. p.work ∷ ws) (works_of-set_status i s ps))
]

works_of-ChainStep :
    {V : Type 0} {c c' : Chain V} → ChainStep c c' → works_of c'.promises ≡ works_of c.promises
works_of-ChainStep {c} (begins i there waiting settled) = works_of-set_status i _ c.promises
works_of-ChainStep {c} (ends i there runs) = works_of-set_status i done c.promises
works_of-ChainStep {c} (fails i there runs) = works_of-set_status i failed c.promises
works_of-ChainStep deletes = refl

Appending-Interleaved :
    {initial : Text → Option (List StoredMessage)} {ms : List StoredMessage}
    {chains : Text → Chain (List StoredMessage)}
    → Appending initial ms chains
    → Interleaved initial chains
Appending-Interleaved idle = start
Appending-Interleaved (appends m r) =
    after (Appending-Interleaved r) (calls m.conversation_id (append_work m))
Appending-Interleaved (steps key step r) = after (Appending-Interleaved r) (moves key step)

-- The promises of a conversation are those of the messages that were appended to it.
Appending-works :
    {initial : Text → Option (List StoredMessage)} {ms : List StoredMessage}
    {chains : Text → Chain (List StoredMessage)}
    → Appending initial ms chains
    → (id : Text) → works_of (chains id).promises ≡ works_for id ms
Appending-works idle id = refl
Appending-works (appends {ms} {chains} m r) id = elim (Bool-cases (text_eq m.conversation_id id)) [
  | inl here ↦ rw here (
      ap (λ ws. append_work m ∷ ws)
        (ap (λ k. works_of (chains k).promises) ((text_eq_iff m.conversation_id id).0 here)
          ∙ Appending-works r id))
  | inr other ↦ rw other (Appending-works r id)
]
Appending-works (steps {ms} {chains} key step r) id = elim (Bool-cases (text_eq key id)) [
  | inl here ↦ rw here (
      works_of-ChainStep step
      ∙ ap (λ k. works_of (chains k).promises) ((text_eq_iff key id).0 here)
      ∙ Appending-works r id)
  | inr other ↦ rw other (Appending-works r id)
]

history-append_message_other :
    (message : StoredMessage) (id : Text) (store : ChatStore)
    → text_eq message.conversation_id id ≡ false
    → history id (append_message message store) ≡ history id store
unfolding append_message upsert_conversation history
history-append_message_other message id store other =
    rw
      (
        lookup-assign id message.conversation_id
            (append_in message (or_empty (lookup message.conversation_id store.histories)))
            store.histories,
        other,
      )
      refl

run_each-works_for :
    (id : Text) (ms : List StoredMessage) (stored : Option (List StoredMessage)) (store : ChatStore)
    → or_empty stored ≡ history id store
    → or_empty (run_each (works_for id ms) stored) ≡ history id (append_all ms store)
run_each-works_for id [] stored store e = e
run_each-works_for id (m ∷ ms) stored store e = elim (Bool-cases (text_eq m.conversation_id id)) [
  | inl here ↦ rw here (
      ap (append_in m) (run_each-works_for id ms stored store e)
      ∙ subst
          (λ i.
            append_in m (history i (append_all ms store))
            ≡ history i (append_message m (append_all ms store)))
          ((text_eq_iff m.conversation_id id).0 here)
          (sym (history-append_message m (append_all ms store))))
  | inr other ↦ rw other (
      run_each-works_for id ms stored store e
      ∙ sym (history-append_message_other m id (append_all ms store) other))
]

-- Calls of `appendMessage` to any conversations, whose works interleave: where all works on the history of a
-- conversation have ended and none failed, and nothing deleted the history past the queue, the
-- history is what the same calls of `appendMessage` make when each ends before the next is made.
pub appends-one_by_one :
    {initial : Text → Option (List StoredMessage)} {ms : List StoredMessage}
    {chains : Text → Chain (List StoredMessage)}
    → Appending initial ms chains
    → (id : Text) (store : ChatStore) → or_empty (initial id) ≡ history id store
    → all_done (chains id).promises ≡ true
    → (chains id).deleted ≡ false
    → or_empty (chains id).stored ≡ history id (append_all ms store)
appends-one_by_one {initial} {ms} {chains} r id store begun over kept =
    let c = chains id in
    ap or_empty (
      (Interleaved-IsSerial (Appending-Interleaved r) id kept).one_by_one
      ∙ run_all-done c.promises (initial id) over
      ∙ ap (λ ws. run_each ws (initial id)) (Appending-works r id))
    ∙ run_each-works_for id ms (initial id) store begun
