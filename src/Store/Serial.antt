-- ===== src/Store/Serial.antt =====
-- web/src/lib/store/chat.ts, `serialize`: the works of a record have the effect of running one by one.
pub mod Order
use shatters.Common.{
  ◌≡◌, refl, sym, ap, subst, ◌∙◌, ℕ, ◌==◌, Bool, true, false, ◌&&◌, Option, none, some, List, [],
  ◌∷◌, Text, text_eq, text_eq_iff, Bool-cases, inl, inr, arith, length, if◌then◌else◌,
}
use shatters.Store.Queue.{
  Status, pending, running, done, failed, Promise, promise_at, set_status, is_settled, Chain,
  written, ChainStep, begins, ends, fails, deletes, serialize, at, calls, moves, Interleaved, start,
  after,
}
use shatters.Store.Serial.Order.{
  older, all_settled, has_begun, Linked, Ordered, effect, run_all, Fresh, set_status-Linked,
  promise_at-settled, older-settled, older-begun,
}

-- What holds of a chain that started with the record.
pub record IsSerial {V : Type 0} (initial : Option V) (c : Chain V) : Type 0 where
  pub linked : Linked c.tail c.promises
  pub in_order : Ordered c.promises
  pub one_by_one : c.stored ≡ run_all c.promises initial
  pub up_to_date : Fresh c.stored c.promises

module _ {V : Type 0} where
  effect-waiting :
      (s : Status V) (work : Option V → Option V) (stored : Option V)
      → has_begun s ≡ false
      → effect s work stored ≡ stored
  effect-waiting pending work stored h = refl
  effect-waiting (running read) work stored h = refl
  effect-waiting done work stored h = cc
  effect-waiting failed work stored h = refl

  settled-Fresh :
      (stored : Option V) (ps : List (Promise V)) → all_settled ps ≡ true → Fresh stored ps
  settled-Fresh stored [] h = tt
  settled-Fresh stored (p ∷ ps) h = (
    λ read e. let over = ap is_settled e in absurd (ground arith),
    settled-Fresh stored ps (ground arith),
  )

  -- The promise `i`, whose work is neither over nor behind one that is not.
  module _ (i : ℕ) (p : Promise V) (unsettled : is_settled p.status ≡ false) where
    -- No promise made after it has begun.
    waits :
        (q : Promise V) (ps : List (Promise V))
        → Ordered (q ∷ ps)
        → promise_at i ps ≡ some p
        → has_begun q.status ≡ false
    waits q ps o there = elim (Bool-cases (has_begun q.status)) [
      | inr waiting ↦ waiting
      | inl begun ↦ let over = promise_at-settled i p ps (o.0 begun) there in absurd (ground arith)
    ]

    set_status-Ordered :
        (s : Status V) (ps : List (Promise V))
        → Ordered ps
        → promise_at i ps ≡ some p
        → all_settled (older i ps) ≡ true
        → Ordered (set_status i s ps)
    set_status-Ordered s [] o there behind = tt
    set_status-Ordered s (q ∷ ps) o there behind = elim (Bool-cases (i == length ps)) [
      | inl here ↦ rw here ((λ begun. ground arith, o.1))
      | inr on ↦
          let below : promise_at i ps ≡ some p = ground arith in
          let waiting = waits q ps o below in
          rw on ((λ begun. absurd (ground arith), set_status-Ordered s ps o.1 below (ground arith)))
    ]

    -- The record depends on it and on the promises made before it.
    run_all-set_status :
        (s : Status V) (ps : List (Promise V)) (initial : Option V)
        → Ordered ps
        → promise_at i ps ≡ some p
        → run_all (set_status i s ps) initial ≡ effect s p.work (run_all (older i ps) initial)
    run_all-set_status s [] initial o there = cc
    run_all-set_status s (q ∷ ps) initial o there = elim (Bool-cases (i == length ps)) [
      | inl here ↦
          let same : q ≡ p = ground arith in
          rw here (ap (λ r. effect s r.work (run_all ps initial)) same)
      | inr on ↦
          let below : promise_at i ps ≡ some p = ground arith in
          rw on (
            effect-waiting q.status q.work (run_all (set_status i s ps) initial)
              (waits q ps o below)
            ∙ run_all-set_status s ps initial o.1 below)
    ]

    run_all-older :
        (ps : List (Promise V)) (initial : Option V)
        → Ordered ps
        → promise_at i ps ≡ some p
        → run_all ps initial ≡ run_all (older i ps) initial
    run_all-older [] initial o there = refl
    run_all-older (q ∷ ps) initial o there = elim (Bool-cases (i == length ps)) [
      | inl here ↦
          let same : q ≡ p = ground arith in
          rw here (
            ap (λ r. effect r.status r.work (run_all ps initial)) same
            ∙ no_effect p.status p.work (run_all ps initial) unsettled)
      | inr on ↦
          let below : promise_at i ps ≡ some p = ground arith in
          rw on (
            effect-waiting q.status q.work (run_all ps initial) (waits q ps o below)
            ∙ run_all-older ps initial o.1 below)
    ]
      where
        no_effect :
            (s : Status V) (work : Option V → Option V) (stored : Option V)
            → is_settled s ≡ false
            → effect s work stored ≡ stored
        no_effect pending work stored h = refl
        no_effect (running read) work stored h = refl
        no_effect done work stored h = cc
        no_effect failed work stored h = cc

    set_status-Fresh :
        (s : Status V) (ps : List (Promise V)) (stored : Option V)
        → Ordered ps
        → promise_at i ps ≡ some p
        → all_settled (older i ps) ≡ true
        → ((read : Option V) → s ≡ running read → read ≡ stored)
        → Fresh stored (set_status i s ps)
    set_status-Fresh s [] stored o there behind f = tt
    set_status-Fresh s (q ∷ ps) stored o there behind f = elim (Bool-cases (i == length ps)) [
      | inl here ↦ rw here ((f, settled-Fresh stored ps (ground arith)))
      | inr on ↦
          let below : promise_at i ps ≡ some p = ground arith in
          let waiting = waits q ps o below in
          rw on (
            (
              λ read e. let begun = ap has_begun e in absurd (ground arith),
              set_status-Fresh s ps stored o.1 below (ground arith) f,
            ))
    ]

    -- The chain once the status is set and the record is what the promises have made of it.
    set_status-IsSerial :
        (s : Status V) (stored initial : Option V) (c : Chain V)
        → IsSerial initial c
        → promise_at i c.promises ≡ some p
        → all_settled (older i c.promises) ≡ true
        → stored ≡ effect s p.work c.stored
        → ((read : Option V) → s ≡ running read → read ≡ stored)
        → IsSerial initial (record c { stored = stored; promises = set_status i s c.promises })
    set_status-IsSerial s stored initial c g there behind e f = record {
      linked = set_status-Linked i s c.tail c.promises g.linked;
      in_order = set_status-Ordered s c.promises g.in_order there behind;
      one_by_one =
          e
          ∙ ap (effect s p.work) (g.one_by_one ∙ run_all-older c.promises initial g.in_order there)
          ∙ sym (run_all-set_status s c.promises initial g.in_order there);
      up_to_date = set_status-Fresh s c.promises stored g.in_order there behind f;
    }

  -- A work that runs has read what is stored.
  running-Fresh :
      (i : ℕ) (p : Promise V) (read stored : Option V) (ps : List (Promise V))
      → Fresh stored ps
      → promise_at i ps ≡ some p
      → p.status ≡ running read
      → read ≡ stored
  running-Fresh i p read stored [] h there runs = cc
  running-Fresh i p read stored (q ∷ ps) h there runs = elim (Bool-cases (i == length ps)) [
    | inl here ↦ let same : q ≡ p = ground arith in h.0 read (ap (λ r. r.status) same ∙ runs)
    | inr on ↦ running-Fresh i p read stored ps h.1 (ground arith) runs
  ]

  serialize-IsSerial :
      (initial : Option V) (work : Option V → Option V) (c : Chain V)
      → IsSerial initial c
      → IsSerial initial (serialize work c)
  serialize-IsSerial initial work c g = record {
    linked = (refl, g.linked);
    in_order = (λ begun. cc, g.in_order);
    one_by_one = g.one_by_one;
    up_to_date = (λ read e. cc, g.up_to_date);
  }

  ChainStep-IsSerial :
      (initial : Option V) {c c' : Chain V}
      → ChainStep c c'
      → (c.deleted ≡ false → IsSerial initial c)
      → c'.deleted ≡ false
      → IsSerial initial c'
  ChainStep-IsSerial initial {c} (begins i {p} there waiting settled) h kept =
      let g = h kept in
      set_status-IsSerial i p (ap is_settled waiting) (running c.stored) c.stored initial c g there
        (older-settled i p c.tail c.promises g.linked g.in_order there settled) refl (λ read e. cc)
  ChainStep-IsSerial initial {c} (ends i {p} {read} there runs) h kept =
      let g = h kept in
      let same = running-Fresh i p read c.stored c.promises g.up_to_date there runs in
      set_status-IsSerial i p (ap is_settled runs) done _ initial c g there
        (older-begun i p c.promises g.in_order there (ap has_begun runs))
        (ap (λ o. written (p.work o) c.stored) same) (λ read e. cc)
  ChainStep-IsSerial initial {c} (fails i {p} {read} there runs) h kept =
      let g = h kept in
      set_status-IsSerial i p (ap is_settled runs) failed c.stored initial c g there
        (older-begun i p c.promises g.in_order there (ap has_begun runs)) refl (λ read e. cc)
  ChainStep-IsSerial initial deletes h kept = absurd (ground (arith, kept))

at-IsSerial :
    {V : Type 0} (initial : Text → Option V) (chains : Text → Chain V) (key other : Text)
    (chain : Chain V)
    → ((k : Text) → (chains k).deleted ≡ false → IsSerial (initial k) (chains k))
    → (chain.deleted ≡ false → IsSerial (initial key) chain)
    → (at key chain chains other).deleted ≡ false
    → IsSerial (initial other) (at key chain chains other)
at-IsSerial initial chains key other chain before moved = elim (Bool-cases (text_eq key other)) [
  | inl same ↦ rw same (
      subst (λ k. chain.deleted ≡ false → IsSerial (initial k) chain)
        ((text_eq_iff key other).0 same) moved)
  | inr apart ↦ rw apart (before other)
]

-- However the calls of the store interleave: as long as nothing deletes the record past its queue, each call
-- of `serialize` is chained to the one before it for the record; a work begins only when all works that
-- were passed before it have ended or failed, so that at most one runs; the record is what the works
-- that succeeded make of it, run one by one in the order of the calls; and a work that runs has read
-- the record as it is.
pub Interleaved-IsSerial :
    {V : Type 0} {initial : Text → Option V} {chains : Text → Chain V}
    → Interleaved initial chains
    → (key : Text) → (chains key).deleted ≡ false
    → IsSerial (initial key) (chains key)
Interleaved-IsSerial start key kept = record {
  linked = refl;
  in_order = tt;
  one_by_one = refl;
  up_to_date = tt;
}
Interleaved-IsSerial {initial} (after {chains} r (calls key work)) other kept =
    at-IsSerial initial chains key other (serialize work (chains key)) (Interleaved-IsSerial r)
      (λ before.
        serialize-IsSerial (initial key) work (chains key) (Interleaved-IsSerial r key before))
      kept
Interleaved-IsSerial {initial} (after {chains} r (moves key {chain} step)) other kept =
    at-IsSerial initial chains key other chain (Interleaved-IsSerial r)
      (ChainStep-IsSerial (initial key) step (Interleaved-IsSerial r key)) kept
