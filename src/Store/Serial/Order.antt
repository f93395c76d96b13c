-- ===== src/Store/Serial/Order.antt =====
-- web/src/lib/store/chat.ts, `serialize`: the order in which the promises of a chain settle.
use shatters.Common.{
  ◌≡◌, ◌<◌, refl, sym, ap, ◌∙◌, ℕ, ◌==◌, Bool, true, false, ◌&&◌, Option, none, some, List, [], ◌∷◌,
  length, Bool-cases, inl, inr, arith, if◌then◌else◌,
}
use shatters.Store.Queue.{
  Work, Status, pending, running, done, failed, Promise, promise_at, set_status, is_settled,
  previous_settled, written,
}

module _ {V : Type 0} where
  -- The promises that were made before the one of this number.
  abbrev pub older : ℕ → List (Promise V) → List (Promise V)
  older i [] = []
  older i (p ∷ ps) = if i == length ps then ps else older i ps

  abbrev pub all_settled : List (Promise V) → Bool
  all_settled [] = true
  all_settled (p ∷ ps) = is_settled p.status && all_settled ps

  abbrev pub has_begun : Status V → Bool
  has_begun pending = false
  has_begun (running read) = true
  has_begun done = true
  has_begun failed = true

  -- Each promise was chained to the one made before it, and `writeChains` holds the newest.
  abbrev pub Linked : Option ℕ → List (Promise V) → Type 0
  Linked tail [] = tail ≡ none
  Linked tail (p ∷ ps) = (tail ≡ some (length ps)) × Linked p.previous ps

  -- Where the work of a promise has begun, all promises made before it have settled.
  abbrev pub Ordered : List (Promise V) → Type 0
  Ordered [] = Unit
  Ordered (p ∷ ps) = (has_begun p.status ≡ true → all_settled ps ≡ true) × Ordered ps

  -- What a promise of this status has made of its record.
  abbrev pub effect : Status V → Work V → Option V → Option V
  effect pending work stored = stored
  effect (running read) work stored = stored
  effect done work stored = written (work stored) stored
  effect failed work stored = stored

  -- The record after the works that succeeded, one by one in the order of the calls.
  abbrev pub run_all : List (Promise V) → Option V → Option V
  run_all [] stored = stored
  run_all (p ∷ ps) stored = effect p.status p.work (run_all ps stored)

  -- A work that runs has read the record as it is.
  abbrev pub Fresh : Option V → List (Promise V) → Type 0
  Fresh stored [] = Unit
  Fresh stored (p ∷ ps) =
      ((read : Option V) → p.status ≡ running read → read ≡ stored) × Fresh stored ps

  length-set_status :
      (i : ℕ) (s : Status V) (ps : List (Promise V)) → length (set_status i s ps) ≡ length ps
  length-set_status i s [] = refl
  length-set_status i s (p ∷ ps) = ground (arith, length-set_status i s ps)

  pub set_status-Linked :
      (i : ℕ) (s : Status V) (tail : Option ℕ) (ps : List (Promise V))
      → Linked tail ps
      → Linked tail (set_status i s ps)
  set_status-Linked i s tail [] h = h
  set_status-Linked i s tail (p ∷ ps) h = elim (Bool-cases (i == length ps)) [
    | inl here ↦ rw here h
    | inr on ↦
        rw on (
          (h.0 ∙ ap some (sym (length-set_status i s ps)), set_status-Linked i s p.previous ps h.1))
  ]

  pub promise_at-settled :
      (i : ℕ) (p : Promise V) (ps : List (Promise V))
      → all_settled ps ≡ true
      → promise_at i ps ≡ some p
      → is_settled p.status ≡ true
  promise_at-settled i p [] h e = cc
  promise_at-settled i p (q ∷ ps) h e = elim (Bool-cases (i == length ps)) [
    | inl here ↦ let same : q ≡ p = ground arith in rw⁻¹ same (ground arith)
    | inr on ↦ promise_at-settled i p ps (ground arith) (ground arith)
  ]

  previous-lt :
      (i k : ℕ) (p : Promise V) (tail : Option ℕ) (ps : List (Promise V))
      → Linked tail ps
      → promise_at i ps ≡ some p
      → p.previous ≡ some k
      → k < length ps
  previous-lt i k p tail [] h e f = cc
  previous-lt i k p tail (q ∷ ps) h e f = elim (Bool-cases (i == length ps)) [
    | inl here ↦ let same : q ≡ p = ground arith in last ps h.1 (ap (λ r. r.previous) same ∙ f)
    | inr on ↦ omega (arith, previous-lt i k p q.previous ps h.1 (ground arith) f)
  ]
    where
      last :
          (qs : List (Promise V)) → Linked q.previous qs → q.previous ≡ some k → k < length (q ∷ qs)
      last [] g is = cc
      last (r ∷ rs) g is = let n : k ≡ length rs = cc in omega arith

  previous_settled-skip :
      (o : Option ℕ) (q : Promise V) (ps : List (Promise V))
      → ((k : ℕ) → o ≡ some k → k < length ps)
      → previous_settled o (q ∷ ps) ≡ previous_settled o ps
  previous_settled-skip none q ps h = refl
  previous_settled-skip (some k) q ps h =
      let other : (k == length ps) ≡ false = ground (arith, h k refl) in rw other refl

  -- The promise that a new one was chained to is the one before it, and so the last to settle.
  settled-before :
      (q : Promise V) (ps : List (Promise V))
      → Linked q.previous ps
      → Ordered ps
      → previous_settled q.previous (q ∷ ps) ≡ true
      → all_settled ps ≡ true
  settled-before q [] h o e = refl
  settled-before q (r ∷ rs) h o e =
      let other : (length rs == length (r ∷ rs)) ≡ false = ground arith in
      let here : (length rs == length rs) ≡ true = ground arith in
      let over : is_settled r.status ≡ true = sym (rw (h.0, other, here) refl) ∙ e in
      rw over (o.0 (begun r.status over))
    where
      begun : (s : Status V) → is_settled s ≡ true → has_begun s ≡ true
      begun pending f = cc
      begun (running read) f = refl
      begun done f = refl
      begun failed f = refl

  pub older-settled :
      (i : ℕ) (p : Promise V) (tail : Option ℕ) (ps : List (Promise V))
      → Linked tail ps
      → Ordered ps
      → promise_at i ps ≡ some p
      → previous_settled p.previous ps ≡ true
      → all_settled (older i ps) ≡ true
  older-settled i p tail [] h o e f = refl
  older-settled i p tail (q ∷ ps) h o e f = elim (Bool-cases (i == length ps)) [
    | inl here ↦
        let same : q ≡ p = ground arith in
        rw here
          (settled-before q ps h.1 o.1 (ap (λ r. previous_settled r.previous (q ∷ ps)) same ∙ f))
    | inr on ↦
        let there : promise_at i ps ≡ some p = ground arith in
        rw on (
          older-settled i p q.previous ps h.1 o.1 there (
            sym (
              previous_settled-skip p.previous q ps
                (λ k g. previous-lt i k p q.previous ps h.1 there g))
            ∙ f))
  ]

  pub older-begun :
      (i : ℕ) (p : Promise V) (ps : List (Promise V))
      → Ordered ps
      → promise_at i ps ≡ some p
      → has_begun p.status ≡ true
      → all_settled (older i ps) ≡ true
  older-begun i p [] o e f = refl
  older-begun i p (q ∷ ps) o e f = elim (Bool-cases (i == length ps)) [
    | inl here ↦
        let same : q ≡ p = ground arith in rw here (o.0 (ap (λ r. has_begun r.status) same ∙ f))
    | inr on ↦ rw on (older-begun i p ps o.1 (ground arith) f)
  ]
