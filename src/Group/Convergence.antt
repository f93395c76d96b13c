-- ===== src/Group/Convergence.antt =====
-- web/src/lib/group/state.ts: every member reaches the same group from the same set of changes,
-- whatever their order and however often each is delivered.
use mathlib.Core.List.{Memᴰ}
use shatters.Common.{ℕ, List, [], ◌∷◌, Text, All, All-mem, IsDistinct}
use shatters.Group.{GroupState}
use shatters.Group.Changes.{
  Change, IsNamed, apply-IsDistinct, apply, apply_idem, apply_comm, apply-SameGroup, SameGroup,
  SameGroup-refl, SameGroup-symm, SameGroup-trans,
}

-- The state after a history, in the order of delivery.
unfoldable pub run : GroupState → List Change → GroupState
run s [] = s
run s (c ∷ cs) = run (apply s c) cs

abbrev pub Within : List Change → List Change → Type 0
Within cs ds = All (λ c. Memᴰ c ds) cs

run-SameGroup :
    (s t : GroupState) (cs : List Change) → SameGroup s t → SameGroup (run s cs) (run t cs)
unfolding run
run-SameGroup s t [] e = e
run-SameGroup s t (c ∷ cs) e = run-SameGroup (apply s c) (apply t c) cs (apply-SameGroup s t c e)

module _ (named : ℕ → Text → Text) where
  -- A change may be moved over a history.
  run-apply :
      (s : GroupState) (c : Change) (cs : List Change)
      → IsNamed named c
      → All (IsNamed named) cs
      → SameGroup (run (apply s c) cs) (apply (run s cs) c)
  unfolding run
  run-apply s c [] p q = SameGroup-refl _
  run-apply s c (d ∷ cs) p q =
      SameGroup-trans (run-SameGroup _ _ cs (apply_comm named s c d p q.0))
        (run-apply (apply s d) c cs p q.1)

  -- A change that the history holds adds nothing in front of it.
  run_absorb :
      (s : GroupState) (c : Change) (cs : List Change)
      → All (IsNamed named) cs
      → Memᴰ c cs
      → SameGroup (run (apply s c) cs) (run s cs)
  unfolding run
  run_absorb s c [] q m = elim m [ ]
  run_absorb s c (d ∷ cs) q (Memᴰ.head e) = rw e (run-SameGroup _ _ cs (apply_idem s d))
  run_absorb s c (d ∷ cs) q (Memᴰ.tail m) =
      SameGroup-trans
        (run-SameGroup _ _ cs (apply_comm named s c d (All-mem (IsNamed named) cs q.1 m) q.0))
        (run_absorb (apply s d) c cs q.1 m)

  run_deliver_twice :
      (s : GroupState) (cs ds : List Change)
      → All (IsNamed named) ds
      → Within cs ds
      → SameGroup (run (run s cs) ds) (run s ds)
  unfolding run
  run_deliver_twice s [] ds q w = SameGroup-refl _
  run_deliver_twice s (c ∷ cs) ds q w =
      SameGroup-trans (run_deliver_twice (apply s c) cs ds q w.1) (run_absorb s c ds q w.0)

  run_comm :
      (s : GroupState) (cs ds : List Change)
      → All (IsNamed named) cs
      → All (IsNamed named) ds
      → SameGroup (run (run s cs) ds) (run (run s ds) cs)
  unfolding run
  run_comm s [] ds p q = SameGroup-refl _
  run_comm s (c ∷ cs) ds p q =
      SameGroup-trans (run_comm (apply s c) cs ds p.1 q)
        (run-SameGroup _ _ cs (run-apply s c ds p.0 q))

-- Two histories that hold the same changes, in any order and any number, lead from one state to the
-- same group: equal fields, and equal records for every account. The renames of one author at one
-- time must agree on the name.
pub run_converges :
    (named : ℕ → Text → Text) (s : GroupState) (cs ds : List Change)
    → All (IsNamed named) cs
    → All (IsNamed named) ds
    → Within cs ds
    → Within ds cs
    → SameGroup (run s cs) (run s ds)
run_converges named s cs ds p q v w =
    SameGroup-trans (SameGroup-symm (run_deliver_twice named s ds cs p w))
      (SameGroup-trans (run_comm named s ds cs q p) (run_deliver_twice named s cs ds q v))

-- No history of changes brings a key in twice.
pub run-IsDistinct :
    (s : GroupState) (cs : List Change) → IsDistinct s.members → IsDistinct (run s cs).members
unfolding run
run-IsDistinct s [] d = d
run-IsDistinct s (c ∷ cs) d = run-IsDistinct (apply s c) cs (apply-IsDistinct s c d)
