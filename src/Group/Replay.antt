-- ===== src/Group/Replay.antt =====
-- web/src/lib/group/state.ts: `mergeGroups` against the changes that the two replicas have received.
use shatters.Common.{
  ok, ℕ, max, ◌≡◌, refl, sym, ap, ap₂, ◌∙◌, not, ◌&&◌, some, Text, text_eq, arith, List, [], ◌∷◌,
  ◌++◌, ltb, lookup, IsDistinct, if◌then◌else◌,
}
use shatters.Group.{
  GroupState, MembershipChange, current_members, apply_membership_change, apply_rename,
  update_record, or_never, merge_groups,
}
use shatters.Group.Stamps.{wins-le}
use shatters.Group.Changes.{
  Change, membership, rename, apply, lookup-apply_membership_change, members-apply_rename,
}
use shatters.Group.Convergence.{run, run-IsDistinct}
use shatters.Group.Merge.{added, removed, is_member-times, merge_groups-IsMerge, IsMerge-is_member}
use shatters.Group.Listing.{current_members-eq}

-- The latest time at which a history adds the account, and at which it removes it.
latest_added : Text → List Change → ℕ
latest_added k [] = 0
latest_added k (membership c ∷ cs) =
    max (if c.added && text_eq c.account_id k then c.timestamp else 0) (latest_added k cs)
latest_added k (rename _ _ _ ∷ cs) = latest_added k cs

latest_removed : Text → List Change → ℕ
latest_removed k [] = 0
latest_removed k (membership c ∷ cs) =
    max (if not c.added && text_eq c.account_id k then c.timestamp else 0) (latest_removed k cs)
latest_removed k (rename _ _ _ ∷ cs) = latest_removed k cs

times-apply :
    (k : Text) (s : GroupState) (c : MembershipChange)
    → let after = (apply_membership_change s c).members in
      (added k after
        ≡ max (added k s.members) (if c.added && text_eq c.account_id k then c.timestamp else 0))
      × (removed k after
          ≡ max
              (removed k s.members)
              (if not c.added && text_eq c.account_id k then c.timestamp else 0))
unfolding update_record
times-apply k s c =
    let r = or_never (lookup k s.members) in
    ground (
      arith,
      lookup-apply_membership_change k s c,
      wins-le c.timestamp r.added_at (some c.by) r.added_by,
      wins-le c.timestamp r.removed_at (some c.by) r.removed_by,
    )

times-run :
    (k : Text) (s : GroupState) (cs : List Change)
    → (added k (run s cs).members ≡ max (added k s.members) (latest_added k cs))
      × (removed k (run s cs).members ≡ max (removed k s.members) (latest_removed k cs))
unfolding run apply latest_added latest_removed
times-run k s [] = omega arith
times-run k s (membership c ∷ cs) =
    let here = times-apply k s c in
    let later = times-run k (apply_membership_change s c) cs in (omega arith, omega arith)
times-run k s (rename n t b ∷ cs) =
    let later = times-run k (apply_rename s n t b) cs in
    let same_a = ap (added k) (members-apply_rename s n t b) in
    let same_r = ap (removed k) (members-apply_rename s n t b) in (omega arith, omega arith)

latest-append :
    (k : Text) (cs ds : List Change)
    → (latest_added k (cs ++ ds) ≡ max (latest_added k cs) (latest_added k ds))
      × (latest_removed k (cs ++ ds) ≡ max (latest_removed k cs) (latest_removed k ds))
unfolding latest_added latest_removed
latest-append k [] ds = omega arith
latest-append k (membership c ∷ cs) ds = let later = latest-append k cs ds in omega arith
latest-append k (rename _ _ _ ∷ cs) ds = latest-append k cs ds

id-run : (s : GroupState) (cs : List Change) → (run s cs).id ≡ s.id
unfolding run apply apply_membership_change apply_rename
id-run s [] = refl
id-run s (membership c ∷ cs) = id-run (apply_membership_change s c) cs
id-run s (rename n t b ∷ cs) = id-run (apply_rename s n t b) cs ∙ ground arith

-- Two replicas that started from one state and received different changes, merged, list the members
-- that one replica would list which received the changes of both.
pub merge_groups-run :
    (s : GroupState) (cs ds : List Change)
    → IsDistinct s.members
    → (m : GroupState) × (merge_groups (run s cs) (run s ds) ≡ ok m)
      × (current_members m ≡ current_members (run s (cs ++ ds)))
merge_groups-run s cs ds d =
    let (m, p, is) =
      merge_groups-IsMerge (run s cs) (run s ds) (run-IsDistinct s cs d) (run-IsDistinct s ds d)
        (id-run s cs ∙ sym (id-run s ds)) in
    (
      m,
      p,
      current_members-eq m (run s (cs ++ ds)) is.distinct (run-IsDistinct s (cs ++ ds) d) (λ k.
          let (a₁, r₁) = times-run k s cs in
          let (a₂, r₂) = times-run k s ds in
          let (a₃, r₃) = times-run k s (cs ++ ds) in
          let (a₄, r₄) = latest-append k cs ds in
          IsMerge-is_member (run s cs) (run s ds) m k is
          ∙ ap₂ (λ (r t : ℕ). ltb r t) (omega arith) (omega arith)
          ∙ sym (is_member-times (run s (cs ++ ds)) k)),
    )
