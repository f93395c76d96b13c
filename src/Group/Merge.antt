-- ===== src/Group/Merge.antt =====
-- web/src/lib/group/state.ts, `mergeGroups`: for each account the merge takes the later time of
-- adding and of removing, so merging two replicas has the effect of delivering the changes of both.
use shatters.Common.{
  err, ok, ℕ, max, min, ◌≡◌, ◌≢◌, refl, sym, ap, ap₂, ◌∙◌, inl, inr, true, false, Option, none,
  some, Text, arith, Bool-cases, List, [], ◌∷◌, ltb, lookup, assign, IsDistinct, lookup-assign,
  assign-IsDistinct, text_eq_iff,
}
use shatters.Group.{
  MemberRecord, GroupState, wins, or_empty, current_members, is_member, or_never, merge_record,
  merge_members, merged_state, merge_groups, different_groups,
}
use shatters.Group.Stamps.{wins_asymm, wins_tie}
use shatters.Group.Listing.{current_members-eq}

-- When an account was last added and last removed; 0 is never.
abbrev pub added : Text → List (Text × MemberRecord) → ℕ
added k m = (or_never (lookup k m)).added_at

abbrev pub removed : Text → List (Text × MemberRecord) → ℕ
removed k m = (or_never (lookup k m)).removed_at

pub is_member-times :
    (s : GroupState) (k : Text) → is_member s k ≡ ltb (removed k s.members) (added k s.members)
unfolding is_member
is_member-times s k = ground arith

merged : Option MemberRecord → Option MemberRecord → Option MemberRecord
merged local none = local
merged local (some r) = some (merge_record (or_never local) r)

lookup-merge_members :
    (k : Text) (m rest : List (Text × MemberRecord))
    → IsDistinct rest
    → lookup k (merge_members m rest) ≡ merged (lookup k m) (lookup k rest)
unfolding merge_members merged lookup
lookup-merge_members k m [] d = refl
lookup-merge_members k m ((j, r) ∷ rest) d = ground (
  arith,
  lookup-merge_members k (assign j (merge_record (or_never (lookup j m)) r) m) rest d.1,
  lookup-assign k j (merge_record (or_never (lookup j m)) r) m,
  text_eq_iff j k,
)

times-merge_members :
    (k : Text) (m rest : List (Text × MemberRecord))
    → IsDistinct rest
    → (added k (merge_members m rest) ≡ max (added k m) (added k rest))
      × (removed k (merge_members m rest) ≡ max (removed k m) (removed k rest))
unfolding merged merge_record
times-merge_members k m rest d = ground (arith, lookup-merge_members k m rest d)

merge_members-IsDistinct :
    (m rest : List (Text × MemberRecord)) → IsDistinct m → IsDistinct (merge_members m rest)
unfolding merge_members
merge_members-IsDistinct m [] d = d
merge_members-IsDistinct m ((j, r) ∷ rest) d =
    merge_members-IsDistinct (assign j (merge_record (or_never (lookup j m)) r) m) rest
      (assign-IsDistinct j (merge_record (or_never (lookup j m)) r) m d)

-- A merge of `a` with `b` into `s`, field by field.
pub record IsMerge (a b s : GroupState) : Type 0 where
  pub id : s.id ≡ a.id
  pub distinct : IsDistinct s.members
  pub name_updated_at : s.name_updated_at ≡ max a.name_updated_at b.name_updated_at
  pub created_at : s.created_at ≡ min a.created_at b.created_at
  pub added : (k : Text) → added k s.members ≡ max (added k a.members) (added k b.members)
  pub removed : (k : Text) → removed k s.members ≡ max (removed k a.members) (removed k b.members)
  pub name :
      (wins b.name_updated_at b.name_updated_by a.name_updated_at a.name_updated_by ≡ true
        → s.name ≡ b.name)
      × (wins b.name_updated_at b.name_updated_by a.name_updated_at a.name_updated_by ≡ false
          → s.name ≡ a.name)

pub merge_groups-IsMerge :
    (a b : GroupState)
    → IsDistinct a.members
    → IsDistinct b.members
    → a.id ≡ b.id
    → (s : GroupState) × (merge_groups a b ≡ ok s) × IsMerge a b s
unfolding merge_groups merged_state
merge_groups-IsMerge a b d e same =
    let hit = (text_eq_iff a.id b.id).1 same in
    (
      merged_state a b,
      rw hit,
      record {
        id = refl;
        distinct = merge_members-IsDistinct a.members b.members d;
        name_updated_at = refl;
        created_at = refl;
        added = λ k. (times-merge_members k a.members b.members e).0;
        removed = λ k. (times-merge_members k a.members b.members e).1;
        name = (λ h. ground arith, λ h. ground arith);
      },
    )

-- Replicas of different groups are not merged.
pub merge_groups_refuses :
    (a b : GroupState) → a.id ≢ b.id → merge_groups a b ≡ err different_groups
unfolding merge_groups
merge_groups_refuses a b h = ground (arith, text_eq_iff a.id b.id)

pub IsMerge-is_member :
    (a b s : GroupState) (k : Text)
    → IsMerge a b s
    → is_member s k
      ≡ ltb
          (max (removed k a.members) (removed k b.members))
          (max (added k a.members) (added k b.members))
IsMerge-is_member a b s k m =
    is_member-times s k ∙ ap₂ (λ (r t : ℕ). ltb r t) (m.removed k) (m.added k)

names_agree :
    (a b s t : GroupState)
    → IsMerge a b s
    → IsMerge b a t
    → (a.name_updated_at ≡ b.name_updated_at
        → or_empty a.name_updated_by ≡ or_empty b.name_updated_by
        → a.name ≡ b.name)
    → s.name ≡ t.name
names_agree a b s t m n tie =
    elim (Bool-cases
      (wins b.name_updated_at b.name_updated_by a.name_updated_at a.name_updated_by)) [
        | inl remote ↦
            m.name.0 remote
            ∙ sym (n.name.1 (wins_asymm b.name_updated_at a.name_updated_at _ _ remote))
        | inr stays ↦
            elim (Bool-cases
              (wins a.name_updated_at a.name_updated_by b.name_updated_at b.name_updated_by)) [
                | inl local ↦ m.name.1 stays ∙ sym (n.name.0 local)
                | inr tied ↦
                    let (at, by) = wins_tie a.name_updated_at b.name_updated_at _ _ tied stays in
                    m.name.1 stays ∙ tie at by ∙ sym (n.name.1 tied)
              ]
      ]

-- Two replicas of one group, merged in either direction, agree: they list the same members, and hold
-- the same times of naming and creation; and the same name, if the two names differ in their stamp
-- or are one.
pub merge_groups_comm :
    (a b : GroupState)
    → IsDistinct a.members
    → IsDistinct b.members
    → a.id ≡ b.id
    → (a.name_updated_at ≡ b.name_updated_at
        → or_empty a.name_updated_by ≡ or_empty b.name_updated_by
        → a.name ≡ b.name)
    → (s t : GroupState) × (merge_groups a b ≡ ok s)
      × (merge_groups b a ≡ ok t)
      × (current_members s ≡ current_members t)
      × (s.name ≡ t.name)
      × (s.name_updated_at ≡ t.name_updated_at)
      × (s.created_at ≡ t.created_at)
merge_groups_comm a b d e same tie =
    let (s, p, m) = merge_groups-IsMerge a b d e same in
    let (t, q, n) = merge_groups-IsMerge b a e d (sym same) in
    (
      s,
      t,
      p,
      q,
      current_members-eq s t m.distinct n.distinct (λ k.
          IsMerge-is_member a b s k m
          ∙ ap₂ (λ (r t : ℕ). ltb r t) (omega arith) (omega arith)
          ∙ sym (IsMerge-is_member b a t k n)),
      names_agree a b s t m n tie,
      omega (arith, m.name_updated_at, n.name_updated_at),
      omega (arith, m.created_at, n.created_at),
    )

-- An exact tie in the time of adding is not broken by the author: two replicas that hold different
-- authors at one time keep different records, each its own, whichever way they merge.
pub merge_record_tie :
    (a b : MemberRecord)
    → a.added_at ≡ b.added_at
    → a.added_by ≢ b.added_by
    → ((merge_record a b).added_by ≡ a.added_by)
      × ((merge_record b a).added_by ≡ b.added_by)
      × (merge_record a b ≢ merge_record b a)
unfolding merge_record
merge_record_tie a b e n = (
  ground arith,
  ground arith,
  λ same. n (ground (arith, ap (λ (r : MemberRecord). r.added_by) same)),
)
