-- ===== src/Group/Clock.antt =====
-- web/src/lib/group/state.ts: `createGroup`, and the stamps of `nextTimestamp`.
use shatters.Common.{
  err, ok, contains, unique_from, contains-unique_from, ℕ, ◌<◌, ◌≡◌, refl, ◌⊎◌, inl, inr, ◌&&◌,
  none, some, Text, arith, List, [], ◌∷◌, ltb, lookup, IsDistinct, assign, lookup-assign,
  assign-IsDistinct, if◌then◌else◌,
}
use shatters.Group.{
  MemberRecord, GroupState, id_required, latest_timestamp, next_timestamp, assign_created,
  create_group, is_current_option, is_member,
}

next_timestamp-gt : (s : GroupState) (now : ℕ) → latest_timestamp s < next_timestamp s now
unfolding next_timestamp
next_timestamp-gt s now = omega arith

lookup-assign_created :
    (k : Text) (t : ℕ) (c : Text) (ids : List Text) (m : List (Text × MemberRecord))
    → is_current_option (lookup k (assign_created t c ids m))
      ≡ (if contains ids k then ltb 0 t else is_current_option (lookup k m))
unfolding assign_created contains
lookup-assign_created k t c [] m = refl
lookup-assign_created k t c (a ∷ ids) m =
    let entry : MemberRecord = record {
      added_at = t;
      removed_at = 0;
      added_by = some c;
      removed_by = none;
    } in
    ground (arith, lookup-assign_created k t c ids (assign a entry m), lookup-assign k a entry m)

assign_created-IsDistinct :
    (t : ℕ) (c : Text) (ids : List Text) (m : List (Text × MemberRecord))
    → IsDistinct m
    → IsDistinct (assign_created t c ids m)
unfolding assign_created
assign_created-IsDistinct t c [] m d = d
assign_created-IsDistinct t c (a ∷ ids) m d =
    let entry : MemberRecord = record {
      added_at = t;
      removed_at = 0;
      added_by = some c;
      removed_by = none;
    } in
    assign_created-IsDistinct t c ids (assign a entry m) (assign-IsDistinct a entry m d)

-- Creation fails exactly on the empty id. Otherwise, at a time after 0, the members are the creator
-- and the accounts that it lists; at time 0 there are none.
pub create_group-is_member :
    (id name by : Text) (ids : List Text) (t : ℕ)
    → ((id ≡ []) × (create_group id name by ids t ≡ err id_required))
      ⊎ ((s : GroupState) × (create_group id name by ids t ≡ ok s)
          × IsDistinct s.members
          × ((k : Text) → is_member s k ≡ (ltb 0 t && contains (by ∷ ids) k)))
unfolding create_group is_member contains unique_from lookup
create_group-is_member [] name by ids t = inl (refl, refl)
create_group-is_member (x ∷ id) name by ids t = inr (
  record {
    id = x ∷ id;
    name = name;
    name_updated_at = t;
    name_updated_by = some by;
    created_by = by;
    created_at = t;
    members = assign_created t by (unique_from [] (by ∷ ids)) [];
  },
  refl,
  assign_created-IsDistinct t by (unique_from [] (by ∷ ids)) [] tt,
  λ k. ground (
    arith,
    lookup-assign_created k t by (unique_from [] (by ∷ ids)) [],
    contains-unique_from k [] (by ∷ ids),
  ),
)
