-- ===== src/Group/Listing.antt =====
-- web/src/lib/group/state.ts, `currentMembers` and `isMember`: the list of members is the set of
-- accounts that `isMember` accepts, in one order for every replica.
use shatters.Common.{
  contains, NoneTwice, IsAscending, contains-sort, sort-IsAscending, IsAscending-unique, ◌≡◌, refl,
  sym, ◌∙◌, Text, arith, List, [], ◌∷◌, lookup, IsDistinct, text_eq_iff,
}
use shatters.Group.{
  MemberRecord, GroupState, is_current_option, current_ids, current_members, is_member,
}

contains-current_ids :
    (k : Text) (m : List (Text × MemberRecord))
    → IsDistinct m
    → contains (current_ids m) k ≡ is_current_option (lookup k m)
unfolding contains current_ids lookup
contains-current_ids k [] d = refl
contains-current_ids k ((j, r) ∷ m) d =
    ground (arith, contains-current_ids k m d.1, text_eq_iff j k)

current_ids-NoneTwice : (m : List (Text × MemberRecord)) → IsDistinct m → NoneTwice (current_ids m)
unfolding current_ids
current_ids-NoneTwice [] d = tt
current_ids-NoneTwice ((j, r) ∷ m) d =
    ground (arith, contains-current_ids j m d.1, current_ids-NoneTwice m d.1)

-- Over an object without double keys, the list of members is in ascending order of the code units,
-- without doubles, and holds an account exactly when `isMember` accepts it.
pub current_members-is_member :
    (s : GroupState)
    → IsDistinct s.members
    → IsAscending (current_members s)
      × ((k : Text) → contains (current_members s) k ≡ is_member s k)
unfolding current_members is_member
current_members-is_member s d = (
  sort-IsAscending (current_ids s.members) (current_ids-NoneTwice s.members d),
  λ k. contains-sort k (current_ids s.members) ∙ contains-current_ids k s.members d,
)

-- Replicas that answer `isMember` alike list their members alike.
pub current_members-eq :
    (s t : GroupState)
    → IsDistinct s.members
    → IsDistinct t.members
    → ((k : Text) → is_member s k ≡ is_member t k)
    → current_members s ≡ current_members t
current_members-eq s t d e same =
    let (up_s, in_s) = current_members-is_member s d in
    let (up_t, in_t) = current_members-is_member t e in
    IsAscending-unique _ _ up_s up_t (λ k. in_s k ∙ same k ∙ sym (in_t k))
