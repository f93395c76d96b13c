-- ===== src/Group/Examples.antt =====
-- Runs of the functions of web/src/lib/group/state.ts, and instances of the theorems about them.
use mathlib.Core.List.{Memᴰ}
use shatters.Common.{
  err, ok, sort, insert_sorted, ℕ, ◌≡◌, refl, true, false, none, some, List, [], ◌∷◌, ◌++◌, Text,
  IsDistinct, lookup, assign, text_eq, text_lt, arith,
}
use shatters.Group.{
  MemberRecord, GroupState, different_groups, wins, next_timestamp, latest_timestamp, latest_from,
  current_members, current_ids, apply_membership_change, apply_rename, update_record, merge_groups,
}
use shatters.Group.Changes.{Change, membership, rename, apply, SameGroup}
use shatters.Group.Convergence.{run, Within, run_converges}
use shatters.Group.Merge.{merge_groups_comm, merge_groups_refuses}
use shatters.Group.Replay.{merge_groups-run}

abbrev alice : Text
alice = 97 ∷ []

abbrev bob : Text
bob = 98 ∷ []

abbrev carol : Text
carol = 99 ∷ []

abbrev club_id : Text
club_id = 103 ∷ []

abbrev added_once : MemberRecord
added_once = record { added_at = 5; removed_at = 0; added_by = some alice; removed_by = none }

abbrev book_club : GroupState
book_club = record {
  id = 103 ∷ [];
  name = 104 ∷ [];
  name_updated_at = 5;
  name_updated_by = some alice;
  created_by = alice;
  created_at = 5;
  members = (bob, added_once) ∷ (alice, added_once) ∷ [];
}

abbrev other_club : GroupState
other_club = record book_club { id = 111 ∷ [] }

abbrev renamed_club : GroupState
renamed_club = record book_club { name = 112 ∷ []; name_updated_at = 8 }

abbrev by_bob : MemberRecord
by_bob = record added_once { added_by = some bob }

abbrev adds_carol : Change
adds_carol = membership (record { account_id = carol; added = true; timestamp = 9; by = alice })

abbrev removes_bob : Change
removes_bob = membership (record { account_id = bob; added = false; timestamp = 9; by = alice })

abbrev renames : Change
renames = rename (110 ∷ []) 9 bob

abbrev named : ℕ → Text → Text
named t b = 110 ∷ []

abbrev one_way : List Change
one_way = adds_carol ∷ removes_bob ∷ renames ∷ adds_carol ∷ []

abbrev other_way : List Change
other_way = renames ∷ removes_bob ∷ adds_carol ∷ []

current_members_test : current_members (run book_club one_way) ≡ alice ∷ carol ∷ []
unfolding current_members current_ids sort insert_sorted run apply apply_membership_change
    apply_rename update_record wins lookup assign text_eq text_lt
current_members_test = refl

next_timestamp_test : next_timestamp book_club 2 ≡ 6
unfolding next_timestamp latest_timestamp latest_from
next_timestamp_test = refl

book_club-IsDistinct : IsDistinct book_club.members
unfolding lookup text_eq
book_club-IsDistinct = (refl, (refl, tt))

first : {c : Change} {cs : List Change} → Memᴰ c (c ∷ cs)
first = Memᴰ.head refl

second : {b c : Change} {cs : List Change} → Memᴰ c (b ∷ c ∷ cs)
second = Memᴰ.tail first

third : {a b c : Change} {cs : List Change} → Memᴰ c (a ∷ b ∷ c ∷ cs)
third = Memᴰ.tail second

one_way-Within : Within one_way other_way
one_way-Within = (third, (second, (first, (third, tt))))

other_way-Within : Within other_way one_way
other_way-Within = (third, (second, (first, tt)))

run_converges_example : SameGroup (run book_club one_way) (run book_club other_way)
run_converges_example =
    run_converges named book_club one_way other_way (tt, (tt, (refl, (tt, tt))))
      (refl, (tt, (tt, tt))) one_way-Within other_way-Within

merge_groups_comm_example :
    (s t : GroupState) × (merge_groups book_club renamed_club ≡ ok s)
    × (merge_groups renamed_club book_club ≡ ok t)
    × (current_members s ≡ current_members t)
    × (s.name ≡ t.name)
    × (s.name_updated_at ≡ t.name_updated_at)
    × (s.created_at ≡ t.created_at)
merge_groups_comm_example =
    merge_groups_comm book_club renamed_club book_club-IsDistinct book_club-IsDistinct refl
      (λ at by. absurd (omega arith))

merge_groups_refuses_example : merge_groups book_club other_club ≡ err different_groups
merge_groups_refuses_example = merge_groups_refuses book_club other_club (λ e. ground arith)

merge_groups-run_example :
    (m : GroupState) × (merge_groups (run book_club one_way) (run book_club other_way) ≡ ok m)
    × (current_members m ≡ current_members (run book_club (one_way ++ other_way)))
merge_groups-run_example = merge_groups-run book_club one_way other_way book_club-IsDistinct
