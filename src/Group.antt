-- ===== src/Group.antt =====
-- web/src/lib/group/state.ts: the membership state of a group, a last-writer-wins element set. Times
-- are milliseconds, as natural numbers; an absent author is `none`.
pub mod Stamps
pub mod Changes
pub mod Convergence
pub mod Merge
pub mod Replay
pub mod Clock
pub mod Listing
pub mod Examples
use shatters.Common.{
  Outcome, err, ok, sort, contains, unique_from, ℕ, suc, ◌+◌, max, min, Bool, true, false, not,
  ◌&&◌, ◌||◌, Option, none, some, List, [], ◌∷◌, ◌++◌, Text, text_eq, text_lt, lookup, assign, ltb,
  ◌==◌, if◌then◌else◌, is_empty,
}

pub record MemberRecord : Type 0 where
  pub added_at : ℕ
  pub removed_at : ℕ
  pub added_by : Option Text
  pub removed_by : Option Text

pub record GroupState : Type 0 where
  pub id : Text
  pub name : Text
  pub name_updated_at : ℕ
  pub name_updated_by : Option Text
  pub created_by : Text
  pub created_at : ℕ
  pub members : List (Text × MemberRecord)

pub record MembershipChange : Type 0 where
  pub account_id : Text
  pub added : Bool
  pub timestamp : ℕ
  pub by : Text

pub data GroupError : Type 0 where
  id_required different_groups : GroupError

abbrev pub Result : Type 0
Result = Outcome GroupError GroupState

-- `by ?? ""`.
abbrev pub or_empty : Option Text → Text
or_empty none = []
or_empty (some by) = by

pub wins : ℕ → Option Text → ℕ → Option Text → Bool
wins candidate_at candidate_by current_at current_by =
    if not (candidate_at == current_at)
    then ltb current_at candidate_at
    else text_lt (or_empty current_by) (or_empty candidate_by)

-- The loop of `latestTimestamp` over the member records.
pub latest_from : ℕ → List (Text × MemberRecord) → ℕ
latest_from latest [] = latest
latest_from latest ((_, record_) ∷ rest) =
    latest_from (max (max latest record_.added_at) record_.removed_at) rest

pub latest_timestamp : GroupState → ℕ
latest_timestamp state = latest_from (max state.name_updated_at state.created_at) state.members

pub next_timestamp : GroupState → ℕ → ℕ
next_timestamp state now = max now (latest_timestamp state + 1)

pub assign_created : ℕ → Text → List Text → List (Text × MemberRecord) → List (Text × MemberRecord)
assign_created timestamp created_by [] members = members
assign_created timestamp created_by (account_id ∷ rest) members =
    assign_created timestamp created_by rest (
      assign account_id
        (record {
          added_at = timestamp;
          removed_at = 0;
          added_by = some created_by;
          removed_by = none;
        })
        members)

pub create_group : Text → Text → Text → List Text → ℕ → Result
create_group id name created_by members timestamp =
    if is_empty id
    then err id_required
    else ok (record {
      id = id;
      name = name;
      name_updated_at = timestamp;
      name_updated_by = some created_by;
      created_by = created_by;
      created_at = timestamp;
      members = assign_created timestamp created_by (unique_from [] (created_by ∷ members)) [];
    })

-- `record ?? { addedAt: 0, removedAt: 0 }`.
abbrev pub or_never : Option MemberRecord → MemberRecord
or_never none = record { added_at = 0; removed_at = 0; added_by = none; removed_by = none }
or_never (some record_) = record_

-- The record `updated` of `applyMembershipChange`.
pub update_record : MembershipChange → MemberRecord → MemberRecord
update_record change existing =
    if change.added
    then (if wins change.timestamp (some change.by) existing.added_at existing.added_by
        then record existing { added_at = change.timestamp; added_by = some change.by }
        else existing)
    else (if wins change.timestamp (some change.by) existing.removed_at existing.removed_by
        then record existing { removed_at = change.timestamp; removed_by = some change.by }
        else existing)

pub apply_membership_change : GroupState → MembershipChange → GroupState
apply_membership_change state change = record state {
  members =
      assign change.account_id
        (update_record change (or_never (lookup change.account_id state.members))) state.members;
}

pub apply_rename : GroupState → Text → ℕ → Text → GroupState
apply_rename state name timestamp by =
    if not (wins timestamp (some by) state.name_updated_at state.name_updated_by)
    then state
    else record state { name = name; name_updated_at = timestamp; name_updated_by = some by }

-- `record.addedAt > record.removedAt`.
abbrev pub is_current : MemberRecord → Bool
is_current record_ = ltb record_.removed_at record_.added_at

pub current_ids : List (Text × MemberRecord) → List Text
current_ids [] = []
current_ids ((account_id, record_) ∷ rest) =
    if is_current record_ then account_id ∷ current_ids rest else current_ids rest

pub current_members : GroupState → List Text
current_members state = sort (current_ids state.members)

abbrev pub is_current_option : Option MemberRecord → Bool
is_current_option none = false
is_current_option (some record_) = is_current record_

pub is_member : GroupState → Text → Bool
is_member state account_id = is_current_option (lookup account_id state.members)

pub merge_record : MemberRecord → MemberRecord → MemberRecord
merge_record local remote = record {
  added_at = max local.added_at remote.added_at;
  added_by = if ltb local.added_at remote.added_at then remote.added_by else local.added_by;
  removed_at = max local.removed_at remote.removed_at;
  removed_by =
      if ltb local.removed_at remote.removed_at then remote.removed_by else local.removed_by;
}

-- The loop of `mergeGroups` over the remote entries.
pub merge_members :
    List (Text × MemberRecord) → List (Text × MemberRecord) → List (Text × MemberRecord)
merge_members members [] = members
merge_members members ((account_id, remote_record) ∷ rest) =
    merge_members
      (assign account_id (merge_record (or_never (lookup account_id members)) remote_record)
        members)
      rest

-- The object that `mergeGroups` returns.
pub merged_state : GroupState → GroupState → GroupState
merged_state local remote =
    let renamed =
      wins remote.name_updated_at remote.name_updated_by local.name_updated_at
        local.name_updated_by in
    record local {
      name = if renamed then remote.name else local.name;
      name_updated_at = max local.name_updated_at remote.name_updated_at;
      name_updated_by = if renamed then remote.name_updated_by else local.name_updated_by;
      created_at = min local.created_at remote.created_at;
      members = merge_members local.members remote.members;
    }

pub merge_groups : GroupState → GroupState → Result
merge_groups local remote =
    if not (text_eq local.id remote.id)
    then err different_groups
    else ok (merged_state local remote)
