-- ===== src/Group/Changes.antt =====
-- web/src/lib/group/state.ts: one change and its effect, `applyMembershipChange` and `applyRename`.
-- Two changes commute and each is idempotent.
use shatters.Common.{
  ℕ, ◌≡◌, refl, sym, ap, ap₂, ◌∙◌, some, Text, arith, [], lookup, lookup-assign, assign-IsDistinct,
  IsDistinct, text_eq, text_eq_iff, if◌then◌else◌,
}
use shatters.Group.{
  MemberRecord, GroupState, MembershipChange, or_never, update_record, apply_membership_change,
  apply_rename,
}
use shatters.Group.Stamps.{wins_irrefl, wins_trans, wins_tie, wins_asymm}

update_record_idem :
    (c : MembershipChange) (r : MemberRecord)
    → update_record c (update_record c r) ≡ update_record c r
unfolding update_record
update_record_idem c r = ground (arith, wins_irrefl c.timestamp (some c.by))

update_record_comm :
    (c d : MembershipChange) (r : MemberRecord)
    → update_record d (update_record c r) ≡ update_record c (update_record d r)
unfolding update_record
update_record_comm c d r = ground (
  arith,
  wins_trans c.timestamp d.timestamp r.added_at (some c.by) (some d.by) r.added_by,
  wins_trans d.timestamp c.timestamp r.added_at (some d.by) (some c.by) r.added_by,
  wins_trans c.timestamp d.timestamp r.removed_at (some c.by) (some d.by) r.removed_by,
  wins_trans d.timestamp c.timestamp r.removed_at (some d.by) (some c.by) r.removed_by,
  wins_asymm c.timestamp d.timestamp (some c.by) (some d.by),
  wins_tie c.timestamp d.timestamp (some c.by) (some d.by),
)

abbrev pub header : GroupState → GroupState
header s = record s { members = [] }

-- Two states that no reader of the group tells apart: the order in which an object keeps its keys is
-- forgotten.
pub record SameGroup (s t : GroupState) : Type 0 where
  pub header : header s ≡ header t
  pub members : (k : Text) → lookup k s.members ≡ lookup k t.members

pub SameGroup-refl : (s : GroupState) → SameGroup s s
SameGroup-refl s = record { header = refl; members = λ k. refl }

pub SameGroup-symm : {s t : GroupState} → SameGroup s t → SameGroup t s
SameGroup-symm e = record { header = sym e.header; members = λ k. sym (e.members k) }

pub SameGroup-trans : {s t u : GroupState} → SameGroup s t → SameGroup t u → SameGroup s u
SameGroup-trans e f = record {
  header = e.header ∙ f.header;
  members = λ k. e.members k ∙ f.members k;
}

-- What a change does to the record of each account.
pub lookup-apply_membership_change :
    (k : Text) (s : GroupState) (c : MembershipChange)
    → lookup k (apply_membership_change s c).members ≡ (
        if text_eq c.account_id k
        then some (update_record c (or_never (lookup k s.members)))
        else lookup k s.members)
unfolding apply_membership_change
lookup-apply_membership_change k s c = ground (
  arith,
  lookup-assign k c.account_id (update_record c (or_never (lookup c.account_id s.members)))
      s.members,
  text_eq_iff c.account_id k,
)

-- The state after a history of changes, each a change of membership or of the name.
pub data Change : Type 0 where
  membership : MembershipChange → Change
  rename : (name : Text) (timestamp : ℕ) (by : Text) → Change

unfoldable pub apply : GroupState → Change → GroupState
apply s (membership c) = apply_membership_change s c
apply s (rename name timestamp by) = apply_rename s name timestamp by

-- Two renames of one author at one time give one name.
abbrev pub IsNamed : (ℕ → Text → Text) → Change → Type 0
IsNamed named (membership c) = Unit
IsNamed named (rename name timestamp by) = name ≡ named timestamp by

header-apply_rename :
    (s : GroupState) (n : Text) (t : ℕ) (b : Text)
    → header (apply_rename s n t b) ≡ apply_rename (header s) n t b
unfolding apply_rename
header-apply_rename s n t b = ground arith

pub members-apply_rename :
    (s : GroupState) (n : Text) (t : ℕ) (b : Text) → (apply_rename s n t b).members ≡ s.members
unfolding apply_rename
members-apply_rename s n t b = ground arith

apply_rename_idem :
    (s : GroupState) (n : Text) (t : ℕ) (b : Text)
    → apply_rename (apply_rename s n t b) n t b ≡ apply_rename s n t b
unfolding apply_rename
apply_rename_idem s n t b = ground (arith, wins_irrefl t (some b))

apply_rename_comm :
    (s : GroupState) (n m : Text) (t u : ℕ) (b c : Text)
    → (t ≡ u → b ≡ c → n ≡ m)
    → apply_rename (apply_rename s n t b) m u c ≡ apply_rename (apply_rename s m u c) n t b
unfolding apply_rename
apply_rename_comm s n m t u b c named = ground (
  arith,
  wins_trans t u s.name_updated_at (some b) (some c) s.name_updated_by,
  wins_trans u t s.name_updated_at (some c) (some b) s.name_updated_by,
  wins_asymm t u (some b) (some c),
  wins_tie t u (some b) (some c),
  named,
)

pub apply-SameGroup :
    (s t : GroupState) (c : Change) → SameGroup s t → SameGroup (apply s c) (apply t c)
unfolding apply apply_membership_change
apply-SameGroup s t (membership c) e = record {
  header = e.header;
  members = λ k. ground (
    arith,
    e.members k,
    lookup-apply_membership_change k s c,
    lookup-apply_membership_change k t c,
  );
}
apply-SameGroup s t (rename n at by) e = record {
  header =
      header-apply_rename s n at by
      ∙ ap (λ g. apply_rename g n at by) e.header
      ∙ sym (header-apply_rename t n at by);
  members = λ k. rw (members-apply_rename s n at by, members-apply_rename t n at by) (e.members k);
}

pub apply_idem : (s : GroupState) (c : Change) → SameGroup (apply (apply s c) c) (apply s c)
unfolding apply apply_membership_change
apply_idem s (membership c) = record {
  header = refl;
  members = λ k. ground (
    arith,
    lookup-apply_membership_change k s c,
    lookup-apply_membership_change k (apply_membership_change s c) c,
    update_record_idem c (or_never (lookup k s.members)),
  );
}
apply_idem s (rename n at by) = rw (apply_rename_idem s n at by) (SameGroup-refl _)

membership_comm :
    (k : Text) (s : GroupState) (c d : MembershipChange)
    → lookup k (apply_membership_change (apply_membership_change s c) d).members
      ≡ lookup k (apply_membership_change (apply_membership_change s d) c).members
membership_comm k s c d = ground (
  arith,
  lookup-apply_membership_change k s c,
  lookup-apply_membership_change k s d,
  lookup-apply_membership_change k (apply_membership_change s c) d,
  lookup-apply_membership_change k (apply_membership_change s d) c,
  update_record_comm c d (or_never (lookup k s.members)),
)

membership_rename_comm :
    (s : GroupState) (c : MembershipChange) (n : Text) (t : ℕ) (b : Text)
    → apply_rename (apply_membership_change s c) n t b
      ≡ apply_membership_change (apply_rename s n t b) c
unfolding apply_rename apply_membership_change
membership_rename_comm s c n t b = ground arith

pub apply_comm :
    (named : ℕ → Text → Text) (s : GroupState) (c d : Change)
    → IsNamed named c
    → IsNamed named d
    → SameGroup (apply (apply s c) d) (apply (apply s d) c)
unfolding apply apply_membership_change
apply_comm named s (membership c) (membership d) p q = record {
  header = refl;
  members = λ k. membership_comm k s c d;
}
apply_comm named s (membership c) (rename n t b) p q =
    rw (membership_rename_comm s c n t b) (SameGroup-refl _)
apply_comm named s (rename n t b) (membership d) p q =
    rw (membership_rename_comm s d n t b) (SameGroup-refl _)
apply_comm named s (rename n t b) (rename m u c) p q =
    rw (apply_rename_comm s n m t u b c (λ e f. p ∙ ap₂ named e f ∙ sym q)) (SameGroup-refl _)

pub apply-IsDistinct :
    (s : GroupState) (c : Change) → IsDistinct s.members → IsDistinct (apply s c).members
unfolding apply apply_membership_change
apply-IsDistinct s (membership c) d =
    assign-IsDistinct c.account_id (update_record c (or_never (lookup c.account_id s.members)))
      s.members d
apply-IsDistinct s (rename n t b) d = rw (members-apply_rename s n t b) d
