-- ===== src/Client/AccountIds.antt =====
-- web/src/lib/client/format.ts, `formatAccountId` and `normalizeAccountId`: what is shown can be pasted.
use shatters.Common.{
  ℕ, zero, suc, ◌≤◌, ◌<◌, ◌≡◌, ◌↔◌, refl, sym, ap, ◌∙◌, true, false, some, List, [], ◌∷◌, ◌++◌,
  Text, if◌then◌else◌, take, drop, length, length-drop, take-append-drop, append-nil, arith,
  Bool-cases, inl, inr,
}
use shatters.Client.{is_space, trim_start, trim_end, trim, unless_blank}
use shatters.Client.Format.{
  groups_of, join_spaced, format_account_id, without_spaces, is_id_unit, are_id_units,
  normalize_account_id,
}

without_spaces-trim_start : (text : Text) → without_spaces (trim_start text) ≡ without_spaces text
unfolding trim_start without_spaces
without_spaces-trim_start [] = refl
without_spaces-trim_start (u ∷ us) = ground (arith, without_spaces-trim_start us)

without_spaces-unless_blank :
    (u : ℕ) (us : Text) → without_spaces (unless_blank u us) ≡ without_spaces (u ∷ us)
unfolding without_spaces
without_spaces-unless_blank u [] = ground arith
without_spaces-unless_blank u (v ∷ vs) = refl

without_spaces-trim_end : (text : Text) → without_spaces (trim_end text) ≡ without_spaces text
unfolding trim_end without_spaces
without_spaces-trim_end [] = refl
without_spaces-trim_end (u ∷ us) =
    without_spaces-unless_blank u (trim_end us)
    ∙ ap (λ t. if is_space u then t else u ∷ t) (without_spaces-trim_end us)

-- The trimming changes nothing of what is left without white space.
without_spaces-trim : (text : Text) → without_spaces (trim text) ≡ without_spaces text
unfolding trim
without_spaces-trim text =
    without_spaces-trim_end (trim_start text) ∙ without_spaces-trim_start text

without_spaces-append :
    (xs ys : Text) → without_spaces (xs ++ ys) ≡ without_spaces xs ++ without_spaces ys
unfolding without_spaces
without_spaces-append [] ys = refl
without_spaces-append (x ∷ xs) ys = elim (Bool-cases (is_space x)) [
  | inl blank ↦ rw blank (without_spaces-append xs ys)
  | inr other ↦ rw other (ap (λ t. x ∷ t) (without_spaces-append xs ys))
]

not_space : (u : ℕ) → is_id_unit u ≡ true → is_space u ≡ false
unfolding is_space
not_space u h = ground arith

pub without_spaces-are_id_units : (id : Text) → are_id_units id ≡ true → without_spaces id ≡ id
unfolding without_spaces are_id_units
without_spaces-are_id_units [] h = refl
without_spaces-are_id_units (u ∷ us) h =
    rw (not_space u (ground arith))
      (ap (λ t. u ∷ t) (without_spaces-are_id_units us (ground arith)))

-- The groups in a row.
abbrev pub concat : List Text → Text
concat [] = []
concat (group ∷ groups) = group ++ concat groups

-- The space between two groups is left out.
without_spaces-space : (text : Text) → without_spaces (32 ∷ text) ≡ without_spaces text
unfolding without_spaces is_space
without_spaces-space text = refl

without_spaces-join_spaced :
    (groups : List Text) → without_spaces (join_spaced groups) ≡ without_spaces (concat groups)
unfolding join_spaced
without_spaces-join_spaced [] = refl
without_spaces-join_spaced (group ∷ []) = ap without_spaces (sym (append-nil group))
without_spaces-join_spaced (group ∷ next ∷ groups) =
    without_spaces-append group (32 ∷ join_spaced (next ∷ groups))
    ∙ ap (λ t. without_spaces group ++ t)
        (without_spaces-space (join_spaced (next ∷ groups))
          ∙ without_spaces-join_spaced (next ∷ groups))
    ∙ sym (without_spaces-append group (concat (next ∷ groups)))

concat-groups_of :
    (fuel group_size : ℕ) (id : Text)
    → length id ≤ fuel
    → 0 < group_size
    → concat (groups_of fuel group_size id) ≡ id
unfolding groups_of
concat-groups_of zero group_size [] enough positive = refl
concat-groups_of zero group_size (u ∷ us) enough positive = absurd (omega arith)
concat-groups_of (suc fuel) group_size [] enough positive = refl
concat-groups_of (suc fuel) group_size (u ∷ us) enough positive =
    ap (λ t. take group_size (u ∷ us) ++ t)
      (concat-groups_of fuel group_size (drop group_size (u ∷ us))
        (omega (arith, length-drop group_size (u ∷ us))) positive)
    ∙ take-append-drop group_size (u ∷ us)

accepts :
    (raw : Text)
    → length (without_spaces raw) ≡ 43
    → are_id_units (without_spaces raw) ≡ true
    → normalize_account_id raw ≡ some (without_spaces raw)
unfolding normalize_account_id
accepts raw long units = rw (without_spaces-trim raw, long, units) refl

accepted :
    (raw id : Text)
    → normalize_account_id raw ≡ some id
    → (without_spaces raw ≡ id) × (length id ≡ 43) × (are_id_units id ≡ true)
unfolding normalize_account_id
accepted raw id e =
    let same = without_spaces-trim raw in
    let found : without_spaces (trim raw) ≡ id = ground (arith, e) in
    (sym same ∙ found, rw⁻¹ found (ground (arith, e)), rw⁻¹ found (ground (arith, e)))

-- The groups of an id without their spaces are the id.
without_spaces-format_account_id :
    (id : Text) (group_size : ℕ)
    → 0 < group_size
    → are_id_units id ≡ true
    → without_spaces (format_account_id id group_size) ≡ id
unfolding format_account_id
without_spaces-format_account_id id group_size positive units =
    without_spaces-join_spaced (groups_of (length id) group_size id)
    ∙ ap without_spaces (concat-groups_of (length id) group_size id (omega arith) positive)
    ∙ without_spaces-are_id_units id units

-- `normalizeAccountId` accepts exactly what is an id of 43 units once its white space is left out, and returns
-- that id; and it accepts what `formatAccountId` makes of an id, with any positive size of the groups,
-- as that id.
pub normalize_account_id_iff :
    (raw id : Text)
    → (normalize_account_id raw ≡ some id
        ↔ ((without_spaces raw ≡ id) × (length id ≡ 43) × (are_id_units id ≡ true)))
      × ((group_size : ℕ)
          → 0 < group_size
          → length id ≡ 43
          → are_id_units id ≡ true
          → normalize_account_id (format_account_id id group_size) ≡ some id)
normalize_account_id_iff raw id = (
  (
    accepted raw id,
    λ (same, long, units).
        accepts raw (ap length same ∙ long) (ap are_id_units same ∙ units) ∙ ap some same,
  ),
  λ group_size positive long units.
      let same = without_spaces-format_account_id id group_size positive units in
      accepts (format_account_id id group_size) (ap length same ∙ long)
        (ap are_id_units same ∙ units)
      ∙ ap some same,
)
