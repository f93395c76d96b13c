-- ===== src/Client/Days.antt =====
-- web/src/lib/client/format.ts, `groupByDay`, over any function from times to headings.
use shatters.Common.{
  ℕ, ◌≡◌, refl, sym, ap, ◌∙◌, Bool, true, false, List, [], ◌∷◌, ◌++◌, Text, text_eq, text_eq_iff,
  append_assoc, append-nil, Bool-cases, inl, inr,
}
use shatters.Store.{StoredMessage}
use shatters.Client.Format.{DayGroup, push_message, group_from, group_by_day}

-- The messages of the groups in a row.
abbrev pub ungrouped : List DayGroup → List StoredMessage
ungrouped [] = []
ungrouped (g ∷ groups) = g.messages ++ ungrouped groups

abbrev pub is_filled : List StoredMessage → Bool
is_filled [] = false
is_filled (m ∷ ms) = true

-- The group in front has another heading.
abbrev pub Apart : Text → List DayGroup → Type 0
Apart day [] = Unit
Apart day (g ∷ groups) = text_eq day g.day ≡ false

is_filled-append : (ms : List StoredMessage) (m : StoredMessage) → is_filled (ms ++ m ∷ []) ≡ true
is_filled-append [] m = refl
is_filled-append (k ∷ ms) m = refl

ungrouped-push_message :
    (day : Text) (m : StoredMessage) (groups : List DayGroup)
    → ungrouped (push_message day m groups) ≡ ungrouped groups ++ m ∷ []
unfolding push_message
ungrouped-push_message day m [] = refl
ungrouped-push_message day m (g ∷ []) = elim (Bool-cases (text_eq g.day day)) [
  | inl same ↦
      rw same
        (append-nil (g.messages ++ m ∷ []) ∙ ap (λ ms. ms ++ m ∷ []) (sym (append-nil g.messages)))
  | inr other ↦ rw other (ap (λ ms. ms ++ m ∷ []) (sym (append-nil g.messages)))
]
ungrouped-push_message day m (g ∷ h ∷ groups) =
    ap (λ ms. g.messages ++ ms) (ungrouped-push_message day m (h ∷ groups))
    ∙ sym (append_assoc g.messages (ungrouped (h ∷ groups)) (m ∷ []))

Apart-push_message :
    (d day : Text) (m : StoredMessage) (g : DayGroup) (groups : List DayGroup)
    → text_eq d g.day ≡ false
    → Apart d (push_message day m (g ∷ groups))
unfolding push_message
Apart-push_message d day m g [] apart = elim (Bool-cases (text_eq g.day day)) [
  | inl same ↦ rw same apart
  | inr other ↦ rw other apart
]
Apart-push_message d day m g (h ∷ groups) apart = apart

module _ (format_day : ℕ → Text) where
  -- Every message has this heading.
  abbrev pub HaveDay : Text → List StoredMessage → Type 0
  HaveDay day [] = Unit
  HaveDay day (m ∷ ms) = (format_day m.timestamp ≡ day) × HaveDay day ms

  -- No group is empty, each has the messages of its heading, and two in a row have different ones.
  abbrev pub IsGrouped : List DayGroup → Type 0
  IsGrouped [] = Unit
  IsGrouped (g ∷ groups) =
      (is_filled g.messages ≡ true)
      × HaveDay g.day g.messages
      × Apart g.day groups
      × IsGrouped groups

  HaveDay-append :
      (day : Text) (ms : List StoredMessage) (m : StoredMessage)
      → HaveDay day ms
      → format_day m.timestamp ≡ day
      → HaveDay day (ms ++ m ∷ [])
  HaveDay-append day [] m h e = (e, tt)
  HaveDay-append day (k ∷ ms) m (first, others) e = (first, HaveDay-append day ms m others e)

  push_message-IsGrouped :
      (m : StoredMessage) (groups : List DayGroup)
      → IsGrouped groups
      → IsGrouped (push_message (format_day m.timestamp) m groups)
  unfolding push_message
  push_message-IsGrouped m [] h = (refl, (refl, tt), tt, tt)
  push_message-IsGrouped m (g ∷ []) (filled, days, apart, others) =
      let day = format_day m.timestamp in
      elim (Bool-cases (text_eq g.day day)) [
        | inl same ↦ rw same (
          is_filled-append g.messages m,
          HaveDay-append g.day g.messages m days (sym ((text_eq_iff g.day day).0 same)),
          tt,
          tt,
        )
        | inr other ↦ rw other (filled, days, other, (refl, (refl, tt), tt, tt))
      ]
  push_message-IsGrouped m (g ∷ h ∷ groups) (filled, days, apart, others) = (
    filled,
    days,
    Apart-push_message g.day (format_day m.timestamp) m h groups apart,
    push_message-IsGrouped m (h ∷ groups) others,
  )

  group_from-IsGrouped :
      (groups : List DayGroup) (ms : List StoredMessage)
      → IsGrouped groups
      → IsGrouped (group_from format_day groups ms)
        × (ungrouped (group_from format_day groups ms) ≡ ungrouped groups ++ ms)
  unfolding group_from
  group_from-IsGrouped groups [] h = (h, sym (append-nil (ungrouped groups)))
  group_from-IsGrouped groups (m ∷ ms) h =
      let day = format_day m.timestamp in
      let (grouped, same) =
        group_from-IsGrouped (push_message day m groups) ms (push_message-IsGrouped m groups h) in
      (
        grouped,
        same
            ∙ ap (λ xs. xs ++ ms) (ungrouped-push_message day m groups)
            ∙ append_assoc (ungrouped groups) (m ∷ []) ms,
      )

  -- The groups by day hold the messages in their order. None is empty, the messages of each have its
  -- heading, and two groups in a row have different headings.
  pub group_by_day-IsGrouped :
      (messages : List StoredMessage)
      → IsGrouped (group_by_day format_day messages)
        × (ungrouped (group_by_day format_day messages) ≡ messages)
  unfolding group_by_day
  group_by_day-IsGrouped messages = group_from-IsGrouped [] messages tt
