-- ===== src/Store/Deletion.antt =====
-- web/src/lib/store/chat.ts, `deleteConversation`.
use shatters.Common.{
  ok, ◌≡◌, refl, ◌∙◌, Bool, false, ◌||◌, none, List, [], ◌∷◌, Text, text_eq, text_eq_refl,
  text_eq_iff, arith, lookup-remove_key, insert_by, sort_by, ℕ, ◌≤◌, All, leb, true, Bool-cases,
  inl, inr, if◌then◌else◌, ap, sym,
}
use shatters.Store.{Conversation}
use shatters.Store.Chat.{
  ChatStore, or_empty, find_conversation, list_conversations, get_conversation,
  without_conversation, delete_conversation, history, list_messages, load_session,
}
use shatters.Store.Patches.{load_group, load_attachment}

-- Whether a conversation of this id is in the list.
abbrev has_conversation : Text → List Conversation → Bool
has_conversation id [] = false
has_conversation id (c ∷ rest) = text_eq c.id id || has_conversation id rest

has_conversation-insert_by :
    (before : Conversation → Conversation → Bool) (id : Text) (c : Conversation)
    (cs : List Conversation)
    → has_conversation id (insert_by before c cs) ≡ (text_eq c.id id || has_conversation id cs)
unfolding insert_by
has_conversation-insert_by before id c [] = refl
has_conversation-insert_by before id c (d ∷ cs) =
    ground (arith, has_conversation-insert_by before id c cs)

has_conversation-sort_by :
    (before : Conversation → Conversation → Bool) (id : Text) (cs : List Conversation)
    → has_conversation id (sort_by before cs) ≡ has_conversation id cs
unfolding sort_by
has_conversation-sort_by before id [] = refl
has_conversation-sort_by before id (c ∷ cs) = ground (
  arith,
  has_conversation-insert_by before id c (sort_by before cs),
  has_conversation-sort_by before id cs,
)

find_conversation-absent :
    (id : Text) (cs : List Conversation)
    → has_conversation id cs ≡ false
    → find_conversation id cs ≡ none
unfolding find_conversation
find_conversation-absent id [] h = refl
find_conversation-absent id (c ∷ cs) h = ground (arith, find_conversation-absent id cs)

without_conversation-absent :
    (id : Text) (cs : List Conversation) → has_conversation id (without_conversation id cs) ≡ false
unfolding without_conversation
without_conversation-absent id [] = refl
without_conversation-absent id (c ∷ cs) = ground (arith, without_conversation-absent id cs)

-- The order of `listConversations`.
abbrev newer : Conversation → Conversation → Bool
newer a b = leb b.last_activity a.last_activity

abbrev AllOlder : ℕ → List Conversation → Type 0
AllOlder n cs = All (λ c. c.last_activity ≤ n) cs

abbrev NewestFirst : List Conversation → Type 0
NewestFirst [] = Unit
NewestFirst (c ∷ cs) = AllOlder c.last_activity cs × NewestFirst cs

AllOlder-le : (m n : ℕ) (cs : List Conversation) → m ≤ n → AllOlder m cs → AllOlder n cs
AllOlder-le m n [] le h = tt
AllOlder-le m n (c ∷ cs) le h = (omega (arith, h.0), AllOlder-le m n cs le h.1)

insert_by-AllOlder :
    (n : ℕ) (c : Conversation) (cs : List Conversation)
    → c.last_activity ≤ n
    → AllOlder n cs
    → AllOlder n (insert_by newer c cs)
unfolding insert_by
insert_by-AllOlder n c [] le h = (le, tt)
insert_by-AllOlder n c (d ∷ cs) le h = elim (Bool-cases (newer c d)) [
  | inl front ↦ rw front ((le, h))
  | inr behind ↦ rw behind ((h.0, insert_by-AllOlder n c cs le h.1))
]

insert_by-NewestFirst :
    (c : Conversation) (cs : List Conversation)
    → NewestFirst cs
    → NewestFirst (insert_by newer c cs)
unfolding insert_by
insert_by-NewestFirst c [] h = (tt, tt)
insert_by-NewestFirst c (d ∷ cs) h = elim (Bool-cases (newer c d)) [
  | inl front ↦
      let le : d.last_activity ≤ c.last_activity = ground arith in
      rw front (((le, AllOlder-le d.last_activity c.last_activity cs le h.0), h))
  | inr behind ↦
      let le : c.last_activity ≤ d.last_activity = ground arith in
      rw behind ((insert_by-AllOlder d.last_activity c cs le h.0, insert_by-NewestFirst c cs h.1))
]

sort_by-NewestFirst : (cs : List Conversation) → NewestFirst (sort_by newer cs)
unfolding sort_by
sort_by-NewestFirst [] = tt
sort_by-NewestFirst (c ∷ cs) = insert_by-NewestFirst c (sort_by newer cs) (sort_by-NewestFirst cs)

insert_by-front :
    (c : Conversation) (cs : List Conversation)
    → AllOlder c.last_activity cs
    → insert_by newer c cs ≡ c ∷ cs
unfolding insert_by
insert_by-front c [] h = refl
insert_by-front c (d ∷ cs) h = let front : newer c d ≡ true = ground (arith, h.0) in rw front refl

without_conversation-AllOlder :
    (n : ℕ) (id : Text) (cs : List Conversation)
    → AllOlder n cs
    → AllOlder n (without_conversation id cs)
unfolding without_conversation
without_conversation-AllOlder n id [] h = tt
without_conversation-AllOlder n id (c ∷ cs) h = elim (Bool-cases (text_eq c.id id)) [
  | inl gone ↦ rw gone (without_conversation-AllOlder n id cs h.1)
  | inr kept ↦ rw kept ((h.0, without_conversation-AllOlder n id cs h.1))
]

-- To insert and to filter commute, on a list in order.
without_conversation-insert_by :
    (id : Text) (c : Conversation) (cs : List Conversation)
    → NewestFirst cs
    → without_conversation id (insert_by newer c cs) ≡ (
        if text_eq c.id id
        then without_conversation id cs
        else insert_by newer c (without_conversation id cs))
unfolding insert_by without_conversation
without_conversation-insert_by id c [] h = refl
without_conversation-insert_by id c (d ∷ cs) h = elim (Bool-cases (newer c d)) [
  | inl front ↦
      let le : d.last_activity ≤ c.last_activity = ground arith in
      elim (Bool-cases (text_eq c.id id)) [
        | inl gone ↦ rw (front, gone) refl
        | inr kept ↦
            rw (front, kept)
              (sym (
                insert_by-front c (without_conversation id (d ∷ cs)) (
                  without_conversation-AllOlder c.last_activity id (d ∷ cs)
                    (le, AllOlder-le d.last_activity c.last_activity cs le h.0))))
      ]
  | inr behind ↦ ground (arith, without_conversation-insert_by id c cs h.1)
]

without_conversation-sort_by :
    (id : Text) (cs : List Conversation)
    → sort_by newer (without_conversation id cs) ≡ without_conversation id (sort_by newer cs)
unfolding sort_by without_conversation
without_conversation-sort_by id [] = refl
without_conversation-sort_by id (c ∷ cs) =
    let before = without_conversation-sort_by id cs in
    let moved = without_conversation-insert_by id c (sort_by newer cs) (sort_by-NewestFirst cs) in
    elim (Bool-cases (text_eq c.id id)) [
      | inl gone ↦ rw (moved, gone) before
      | inr kept ↦ rw (moved, kept) (ap (insert_by newer c) before)
    ]

find_conversation-without_conversation :
    (id other : Text) (cs : List Conversation)
    → text_eq id other ≡ false
    → find_conversation other (without_conversation id cs) ≡ find_conversation other cs
unfolding find_conversation without_conversation
find_conversation-without_conversation id other [] apart = refl
find_conversation-without_conversation id other (c ∷ cs) apart = ground (
  arith,
  find_conversation-without_conversation id other cs apart,
  text_eq_iff c.id id,
  text_eq_iff c.id other,
)

-- A deletion leaves nothing under the conversation's id: it is not listed, its history is empty, and its
-- session and its group are gone. Under another id the conversation, the history, the session and the
-- group are as before. The records of attachments stay.
pub delete_conversation-leaves :
    (id : Text) (store : ChatStore)
    → (get_conversation id (delete_conversation id store) ≡ none)
      × (list_messages id (delete_conversation id store) ≡ [])
      × (load_session id (delete_conversation id store) ≡ ok none)
      × (load_group id (delete_conversation id store) ≡ none)
      × ((other : Text)
          → text_eq id other ≡ false
          → (get_conversation other (delete_conversation id store) ≡ get_conversation other store)
            × (list_messages other (delete_conversation id store) ≡ list_messages other store)
            × (load_session other (delete_conversation id store) ≡ load_session other store)
            × (load_group other (delete_conversation id store) ≡ load_group other store))
      × ((ref : Text)
          → load_attachment ref (delete_conversation id store) ≡ load_attachment ref store)
unfolding get_conversation list_conversations delete_conversation list_messages history load_session
    load_group load_attachment
delete_conversation-leaves id store = (
  find_conversation-absent id _ (
      has_conversation-sort_by _ id _
      ∙ without_conversation-absent id (or_empty store.conversations)),
  rw (lookup-remove_key id id store.histories, text_eq_refl id) (unfold sort_by in refl),
  rw (lookup-remove_key id id store.sessions, text_eq_refl id) refl,
  rw (lookup-remove_key id id store.groups, text_eq_refl id) refl,
  λ other apart. (
    ap (find_conversation other) (without_conversation-sort_by id (or_empty store.conversations))
        ∙ find_conversation-without_conversation id other
            (sort_by newer (or_empty store.conversations)) apart,
    rw (lookup-remove_key other id store.histories, apart) refl,
    rw (lookup-remove_key other id store.sessions, apart) refl,
    rw (lookup-remove_key other id store.groups, apart) refl,
  ),
  λ ref. refl,
)
