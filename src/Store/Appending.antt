-- ===== src/Store/Appending.antt =====
-- web/src/lib/store/chat.ts, `appendMessage` and `upsertConversation`, for what arrives more than once.
use shatters.Common.{
  ◌≡◌, refl, ap, ap₂, ◌∙◌, Option, none, some, List, [], ◌∷◌, Text, text_eq, text_eq_refl, assign,
  Bool-cases, inl, inr,
}
use shatters.Store.{StoredMessage, Conversation}
use shatters.Store.Chat.{
  ChatStore, or_empty, or_else, Patch, no_patch, set_to, new_conversation, patched, upsert_in,
  upsert_conversation, history, merge_message, append_in, append_message,
}
use shatters.Store.Reactions.{find_message, history-assign}

or_else-again {ℓ} :
    {A : Type ℓ} (new old : Option A) → or_else new (or_else new old) ≡ or_else new old
or_else-again none old = refl
or_else-again (some a) old = refl

or_else-same {ℓ} : {A : Type ℓ} (o : Option A) → or_else o o ≡ o
or_else-same none = refl
or_else-same (some a) = refl

set_to-again {ℓ} :
    {A : Type ℓ} (new : Option A) (old : A) → set_to new (set_to new old) ≡ set_to new old
set_to-again none old = refl
set_to-again (some a) old = refl

merge_message-again :
    (old message : StoredMessage)
    → merge_message (merge_message old message) message ≡ merge_message old message
unfolding merge_message
merge_message-again old message =
    rw
      (
        or_else-again message.envelope_id old.envelope_id,
        or_else-again message.attachment old.attachment,
        or_else-again message.deleted_at old.deleted_at,
        or_else-again message.sender_id old.sender_id,
        or_else-again message.reactions old.reactions,
      )
      refl

merge_message-same : (message : StoredMessage) → merge_message message message ≡ message
unfolding merge_message
merge_message-same message =
    rw
      (
        or_else-same message.envelope_id,
        or_else-same message.attachment,
        or_else-same message.deleted_at,
        or_else-same message.sender_id,
        or_else-same message.reactions,
      )
      refl

id_of-merge_message : (old message : StoredMessage) → (merge_message old message).id ≡ message.id
unfolding merge_message
id_of-merge_message old message = refl

-- The message that is found again is merged with itself once more.
found_again :
    (old message : StoredMessage) (ms : List StoredMessage)
    → append_in message (merge_message old message ∷ ms) ≡ merge_message old message ∷ ms
unfolding append_in merge_message
found_again old message ms =
    rw (id_of-merge_message old message, text_eq_refl message.id, merge_message-again old message)
      refl

append_in-again :
    (message : StoredMessage) (ms : List StoredMessage)
    → append_in message (append_in message ms) ≡ append_in message ms
unfolding append_in
append_in-again message [] = rw (text_eq_refl message.id, merge_message-same message) refl
append_in-again message (m ∷ ms) = elim (Bool-cases (text_eq m.id message.id)) [
  | inl here ↦ rw here (found_again m message ms)
  | inr other ↦ rw (other, other) (ap (λ xs. m ∷ xs) (append_in-again message ms))
]

-- What a conversation holds of the message, merged with what it held.
abbrev pub merged_with : Option StoredMessage → StoredMessage → StoredMessage
merged_with none message = message
merged_with (some old) message = merge_message old message

found_first :
    (old message : StoredMessage) (ms : List StoredMessage)
    → find_message message.id (merge_message old message ∷ ms) ≡ some (merge_message old message)
found_first old message ms = rw (id_of-merge_message old message, text_eq_refl message.id) refl

find_message-append_in :
    (message : StoredMessage) (ms : List StoredMessage)
    → find_message message.id (append_in message ms)
      ≡ some (merged_with (find_message message.id ms) message)
unfolding append_in
find_message-append_in message [] = rw (text_eq_refl message.id) refl
find_message-append_in message (m ∷ ms) = elim (Bool-cases (text_eq m.id message.id)) [
  | inl here ↦ rw here (found_first m message ms)
  | inr other ↦ rw (other, other) (find_message-append_in message ms)
]

patched-again :
    (id : Text) (patch : Patch) (c : Conversation)
    → patched id patch (patched id patch c) ≡ patched id patch c
unfolding patched
patched-again id patch c =
    rw
      (
        set_to-again patch.display_name c.display_name,
        set_to-again patch.last_activity c.last_activity,
        set_to-again patch.unread_count c.unread_count,
        set_to-again patch.typing_until c.typing_until,
        set_to-again patch.is_group c.is_group,
        set_to-again patch.peer_identity_key c.peer_identity_key,
        set_to-again patch.verified_identity_key c.verified_identity_key,
        set_to-again patch.identity_changed_from c.identity_changed_from,
      )
      refl

id_of-patched : (id : Text) (patch : Patch) (c : Conversation) → (patched id patch c).id ≡ id
unfolding patched
id_of-patched id patch c = refl

patched_first :
    (id : Text) (patch : Patch) (c : Conversation) (cs : List Conversation)
    → upsert_in id patch (patched id patch c ∷ cs) ≡ patched id patch c ∷ cs
unfolding upsert_in patched
patched_first id patch c cs =
    rw (id_of-patched id patch c, text_eq_refl id, patched-again id patch c) refl

upsert_in-again :
    (id : Text) (patch : Patch) (cs : List Conversation)
    → upsert_in id patch (upsert_in id patch cs) ≡ upsert_in id patch cs
unfolding upsert_in
upsert_in-again id patch [] = patched_first id patch (new_conversation id) []
upsert_in-again id patch (c ∷ cs) = elim (Bool-cases (text_eq c.id id)) [
  | inl here ↦ rw here (patched_first id patch c cs)
  | inr other ↦ rw (other, other) (ap (λ xs. c ∷ xs) (upsert_in-again id patch cs))
]

assign-again {ℓ} :
    {V : Type ℓ} (k : Text) (v : V) (m : List (Text × V)) → assign k v (assign k v m) ≡ assign k v m
unfolding assign
assign-again k v [] = rw (text_eq_refl k) refl
assign-again k v ((j, w) ∷ m) = elim (Bool-cases (text_eq j k)) [
  | inl here ↦ rw (here, here) refl
  | inr other ↦ rw (other, other) (ap (λ xs. (j, w) ∷ xs) (assign-again k v m))
]

-- The messages of the conversation once the message is appended.
pub history-append_message :
    (message : StoredMessage) (store : ChatStore)
    → history message.conversation_id (append_message message store)
      ≡ append_in message (history message.conversation_id store)
unfolding append_message upsert_conversation history
history-append_message message store =
    history-assign message.conversation_id
      (append_in message (history message.conversation_id store)) store

same_store :
    (store : ChatStore) (cs cs' : Option (List Conversation))
    (hs hs' : List (Text × List StoredMessage))
    → cs ≡ cs'
    → hs ≡ hs'
    → (record store { conversations = cs; histories = hs })
      ≡ (record store { conversations = cs'; histories = hs' })
same_store store cs cs' hs hs' e f =
    ap₂ (λ c h. record store { conversations = c; histories = h }) e f

-- A message that arrives twice leaves the store as it was after the first time; and the conversation then
-- holds under its id what it held merged with the message, or the message alone if it held none.
pub append_message-again :
    (message : StoredMessage) (store : ChatStore)
    → (append_message message (append_message message store) ≡ append_message message store)
      × (find_message message.id (history message.conversation_id (append_message message store))
          ≡ some (
              merged_with
                (find_message message.id (history message.conversation_id store))
                message))
unfolding append_message upsert_conversation
append_message-again message store =
    let id = message.conversation_id in
    let ms = append_in message (history id store) in
    (
      same_store store _ _ _ _
          (ap some (
            upsert_in-again id (record no_patch { last_activity = some message.timestamp })
              (or_empty store.conversations)))
          (ap (λ xs. assign id xs (assign id ms store.histories))
              (ap (append_in message) (history-append_message message store)
                ∙ append_in-again message (history id store))
            ∙ assign-again id ms store.histories),
      ap (find_message message.id) (history-append_message message store)
          ∙ find_message-append_in message (history id store),
    )
