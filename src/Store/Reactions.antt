-- ===== src/Store/Reactions.antt =====
-- web/src/lib/store/chat.ts, `setReaction`: what a sequence of reactions to one message leaves.
use shatters.Common.{
  ◌≡◌, refl, Option, none, some, List, [], ◌∷◌, Text, if◌then◌else◌, text_eq, text_eq_refl, assign,
  lookup-assign,
}
use shatters.Store.{StoredMessage}
use shatters.Store.Chat.{ChatStore, history}
use shatters.Store.Patches.{set_reaction}
use shatters.Store.Tidy.{Reaction}

-- The message of this id.
abbrev pub find_message : Text → List StoredMessage → Option StoredMessage
find_message id [] = none
find_message id (m ∷ rest) = if text_eq m.id id then some m else find_message id rest

-- Reactions to one message of a conversation.
abbrev pub set_reactions : Text → Text → List Reaction → ChatStore → ChatStore
set_reactions conversation_id message_id [] store = store
set_reactions conversation_id message_id (r ∷ rs) store =
    set_reactions conversation_id message_id rs
      (set_reaction conversation_id message_id r.emoji r.account r.active store)

abbrev or_kept : List StoredMessage → Option (List StoredMessage) → List StoredMessage
or_kept ms none = ms
or_kept ms (some changed) = changed

abbrev patched_option :
    (StoredMessage → StoredMessage) → Option StoredMessage → Option StoredMessage
patched_option patch none = none
patched_option patch (some m) = some (patch m)

pub history-assign :
    (id : Text) (messages : List StoredMessage) (store : ChatStore)
    → history id (record store { histories = assign id messages store.histories }) ≡ messages
unfolding history
history-assign id messages store =
    rw (lookup-assign id id messages store.histories, text_eq_refl id) refl
