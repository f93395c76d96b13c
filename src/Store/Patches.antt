-- ===== src/Store/Patches.antt =====
-- web/src/lib/store/chat.ts: the calls that change one message, the unread counts, groups and attachments.
use shatters.Common.{
  ℕ, suc, Bool, Option, none, some, List, [], ◌∷◌, ◌++◌, Text, if◌then◌else◌, text_eq, contains,
  lookup, assign, remove_key, sort, unique_from,
}
use shatters.Bytes.{Bytes}
use shatters.Group.{GroupState}
use shatters.Store.{MessageStatus, StoredMessage, Conversation}
use shatters.Store.Chat.{
  ChatStore, or_empty, or_else, history, no_patch, get_conversation, upsert_conversation,
}

abbrev pub in_front : StoredMessage → Option (List StoredMessage) → Option (List StoredMessage)
in_front m none = none
in_front m (some ms) = some (m ∷ ms)

-- The first message of this id is patched; `none` where there is none.
unfoldable pub patch_in :
    Text → (StoredMessage → StoredMessage) → List StoredMessage → Option (List StoredMessage)
patch_in id patch [] = none
patch_in id patch (m ∷ rest) =
    let more = in_front m (patch_in id patch rest) in
    if text_eq m.id id then some (patch m ∷ rest) else more

abbrev pub write_history : Text → Option (List StoredMessage) → ChatStore → ChatStore
write_history id none store = store
write_history id (some messages) store = record store {
  histories = assign id messages store.histories;
}

unfoldable pub patch_message : Text → Text → (StoredMessage → StoredMessage) → ChatStore → ChatStore
patch_message conversation_id message_id patch store =
    write_history conversation_id (patch_in message_id patch (history conversation_id store)) store

unfoldable pub with_status : MessageStatus → Option Text → StoredMessage → StoredMessage
with_status status envelope_id message = record message {
  status = status;
  envelope_id = or_else envelope_id message.envelope_id;
}

unfoldable pub set_message_status :
    Text → Text → MessageStatus → Option Text → ChatStore → ChatStore
set_message_status conversation_id message_id status envelope_id store =
    patch_message conversation_id message_id (with_status status envelope_id) store

unfoldable pub tombstone : ℕ → StoredMessage → StoredMessage
tombstone at message = record message { body = []; attachment = none; deleted_at = some at }

unfoldable pub mark_deleted : Text → Text → (at : ℕ) → ChatStore → ChatStore
mark_deleted conversation_id message_id at store =
    patch_message conversation_id message_id (tombstone at) store

-- `reacted.add(account)` and `reacted.delete(account)`, of a `Set` in insertion order.
unfoldable pub add_account : Text → List Text → List Text
add_account a accounts = if contains accounts a then accounts else accounts ++ a ∷ []

unfoldable pub delete_account : Text → List Text → List Text
delete_account a [] = []
delete_account a (x ∷ xs) = if text_eq x a then delete_account a xs else x ∷ delete_account a xs

abbrev pub toggle : Bool → Text → List Text → List Text
toggle active a accounts = if active then add_account a accounts else delete_account a accounts

-- An emoji that nobody is left for loses its entry.
unfoldable pub store_reacted : Text → List Text → List (Text × List Text) → List (Text × List Text)
store_reacted emoji [] reactions = remove_key emoji reactions
store_reacted emoji (a ∷ accounts) reactions = assign emoji (sort (a ∷ accounts)) reactions

unfoldable pub react : Text → Text → Bool → List (Text × List Text) → List (Text × List Text)
react emoji account active reactions =
    store_reacted emoji (toggle active account (unique_from [] (or_empty (lookup emoji reactions))))
      reactions

unfoldable pub with_reaction : Text → Text → Bool → StoredMessage → StoredMessage
with_reaction emoji account active message = record message {
  reactions = some (react emoji account active (or_empty message.reactions));
}

unfoldable pub set_reaction : Text → Text → (emoji account : Text) → Bool → ChatStore → ChatStore
set_reaction conversation_id message_id emoji account active store =
    patch_message conversation_id message_id (with_reaction emoji account active) store

abbrev pub unread_of : Option Conversation → ℕ
unread_of none = 0
unread_of (some c) = c.unread_count

unfoldable pub increment_unread : Text → ChatStore → ChatStore
increment_unread id store =
    upsert_conversation id
      (record no_patch { unread_count = some (suc (unread_of (get_conversation id store))) }) store

unfoldable pub clear_unread : Text → ChatStore → ChatStore
clear_unread id store = upsert_conversation id (record no_patch { unread_count = some 0 }) store

unfoldable pub save_group : GroupState → ChatStore → ChatStore
save_group state store = record store { groups = assign state.id state store.groups }

unfoldable pub load_group : Text → ChatStore → Option GroupState
load_group id store = lookup id store.groups

unfoldable pub delete_group : Text → ChatStore → ChatStore
delete_group id store = record store { groups = remove_key id store.groups }

unfoldable pub save_attachment : Text → Bytes → ChatStore → ChatStore
save_attachment ref bytes store = record store { blobs = assign ref bytes store.blobs }

unfoldable pub load_attachment : Text → ChatStore → Option Bytes
load_attachment ref store = lookup ref store.blobs

unfoldable pub delete_attachment : Text → ChatStore → ChatStore
delete_attachment ref store = record store { blobs = remove_key ref store.blobs }
