-- ===== src/Store/Examples.antt =====
-- A store with one conversation, and one message in it, without reactions; and two messages that are
-- appended at the same time.
use shatters.Common.{
  ok, refl, Option, ◌≡◌, true, false, none, some, List, [], ◌∷◌, Text, text_eq, lookup,
}
use shatters.Store.{StoredMessage, incoming, delivered}
use shatters.Store.Chat.{
  ChatStore, or_empty, new_conversation, history, load_session, list_messages, get_conversation,
  delete_conversation, append_message,
}
use shatters.Store.Patches.{load_group, load_attachment}
use shatters.Store.Deletion.{delete_conversation-leaves}
use shatters.Store.Tidy.{Reaction}
use shatters.Store.Reactions.{find_message}
use shatters.Store.Queue.{
  Chain, begins, ends, calls, moves, Interleaved, start, after, append_work, Appending, idle,
  appends, steps,
}
use shatters.Store.Serial.{IsSerial, Interleaved-IsSerial}
use shatters.Store.Appends.{append_all, appends-one_by_one}
use shatters.Store.Appending.{append_message-again, merged_with}

abbrev bob : Text
bob = 98 ∷ []

abbrev message : StoredMessage
message = record {
  id = 49 ∷ [];
  conversation_id = bob;
  direction = incoming;
  body = 104 ∷ 105 ∷ [];
  timestamp = 7;
  status = delivered;
  envelope_id = none;
  attachment = none;
  deleted_at = none;
  sender_id = none;
  reactions = none;
}

abbrev store : ChatStore
store = record {
  identity = none;
  conversations = some (new_conversation bob ∷ []);
  sessions = [];
  groups = [];
  histories = (bob, message ∷ []) ∷ [];
  blobs = [];
}

abbrev heart : Text
heart = 10084 ∷ []

-- Set, and then retracted.
abbrev reactions : List Reaction
reactions =
    (record { emoji = heart; account = bob; active = true })
    ∷ (record { emoji = heart; account = bob; active = false })
    ∷ []

delete_conversation-leaves_example :
    (get_conversation bob (delete_conversation bob store) ≡ none)
    × (list_messages bob (delete_conversation bob store) ≡ [])
    × (load_session bob (delete_conversation bob store) ≡ ok none)
    × (load_group bob (delete_conversation bob store) ≡ none)
    × ((other : Text)
        → text_eq bob other ≡ false
        → (get_conversation other (delete_conversation bob store) ≡ get_conversation other store)
          × (list_messages other (delete_conversation bob store) ≡ list_messages other store)
          × (load_session other (delete_conversation bob store) ≡ load_session other store)
          × (load_group other (delete_conversation bob store) ≡ load_group other store))
    × ((ref : Text)
        → load_attachment ref (delete_conversation bob store) ≡ load_attachment ref store)
delete_conversation-leaves_example = delete_conversation-leaves bob store

append_message-again_example :
    (append_message message (append_message message store) ≡ append_message message store)
    × (find_message message.id (history message.conversation_id (append_message message store))
        ≡ some
            (merged_with (find_message message.id (history message.conversation_id store)) message))
append_message-again_example = append_message-again message store

abbrev second : StoredMessage
second = record message { id = 50 ∷ []; timestamp = 8 }

abbrev nothing_stored : Text → Option (List StoredMessage)
nothing_stored key = none

-- The second call is made while the work of the first one runs.
unfoldable two_appends :
    (chains : Text → Chain (List StoredMessage)) × Appending nothing_stored
      (second ∷ message ∷ [])
      chains
unfolding text_eq
two_appends = (
  _,
  steps bob (ends 1 refl refl) (
      steps bob (begins 1 refl refl refl) (
        steps bob (ends 0 refl refl)
          (appends second (steps bob (begins 0 refl refl refl) (appends message idle))))),
)

unfoldable two_calls :
    (chains : Text → Chain (List StoredMessage)) × Interleaved nothing_stored chains
unfolding text_eq
two_calls = (
  _,
  after
      (after (after start (calls bob (append_work message))) (moves bob (begins 0 refl refl refl)))
      (calls bob (append_work second)),
)

abbrev empty_store : ChatStore
empty_store = record store { histories = [] }

Interleaved-IsSerial_example : IsSerial (nothing_stored bob) (two_calls.0 bob)
unfolding two_calls text_eq
Interleaved-IsSerial_example = Interleaved-IsSerial two_calls.1 bob refl

appends-one_by_one_example :
    or_empty (two_appends.0 bob).stored
    ≡ history bob (append_all (second ∷ message ∷ []) empty_store)
unfolding two_appends text_eq history lookup
appends-one_by_one_example = appends-one_by_one two_appends.1 bob empty_store refl refl refl
