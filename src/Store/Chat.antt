-- ===== src/Store/Chat.antt =====
-- web/src/lib/store/chat.ts: `ChatStore`, over the records of an unlocked vault. The vault keeps them as
-- JSON under names with a prefix for each kind, `history:` and so on; here each kind is a map of its
-- own. Each call below is one step; Store/Queue is the queue of writes that keeps the calls apart.
use shatters.Common.{
  ok, ◌>>=◌, ℕ, Bool, Option, none, some, List, [], ◌∷◌, Text, leb, if◌then◌else◌, text_eq, lookup,
  assign, remove_key, sort_by,
}
use shatters.Bytes.{Bytes}
use shatters.Group.{GroupState}
use shatters.Serialize.{SerializedSession, Result, serialize_session, deserialize_session}
use shatters.Session.{Session}
use shatters.Store.{StoredMessage, Conversation}

-- `StoredIdentity`, the keys in base64.
pub record StoredIdentity : Type 0 where
  pub account_id : Text
  pub signing_public_key : Text
  pub signing_private_key : Text
  pub dh_public_key : Text
  pub dh_private_key : Text
  pub signed_prekey_id : ℕ
  pub signed_prekey_public : Text
  pub signed_prekey_private : Text
  pub signed_prekey_signature : Text
  pub one_time_prekeys : List (ℕ × Text × Text)

pub record ChatStore : Type 0 where
  pub identity : Option StoredIdentity
  pub conversations : Option (List Conversation)
  pub sessions : List (Text × SerializedSession)
  pub groups : List (Text × GroupState)
  pub histories : List (Text × List StoredMessage)
  pub blobs : List (Text × Bytes)

-- `(await getJSON(...)) ?? []`.
abbrev pub or_empty {ℓ} : {A : Type ℓ} → Option (List A) → List A
or_empty none = []
or_empty (some xs) = xs

-- `existing ?? fallback`, and a field of an object that is spread over another.
abbrev pub or_else {ℓ} : {A : Type ℓ} → Option A → Option A → Option A
or_else none old = old
or_else (some new) old = some new

unfoldable pub save_identity : StoredIdentity → ChatStore → ChatStore
save_identity identity store = record store { identity = some identity }

unfoldable pub load_identity : ChatStore → Option StoredIdentity
load_identity store = store.identity

unfoldable pub save_session : Text → Session → ChatStore → ChatStore
save_session id session store = record store {
  sessions = assign id (serialize_session session) store.sessions;
}

-- The session that is stored, if there is one.
abbrev pub restored : Option SerializedSession → Result (Option Session)
restored none = ok none
restored (some raw) = deserialize_session (some raw) >>= λ session. ok (some session)

unfoldable pub load_session : Text → ChatStore → Result (Option Session)
load_session id store = restored (lookup id store.sessions)

unfoldable pub delete_session : Text → ChatStore → ChatStore
delete_session id store = record store { sessions = remove_key id store.sessions }

-- `[...all].sort((a, b) => b.lastActivity - a.lastActivity)`.
unfoldable pub list_conversations : ChatStore → List Conversation
list_conversations store =
    sort_by (λ a b. leb b.last_activity a.last_activity) (or_empty store.conversations)

unfoldable pub find_conversation : Text → List Conversation → Option Conversation
find_conversation id [] = none
find_conversation id (c ∷ rest) = if text_eq c.id id then some c else find_conversation id rest

unfoldable pub get_conversation : Text → ChatStore → Option Conversation
get_conversation id store = find_conversation id (list_conversations store)

-- `Partial<Omit<Conversation, "id">>`: a field that is `none` is left as it is, and `some none` sets it to
-- undefined.
pub record Patch : Type 0 where
  pub display_name : Option (Option Text)
  pub last_activity : Option ℕ
  pub unread_count : Option ℕ
  pub typing_until : Option (Option ℕ)
  pub is_group : Option (Option Bool)
  pub peer_identity_key : Option (Option Text)
  pub verified_identity_key : Option (Option Text)
  pub identity_changed_from : Option (Option Text)

abbrev pub no_patch : Patch
no_patch = record {
  display_name = none;
  last_activity = none;
  unread_count = none;
  typing_until = none;
  is_group = none;
  peer_identity_key = none;
  verified_identity_key = none;
  identity_changed_from = none;
}

abbrev pub set_to {ℓ} : {A : Type ℓ} → Option A → A → A
set_to none old = old
set_to (some new) old = new

abbrev pub new_conversation : Text → Conversation
new_conversation id = record {
  id = id;
  display_name = none;
  last_activity = 0;
  unread_count = 0;
  typing_until = none;
  is_group = none;
  peer_identity_key = none;
  verified_identity_key = none;
  identity_changed_from = none;
}

-- `{ ...existing, ...patch, id }`.
unfoldable pub patched : Text → Patch → Conversation → Conversation
patched id patch c = record {
  id = id;
  display_name = set_to patch.display_name c.display_name;
  last_activity = set_to patch.last_activity c.last_activity;
  unread_count = set_to patch.unread_count c.unread_count;
  typing_until = set_to patch.typing_until c.typing_until;
  is_group = set_to patch.is_group c.is_group;
  peer_identity_key = set_to patch.peer_identity_key c.peer_identity_key;
  verified_identity_key = set_to patch.verified_identity_key c.verified_identity_key;
  identity_changed_from = set_to patch.identity_changed_from c.identity_changed_from;
}

-- The first conversation of this id is replaced, or a new one pushed.
unfoldable pub upsert_in : Text → Patch → List Conversation → List Conversation
upsert_in id patch [] = patched id patch (new_conversation id) ∷ []
upsert_in id patch (c ∷ rest) =
    if text_eq c.id id then patched id patch c ∷ rest else c ∷ upsert_in id patch rest

unfoldable pub upsert_conversation : Text → Patch → ChatStore → ChatStore
upsert_conversation id patch store = record store {
  conversations = some (upsert_in id patch (or_empty store.conversations));
}

-- `all.filter((c) => c.id !== id)`.
unfoldable pub without_conversation : Text → List Conversation → List Conversation
without_conversation id [] = []
without_conversation id (c ∷ rest) =
    if text_eq c.id id then without_conversation id rest else c ∷ without_conversation id rest

unfoldable pub delete_conversation : Text → ChatStore → ChatStore
delete_conversation id store = record store {
  conversations = some (without_conversation id (or_empty store.conversations));
  histories = remove_key id store.histories;
  sessions = remove_key id store.sessions;
  groups = remove_key id store.groups;
}

-- What `getJSON(historyKey(id))` reads, or the empty history.
unfoldable pub history : Text → ChatStore → List StoredMessage
history id store = or_empty (lookup id store.histories)

unfoldable pub list_messages : Text → ChatStore → List StoredMessage
list_messages id store = sort_by (λ a b. leb a.timestamp b.timestamp) (history id store)

-- `{ ...old, ...message }`, where the new one sets each field that it has.
unfoldable pub merge_message : StoredMessage → StoredMessage → StoredMessage
merge_message old message = record {
  id = message.id;
  conversation_id = message.conversation_id;
  direction = message.direction;
  body = message.body;
  timestamp = message.timestamp;
  status = message.status;
  envelope_id = or_else message.envelope_id old.envelope_id;
  attachment = or_else message.attachment old.attachment;
  deleted_at = or_else message.deleted_at old.deleted_at;
  sender_id = or_else message.sender_id old.sender_id;
  reactions = or_else message.reactions old.reactions;
}

unfoldable pub append_in : StoredMessage → List StoredMessage → List StoredMessage
append_in message [] = message ∷ []
append_in message (m ∷ rest) =
    if text_eq m.id message.id then merge_message m message ∷ rest else m ∷ append_in message rest

unfoldable pub append_message : StoredMessage → ChatStore → ChatStore
append_message message store =
    upsert_conversation message.conversation_id
      (record no_patch { last_activity = some message.timestamp })
      (record store {
        histories =
            assign message.conversation_id
              (append_in message (history message.conversation_id store)) store.histories;
      })
