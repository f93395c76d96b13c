-- ===== src/Store.antt =====
-- web/src/lib/store/types.ts: the shapes that the chat store keeps.
pub mod Chat
pub mod Patches
pub mod Deletion
pub mod Tidy
pub mod Reactions
pub mod Appending
pub mod Queue
pub mod Serial
pub mod Appends
pub mod Examples
use shatters.Common.{ℕ, Bool, Option, none, some, List, Text}

pub data MessageStatus : Type 0 where
  pending sent delivered read failed : MessageStatus

pub data MessageDirection : Type 0 where
  outgoing incoming : MessageDirection

pub record StoredAttachment : Type 0 where
  pub name : Text
  pub mime_type : Text
  pub size : ℕ
  pub blob_ref : Text

-- A field with a question mark is `none` where it is absent.
pub record StoredMessage : Type 0 where
  pub id : Text
  pub conversation_id : Text
  pub direction : MessageDirection
  pub body : Text
  pub timestamp : ℕ
  pub status : MessageStatus
  pub envelope_id : Option Text
  pub attachment : Option StoredAttachment
  pub deleted_at : Option ℕ
  pub sender_id : Option Text
  pub reactions : Option (List (Text × List Text))

pub record Conversation : Type 0 where
  pub id : Text
  pub display_name : Option Text
  pub last_activity : ℕ
  pub unread_count : ℕ
  pub typing_until : Option ℕ
  pub is_group : Option Bool
  pub peer_identity_key : Option Text
  pub verified_identity_key : Option Text
  pub identity_changed_from : Option Text
