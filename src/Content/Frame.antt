-- ===== src/Content/Frame.antt =====
-- web/src/lib/crypto/content.ts: `MessageContent` and `encodeContent`.
use Prim.Native.String.{String}
use shatters.Common.{Outcome, err, ok, ℕ, Bool, Option, none, some, List, Text, ascii, utf8_encode}
use shatters.Bytes.{Bytes}
use shatters.Content.Chunks.{AttachmentChunk}
use shatters.Json.{
  stringify, natural, boolean, number, string, array, object, Fields, end, field, strings,
}

abbrev pub content_version : ℕ
content_version = 1

pub data ReceiptKind : Type 0 where
  delivered read : ReceiptKind

-- `MessageContent` as a client makes it: its interfaces, with their fields in order. Timestamps are
-- whole milliseconds since the epoch.
pub data MessageContent : Type 0 where
  text : (id body : Text) (timestamp : ℕ) (reply_to : Option Text) → MessageContent
  receipt : ReceiptKind → (message_ids : List Text) (timestamp : ℕ) → MessageContent
  typing : (ttl_ms : ℕ) → MessageContent
  delete : (target_id : Text) (timestamp : ℕ) → MessageContent
  edit : (target_id body : Text) (timestamp : ℕ) → MessageContent
  reaction : (target_id emoji : Text) (active : Bool) (timestamp : ℕ) → MessageContent
  attachment : AttachmentChunk → MessageContent
  group_create : (group_id name : Text) (members : List Text) (timestamp : ℕ) → MessageContent
  group_update :
      (group_id : Text) (name : Option Text) (add_members remove_members : Option (List Text))
      (timestamp : ℕ)
      → MessageContent
  group_text : (group_id id body : Text) (timestamp : ℕ) (reply_to : Option Text) → MessageContent
  unsupported : (original_type : Text) → MessageContent

pub data ContentError : Type 0 where
  cannot_encode not_json malformed_frame malformed_body : ContentError
  -- The type and the field.
  invalid : (type_name field_name : Text) → ContentError

abbrev pub Result {ℓ} : Type ℓ → Type ℓ
Result A = Outcome ContentError A

abbrev optional_string : Text → Option Text → Fields → Fields
optional_string name none rest = rest
optional_string name (some t) rest = field name (string t) rest

abbrev optional_strings : Text → Option (List Text) → Fields → Fields
optional_strings name none rest = rest
optional_strings name (some ts) rest = field name (array (strings ts)) rest

abbrev typed : String → Fields → Fields
typed name rest = field (ascii "type") (string (ascii name)) rest

abbrev text_field : String → Text → Fields → Fields
text_field name t rest = field (ascii name) (string t) rest

abbrev number_field : String → ℕ → Fields → Fields
number_field name n rest = field (ascii name) (number (natural n)) rest

abbrev kind_name : ReceiptKind → Text
kind_name delivered = ascii "delivered"
kind_name read = ascii "read"

-- A content as an object.
unfoldable pub to_fields : MessageContent → Fields
to_fields (text id body timestamp reply_to) = typed "text" (
    text_field "id" id (
      text_field "body" body
        (number_field "timestamp" timestamp (optional_string (ascii "replyTo") reply_to end))))
to_fields (receipt kind message_ids timestamp) = typed "receipt" (
    field (ascii "kind") (string (kind_name kind)) (
      field (ascii "messageIds") (array (strings message_ids))
        (number_field "timestamp" timestamp end)))
to_fields (typing ttl_ms) = typed "typing" (number_field "ttlMs" ttl_ms end)
to_fields (delete target_id timestamp) =
    typed "delete" (text_field "targetId" target_id (number_field "timestamp" timestamp end))
to_fields (edit target_id body timestamp) = typed "edit" (
    text_field "targetId" target_id
      (text_field "body" body (number_field "timestamp" timestamp end)))
to_fields (reaction target_id emoji active timestamp) = typed "reaction" (
    text_field "targetId" target_id (
      text_field "emoji" emoji
        (field (ascii "active") (boolean active) (number_field "timestamp" timestamp end))))
to_fields (attachment chunk) = typed "attachment" (
    text_field "id" chunk.id (
      text_field "name" chunk.name (
        text_field "mimeType" chunk.mime_type (
          number_field "size" chunk.size (
            number_field "chunkIndex" chunk.chunk_index (
              number_field "chunkCount" chunk.chunk_count (
                text_field "data" chunk.data_text (
                  number_field "timestamp" chunk.timestamp
                    (optional_string (ascii "caption") chunk.caption end)))))))))
to_fields (group_create group_id name members timestamp) = typed "group-create" (
    text_field "groupId" group_id (
      text_field "name" name (
        field (ascii "members") (array (strings members))
          (number_field "timestamp" timestamp end))))
to_fields (group_update group_id name add_members remove_members timestamp) = typed "group-update" (
    text_field "groupId" group_id (
      optional_string (ascii "name") name (
        optional_strings (ascii "addMembers") add_members (
          optional_strings (ascii "removeMembers") remove_members
            (number_field "timestamp" timestamp end)))))
to_fields (group_text group_id id body timestamp reply_to) = typed "group-text" (
    text_field "groupId" group_id (
      text_field "id" id (
        text_field "body" body
          (number_field "timestamp" timestamp (optional_string (ascii "replyTo") reply_to end)))))
to_fields (unsupported original_type) =
    typed "unsupported" (text_field "originalType" original_type end)

-- `{ v: CONTENT_VERSION, c: content }`.
abbrev pub framed_fields : MessageContent → Fields
framed_fields c = number_field "v" content_version (field (ascii "c") (object (to_fields c)) end)

-- `encodeContent`.
unfoldable pub encode_content : MessageContent → Result Bytes
encode_content (unsupported original_type) = err cannot_encode
encode_content c = ok (utf8_encode (stringify (object (framed_fields c))))
