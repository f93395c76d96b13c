-- ===== src/Content/Roundtrip.antt =====
-- web/src/lib/crypto/content.ts: what a client sends and what the peer's `decodeContent` makes of it.
use shatters.Common.{
  ok, ◌≡◌, ◌↔◌, refl, Bool, true, false, ◌&&◌, ◌||◌, Option, none, some, List, [], ◌∷◌, Text,
  text_eq, contains, ltb, utf8_encode, arith,
}
use shatters.Bytes.{Bytes}
use shatters.Json.{
  Json, object, stringify, are_plain_fields, parse-stringify_bytes, string, array, strings,
  is_nonempty_string, is_nonempty_array,
}
use shatters.Content.Decode.{
  requirements, validate, decode_known, decode_body, decode_frame, decode_content, content,
}
use shatters.Content.Frame.{
  MessageContent, text, receipt, typing, delete, edit, reaction, attachment, group_create,
  group_update, group_text, unsupported, to_fields, encode_content, delivered, read, framed_fields,
}

abbrev pub is_present {ℓ} : {A : Type ℓ} → List A → Bool
is_present [] = false
is_present (x ∷ xs) = true

abbrev has_any : Option (List Text) → Bool
has_any none = false
has_any (some ts) = is_present ts

abbrev is_given : Option Text → Bool
is_given none = false
is_given (some t) = true

-- The contents that a client should send.
abbrev pub is_sendable : MessageContent → Bool
is_sendable (text id body timestamp reply_to) = is_present id
is_sendable (receipt kind message_ids timestamp) = is_present message_ids
is_sendable (typing ttl_ms) = ltb 0 ttl_ms
is_sendable (delete target_id timestamp) = true
is_sendable (edit target_id body timestamp) = true
is_sendable (reaction target_id emoji active timestamp) = is_present emoji
is_sendable (attachment chunk) = is_present chunk.id && ltb chunk.chunk_index chunk.chunk_count
is_sendable (group_create group_id name members timestamp) = is_present group_id
is_sendable (group_update group_id name add_members remove_members timestamp) =
    is_present group_id && (is_given name || has_any add_members || has_any remove_members)
is_sendable (group_text group_id id body timestamp reply_to) = is_present group_id && is_present id
is_sendable (unsupported original_type) = false

is_nonempty_string-text : (t : Text) → is_nonempty_string (some (string t)) ≡ is_present t
is_nonempty_string-text [] = refl
is_nonempty_string-text (u ∷ us) = refl

is_nonempty_array-strings :
    (ts : List Text) → is_nonempty_array (some (array (strings ts))) ≡ is_present ts
is_nonempty_array-strings [] = refl
is_nonempty_array-strings (t ∷ ts) = refl

encode_content-inverse :
    (c : MessageContent) (bytes : Bytes)
    → encode_content c ≡ ok bytes
    → utf8_encode (stringify (object (framed_fields c))) ≡ bytes
unfolding encode_content
encode_content-inverse (unsupported original_type) bytes e = absurd (ground arith)
encode_content-inverse c bytes e = ground (arith, e)

-- What the peer's checks make of the frame.
decode_frame-framed_fields :
    (positive : Json → Bool) (c : MessageContent)
    → (decode_frame positive (some (object (framed_fields c))) ≡ ok (content (to_fields c)))
      ↔ (is_sendable c ≡ true)
unfolding encode_content to_fields decode_frame decode_body decode_known validate requirements
    contains text_eq
decode_frame-framed_fields positive (text id body timestamp reply_to) =
    ground (arith, is_nonempty_string-text id)
decode_frame-framed_fields positive (receipt delivered ids timestamp) =
    ground (arith, is_nonempty_array-strings ids)
decode_frame-framed_fields positive (receipt read ids timestamp) =
    ground (arith, is_nonempty_array-strings ids)
decode_frame-framed_fields positive (typing ttl_ms) = ground arith
decode_frame-framed_fields positive (delete target_id timestamp) = ground arith
decode_frame-framed_fields positive (edit target_id body timestamp) = ground arith
decode_frame-framed_fields positive (reaction target_id emoji active timestamp) =
    ground (arith, is_nonempty_string-text emoji)
decode_frame-framed_fields positive (attachment chunk) =
    ground (arith, is_nonempty_string-text chunk.id)
decode_frame-framed_fields positive (group_create group_id name members timestamp) =
    ground (arith, is_nonempty_string-text group_id)
decode_frame-framed_fields positive (group_update group_id none none none timestamp) =
    ground (arith, is_nonempty_string-text group_id)
decode_frame-framed_fields positive (group_update group_id none none (some ys) timestamp) =
    ground (arith, is_nonempty_string-text group_id, is_nonempty_array-strings ys)
decode_frame-framed_fields positive (group_update group_id none (some xs) none timestamp) =
    ground (arith, is_nonempty_string-text group_id, is_nonempty_array-strings xs)
decode_frame-framed_fields positive (group_update group_id none (some xs) (some ys) timestamp) =
    ground (
      arith,
      is_nonempty_string-text group_id,
      is_nonempty_array-strings xs,
      is_nonempty_array-strings ys,
    )
decode_frame-framed_fields positive (group_update group_id (some name) none none timestamp) =
    ground (arith, is_nonempty_string-text group_id)
decode_frame-framed_fields positive (group_update group_id (some name) none (some ys) timestamp) =
    ground (arith, is_nonempty_string-text group_id, is_nonempty_array-strings ys)
decode_frame-framed_fields positive (group_update group_id (some name) (some xs) none timestamp) =
    ground (arith, is_nonempty_string-text group_id, is_nonempty_array-strings xs)
decode_frame-framed_fields positive
      (group_update group_id (some name) (some xs) (some ys) timestamp) =
    ground (
      arith,
      is_nonempty_string-text group_id,
      is_nonempty_array-strings xs,
      is_nonempty_array-strings ys,
    )
decode_frame-framed_fields positive (group_text group_id id body timestamp reply_to) =
    ground (arith, is_nonempty_string-text group_id, is_nonempty_string-text id)
decode_frame-framed_fields positive (unsupported original_type) = ground arith

-- Of a content whose numbers a double has room for, and whose texts are of 16-bit units, `encodeContent`
-- makes bytes that `decodeContent` accepts and reads as the object that was encoded, exactly if the
-- content has its ids, a chunk that lies within its count, an emoji, a positive duration, or a change
-- to the group, whichever its type needs.
pub decode_content-encode_content :
    (positive : Json → Bool) (c : MessageContent) (bytes : Bytes)
    → encode_content c ≡ ok bytes
    → are_plain_fields (framed_fields c) ≡ true
    → (decode_content positive bytes ≡ ok (content (to_fields c))) ↔ (is_sendable c ≡ true)
unfolding decode_content
decode_content-encode_content positive c bytes e plain =
    rw⁻¹ (encode_content-inverse c bytes e)
      (rw (parse-stringify_bytes (framed_fields c) plain) (decode_frame-framed_fields positive c))
