-- ===== src/Content/Decode.antt =====
-- web/src/lib/crypto/content.ts: `decodeContent` and `validate`.
use Prim.Native.String.{String}
use shatters.Common.{
  err, ok, ℕ, Bool, true, false, ◌||◌, Option, none, some, List, [], ◌∷◌, Text, text_eq, contains,
  if◌then◌else◌, ltb, ◌==◌, ascii, utf8_decode,
}
use shatters.Bytes.{Bytes}
use shatters.Json.{
  parse, Number, natural, Json, null, boolean, number, string, array, object, Fields, get_field,
  get, is_string, is_nonempty_string, is_boolean, is_array, is_nonempty_array, is_finite,
  is_positive_number, is_finite_positive, natural_of,
}
use shatters.Content.Frame.{
  content_version, ContentError, not_json, malformed_frame, malformed_body, invalid, Result,
}

-- What `decodeContent` returns: the object as it was parsed, or `unsupported` with the type, or with
-- the version's number for the text `v` and that number.
pub data Decoded : Type 0 where
  content : Fields → Decoded
  unsupported_type : Text → Decoded
  unsupported_version : Number → Decoded

abbrev pub known_types : List Text
known_types =
    ascii "text"
    ∷ ascii "receipt"
    ∷ ascii "typing"
    ∷ ascii "delete"
    ∷ ascii "edit"
    ∷ ascii "reaction"
    ∷ ascii "attachment"
    ∷ ascii "group-create"
    ∷ ascii "group-update"
    ∷ ascii "group-text"
    ∷ []

-- The calls of `require` in their order; the first that does not hold throws.
abbrev pub require_all : Text → List (Bool × String) → Option ContentError
require_all type_name [] = none
require_all type_name ((passes, name) ∷ rest) =
    if passes then require_all type_name rest else some (invalid type_name (ascii name))

abbrev is_text : String → Option Json → Bool
is_text name (some (string t)) = text_eq t (ascii name)
is_text name _ = false

abbrev is_positive : Option ℕ → Bool
is_positive none = false
is_positive (some n) = ltb 0 n

-- `Number.isInteger(index) && index >= 0 && index < count`, the count an integer by then.
abbrev is_below : Option ℕ → Option ℕ → Bool
is_below (some index) (some count) = ltb index count
is_below _ _ = false

abbrev is_natural : Option ℕ → Bool
is_natural none = false
is_natural (some n) = true

abbrev is_defined : Option Json → Bool
is_defined none = false
is_defined (some j) = true

abbrev field_of : Fields → String → Option Json
field_of fields name = get_field (ascii name) fields

-- `positive` compares a value that is no number with 0, as the language does it by coercion.
module _ (positive : Json → Bool) where
  -- `(list?.length ?? 0) > 0`, whatever the value is.
  abbrev pub has_entries : Option Json → Bool
  has_entries none = false
  has_entries (some null) = false
  has_entries (some (boolean b)) = false
  has_entries (some (number n)) = false
  has_entries (some (string t)) = is_nonempty_string (some (string t))
  has_entries (some (array items)) = is_nonempty_array (some (array items))
  has_entries (some (object fields)) = compared (field_of fields "length")
    where
      compared : Option Json → Bool
      compared none = false
      compared (some null) = false
      compared (some (number n)) = is_positive_number n
      compared (some j) = positive j

  -- What `validate` requires of the fields of a type, with the field that it names.
  unfoldable pub requirements : Text → Fields → List (Bool × String)
  requirements type_name fields =
      let at : String → Option Json = field_of fields in
      let chunk_count = natural_of (at "chunkCount") in
      if text_eq type_name (ascii "text")
      then (is_nonempty_string (at "id"), "id")
        ∷ (is_string (at "body"), "body")
        ∷ (is_finite (at "timestamp"), "timestamp")
        ∷ []
      else if text_eq type_name (ascii "receipt")
      then (is_text "delivered" (at "kind") || is_text "read" (at "kind"), "kind")
        ∷ (is_nonempty_array (at "messageIds"), "messageIds")
        ∷ []
      else if text_eq type_name (ascii "typing")
      then (is_finite_positive (at "ttlMs"), "ttlMs") ∷ []
      else if text_eq type_name (ascii "delete")
      then (is_string (at "targetId"), "targetId") ∷ []
      else if text_eq type_name (ascii "edit")
      then (is_string (at "targetId"), "targetId") ∷ (is_string (at "body"), "body") ∷ []
      else if text_eq type_name (ascii "reaction")
      then (is_string (at "targetId"), "targetId")
        ∷ (is_nonempty_string (at "emoji"), "emoji")
        ∷ (is_boolean (at "active"), "active")
        ∷ []
      else if text_eq type_name (ascii "attachment")
      then (is_nonempty_string (at "id"), "id")
        ∷ (is_positive chunk_count, "chunkCount")
        ∷ (is_below (natural_of (at "chunkIndex")) chunk_count, "chunkIndex")
        ∷ (is_string (at "data"), "data")
        ∷ (is_natural (natural_of (at "size")), "size")
        ∷ []
      else if text_eq type_name (ascii "group-create")
      then (is_nonempty_string (at "groupId"), "groupId")
        ∷ (is_string (at "name"), "name")
        ∷ (is_array (at "members"), "members")
        ∷ []
      else if text_eq type_name (ascii "group-update")
      then (is_nonempty_string (at "groupId"), "groupId")
        ∷ (is_finite (at "timestamp"), "timestamp")
        ∷ (
          is_defined (at "name")
              || has_entries (at "addMembers")
              || has_entries (at "removeMembers"),
          "change",
        )
        ∷ []
      else if text_eq type_name (ascii "group-text")
      then (is_nonempty_string (at "groupId"), "groupId")
        ∷ (is_nonempty_string (at "id"), "id")
        ∷ (is_string (at "body"), "body")
        ∷ (is_finite (at "timestamp"), "timestamp")
        ∷ []
      else []

  -- `validate`: the error that it throws, if it throws one.
  unfoldable pub validate : Text → Fields → Option ContentError
  validate type_name fields = require_all type_name (requirements type_name fields)

  abbrev unless_thrown : Option ContentError → Decoded → Result Decoded
  unless_thrown none d = ok d
  unless_thrown (some e) d = err e

  -- `decodeContent` once the body is known to be an object that names its type.
  unfoldable pub decode_known : Text → Fields → Result Decoded
  decode_known type_name fields =
      if contains known_types type_name
      then unless_thrown (validate type_name fields) (content fields)
      else ok (unsupported_type type_name)

  abbrev decode_typed : Option Json → Fields → Result Decoded
  decode_typed (some (string type_name)) fields = decode_known type_name fields
  decode_typed _ fields = err malformed_body

  unfoldable pub decode_body : Option Json → Result Decoded
  decode_body (some (object fields)) = decode_typed (get_field (ascii "type") fields) fields
  decode_body _ = err malformed_body

  abbrev is_content_version : Number → Bool
  is_content_version (natural n) = n == content_version
  is_content_version _ = false

  abbrev decode_version : Option Json → Json → Result Decoded
  decode_version (some (number v)) framed =
      if is_content_version v
      then decode_body (get (ascii "c") framed)
      else ok (unsupported_version v)
  decode_version _ framed = err malformed_frame

  -- `decodeContent`, from the value that the bytes parse to; `none` where they do not parse.
  unfoldable pub decode_frame : Option Json → Result Decoded
  decode_frame none = err not_json
  decode_frame (some framed) = decode_version (get (ascii "v") framed) framed

  -- `decodeContent`.
  unfoldable pub decode_content : Bytes → Result Decoded
  decode_content bytes = decode_frame (parse (utf8_decode bytes))
