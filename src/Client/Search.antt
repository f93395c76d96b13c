-- ===== src/Client/Search.antt =====
-- web/src/lib/client/search.ts. The tables of Unicode, for `normalize("NFD")` and `toLowerCase()`, are a
-- parameter.
use shatters.Common.{
  ℕ, zero, suc, ◌+◌, ◌-◌, Bool, true, false, not, ◌&&◌, ◌||◌, Option, none, some, List, [], ◌∷◌,
  ◌++◌, Text, leb, ltb, ◌==◌, if◌then◌else◌, take, drop, length, starts_with, sort_by, is_empty,
}
use shatters.Store.{StoredMessage, Conversation}
use shatters.Client.{trim}

pub record Unicode : Type 0 where
  pub nfd : Text → Text
  pub to_lower_case : Text → Text

pub record SearchHit : Type 0 where
  pub message : StoredMessage
  pub index : ℕ

pub record Part : Type 0 where
  pub text : Text
  pub match : Bool

-- `/[\u0300-\u036f]/g` is replaced by nothing.
unfoldable pub strip_marks : Text → Text
strip_marks [] = []
strip_marks (u ∷ us) = if leb 768 u && leb u 879 then strip_marks us else u ∷ strip_marks us

abbrev next_index : Option ℕ → Option ℕ
next_index none = none
next_index (some i) = some (suc i)

-- `text.indexOf(needle)`.
unfoldable pub index_of : Text → Text → Option ℕ
index_of needle [] = if starts_with [] needle then some 0 else none
index_of needle (u ∷ us) =
    let later = next_index (index_of needle us) in
    if starts_with (u ∷ us) needle then some 0 else later

-- `if (message.deletedAt)`, where zero is false.
abbrev pub is_deleted : StoredMessage → Bool
is_deleted message = is_set message.deleted_at
  where
    is_set : Option ℕ → Bool
    is_set none = false
    is_set (some at) = not (at == 0)

abbrev pub is_found : Option ℕ → Bool
is_found none = false
is_found (some i) = true

abbrev pub or_no_name : Option Text → Text
or_no_name none = []
or_no_name (some name) = name

-- A hit of the message in front of the others.
abbrev pub push_hit : StoredMessage → Option ℕ → List SearchHit → List SearchHit
push_hit message none hits = hits
push_hit message (some index) hits = (record { message = message; index = index }) ∷ hits

abbrev plain : Text → Part
plain text = record { text = text; match = false }

-- The part between two matches, if there is one.
abbrev pub between : Text → (cursor index : ℕ) → List Part
between body cursor index =
    if ltb cursor index then plain (take (index - cursor) (drop cursor body)) ∷ [] else []

abbrev pub and_more : List Part → Option (List Part) → Option (List Part)
and_more parts none = none
and_more parts (some more) = some (parts ++ more)

-- The parts from the cursor on, where the next match is so far behind it, if there is one.
abbrev pub parts_at : (ℕ → Option (List Part)) → Text → Text → ℕ → Option ℕ → Option (List Part)
parts_at more needle body cursor none =
    some (if ltb cursor (length body) then plain (drop cursor body) ∷ [] else [])
parts_at more needle body cursor (some distance) =
    let index = cursor + distance in
    and_more
      (between body cursor index
        ++ (record { text = take (length needle) (drop index body); match = true }) ∷ [])
      (more (index + length needle))

-- The loop of `highlightParts`, on fuel.
unfoldable pub parts_from : ℕ → (needle haystack body : Text) → ℕ → Option (List Part)
parts_from zero needle haystack body cursor = none
parts_from (suc fuel) needle haystack body cursor =
    parts_at (parts_from fuel needle haystack body) needle body cursor
      (index_of needle (drop cursor haystack))

module _ (unicode : Unicode) where
  unfoldable pub normalize : Text → Text
  normalize text = unicode.to_lower_case (strip_marks (unicode.nfd text))

  -- The loop of `searchMessages`.
  unfoldable pub hits_of : Text → List StoredMessage → List SearchHit
  hits_of needle [] = []
  hits_of needle (message ∷ rest) =
      let later = hits_of needle rest in
      if is_deleted message
      then later
      else push_hit message (index_of needle (normalize message.body)) later

  unfoldable pub search_messages : List StoredMessage → (query : Text) → List SearchHit
  search_messages messages query =
      let needle = normalize (trim query) in
      if is_empty needle
      then []
      else sort_by (λ a b. leb b.message.timestamp a.message.timestamp) (hits_of needle messages)

  abbrev pub is_named : Text → Conversation → Bool
  is_named needle conversation =
      is_found (index_of needle (normalize (or_no_name conversation.display_name)))
      || is_found (index_of needle (normalize conversation.id))

  unfoldable pub filter_named : Text → List Conversation → List Conversation
  filter_named needle [] = []
  filter_named needle (c ∷ rest) =
      if is_named needle c then c ∷ filter_named needle rest else filter_named needle rest

  unfoldable pub search_conversations : List Conversation → (query : Text) → List Conversation
  search_conversations conversations query =
      let needle = normalize (trim query) in
      if is_empty needle then conversations else filter_named needle conversations

  -- A round moves the cursor on, and never past the haystack.
  unfoldable pub highlight_parts : (body query : Text) → Option (List Part)
  highlight_parts body query =
      let needle = normalize (trim query) in
      if is_empty needle
      then some (plain body ∷ [])
      else parts_from (suc (length (normalize body))) needle (normalize body) body 0
