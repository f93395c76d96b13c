-- ===== src/Client/Format.antt =====
-- web/src/lib/client/format.ts, but for what it makes of dates.
use shatters.Common.{
  ℕ, zero, suc, ◌+◌, ◌-◌, ◌*◌, ◌/◌, ◌%◌, decimal, Bool, true, not, ◌&&◌, ◌||◌, Option, none, some,
  List, [], ◌∷◌, ◌++◌, Text, leb, ltb, ◌==◌, if◌then◌else◌, take, drop, length, text_eq, ascii,
}
use shatters.Store.{
  MessageStatus, pending, sent, delivered, read, failed, StoredMessage, StoredAttachment,
}
use shatters.Client.{is_space, trim}
use shatters.Client.Search.{is_deleted}

-- The loop of `formatAccountId`, on fuel: the groups from the position on.
unfoldable pub groups_of : ℕ → (group_size : ℕ) → Text → List Text
groups_of zero group_size id = []
groups_of (suc fuel) group_size [] = []
groups_of (suc fuel) group_size (u ∷ us) =
    take group_size (u ∷ us) ∷ groups_of fuel group_size (drop group_size (u ∷ us))

-- `groups.join(" ")`.
unfoldable pub join_spaced : List Text → Text
join_spaced [] = []
join_spaced (group ∷ []) = group
join_spaced (group ∷ next ∷ groups) = group ++ (32 ∷ join_spaced (next ∷ groups))

-- The loop takes at least a unit in each round.
unfoldable pub format_account_id : Text → (group_size : ℕ) → Text
format_account_id id group_size = join_spaced (groups_of (length id) group_size id)

unfoldable pub short_account_id : Text → Text
short_account_id id =
    if leb (length id) 12 then id else take 6 id ++ (8230 ∷ drop (length id - 4) id)

-- `replace(/\s+/g, "")`.
unfoldable pub without_spaces : Text → Text
without_spaces [] = []
without_spaces (u ∷ us) = if is_space u then without_spaces us else u ∷ without_spaces us

-- `[A-Za-z0-9_-]`.
abbrev pub is_id_unit : ℕ → Bool
is_id_unit u =
    (leb 65 u && leb u 90)
    || (leb 97 u && leb u 122)
    || (leb 48 u && leb u 57)
    || u == 95
    || u == 45

unfoldable pub are_id_units : Text → Bool
are_id_units [] = true
are_id_units (u ∷ us) = is_id_unit u && are_id_units us

unfoldable pub normalize_account_id : Text → Option Text
normalize_account_id raw =
    let trimmed = without_spaces (trim raw) in
    if not (length trimmed == 43)
    then none
    else if not (are_id_units trimmed)
    then none
    else some trimmed

unfoldable pub status_symbol : MessageStatus → Text
status_symbol pending = 9675 ∷ []
status_symbol sent = 10003 ∷ []
status_symbol delivered = 10003 ∷ 10003 ∷ []
status_symbol read = 10003 ∷ 10003 ∷ []
status_symbol failed = ascii "!"

unfoldable pub status_label : MessageStatus → Text
status_label pending = ascii "Sending"
status_label sent = ascii "Sent"
status_label delivered = ascii "Delivered"
status_label read = ascii "Read"
status_label failed = ascii "Failed to send " ++ (8212 ∷ ascii " select to retry")

-- `(n / unit).toFixed(1)`, in tenths: the nearest, and the larger of two. The quotient is exact, as the
-- unit is a power of two.
unfoldable pub tenths_of : (unit n : ℕ) → ℕ
tenths_of unit n = (20 * n + unit) / (2 * unit)

unfoldable pub to_fixed : (tenths : ℕ) → Text
to_fixed tenths = decimal (tenths / 10) ++ (46 ∷ decimal (tenths % 10))

unfoldable pub format_bytes : ℕ → Text
format_bytes bytes =
    if ltb bytes 1024
    then decimal bytes ++ ascii " B"
    else if ltb bytes 1048576
    then to_fixed (tenths_of 1024 bytes) ++ ascii " KB"
    else to_fixed (tenths_of 1048576 bytes) ++ ascii " MB"

abbrev or_file_name : Text → Text → Text
or_file_name [] name = 55357 ∷ 56526 ∷ 32 ∷ name
or_file_name (u ∷ us) name = u ∷ us

abbrev preview_with : Option StoredAttachment → Text → Text
preview_with none body = body
preview_with (some attachment) body = or_file_name body attachment.name

unfoldable pub preview_of : Option StoredMessage → Text
preview_of none = ascii "No messages yet"
preview_of (some message) =
    if is_deleted message
    then ascii "Message deleted"
    else preview_with message.attachment message.body

-- A run of messages under its heading.
pub record DayGroup : Type 0 where
  pub day : Text
  pub messages : List StoredMessage

-- The body of the loop of `groupByDay`: the last group takes the message if it has its day.
unfoldable pub push_message : Text → StoredMessage → List DayGroup → List DayGroup
push_message day message [] = (record { day = day; messages = message ∷ [] }) ∷ []
push_message day message (last ∷ []) =
    if text_eq last.day day
    then (record last { messages = last.messages ++ message ∷ [] }) ∷ []
    else last ∷ (record { day = day; messages = message ∷ [] }) ∷ []
push_message day message (g ∷ next ∷ groups) = g ∷ push_message day message (next ∷ groups)

-- `groupByDay`, over `formatDay`, which is the clock's and the locale's.
module _ (format_day : ℕ → Text) where
  unfoldable pub group_from : List DayGroup → List StoredMessage → List DayGroup
  group_from groups [] = groups
  group_from groups (message ∷ rest) =
      group_from (push_message (format_day message.timestamp) message groups) rest

  unfoldable pub group_by_day : List StoredMessage → List DayGroup
  group_by_day messages = group_from [] messages
