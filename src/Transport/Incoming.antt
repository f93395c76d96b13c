-- ===== src/Transport/Incoming.antt =====
-- web/src/lib/transport/socket.ts: `handleMessage`, from the data of the event on.
use shatters.Common.{
  zero, ◌||◌, Bool, true, false, Option, none, some, [], ◌∷◌, Text, if◌then◌else◌, text_eq, ascii,
  atob,
}
use shatters.Bytes.{Bytes}
use shatters.Json.{parse, natural, Json, null, boolean, number, string, get}
use shatters.Transport.{Transport, handshake_done}
use shatters.Transport.Drain.{Environment, deliver, drain_backlog}

-- What a message asks for. `ignored` is dropped in silence, `unparsable` is reported. What `escapes` is
-- thrown where nothing reports it: the message is null, or its payload no base64. In an `untyped` one
-- a field that is used has another type than the server declares.
pub data Incoming : Type 0 where
  ignored unparsable escapes ready untyped : Incoming
  envelope : (id sender_id : Text) (payload : Bytes) (created_at : Text) → Incoming
  server_error : Text → Incoming

-- A field that is tested: it counts as false, is a text that is not empty, or another value.
pub data Tested : Type 0 where
  falsy other : Tested
  filled : Text → Tested

unfoldable pub tested : Option Json → Tested
tested none = falsy
tested (some null) = falsy
tested (some (boolean false)) = falsy
tested (some (number (natural zero))) = falsy
tested (some (string [])) = falsy
tested (some (string (u ∷ us))) = filled (u ∷ us)
tested (some _) = other

-- `field ?? fallback`, for a text.
abbrev pub or_fallback : (Text → Incoming) → Text → Option Json → Incoming
or_fallback use_text fallback none = use_text fallback
or_fallback use_text fallback (some null) = use_text fallback
or_fallback use_text fallback (some (string t)) = use_text t
or_fallback use_text fallback (some _) = untyped

abbrev pub with_payload : (id sender_id : Text) → Option Json → Option Bytes → Incoming
with_payload id sender_id created_at none = escapes
with_payload id sender_id created_at (some payload) =
    or_fallback (λ created. envelope id sender_id payload created) [] created_at

abbrev is_falsy : Tested → Bool
is_falsy falsy = true
is_falsy _ = false

abbrev pub of_texts : (id sender_id payload : Tested) → (created_at : Option Json) → Incoming
of_texts (filled id) (filled sender_id) (filled payload) created_at =
    with_payload id sender_id created_at (atob payload)
of_texts _ _ _ created_at = untyped

-- `message.id && message.sender_id && message.payload`.
unfoldable pub envelope_of : (id sender_id payload : Tested) → (created_at : Option Json) → Incoming
envelope_of id sender_id payload created_at =
    if is_falsy id || is_falsy sender_id || is_falsy payload
    then ignored
    else of_texts id sender_id payload created_at

-- The `switch`, which compares strictly.
unfoldable pub by_type : Option Json → Json → Incoming
by_type (some (string type_name)) message =
    if text_eq type_name (ascii "ready")
    then ready
    else if text_eq type_name (ascii "envelope")
    then envelope_of (tested (get (ascii "id") message)) (tested (get (ascii "sender_id") message))
        (tested (get (ascii "payload") message)) (get (ascii "created_at") message)
    else if text_eq type_name (ascii "error")
    then or_fallback server_error (ascii "server error") (get (ascii "error") message)
    else ignored
by_type _ message = ignored

unfoldable pub of_value : Option Json → Incoming
of_value none = unparsable
of_value (some null) = escapes
of_value (some message) = by_type (get (ascii "type") message) message

-- `none` where the data is no text.
unfoldable pub read_message : Option Text → Incoming
read_message none = ignored
read_message (some raw) = of_value (parse raw)

-- What a delivery leaves.
abbrev pub left_by : {W : Type 0} → Bool × Transport × W → Transport × W
left_by (done, t, w) = (t, w)

module _ {W : Type 0} (env : Environment W) where
  -- What the transport does about a message; reports of errors are not followed.
  abbrev pub answered : Incoming → Transport → W → Transport × W
  answered ready t w = drain_backlog env (handshake_done t) w
  answered (envelope id sender_id payload created_at) t w = left_by (deliver env id t w)
  answered _ t w = (t, w)

  unfoldable pub handle_message : Option Text → Transport → W → Transport × W
  handle_message raw t w = answered (read_message raw) t w
