-- ===== src/Transport/Live.antt =====
-- web/src/lib/transport/socket.ts: an envelope that is pushed live.
use shatters.Common.{
  ◌≡◌, ◌≢◌, ◌<◌, refl, ap, ◌∙◌, Bool, true, false, some, List, [], ◌∷◌, ◌++◌, Text, text_eq,
  text_eq_refl, ascii, btoa, atob-btoa, btoa-nonempty, contains, contains-append_one, All, arith,
  or_true,
}
use shatters.Bytes.{Bytes}
use shatters.Json.{
  string, object, Fields, field, end, get, stringify, are_plain_fields, parse-stringify,
}
use shatters.Transport.{Transport, add, forget_oldest, remember, begin_delivery}
use shatters.Transport.Drain.{Environment, deliver, handled_by}
use shatters.Transport.Incoming.{
  envelope, tested, filled, envelope_of, by_type, of_value, read_message, answered, handle_message,
  left_by,
}

-- What the server pushes.
abbrev pub envelope_fields : (id sender_id : Text) → Bytes → (created_at : Text) → Fields
envelope_fields id sender_id payload created_at = field (ascii "type") (string (ascii "envelope")) (
    field (ascii "id") (string id) (
      field (ascii "sender_id") (string sender_id) (
        field (ascii "payload") (string (btoa payload))
          (field (ascii "created_at") (string created_at) end))))

abbrev pub pushed : (id sender_id : Text) → Bytes → (created_at : Text) → Text
pushed id sender_id payload created_at =
    stringify (object (envelope_fields id sender_id payload created_at))

tested-text : (t : Text) → t ≢ [] → tested (some (string t)) ≡ filled t
unfolding tested
tested-text [] h = absurd (h refl)
tested-text (u ∷ us) h = refl

by_type-envelope :
    (id sender_id : Text) (payload : Bytes) (created_at : Text)
    → by_type
        (get (ascii "type") (object (envelope_fields id sender_id payload created_at)))
        (object (envelope_fields id sender_id payload created_at))
      ≡ envelope_of
          (tested (some (string id)))
          (tested (some (string sender_id)))
          (tested (some (string (btoa payload))))
          (some (string created_at))
unfolding by_type text_eq
by_type-envelope id sender_id payload created_at = refl

read_message-pushed :
    (id sender_id : Text) (payload : Bytes) (created_at : Text)
    → id ≢ []
    → sender_id ≢ []
    → payload ≢ []
    → All (λ b. b < 256) payload
    → are_plain_fields (envelope_fields id sender_id payload created_at) ≡ true
    → read_message (some (pushed id sender_id payload created_at))
      ≡ envelope id sender_id payload created_at
unfolding read_message of_value envelope_of
read_message-pushed id sender_id payload created_at named sent full bytes plain =
    rw
      (
        parse-stringify (object (envelope_fields id sender_id payload created_at)) plain,
        by_type-envelope id sender_id payload created_at,
        tested-text id named,
        tested-text sender_id sent,
        tested-text (btoa payload) (btoa-nonempty payload full),
        atob-btoa payload bytes,
      )
      refl

forget_oldest-keeps_last :
    (id : Text) (ids : List Text) → contains (forget_oldest (ids ++ id ∷ [])) id ≡ true
unfolding forget_oldest contains
forget_oldest-keeps_last id [] = ground (arith, text_eq_refl id)
forget_oldest-keeps_last id (x ∷ xs) =
    ground (arith, forget_oldest-keeps_last id xs, contains-append_one id id xs, text_eq_refl id)

-- The transport once the envelope is delivered.
abbrev pub delivered_once : Text → Transport → Transport
delivered_once id t = remember id (record t { in_flight = add id t.in_flight })

module _ {W : Type 0} (env : Environment W) (id : Text) where
  handled_by-handled :
      (t : Transport) (r : Bool × W)
      → r.0 ≡ true
      → left_by (handled_by env id t r) ≡ (remember id t, (env.acknowledge id r.1).1)
  handled_by-handled t (true, w) e = refl
  handled_by-handled t (false, w) e = cc

  deliver-new :
      (t : Transport) (w : W)
      → (env.on_envelope id w).0 ≡ true
      → contains t.in_flight id ≡ false
      → contains t.handled id ≡ false
      → left_by (deliver env id t w)
        ≡ (delivered_once id t, (env.acknowledge id (env.on_envelope id w).1).1)
  unfolding deliver begin_delivery
  deliver-new t w e flying handled =
      rw (flying, handled)
        (handled_by-handled (record t { in_flight = add id t.in_flight }) (env.on_envelope id w) e)

  -- An id that is remembered is not delivered again.
  deliver-remembered :
      (t : Transport) (w : W) → contains t.handled id ≡ true → left_by (deliver env id t w) ≡ (t, w)
  unfolding deliver begin_delivery
  deliver-remembered t w old = rw (old, or_true (contains t.in_flight id)) refl

  delivered_once-remembered :
      (t : Transport)
      → contains t.handled id ≡ false
      → contains (delivered_once id t).handled id ≡ true
  unfolding remember add
  delivered_once-remembered t new = rw (new, forget_oldest-keeps_last id t.handled) refl

  -- The server pushes an envelope with an id, a sender and a payload of bytes, that is neither in flight nor
  -- remembered, and the application's handler does not fail. Then it is handled and acknowledged once,
  -- whether the acknowledgement fails or not; and when it is pushed again after that, nothing
  -- changes.
  pub handle_message-pushed :
      (sender_id : Text) (payload : Bytes) (created_at : Text) (t : Transport) (w : W)
      → id ≢ []
      → sender_id ≢ []
      → payload ≢ []
      → All (λ b. b < 256) payload
      → are_plain_fields (envelope_fields id sender_id payload created_at) ≡ true
      → (env.on_envelope id w).0 ≡ true
      → contains t.in_flight id ≡ false
      → contains t.handled id ≡ false
      → (handle_message env (some (pushed id sender_id payload created_at)) t w
          ≡ (delivered_once id t, (env.acknowledge id (env.on_envelope id w).1).1))
        × ((later : W)
            → handle_message env
                (some (pushed id sender_id payload created_at))
                (delivered_once id t)
                later
              ≡ (delivered_once id t, later))
  unfolding handle_message
  handle_message-pushed sender_id payload created_at t w named sent full bytes plain e flying
        handled =
      let read = read_message-pushed id sender_id payload created_at named sent full bytes plain in
      (
        ap (λ m. answered env m t w) read ∙ deliver-new t w e flying handled,
        λ later.
            ap (λ m. answered env m (delivered_once id t) later) read
            ∙ deliver-remembered (delivered_once id t) later (delivered_once-remembered t handled),
      )
