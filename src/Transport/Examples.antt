-- ===== src/Transport/Examples.antt =====
-- A transport whose socket could not be made, with one delivery under way.
use shatters.Common.{
  some, btoa, ◌≡◌, true, false, refl, List, [], ◌∷◌, Text, arith, contains, NoneTwice, text_eq,
}
use shatters.Transport.{Transport, new_transport, add, begin_delivery, schedule_retry, open_socket}
use shatters.Json.{are_plain_fields}
use shatters.Transport.Incoming.{handle_message}
use shatters.Transport.Live.{envelope_fields, pushed, delivered_once, handle_message-pushed}
use shatters.Transport.Drain.{drain_backlog}
use shatters.Transport.Backlog.{Server, serving, IsNew, drain_backlog-serving}
use shatters.Transport.Reachable.{
  delivery_begins, connected, Reachable, start, after, IsGood, Reachable-IsGood,
}

abbrev one_id : Text
one_id = 97 ∷ []

abbrev waiting : Transport
waiting = record {
  socket = false;
  backoff = 1000;
  retry_handle = true;
  stopped = false;
  in_flight = one_id ∷ [];
  handled = [];
}

waiting-Reachable : Reachable waiting (one_id ∷ [])
unfolding begin_delivery schedule_retry open_socket add contains
waiting-Reachable = after (after start (connected false refl)) (delivery_begins one_id refl)

Reachable-IsGood_example : IsGood waiting (one_id ∷ [])
Reachable-IsGood_example = Reachable-IsGood waiting-Reachable

abbrev three_ids : List Text
three_ids = (97 ∷ []) ∷ (98 ∷ []) ∷ (99 ∷ []) ∷ []

three_ids-NoneTwice : NoneTwice three_ids
unfolding contains text_eq
three_ids-NoneTwice = (refl, (refl, (refl, tt)))

three_ids-IsNew : IsNew new_transport three_ids
unfolding contains
three_ids-IsNew k m = (refl, refl)

drain_backlog-serving_example :
    (drain_backlog (serving 2) new_transport (record { queue = three_ids; given = [] })).1
    ≡ record { queue = []; given = three_ids }
drain_backlog-serving_example =
    drain_backlog-serving 2 new_transport three_ids (omega arith) (omega arith) three_ids-NoneTwice
      three_ids-IsNew

abbrev pushed_one : Text
pushed_one = pushed one_id (98 ∷ []) (1 ∷ []) []

abbrev nothing_given : Server
nothing_given = record { queue = one_id ∷ []; given = [] }

one_id-IsPlain : are_plain_fields (envelope_fields one_id (98 ∷ []) (1 ∷ []) []) ≡ true
unfolding btoa
one_id-IsPlain = refl

not_in_nothing : contains [] one_id ≡ false
unfolding contains
not_in_nothing = refl

handle_message-pushed_example :
    (handle_message (serving 2) (some pushed_one) new_transport nothing_given ≡ (
      delivered_once one_id new_transport,
      ((serving 2).acknowledge one_id ((serving 2).on_envelope one_id nothing_given).1).1,
    ))
    × ((later : Server)
        → handle_message (serving 2) (some pushed_one) (delivered_once one_id new_transport) later
          ≡ (delivered_once one_id new_transport, later))
handle_message-pushed_example =
    handle_message-pushed (serving 2) one_id (98 ∷ []) (1 ∷ []) [] new_transport nothing_given
      (λ e. cc) (λ e. cc) (λ e. cc) (omega arith, tt) one_id-IsPlain refl not_in_nothing
      not_in_nothing
