-- ===== src/Transport.antt =====
-- web/src/lib/transport/socket.ts: the state of `Transport` and what changes it. The two `await`s of
-- `deliver` part it into steps that the steps of other deliveries may come between.
pub mod Ids
pub mod Reachable
pub mod Drain
pub mod Backlog
pub mod Incoming
pub mod Live
pub mod Examples
use shatters.Common.{
  ℕ, suc, ◌*◌, Bool, true, false, ◌||◌, not, List, [], ◌∷◌, ◌++◌, Text, length, min, ltb,
  if◌then◌else◌, contains, text_eq, Option, none, some,
}

abbrev pub initial_backoff_ms : ℕ
initial_backoff_ms = 500

abbrev pub max_backoff_ms : ℕ
max_backoff_ms = 30000

abbrev pub max_remembered_ids : ℕ
max_remembered_ids = 1000

-- `socket` and `retryHandle` are present or not.
pub record Transport : Type 0 where
  pub socket : Bool
  pub backoff : ℕ
  pub retry_handle : Bool
  pub stopped : Bool
  pub in_flight : List Text
  pub handled : List Text

abbrev pub new_transport : Transport
new_transport = record {
  socket = false;
  backoff = initial_backoff_ms;
  retry_handle = false;
  stopped = false;
  in_flight = [];
  handled = [];
}

-- `set.add(id)`.
unfoldable pub add : Text → List Text → List Text
add id ids = if contains ids id then ids else ids ++ id ∷ []

-- `set.delete(id)`.
unfoldable pub delete : Text → List Text → List Text
delete id [] = []
delete id (x ∷ xs) = if text_eq x id then delete id xs else x ∷ delete id xs

-- `while (this.handled.size > MAX_REMEMBERED_IDS)` drops the oldest id.
unfoldable pub forget_oldest : List Text → List Text
forget_oldest [] = []
forget_oldest (id ∷ rest) =
    if ltb max_remembered_ids (suc (length rest)) then forget_oldest rest else id ∷ rest

unfoldable pub remember : Text → Transport → Transport
remember id t = record t {
  in_flight = delete id t.in_flight;
  handled = forget_oldest (add id t.handled);
}

-- `deliver` up to the call of the handler; `none` where it drops the envelope.
unfoldable pub begin_delivery : Text → Transport → Option Transport
begin_delivery id t =
    if contains t.in_flight id || contains t.handled id
    then none
    else some (record t { in_flight = add id t.in_flight })

-- The handler threw.
unfoldable pub release : Text → Transport → Transport
release id t = record t { in_flight = delete id t.in_flight }

-- `random` decides the delay only, which the timer is given.
unfoldable pub schedule_retry : Transport → Transport
schedule_retry t =
    if t.stopped || t.retry_handle
    then t
    else record t { backoff = min (t.backoff * 2) max_backoff_ms; retry_handle = true }

-- `open`, by whether the factory made a socket.
unfoldable pub open_socket : Bool → Transport → Transport
open_socket true t = record t { socket = true }
open_socket false t = schedule_retry t

-- The timer of `scheduleRetry` fires.
unfoldable pub retry : Bool → Transport → Transport
retry made t =
    let fired : Transport = record t { retry_handle = false } in
    let opened = open_socket made fired in if t.stopped then fired else opened

unfoldable pub close : Transport → Transport
close t = record t { stopped = true; retry_handle = false; socket = false }

-- `onclose` of the current socket.
unfoldable pub socket_closed : Transport → Transport
socket_closed t =
    let gone : Transport = record t { socket = false } in
    let scheduled = schedule_retry gone in if t.stopped then gone else scheduled

-- The message `ready`, before the backlog is drained.
unfoldable pub handshake_done : Transport → Transport
handshake_done t = record t { backoff = initial_backoff_ms }
