-- ===== src/Transport/Reachable.antt =====
-- web/src/lib/transport/socket.ts: the states that any interleaving of deliveries, timers and socket
-- events leads to.
use shatters.Common.{
  ◌&&◌, not, ap, sym, ◌∙◌, List, [], ◌∷◌, text_eq, ◌≤◌, ◌≡◌, refl, inl, inr, Bool, true, false,
  ◌||◌, Text, length, if◌then◌else◌, contains, NoneTwice, text_eq_iff, some, Bool-cases, arith,
}
use shatters.Transport.{
  Transport, new_transport, add, delete, forget_oldest, remember, begin_delivery, release,
  schedule_retry, open_socket, retry, close, socket_closed, handshake_done,
}
use shatters.Transport.Ids.{
  contains-delete_eq, contains-add_eq, one_less, contains-one_less, one_less-NoneTwice,
  add-NoneTwice, contains-add, forget_oldest-length, forget_oldest-NoneTwice,
  contains-forget_oldest,
}

-- One event, with the ids of the deliveries that run, each as often as it runs. A delivery goes on only
-- where it runs, and the timer fires only where it is set.
pub data Step : Transport → List Text → Transport → List Text → Type 0 where
  delivery_begins :
      {t t' : Transport} {running : List Text}
      → (id : Text) → begin_delivery id t ≡ some t'
      → Step t running t' (id ∷ running)
  handler_throws :
      {t : Transport} {running : List Text}
      → (id : Text) → contains running id ≡ true
      → Step t running (release id t) (one_less id running)
  acknowledged :
      {t : Transport} {running : List Text}
      → (id : Text) → contains running id ≡ true
      → Step t running (remember id t) (one_less id running)
  connected :
      {t : Transport} {running : List Text}
      → (made : Bool) → t.stopped ≡ false
      → Step t running (open_socket made t) running
  timer_fires :
      {t : Transport} {running : List Text}
      → (made : Bool) → t.retry_handle ≡ true
      → Step t running (retry made t) running
  socket_closes : {t : Transport} {running : List Text} → Step t running (socket_closed t) running
  ready_arrives : {t : Transport} {running : List Text} → Step t running (handshake_done t) running
  closes : {t : Transport} {running : List Text} → Step t running (close t) running

pub data Reachable : Transport → List Text → Type 0 where
  start : Reachable new_transport []
  after :
      {t t' : Transport} {running running' : List Text}
      → Reachable t running
      → Step t running t' running'
      → Reachable t' running'

-- The invariant.
pub record IsGood (t : Transport) (running : List Text) : Type 0 where
  pub one_at_a_time : NoneTwice running
  pub in_flight : (id : Text) → contains t.in_flight id ≡ contains running id
  pub handled_once : NoneTwice t.handled
  pub apart : (id : Text) → contains running id ≡ true → contains t.handled id ≡ false
  pub remembered : length t.handled ≤ 1000
  pub low : 500 ≤ t.backoff
  pub high : t.backoff ≤ 30000
  pub quiet : t.stopped ≡ true → t.retry_handle ≡ false

begin_delivery-IsGood :
    (id : Text) (t t' : Transport) (running : List Text)
    → begin_delivery id t ≡ some t'
    → IsGood t running
    → IsGood t' (id ∷ running)
unfolding begin_delivery contains
begin_delivery-IsGood id t t' running e g =
    elim (Bool-cases (contains t.in_flight id || contains t.handled id)) [
      | inl dropped ↦ absurd (ground arith)
      | inr new ↦
          let same : record t { in_flight = add id t.in_flight } ≡ t' = ground arith in
          let idle : contains running id ≡ false = ground (arith, g.in_flight id) in
          let unhandled : contains t.handled id ≡ false = ground arith in
          rw⁻¹ same (record {
            one_at_a_time = (idle, g.one_at_a_time);
            in_flight = λ k. contains-add_eq id k t.in_flight ∙ rw (g.in_flight k) refl;
            handled_once = g.handled_once;
            apart = λ k h. ground (arith, g.apart k, text_eq_iff id k, unhandled);
            remembered = g.remembered;
            low = g.low;
            high = g.high;
            quiet = g.quiet;
          })
    ]

one_less-in_flight :
    (id k : Text) (t : Transport) (running : List Text)
    → IsGood t running
    → contains (delete id t.in_flight) k ≡ contains (one_less id running) k
one_less-in_flight id k t running g =
    contains-delete_eq id k t.in_flight
    ∙ ap (λ b. b && not (text_eq id k)) (g.in_flight k)
    ∙ sym (contains-one_less id k running g.one_at_a_time)

one_less-inv :
    (id k : Text) (t : Transport) (running : List Text)
    → IsGood t running
    → contains (one_less id running) k ≡ true
    → (contains running k ≡ true) × (text_eq id k ≡ false)
one_less-inv id k t running g h = ground (arith, contains-one_less id k running g.one_at_a_time)

release-IsGood :
    (id : Text) (t : Transport) (running : List Text)
    → IsGood t running
    → IsGood (release id t) (one_less id running)
unfolding release
release-IsGood id t running g = record {
  one_at_a_time = one_less-NoneTwice id running g.one_at_a_time;
  in_flight = λ k. one_less-in_flight id k t running g;
  handled_once = g.handled_once;
  apart = λ k h. g.apart k (one_less-inv id k t running g h).0;
  remembered = g.remembered;
  low = g.low;
  high = g.high;
  quiet = g.quiet;
}

remember-IsGood :
    (id : Text) (t : Transport) (running : List Text)
    → IsGood t running
    → IsGood (remember id t) (one_less id running)
unfolding remember
remember-IsGood id t running g = record {
  one_at_a_time = one_less-NoneTwice id running g.one_at_a_time;
  in_flight = λ k. one_less-in_flight id k t running g;
  handled_once =
      forget_oldest-NoneTwice (add id t.handled) (add-NoneTwice id t.handled g.handled_once);
  apart = λ k h.
      let (runs, other) = one_less-inv id k t running g h in
      elim (Bool-cases (contains (forget_oldest (add id t.handled)) k)) [
        | inr free ↦ free
        | inl there ↦
            elim (contains-add id k t.handled (contains-forget_oldest k (add id t.handled) there)) [
              | inl old ↦ absurd (ground (arith, g.apart k runs))
              | inr here ↦ absurd (ground (arith, text_eq_iff id k))
            ]
      ];
  remembered = forget_oldest-length (add id t.handled);
  low = g.low;
  high = g.high;
  quiet = g.quiet;
}

schedule_retry-IsGood :
    (t : Transport) (running : List Text) → IsGood t running → IsGood (schedule_retry t) running
unfolding schedule_retry
schedule_retry-IsGood t running g = elim (Bool-cases (t.stopped || t.retry_handle)) [
  | inl idle ↦ simp (idle, schedule_retry) g
  | inr due ↦
      simp (due, schedule_retry)
        (record {
          one_at_a_time = g.one_at_a_time;
          in_flight = g.in_flight;
          handled_once = g.handled_once;
          apart = g.apart;
          remembered = g.remembered;
          low = omega (arith, g.low, g.high);
          high = omega arith;
          quiet = λ stopped. ground arith;
        })
]

open_socket-IsGood :
    (made : Bool) (t : Transport) (running : List Text)
    → IsGood t running
    → IsGood (open_socket made t) running
unfolding open_socket
open_socket-IsGood true t running g = record {
  one_at_a_time = g.one_at_a_time;
  in_flight = g.in_flight;
  handled_once = g.handled_once;
  apart = g.apart;
  remembered = g.remembered;
  low = g.low;
  high = g.high;
  quiet = g.quiet;
}
open_socket-IsGood false t running g = schedule_retry-IsGood t running g

-- The socket and the timer's handle are not spoken of.
with_timer_off :
    (socket : Bool) (t : Transport) (running : List Text)
    → IsGood t running
    → IsGood (record t { socket = socket; retry_handle = false }) running
with_timer_off socket t running g = record {
  one_at_a_time = g.one_at_a_time;
  in_flight = g.in_flight;
  handled_once = g.handled_once;
  apart = g.apart;
  remembered = g.remembered;
  low = g.low;
  high = g.high;
  quiet = λ h. refl;
}

chosen :
    (b : Bool) {x y : Transport} {running : List Text}
    → IsGood x running
    → IsGood y running
    → IsGood (if b then x else y) running
chosen true g h = g
chosen false g h = h

retry-IsGood :
    (made : Bool) (t : Transport) (running : List Text)
    → IsGood t running
    → IsGood (retry made t) running
unfolding retry
retry-IsGood made t running g =
    let fired : IsGood (record t { retry_handle = false }) running =
      with_timer_off t.socket t running g in
    chosen t.stopped fired
      (open_socket-IsGood made (record t { retry_handle = false }) running fired)

socket_closed-IsGood :
    (t : Transport) (running : List Text) → IsGood t running → IsGood (socket_closed t) running
unfolding socket_closed
socket_closed-IsGood t running g =
    let gone : IsGood (record t { socket = false }) running = record {
      one_at_a_time = g.one_at_a_time;
      in_flight = g.in_flight;
      handled_once = g.handled_once;
      apart = g.apart;
      remembered = g.remembered;
      low = g.low;
      high = g.high;
      quiet = g.quiet;
    } in
    chosen t.stopped gone (schedule_retry-IsGood (record t { socket = false }) running gone)

close-IsGood : (t : Transport) (running : List Text) → IsGood t running → IsGood (close t) running
unfolding close
close-IsGood t running g = record {
  one_at_a_time = g.one_at_a_time;
  in_flight = g.in_flight;
  handled_once = g.handled_once;
  apart = g.apart;
  remembered = g.remembered;
  low = g.low;
  high = g.high;
  quiet = λ h. refl;
}

handshake_done-IsGood :
    (t : Transport) (running : List Text) → IsGood t running → IsGood (handshake_done t) running
unfolding handshake_done
handshake_done-IsGood t running g = record {
  one_at_a_time = g.one_at_a_time;
  in_flight = g.in_flight;
  handled_once = g.handled_once;
  apart = g.apart;
  remembered = g.remembered;
  low = omega arith;
  high = omega arith;
  quiet = g.quiet;
}

Step-IsGood :
    {t t' : Transport} {running running' : List Text}
    → Step t running t' running'
    → IsGood t running
    → IsGood t' running'
Step-IsGood {t} {t'} {running} (delivery_begins id e) g = begin_delivery-IsGood id t t' running e g
Step-IsGood {t} {running} (handler_throws id e) g = release-IsGood id t running g
Step-IsGood {t} {running} (acknowledged id e) g = remember-IsGood id t running g
Step-IsGood {t} {running} (connected made e) g = open_socket-IsGood made t running g
Step-IsGood {t} {running} (timer_fires made e) g = retry-IsGood made t running g
Step-IsGood {t} {running} socket_closes g = socket_closed-IsGood t running g
Step-IsGood {t} {running} ready_arrives g = handshake_done-IsGood t running g
Step-IsGood {t} {running} closes g = close-IsGood t running g

-- In every state that deliveries, timers and socket events lead to, however they interleave: no two
-- deliveries of one envelope run at a time, none of an envelope that is remembered as handled runs,
-- and what runs is what is in flight; at most 1000 ids are remembered, each once; the back-off is
-- from 500 to 30000 ms; and a closed transport has no timer set.
pub Reachable-IsGood :
    {t : Transport} {running : List Text} → Reachable t running → IsGood t running
unfolding contains
Reachable-IsGood start = record {
  one_at_a_time = tt;
  in_flight = λ id. refl;
  handled_once = tt;
  apart = λ id h. refl;
  remembered = omega arith;
  low = omega arith;
  high = omega arith;
  quiet = λ h. refl;
}
Reachable-IsGood (after reached step) = Step-IsGood step (Reachable-IsGood reached)
