-- ===== src/Transport/Drain.antt =====
-- web/src/lib/transport/socket.ts: `deliver` and `drainBacklog`, run to their end. What they call is an
-- environment with a state of its own; an envelope is known by its id.
use shatters.Common.{ℕ, zero, suc, Bool, true, false, ◌||◌, Option, none, some, List, [], ◌∷◌, Text}
use shatters.Transport.{Transport, remember, begin_delivery, release}

-- `none` and `false` stand for a call that throws.
pub record Environment (W : Type 0) : Type 0 where
  -- `api.fetchEnvelopes()`.
  pub fetch_envelopes : W → Option (List Text) × W
  -- `handlers.onEnvelope(envelope)`.
  pub on_envelope : Text → W → Bool × W
  -- `api.acknowledge([id])`.
  pub acknowledge : Text → W → Bool × W

abbrev pub max_drain_pages : ℕ
max_drain_pages = 100

module _ {W : Type 0} (env : Environment W) where
  -- `deliver` after the call of `acknowledge`.
  abbrev pub acknowledged : Text → Transport → Bool × W → Bool × Transport × W
  acknowledged id t (done, w) = (done, remember id t, w)

  -- `deliver` after the call of the handler.
  abbrev pub handled_by : Text → Transport → Bool × W → Bool × Transport × W
  handled_by id t (false, w) = (false, release id t, w)
  handled_by id t (true, w) = acknowledged id t (env.acknowledge id w)

  abbrev pub deliver_begun : Text → Option Transport → Transport → W → Bool × Transport × W
  deliver_begun id none t w = (false, t, w)
  deliver_begun id (some begun) t w = handled_by id begun (env.on_envelope id w)

  unfoldable pub deliver : Text → Transport → W → Bool × Transport × W
  deliver id t w = deliver_begun id (begin_delivery id t) t w

  -- The loop over a page, with whether an envelope of it has been acknowledged.
  unfoldable pub deliver_page : List Text → Bool → Transport → W → Bool × Transport × W
  deliver_page [] some_done t w = (some_done, t, w)
  deliver_page (id ∷ ids) some_done t w =
      let (done, t', w') = deliver id t w in deliver_page ids (done || some_done) t' w'

  abbrev pub after_page : (Transport → W → Transport × W) → Bool × Transport × W → Transport × W
  after_page more (true, t, w) = more t w
  after_page more (false, t, w) = (t, w)

  abbrev pub with_batch :
      (Transport → W → Transport × W) → Transport → Option (List Text) × W → Transport × W
  with_batch more t (none, w) = (t, w)
  with_batch more t (some [], w) = (t, w)
  with_batch more t (some (id ∷ ids), w) = after_page more (deliver_page (id ∷ ids) false t w)

  -- The loop over the pages, with how many of them may still be read.
  unfoldable pub drain_pages : ℕ → Transport → W → Transport × W
  drain_pages zero t w = (t, w)
  drain_pages (suc left) t w =
      with_batch (λ t' w'. drain_pages left t' w') t (env.fetch_envelopes w)

  unfoldable pub drain_backlog : Transport → W → Transport × W
  drain_backlog t w = drain_pages max_drain_pages t w
