-- ===== src/Transport/Backlog.antt =====
-- web/src/lib/transport/socket.ts, `drainBacklog`, against a server that serves its queue in pages.
use shatters.Common.{
  ℕ, zero, suc, ◌*◌, ◌≤◌, ◌<◌, ◌≡◌, refl, sym, ap, ap₂, subst, ◌∙◌, Bool, true, false, ◌||◌, some,
  List, [], ◌∷◌, ◌++◌, Text, length, take, drop, take-append-drop, length-drop, arith, contains,
  NoneTwice, text_eq, text_eq_refl, text_eq_iff, append_assoc, append-nil, inl, inr, not,
  Bool-cases, is_empty, or_true,
}
use shatters.Transport.{Transport, add, delete, forget_oldest, remember, begin_delivery}
use shatters.Transport.Ids.{contains-add, not_contains-delete, contains-forget_oldest}
use shatters.Transport.Drain.{
  Environment, deliver, deliver_page, after_page, drain_pages, drain_backlog,
}

-- A server with the ids that it keeps, in order, and what the application was given, in order.
pub record Server : Type 0 where
  pub queue : List Text
  pub given : List Text

-- It serves at most `page` envelopes at a time, and no call fails.
abbrev pub serving : ℕ → Environment Server
serving page = record {
  fetch_envelopes = λ w. (some (take page w.queue), w);
  on_envelope = λ id w. (true, record w { given = w.given ++ id ∷ [] });
  acknowledge = λ id w. (true, record w { queue = delete id w.queue });
}

first_in : (id : Text) (ids : List Text) → contains (id ∷ ids) id ≡ true
unfolding contains
first_in id ids = ground (arith, text_eq_refl id)

-- No id of the list is in flight or remembered.
abbrev pub IsNew : Transport → List Text → Type 0
IsNew t ids =
    (k : Text)
    → contains ids k ≡ true
    → (contains t.in_flight k ≡ false) × (contains t.handled k ≡ false)

-- The transport once the envelope is delivered.
abbrev delivered : Text → Transport → Transport
delivered id t = remember id (record t { in_flight = add id t.in_flight })

deliver-serving :
    (page : ℕ) (id : Text) (t : Transport) (w : Server)
    → contains t.in_flight id ≡ false
    → contains t.handled id ≡ false
    → deliver (serving page) id t w
      ≡ (true, delivered id t, record { queue = delete id w.queue; given = w.given ++ id ∷ [] })
unfolding deliver begin_delivery
deliver-serving page id t w flying handled = rw (flying, handled) refl

present_not_absent :
    (ids : List Text) (id k : Text)
    → contains ids k ≡ true
    → contains ids id ≡ false
    → text_eq id k ≡ false
present_not_absent ids id k m absent = elim (Bool-cases (text_eq id k)) [
  | inr e ↦ e
  | inl e ↦
      let same = subst (λ (x : Text). contains ids x ≡ false) ((text_eq_iff id k).0 e) absent in
      absurd (ground arith)
]

not_contains-add :
    (id k : Text) (ids : List Text)
    → contains ids k ≡ false
    → text_eq id k ≡ false
    → contains (add id ids) k ≡ false
not_contains-add id k ids h apart = elim (Bool-cases (contains (add id ids) k)) [
  | inr e ↦ e
  | inl e ↦ elim (contains-add id k ids e) [
    | inl old ↦ absurd (ground arith)
    | inr same ↦ absurd (ground (arith, text_eq_iff id k))
  ]
]

not_contains-forget_oldest :
    (k : Text) (ids : List Text) → contains ids k ≡ false → contains (forget_oldest ids) k ≡ false
not_contains-forget_oldest k ids h = elim (Bool-cases (contains (forget_oldest ids) k)) [
  | inr e ↦ e
  | inl e ↦ let old = contains-forget_oldest k ids e in absurd (ground arith)
]

delivered-IsNew :
    (id : Text) (t : Transport) (ids : List Text)
    → contains ids id ≡ false
    → IsNew t (id ∷ ids)
    → IsNew (delivered id t) ids
unfolding remember
delivered-IsNew id t ids absent new k m =
    let apart = present_not_absent ids id k m absent in
    let (flying, handled) = new k (unfold contains in ground (arith, m)) in
    (
      not_contains-delete id k (add id t.in_flight)
          (not_contains-add id k t.in_flight flying apart),
      not_contains-forget_oldest k (add id t.handled)
          (not_contains-add id k t.handled handled apart),
    )

delete-absent : (id : Text) (ids : List Text) → contains ids id ≡ false → delete id ids ≡ ids
unfolding delete contains
delete-absent id [] h = refl
delete-absent id (x ∷ ids) h = ground (arith, delete-absent id ids)

delete-first : (id : Text) (ids : List Text) → contains ids id ≡ false → delete id (id ∷ ids) ≡ ids
unfolding delete
delete-first id ids h = rw (text_eq_refl id) (delete-absent id ids h)

NoneTwice-rest : (ids rest : List Text) → NoneTwice (ids ++ rest) → NoneTwice rest
NoneTwice-rest [] rest h = h
NoneTwice-rest (id ∷ ids) rest h = NoneTwice-rest ids rest h.1

-- A page in front of the rest of the queue is delivered and gone.
deliver_page-serving :
    (page : ℕ) (ids rest : List Text) (done : Bool) (t : Transport) (given : List Text)
    → NoneTwice (ids ++ rest)
    → IsNew t (ids ++ rest)
    → (t' : Transport) × (deliver_page
          (serving page)
          ids
          done
          t
          (record { queue = ids ++ rest; given = given })
        ≡ (not (is_empty ids) || done, t', record { queue = rest; given = given ++ ids }))
      × IsNew t' rest
unfolding deliver_page
deliver_page-serving page [] rest done t given n new = (t, rw (append-nil given) refl, new)
deliver_page-serving page (id ∷ ids) rest done t given n new =
    let (flying, handled) = new id (first_in id (ids ++ rest)) in
    let (t', e, new') =
      deliver_page-serving page ids rest true (delivered id t) (given ++ id ∷ []) n.1
        (delivered-IsNew id t (ids ++ rest) n.0 new) in
    (
      t',
      rw
          (
            deliver-serving page id t (record { queue = id ∷ ids ++ rest; given = given }) flying
                handled,
            delete-first id (ids ++ rest) n.0,
          )
          (e
            ∙ ap₂ (λ b g. (b, t', record { queue = rest; given = g }))
                (or_true (not (is_empty ids))) (append_assoc given (id ∷ []) ids)),
      new',
    )

-- With a page read for every page's worth of the queue, the queue is empty and given.
drain_pages-serving :
    (page left : ℕ) (t : Transport) (queue given : List Text)
    → length queue ≤ left * suc page
    → NoneTwice queue
    → IsNew t queue
    → (drain_pages (serving (suc page)) left t (record { queue = queue; given = given })).1
      ≡ record { queue = []; given = given ++ queue }
unfolding drain_pages
drain_pages-serving page zero t [] given few n new = rw (append-nil given) refl
drain_pages-serving page zero t (id ∷ queue) given few n new = absurd (omega arith)
drain_pages-serving page (suc left) t [] given few n new = rw (append-nil given) refl
drain_pages-serving page (suc left) t (id ∷ queue) given few n new =
    let ids = take page queue in
    let rest = drop page queue in
    let whole : (id ∷ ids) ++ rest ≡ id ∷ queue = ap (λ q. id ∷ q) (take-append-drop page queue) in
    let n' = subst NoneTwice (sym whole) n in
    let new_ids = subst (IsNew t) (sym whole) new in
    let (t', e, new') = deliver_page-serving (suc page) (id ∷ ids) rest false t given n' new_ids in
    let ih =
      drain_pages-serving page left t' rest (given ++ (id ∷ ids))
        (omega (arith, length-drop page queue, few)) (NoneTwice-rest (id ∷ ids) rest n') new' in
    let page_done =
      subst
        (λ (q : List Text).
          deliver_page (serving (suc page)) (id ∷ ids) false t (record { queue = q; given = given })
          ≡ (true, t', record { queue = rest; given = given ++ (id ∷ ids) }))
        whole e in
    ap
      (λ r.
        (after_page (serving (suc page)) (λ u w. drain_pages (serving (suc page)) left u w) r).1)
      page_done
    ∙ ih
    ∙ ap (λ (g : List Text). record { queue = []; given = g })
        (append_assoc given (id ∷ ids) rest ∙ ap (λ q. given ++ q) whole)

-- A server serves its queue in pages of a positive size, and holds at most a hundred pages, in which no
-- envelope stands twice and none is in flight or remembered. While no call fails, `drainBacklog` leaves
-- the queue empty, and has given the application every envelope once, in the order of the queue.
pub drain_backlog-serving :
    (page : ℕ) (t : Transport) (queue : List Text)
    → 0 < page
    → length queue ≤ 100 * page
    → NoneTwice queue
    → IsNew t queue
    → (drain_backlog (serving page) t (record { queue = queue; given = [] })).1
      ≡ record { queue = []; given = queue }
unfolding drain_backlog
drain_backlog-serving zero t queue positive few n new = absurd (omega arith)
drain_backlog-serving (suc page) t queue positive few n new =
    drain_pages-serving page 100 t queue [] few n new
