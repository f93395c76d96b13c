-- ===== src/Transport/Ids.antt =====
-- web/src/lib/transport/socket.ts: the sets of ids under `add`, `delete` and the forgetting of the
-- oldest.
use shatters.Common.{
  ◌&&◌, ◌||◌, not, if◌then◌else◌, refl, ◌≤◌, ◌≡◌, ◌⊎◌, inl, inr, true, false, List, [], ◌∷◌, Text,
  length, contains, contains-append_one, NoneTwice, NoneTwice-append_one, text_eq, text_eq_iff,
  Bool-cases, arith,
}
use shatters.Transport.{add, delete, forget_oldest}

pub contains-delete :
    (id k : Text) (ids : List Text)
    → contains (delete id ids) k ≡ true
    → (contains ids k ≡ true) × (text_eq id k ≡ false)
unfolding contains delete
contains-delete id k [] h = cc
contains-delete id k (x ∷ xs) h =
    ground (arith, contains-delete id k xs, text_eq_iff x id, text_eq_iff x k, text_eq_iff id k)

pub not_contains-delete :
    (id k : Text) (ids : List Text) → contains ids k ≡ false → contains (delete id ids) k ≡ false
unfolding contains delete
not_contains-delete id k [] h = h
not_contains-delete id k (x ∷ xs) h = ground (arith, not_contains-delete id k xs)

pub contains-delete_kept :
    (id k : Text) (ids : List Text)
    → contains ids k ≡ true
    → text_eq id k ≡ false
    → contains (delete id ids) k ≡ true
unfolding contains delete
contains-delete_kept id k [] h n = cc
contains-delete_kept id k (x ∷ xs) h n =
    ground
      (arith, contains-delete_kept id k xs, text_eq_iff x id, text_eq_iff x k, text_eq_iff id k)

pub delete-NoneTwice : (id : Text) (ids : List Text) → NoneTwice ids → NoneTwice (delete id ids)
unfolding delete
delete-NoneTwice id [] h = tt
delete-NoneTwice id (x ∷ xs) h =
    ground (arith, not_contains-delete id x xs h.0, delete-NoneTwice id xs h.1)

pub add-NoneTwice : (id : Text) (ids : List Text) → NoneTwice ids → NoneTwice (add id ids)
unfolding add
add-NoneTwice id ids h = elim (Bool-cases (contains ids id)) [
  | inl old ↦ rw old h
  | inr new ↦ rw new (NoneTwice-append_one id ids new h)
]

pub contains-add :
    (id k : Text) (ids : List Text)
    → contains (add id ids) k ≡ true
    → (contains ids k ≡ true) ⊎ (id ≡ k)
unfolding add
contains-add id k ids h = ground (arith, contains-append_one k id ids, text_eq_iff id k)

pub forget_oldest-length : (ids : List Text) → length (forget_oldest ids) ≤ 1000
unfolding forget_oldest
forget_oldest-length [] = omega arith
forget_oldest-length (x ∷ xs) = ground (arith, forget_oldest-length xs)

pub forget_oldest-NoneTwice : (ids : List Text) → NoneTwice ids → NoneTwice (forget_oldest ids)
unfolding forget_oldest
forget_oldest-NoneTwice [] h = tt
forget_oldest-NoneTwice (x ∷ xs) h = ground (arith, forget_oldest-NoneTwice xs h.1)

pub contains-forget_oldest :
    (k : Text) (ids : List Text) → contains (forget_oldest ids) k ≡ true → contains ids k ≡ true
unfolding forget_oldest contains
contains-forget_oldest k [] h = h
contains-forget_oldest k (x ∷ xs) h = ground (arith, contains-forget_oldest k xs)

-- The deliveries whose handler runs, without one of this id.
abbrev pub one_less : Text → List Text → List Text
one_less id [] = []
one_less id (x ∷ xs) = if text_eq x id then xs else x ∷ one_less id xs

pub contains-one_less :
    (id k : Text) (ids : List Text)
    → NoneTwice ids
    → contains (one_less id ids) k ≡ (contains ids k && not (text_eq id k))
unfolding contains
contains-one_less id k [] h = refl
contains-one_less id k (x ∷ xs) h =
    ground (
      arith,
      contains-one_less id k xs h.1,
      text_eq_iff x id,
      text_eq_iff x k,
      text_eq_iff id k,
      h.0,
    )

pub one_less-NoneTwice : (id : Text) (ids : List Text) → NoneTwice ids → NoneTwice (one_less id ids)
one_less-NoneTwice id [] h = tt
one_less-NoneTwice id (x ∷ xs) h =
    ground (arith, contains-one_less id x xs h.1, one_less-NoneTwice id xs h.1, h.0)

pub contains-delete_eq :
    (id k : Text) (ids : List Text)
    → contains (delete id ids) k ≡ (contains ids k && not (text_eq id k))
contains-delete_eq id k ids =
    ground
      (arith, contains-delete id k ids, not_contains-delete id k ids, contains-delete_kept id k ids)

pub contains-add_eq :
    (id k : Text) (ids : List Text) → contains (add id ids) k ≡ (text_eq id k || contains ids k)
unfolding add
contains-add_eq id k ids = ground (arith, contains-append_one k id ids, text_eq_iff id k)
