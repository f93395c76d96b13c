-- ===== src/Common/Sets.antt =====
-- `Set<string>`: its ids in insertion order.
use Prim.Native.Nat.{◌≤◌, ◌<◌}
use mathlib.Core.Path.{◌≡◌, refl}
use mathlib.Core.Logic.{inl, inr}
use mathlib.Core.Bool.{Bool, true, false, ◌||◌}
use mathlib.Core.List.{List, [], ◌∷◌, ◌++◌}
use native.Mathlib.Omega.{arith}
use shatters.Common.Tests.{if◌then◌else◌, Bool-cases}
use shatters.Common.Strings.{Text, text_eq, text_eq_iff, text_eq_refl}
use shatters.Common.Lists.{length}

unfoldable pub contains : List Text → Text → Bool
contains [] a = false
contains (x ∷ xs) a = text_eq x a || contains xs a

-- `new Set(ids)`, in insertion order: an id that is there already is not added again.
unfoldable pub unique_from : List Text → List Text → List Text
unique_from seen [] = seen
unique_from seen (a ∷ rest) = unique_from (if contains seen a then seen else seen ++ a ∷ []) rest

pub contains-append_one :
    (k a : Text) (seen : List Text) → contains (seen ++ a ∷ []) k ≡ (contains seen k || text_eq a k)
unfolding contains
contains-append_one k a [] = ground arith
contains-append_one k a (x ∷ seen) = ground (arith, contains-append_one k a seen)

pub contains-unique_from :
    (k : Text) (seen ids : List Text)
    → contains (unique_from seen ids) k ≡ (contains seen k || contains ids k)
unfolding unique_from contains
contains-unique_from k seen [] = ground arith
contains-unique_from k seen (a ∷ ids) = elim (Bool-cases (contains seen a)) [
  | inl old ↦ rw old (ground (arith, contains-unique_from k seen ids, text_eq_iff a k))
  | inr new ↦
      rw new
        (ground (arith, contains-unique_from k (seen ++ a ∷ []) ids, contains-append_one k a seen))
]

-- No id stands twice.
abbrev pub NoneTwice : List Text → Type 0
NoneTwice [] = Unit
NoneTwice (x ∷ xs) = (contains xs x ≡ false) × NoneTwice xs

pub NoneTwice-append_one :
    (a : Text) (xs : List Text) → contains xs a ≡ false → NoneTwice xs → NoneTwice (xs ++ a ∷ [])
unfolding contains
NoneTwice-append_one a [] h n = (refl, tt)
NoneTwice-append_one a (x ∷ xs) h n =
    ground (
      arith,
      contains-append_one x a xs,
      NoneTwice-append_one a xs,
      text_eq_iff a x,
      text_eq_iff x a,
    )

pub unique_from-NoneTwice :
    (seen ids : List Text) → NoneTwice seen → NoneTwice (unique_from seen ids)
unfolding unique_from
unique_from-NoneTwice seen [] n = n
unique_from-NoneTwice seen (a ∷ ids) n = elim (Bool-cases (contains seen a)) [
  | inl old ↦ rw old (unique_from-NoneTwice seen ids n)
  | inr new ↦
      rw new (unique_from-NoneTwice (seen ++ a ∷ []) ids (NoneTwice-append_one a seen new n))
]

without : Text → List Text → List Text
without a [] = []
without a (x ∷ xs) = if text_eq x a then without a xs else x ∷ without a xs

contains-without :
    (a k : Text) (xs : List Text)
    → contains xs k ≡ true
    → text_eq a k ≡ false
    → contains (without a xs) k ≡ true
unfolding contains without
contains-without a k [] h n = cc
contains-without a k (x ∷ xs) h n =
    ground (arith, contains-without a k xs, text_eq_iff x a, text_eq_iff x k, text_eq_iff a k)

length-without :
    (a : Text) (xs : List Text)
    → (length (without a xs) ≤ length xs)
      × (contains xs a ≡ true → length (without a xs) < length xs)
unfolding contains without
length-without a [] = (omega arith, λ h. cc)
length-without a (x ∷ xs) = let ih = length-without a xs in (ground arith, λ h. ground arith)

-- A list without doubles is no longer than a list that holds its ids.
pub length-le_of_contains :
    (us xs : List Text)
    → NoneTwice us
    → ((k : Text) → contains us k ≡ true → contains xs k ≡ true)
    → length us ≤ length xs
length-le_of_contains [] xs n sub = omega arith
length-le_of_contains (u ∷ us) xs n sub =
    let here : contains xs u ≡ true = sub u (unfold contains in ground (arith, text_eq_refl u)) in
    omega (
      arith,
      (length-without u xs).1 here,
      length-le_of_contains us (without u xs) n.1 (λ k h.
          let other : text_eq u k ≡ false = ground (arith, text_eq_iff u k, n.0) in
          contains-without u k xs (sub k (unfold contains in ground (arith, h))) other),
    )
