-- ===== src/Common/Sorting.antt =====
-- `ids.sort()`, by code units, as insertion.
use mathlib.Core.Path.{◌≡◌, refl, sym, subst, ap₂, ◌∙◌}
use mathlib.Core.Logic.{inl, inr}
use mathlib.Core.Bool.{Bool, true, false, ◌||◌}
use mathlib.Core.List.{List, [], ◌∷◌}
use native.Mathlib.Omega.{arith}
use shatters.Common.Tests.{if◌then◌else◌, Bool-cases}
use shatters.Common.Strings.{
  Text, text_eq, text_lt, text_eq_iff, text_eq_refl, text_lt_irrefl, text_lt_trans,
  text_lt_antisymm,
}
use shatters.Common.Lists.{All}
use shatters.Common.Sets.{contains, NoneTwice}

unfoldable pub insert_sorted : Text → List Text → List Text
insert_sorted a [] = a ∷ []
insert_sorted a (b ∷ rest) = if text_lt b a then b ∷ insert_sorted a rest else a ∷ b ∷ rest

unfoldable pub sort : List Text → List Text
sort [] = []
sort (a ∷ rest) = insert_sorted a (sort rest)

-- In order, and no id twice.
abbrev pub IsAscending : List Text → Type 0
IsAscending [] = Unit
IsAscending (x ∷ xs) = All (λ y. text_lt x y ≡ true) xs × IsAscending xs

pub contains-insert_sorted :
    (k a : Text) (xs : List Text) → contains (insert_sorted a xs) k ≡ (text_eq a k || contains xs k)
unfolding contains insert_sorted
contains-insert_sorted k a [] = refl
contains-insert_sorted k a (b ∷ xs) = ground (arith, contains-insert_sorted k a xs)

pub contains-sort : (k : Text) (xs : List Text) → contains (sort xs) k ≡ contains xs k
unfolding contains sort
contains-sort k [] = refl
contains-sort k (x ∷ xs) = ground (arith, contains-insert_sorted k x (sort xs), contains-sort k xs)

above_trans :
    (a b : Text) (xs : List Text)
    → text_lt a b ≡ true
    → All (λ y. text_lt b y ≡ true) xs
    → All (λ y. text_lt a y ≡ true) xs
above_trans a b [] h k = tt
above_trans a b (y ∷ xs) h k = (text_lt_trans a b y h k.0, above_trans a b xs h k.1)

insert_sorted_above :
    (b a : Text) (xs : List Text)
    → text_lt b a ≡ true
    → All (λ y. text_lt b y ≡ true) xs
    → All (λ y. text_lt b y ≡ true) (insert_sorted a xs)
unfolding insert_sorted
insert_sorted_above b a [] h k = (h, tt)
insert_sorted_above b a (y ∷ xs) h k = ground (arith, insert_sorted_above b a xs h k.1)

lt_of_not_lt : (a b : Text) → text_lt b a ≡ false → text_eq b a ≡ false → text_lt a b ≡ true
lt_of_not_lt a b h n = elim (Bool-cases (text_lt a b)) [
  | inl e ↦ e
  | inr e ↦ let same = (text_eq_iff b a).1 (text_lt_antisymm b a h e) in absurd (ground arith)
]

insert_sorted-IsAscending :
    (a : Text) (xs : List Text)
    → contains xs a ≡ false
    → IsAscending xs
    → IsAscending (insert_sorted a xs)
unfolding contains insert_sorted
insert_sorted-IsAscending a [] n s = (tt, tt)
insert_sorted-IsAscending a (b ∷ xs) n s = elim (Bool-cases (text_lt b a)) [
  | inl below ↦
      rw below
        (insert_sorted_above b a xs below s.0, insert_sorted-IsAscending a xs (ground arith) s.1)
  | inr e ↦
      let first = lt_of_not_lt a b e (ground arith) in
      rw e ((first, above_trans a b xs first s.0), s)
]

pub sort-IsAscending : (xs : List Text) → NoneTwice xs → IsAscending (sort xs)
unfolding sort
sort-IsAscending [] n = tt
sort-IsAscending (x ∷ xs) n =
    insert_sorted-IsAscending x (sort xs) (contains-sort x xs ∙ n.0) (sort-IsAscending xs n.1)

contains_below :
    (a : Text) (xs : List Text) → All (λ y. text_lt a y ≡ true) xs → contains xs a ≡ false
unfolding contains
contains_below a [] h = refl
contains_below a (x ∷ xs) h =
    ground (arith, contains_below a xs h.1, text_eq_iff x a, text_lt_irrefl a)

contains_above :
    (a b : Text) (xs : List Text)
    → All (λ y. text_lt a y ≡ true) xs
    → contains xs b ≡ true
    → text_lt a b ≡ true
unfolding contains
contains_above a b [] h k = cc
contains_above a b (x ∷ xs) h k = ground (arith, contains_above a b xs h.1, text_eq_iff x b)

-- The heads of ascending lists of the same ids are one id.
head_unique :
    (x y : Text) (xs ys : List Text)
    → IsAscending (x ∷ xs)
    → IsAscending (y ∷ ys)
    → contains (x ∷ xs) y ≡ true
    → contains (y ∷ ys) x ≡ true
    → x ≡ y
unfolding contains
head_unique x y xs ys p q h k = elim (Bool-cases (text_eq x y)) [
  | inl e ↦ (text_eq_iff x y).0 e
  | inr n ↦
      let other : text_eq y x ≡ false = ground (arith, text_eq_iff x y, text_eq_iff y x) in
      let up = contains_above x y xs p.0 (ground arith) in
      let down = contains_above y x ys q.0 (ground arith) in
      let loop = text_lt_trans x y x up down in
      let never = text_lt_irrefl x in absurd (ground arith)
]

tail_same :
    (x : Text) (xs ys : List Text)
    → IsAscending (x ∷ xs)
    → IsAscending (x ∷ ys)
    → ((k : Text) → contains (x ∷ xs) k ≡ contains (x ∷ ys) k)
    → (k : Text) → contains xs k ≡ contains ys k
unfolding contains
tail_same x xs ys p q same k =
    ground (arith, same k, text_eq_iff x k, contains_below x xs p.0, contains_below x ys q.0)

-- Ascending lists of the same ids are one list.
pub IsAscending-unique :
    (xs ys : List Text)
    → IsAscending xs
    → IsAscending ys
    → ((k : Text) → contains xs k ≡ contains ys k)
    → xs ≡ ys
IsAscending-unique [] [] p q same = refl
IsAscending-unique [] (y ∷ ys) p q same =
    absurd (unfold contains in ground (arith, same y, text_eq_refl y))
IsAscending-unique (x ∷ xs) [] p q same =
    absurd (unfold contains in ground (arith, same x, text_eq_refl x))
IsAscending-unique (x ∷ xs) (y ∷ ys) p q same =
    let hit_y : contains (y ∷ ys) y ≡ true = unfold contains in ground (arith, text_eq_refl y) in
    let hit_x : contains (x ∷ xs) x ≡ true = unfold contains in ground (arith, text_eq_refl x) in
    let e = head_unique x y xs ys p q (same y ∙ hit_y) (sym (same x) ∙ hit_x) in
    let q' = subst (λ z. IsAscending (z ∷ ys)) (sym e) q in
    let same' : (k : Text) → contains (x ∷ xs) k ≡ contains (x ∷ ys) k =
      subst (λ z. (k : Text) → contains (x ∷ xs) k ≡ contains (z ∷ ys) k) (sym e) same in
    ap₂ (λ z zs. z ∷ zs) e (IsAscending-unique xs ys p.1 q.1 (tail_same x xs ys p q' same'))

-- `[...xs].sort(compare)`, which is stable: `before x y` where `x` may stay in front of `y`.
module _ {ℓ} {A : Type ℓ} (before : A → A → Bool) where
  unfoldable pub insert_by : A → List A → List A
  insert_by x [] = x ∷ []
  insert_by x (y ∷ ys) = if before x y then x ∷ y ∷ ys else y ∷ insert_by x ys

  unfoldable pub sort_by : List A → List A
  sort_by [] = []
  sort_by (x ∷ xs) = insert_by x (sort_by xs)
