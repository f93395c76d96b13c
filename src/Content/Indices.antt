-- ===== src/Content/Indices.antt =====
-- Counting the indices below a bound that a test holds of, for the parts of an attachment.
use shatters.Common.{
  ℕ, zero, suc, ◌≤◌, ◌<◌, ◌≡◌, ◌≢◌, refl, inl, inr, Bool, true, false, ◌&&◌, some, [], ◌∷◌, length,
  ◌==◌, if◌then◌else◌, sym, subst, arith, ==_iff, Bool-cases, is_some,
}
use shatters.Bytes.{Bytes}
use shatters.Content.Chunks.{Parts, get_part, set_part}

-- How many of the indices below `n` the test holds of.
abbrev pub count_below : ℕ → (ℕ → Bool) → ℕ
count_below zero f = 0
count_below (suc n) f = if f n then suc (count_below n f) else count_below n f

-- Whether the test holds of every index below `n`.
abbrev pub all_below : ℕ → (ℕ → Bool) → Bool
all_below zero f = true
all_below (suc n) f = f n && all_below n f

count_below-le : (n : ℕ) (f : ℕ → Bool) → count_below n f ≤ n
count_below-le zero f = omega arith
count_below-le (suc n) f = ground (arith, count_below-le n f)

pub count_below-all_below : (n : ℕ) (f : ℕ → Bool) → (count_below n f == n) ≡ all_below n f
count_below-all_below zero f = refl
count_below-all_below (suc n) f = elim (Bool-cases (f n)) [
  | inl passes ↦ rw passes (ground (arith, count_below-all_below n f))
  | inr fails ↦ rw fails (ground (arith, count_below-le n f))
]

pub all_below-elim : (n : ℕ) (f : ℕ → Bool) → all_below n f ≡ true → (j : ℕ) → j < n → f j ≡ true
all_below-elim zero f h j below = absurd (omega arith)
all_below-elim (suc n) f h j below = elim (Bool-cases (j == n)) [
  | inl here ↦ subst (λ k. f k ≡ true) (sym ((==_iff j n).0 here)) (ground (arith, h))
  | inr other ↦ all_below-elim n f (ground (arith, h)) j (ground (arith, other))
]

pub all_below-intro : (n : ℕ) (f : ℕ → Bool) → ((j : ℕ) → j < n → f j ≡ true) → all_below n f ≡ true
all_below-intro zero f h = refl
all_below-intro (suc n) f h =
    ground (arith, h n, all_below-intro n f (λ j below. h j (omega arith)))

-- The same indices pass two tests that agree.
pub count_below-same :
    (n : ℕ) (f g : ℕ → Bool) → ((j : ℕ) → j < n → g j ≡ f j) → count_below n g ≡ count_below n f
count_below-same zero f g same = refl
count_below-same (suc n) f g same =
    rw (same n (omega arith), count_below-same n f g (λ j below. same j (omega arith))) refl

-- One more index passes.
pub count_below-one_more :
    (n i : ℕ) (f g : ℕ → Bool)
    → i < n
    → f i ≡ false
    → g i ≡ true
    → ((j : ℕ) → j ≢ i → g j ≡ f j)
    → count_below n g ≡ suc (count_below n f)
count_below-one_more zero i f g below absent there same = absurd (omega arith)
count_below-one_more (suc n) i f g below absent there same = elim (Bool-cases (n == i)) [
  | inl here ↦
      let e : n ≡ i = (==_iff n i).0 here in
      rw
        (
          subst (λ k. g k ≡ true) (sym e) there,
          subst (λ k. f k ≡ false) (sym e) absent,
          count_below-same n f g (λ j lower. same j (λ (q : j ≡ i). omega (arith, e))),
        )
        refl
  | inr other ↦
      let apart : n ≢ i = λ q. ground (arith, other) in
      rw (same n apart, count_below-one_more n i f g (omega (arith, apart)) absent there same)
        (ground arith)
]

pub get_part-set_part :
    (j i : ℕ) (part : Bytes) (parts : Parts)
    → get_part j (set_part i part parts) ≡ (if i == j then some part else get_part j parts)
unfolding get_part set_part
get_part-set_part j i part [] = refl
get_part-set_part j i part ((k, old) ∷ parts) = ground (arith, get_part-set_part j i part parts)

pub length-set_part :
    (i : ℕ) (part : Bytes) (parts : Parts)
    → length (set_part i part parts)
      ≡ (if is_some (get_part i parts) then length parts else suc (length parts))
unfolding get_part set_part
length-set_part i part [] = refl
length-set_part i part ((k, old) ∷ parts) = ground (arith, length-set_part i part parts)
