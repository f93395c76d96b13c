-- ===== src/Group/Stamps.antt =====
-- web/src/lib/group/state.ts, `wins`: a strict order on stamps, which are a time and an author. With
-- it a register keeps the latest write, whatever the order of the writes.
use shatters.Common.{
  ℕ, ◌≡◌, ◌≤◌, inl, inr, true, false, Option, Text, arith, Bool-cases, text_lt_irrefl,
  text_lt_trans, text_lt_antisymm,
}
use shatters.Group.{wins, or_empty}

pub wins_irrefl : (t : ℕ) (b : Option Text) → wins t b t b ≡ false
unfolding wins
wins_irrefl t b = ground (arith, text_lt_irrefl (or_empty b))

pub wins_trans :
    (t₁ t₂ t₃ : ℕ) (b₁ b₂ b₃ : Option Text)
    → wins t₁ b₁ t₂ b₂ ≡ true
    → wins t₂ b₂ t₃ b₃ ≡ true
    → wins t₁ b₁ t₃ b₃ ≡ true
unfolding wins
wins_trans t₁ t₂ t₃ b₁ b₂ b₃ h k =
    ground (arith, text_lt_trans (or_empty b₃) (or_empty b₂) (or_empty b₁))

-- Two stamps, neither of which wins over the other, are the same time and author.
pub wins_tie :
    (t₁ t₂ : ℕ) (b₁ b₂ : Option Text)
    → wins t₁ b₁ t₂ b₂ ≡ false
    → wins t₂ b₂ t₁ b₁ ≡ false
    → (t₁ ≡ t₂) × (or_empty b₁ ≡ or_empty b₂)
unfolding wins
wins_tie t₁ t₂ b₁ b₂ h k =
    (ground arith, ground (arith, text_lt_antisymm (or_empty b₁) (or_empty b₂)))

pub wins_asymm :
    (t₁ t₂ : ℕ) (b₁ b₂ : Option Text) → wins t₁ b₁ t₂ b₂ ≡ true → wins t₂ b₂ t₁ b₁ ≡ false
wins_asymm t₁ t₂ b₁ b₂ h = elim (Bool-cases (wins t₂ b₂ t₁ b₁)) [
  | inl back ↦
      let loop = wins_trans t₁ t₂ t₁ b₁ b₂ b₁ h back in
      let none_wins = wins_irrefl t₁ b₁ in absurd (ground arith)
  | inr e ↦ e
]

pub wins-le :
    (t u : ℕ) (b c : Option Text) → (wins t b u c ≡ true → u ≤ t) × (wins t b u c ≡ false → t ≤ u)
unfolding wins
wins-le t u b c = (λ h. ground arith, λ h. ground arith)
