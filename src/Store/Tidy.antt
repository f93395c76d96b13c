-- ===== src/Store/Tidy.antt =====
-- web/src/lib/store/chat.ts, `setReaction`: the accounts under each emoji, after any reactions.
use shatters.Common.{
  ◌≡◌, refl, ap, ◌∙◌, sym, subst, Bool, true, false, not, ◌&&◌, ◌||◌, Option, none, some, List, [],
  ◌∷◌, Text, if◌then◌else◌, text_eq, text_eq_iff, arith, lookup, lookup-assign, lookup-remove_key,
  contains, contains-append_one, unique_from, contains-unique_from, unique_from-NoneTwice,
  NoneTwice, NoneTwice-append_one, sort, contains-sort, IsAscending, sort-IsAscending, Bool-cases,
  inl, inr,
}
use shatters.Store.Chat.{or_empty}
use shatters.Store.Patches.{add_account, delete_account, toggle, store_reacted, react}

contains-delete_account :
    (a k : Text) (xs : List Text)
    → contains (delete_account a xs) k ≡ (not (text_eq a k) && contains xs k)
unfolding contains delete_account
contains-delete_account a k [] = ground arith
contains-delete_account a k (x ∷ xs) =
    ground
      (arith, contains-delete_account a k xs, text_eq_iff x a, text_eq_iff x k, text_eq_iff a k)

delete_account-NoneTwice :
    (a : Text) (xs : List Text) → NoneTwice xs → NoneTwice (delete_account a xs)
unfolding delete_account
delete_account-NoneTwice a [] h = tt
delete_account-NoneTwice a (x ∷ xs) h = elim (Bool-cases (text_eq x a)) [
  | inl e ↦ rw e (delete_account-NoneTwice a xs h.1)
  | inr e ↦
      rw e (contains-delete_account a x xs ∙ ground (arith, h.0), delete_account-NoneTwice a xs h.1)
]

held_already :
    (a k : Text) (xs : List Text)
    → contains xs a ≡ true
    → contains xs k ≡ (if text_eq a k then true else contains xs k)
held_already a k xs old = elim (Bool-cases (text_eq a k)) [
  | inr e ↦ rw e refl
  | inl e ↦ rw e (subst (λ x. contains xs x ≡ true) ((text_eq_iff a k).0 e) old)
]

contains-toggle :
    (active : Bool) (a k : Text) (xs : List Text)
    → contains (toggle active a xs) k ≡ (if text_eq a k then active else contains xs k)
unfolding add_account
contains-toggle true a k xs = elim (Bool-cases (contains xs a)) [
  | inl old ↦ rw old (held_already a k xs old)
  | inr new ↦ rw new (contains-append_one k a xs ∙ ground arith)
]
contains-toggle false a k xs = contains-delete_account a k xs ∙ ground arith

toggle-NoneTwice :
    (active : Bool) (a : Text) (xs : List Text) → NoneTwice xs → NoneTwice (toggle active a xs)
unfolding add_account
toggle-NoneTwice true a xs h = elim (Bool-cases (contains xs a)) [
  | inl old ↦ rw old h
  | inr new ↦ rw new (NoneTwice-append_one a xs new h)
]
toggle-NoneTwice false a xs h = delete_account-NoneTwice a xs h

-- Whether the account stands under the emoji.
abbrev pub has_reacted : Text → Text → List (Text × List Text) → Bool
has_reacted emoji account reactions = contains (or_empty (lookup emoji reactions)) account

choice-or_empty :
    (b : Bool) (x y : Option (List Text))
    → or_empty (if b then x else y) ≡ (if b then or_empty x else or_empty y)
choice-or_empty true x y = refl
choice-or_empty false x y = refl

sort-nothing : sort [] ≡ []
unfolding sort
sort-nothing = refl

or_empty-store_reacted :
    (emoji other : Text) (accounts : List Text) (reactions : List (Text × List Text))
    → or_empty (lookup other (store_reacted emoji accounts reactions))
      ≡ (if text_eq emoji other then sort accounts else or_empty (lookup other reactions))
unfolding store_reacted
or_empty-store_reacted emoji other [] reactions =
    ap or_empty (lookup-remove_key other emoji reactions)
    ∙ choice-or_empty (text_eq emoji other) none (lookup other reactions)
    ∙ ap (λ xs. if text_eq emoji other then xs else or_empty (lookup other reactions))
        (sym sort-nothing)
or_empty-store_reacted emoji other (a ∷ accounts) reactions =
    ap or_empty (lookup-assign other emoji (sort (a ∷ accounts)) reactions)
    ∙ choice-or_empty (text_eq emoji other) (some (sort (a ∷ accounts))) (lookup other reactions)

-- The accounts of each emoji are in order without doubles.
abbrev pub IsTidy : List (Text × List Text) → Type 0
IsTidy reactions = (emoji : Text) → IsAscending (or_empty (lookup emoji reactions))

-- The accounts before they are sorted.
abbrev toggled : Text → Text → Bool → List (Text × List Text) → List Text
toggled emoji account active reactions =
    toggle active account (unique_from [] (or_empty (lookup emoji reactions)))

toggled-NoneTwice :
    (emoji account : Text) (active : Bool) (reactions : List (Text × List Text))
    → NoneTwice (toggled emoji account active reactions)
toggled-NoneTwice emoji account active reactions =
    toggle-NoneTwice active account (unique_from [] (or_empty (lookup emoji reactions)))
      (unique_from-NoneTwice [] (or_empty (lookup emoji reactions)) tt)

react-IsTidy :
    (emoji account : Text) (active : Bool) (reactions : List (Text × List Text))
    → IsTidy reactions
    → IsTidy (react emoji account active reactions)
unfolding react
react-IsTidy emoji account active reactions tidy other =
    subst IsAscending
      (sym (or_empty-store_reacted emoji other (toggled emoji account active reactions) reactions))
      (either (text_eq emoji other))
  where
    either :
        (b : Bool)
        → IsAscending (
            if b
            then sort (toggled emoji account active reactions)
            else or_empty (lookup other reactions))
    either true =
        sort-IsAscending (toggled emoji account active reactions)
          (toggled-NoneTwice emoji account active reactions)
    either false = tidy other

nothing_before : (a : Text) (xs : List Text) → (contains [] a || contains xs a) ≡ contains xs a
unfolding contains
nothing_before a xs = refl

contains-toggled :
    (emoji account : Text) (active : Bool) (a : Text) (reactions : List (Text × List Text))
    → contains (sort (toggled emoji account active reactions)) a
      ≡ (if text_eq account a then active else has_reacted emoji a reactions)
contains-toggled emoji account active a reactions =
    let before = or_empty (lookup emoji reactions) in
    contains-sort a (toggled emoji account active reactions)
    ∙ contains-toggle active account a (unique_from [] before)
    ∙ ap (λ b. if text_eq account a then active else b)
        (contains-unique_from a [] before ∙ nothing_before a before)

has_reacted-react :
    (emoji account : Text) (active : Bool) (e a : Text) (reactions : List (Text × List Text))
    → has_reacted e a (react emoji account active reactions)
      ≡ (if text_eq emoji e && text_eq account a then active else has_reacted e a reactions)
unfolding react
has_reacted-react emoji account active e a reactions =
    ap (λ xs. contains xs a)
      (or_empty-store_reacted emoji e (toggled emoji account active reactions) reactions)
    ∙ (elim (Bool-cases (text_eq emoji e)) [
      | inr other ↦ rw other refl
      | inl same ↦ rw same (
          contains-toggled emoji account active a reactions
          ∙ ap (λ t. if text_eq account a then active else has_reacted t a reactions)
              ((text_eq_iff emoji e).0 same))
    ])

-- One reaction to a message: the emoji, the account, and whether it is set or retracted.
pub record Reaction : Type 0 where
  pub emoji : Text
  pub account : Text
  pub active : Bool

abbrev pub react_all : List Reaction → List (Text × List Text) → List (Text × List Text)
react_all [] reactions = reactions
react_all (r ∷ rs) reactions = react_all rs (react r.emoji r.account r.active reactions)

-- What the latest reaction of the account with the emoji says, or what held before.
abbrev pub latest : List Reaction → Text → Text → Bool → Bool
latest [] emoji account before = before
latest (r ∷ rs) emoji account before =
    latest rs emoji account
      (if text_eq r.emoji emoji && text_eq r.account account then r.active else before)

pub has_reacted-react_all :
    (rs : List Reaction) (e a : Text) (reactions : List (Text × List Text))
    → has_reacted e a (react_all rs reactions) ≡ latest rs e a (has_reacted e a reactions)
has_reacted-react_all [] e a reactions = refl
has_reacted-react_all (r ∷ rs) e a reactions =
    has_reacted-react_all rs e a (react r.emoji r.account r.active reactions)
    ∙ ap (λ b. latest rs e a b) (has_reacted-react r.emoji r.account r.active e a reactions)

pub react_all-IsTidy :
    (rs : List Reaction) (reactions : List (Text × List Text))
    → IsTidy reactions
    → IsTidy (react_all rs reactions)
react_all-IsTidy [] reactions tidy = tidy
react_all-IsTidy (r ∷ rs) reactions tidy =
    react_all-IsTidy rs (react r.emoji r.account r.active reactions)
      (react-IsTidy r.emoji r.account r.active reactions tidy)
