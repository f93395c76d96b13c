-- ===== src/Storage/Erasure.antt =====
-- web/src/lib/storage/vault.ts, `list` and `destroy`, over the keys of the store.
use shatters.Common.{
  ok, starts_with, ◌≡◌, refl, sym, ap, ap₂, ◌∙◌, Bool, true, false, not, ◌&&◌, ◌||◌, Option, none,
  some, List, [], ◌∷◌, ◌++◌, Text, length, drop, arith, All, text_eq, text_eq_refl, text_eq_iff,
  if◌then◌else◌, lookup, contains, contains-sort, is_some,
}
use shatters.Bytes.{Bytes}
use shatters.Storage.Adapter.{MemoryAdapter, get, delete_entry, matching, keys}
use shatters.Storage.Vault.{
  Vault, params_key, record_prefix, canary_name, record_key, exists, is_locked, lock, require_key,
  names_of, list, delete_all, destroy,
}
use shatters.Storage.Sealing.{get-delete_entry, record_key-eq}

contains-matching :
    (prefix j : Text) (entries : List (Text × Bytes))
    → contains (matching prefix entries) j ≡ (starts_with j prefix && is_some (lookup j entries))
unfolding contains matching lookup
contains-matching prefix j [] = ground arith
contains-matching prefix j ((k, v) ∷ entries) =
    ground (arith, contains-matching prefix j entries, text_eq_iff k j)

contains-keys :
    (prefix j : Text) (adapter : MemoryAdapter)
    → contains (keys prefix adapter) j ≡ (starts_with j prefix && is_some (get j adapter))
unfolding keys get
contains-keys prefix j adapter =
    contains-sort j (matching prefix adapter.entries) ∙ contains-matching prefix j adapter.entries

get-delete_all :
    (j : Text) (ks : List Text) (adapter : MemoryAdapter)
    → get j (delete_all ks adapter) ≡ (if contains ks j then none else get j adapter)
unfolding delete_all contains
get-delete_all j [] adapter = refl
get-delete_all j (k ∷ ks) adapter =
    ground (arith, get-delete_all j ks (delete_entry k adapter), get-delete_entry j k adapter)

starts_with-append : (prefix t : Text) → starts_with (prefix ++ t) prefix ≡ true
unfolding starts_with
starts_with-append [] t = refl
starts_with-append (p ∷ prefix) t = ground (arith, starts_with-append prefix t)

-- What stands under a key once the vault is destroyed.
get-destroy :
    (j : Text) (vault : Vault)
    → get j (destroy vault).adapter
      ≡ (if text_eq params_key j || starts_with j record_prefix then none else get j vault.adapter)
unfolding destroy lock
get-destroy j vault =
    rw
      (
        get-delete_entry j params_key (delete_all (keys record_prefix vault.adapter) vault.adapter),
        get-delete_all j (keys record_prefix vault.adapter) vault.adapter,
        contains-keys record_prefix j vault.adapter,
      )
      (erased (text_eq params_key j) (starts_with j record_prefix) (get j vault.adapter))
  where
    erased :
        (p s : Bool) (o : Option Bytes)
        → (if p then none else if s && is_some o then none else o) ≡ (if p || s then none else o)
    erased true s o = refl
    erased false true none = refl
    erased false true (some v) = refl
    erased false false o = refl

record_key-starts : (name : Text) → starts_with (record_key name) record_prefix ≡ true
unfolding record_key
record_key-starts name = starts_with-append record_prefix name

gone : (p : Bool) (o : Option Bytes) → (if p || true then none else o) ≡ none
gone true o = refl
gone false o = refl

-- `destroy`, of a locked vault too, leaves no parameters and no record under any name, so that no vault
-- exists any more, drops the key, and leaves what else is in the store.
pub destroy-erases :
    (vault : Vault)
    → (exists (destroy vault).adapter ≡ false)
      × (is_locked (destroy vault) ≡ true)
      × ((name : Text) → get (record_key name) (destroy vault).adapter ≡ none)
      × ((key : Text)
          → text_eq params_key key ≡ false
          → starts_with key record_prefix ≡ false
          → get key (destroy vault).adapter ≡ get key vault.adapter)
destroy-erases vault = (
  unfold exists in
      ap is_some (
        get-destroy params_key vault
        ∙ ap
            (λ b.
              if b || starts_with params_key record_prefix
              then none
              else get params_key vault.adapter)
            (text_eq_refl params_key)),
  unfold is_locked destroy lock in refl,
  λ name.
      get-destroy (record_key name) vault
      ∙ ap
          (λ b.
            if text_eq params_key (record_key name) || b
            then none
            else get (record_key name) vault.adapter)
          (record_key-starts name)
      ∙ gone (text_eq params_key (record_key name)) (get (record_key name) vault.adapter),
  λ key p s.
      get-destroy key vault ∙ ap₂ (λ a b. if a || b then none else get key vault.adapter) p s,
)

starts_with-split :
    (prefix k : Text) → starts_with k prefix ≡ true → k ≡ prefix ++ drop (length prefix) k
unfolding starts_with
starts_with-split [] k h = refl
starts_with-split (p ∷ prefix) [] h = cc
starts_with-split (p ∷ prefix) (u ∷ k) h =
    let same : p ≡ u = ground (arith, h) in
    ap₂ (λ x t. x ∷ t) (sym same) (starts_with-split prefix k (ground (arith, h)))

record_key-split :
    (k : Text) → starts_with k record_prefix ≡ true → k ≡ record_key (drop (length record_prefix) k)
unfolding record_key
record_key-split k h = starts_with-split record_prefix k h

-- A key of a record is that of the name behind its prefix.
text_eq-record_key :
    (k name : Text)
    → starts_with k record_prefix ≡ true
    → text_eq k (record_key name) ≡ text_eq (drop (length record_prefix) k) name
text_eq-record_key k name h =
    let n = drop (length record_prefix) k in
    ap (λ t. text_eq t (record_key name)) (record_key-split k h) ∙ record_key-eq n name

contains-names_of :
    (ks : List Text) (name : Text)
    → All (λ k. starts_with k record_prefix ≡ true) ks
    → contains (names_of ks) name
      ≡ (not (text_eq name canary_name) && contains ks (record_key name))
unfolding names_of contains
contains-names_of [] name h = ground arith
contains-names_of (k ∷ ks) name h =
    let n = drop (length record_prefix) k in
    let ih = contains-names_of ks name h.1 in
    rw (text_eq-record_key k name h.0) (
      ground
        (arith, ih, text_eq_iff n canary_name, text_eq_iff n name, text_eq_iff name canary_name))

keys-start :
    (ks : List Text)
    → ((j : Text) → contains ks j ≡ true → starts_with j record_prefix ≡ true)
    → All (λ k. starts_with k record_prefix ≡ true) ks
unfolding contains
keys-start [] h = tt
keys-start (k ∷ ks) h =
    (h k (ground (arith, text_eq_refl k)), keys-start ks (λ j m. h j (ground (arith, m))))

starts_with-longer :
    (prefix more k : Text) → starts_with k (prefix ++ more) ≡ true → starts_with k prefix ≡ true
unfolding starts_with
starts_with-longer [] more k h = refl
starts_with-longer (p ∷ prefix) more [] h = cc
starts_with-longer (p ∷ prefix) more (u ∷ k) h = ground (arith, starts_with-longer prefix more k)

starts_with-both :
    (p prefix name : Text) → starts_with (p ++ name) (p ++ prefix) ≡ starts_with name prefix
unfolding starts_with
starts_with-both [] prefix name = refl
starts_with-both (u ∷ p) prefix name = ground (arith, starts_with-both p prefix name)

starts_with-record_key :
    (prefix name : Text)
    → starts_with (record_key name) (record_prefix ++ prefix) ≡ starts_with name prefix
unfolding record_key
starts_with-record_key prefix name = starts_with-both record_prefix prefix name

-- An unlocked vault's `list` names exactly the records, other than the canary, that are stored and whose
-- names start with the prefix.
pub list-contains :
    (prefix : Text) (key : Bytes) (vault : Vault)
    → vault.key ≡ some key
    → (names : List Text) × (list prefix vault ≡ ok names)
      × ((name : Text)
          → contains names name ≡ (
              not (text_eq name canary_name)
              && (starts_with name prefix && is_some (get (record_key name) vault.adapter))))
unfolding list require_key
list-contains prefix key vault unlocked =
    let ks = keys (record_prefix ++ prefix) vault.adapter in
    let held : (j : Text)
        → contains ks j
          ≡ (starts_with j (record_prefix ++ prefix) && is_some (get j vault.adapter)) =
      λ j. contains-keys (record_prefix ++ prefix) j vault.adapter in
    let start = keys-start ks (λ j m. starts_with-longer record_prefix prefix j (
      both (starts_with j (record_prefix ++ prefix)) (is_some (get j vault.adapter))
        (sym (held j) ∙ m))) in
    (
      names_of ks,
      simp unlocked refl,
      λ name.
          contains-names_of ks name start
          ∙ ap (λ b. not (text_eq name canary_name) && b)
              (held (record_key name)
                ∙ ap (λ b. b && is_some (get (record_key name) vault.adapter))
                    (starts_with-record_key prefix name)),
    )
  where
    both : (a b : Bool) → (a && b) ≡ true → a ≡ true
    both true b h = refl
    both false b h = h
