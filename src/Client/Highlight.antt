-- ===== src/Client/Highlight.antt =====
-- web/src/lib/client/search.ts, `highlightParts`: the loop ends, and its parts make up the body.
use shatters.Common.{
  ℕ, zero, suc, ◌+◌, ◌-◌, ◌≤◌, ◌<◌, ◌≡◌, refl, sym, ap, ap₂, ◌∙◌, true, false, some, List, [], ◌∷◌,
  ◌++◌, Text, if◌then◌else◌, ltb, take, drop, length, length-drop, take-append-drop, drop-drop,
  append_assoc, append-nil, starts_with, arith, Bool-cases, Option-cases, inl, inr, is_empty,
}
use shatters.Client.{trim}
use shatters.Client.Search.{
  Unicode, Part, index_of, normalize, between, parts_from, highlight_parts,
}

-- The texts of the parts in a row.
abbrev pub texts : List Part → Text
texts [] = []
texts (part ∷ parts) = part.text ++ texts parts

starts_with-length :
    (text needle : Text) → starts_with text needle ≡ true → length needle ≤ length text
unfolding starts_with
starts_with-length text [] h = omega arith
starts_with-length [] (p ∷ ps) h = cc
starts_with-length (u ∷ us) (p ∷ ps) h = ground (arith, starts_with-length us ps)

-- A match lies within the text.
index_of-within :
    (needle text : Text) (i : ℕ) → index_of needle text ≡ some i → i + length needle ≤ length text
unfolding index_of
index_of-within needle [] i e = ground (arith, starts_with-length [] needle)
index_of-within needle (u ∷ us) i e = elim (Bool-cases (starts_with (u ∷ us) needle)) [
  | inl here ↦ ground (arith, starts_with-length (u ∷ us) needle here)
  | inr other ↦ elim (Option-cases (index_of needle us)) [
    | inl miss ↦ ground arith
    | inr (j, hit) ↦
        let within = index_of-within needle us j hit in
        let at : i ≡ suc j = ground arith in omega arith
  ]
]

texts-append : (xs ys : List Part) → texts (xs ++ ys) ≡ texts xs ++ texts ys
texts-append [] ys = refl
texts-append (x ∷ xs) ys =
    ap (λ t. x.text ++ t) (texts-append xs ys) ∙ sym (append_assoc x.text (texts xs) (texts ys))

drop-all : (n : ℕ) (xs : Text) → length xs ≤ n → drop n xs ≡ []
drop-all zero [] h = refl
drop-all (suc n) [] h = refl
drop-all zero (x ∷ xs) h = absurd (omega arith)
drop-all (suc n) (x ∷ xs) h = drop-all n xs (omega arith)

texts-between :
    (body : Text) (cursor distance : ℕ)
    → texts (between body cursor (cursor + distance)) ≡ take distance (drop cursor body)
texts-between body cursor distance = elim (Bool-cases (ltb cursor (cursor + distance))) [
  | inl some_left ↦ rw some_left (
      append-nil (take (cursor + distance - cursor) (drop cursor body))
      ∙ ap (λ (n : ℕ). take n (drop cursor body)) (omega arith))
  | inr none_left ↦ let nothing : distance ≡ 0 = ground arith in rw (none_left, nothing) refl
]

-- The rest of the body, or no part where there is none.
texts-rest :
    (body : Text) (cursor : ℕ)
    → texts (
        if ltb cursor (length body)
        then (record { text = drop cursor body; match = false }) ∷ []
        else [])
      ≡ drop cursor body
texts-rest body cursor = elim (Bool-cases (ltb cursor (length body))) [
  | inl some_left ↦ rw some_left (append-nil (drop cursor body))
  | inr none_left ↦ rw none_left (sym (drop-all cursor body (ground arith)))
]

-- What stands before a match, the match, and what stands behind it.
pieces :
    (distance size cursor : ℕ) (body : Text)
    → take distance (drop cursor body)
        ++ (take size (drop (cursor + distance) body) ++ drop (cursor + distance + size) body)
      ≡ drop cursor body
pieces distance size cursor body =
    ap (λ t. take distance (drop cursor body) ++ t)
      (ap (λ t. take size (drop (cursor + distance) body) ++ t)
          (sym (drop-drop size (cursor + distance) body))
        ∙ take-append-drop size (drop (cursor + distance) body)
        ∙ sym (drop-drop distance cursor body))
    ∙ take-append-drop distance (drop cursor body)

nonempty-length : (t : Text) → is_empty t ≡ false → 0 < length t
nonempty-length [] h = cc
nonempty-length (u ∷ us) h = omega arith

parts_from-texts :
    (fuel : ℕ) (needle haystack body : Text) (cursor : ℕ)
    → is_empty needle ≡ false
    → cursor ≤ length haystack
    → length haystack < fuel + cursor
    → (parts : List Part) × (parts_from fuel needle haystack body cursor ≡ some parts)
      × (texts parts ≡ drop cursor body)
unfolding parts_from
parts_from-texts zero needle haystack body cursor full inside enough = absurd (omega arith)
parts_from-texts (suc fuel) needle haystack body cursor full inside enough =
    elim (Option-cases (index_of needle (drop cursor haystack))) [
      | inl miss ↦ (
        if ltb cursor (length body)
            then (record { text = drop cursor body; match = false }) ∷ []
            else [],
        rw (miss) refl,
        texts-rest body cursor,
      )
      | inr (d, hit) ↦
          let within = index_of-within needle (drop cursor haystack) d hit in
          let longer = length-drop cursor haystack in
          let moved = nonempty-length needle full in
          let (parts, e, whole) =
            parts_from-texts fuel needle haystack body (cursor + d + length needle) full
              (omega arith) (omega arith) in
          let before = between body cursor (cursor + d) in
          let found : Part = record {
            text = take (length needle) (drop (cursor + d) body);
            match = true;
          } in
          (
            (before ++ found ∷ []) ++ parts,
            rw (hit, e) refl,
            texts-append (before ++ found ∷ []) parts
                ∙ ap (λ t. t ++ texts parts) (texts-append before (found ∷ []))
                ∙ ap₂ (λ x y. (x ++ (found.text ++ [])) ++ y) (texts-between body cursor d) whole
                ∙ ap
                    (λ t.
                      (take d (drop cursor body) ++ t) ++ drop (cursor + d + length needle) body)
                    (append-nil found.text)
                ∙ append_assoc (take d (drop cursor body)) found.text
                    (drop (cursor + d + length needle) body)
                ∙ pieces d (length needle) cursor body,
          )
    ]

-- Whatever the tables of Unicode say, the loop of `highlightParts` ends, and the texts of its parts in a row
-- are the body.
pub highlight_parts-body :
    (unicode : Unicode) (body query : Text)
    → (parts : List Part) × (highlight_parts unicode body query ≡ some parts) × (texts parts ≡ body)
unfolding highlight_parts
highlight_parts-body unicode body query =
    let needle = normalize unicode (trim query) in
    elim (Bool-cases (is_empty needle)) [
      | inl nothing ↦
          ((record { text = body; match = false }) ∷ [], rw nothing refl, append-nil body)
      | inr full ↦
          let (parts, e, whole) =
            parts_from-texts (suc (length (normalize unicode body))) needle (normalize unicode body)
              body 0 full (omega arith) (omega arith) in
          (parts, rw full e, whole)
    ]
