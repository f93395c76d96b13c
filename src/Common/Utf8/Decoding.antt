-- ===== src/Common/Utf8/Decoding.antt =====
-- A text whose surrogates are paired is read back from its bytes.
use Prim.Native.Nat.{ℕ, ◌+◌, ◌-◌, ◌*◌, ◌/◌, ◌%◌, ◌≤◌, ◌<◌}
use mathlib.Core.Path.{◌≡◌, refl, ap₂, ◌∙◌}
use mathlib.Core.Logic.{◌⊎◌, inl, inr}
use mathlib.Core.Bool.{true, false}
use mathlib.Core.Option.{Option, none, some}
use mathlib.Core.List.{List, [], ◌∷◌, ◌++◌}
use native.Mathlib.Omega.{arith}
use shatters.Common.Tests.{ltb, ◌==◌, if◌then◌else◌, Bool-cases}
use shatters.Common.Strings.{Text}
use shatters.Common.Utf8.Coding.{
  Decoder, start, units, decode_from, encode_point, encode_from, is_high, is_low, is_paired,
  is_well_formed, starts_with_mark, utf8_encode, utf8_decode, without_mark,
}

decode-one :
    (c : ℕ) (rest : List ℕ)
    → c < 128
    → decode_from start (encode_point c ++ rest) ≡ units c ++ decode_from start rest
decode-one c rest small = ground arith

decode-two :
    (c : ℕ) (rest : List ℕ)
    → 128 ≤ c
    → c < 2048
    → decode_from start (encode_point c ++ rest) ≡ units c ++ decode_from start rest
decode-two c rest low high = ground arith

abbrev reading : (needed point lower upper : ℕ) → Decoder
reading needed point lower upper = record {
  needed = needed;
  point = point;
  lower = lower;
  upper = upper;
}

first_of_three :
    (k : ℕ) (rest : List ℕ)
    → k < 16
    → decode_from start ((224 + k) ∷ rest)
      ≡ decode_from (reading 2 k (if k == 0 then 160 else 128) (if k == 13 then 159 else 191)) rest
first_of_three k rest small = ground arith

first_of_four :
    (k : ℕ) (rest : List ℕ)
    → k < 5
    → decode_from start ((240 + k) ∷ rest)
      ≡ decode_from (reading 3 k (if k == 0 then 144 else 128) (if k == 4 then 143 else 191)) rest
first_of_four k rest small = ground arith

third_last :
    (p lower upper b : ℕ) (rest : List ℕ)
    → lower ≤ b
    → b ≤ upper
    → decode_from (reading 3 p lower upper) (b ∷ rest)
      ≡ decode_from (reading 2 (p * 64 + b % 64) 128 191) rest
third_last p lower upper b rest low high = ground arith

second_last :
    (p lower upper b : ℕ) (rest : List ℕ)
    → lower ≤ b
    → b ≤ upper
    → decode_from (reading 2 p lower upper) (b ∷ rest)
      ≡ decode_from (reading 1 (p * 64 + b % 64) 128 191) rest
second_last p lower upper b rest low high = ground arith

last :
    (p lower upper b c : ℕ) (rest : List ℕ)
    → lower ≤ b
    → b ≤ upper
    → p * 64 + b % 64 ≡ c
    → decode_from (reading 1 p lower upper) (b ∷ rest) ≡ units c ++ decode_from start rest
last p lower upper b c rest low high e = ground arith

encode_point-three :
    (c : ℕ)
    → 2048 ≤ c
    → c < 65536
    → encode_point c ≡ (224 + c / 4096) ∷ (128 + c / 64 % 64) ∷ (128 + c % 64) ∷ []
encode_point-three c low high = ground arith

encode_point-four :
    (c : ℕ)
    → 65536 ≤ c
    → encode_point c
      ≡ (240 + c / 262144) ∷ (128 + c / 4096 % 64) ∷ (128 + c / 64 % 64) ∷ (128 + c % 64) ∷ []
encode_point-four c low = ground arith

decode-three :
    (c : ℕ) (rest : List ℕ)
    → 2048 ≤ c
    → c < 65536
    → (c < 55296) ⊎ (57344 ≤ c)
    → decode_from start (encode_point c ++ rest) ≡ units c ++ decode_from start rest
decode-three c rest low high scalar =
    let a = c / 4096 in
    let b = 128 + c / 64 % 64 in
    let d = 128 + c % 64 in
    rw (encode_point-three c low high) (
      first_of_three a (b ∷ d ∷ rest) (omega arith)
      ∙ second_last a (if a == 0 then 160 else 128) (if a == 13 then 159 else 191) b (d ∷ rest)
          (ground arith) (ground arith)
      ∙ last (a * 64 + b % 64) 128 191 d c rest (omega arith) (omega arith) (omega arith))

decode-four :
    (c : ℕ) (rest : List ℕ)
    → 65536 ≤ c
    → c < 1114112
    → decode_from start (encode_point c ++ rest) ≡ units c ++ decode_from start rest
decode-four c rest low high =
    let a = c / 262144 in
    let b = 128 + c / 4096 % 64 in
    let d = 128 + c / 64 % 64 in
    let e = 128 + c % 64 in
    rw (encode_point-four c low) (
      first_of_four a (b ∷ d ∷ e ∷ rest) (omega arith)
      ∙ third_last a (if a == 0 then 144 else 128) (if a == 4 then 143 else 191) b (d ∷ e ∷ rest)
          (ground arith) (ground arith)
      ∙ second_last (a * 64 + b % 64) 128 191 d (e ∷ rest) (omega arith) (omega arith)
      ∙ last ((a * 64 + b % 64) * 64 + d % 64) 128 191 e c rest (omega arith) (omega arith)
          (omega arith))

-- A code point that is no surrogate is read as its units.
decode_from-encode_point :
    (c : ℕ) (rest : List ℕ)
    → (c < 55296) ⊎ ((57344 ≤ c) × (c < 1114112))
    → decode_from start (encode_point c ++ rest) ≡ units c ++ decode_from start rest
decode_from-encode_point c rest scalar = elim (Bool-cases (ltb c 2048)) [
  | inl short ↦ elim (Bool-cases (ltb c 128)) [
    | inl ascii ↦ decode-one c rest (ground arith)
    | inr other ↦ decode-two c rest (ground arith) (ground arith)
  ]
  | inr long ↦ elim (Bool-cases (ltb c 65536)) [
    | inl three ↦ decode-three c rest (ground arith) (ground arith) (ground arith)
    | inr four ↦ decode-four c rest (ground arith) (ground arith)
  ]
]

-- The units of a text that waits for the partner of a high surrogate, or of none.
abbrev with_waiting : Option ℕ → Text → Text
with_waiting none us = us
with_waiting (some h) us = h ∷ us

abbrev WaitsFor : Option ℕ → Type 0
WaitsFor none = Unit
WaitsFor (some h) = is_high h ≡ true

paired_rest :
    (u : ℕ) (us : Text)
    → is_high u ≡ true
    → is_paired none (u ∷ us) ≡ true
    → is_paired (some u) us ≡ true
paired_rest u us high paired = ground arith

paired_alone :
    (u : ℕ) (us : Text)
    → is_high u ≡ false
    → is_paired none (u ∷ us) ≡ true
    → (is_low u ≡ false)
      × ((u < 55296) ⊎ ((57344 ≤ u) × (u < 1114112)))
      × (is_paired none us ≡ true)
paired_alone u us plain paired = (ground arith, ground arith, ground arith)

units-short :
    (u : ℕ) (us : Text) → is_high u ≡ false → is_paired none (u ∷ us) ≡ true → units u ≡ u ∷ []
units-short u us plain paired = ground arith

paired_low :
    (x u : ℕ) (us : Text)
    → is_paired (some x) (u ∷ us) ≡ true
    → (is_low u ≡ true) × (is_high u ≡ false) × (is_paired none us ≡ true)
paired_low x u us paired = (ground arith, ground arith, ground arith)

pair_point :
    (x u : ℕ)
    → is_high x ≡ true
    → is_low u ≡ true
    → let c = 65536 + (x - 55296) * 1024 + (u - 56320) in
      (65536 ≤ c) × (c < 1114112) × (units c ≡ x ∷ u ∷ [])
pair_point x u high low = (ground arith, ground arith, ground arith)

decode_from-encode_from :
    (waiting : Option ℕ) (us : Text)
    → WaitsFor waiting
    → is_paired waiting us ≡ true
    → decode_from start (encode_from waiting us) ≡ with_waiting waiting us
decode_from-encode_from none [] h paired = refl
decode_from-encode_from (some x) [] h paired = absurd (ground arith)
decode_from-encode_from none (u ∷ us) h paired = elim (Bool-cases (is_high u)) [
  | inl high ↦ rw high (decode_from-encode_from (some u) us high (paired_rest u us high paired))
  | inr plain ↦
      let (alone, scalar, rest) = paired_alone u us plain paired in
      rw (plain, alone)
        (decode_from-encode_point u (encode_from none us) scalar
          ∙ ap₂ (λ t r. t ++ r) (units-short u us plain paired)
              (decode_from-encode_from none us tt rest))
]
decode_from-encode_from (some x) (u ∷ us) h paired =
    let (low, other, rest) = paired_low x u us paired in
    let (big, fits, both) = pair_point x u h low in
    rw (low, other)
      (decode-four (65536 + (x - 55296) * 1024 + (u - 56320)) (encode_from none us) big fits
        ∙ ap₂ (λ t r. t ++ r) both (decode_from-encode_from none us tt rest))

pub utf8_decode-utf8_encode :
    (text : Text) → is_well_formed text ≡ true → utf8_decode (utf8_encode text) ≡ text
unfolding utf8_encode utf8_decode
utf8_decode-utf8_encode text h =
    rw (decode_from-encode_from none text tt (ground (arith, h)))
      (unmarked text (ground (arith, h)))
  where
    unmarked : (t : Text) → starts_with_mark t ≡ false → without_mark t ≡ t
    unmarked [] e = refl
    unmarked (u ∷ us) e = ground arith
