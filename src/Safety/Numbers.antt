-- ===== src/Safety/Numbers.antt =====
-- web/src/lib/crypto/safety.ts: both sides see the same number, of sixty digits.
use shatters.Common.{
  ℕ, zero, suc, ◌+◌, ◌-◌, ◌*◌, ◌%◌, ◌≡◌, refl, sym, ap₂, inl, inr, true, [], ◌++◌, Text, length,
  ltb, if◌then◌else◌, All, All-append, All-take, length-append, length-take_le, arith, Bool-cases,
  text_lt, text_lt_trans, text_lt_irrefl, text_lt_antisymm, decimal, decimal-length,
  decimal-IsDigit, IsDigit,
}
use shatters.Bytes.{Bytes}
use shatters.Crypto.{Crypto}
use shatters.Safety.{
  repeat_zero, pad_start, chunk_at, chunk_digits, digits_loop, hash_loop, fingerprint,
  safety_number, safety_domain,
}

-- The two people see one number, whichever of them asks.
pub safety_number_comm : (c : Crypto) (a b : Bytes) → safety_number c a b ≡ safety_number c b a
unfolding safety_number
safety_number_comm c a b = sorted (fingerprint c a) (fingerprint c b)
  where
    sorted :
        (x y : Text)
        → (if text_lt x y then x ++ y else y ++ x) ≡ (if text_lt y x then y ++ x else x ++ y)
    sorted x y = elim (Bool-cases (text_lt x y)) [
      | inl less ↦ elim (Bool-cases (text_lt y x)) [
        | inl more ↦ absurd (ground (arith, text_lt_trans x y x less more, text_lt_irrefl x))
        | inr e ↦ rw less (rw e refl)
      ]
      | inr f ↦ elim (Bool-cases (text_lt y x)) [
        | inl more ↦ rw f (rw more refl)
        | inr e ↦ rw f (
            rw e
              (let same = text_lt_antisymm x y f e in ap₂ (λ (p q : Text). p ++ q) (sym same) same))
      ]
    ]

length-repeat_zero : (n : ℕ) → length (repeat_zero n) ≡ n
length-repeat_zero zero = omega arith
length-repeat_zero (suc n) = omega (arith, length-repeat_zero n)

repeat_zero-IsDigit : (n : ℕ) → All IsDigit (repeat_zero n)
repeat_zero-IsDigit zero = tt
repeat_zero-IsDigit (suc n) = ((omega arith), repeat_zero-IsDigit n)

length-chunk_digits : (digest : Bytes) (i : ℕ) → length (chunk_digits digest i) ≡ 5
unfolding chunk_digits pad_start
length-chunk_digits digest i =
    let text = decimal (chunk_at digest i % 100000) in
    omega (
      arith,
      length-append (repeat_zero (5 - length text)) text,
      length-repeat_zero (5 - length text),
      decimal-length (chunk_at digest i % 100000) (omega arith),
    )

chunk_digits-IsDigit : (digest : Bytes) (i : ℕ) → All IsDigit (chunk_digits digest i)
unfolding chunk_digits pad_start
chunk_digits-IsDigit digest i =
    let text = decimal (chunk_at digest i % 100000) in
    All-append IsDigit (repeat_zero (5 - length text)) text (repeat_zero-IsDigit (5 - length text))
      (decimal-IsDigit (chunk_at digest i % 100000))

length-digits_loop :
    (fuel : ℕ) (digest : Bytes) (i : ℕ) (out : Text)
    → length out + 5 * fuel ≡ 30
    → length (digits_loop fuel digest i out) ≡ 30
unfolding digits_loop
length-digits_loop zero digest i out h = omega arith
length-digits_loop (suc fuel) digest i out h =
    let more : ltb (length out) 30 ≡ true = ground arith in
    rw more (
      length-digits_loop fuel digest (i + 5) (out ++ chunk_digits digest i)
        (omega (arith, length-append out (chunk_digits digest i), length-chunk_digits digest i)))

digits_loop-IsDigit :
    (fuel : ℕ) (digest : Bytes) (i : ℕ) (out : Text)
    → All IsDigit out
    → All IsDigit (digits_loop fuel digest i out)
unfolding digits_loop
digits_loop-IsDigit zero digest i out h = h
digits_loop-IsDigit (suc fuel) digest i out h = elim (Bool-cases (ltb (length out) 30)) [
  | inl more ↦ rw more (
      digits_loop-IsDigit fuel digest (i + 5) (out ++ chunk_digits digest i)
        (All-append IsDigit out (chunk_digits digest i) h (chunk_digits-IsDigit digest i)))
  | inr done ↦ rw done h
]

fingerprint-IsDigit :
    (c : Crypto) (key : Bytes) → All IsDigit (fingerprint c key) × (length (fingerprint c key) ≡ 30)
unfolding fingerprint
fingerprint-IsDigit c key =
    let digest : Bytes = hash_loop c 5199 key (c.hash_sha256 (safety_domain ++ key)) in
    (
      All-take IsDigit 30 (digits_loop 6 digest 0 []) (digits_loop-IsDigit 6 digest 0 [] tt),
      length-take_le 30 (digits_loop 6 digest 0 [])
          (omega (arith, length-digits_loop 6 digest 0 [] (omega arith))),
    )

-- A safety number is sixty decimal digits, for any two keys: the loop over the digest ends with all
-- thirty digits of each half.
pub safety_number-IsDigit :
    (c : Crypto) (a b : Bytes)
    → All IsDigit (safety_number c a b) × (length (safety_number c a b) ≡ 60)
unfolding safety_number
safety_number-IsDigit c a b =
    either (fingerprint c a) (fingerprint c b) (fingerprint-IsDigit c a) (fingerprint-IsDigit c b)
  where
    Half : Text → Type 0
    Half x = All IsDigit x × (length x ≡ 30)

    joined : (x y : Text) → Half x → Half y → All IsDigit (x ++ y) × (length (x ++ y) ≡ 60)
    joined x y h k = (All-append IsDigit x y h.0 k.0, omega (arith, length-append x y, h.1, k.1))

    either :
        (x y : Text)
        → Half x
        → Half y
        → All IsDigit (if text_lt x y then x ++ y else y ++ x)
          × (length (if text_lt x y then x ++ y else y ++ x) ≡ 60)
    either x y h k = elim (Bool-cases (text_lt x y)) [
      | inl less ↦ rw less (joined x y h k)
      | inr e ↦ rw e (joined y x k h)
    ]
