-- ===== src/Envelope/Reader/Framing.antt =====
-- web/src/lib/crypto/envelope.ts, `Reader`: what each method takes from the bytes that remain, and
-- what a successful call says of them.
use shatters.Common.{
  err, ok, ℕ, ◌+◌, ◌-◌, ◌<◌, ◌≤◌, ◌^◌, ◌≡◌, refl, sym, ap, ◌∙◌, Bool, true, false, [], ◌∷◌, ◌++◌,
  length, take, drop, arith, subst, length-drop, drop-drop, length-take_le, take-append-drop,
  take-append_self, drop-append_self, length-append,
}
use shatters.Bytes.{
  Bytes, IsBytes, slice, set_u32, get_u32, get_u32-set_u32, set_u32-get_u32, get_u32-lt,
}
use shatters.Envelope.Writer.{EnvelopeError, Result}
use shatters.Envelope.Reader.{
  Reader, M, ◌>>=◌, ◌>>◌, guard, pure, skip, require, byte_at, u8, u32, bytes,
}

-- The bytes not read yet.
abbrev pub remaining : Reader → Bytes
remaining r = drop r.offset r.buf

-- `m` reads `a` at `r` and leaves `xs`.
abbrev pub Reads : {A : Type 0} → M A → Reader → A → Bytes → Type 0
Reads m r a xs = (s : Reader) × (m r ≡ ok (a, s)) × (remaining s ≡ xs)

remaining-skip : (n : ℕ) (r : Reader) → remaining (skip n r) ≡ drop n (remaining r)
remaining-skip n r = sym (drop-drop n r.offset r.buf)

require-pass : (n : ℕ) (r : Reader) → 0 < n → n ≤ length (remaining r) → require n r ≡ ok (tt, r)
unfolding require
require-pass n r p h = ground (arith, length-drop r.offset r.buf)

require-inv :
    (n : ℕ) (r s : Reader) → require n r ≡ ok (tt, s) → (s ≡ r) × (n ≤ length (remaining r))
unfolding require
require-inv n r s e = ground (arith, length-drop r.offset r.buf)

-- Inversion of a successful bind.
pub >>=-inv :
    {A B : Type 0} (m : M A) (f : A → M B) (r s : Reader) (b : B)
    → (m >>= f) r ≡ ok (b, s)
    → (a : A) × (t : Reader) × (m r ≡ ok (a, t)) × (f a t ≡ ok (b, s))
>>=-inv {A} {B} m f r s b e = split (m r) refl
  where
    split :
        (x : Result (A × Reader))
        → m r ≡ x
        → (a : A) × (t : Reader) × (m r ≡ ok (a, t)) × (f a t ≡ ok (b, s))
    split (ok (a, t)) p = (a, t, p, rw (p, ◌>>=◌) at e)
    split (err x) p = cc

-- The same with the parts handed on, for long chains.
pub >>=-elim {ℓ} :
    {A B : Type 0} {P : Type ℓ} (m : M A) (f : A → M B) (r s : Reader) (b : B)
    → (m >>= f) r ≡ ok (b, s)
    → ((a : A) (t : Reader) → m r ≡ ok (a, t) → f a t ≡ ok (b, s) → P)
    → P
>>=-elim m f r s b e k = let (a, t, p, q) = >>=-inv m f r s b e in k a t p q

value_or : {A : Type 0} → A → Result A → A
value_or a (ok b) = b
value_or a (err e) = a

-- The end of a chain: what holds of the result and the reader that it is made of.
pub pure-elim {ℓ} :
    {A : Type 0} (P : A → Reader → Type ℓ) (a b : A) (r s : Reader)
    → pure a r ≡ ok (b, s)
    → P a r
    → P b s
unfolding value_or
pure-elim P a b r s e = subst (λ x. P x.0 x.1) (ap (value_or (a, r)) e)

pub guard-inv :
    (c : Bool) (x : EnvelopeError) (r s : Reader) → guard c x r ≡ ok (tt, s) → (c ≡ true) × (s ≡ r)
guard-inv true x r s e = (refl, ground arith)
guard-inv false x r s e = cc

module _ {A : Type 0} (n : ℕ) (f : Reader → A) (r : Reader) where
  required-inv :
      (a : A) (s : Reader)
      → (require n >> λ t. ok (f t, skip n t)) r ≡ ok (a, s)
      → (a ≡ f r) × (remaining s ≡ drop n (remaining r)) × (n ≤ length (remaining r))
  required-inv a s e =
      let (_, t, passed, read) = >>=-inv (require n) (λ _ t. ok (f t, skip n t)) r s a e in
      let (same, long) = require-inv n r t passed in
      let value : a ≡ f r = ground arith in
      let moved : s ≡ skip n r = ground arith in
      (value, ap remaining moved ∙ remaining-skip n r, long)

slice-remaining : (n : ℕ) (r : Reader) → slice r.buf r.offset (r.offset + n) ≡ take n (remaining r)
slice-remaining n r =
    let e : r.offset + n - r.offset ≡ n = omega arith in ap (λ (k : ℕ). take k (remaining r)) e

head-split : (xs : Bytes) → 1 ≤ length xs → xs ≡ byte_at xs ∷ drop 1 xs
head-split [] h = absurd (omega arith)
head-split (x ∷ xs) h = refl

u32-split :
    (xs : Bytes)
    → IsBytes xs
    → 4 ≤ length xs
    → (xs ≡ set_u32 (get_u32 xs) ++ drop 4 xs) × (get_u32 xs < 2 ^ 32)
u32-split (a ∷ b ∷ c ∷ d ∷ xs) h long = (
  ap (λ t. t ++ xs) (sym (set_u32-get_u32 a b c d xs h.0 h.1.0 h.1.1.0 h.1.1.1.0)),
  get_u32-lt a b c d xs h.0 h.1.0 h.1.1.0 h.1.1.1.0,
)
u32-split _ h long = absurd (omega arith)

module _ (r : Reader) where
  pub u8-Reads : (x : ℕ) (xs : Bytes) → remaining r ≡ x ∷ xs → Reads u8 r x xs
  unfolding u8
  u8-Reads x xs e = (
    skip 1 r,
    ground (arith, require-pass 1 r (omega arith) (rw e (omega arith))),
    remaining-skip 1 r ∙ rw e refl,
  )

  pub u32-Reads :
      (n : ℕ) (xs : Bytes) → n < 2 ^ 32 → remaining r ≡ set_u32 n ++ xs → Reads u32 r n xs
  unfolding u32
  u32-Reads n xs h e = (
    skip 4 r,
    ground (
      arith,
      require-pass 4 r (omega arith) (rw e (omega arith)),
      get_u32-set_u32 n xs h,
      ap get_u32 e,
    ),
    remaining-skip 4 r ∙ rw e refl,
  )

  pub bytes-Reads :
      (n : ℕ) (xs ys : Bytes)
      → length xs ≡ n
      → 0 < n
      → remaining r ≡ xs ++ ys
      → Reads (bytes n) r xs ys
  unfolding bytes
  bytes-Reads n xs ys len p e = (
    skip n r,
    ground (
      arith,
      require-pass n r p (rw e (omega (arith, length-append xs ys))),
      slice-remaining n r,
      taken,
    ),
    remaining-skip n r ∙ rw (e, ← len) (drop-append_self xs ys),
  )
    where
      taken : take n (remaining r) ≡ xs
      taken = rw (e, ← len) (take-append_self xs ys)

  pub u8-inv : (x : ℕ) (s : Reader) → u8 r ≡ ok (x, s) → remaining r ≡ x ∷ remaining s
  unfolding u8
  u8-inv x s e =
      let (value, left, long) = required-inv 1 (λ t. byte_at (remaining t)) r x s e in
      rw (value, left) (head-split (remaining r) long)

  pub u32-inv :
      (n : ℕ) (s : Reader)
      → IsBytes (remaining r)
      → u32 r ≡ ok (n, s)
      → (remaining r ≡ set_u32 n ++ remaining s) × (n < 2 ^ 32)
  unfolding u32
  u32-inv n s h e =
      let (value, left, long) = required-inv 4 (λ t. get_u32 (remaining t)) r n s e in
      rw (value, left) (u32-split (remaining r) h long)

  pub bytes-inv :
      (n : ℕ) (xs : Bytes) (s : Reader)
      → bytes n r ≡ ok (xs, s)
      → (remaining r ≡ xs ++ remaining s) × (length xs ≡ n)
  unfolding bytes
  bytes-inv n xs s e =
      let (value, left, long) =
        required-inv n (λ t. slice t.buf t.offset (t.offset + n)) r xs s e in
      let whole : xs ≡ take n (remaining r) = value ∙ slice-remaining n r in
      rw (whole, left) (sym (take-append-drop n (remaining r)), length-take_le n (remaining r) long)
