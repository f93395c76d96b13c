-- ===== src/Crypto/Labelled.antt =====
-- An instance of the library's parameter for the examples whose decryption fails under another key or
-- other additional data: a ciphertext carries both in front.
use shatters.Common.{
  zero, suc, ◌≡◌, ◌≢◌, refl, sym, ap, ap₂, ◌∙◌, Bool, true, false, Option, none, some, [], ◌∷◌,
  ◌++◌, text_eq, text_eq_iff, text_eq_refl, if◌then◌else◌, ◌==◌, arith, Bool-cases, inl, inr,
}
use shatters.Bytes.{Bytes}
use shatters.Crypto.{Crypto, IsSound}
use shatters.Crypto.Toy.{toy, toy-IsSound}

-- The bytes, each one more than it is, and an end.
abbrev marked : Bytes → Bytes
marked [] = 0 ∷ []
marked (b ∷ bytes) = suc b ∷ marked bytes

-- What follows these bytes, where they stand in front.
abbrev behind_marked : Bytes → Bytes → Option Bytes
behind_marked bytes [] = none
behind_marked [] (zero ∷ rest) = some rest
behind_marked [] (suc n ∷ rest) = none
behind_marked (b ∷ bytes) (zero ∷ rest) = none
behind_marked (b ∷ bytes) (suc n ∷ rest) =
    let more = behind_marked bytes rest in if b == n then more else none

behind_marked-marked :
    (a b rest : Bytes)
    → behind_marked a (marked b ++ rest) ≡ (if text_eq a b then some rest else none)
unfolding text_eq
behind_marked-marked [] [] rest = refl
behind_marked-marked [] (y ∷ b) rest = refl
behind_marked-marked (x ∷ a) [] rest = refl
behind_marked-marked (x ∷ a) (y ∷ b) rest = ground (arith, behind_marked-marked a b rest)

abbrev and_then : Option Bytes → Bytes → Option Bytes
and_then none key = none
and_then (some rest) key = behind_marked key rest

abbrev labelled_decrypt : (ciphertext ad nonce key : Bytes) → Option Bytes
labelled_decrypt ciphertext ad nonce key = and_then (behind_marked ad ciphertext) key

abbrev pub labelled : Crypto
labelled = record toy {
  aead_encrypt = λ plaintext ad nonce key. marked ad ++ (marked key ++ plaintext);
  aead_decrypt = labelled_decrypt;
}

labelled_decrypt-encrypt :
    (plaintext ad other nonce key wrong : Bytes)
    → labelled_decrypt (marked ad ++ (marked key ++ plaintext)) other nonce wrong
      ≡ (if text_eq other ad then (if text_eq wrong key then some plaintext else none) else none)
labelled_decrypt-encrypt plaintext ad other nonce key wrong =
    ap (λ o. and_then o wrong) (behind_marked-marked other ad (marked key ++ plaintext))
    ∙ go (text_eq other ad)
  where
    go :
        (b : Bool)
        → and_then (if b then some (marked key ++ plaintext) else none) wrong
          ≡ (if b then (if text_eq wrong key then some plaintext else none) else none)
    go true = behind_marked-marked wrong key plaintext
    go false = refl

apart : (a b : Bytes) → a ≢ b → text_eq b a ≡ false
apart a b h = elim (Bool-cases (text_eq b a)) [
  | inl e ↦ let same = (text_eq_iff b a).0 e in absurd (h (sym same))
  | inr e ↦ e
]

pub labelled-other_data :
    (plaintext ad other nonce key : Bytes)
    → ad ≢ other
    → labelled.aead_decrypt (labelled.aead_encrypt plaintext ad nonce key) other nonce key ≡ none
labelled-other_data plaintext ad other nonce key h =
    labelled_decrypt-encrypt plaintext ad other nonce key key
    ∙ ap (λ b. if b then (if text_eq key key then some plaintext else none) else none)
        (apart ad other h)

pub labelled-other_key :
    (plaintext ad nonce key other : Bytes)
    → key ≢ other
    → labelled.aead_decrypt (labelled.aead_encrypt plaintext ad nonce key) ad nonce other ≡ none
labelled-other_key plaintext ad nonce key other h =
    labelled_decrypt-encrypt plaintext ad ad nonce key other
    ∙ ap (λ b. if text_eq ad ad then (if b then some plaintext else none) else none)
        (apart key other h)
    ∙ nothing (text_eq ad ad)
  where
    nothing : (b : Bool) → ◌≡◌ {A = Option Bytes} (if b then none else none) none
    nothing true = refl
    nothing false = refl

pub labelled-IsSound : IsSound labelled
labelled-IsSound = record {
  hmac_length = toy-IsSound.hmac_length;
  scalarmult_comm = toy-IsSound.scalarmult_comm;
  decrypt_encrypt = λ plaintext ad nonce key.
      labelled_decrypt-encrypt plaintext ad ad nonce key key
      ∙ ap₂ (λ b d. if b then (if d then some plaintext else none) else none) (text_eq_refl ad)
          (text_eq_refl key);
  encrypt_nonempty = λ plaintext ad nonce key. starts ad (marked key ++ plaintext);
  verify_sign = toy-IsSound.verify_sign;
}
  where
    starts : (ad rest : Bytes) → marked ad ++ rest ≢ []
    starts [] rest e = cc
    starts (a ∷ ad) rest e = cc
