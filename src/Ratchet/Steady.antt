-- ===== src/Ratchet/Steady.antt =====
-- web/src/lib/crypto/ratchet.ts: reading on a chain leaves the sending half of a session alone.
use shatters.Common.{
  err, ok, ℕ, zero, suc, ◌-◌, ◌≡◌, refl, ap, ◌∙◌, inl, inr, none, [], ltb, Bool-cases, Option-cases,
}
use shatters.Bytes.{Bytes}
use shatters.Message.{RatchetMessage}
use shatters.Crypto.{Crypto}
use shatters.Ratchet.State.{
  SessionState, Result, M, bind_result, ◌>>=◌, max_skipped_keys, advance_chain_key,
}
use shatters.Ratchet.Window.{skip_one, skip_loop, skip_message_keys}
use shatters.Ratchet.Receive.{take_message_key, decrypt_with_message_key}
use shatters.Ratchet.Atomic.{decrypt_with_message_key-state}

-- The state without what reading on a chain changes.
abbrev pub sending_half : SessionState → SessionState
sending_half s = record s { receiving_chain_key = none; receive_count = 0; skipped_keys = [] }

abbrev pub Steady : {A : Type 0} → M A → Type 0
Steady m = (s : SessionState) → sending_half (m s).1 ≡ sending_half s

pub >>=-Steady :
    {A B : Type 0} (m : M A) (f : A → M B) → Steady m → ((a : A) → Steady (f a)) → Steady (m >>= f)
>>=-Steady m f p q s = rest (m s) ∙ p s
  where
    rest : (r : Result _ × SessionState) → sending_half (bind_result r f).1 ≡ sending_half r.1
    rest (ok a, t) = q a t
    rest (err e, t) = refl

skip_loop-sending_half :
    (c : Crypto) (fuel until : ℕ) (receiving : Bytes) (s : SessionState)
    → sending_half (skip_loop c fuel until receiving s) ≡ sending_half s
unfolding skip_loop skip_one
skip_loop-sending_half c zero until receiving s = refl
skip_loop-sending_half c (suc fuel) until receiving s =
    elim (Bool-cases (ltb s.receive_count until)) [
      | inl more ↦ rw more (
          skip_loop-sending_half c fuel until (advance_chain_key c receiving).chain_key
            (skip_one c receiving s))
      | inr done ↦ rw done refl
    ]

pub skip_message_keys-Steady : (c : Crypto) (until : ℕ) → Steady (skip_message_keys c until)
unfolding skip_message_keys
skip_message_keys-Steady c until s = elim (Option-cases s.receiving_chain_key) [
  | inl idle ↦ simp (idle, skip_message_keys) refl
  | inr (receiving, e) ↦ elim (Bool-cases (ltb max_skipped_keys (until - s.receive_count))) [
    | inl far ↦ simp (e, far, skip_message_keys) refl
    | inr near ↦
        simp (e, near, skip_message_keys)
          (skip_loop-sending_half c (until - s.receive_count) until receiving s)
  ]
]

take_message_key-Steady : (c : Crypto) → Steady (take_message_key c)
unfolding take_message_key
take_message_key-Steady c s = elim (Option-cases s.receiving_chain_key) [
  | inl idle ↦ simp (idle, take_message_key) refl
  | inr (receiving, e) ↦ simp (e, take_message_key) refl
]

-- Skipping to a message, taking its key and decrypting.
pub read_on-Steady :
    (c : Crypto) (m : RatchetMessage)
    → Steady (
        skip_message_keys c m.header.message_number >>= λ _.
        take_message_key c >>= λ key. decrypt_with_message_key c key m.header m.ciphertext)
read_on-Steady c m =
    >>=-Steady (skip_message_keys c m.header.message_number) _
      (skip_message_keys-Steady c m.header.message_number)
      (λ _.
        >>=-Steady (take_message_key c) _ (take_message_key-Steady c)
          (λ key s. ap sending_half (decrypt_with_message_key-state c key m.header m.ciphertext s)))
