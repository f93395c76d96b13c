-- ===== src/Ratchet/Atomic.antt =====
-- web/src/lib/crypto/ratchet.ts, `decryptMessage`: a message that is refused costs nothing.
use shatters.Common.{
  err, ok, ◌≡◌, refl, ◌∙◌, inl, inr, none, some, lookup, Option-cases, Bool-cases, length, ◌==◌,
  Text, arith,
}
use shatters.Bytes.{Bytes}
use shatters.Message.{MessageHeader, RatchetMessage}
use shatters.Crypto.{Crypto, KeyPair}
use shatters.Ratchet.State.{
  SessionState, Result, RatchetError, malformed_ratchet_key, skipped_key_id,
}
use shatters.Ratchet.Receive.{
  decrypt_with_message_key, receive_message, clone_state, conclude, conclude_cached,
  decrypt_message,
}

conclude-err :
    (s : SessionState) (r : Result Bytes × SessionState) (e : RatchetError)
    → (conclude s r).0 ≡ err e
    → (conclude s r).1 ≡ s
unfolding conclude
conclude-err s (ok p, w) e h = cc
conclude-err s (err x, w) e h = refl

conclude_cached-err :
    (id : Text) (r : Result Bytes × SessionState) (e : RatchetError)
    → (conclude_cached id r).0 ≡ err e
    → (conclude_cached id r).1 ≡ r.1
unfolding conclude_cached
conclude_cached-err id (ok p, w) e h = cc
conclude_cached-err id (err x, w) e h = refl

-- The id under which the cache would hold the key of a message.
abbrev pub message_id : RatchetMessage → Text
message_id m = skipped_key_id m.header.dh_public_key m.header.message_number

module _ (c : Crypto) (generated : KeyPair) (m : RatchetMessage) (s : SessionState) where
  pub decrypt_message-cached :
      (key : Bytes)
      → length m.header.dh_public_key ≡ 32
      → lookup (message_id m) s.skipped_keys ≡ some key
      → decrypt_message c generated m s
        ≡ conclude_cached (message_id m) (decrypt_with_message_key c key m.header m.ciphertext s)
  unfolding decrypt_message
  decrypt_message-cached key long hit = rw long (rw (hit, decrypt_message))

  pub decrypt_message-live :
      length m.header.dh_public_key ≡ 32
      → lookup (message_id m) s.skipped_keys ≡ none
      → decrypt_message c generated m s ≡ conclude s (receive_message c generated m (clone_state s))
  unfolding decrypt_message
  decrypt_message-live long miss = rw long (rw (miss, decrypt_message))

  -- The three branches of `decryptMessage`, for a property of what it returns and leaves behind.
  pub decrypt_message-branches {ℓ} :
      (P : Result Bytes × SessionState → Type ℓ)
      → P (err malformed_ratchet_key, s)
      → ((key : Bytes)
          → lookup (message_id m) s.skipped_keys ≡ some key
          → P (
              conclude_cached
                (message_id m)
                (decrypt_with_message_key c key m.header m.ciphertext s)))
      → P (conclude s (receive_message c generated m s))
      → P (decrypt_message c generated m s)
  unfolding decrypt_message clone_state
  decrypt_message-branches P bad cached live =
      elim (Bool-cases (length m.header.dh_public_key == 32)) [
        | inr short ↦ rw short bad
        | inl long ↦ elim (Option-cases (lookup (message_id m) s.skipped_keys)) [
          | inl miss ↦ rw long (rw (miss, decrypt_message) live)
          | inr (key, hit) ↦ rw long (rw (hit, decrypt_message) (cached key hit))
        ]
      ]

-- The decryption proper reads the state only.
pub decrypt_with_message_key-state :
    (c : Crypto) (key : Bytes) (header : MessageHeader) (ciphertext : Bytes) (s : SessionState)
    → (decrypt_with_message_key c key header ciphertext s).1 ≡ s
unfolding decrypt_with_message_key
decrypt_with_message_key-state c key header ciphertext s = ground arith

-- Whenever `decryptMessage` throws, whatever the message and the error, the session is exactly as it
-- was.
pub decrypt_message-atomic :
    (c : Crypto) (generated : KeyPair) (m : RatchetMessage) (s : SessionState) (e : RatchetError)
    → (decrypt_message c generated m s).0 ≡ err e
    → (decrypt_message c generated m s).1 ≡ s
decrypt_message-atomic c generated m s e =
    decrypt_message-branches c generated m s (λ r. r.0 ≡ err e → r.1 ≡ s) (λ h. refl)
      (λ key hit h.
        conclude_cached-err _ _ e h ∙ decrypt_with_message_key-state c key m.header m.ciphertext s)
      (conclude-err s _ e)
