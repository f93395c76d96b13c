-- ===== src/Ratchet/Preserve.antt =====
-- web/src/lib/crypto/ratchet.ts: `skipMessageKeys`, `encryptMessage` and `decryptMessage` keep the
-- bounds of the cache of skipped keys.
use shatters.Common.{
  err, ok, ℕ, zero, suc, ◌-◌, inl, inr, Text, ltb, arith, Bool-cases, Option-cases,
}
use shatters.Bytes.{Bytes}
use shatters.Message.{MessageHeader, RatchetMessage}
use shatters.Crypto.{Crypto, KeyPair}
use shatters.Ratchet.State.{
  SessionState, Result, M, bind_result, ◌>>=◌, max_skipped_keys, advance_chain_key,
}
use shatters.Ratchet.Send.{encrypt_message, seal_message}
use shatters.Ratchet.Window.{or_no_bytes, skip_one, skip_loop, skip_message_keys}
use shatters.Ratchet.Receive.{
  dh_ratchet, is_new_ratchet_key, turn_ratchet, take_message_key, receive_message, commit_state,
  conclude, conclude_cached, decrypt_message,
}
use shatters.Ratchet.Atomic.{message_id, decrypt_message-branches, decrypt_with_message_key-state}
use shatters.Ratchet.Bounds.{
  IsWindow, assign-IsKeyed, skipped_key_id-IsKeyed, evict_skipped_keys-IsWindow,
  remove_key-IsWindow,
}

abbrev Preserves : {A : Type 0} → M A → Type 0
Preserves m = (s : SessionState) → IsWindow s.skipped_keys → IsWindow (m s).1.skipped_keys

>>=-Preserves :
    {A B : Type 0} (m : M A) (f : A → M B)
    → Preserves m
    → ((a : A) → Preserves (f a))
    → Preserves (m >>= f)
>>=-Preserves m f p q s w = rest (m s) (p s w)
  where
    rest :
        (r : Result _ × SessionState)
        → IsWindow r.1.skipped_keys
        → IsWindow (bind_result r f).1.skipped_keys
    rest (ok a, t) v = q a t v
    rest (err e, t) v = v

skip_one-IsWindow :
    (c : Crypto) (receiving : Bytes) (s : SessionState)
    → IsWindow s.skipped_keys
    → IsWindow (skip_one c receiving s).skipped_keys
unfolding skip_one
skip_one-IsWindow c receiving s w = evict_skipped_keys-IsWindow _ (
    assign-IsKeyed _ _ s.skipped_keys
      (skipped_key_id-IsKeyed (or_no_bytes s.their_ratchet_key) s.receive_count) w.keyed)

skip_loop-IsWindow :
    (c : Crypto) (fuel until : ℕ) (receiving : Bytes) (s : SessionState)
    → IsWindow s.skipped_keys
    → IsWindow (skip_loop c fuel until receiving s).skipped_keys
unfolding skip_loop
skip_loop-IsWindow c zero until receiving s w = w
skip_loop-IsWindow c (suc fuel) until receiving s w =
    elim (Bool-cases (ltb s.receive_count until)) [
      | inl more ↦ rw more (
          skip_loop-IsWindow c fuel until (advance_chain_key c receiving).chain_key
            (skip_one c receiving s) (skip_one-IsWindow c receiving s w))
      | inr done ↦ rw done w
    ]

pub skip_message_keys-Preserves : (c : Crypto) (until : ℕ) → Preserves (skip_message_keys c until)
unfolding skip_message_keys
skip_message_keys-Preserves c until s w = elim (Option-cases s.receiving_chain_key) [
  | inl idle ↦ simp (idle, skip_message_keys) w
  | inr (receiving, e) ↦ elim (Bool-cases (ltb max_skipped_keys (until - s.receive_count))) [
    | inl far ↦ simp (e, far, skip_message_keys) w
    | inr near ↦
        simp (e, near, skip_message_keys)
          (skip_loop-IsWindow c (until - s.receive_count) until receiving s w)
  ]
]

take_message_key-Preserves : (c : Crypto) → Preserves (take_message_key c)
unfolding take_message_key
take_message_key-Preserves c s w = elim (Option-cases s.receiving_chain_key) [
  | inl none_yet ↦ simp (none_yet, take_message_key) w
  | inr (receiving, e) ↦ simp (e, take_message_key) w
]

-- The two steps of the root key leave the cache alone.
dh_ratchet-Preserves :
    (c : Crypto) (generated : KeyPair) (key : Bytes) → Preserves (dh_ratchet c generated key)
unfolding dh_ratchet
dh_ratchet-Preserves c generated key s w = ground arith

turn_ratchet-Preserves :
    (c : Crypto) (generated : KeyPair) (header : MessageHeader)
    → Preserves (turn_ratchet c generated header)
unfolding turn_ratchet
turn_ratchet-Preserves c generated header s w =
    elim (Bool-cases (is_new_ratchet_key c s header.dh_public_key)) [
      | inl new ↦ rw new (
          >>=-Preserves (skip_message_keys c header.previous_chain_length)
            (λ _. dh_ratchet c generated header.dh_public_key)
            (skip_message_keys-Preserves c header.previous_chain_length)
            (λ _. dh_ratchet-Preserves c generated header.dh_public_key) s w)
      | inr old ↦ rw old w
    ]

receive_message-Preserves :
    (c : Crypto) (generated : KeyPair) (m : RatchetMessage)
    → Preserves (receive_message c generated m)
unfolding receive_message
receive_message-Preserves c generated m =
    >>=-Preserves (turn_ratchet c generated m.header) _
      (turn_ratchet-Preserves c generated m.header)
      (λ _.
        >>=-Preserves (skip_message_keys c m.header.message_number) _
          (skip_message_keys-Preserves c m.header.message_number)
          (λ _.
            >>=-Preserves (take_message_key c) _ (take_message_key-Preserves c)
              (λ key s w. rw (decrypt_with_message_key-state c key m.header m.ciphertext s) w)))

conclude-IsWindow :
    (s : SessionState) (r : Result Bytes × SessionState)
    → IsWindow s.skipped_keys
    → IsWindow r.1.skipped_keys
    → IsWindow (conclude s r).1.skipped_keys
unfolding conclude commit_state
conclude-IsWindow s (ok p, t) w v = v
conclude-IsWindow s (err e, t) w v = w

conclude_cached-IsWindow :
    (id : Text) (r : Result Bytes × SessionState)
    → IsWindow r.1.skipped_keys
    → IsWindow (conclude_cached id r).1.skipped_keys
unfolding conclude_cached
conclude_cached-IsWindow id (ok p, t) v = remove_key-IsWindow id t.skipped_keys v
conclude_cached-IsWindow id (err e, t) v = v

encrypt_message-Preserves :
    (c : Crypto) (plaintext : Bytes) → Preserves (encrypt_message c plaintext)
unfolding encrypt_message seal_message
encrypt_message-Preserves c plaintext s w = ground arith

-- A session whose cache is within the bounds (at most 2000 keys of at most 64 ratchet keys, under ids
-- of the form `chain:number`) is within them after `encryptMessage` and after `decryptMessage` of any
-- message, one that is refused included.
pub sessions-IsWindow :
    (c : Crypto) (generated : KeyPair) (plaintext : Bytes) (m : RatchetMessage) (s : SessionState)
    → IsWindow s.skipped_keys
    → IsWindow (encrypt_message c plaintext s).1.skipped_keys
      × IsWindow (decrypt_message c generated m s).1.skipped_keys
sessions-IsWindow c generated plaintext m s w = (
  encrypt_message-Preserves c plaintext s w,
  decrypt_message-branches c generated m s (λ r. IsWindow r.1.skipped_keys) w
      (λ key hit.
        conclude_cached-IsWindow (message_id m) _
          (rw (decrypt_with_message_key-state c key m.header m.ciphertext s) w))
      (conclude-IsWindow s _ w (receive_message-Preserves c generated m s w)),
)
