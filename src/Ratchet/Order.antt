-- ===== src/Ratchet/Order.antt =====
-- web/src/lib/crypto/ratchet.ts: a conversation on one chain, from both ends.
use shatters.Common.{
  ok, ℕ, ◌+◌, ◌≤◌, ◌<◌, ◌≡◌, ◌≢◌, sym, ap, inl, List, [], ◌∷◌, length, All, All-mem, arith,
}
use mathlib.Core.List.{Memᴰ}
use shatters.Bytes.{Bytes}
use shatters.Message.{RatchetMessage}
use shatters.Crypto.{Crypto, KeyPair, IsSound}
use shatters.Ratchet.State.{SessionState}
use shatters.Ratchet.Send.{encrypt_message}
use shatters.Ratchet.Receive.{decrypt_message}
use shatters.Ratchet.Skip.{Chain, Tracks, Holds}
use shatters.Ratchet.Sealed.{SendsOn, IsSealed, encrypt_message-IsSealed}
use shatters.Ratchet.Delivery.{Received, decrypt_message-Received}

-- The sender encrypts plaintexts in a row; each stands beside the message that it became.
pub data Sends (c : Crypto)
    : SessionState → List (RatchetMessage × Bytes) → SessionState → Type 0 where
  done : {a : SessionState} → Sends c a [] a
  sent :
      {a a' z : SessionState} {m : RatchetMessage} {rest : List (RatchetMessage × Bytes)}
      → (plaintext : Bytes) → encrypt_message c plaintext a ≡ (ok m, a')
      → Sends c a' rest z
      → Sends c a ((m, plaintext) ∷ rest) z

-- The receiver decrypts the messages in a row, each to the plaintext beside it.
abbrev pub Opens : Crypto → KeyPair → SessionState → List (RatchetMessage × Bytes) → Type 0
Opens c generated b [] = Unit
Opens c generated b ((m, plaintext) ∷ rest) =
    ((decrypt_message c generated m b).0 ≡ ok plaintext)
    × Opens c generated (decrypt_message c generated m b).1 rest

-- No message number twice.
abbrev pub DistinctNumbers : List (RatchetMessage × Bytes) → Type 0
DistinctNumbers [] = Unit
DistinctNumbers ((m, _) ∷ rest) =
    All (λ d. m.header.message_number ≢ d.0.header.message_number) rest × DistinctNumbers rest

module _ (c : Crypto) (laws : IsSound c) (h : Chain) where
  -- A message that was sent when the sender's count was at least `low`.
  record IsSent (low : ℕ) (d : RatchetMessage × Bytes) : Type 0 where
    is_sealed : IsSealed c h d.1 d.0
    above : low ≤ d.0.header.message_number
    below : d.0.header.message_number < h.top

  encrypt_message-sent :
      {a a' : SessionState} {m : RatchetMessage} (plaintext : Bytes)
      → SendsOn c h a
      → encrypt_message c plaintext a ≡ (ok m, a')
      → IsSealed c h plaintext m
        × (m.header.message_number ≡ a.send_count)
        × (a'.send_count ≡ a.send_count + 1)
        × SendsOn c h a'
  encrypt_message-sent {a} {a'} {m} plaintext s e =
      let (n, b, f, sealed, number, count, on) = encrypt_message-IsSealed c laws h plaintext a s in
      let same : n ≡ m = cc in
      let also : b ≡ a' = cc in
      rw (sym same, sym also) (sealed, ap (λ h. h.message_number) number, count, on)

  IsSent-weaken :
      (low high : ℕ)
      → low ≤ high
      → (all : List (RatchetMessage × Bytes)) → All (IsSent high) all
      → All (IsSent low) all
  IsSent-weaken low high le [] p = tt
  IsSent-weaken low high le (d ∷ all) p = (
    record { is_sealed = p.0.is_sealed; above = omega (arith, p.0.above); below = p.0.below },
    IsSent-weaken low high le all p.1,
  )

  -- The messages of a row of encryptions take the places of the chain in a row.
  Sends-IsSent :
      {a z : SessionState} {all : List (RatchetMessage × Bytes)}
      → Sends c a all z
      → SendsOn c h a
      → a.send_count + length all ≤ h.top
      → All (IsSent a.send_count) all
  Sends-IsSent done s le = tt
  Sends-IsSent {a} (sent {a' = a'} {rest = rest} plaintext e more) s le =
      let (sealed, number, count, on) = encrypt_message-sent plaintext s e in
      (
        record { is_sealed = sealed; above = omega arith; below = omega arith },
        IsSent-weaken a.send_count a'.send_count (omega arith) rest
            (Sends-IsSent more on (omega arith)),
      )

  Holds-kept :
      {i : ℕ} {b next : SessionState}
      → Received c laws h i b next
      → (rest : List (RatchetMessage × Bytes)) → All (λ d. i ≢ d.0.header.message_number) rest
      → All (λ d. Holds c h d.0.header.message_number b) rest
      → All (λ d. Holds c h d.0.header.message_number next) rest
  Holds-kept r [] n p = tt
  Holds-kept r (d ∷ rest) n p =
      (r.holds d.0.header.message_number n.0 p.0, Holds-kept r rest n.1 p.1)

  Opens-held :
      (generated : KeyPair) (low : ℕ) (b : SessionState) (arriving : List (RatchetMessage × Bytes))
      → length h.ratchet_key ≡ 32
      → Tracks c h b
      → All (IsSent low) arriving
      → All (λ d. Holds c h d.0.header.message_number b) arriving
      → DistinctNumbers arriving
      → Opens c generated b arriving
  Opens-held generated low b [] long t p q n = tt
  Opens-held generated low b ((m, plaintext) ∷ rest) long t p q n =
      let (next, e, r) =
        decrypt_message-Received c laws h long generated plaintext m b p.0.is_sealed t q.0
          p.0.below in
      (
        ap (λ r. r.0) e,
        rw e (Opens-held generated low next rest long r.tracks p.1 (Holds-kept r rest n.0 q.1) n.1),
      )

  Holds-sent :
      (low : ℕ) (b : SessionState) (arriving : List (RatchetMessage × Bytes))
      → b.receive_count ≤ low
      → All (IsSent low) arriving
      → All (λ d. Holds c h d.0.header.message_number b) arriving
  Holds-sent low b [] le p = tt
  Holds-sent low b (d ∷ rest) le p = (inl (omega (arith, p.0.above)), Holds-sent low b rest le p.1)

  picked :
      (low : ℕ) (all arriving : List (RatchetMessage × Bytes))
      → All (IsSent low) all
      → All (λ d. Memᴰ d all) arriving
      → All (IsSent low) arriving
  picked low all [] p q = tt
  picked low all (d ∷ rest) p q = (All-mem (IsSent low) all p q.0, picked low all rest p q.1)

-- A sender and a receiver stand on one chain, the receiver not ahead. Whatever the sender encrypts,
-- up to the place `top` that leaves the receiver's cache within its bounds: any of those messages,
-- in any order and with any of them lost, none delivered twice, decrypt one after the other, each to
-- the plaintext it was made of.
pub messages_open_in_any_order :
    (c : Crypto) (laws : IsSound c) (h : Chain) (generated : KeyPair) {a b z : SessionState}
    (all arriving : List (RatchetMessage × Bytes))
    → length h.ratchet_key ≡ 32
    → SendsOn c h a
    → Tracks c h b
    → b.receive_count ≤ a.send_count
    → a.send_count + length all ≤ h.top
    → Sends c a all z
    → All (λ d. Memᴰ d all) arriving
    → DistinctNumbers arriving
    → Opens c generated b arriving
messages_open_in_any_order c laws h generated {a} {b} all arriving long on t behind le sends from
      distinct =
    let ps = picked c laws h a.send_count all arriving (Sends-IsSent c laws h sends on le) from in
    Opens-held c laws h generated a.send_count b arriving long t ps
      (Holds-sent c laws h a.send_count b arriving behind ps) distinct
