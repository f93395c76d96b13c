-- ===== src/Session/Errors.antt =====
-- web/src/lib/crypto/session.ts: what a refused message costs, and replays.
use shatters.Common.{
  err, ok, ℕ, ◌≡◌, refl, sym, ap, ◌∙◌, inl, inr, true, false, Option, none, some, ◌==◌, Bool-cases,
  Option-cases,
}
use shatters.Bytes.{Bytes}
use shatters.Message.{InitialMessageHeader, RatchetMessage}
use shatters.Crypto.{Crypto, KeyPair}
use shatters.Identity.{Identity}
use shatters.Envelope.Writer.{initial_type}
use shatters.Envelope.Writer
use shatters.Envelope.Reader.{InnerMessage, decode_message}
use shatters.Ratchet.State.{SessionState, RatchetError}
use shatters.Ratchet.State
use shatters.Ratchet.Receive.{decrypt_message}
use shatters.Ratchet.Atomic.{decrypt_message-atomic}
use shatters.Session.{
  Session, SessionError, not_initial, unknown_signed_prekey, one_time_prekey_unavailable,
  PrekeyStore, IsConsuming, accept_taken, accept_with, accept_header, accept_message,
  accept_session, decrypted, decrypt,
}

decrypted-err :
    (c : Crypto) (session : Session) (r : State.Result Bytes × SessionState) (e : SessionError)
    → (decrypted c session r).0 ≡ err e
    → ((x : RatchetError) → r.0 ≡ err x → r.1 ≡ session.state)
    → (decrypted c session r).1 ≡ session
unfolding decrypted
decrypted-err c session (ok p, t) e h same = cc
decrypted-err c session (err x, t) e h same =
    ap (λ (s : SessionState). record session { state = s }) (same x refl)

-- Whenever `decrypt` throws, whatever the bytes and the error, the session is exactly as it was, its
-- pending handshake included.
pub decrypt-atomic :
    (c : Crypto) (generated : KeyPair) (raw : Bytes) (session : Session) (e : SessionError)
    → (decrypt c generated raw session).0 ≡ err e
    → (decrypt c generated raw session).1 ≡ session
unfolding decrypt
decrypt-atomic c generated raw session e = go (decode_message raw) refl
  where
    go :
        (d : Writer.Result InnerMessage)
        → decode_message raw ≡ d
        → (decrypt c generated raw session).0 ≡ err e
        → (decrypt c generated raw session).1 ≡ session
    go (err x) eq = rw (eq, decrypt) (λ h. refl)
    go (ok m) eq =
        rw (eq, decrypt)
          (λ h.
            decrypted-err c session (decrypt_message c generated m.ratchet session.state) e h
              (decrypt_message-atomic c generated m.ratchet session.state))

module _ (c : Crypto) {S : Type 0} (store : PrekeyStore S) (consuming : IsConsuming store)
    (b : Identity) where
  taken_ok :
      (generated signed_prekey : KeyPair) (id : ℕ) (header : InitialMessageHeader)
      (m : RatchetMessage) (r : Option KeyPair × S) (got : Session × Bytes) (s' : S)
      → accept_taken c store b generated signed_prekey id header m r ≡ (ok got, s')
      → (key : KeyPair) × (r ≡ (some key, s'))
  unfolding accept_taken
  taken_ok generated signed_prekey id header m (none, t) got s' e = cc
  taken_ok generated signed_prekey id header m (some key, t) got s' e =
      let same : t ≡ s' = cc in (key, ap (λ u. (some key, u)) same)

  taken_none :
      (generated signed_prekey : KeyPair) (id : ℕ) (header : InitialMessageHeader)
      (m : RatchetMessage) (r : Option KeyPair × S)
      → r.0 ≡ none
      → (accept_taken c store b generated signed_prekey id header m r).0
        ≡ err (one_time_prekey_unavailable id)
  unfolding accept_taken
  taken_none generated signed_prekey id header m (none, t) e = refl
  taken_none generated signed_prekey id header m (some key, t) e = cc

  -- The branches of `acceptSession` on a message that decodes to an initial one.
  module _ (generated : KeyPair) (raw : Bytes) (m : InnerMessage) (header : InitialMessageHeader)
      (id : ℕ) (s : S) (d : decode_message raw ≡ ok m) (x : m.x3dh ≡ some header)
      (o : header.one_time_prekey_id ≡ some id) where
    accept_session-other :
        m.type == initial_type ≡ false
        → accept_session c store b generated raw s ≡ (err not_initial, s)
    unfolding accept_session accept_message
    accept_session-other other = rw (d, accept_session) (rw (x, accept_message) (rw other refl))

    accept_session-unknown :
        m.type == initial_type ≡ true
        → store.signed_prekey header.signed_prekey_id s ≡ none
        → accept_session c store b generated raw s
          ≡ (err (unknown_signed_prekey header.signed_prekey_id), s)
    unfolding accept_session accept_message accept_header
    accept_session-unknown initial unknown =
        rw (d, accept_session)
          (rw (x, accept_message) (rw initial (rw (unknown, accept_header) refl)))

    accept_session-taken :
        (spk : KeyPair)
        → m.type == initial_type ≡ true
        → store.signed_prekey header.signed_prekey_id s ≡ some spk
        → accept_session c store b generated raw s
          ≡ accept_taken c store b generated spk id header m.ratchet
              (store.take_one_time_prekey id s)
    unfolding accept_session accept_message accept_header accept_with
    accept_session-taken spk initial known =
        rw (d, accept_session)
          (rw (x, accept_message)
            (rw initial (rw (known, accept_header) (simp (o, accept_with) refl))))

  -- Once `acceptSession` has made a session of an initial message that names a one-time prekey, it
  -- refuses the same bytes, and whatever else decodes to that message: the prekey is gone. The store
  -- is assumed to remove what it hands out.
  pub accept_session-replay :
      (first second : KeyPair) (raw : Bytes) (m : InnerMessage) (header : InitialMessageHeader)
      (id : ℕ) (s s' : S) (got : Session × Bytes)
      → decode_message raw ≡ ok m
      → m.x3dh ≡ some header
      → header.one_time_prekey_id ≡ some id
      → accept_session c store b first raw s ≡ (ok got, s')
      → (accept_session c store b second raw s').0 ≡ err (one_time_prekey_unavailable id)
  accept_session-replay first second raw m header id s s' got d x o e =
      elim (Bool-cases (m.type == initial_type)) [
        | inr other ↦ let refused = accept_session-other first raw m header id s d x o other in cc
        | inl initial ↦ elim (Option-cases (store.signed_prekey header.signed_prekey_id s)) [
          | inl unknown ↦
              let refused = accept_session-unknown first raw m header id s d x o initial unknown in
              cc
          | inr (spk, known) ↦
              let (key, took) =
                taken_ok first spk id header m.ratchet (store.take_one_time_prekey id s) got s' (
                  sym (accept_session-taken first raw m header id s d x o spk initial known) ∙ e) in
              let after : (store.take_one_time_prekey id s).1 ≡ s' = ap (λ r. r.1) took in
              let still : store.signed_prekey header.signed_prekey_id s' ≡ some spk =
                ap (store.signed_prekey header.signed_prekey_id) (sym after)
                ∙ (consuming.keeps_signed id header.signed_prekey_id s ∙ known) in
              ap (λ r. r.0) (accept_session-taken second raw m header id s' d x o spk initial still)
              ∙ taken_none second spk id header m.ratchet (store.take_one_time_prekey id s')
                  (consuming.taken id key s s' took)
        ]
      ]
