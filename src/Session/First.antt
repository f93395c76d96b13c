-- ===== src/Session/First.antt =====
-- web/src/lib/crypto/session.ts: the first message of a session, from the bundle to the plaintext.
use shatters.Common.{ok, ℕ, ◌≡◌, refl, ap, ◌∙◌, false, Option, none, some, text_eq}
use shatters.Bytes.{Bytes}
use shatters.Message.{InitialMessageHeader, RatchetMessage}
use shatters.Crypto.{Crypto, KeyPair, IsSound, IsPair}
use shatters.Identity.{Identity, create_signed_prekey}
use shatters.Envelope.Writer.{initial_type}
use shatters.Envelope.Reader.{decode_message}
use shatters.Envelope.Wire.{IsU32, IsOptionalU32, IsX3dhHeader}
use shatters.Envelope.Roundtrip.{encode_initial_message-decode_message}
use shatters.Ratchet.State.{SessionState, initialize_responder}
use shatters.Ratchet.Receive.{decrypt_message}
use shatters.Ratchet.Start.{Awaits, initialize-Awaits}
use shatters.Ratchet.Opening.{Awaits-Opening}
use shatters.X3dh.{ResponderSession, ResponderPrekeys, respond_x3dh, optional}
use shatters.X3dh.Agreement.{Parties, bundle_of, prekeys_of, initiate_x3dh-respond_x3dh}
use shatters.X3dh.Refusals.{respond_x3dh-checked}
use shatters.Session.{
  Session, PrekeyStore, start_session, establish, accept_taken, accept_with, accept_header,
  accept_message, accept_session, encode_for, encoded, encrypt,
}

-- The store hands out the one-time prekey that the bundle named.
abbrev pub HandsOut : {S : Type 0} → PrekeyStore S → Option (ℕ × KeyPair) → S → Type 0
HandsOut store none s = Unit
HandsOut {S} store (some (id, pair)) s =
    (s' : S) × (store.take_one_time_prekey id s ≡ (some pair, s'))

pair_of : ℕ × KeyPair → KeyPair
pair_of (_, pair) = pair

module _ (c : Crypto) where
  establish-ok :
      (b : Identity) (generated spk : KeyPair) (one_time : Option (ℕ × KeyPair))
      (header : InitialMessageHeader) (m : RatchetMessage) (r : ResponderSession)
      (st st' : SessionState) (plaintext : Bytes)
      → respond_x3dh c b (prekeys_of spk one_time) header ≡ ok r
      → initialize_responder r.shared_secret r.associated_data spk ≡ ok st
      → decrypt_message c generated m st ≡ (ok plaintext, st')
      → establish c b generated spk (optional pair_of one_time) header m
        ≡ ok (record { state = st'; pending_x3dh = none }, plaintext)
  unfolding establish pair_of
  establish-ok b generated spk none header m r st st' plaintext e f g = rw e (rw f (rw g refl))
  establish-ok b generated spk (some _) header m r st st' plaintext e f g = rw e (rw f (rw g refl))

  accept_session-establish :
      {S : Type 0} (store : PrekeyStore S) (b : Identity) (generated spk : KeyPair) (raw : Bytes)
      (header : InitialMessageHeader) (m : RatchetMessage) (one_time : Option (ℕ × KeyPair)) (s : S)
      → decode_message raw ≡ ok (record { type = initial_type; x3dh = some header; ratchet = m })
      → store.signed_prekey header.signed_prekey_id s ≡ some spk
      → header.one_time_prekey_id ≡ optional (λ (p : ℕ × KeyPair). p.0) one_time
      → HandsOut store one_time s
      → (s' : S) × (accept_session c store b generated raw s
          ≡ (establish c b generated spk (optional pair_of one_time) header m, s'))
  unfolding accept_session accept_message accept_header accept_with accept_taken pair_of
  accept_session-establish store b generated spk raw header m none s d k o has =
      (s, rw (d, accept_session) (rw (k, accept_header) (simp (o, accept_with) refl)))
  accept_session-establish store b generated spk raw header m (some (id, pair)) s d k o (s', took) =
      (s', rw (d, accept_session) (rw (k, accept_header) (simp (o, accept_with) (rw took refl))))

  checked-IsX3dhHeader :
      (b : Identity) (prekeys : ResponderPrekeys) (header : InitialMessageHeader)
      (r : ResponderSession)
      → respond_x3dh c b prekeys header ≡ ok r
      → IsU32 header.signed_prekey_id
      → IsOptionalU32 header.one_time_prekey_id
      → IsX3dhHeader header
  checked-IsX3dhHeader b prekeys header r e u v =
      let (x, y, z, _, _) = respond_x3dh-checked c b prekeys header r e in
      record {
        identity_key = x;
        identity_dh_key = y;
        ephemeral_key = z;
        signed_prekey_id = u;
        one_time_prekey_id = v;
      }

-- The initiator starts a session on a bundle that the responder published and encrypts a plaintext;
-- the responder accepts the bytes that come of it, and gets the session and that plaintext. No step
-- throws, and the responder then stands on a chain of its own that the initiator will turn to. The
-- responder's store is assumed to hold the prekeys that the bundle named, the ids to be of 32 bits, the
-- fresh key pairs to be as the library makes them, the responder's to be no signed prekey of its own,
-- and no output to be refused as weak.
pub start_session-accept_session :
    (c : Crypto) (laws : IsSound c) (w : Parties c) {S : Type 0} (store : PrekeyStore S) (s : S)
    (a_ratchet b_ratchet : KeyPair) (shared dh_out plaintext : Bytes)
    → IsPair c a_ratchet
    → IsPair c b_ratchet
    → c.scalarmult a_ratchet.private_key w.signed_prekey.public_key ≡ some shared
    → c.scalarmult b_ratchet.private_key a_ratchet.public_key ≡ some dh_out
    → text_eq w.signed_prekey.public_key b_ratchet.public_key ≡ false
    → store.signed_prekey w.signed_prekey_id s ≡ some w.signed_prekey
    → HandsOut store w.one_time s
    → IsU32 w.signed_prekey_id
    → IsOptionalU32 (optional (λ (p : ℕ × KeyPair). p.0) w.one_time)
    → (session later accepted : Session) × (raw : Bytes) × (s' : S) × (start_session c w.a
          (bundle_of c w.b w.signed_prekey_id w.signed_prekey w.one_time)
          w.ephemeral
          a_ratchet
        ≡ ok session)
      × (encrypt c plaintext session ≡ (ok raw, later))
      × (accept_session c store w.b b_ratchet raw s ≡ (ok (accepted, plaintext), s'))
      × Awaits c accepted.state later.state
unfolding start_session encrypt encoded encode_for create_signed_prekey
start_session-accept_session c laws w store s a_ratchet b_ratchet shared dh_out plaintext pair_a
      pair_b e_shared e_out other known has u v =
    let (i, ei, er, long, eh) = initiate_x3dh-respond_x3dh c laws w in
    let (a0, b0, ea, eb, st, aw) =
      initialize-Awaits c laws i.shared_secret i.associated_data w.signed_prekey a_ratchet shared
        long w.signed_prekey_pair pair_a e_shared in
    let o =
      Awaits-Opening c laws w.signed_prekey a_ratchet b_ratchet dh_out plaintext a0 b0 st aw pair_b
        e_out other in
    let hx =
      checked-IsX3dhHeader c w.b (prekeys_of w.signed_prekey w.one_time) i.header _ er (rw eh u)
        (rw eh v) in
    let (raw, e_raw, e_dec) =
      encode_initial_message-decode_message i.header o.message hx o.on_wire in
    let (s', acc) =
      accept_session-establish c store w.b b_ratchet w.signed_prekey raw i.header o.message
        w.one_time s e_dec (rw eh known) (rw eh refl) has in
    let est =
      establish-ok c w.b b_ratchet w.signed_prekey w.one_time i.header o.message _ b0 o.received
        plaintext er eb o.decrypts in
    (
      record { state = a0; pending_x3dh = some i.header },
      record { state = o.sent; pending_x3dh = some i.header },
      record { state = o.received; pending_x3dh = none },
      raw,
      s',
      rw (ei, start_session) (rw ea refl),
      rw o.encrypts (rw e_raw refl),
      acc ∙ ap (λ r. (r, s')) est,
      o.awaits,
    )
