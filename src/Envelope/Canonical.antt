-- ===== src/Envelope/Canonical.antt =====
-- web/src/lib/crypto/envelope.ts, `decodeMessage`: what it accepts, and only that, is the wire format
-- of a message.
use shatters.Common.{
  err, ok, ℕ, zero, suc, ◌<◌, ◌≡◌, ◌≢◌, refl, sym, ap, ap₂, ◌∙◌, ◌⊎◌, inl, inr, ◌↔◌, true, not,
  ◌&&◌, Option, none, some, [], ◌∷◌, ◌++◌, arith, subst, ltb, ◌==◌, ==_iff, is_empty,
}
use shatters.Bytes.{Bytes, IsBytes, set_u32}
use shatters.Message.{RatchetMessage, InitialMessageHeader}
use shatters.Envelope.Writer.{
  malformed_flag, unsupported_version, unknown_type, missing_ciphertext, Result,
}
use shatters.Envelope.Reader.{
  Reader, InnerMessage, read_one_time_prekey, read_x3dh, read_type_header, read_ratchet,
  read_message, decode_message, u8, u32, bytes, rest, guard, pure,
}
use shatters.Envelope.Reader.Framing.{
  remaining, u8-inv, u32-inv, bytes-inv, >>=-inv, >>=-elim, guard-inv, pure-elim,
}
use shatters.Envelope.Wire.{
  one_time_prekey_wire, x3dh_wire, ratchet_wire, x3dh_part, wire, IsOptionalU32, IsX3dhHeader,
  IsRatchetMessage, IsTyped, IsMessage,
}
use shatters.Envelope.Roundtrip.{decode_message-wire}

All-tail_append : (xs ys : Bytes) → IsBytes (xs ++ ys) → IsBytes ys
All-tail_append [] ys h = h
All-tail_append (x ∷ xs) ys h = All-tail_append xs ys h.1

-- What is left behind a front of bytes is bytes.
behind : {xs : Bytes} (ys zs : Bytes) → xs ≡ ys ++ zs → IsBytes xs → IsBytes zs
behind ys zs e h = All-tail_append ys zs (rw e at h)

read_one_time_prekey-inv :
    (flag : ℕ) (r s : Reader) (id : Option ℕ)
    → IsBytes (remaining r)
    → flag < 2
    → read_one_time_prekey flag r ≡ ok (id, s)
    → (flag ∷ remaining r ≡ one_time_prekey_wire id ++ remaining s) × IsOptionalU32 id
unfolding read_one_time_prekey
read_one_time_prekey-inv zero r s id h small e =
    pure-elim
      (λ id s. (0 ∷ remaining r ≡ one_time_prekey_wire id ++ remaining s) × IsOptionalU32 id) none
      id r s e (refl, tt)
read_one_time_prekey-inv (suc zero) r s id h small e =
    let (n, t, read, done) = >>=-inv u32 (λ n. pure (some n)) r s id e in
    let (front, bound) = u32-inv r n t h read in
    pure-elim
      (λ id s. (1 ∷ remaining r ≡ one_time_prekey_wire id ++ remaining s) × IsOptionalU32 id)
      (some n) id t s done (ap (λ xs. 1 ∷ xs) front, bound)
read_one_time_prekey-inv (suc (suc n)) r s id h small e = absurd (omega arith)

read_x3dh-inv :
    (r s : Reader) (h : InitialMessageHeader)
    → IsBytes (remaining r)
    → read_x3dh r ≡ ok (h, s)
    → (remaining r ≡ x3dh_wire h (remaining s)) × IsX3dhHeader h
unfolding read_x3dh
read_x3dh-inv r s h b₀ e₀ = >>=-elim (bytes 32) _ r s h e₀ λ ik r₁ k₁ e₁.
    >>=-elim (bytes 32) _ r₁ s h e₁ λ idk r₂ k₂ e₂. >>=-elim (bytes 32) _ r₂ s h e₂ λ ek r₃ k₃ e₃.
      >>=-elim u32 _ r₃ s h e₃ λ spk r₄ k₄ e₄. >>=-elim u8 _ r₄ s h e₄ λ flag r₅ k₅ e₅.
        >>=-elim (guard (not (ltb 1 flag)) malformed_flag) _ r₅ s h e₅ λ _ r₆ k₆ e₆.
          >>=-elim (read_one_time_prekey flag) _ r₆ s h e₆ λ otk r₇ k₇ e₇.
            let (l₁, n₁) = bytes-inv r 32 ik r₁ k₁ in
            let (l₂, n₂) = bytes-inv r₁ 32 idk r₂ k₂ in
            let (l₃, n₃) = bytes-inv r₂ 32 ek r₃ k₃ in
            let b₃ = behind ek _ l₃ (behind idk _ l₂ (behind ik _ l₁ b₀)) in
            let (l₄, n₄) = u32-inv r₃ spk r₄ b₃ k₄ in
            let l₅ = u8-inv r₄ flag r₅ k₅ in
            let (pass, same) = guard-inv (not (ltb 1 flag)) malformed_flag r₅ r₆ k₆ in
            let b₅ = behind (flag ∷ []) _ l₅ (behind (set_u32 spk) _ l₄ b₃) in
            let small : flag < 2 = ground arith in
            let (l₆, n₆) = read_one_time_prekey-inv flag r₆ r₇ otk (rw same b₅) small k₇ in
            pure-elim (λ h s. (remaining r ≡ x3dh_wire h (remaining s)) × IsX3dhHeader h) _ h r₇ s
              e₇
              (
                l₁
                    ∙ ap (◌++◌ ik) (
                        l₂
                        ∙ ap (◌++◌ idk) (
                            l₃
                            ∙ ap (◌++◌ ek) (
                                l₄
                                ∙ ap (◌++◌ (set_u32 spk))
                                    (l₅ ∙ ap (λ t. flag ∷ remaining t) (sym same) ∙ l₆)))),
                record {
                  identity_key = n₁;
                  identity_dh_key = n₂;
                  ephemeral_key = n₃;
                  signed_prekey_id = n₄;
                  one_time_prekey_id = n₆;
                },
              )

read_type_header-inv :
    (type : ℕ) (r s : Reader) (x3dh : Option InitialMessageHeader)
    → IsBytes (remaining r)
    → (type ≡ 1) ⊎ (type ≡ 2)
    → read_type_header type r ≡ ok (x3dh, s)
    → (remaining r ≡ x3dh_part x3dh (remaining s)) × IsTyped type x3dh
unfolding read_type_header
read_type_header-inv type r s x3dh b (inl one) e =
    >>=-elim read_x3dh _ r s x3dh (rw (one, read_type_header) at e) λ h t k e₁.
      let (l, v) = read_x3dh-inv r t h b k in
      pure-elim (λ x s. (remaining r ≡ x3dh_part x (remaining s)) × IsTyped type x) _ x3dh t s e₁
        (l, (one, v))
read_type_header-inv type r s x3dh b (inr two) e =
    pure-elim (λ x s. (remaining r ≡ x3dh_part x (remaining s)) × IsTyped type x) none x3dh r s
      (rw (two, read_type_header) at e) (refl, two)

not_empty : (xs : Bytes) → not (is_empty xs) ≡ true → xs ≢ []
not_empty [] h = cc
not_empty (x ∷ xs) h = λ e. cc

read_ratchet-inv :
    (r s : Reader) (m : RatchetMessage)
    → IsBytes (remaining r)
    → read_ratchet r ≡ ok (m, s)
    → (remaining r ≡ ratchet_wire m) × IsRatchetMessage m
unfolding read_ratchet rest
read_ratchet-inv r s m b₀ e₀ = >>=-elim (bytes 32) _ r s m e₀ λ dh r₁ k₁ e₁.
    >>=-elim u32 _ r₁ s m e₁ λ pn r₂ k₂ e₂. >>=-elim u32 _ r₂ s m e₂ λ n r₃ k₃ e₃.
      >>=-elim (guard (not (is_empty (remaining r₃))) missing_ciphertext) _ _ s m e₃ λ _ r₄ k₄ e₄.
        let (l₁, n₁) = bytes-inv r 32 dh r₁ k₁ in
        let b₁ = behind dh _ l₁ b₀ in
        let (l₂, n₂) = u32-inv r₁ pn r₂ b₁ k₂ in
        let (l₃, n₃) = u32-inv r₂ n r₃ (behind (set_u32 pn) _ l₂ b₁) k₃ in
        let (full, _) = guard-inv (not (is_empty (remaining r₃))) missing_ciphertext _ r₄ k₄ in
        pure-elim (λ m _. (remaining r ≡ ratchet_wire m) × IsRatchetMessage m) _ m r₄ s e₄
          (
            l₁ ∙ ap (◌++◌ dh) (l₂ ∙ ap (◌++◌ (set_u32 pn)) l₃),
            record {
              dh_public_key = n₁;
              previous_chain_length = n₂;
              message_number = n₃;
              ciphertext = not_empty (remaining r₃) full;
            },
          )

known : (type : ℕ) → not (not (type == 1) && not (type == 2)) ≡ true → (type ≡ 1) ⊎ (type ≡ 2)
known type h = ground arith

x3dh_part-IsBytes :
    (x3dh : Option InitialMessageHeader) (xs : Bytes) → IsBytes (x3dh_part x3dh xs) → IsBytes xs
x3dh_part-IsBytes none xs h = h
x3dh_part-IsBytes (some h) xs b = All-tail_append (one_time_prekey_wire h.one_time_prekey_id) _ (
    All-tail_append (set_u32 h.signed_prekey_id) _ (
      All-tail_append h.ephemeral_key _
        (All-tail_append h.identity_dh_key _ (All-tail_append h.identity_key _ b))))

read_message-inv :
    (r s : Reader) (m : InnerMessage)
    → IsBytes (remaining r)
    → read_message r ≡ ok (m, s)
    → (remaining r ≡ wire m) × IsMessage m
unfolding read_message
read_message-inv r s m b₀ e₀ = >>=-elim u8 _ r s m e₀ λ version r₁ k₁ e₁.
    >>=-elim (guard (version == 1) (unsupported_version version)) _ r₁ s m e₁ λ _ r₂ k₂ e₂.
      >>=-elim u8 _ r₂ s m e₂ λ type r₃ k₃ e₃.
        >>=-elim (guard (not (not (type == 1) && not (type == 2))) (unknown_type type)) _ r₃ s m e₃
          λ _ r₄ k₄ e₄. >>=-elim (read_type_header type) _ r₄ s m e₄ λ x3dh r₅ k₅ e₅.
            >>=-elim read_ratchet _ r₅ s m e₅ λ ratchet r₆ k₆ e₆.
              let l₁ = u8-inv r version r₁ k₁ in
              let (v₁, same₂) = guard-inv _ _ r₁ r₂ k₂ in
              let l₃ = u8-inv r₂ type r₃ k₃ in
              let (v₃, same₄) = guard-inv _ _ r₃ r₄ k₄ in
              let b₂ : IsBytes (remaining r₂) = rw same₂ (behind (version ∷ []) _ l₁ b₀) in
              let b₄ : IsBytes (remaining r₄) = rw same₄ (behind (type ∷ []) _ l₃ b₂) in
              let (l₅, typed) = read_type_header-inv type r₄ r₅ x3dh b₄ (known type v₃) k₅ in
              let b₅ = x3dh_part-IsBytes x3dh (remaining r₅) (subst IsBytes l₅ b₄) in
              let (l₆, v₆) = read_ratchet-inv r₅ r₆ ratchet b₅ k₆ in
              let one : version ≡ 1 = (==_iff version 1).0 v₁ in
              pure-elim (λ m _. (remaining r ≡ wire m) × IsMessage m) _ m r₆ s e₆
                (
                  l₁
                      ∙ ap₂ (λ v t. v ∷ t) one
                          (ap remaining (sym same₂)
                            ∙ l₃
                            ∙ ap (λ t. type ∷ t)
                                (ap remaining (sym same₄) ∙ l₅ ∙ ap (x3dh_part x3dh) l₆)),
                  record { typed = typed; ratchet = v₆ },
                )

decode_message-inv :
    (raw : Bytes) (m : InnerMessage)
    → IsBytes raw
    → decode_message raw ≡ ok m
    → (raw ≡ wire m) × IsMessage m
unfolding decode_message
decode_message-inv raw m b e = finished (read_message start) refl
  where
    start : Reader
    start = record { buf = raw; offset = 0 }

    finished :
        (x : Result (InnerMessage × Reader)) → read_message start ≡ x → (raw ≡ wire m) × IsMessage m
    finished (ok (n, s)) p =
        let same : ok n ≡ ok m = rw (p, decode_message) at e in
        let read : read_message start ≡ ok (m, s) = ground arith in
        read_message-inv start s m b read
    finished (err x) p = absurd (ground arith)

-- Over byte arrays, the decoder returns a message exactly when the input is the wire format of that
-- message and the message is one that the format can carry: keys of 32 bytes, ids and counters below
-- 2^32, a ciphertext that is not empty, and an X3DH header exactly for the initial type. So each
-- message has one encoding, and every other input is an error.
pub decode_message_iff :
    (raw : Bytes) (m : InnerMessage)
    → IsBytes raw
    → (decode_message raw ≡ ok m) ↔ ((raw ≡ wire m) × IsMessage m)
decode_message_iff raw m b =
    (decode_message-inv raw m b, λ p. ap decode_message p.0 ∙ decode_message-wire m p.1)
