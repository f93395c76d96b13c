-- ===== src/Envelope/Roundtrip.antt =====
-- web/src/lib/crypto/envelope.ts: what the encoders write is the wire format, and the decoder reads
-- it back.
use Prim.Native.String.{String}
use shatters.Common.{
  ok, ℕ, ◌<◌, ◌≡◌, ◌≢◌, refl, ◌⊎◌, inl, inr, false, Option, none, some, [], ◌∷◌, ◌++◌, length,
  arith, append_assoc, append-nil, is_empty,
}
use shatters.Bytes.{Bytes, set_u32}
use shatters.Message.{MessageHeader, RatchetMessage, InitialMessageHeader}
use shatters.Envelope.Writer.{
  initial_type, normal_type, Result, encode_initial_message, encode_normal_message, Writer, finish,
  write_one_time_prekey, write_u32, write_bytes, assert_key, finish_message, write_ratchet_header,
}
use shatters.Envelope.Reader.{
  Reader, InnerMessage, read_one_time_prekey, read_x3dh, read_type_header, read_ratchet,
  read_message, decode_message, u8, rest,
}
use shatters.Envelope.Reader.Framing.{remaining, Reads, u8-Reads, u32-Reads, bytes-Reads}
use shatters.Envelope.Wire.{
  one_time_prekey_wire, x3dh_wire, ratchet_wire, x3dh_part, wire, IsOptionalU32, IsX3dhHeader,
  IsRatchetMessage, IsTyped, IsMessage,
}

read_one_time_prekey-Reads :
    (id : Option ℕ) (r : Reader) (xs : Bytes)
    → IsOptionalU32 id
    → remaining r ≡ one_time_prekey_wire id ++ xs
    → (flag : ℕ) × (s : Reader) × (flag < 2)
      × (u8 r ≡ ok (flag, s))
      × Reads (read_one_time_prekey flag) s id xs
unfolding read_one_time_prekey
read_one_time_prekey-Reads none r xs h e =
    let (s, flag, after) = u8-Reads r 0 xs e in (0, s, omega arith, flag, (s, refl, after))
read_one_time_prekey-Reads (some id) r xs h e =
    let (s, flag, after) = u8-Reads r 1 (set_u32 id ++ xs) e in
    let (t, read, left) = u32-Reads s id xs h after in
    (1, s, omega arith, flag, (t, ground arith, left))

read_x3dh-Reads :
    (h : InitialMessageHeader) (r : Reader) (xs : Bytes)
    → IsX3dhHeader h
    → remaining r ≡ x3dh_wire h xs
    → Reads read_x3dh r h xs
unfolding read_x3dh
read_x3dh-Reads h r xs v e =
    let (r₁, e₁, l₁) = bytes-Reads r 32 h.identity_key _ v.identity_key (omega arith) e in
    let (r₂, e₂, l₂) = bytes-Reads r₁ 32 h.identity_dh_key _ v.identity_dh_key (omega arith) l₁ in
    let (r₃, e₃, l₃) = bytes-Reads r₂ 32 h.ephemeral_key _ v.ephemeral_key (omega arith) l₂ in
    let (r₄, e₄, l₄) = u32-Reads r₃ h.signed_prekey_id _ v.signed_prekey_id l₃ in
    let (flag, r₅, small, e₅, (r₆, e₆, l₆)) =
      read_one_time_prekey-Reads h.one_time_prekey_id r₄ xs v.one_time_prekey_id l₄ in
    (r₆, ground arith, l₆)

read_type_header-Reads :
    (type : ℕ) (x3dh : Option InitialMessageHeader) (r : Reader) (xs : Bytes)
    → IsTyped type x3dh
    → remaining r ≡ x3dh_part x3dh xs
    → Reads (read_type_header type) r x3dh xs
unfolding read_type_header
read_type_header-Reads type none r xs v e = (r, ground arith, e)
read_type_header-Reads type (some h) r xs v e =
    let (s, read, left) = read_x3dh-Reads h r xs v.1 e in (s, ground arith, left)

nonempty : (xs : Bytes) → xs ≢ [] → is_empty xs ≡ false
nonempty [] h = absurd (h refl)
nonempty (x ∷ xs) h = refl

read_ratchet-Reads :
    (m : RatchetMessage) (r : Reader)
    → IsRatchetMessage m
    → remaining r ≡ ratchet_wire m
    → (s : Reader) × (read_ratchet r ≡ ok (m, s))
unfolding read_ratchet rest
read_ratchet-Reads m r v e =
    let (r₁, e₁, l₁) = bytes-Reads r 32 m.header.dh_public_key _ v.dh_public_key (omega arith) e in
    let (r₂, e₂, l₂) = u32-Reads r₁ m.header.previous_chain_length _ v.previous_chain_length l₁ in
    let (r₃, e₃, l₃) = u32-Reads r₂ m.header.message_number m.ciphertext v.message_number l₂ in
    (record r₃ { offset = length r₃.buf }, ground (arith, nonempty m.ciphertext v.ciphertext))

IsTyped-known :
    (type : ℕ) (x3dh : Option InitialMessageHeader)
    → IsTyped type x3dh
    → (type < 256) × ((type ≡ 1) ⊎ (type ≡ 2))
IsTyped-known type none v = (omega arith, inr v)
IsTyped-known type (some h) v = (omega arith, inl v.0)

read_message-Reads :
    (m : InnerMessage) (r : Reader)
    → IsMessage m
    → remaining r ≡ wire m
    → (s : Reader) × (read_message r ≡ ok (m, s))
unfolding read_message
read_message-Reads m r v e =
    let (r₁, e₁, l₁) = u8-Reads r 1 _ e in
    let (r₂, e₂, l₂) = u8-Reads r₁ m.type _ l₁ in
    let (r₃, e₃, l₃) = read_type_header-Reads m.type m.x3dh r₂ _ v.typed l₂ in
    let (r₄, e₄) = read_ratchet-Reads m.ratchet r₃ v.ratchet l₃ in
    (r₄, ground (arith, IsTyped-known m.type m.x3dh v.typed))

-- The decoder reads every message that the wire format can carry back from its bytes.
pub decode_message-wire : (m : InnerMessage) → IsMessage m → decode_message (wire m) ≡ ok m
unfolding decode_message
decode_message-wire m v =
    ground (arith, read_message-Reads m (record { buf = wire m; offset = 0 }) v refl)

finish-append : (ws vs : Writer) → finish (ws ++ vs) ≡ finish ws ++ finish vs
finish-append [] vs = refl
finish-append (w ∷ ws) vs = rw (finish-append ws vs, append_assoc)

assert_key-pass {ℓ} :
    {A : Type ℓ} (name : String) (key : Bytes) (after : Result A)
    → length key ≡ 32
    → assert_key name key after ≡ after
unfolding assert_key
assert_key-pass name key after h = ground arith

write_ratchet_header-pass :
    (h : MessageHeader) (w : Writer)
    → length h.dh_public_key ≡ 32
    → write_ratchet_header h w
      ≡ ok (
          write_u32 h.message_number
            (write_u32 h.previous_chain_length (write_bytes h.dh_public_key w)))
unfolding write_ratchet_header
write_ratchet_header-pass h w e = assert_key-pass "ratchet header dhPublicKey" h.dh_public_key _ e

finish_message-wire :
    (m : RatchetMessage) (w : Writer)
    → length m.header.dh_public_key ≡ 32
    → finish_message m w ≡ ok (finish w ++ ratchet_wire m)
unfolding finish_message
finish_message-wire m w h =
    rw (write_ratchet_header-pass m.header w h, finish_message)
      (simp (finish-append, append_assoc, append-nil))

finish-write_one_time_prekey :
    (id : Option ℕ) (w : Writer)
    → finish (write_one_time_prekey id w) ≡ finish w ++ one_time_prekey_wire id
finish-write_one_time_prekey none w = finish-append w _
finish-write_one_time_prekey (some id) w = simp (finish-append, append_assoc, append-nil)

encode_initial_message-wire :
    (h : InitialMessageHeader) (m : RatchetMessage)
    → IsX3dhHeader h
    → IsRatchetMessage m
    → encode_initial_message h m
      ≡ ok (wire (record { type = initial_type; x3dh = some h; ratchet = m }))
unfolding encode_initial_message
encode_initial_message-wire h m v w =
    rw
      (
        assert_key-pass "identityKey" h.identity_key _ v.identity_key,
        assert_key-pass "identityDhKey" h.identity_dh_key _ v.identity_dh_key,
        assert_key-pass "ephemeralKey" h.ephemeral_key _ v.ephemeral_key,
        finish_message-wire m _ w.dh_public_key,
        finish-write_one_time_prekey h.one_time_prekey_id _,
      )
      (simp (append_assoc, append-nil))

encode_normal_message-wire :
    (m : RatchetMessage)
    → IsRatchetMessage m
    → encode_normal_message m ≡ ok (wire (record { type = normal_type; x3dh = none; ratchet = m }))
unfolding encode_normal_message
encode_normal_message-wire m w = finish_message-wire m _ w.dh_public_key

pub encode_initial_message-decode_message :
    (h : InitialMessageHeader) (m : RatchetMessage)
    → IsX3dhHeader h
    → IsRatchetMessage m
    → (raw : Bytes) × (encode_initial_message h m ≡ ok raw)
      × (decode_message raw ≡ ok (record { type = initial_type; x3dh = some h; ratchet = m }))
encode_initial_message-decode_message h m v w = (
  _,
  encode_initial_message-wire h m v w,
  decode_message-wire (record { type = initial_type; x3dh = some h; ratchet = m })
      (record { typed = (refl, v); ratchet = w }),
)

encode_normal_message-decode_message :
    (m : RatchetMessage)
    → IsRatchetMessage m
    → (raw : Bytes) × (encode_normal_message m ≡ ok raw)
      × (decode_message raw ≡ ok (record { type = normal_type; x3dh = none; ratchet = m }))
encode_normal_message-decode_message m w = (
  _,
  encode_normal_message-wire m w,
  decode_message-wire (record { type = normal_type; x3dh = none; ratchet = m })
      (record { typed = refl; ratchet = w }),
)

-- A message whose keys have 32 bytes, whose ids and counters lie below 2^32 and whose ciphertext is not
-- empty is encoded and decoded as the message, with its header as one of the initial type, and
-- without as one of the normal type.
pub decode_message-encode_message :
    (h : InitialMessageHeader) (m : RatchetMessage)
    → IsX3dhHeader h
    → IsRatchetMessage m
    → ((raw : Bytes) × (encode_initial_message h m ≡ ok raw)
        × (decode_message raw ≡ ok (record { type = initial_type; x3dh = some h; ratchet = m })))
      × ((raw : Bytes) × (encode_normal_message m ≡ ok raw)
          × (decode_message raw ≡ ok (record { type = normal_type; x3dh = none; ratchet = m })))
decode_message-encode_message h m v w =
    (encode_initial_message-decode_message h m v w, encode_normal_message-decode_message m w)
