-- ===== src/Serialize/Roundtrip.antt =====
-- web/src/lib/crypto/serialize.ts: a stored session comes back as it was.
use shatters.Common.{
  ok, ◌≡◌, ◌≢◌, refl, sym, ap, ◌∙◌, false, Option, none, some, List, [], ◌∷◌, ◌++◌, Text, All,
  arith, atob-btoa, btoa-nonempty, append_assoc, append-nil, assign, lookup, IsDistinct, text_eq,
  text_eq_iff,
}
use shatters.Bytes.{Bytes, IsBytes}
use shatters.Message.{InitialMessageHeader}
use shatters.Crypto.{KeyPair}
use shatters.Session.{Session}
use shatters.Serialize.{
  encode, decode, encode_key_pair, decode_key_pair, encode_optional, decode_optional,
  encode_entries, decode_entries, map_of, encode_header, decode_header, serialize_session,
  rebuild_session, deserialize_session,
}

-- Present keys are bytes, and some.
abbrev pub IsOptionalKey : Option Bytes → Type 0
IsOptionalKey none = Unit
IsOptionalKey (some key) = (key ≢ []) × IsBytes key

abbrev pub IsPending : Option InitialMessageHeader → Type 0
IsPending none = Unit
IsPending (some h) = IsBytes h.identity_key × IsBytes h.identity_dh_key × IsBytes h.ephemeral_key

-- A session of byte arrays, no key of which is empty where it is optional, and whose cache is a `Map`.
pub record IsStorable (s : Session) : Type 0 where
  pub root_key : IsBytes s.state.root_key
  pub public_key : IsBytes s.state.our_ratchet_key.public_key
  pub private_key : IsBytes s.state.our_ratchet_key.private_key
  pub their_ratchet_key : IsOptionalKey s.state.their_ratchet_key
  pub sending_chain_key : IsOptionalKey s.state.sending_chain_key
  pub receiving_chain_key : IsOptionalKey s.state.receiving_chain_key
  pub distinct : IsDistinct s.state.skipped_keys
  pub keys : All (λ e. IsBytes e.1) s.state.skipped_keys
  pub associated_data : IsBytes s.state.associated_data
  pub pending_x3dh : IsPending s.pending_x3dh

decode-encode : (bytes : Bytes) → IsBytes bytes → decode (encode bytes) ≡ ok bytes
unfolding encode decode
decode-encode bytes h = rw (atob-btoa bytes h) refl

decode_key_pair-encode :
    (pair : KeyPair)
    → IsBytes pair.public_key
    → IsBytes pair.private_key
    → decode_key_pair (encode_key_pair pair) ≡ ok pair
unfolding encode_key_pair decode_key_pair
decode_key_pair-encode pair p q =
    rw (decode-encode pair.public_key p) (rw (decode-encode pair.private_key q) refl)

decode_optional-text :
    (text : Text) (key : Bytes)
    → text ≢ []
    → decode text ≡ ok key
    → decode_optional (some text) ≡ ok (some key)
unfolding decode_optional
decode_optional-text [] key n e = absurd (n refl)
decode_optional-text (u ∷ us) key n e = rw e refl

decode_optional-encode :
    (key : Option Bytes) → IsOptionalKey key → decode_optional (encode_optional key) ≡ ok key
unfolding encode_optional
decode_optional-encode none h = unfold decode_optional in refl
decode_optional-encode (some key) h =
    decode_optional-text (encode key) key (unfold encode in btoa-nonempty key h.0)
      (decode-encode key h.1)

decode_entries-encode :
    (m : List (Text × Bytes)) → All (λ e. IsBytes e.1) m → decode_entries (encode_entries m) ≡ ok m
unfolding encode_entries decode_entries
decode_entries-encode [] h = refl
decode_entries-encode ((id, key) ∷ m) h =
    rw (decode-encode key h.0) (rw (decode_entries-encode m h.1) refl)

-- An assignment to a new key goes to the end.
assign-new :
    (id : Text) (key : Bytes) (m : List (Text × Bytes))
    → lookup id m ≡ none
    → assign id key m ≡ m ++ (id, key) ∷ []
unfolding assign lookup
assign-new id key [] h = refl
assign-new id key ((j, v) ∷ m) h = ground (arith, assign-new id key m)

lookup-append_one :
    (k id : Text) (key : Bytes) (m : List (Text × Bytes))
    → lookup k m ≡ none
    → text_eq id k ≡ false
    → lookup k (m ++ (id, key) ∷ []) ≡ none
unfolding lookup
lookup-append_one k id key [] h n = rw n refl
lookup-append_one k id key ((j, v) ∷ m) h n = ground (arith, lookup-append_one k id key m)

fresh-append_one :
    (id : Text) (key : Bytes) (map m : List (Text × Bytes))
    → lookup id m ≡ none
    → All (λ e. lookup e.0 map ≡ none) m
    → All (λ e. lookup e.0 (map ++ (id, key) ∷ []) ≡ none) m
unfolding lookup
fresh-append_one id key map [] h f = tt
fresh-append_one id key map ((j, v) ∷ m) h f = (
  lookup-append_one j id key map f.0 (ground (arith, text_eq_iff id j, text_eq_iff j id)),
  fresh-append_one id key map m (ground arith) f.1,
)

map_of-append :
    (map m : List (Text × Bytes))
    → IsDistinct m
    → All (λ e. lookup e.0 map ≡ none) m
    → map_of map m ≡ map ++ m
unfolding map_of
map_of-append map [] d f = sym (append-nil map)
map_of-append map ((id, key) ∷ m) d f =
    ap (λ (n : List (Text × Bytes)). map_of n m) (assign-new id key map f.0)
    ∙ (map_of-append (map ++ (id, key) ∷ []) m d.1 (fresh-append_one id key map m d.0 f.1)
        ∙ append_assoc map ((id, key) ∷ []) m)

nothing_there : (m : List (Text × Bytes)) → All (λ e. lookup {V = Bytes} e.0 [] ≡ none) m
unfolding lookup
nothing_there [] = tt
nothing_there (e ∷ m) = (refl, nothing_there m)

decode_header-encode :
    (header : Option InitialMessageHeader)
    → IsPending header
    → decode_header (encode_header header) ≡ ok header
unfolding encode_header decode_header
decode_header-encode none h = refl
decode_header-encode (some header) h = rw (decode-encode header.identity_key h.0) (
    rw (decode-encode header.identity_dh_key h.1)
      (rw (decode-encode header.ephemeral_key h.2) refl))

-- A session that is serialized and read back is the same session: both keys, the chains and counts,
-- every cached key, and the pending handshake. Its arrays are assumed to hold bytes, the optional keys
-- not to be empty, and no id to stand twice in the cache.
pub deserialize_session-serialize_session :
    (s : Session) → IsStorable s → deserialize_session (some (serialize_session s)) ≡ ok s
unfolding serialize_session deserialize_session rebuild_session
deserialize_session-serialize_session s h = rw (decode-encode s.state.root_key h.root_key) (
    rw (decode_key_pair-encode s.state.our_ratchet_key h.public_key h.private_key) (
      rw (decode_optional-encode s.state.their_ratchet_key h.their_ratchet_key) (
        rw (decode_optional-encode s.state.sending_chain_key h.sending_chain_key) (
          rw (decode_optional-encode s.state.receiving_chain_key h.receiving_chain_key) (
            rw (decode_entries-encode s.state.skipped_keys h.keys) (
              rw (decode-encode s.state.associated_data h.associated_data) (
                rw (decode_header-encode s.pending_x3dh h.pending_x3dh) (
                  rw
                    (map_of-append [] s.state.skipped_keys h.distinct
                      (nothing_there s.state.skipped_keys))
                    refl))))))))
