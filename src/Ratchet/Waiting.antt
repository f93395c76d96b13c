-- ===== src/Ratchet/Waiting.antt =====
-- web/src/lib/crypto/ratchet.ts, `encryptMessage`: sending on does not disturb the turn that the ends
-- are in.
use shatters.Common.{ok, ◌≡◌, sym, ap, ◌∙◌, none, arith}
use shatters.Bytes.{Bytes}
use shatters.Message.{RatchetMessage}
use shatters.Crypto.{Crypto}
use shatters.Ratchet.State.{SessionState}
use shatters.Ratchet.Send.{seal_message, encrypt_message}
use shatters.Ratchet.Receive.{is_new_ratchet_key}
use shatters.Ratchet.Start.{Awaits}

-- The state without what `encryptMessage` changes.
abbrev reading_half : SessionState → SessionState
reading_half s = record s { sending_chain_key = none; send_count = 0 }

encrypt_message-reading_half :
    (c : Crypto) (plaintext : Bytes) (s : SessionState)
    → reading_half (encrypt_message c plaintext s).1 ≡ reading_half s
unfolding encrypt_message seal_message
encrypt_message-reading_half c plaintext s = ground arith

-- The end that is waited for sends more on the chain that it has.
pub encrypt_message-Awaits :
    (c : Crypto) (plaintext : Bytes) (b a a' : SessionState) (m : RatchetMessage)
    → encrypt_message c plaintext a ≡ (ok m, a')
    → Awaits c b a
    → Awaits c b a'
unfolding is_new_ratchet_key
encrypt_message-Awaits c plaintext b a a' m e w =
    let same : reading_half a' ≡ reading_half a =
      ap (λ r. reading_half r.1) (sym e) ∙ encrypt_message-reading_half c plaintext a in
    let pair : a'.our_ratchet_key ≡ a.our_ratchet_key = ap (λ s. s.our_ratchet_key) same in
    let theirs : a'.their_ratchet_key ≡ a.their_ratchet_key = ap (λ s. s.their_ratchet_key) same in
    let root : a'.root_key ≡ a.root_key = ap (λ s. s.root_key) same in
    let ad : a'.associated_data ≡ a.associated_data = ap (λ s. s.associated_data) same in
    record {
      our_pair = w.our_pair;
      peer_pair = rw pair w.peer_pair;
      their_ratchet_key = rw pair w.their_ratchet_key;
      associated_data = ad ∙ w.associated_data;
      root_length = rw root w.root_length;
      shared = w.shared;
      shared_is = rw pair w.shared_is;
      step = w.step;
      step_is = rw root w.step_is;
      root_key = w.root_key;
      sending_chain_key = w.sending_chain_key;
      is_new = rw theirs w.is_new;
    }
