-- ===== src/Ratchet/Send.antt =====
-- web/src/lib/crypto/ratchet.ts: `encryptMessage`.
use shatters.Common.{◌+◌, none, some}
use shatters.Bytes.{Bytes}
use shatters.Message.{MessageHeader, RatchetMessage}
use shatters.Crypto.{Crypto}
use shatters.Ratchet.State.{
  SessionState, M, ◌>>=◌, pure, throw, lift, gets, no_sending_chain, advance_chain_key,
  message_key_material, message_associated_data,
}

abbrev pub next_header : SessionState → MessageHeader
next_header state = record {
  dh_public_key = state.our_ratchet_key.public_key;
  previous_chain_length = state.previous_chain_length;
  message_number = state.send_count;
}

module _ (c : Crypto) where
  -- From the message key on: the header is that of the state before the count went up.
  unfoldable pub seal_message : MessageHeader → Bytes → Bytes → M RatchetMessage
  seal_message header message_key plaintext = do
    material ← lift (message_key_material c message_key)
    ad ← gets (λ s. message_associated_data s header)
    pure (record {
      header = header;
      ciphertext = c.aead_encrypt plaintext ad material.nonce material.key;
    })

  unfoldable pub encrypt_message : Bytes → M RatchetMessage
  encrypt_message plaintext state = elim state.sending_chain_key [
    | none ↦ throw no_sending_chain state
    | some sending ↦
        let step = advance_chain_key c sending in
        seal_message (next_header state) step.message_key plaintext (record state {
          sending_chain_key = some step.chain_key;
          send_count = state.send_count + 1;
        })
  ]
