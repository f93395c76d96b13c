-- ===== src/Ratchet/Receive.antt =====
-- web/src/lib/crypto/ratchet.ts: `dhRatchet` and `decryptMessage`.
use shatters.Common.{
  err, ok, ◌+◌, Bool, true, not, Option, none, some, Text, length, ◌==◌, if◌then◌else◌, lookup,
  text_eq, remove_key,
}
use shatters.Bytes.{Bytes}
use shatters.Message.{MessageHeader, RatchetMessage}
use shatters.Crypto.{Crypto, KeyPair}
use shatters.Ratchet.State.{
  SessionState, Result, M, ◌>>=◌, ◌>>◌, pure, throw, lift, gets, modify, or_weak,
  authentication_failed, malformed_ratchet_key, no_receiving_chain, key_length, advance_root_key,
  advance_chain_key, message_key_material, message_associated_data, skipped_key_id,
}
use shatters.Ratchet.Window.{skip_message_keys}

abbrev pub opened : Option Bytes → Result Bytes
opened none = err authentication_failed
opened (some plaintext) = ok plaintext

module _ (c : Crypto) where
  unfoldable pub decrypt_with_message_key : Bytes → MessageHeader → Bytes → M Bytes
  decrypt_with_message_key message_key header ciphertext = do
    material ← lift (message_key_material c message_key)
    ad ← gets (λ s. message_associated_data s header)
    lift (opened (c.aead_decrypt ciphertext ad material.nonce material.key))

  -- `generated` is what `crypto_kx_keypair` returns in this call.
  unfoldable pub dh_ratchet : KeyPair → Bytes → M (Unit {0})
  dh_ratchet generated their_ratchet_key = do
    modify (λ s. record s {
      previous_chain_length = s.send_count;
      send_count = 0;
      receive_count = 0;
      their_ratchet_key = some their_ratchet_key;
    })
    ours ← gets (λ s. s.our_ratchet_key)
    receive_dh ← lift (or_weak (c.scalarmult ours.private_key their_ratchet_key))
    root ← gets (λ s. s.root_key)
    receiving ← lift (advance_root_key c root receive_dh)
    modify (λ s. record s {
      root_key = receiving.root_key;
      receiving_chain_key = some receiving.chain_key;
    })
    modify (λ s. record s { our_ratchet_key = generated })
    send_dh ← lift (or_weak (c.scalarmult generated.private_key their_ratchet_key))
    sending ← lift (advance_root_key c receiving.root_key send_dh)
    modify
        (λ s. record s { root_key = sending.root_key; sending_chain_key = some sending.chain_key })

  -- `!theirRatchetKey || !bytesEqual(theirRatchetKey, dhPublicKey)`.
  unfoldable pub is_new_ratchet_key : SessionState → Bytes → Bool
  is_new_ratchet_key state key = elim state.their_ratchet_key [
    | none ↦ true
    | some theirs ↦ not (text_eq theirs key)
  ]

  unfoldable pub turn_ratchet : KeyPair → MessageHeader → M (Unit {0})
  turn_ratchet generated header state =
      if is_new_ratchet_key state header.dh_public_key
      then ((skip_message_keys c header.previous_chain_length
            >> dh_ratchet generated header.dh_public_key)
          state)
      else pure tt state

  -- The chain moves on by the message itself.
  unfoldable pub take_message_key : M Bytes
  take_message_key state = elim state.receiving_chain_key [
    | none ↦ throw no_receiving_chain state
    | some receiving ↦
        let step = advance_chain_key c receiving in
        (
          ok step.message_key,
          record state {
            receiving_chain_key = some step.chain_key;
            receive_count = state.receive_count + 1;
          },
        )
  ]

  -- What `decryptMessage` does on its working copy.
  unfoldable pub receive_message : KeyPair → RatchetMessage → M Bytes
  receive_message generated message = do
    turn_ratchet generated message.header
    skip_message_keys c message.header.message_number
    message_key ← take_message_key
    decrypt_with_message_key message_key message.header message.ciphertext

-- `cloneState`: every array is copied.
unfoldable pub clone_state : SessionState → SessionState
clone_state state = record {
  root_key = state.root_key;
  our_ratchet_key = state.our_ratchet_key;
  their_ratchet_key = state.their_ratchet_key;
  sending_chain_key = state.sending_chain_key;
  receiving_chain_key = state.receiving_chain_key;
  send_count = state.send_count;
  receive_count = state.receive_count;
  previous_chain_length = state.previous_chain_length;
  skipped_keys = state.skipped_keys;
  associated_data = state.associated_data;
}

-- `commitState`: all but the associated data.
unfoldable pub commit_state : (target source : SessionState) → SessionState
commit_state target source = record target {
  root_key = source.root_key;
  our_ratchet_key = source.our_ratchet_key;
  their_ratchet_key = source.their_ratchet_key;
  sending_chain_key = source.sending_chain_key;
  receiving_chain_key = source.receiving_chain_key;
  send_count = source.send_count;
  receive_count = source.receive_count;
  previous_chain_length = source.previous_chain_length;
  skipped_keys = source.skipped_keys;
}

-- The end of `decryptMessage`: the working copy is committed if it got a plaintext.
unfoldable pub conclude : SessionState → Result Bytes × SessionState → Result Bytes × SessionState
conclude state (ok plaintext, working) = (ok plaintext, commit_state state working)
conclude state (err e, working) = (err e, state)

-- The branch for a key in the cache, which is dropped once the message proved genuine.
unfoldable pub conclude_cached : Text → Result Bytes × SessionState → Result Bytes × SessionState
conclude_cached id (ok plaintext, state) =
    (ok plaintext, record state { skipped_keys = remove_key id state.skipped_keys })
conclude_cached id (err e, state) = (err e, state)

module _ (c : Crypto) where
  unfoldable pub decrypt_message : KeyPair → RatchetMessage → M Bytes
  decrypt_message generated message state =
      if not (length message.header.dh_public_key == key_length)
      then throw malformed_ratchet_key state
      else (let id = skipped_key_id message.header.dh_public_key message.header.message_number in
          elim (lookup id state.skipped_keys) [
            | some cached ↦
                conclude_cached id
                  (decrypt_with_message_key c cached message.header message.ciphertext state)
            | none ↦ conclude state (receive_message c generated message (clone_state state))
          ])
