-- ===== src/Ratchet/Overtaking.antt =====
-- A session in which a message of a new chain overtakes two of the old one.
use shatters.Common.{
  err, ok, ◌<◌, ◌≡◌, refl, true, false, some, List, [], ◌∷◌, arith, btoa, text_eq, contains, lookup,
  ℕ, Text,
}
use shatters.Message.{RatchetMessage}
use shatters.Crypto.{KeyPair}
use shatters.Crypto.Toy.{toy, toy-IsSound, toy_pair, toy_pair-IsPair, block}
use shatters.Kdf.{hkdf_sha256, expand}
use shatters.Ratchet.State.{
  skipped_key_id, SessionState, Result, KeyMaterial, advance_root_key, advance_chain_key,
  message_key_material, message_associated_data, serialize_header,
}
use shatters.Ratchet.Send.{encrypt_message, seal_message}
use shatters.Ratchet.Window.{chain_ids}
use shatters.Ratchet.Receive.{decrypt_message, is_new_ratchet_key}
use shatters.Ratchet.Chain.{message_key_at}
use shatters.Ratchet.Skip.{Chain, Tracks, Holds}
use shatters.Ratchet.Sealed.{IsSealed}
use shatters.Ratchet.Start.{Awaits}
use shatters.Ratchet.Crossing.{decrypt_message-crosses}
use shatters.Ratchet.Examples.{
  alice_pair, bob_pair, first_step, alice, bob, alice_later, message_or,
}

abbrev material_or : Result KeyMaterial → KeyMaterial
material_or (ok material) = material
material_or (err _) = record { key = []; nonce = [] }

bob_pair_is_other : text_eq bob_pair.public_key (toy_pair 7).public_key ≡ false
unfolding text_eq
bob_pair_is_other = refl

-- The responder on a chain of an earlier key, of which it has read nothing, and two messages are on the way.
abbrev old_pair : KeyPair
old_pair = toy_pair 6

abbrev both_peers : List Text
both_peers = btoa alice_pair.public_key ∷ btoa old_pair.public_key ∷ []

old_chain_ours : contains both_peers (btoa old_pair.public_key) ≡ true
unfolding contains btoa text_eq
old_chain_ours = refl

new_chain_ours : contains both_peers (btoa alice_pair.public_key) ≡ true
unfolding contains btoa text_eq
new_chain_ours = refl

peers_apart : text_eq (btoa old_pair.public_key) (btoa alice_pair.public_key) ≡ false
unfolding btoa text_eq
peers_apart = refl

abbrev old_chain : Chain
old_chain = record {
  start = block 4;
  ratchet_key = old_pair.public_key;
  associated_data = 1 ∷ 2 ∷ [];
  top = 20;
  peers = both_peers;
  few = omega arith;
  ours = old_chain_ours;
}

abbrev next_chain : Chain
next_chain = record {
  start = first_step.chain_key;
  ratchet_key = alice_pair.public_key;
  associated_data = 1 ∷ 2 ∷ [];
  top = 10;
  peers = both_peers;
  few = omega arith;
  ours = new_chain_ours;
}

abbrev bob_midway : SessionState
bob_midway = record bob {
  their_ratchet_key = some old_pair.public_key;
  receiving_chain_key = some (block 4);
}

bob_midway-Tracks : Tracks toy old_chain bob_midway
unfolding chain_ids contains lookup
bob_midway-Tracks = record {
  their_ratchet_key = refl;
  receiving_chain_key = refl;
  associated_data = refl;
  roomy = record { fresh = λ i le. refl; room = omega arith; known = λ k e. cc };
}

abbrev crossing : RatchetMessage
crossing =
    message_or (encrypt_message toy (33 ∷ []) (record alice_later { previous_chain_length = 2 })).0

crossing-IsSealed : IsSealed toy next_chain (33 ∷ []) crossing
unfolding encrypt_message seal_message message_key_material hkdf_sha256 expand advance_chain_key
    message_associated_data serialize_header
crossing-IsSealed = record {
  material = material_or (message_key_material toy (message_key_at toy next_chain.start 1));
  material_is = refl;
  dh_public_key = refl;
  ciphertext = refl;
}

alice-Awaits_midway : Awaits toy alice bob_midway
unfolding advance_root_key hkdf_sha256 expand is_new_ratchet_key text_eq
alice-Awaits_midway = record {
  our_pair = toy_pair-IsPair 3;
  peer_pair = toy_pair-IsPair 5;
  their_ratchet_key = refl;
  associated_data = refl;
  root_length = refl;
  shared = block 8;
  shared_is = refl;
  step = first_step;
  step_is = refl;
  root_key = refl;
  sending_chain_key = refl;
  is_new = refl;
}

crossing_number : crossing.header.message_number < 10
unfolding encrypt_message seal_message message_key_material hkdf_sha256 expand advance_chain_key
crossing_number = omega arith

crossing_previous : crossing.header.previous_chain_length ≡ 2
unfolding encrypt_message seal_message message_key_material hkdf_sha256 expand advance_chain_key
crossing_previous = refl

decrypt_message-crosses_example :
    (next : SessionState) × (decrypt_message toy (toy_pair 7) crossing bob_midway
      ≡ (ok (33 ∷ []), next))
    × Tracks toy next_chain next
    × Awaits toy next alice
    × ((j : ℕ)
        → j < crossing.header.previous_chain_length
        → Holds toy old_chain j bob_midway
        → lookup (skipped_key_id old_chain.ratchet_key j) next.skipped_keys
          ≡ some (message_key_at toy old_chain.start j))
unfolding alice-Awaits_midway advance_root_key lookup
decrypt_message-crosses_example =
    decrypt_message-crosses toy toy-IsSound old_chain next_chain (toy_pair 7) (33 ∷ []) (block 10)
      crossing alice bob_midway alice-Awaits_midway refl refl refl crossing-IsSealed crossing_number
      bob_midway-Tracks (omega arith) (omega (arith, crossing_previous)) refl peers_apart
      (λ i. refl) (toy_pair-IsPair 7) refl bob_pair_is_other
