-- ===== src/Ratchet/Examples.antt =====
-- Sessions of two ends on concrete keys, and the theorems on them.
use shatters.Common.{
  err, ok, ◌≡◌, refl, true, none, some, List, [], ◌∷◌, All, arith, btoa, text_eq, contains,
  unique_from, lookup,
}
use mathlib.Core.List.{Memᴰ}
use shatters.Bytes.{Bytes}
use shatters.Message.{RatchetMessage}
use shatters.Crypto.{KeyPair}
use shatters.Crypto.Toy.{toy, toy-IsSound, toy_pair, block}
use shatters.Kdf.{hkdf_sha256, expand}
use shatters.Ratchet.State.{
  SessionState, Result, RootStep, advance_root_key, advance_chain_key, message_key_material,
  message_associated_data, serialize_header, authentication_failed, initialize_initiator,
  initialize_responder,
}
use shatters.Ratchet.Send.{encrypt_message, seal_message}
use shatters.Ratchet.Window.{skip_message_keys, skip_loop, chain_ids, chains, last_colon, chain_of}
use shatters.Ratchet.Receive.{
  decrypt_message, receive_message, turn_ratchet, is_new_ratchet_key, take_message_key,
  decrypt_with_message_key, clone_state, conclude,
}
use shatters.Ratchet.Atomic.{decrypt_message-atomic}
use shatters.Ratchet.Bounds.{IsWindow}
use shatters.Ratchet.Preserve.{sessions-IsWindow}
use shatters.Ratchet.Tracks.{IsRoomy}
use shatters.Ratchet.Skip.{Chain, Tracks}
use shatters.Ratchet.Sealed.{SendsOn}
use shatters.Ratchet.Order.{Sends, done, sent, Opens, DistinctNumbers, messages_open_in_any_order}

abbrev secret : Bytes
secret = block 9

-- The initiator's fresh pair and the responder's signed prekey.
abbrev pub alice_pair : KeyPair
alice_pair = toy_pair 3

abbrev pub bob_pair : KeyPair
bob_pair = toy_pair 5

abbrev step_or : Result RootStep → RootStep
step_or (ok step) = step
step_or (err _) = record { root_key = []; chain_key = [] }

abbrev pub first_step : RootStep
first_step = step_or (advance_root_key toy secret (block 8))

abbrev pub alice : SessionState
alice = record {
  root_key = first_step.root_key;
  our_ratchet_key = alice_pair;
  their_ratchet_key = some bob_pair.public_key;
  sending_chain_key = some first_step.chain_key;
  receiving_chain_key = none;
  send_count = 0;
  receive_count = 0;
  previous_chain_length = 0;
  skipped_keys = [];
  associated_data = 1 ∷ 2 ∷ [];
}

abbrev pub bob : SessionState
bob = record {
  root_key = secret;
  our_ratchet_key = bob_pair;
  their_ratchet_key = none;
  sending_chain_key = none;
  receiving_chain_key = none;
  send_count = 0;
  receive_count = 0;
  previous_chain_length = 0;
  skipped_keys = [];
  associated_data = 1 ∷ 2 ∷ [];
}

alice_starts :
    initialize_initiator toy secret (1 ∷ 2 ∷ []) bob_pair.public_key alice_pair ≡ ok alice
unfolding initialize_initiator advance_root_key hkdf_sha256 expand
alice_starts = refl

bob_starts : initialize_responder secret (1 ∷ 2 ∷ []) bob_pair ≡ ok bob
unfolding initialize_responder
bob_starts = refl

contains_head : contains (btoa alice_pair.public_key ∷ []) (btoa alice_pair.public_key) ≡ true
unfolding contains btoa text_eq
contains_head = refl

abbrev first_chain : Chain
first_chain = record {
  start = first_step.chain_key;
  ratchet_key = alice_pair.public_key;
  associated_data = 1 ∷ 2 ∷ [];
  top = 10;
  peers = btoa alice_pair.public_key ∷ [];
  few = omega arith;
  ours = contains_head;
}

-- The responder once it reads on the initiator's first chain.
abbrev bob_reading : SessionState
bob_reading = record bob {
  their_ratchet_key = some alice_pair.public_key;
  receiving_chain_key = some first_step.chain_key;
}

empty-IsRoomy : IsRoomy alice_pair.public_key 10 (btoa alice_pair.public_key ∷ []) 0 []
unfolding chain_ids contains lookup
empty-IsRoomy = record { fresh = λ i le. refl; room = omega arith; known = λ k e. cc }

alice-SendsOn : SendsOn toy first_chain alice
alice-SendsOn = record { sending_chain_key = refl; our_ratchet_key = refl; associated_data = refl }

bob_reading-Tracks : Tracks toy first_chain bob_reading
bob_reading-Tracks = record {
  their_ratchet_key = refl;
  receiving_chain_key = refl;
  associated_data = refl;
  roomy = empty-IsRoomy;
}

abbrev pub message_or : Result RatchetMessage → RatchetMessage
message_or (ok m) = m
message_or (err _) = record {
  header = record { dh_public_key = []; previous_chain_length = 0; message_number = 0 };
  ciphertext = [];
}

abbrev hello : RatchetMessage
hello = message_or (encrypt_message toy (104 ∷ 105 ∷ []) alice).0

abbrev pub alice_later : SessionState
alice_later = (encrypt_message toy (104 ∷ 105 ∷ []) alice).1

abbrev again : RatchetMessage
again = message_or (encrypt_message toy (33 ∷ []) alice_later).0

abbrev alice_last : SessionState
alice_last = (encrypt_message toy (33 ∷ []) alice_later).1

both : List (RatchetMessage × Bytes)
both = (hello, 104 ∷ 105 ∷ []) ∷ (again, 33 ∷ []) ∷ []

swapped : List (RatchetMessage × Bytes)
swapped = (again, 33 ∷ []) ∷ (hello, 104 ∷ 105 ∷ []) ∷ []

both-Sends : Sends toy alice both alice_last
unfolding encrypt_message seal_message message_key_material hkdf_sha256 expand both
both-Sends = sent (104 ∷ 105 ∷ []) refl (sent (33 ∷ []) refl done)

swapped-Mem : All (λ d. Memᴰ d both) swapped
unfolding both swapped
swapped-Mem = (Memᴰ.tail (Memᴰ.head refl), (Memᴰ.head refl, tt))

swapped-DistinctNumbers : DistinctNumbers swapped
unfolding swapped encrypt_message seal_message message_key_material hkdf_sha256 expand
    advance_chain_key
swapped-DistinctNumbers = (((λ e. omega arith), tt), (tt, tt))

messages_open_in_any_order_example : Opens toy bob_pair bob_reading swapped
messages_open_in_any_order_example =
    messages_open_in_any_order toy toy-IsSound first_chain bob_pair both swapped refl alice-SendsOn
      bob_reading-Tracks (omega arith) (unfold both in omega arith) both-Sends swapped-Mem
      swapped-DistinctNumbers

-- A message whose ciphertext was altered on the way.
abbrev forged : RatchetMessage
forged = record { header = hello.header; ciphertext = 0 ∷ 0 ∷ [] }

forged_fails : (decrypt_message toy (toy_pair 7) forged bob_reading).0 ≡ err authentication_failed
unfolding decrypt_message receive_message turn_ratchet is_new_ratchet_key text_eq skip_message_keys
    skip_loop take_message_key decrypt_with_message_key message_key_material message_associated_data
    serialize_header hkdf_sha256 expand advance_chain_key encrypt_message seal_message clone_state
    conclude lookup advance_root_key
forged_fails = refl

decrypt_message-atomic_example :
    (decrypt_message toy (toy_pair 7) forged bob_reading).1 ≡ bob_reading
decrypt_message-atomic_example =
    decrypt_message-atomic toy (toy_pair 7) forged bob_reading authentication_failed forged_fails

abbrev bob_caching : SessionState
bob_caching = record bob_reading { skipped_keys = (65 ∷ 58 ∷ 48 ∷ [], block 4) ∷ [] }

bob_caching-IsWindow : IsWindow bob_caching.skipped_keys
unfolding chains chain_ids chain_of last_colon unique_from contains
bob_caching-IsWindow = record {
  keyed = ((λ e. cc), tt);
  keys_bounded = omega arith;
  chains_bounded = omega arith;
}

sessions-IsWindow_example :
    IsWindow (encrypt_message toy (1 ∷ []) bob_caching).1.skipped_keys
    × IsWindow (decrypt_message toy (toy_pair 7) again bob_caching).1.skipped_keys
sessions-IsWindow_example =
    sessions-IsWindow toy (toy_pair 7) (1 ∷ []) again bob_caching bob_caching-IsWindow
