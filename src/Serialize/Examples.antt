-- ===== src/Serialize/Examples.antt =====
-- A stored session on concrete keys.
use shatters.Common.{ok, ◌≡◌, refl, none, some, [], ◌∷◌, arith, lookup, text_eq}
use shatters.Crypto.Toy.{toy_pair, block}
use shatters.Session.{Session}
use shatters.Serialize.{serialize_session, deserialize_session}
use shatters.Serialize.Roundtrip.{IsStorable, deserialize_session-serialize_session}

abbrev session : Session
session = record {
  state = record {
    root_key = block 1;
    our_ratchet_key = toy_pair 2;
    their_ratchet_key = some (block 3);
    sending_chain_key = some (block 4);
    receiving_chain_key = none;
    send_count = 3;
    receive_count = 2;
    previous_chain_length = 7;
    skipped_keys = (65 ∷ 58 ∷ 48 ∷ [], block 5) ∷ (65 ∷ 58 ∷ 49 ∷ [], block 6) ∷ [];
    associated_data = 1 ∷ 2 ∷ [];
  };
  pending_x3dh = some (record {
    identity_key = block 7;
    identity_dh_key = block 8;
    ephemeral_key = block 9;
    signed_prekey_id = 5;
    one_time_prekey_id = some 77;
  });
}

session-IsStorable : IsStorable session
unfolding lookup text_eq
session-IsStorable = record {
  root_key = omega arith;
  public_key = omega arith;
  private_key = omega arith;
  their_ratchet_key = ((λ e. cc), omega arith);
  sending_chain_key = ((λ e. cc), omega arith);
  receiving_chain_key = tt;
  distinct = (refl, (refl, tt));
  keys = (omega arith, (omega arith, tt));
  associated_data = omega arith;
  pending_x3dh = (omega arith, omega arith, omega arith);
}

deserialize_session-serialize_session_example :
    deserialize_session (some (serialize_session session)) ≡ ok session
deserialize_session-serialize_session_example =
    deserialize_session-serialize_session session session-IsStorable
