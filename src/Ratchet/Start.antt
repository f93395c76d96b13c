-- ===== src/Ratchet/Start.antt =====
-- web/src/lib/crypto/ratchet.ts: the start of a session.
use shatters.Common.{
  ok, ◌≡◌, refl, inl, inr, true, none, some, [], length, length-take_le, take, drop, arith,
}
use shatters.Bytes.{Bytes}
use shatters.Crypto.{Crypto, KeyPair, IsSound, IsPair}
use shatters.Kdf.Output.{hkdf_sha256-length}
use shatters.Ratchet.State.{
  SessionState, RootStep, root_domain, advance_root_key, initialize_initiator, initialize_responder,
}
use shatters.Ratchet.Receive.{is_new_ratchet_key}
use shatters.Ratchet.Chain.{chain_at}

-- `a` has turned its ratchet and `b`, which its messages go to, has not: `a` stands on the chain that
-- `b` will derive from the root key that it still has.
pub record Awaits (c : Crypto) (a b : SessionState) : Type 0 where
  pub our_pair : IsPair c a.our_ratchet_key
  pub peer_pair : IsPair c b.our_ratchet_key
  pub their_ratchet_key : a.their_ratchet_key ≡ some b.our_ratchet_key.public_key
  pub associated_data : b.associated_data ≡ a.associated_data
  pub root_length : length b.root_key ≡ 32
  pub shared : Bytes
  pub shared_is :
      c.scalarmult a.our_ratchet_key.private_key b.our_ratchet_key.public_key ≡ some shared
  pub step : RootStep
  pub step_is : advance_root_key c b.root_key shared ≡ ok step
  pub root_key : a.root_key ≡ step.root_key
  pub sending_chain_key : a.sending_chain_key ≡ some (chain_at c step.chain_key a.send_count)
  pub is_new : is_new_ratchet_key c b a.our_ratchet_key.public_key ≡ true

-- Both ends before any message.
pub record IsStart (signed_prekey generated : KeyPair) (a b : SessionState) : Type 0 where
  pub a_pair : a.our_ratchet_key ≡ generated
  pub a_count : a.send_count ≡ 0
  pub a_previous : a.previous_chain_length ≡ 0
  pub b_pair : b.our_ratchet_key ≡ signed_prekey
  pub b_idle : b.receiving_chain_key ≡ none
  pub b_empty : b.skipped_keys ≡ []

module _ (c : Crypto) (laws : IsSound c) where
  pub advance_root_key-ok :
      (root dh : Bytes)
      → length root ≡ 32
      → (step : RootStep) × (advance_root_key c root dh ≡ ok step) × (length step.root_key ≡ 32)
  unfolding advance_root_key
  advance_root_key-ok root dh long = elim (hkdf_sha256-length c laws dh root root_domain 64) [
    | inl (out, e, n, _, _, _) ↦ (
      record { root_key = take 32 out; chain_key = drop 32 out },
      rw e refl,
      length-take_le 32 out (omega arith),
    )
    | inr (_, _, why) ↦ absurd (ground (arith, why))
  ]

  pub advance_root_key-length :
      (root dh : Bytes) (step : RootStep)
      → length root ≡ 32
      → advance_root_key c root dh ≡ ok step
      → length step.root_key ≡ 32
  advance_root_key-length root dh step long e =
      let (made, f, n) = advance_root_key-ok root dh long in
      let same : made ≡ step = cc in rw⁻¹ same n

  abbrev initiator_state : (root chain ad peer : Bytes) (generated : KeyPair) → SessionState
  initiator_state root chain ad peer generated = record {
    root_key = root;
    our_ratchet_key = generated;
    their_ratchet_key = some peer;
    sending_chain_key = some chain;
    receiving_chain_key = none;
    send_count = 0;
    receive_count = 0;
    previous_chain_length = 0;
    skipped_keys = [];
    associated_data = ad;
  }

  abbrev responder_state : (root ad : Bytes) (signed_prekey : KeyPair) → SessionState
  responder_state root ad signed_prekey = record {
    root_key = root;
    our_ratchet_key = signed_prekey;
    their_ratchet_key = none;
    sending_chain_key = none;
    receiving_chain_key = none;
    send_count = 0;
    receive_count = 0;
    previous_chain_length = 0;
    skipped_keys = [];
    associated_data = ad;
  }

  -- The two initializations, on what the handshake agreed on, leave the initiator awaiting.
  pub initialize-Awaits :
      (secret ad : Bytes) (signed_prekey generated : KeyPair) (shared : Bytes)
      → length secret ≡ 32
      → IsPair c signed_prekey
      → IsPair c generated
      → c.scalarmult generated.private_key signed_prekey.public_key ≡ some shared
      → (a : SessionState) × (b : SessionState) × (initialize_initiator c secret ad
            signed_prekey.public_key generated
          ≡ ok a)
        × (initialize_responder secret ad signed_prekey ≡ ok b)
        × IsStart signed_prekey generated a b
        × Awaits c a b
  unfolding initialize_initiator initialize_responder is_new_ratchet_key
  initialize-Awaits secret ad signed_prekey generated shared long p q e =
      let (step, f, _) = advance_root_key-ok secret shared long in
      (
        initiator_state step.root_key step.chain_key ad signed_prekey.public_key generated,
        responder_state secret ad signed_prekey,
        simp (long, p.public_length, e, initialize_initiator) (rw f refl),
        simp (long, initialize_responder) refl,
        record {
          a_pair = refl;
          a_count = refl;
          a_previous = refl;
          b_pair = refl;
          b_idle = refl;
          b_empty = refl;
        },
        record {
          our_pair = q;
          peer_pair = p;
          their_ratchet_key = refl;
          associated_data = refl;
          root_length = long;
          shared = shared;
          shared_is = e;
          step = step;
          step_is = f;
          root_key = refl;
          sending_chain_key = refl;
          is_new = refl;
        },
      )
