-- ===== src/X3dh/Examples.antt =====
-- A handshake on concrete keys.
use shatters.Common.{err, ok, ◌≡◌, refl, true, some, [], length}
use shatters.Crypto.Toy.{toy, toy-IsSound, toy_pair, toy_pair-IsPair, toy_pair-IsSigningPair, block}
use shatters.Kdf.{hkdf_sha256, expand}
use shatters.Identity.{
  identity_dh_message, signed_prekey_message, sign_identity_dh_key, create_signed_prekey,
  verify_signed_prekey, verify_identity_dh_key,
}
use shatters.X3dh.{
  OneTimePrekey, PrekeyBundle, InitiatorSession, ResponderSession, Result, assert_key,
  assert_optional_key, derive_secret, dh_by_private, check_bundle, initiate_x3dh, respond_x3dh,
}
use shatters.X3dh.Agreement.{Parties, bundle_of, prekeys_of, header_of, initiate_x3dh-respond_x3dh}
use shatters.X3dh.Refusals.{initiate_x3dh-verified}

abbrev pub parties : Parties toy
parties = record {
  a = record { signing = toy_pair 11; dh = toy_pair 12 };
  b = record { signing = toy_pair 13; dh = toy_pair 14 };
  ephemeral = toy_pair 15;
  signed_prekey = toy_pair 16;
  signed_prekey_id = 5;
  one_time = some (77, toy_pair 17);
  a_signing = toy_pair-IsSigningPair 11;
  a_dh = toy_pair-IsPair 12;
  b_signing = toy_pair-IsSigningPair 13;
  b_dh = toy_pair-IsPair 14;
  ephemeral_pair = toy_pair-IsPair 15;
  signed_prekey_pair = toy_pair-IsPair 16;
  d1 = block 28;
  d2 = block 29;
  d3 = block 31;
  d1_is = refl;
  d2_is = refl;
  d3_is = refl;
  fourth = (toy_pair-IsPair 17, block 32, refl);
}

abbrev pub bundle : PrekeyBundle
bundle = bundle_of toy parties.b 5 parties.signed_prekey parties.one_time

initiate_x3dh-respond_x3dh_example :
    (i : InitiatorSession) × (initiate_x3dh toy parties.a bundle parties.ephemeral ≡ ok i)
    × (respond_x3dh toy parties.b (prekeys_of parties.signed_prekey parties.one_time) i.header
        ≡ ok (record { shared_secret = i.shared_secret; associated_data = i.associated_data }))
    × (length i.shared_secret ≡ 32)
    × (i.header ≡ header_of toy toy-IsSound parties)
initiate_x3dh-respond_x3dh_example = initiate_x3dh-respond_x3dh toy toy-IsSound parties

abbrev initiator_or : Result InitiatorSession → InitiatorSession
initiator_or (ok i) = i
initiator_or (err _) = record {
  shared_secret = [];
  header = header_of toy toy-IsSound parties;
  associated_data = [];
}

abbrev responder_or : Result ResponderSession → ResponderSession
responder_or (ok r) = r
responder_or (err _) = record { shared_secret = []; associated_data = [] }

abbrev initiated : InitiatorSession
initiated = initiator_or (initiate_x3dh toy parties.a bundle parties.ephemeral)

initiates : initiate_x3dh toy parties.a bundle parties.ephemeral ≡ ok initiated
unfolding initiate_x3dh check_bundle assert_key assert_optional_key verify_signed_prekey
    verify_identity_dh_key signed_prekey_message identity_dh_message sign_identity_dh_key
    create_signed_prekey dh_by_private derive_secret hkdf_sha256 expand
initiates = refl

initiate_x3dh-verified_example :
    (length bundle.identity_key ≡ 32)
    × (length bundle.identity_dh_key ≡ 32)
    × (length bundle.signed_prekey.public_key ≡ 32)
    × ((prekey : OneTimePrekey)
        → bundle.one_time_prekey ≡ some prekey
        → length prekey.public_key ≡ 32)
    × (verify_signed_prekey toy bundle.identity_key bundle.signed_prekey ≡ some true)
    × (verify_identity_dh_key toy bundle.identity_key bundle.identity_dh_key
          bundle.identity_dh_signature
        ≡ some true)
initiate_x3dh-verified_example =
    initiate_x3dh-verified toy parties.a bundle parties.ephemeral initiated initiates
