-- ===== src/X3dh/Refusals.antt =====
-- web/src/lib/crypto/x3dh.ts: what the handshake refuses.
use shatters.Common.{
  >>=-inv, err, ok, ◌≡◌, refl, Bool, true, false, Option, none, some, length, if◌then◌else◌, arith,
  is_some,
}
use shatters.Bytes.{Bytes}
use shatters.Message.{InitialMessageHeader}
use shatters.Crypto.{Crypto, KeyPair}
use shatters.Identity.{Identity, verify_signed_prekey, verify_identity_dh_key}
use shatters.X3dh.{
  OneTimePrekey, optional, public_key_of, PrekeyBundle, InitiatorSession, ResponderSession,
  ResponderPrekeys, KeyName, X3dhError, differ, assert_key, assert_optional_key, require_verified,
  check_bundle, check_header, initiate_x3dh, respond_x3dh,
}

assert_key-inv : (name : KeyName) (key : Bytes) → assert_key name key ≡ ok tt → length key ≡ 32
unfolding assert_key
assert_key-inv name key e = ground arith

assert_optional_key-inv :
    (name : KeyName) (o : Option OneTimePrekey)
    → assert_optional_key name (optional public_key_of o) ≡ ok tt
    → (prekey : OneTimePrekey) → o ≡ some prekey
    → length prekey.public_key ≡ 32
unfolding assert_optional_key
assert_optional_key-inv name none e prekey is = cc
assert_optional_key-inv name (some found) e prekey is =
    let length_is = assert_key-inv name found.public_key e in
    let same : found ≡ prekey = cc in rw⁻¹ same length_is

require_verified-inv :
    (x : X3dhError) (v : Option Bool) → require_verified x v ≡ ok tt → v ≡ some true
require_verified-inv x none e = cc
require_verified-inv x (some true) e = refl
require_verified-inv x (some false) e = cc

-- A bundle that `initiateX3DH` makes a session with has keys of 32 bytes, its one-time prekey included
-- where it has one, and carries two valid signatures of its identity key: of the signed prekey, and of the Diffie-Hellman key.
pub initiate_x3dh-verified :
    (c : Crypto) (a : Identity) (bundle : PrekeyBundle) (ephemeral : KeyPair) (i : InitiatorSession)
    → initiate_x3dh c a bundle ephemeral ≡ ok i
    → (length bundle.identity_key ≡ 32)
      × (length bundle.identity_dh_key ≡ 32)
      × (length bundle.signed_prekey.public_key ≡ 32)
      × ((prekey : OneTimePrekey)
          → bundle.one_time_prekey ≡ some prekey
          → length prekey.public_key ≡ 32)
      × (verify_signed_prekey c bundle.identity_key bundle.signed_prekey ≡ some true)
      × (verify_identity_dh_key c bundle.identity_key bundle.identity_dh_key
            bundle.identity_dh_signature
          ≡ some true)
unfolding initiate_x3dh check_bundle
initiate_x3dh-verified c a bundle ephemeral i e =
    let (_, checked, _) = >>=-inv (check_bundle c bundle) _ i e in
    let (_, p, rest) =
      >>=-inv (assert_key KeyName.bundle_identity_key bundle.identity_key) _ tt checked in
    let (_, q, rest) =
      >>=-inv (assert_key KeyName.bundle_identity_dh_key bundle.identity_dh_key) _ tt rest in
    let (_, r, rest) =
      >>=-inv (assert_key KeyName.bundle_signed_prekey bundle.signed_prekey.public_key) _ tt rest in
    let (_, o, rest) = >>=-inv (assert_optional_key _ _) _ tt rest in
    let (_, v, last) = >>=-inv (require_verified _ _) _ tt rest in
    (
      assert_key-inv KeyName.bundle_identity_key bundle.identity_key p,
      assert_key-inv KeyName.bundle_identity_dh_key bundle.identity_dh_key q,
      assert_key-inv KeyName.bundle_signed_prekey bundle.signed_prekey.public_key r,
      assert_optional_key-inv KeyName.bundle_one_time_prekey bundle.one_time_prekey o,
      require_verified-inv X3dhError.signed_prekey_signature
          (verify_signed_prekey c bundle.identity_key bundle.signed_prekey) v,
      require_verified-inv X3dhError.identity_dh_signature
          (verify_identity_dh_key c bundle.identity_key bundle.identity_dh_key
            bundle.identity_dh_signature)
          last,
    )

-- A header that `respondX3DH` makes a session with has keys of 32 bytes, and names a one-time prekey
-- exactly when the private half of one was supplied.
pub respond_x3dh-checked :
    (c : Crypto) (b : Identity) (prekeys : ResponderPrekeys) (header : InitialMessageHeader)
    (r : ResponderSession)
    → respond_x3dh c b prekeys header ≡ ok r
    → (length header.identity_key ≡ 32)
      × (length header.identity_dh_key ≡ 32)
      × (length header.ephemeral_key ≡ 32)
      × (length prekeys.signed_prekey_private ≡ 32)
      × (is_some header.one_time_prekey_id ≡ is_some prekeys.one_time_prekey_private)
unfolding respond_x3dh check_header
respond_x3dh-checked c b prekeys header r e =
    let (_, checked, _) = >>=-inv (check_header c prekeys header) _ r e in
    let (_, p, rest) =
      >>=-inv (assert_key KeyName.header_identity_key header.identity_key) _ tt checked in
    let (_, q, rest) =
      >>=-inv (assert_key KeyName.header_identity_dh_key header.identity_dh_key) _ tt rest in
    let (_, s, rest) =
      >>=-inv (assert_key KeyName.header_ephemeral_key header.ephemeral_key) _ tt rest in
    let (_, t, rest) =
      >>=-inv (assert_key KeyName.signed_prekey_private prekeys.signed_prekey_private) _ tt rest in
    (
      assert_key-inv KeyName.header_identity_key header.identity_key p,
      assert_key-inv KeyName.header_identity_dh_key header.identity_dh_key q,
      assert_key-inv KeyName.header_ephemeral_key header.ephemeral_key s,
      assert_key-inv KeyName.signed_prekey_private prekeys.signed_prekey_private t,
      agree (is_some header.one_time_prekey_id) (is_some prekeys.one_time_prekey_private) rest,
    )
  where
    agree :
        (x y : Bool)
        → (if differ x y
            then err X3dhError.one_time_prekey_mismatch
            else assert_optional_key KeyName.one_time_prekey_private
                prekeys.one_time_prekey_private)
          ≡ ok tt
        → x ≡ y
    agree true true h = refl
    agree true false h = cc
    agree false true h = cc
    agree false false h = refl
