-- ===== src/X3dh/Agreement.antt =====
-- web/src/lib/crypto/x3dh.ts: the two halves of the handshake agree.
use shatters.Common.{
  err, ok, ℕ, ◌≡◌, refl, sym, ap, ◌∙◌, inl, inr, Option, none, some, List, [], ◌∷◌, ◌++◌, length,
  arith, if◌then◌else◌, is_some,
}
use shatters.Bytes.{Bytes, zeroes}
use shatters.Message.{InitialMessageHeader}
use shatters.Crypto.{Crypto, KeyPair, IsSound, IsPair, IsSigningPair}
use shatters.Kdf.Output.{hkdf_sha256-length}
use shatters.Identity.{Identity, create_signed_prekey, sign_identity_dh_key}
use shatters.Identity.Domains.{verify-create}
use shatters.X3dh.{
  PrekeyBundle, OneTimePrekey, InitiatorSession, ResponderPrekeys, KeyName, X3dhError,
  public_key_of, optional, assert_key, assert_optional_key, filled, concat, x3dh_domain,
  associated_data_of, derive_secret, differ, id_of, dh_by_private, dh_by_public, check_bundle,
  check_header, initiate_x3dh, respond_x3dh,
}

abbrev pub published : ℕ × KeyPair → OneTimePrekey
published (id, pair) = record { id = id; public_key = pair.public_key }

abbrev pub private_of : ℕ × KeyPair → Bytes
private_of (_, pair) = pair.private_key

-- The bundle that a responder publishes.
abbrev pub bundle_of : Crypto → Identity → (id : ℕ) → KeyPair → Option (ℕ × KeyPair) → PrekeyBundle
bundle_of c b id spk one_time = record {
  identity_key = b.signing.public_key;
  identity_dh_key = b.dh.public_key;
  identity_dh_signature = sign_identity_dh_key c b;
  signed_prekey = create_signed_prekey c b.signing.private_key id spk;
  one_time_prekey = optional published one_time;
}

-- The private halves that it looks up.
abbrev pub prekeys_of : KeyPair → Option (ℕ × KeyPair) → ResponderPrekeys
prekeys_of spk one_time = record {
  signed_prekey_private = spk.private_key;
  one_time_prekey_private = optional private_of one_time;
}

-- The fourth output exists, where there is a one-time prekey.
abbrev pub Fourth : Crypto → KeyPair → Option (ℕ × KeyPair) → Type 0
Fourth c ephemeral none = Unit
Fourth c ephemeral (some (_, pair)) =
    IsPair c pair × (d : Bytes) × (c.scalarmult ephemeral.private_key pair.public_key ≡ some d)

-- The two parties, their keys as the library makes them, and no output refused as weak.
pub record Parties (c : Crypto) : Type 0 where
  pub a : Identity
  pub b : Identity
  pub ephemeral : KeyPair
  pub signed_prekey : KeyPair
  pub signed_prekey_id : ℕ
  pub one_time : Option (ℕ × KeyPair)
  pub a_signing : IsSigningPair c a.signing
  pub a_dh : IsPair c a.dh
  pub b_signing : IsSigningPair c b.signing
  pub b_dh : IsPair c b.dh
  pub ephemeral_pair : IsPair c ephemeral
  pub signed_prekey_pair : IsPair c signed_prekey
  pub d1 : Bytes
  pub d2 : Bytes
  pub d3 : Bytes
  pub d1_is : c.scalarmult a.dh.private_key signed_prekey.public_key ≡ some d1
  pub d2_is : c.scalarmult ephemeral.private_key b.dh.public_key ≡ some d2
  pub d3_is : c.scalarmult ephemeral.private_key signed_prekey.public_key ≡ some d3
  pub fourth : Fourth c ephemeral one_time

module _ (c : Crypto) (laws : IsSound c) where
  -- Diffie-Hellman from the other end.
  dh_swap :
      (p q : KeyPair) (d : Bytes)
      → IsPair c p
      → IsPair c q
      → c.scalarmult p.private_key q.public_key ≡ some d
      → c.scalarmult q.private_key p.public_key ≡ some d
  dh_swap p q d hp hq e =
      ap (c.scalarmult q.private_key) hp.public_key
      ∙ (laws.scalarmult_comm q.private_key p.private_key
          ∙ (ap (c.scalarmult p.private_key) (sym hq.public_key) ∙ e))

  pub derive_secret-ok :
      (dhs : List Bytes)
      → (secret : Bytes) × (derive_secret c dhs ≡ ok secret) × (length secret ≡ 32)
  unfolding derive_secret
  derive_secret-ok dhs =
      elim (hkdf_sha256-length c laws (filled 32 ++ concat dhs) (zeroes 32) x3dh_domain 32) [
        | inl (out, e, n, _, _, _) ↦ (out, rw e refl, n)
        | inr (_, _, why) ↦ absurd (ground (arith, why))
      ]

  assert_key-ok : (name : KeyName) (key : Bytes) → length key ≡ 32 → assert_key name key ≡ ok tt
  unfolding assert_key
  assert_key-ok name key long = rw long refl

  published-ok :
      (ephemeral : KeyPair) (name : KeyName) (one_time : Option (ℕ × KeyPair))
      → Fourth c ephemeral one_time
      → assert_optional_key name (optional public_key_of (optional published one_time)) ≡ ok tt
  unfolding assert_optional_key
  published-ok ephemeral name none f = refl
  published-ok ephemeral name (some (id, pair)) f =
      assert_key-ok name pair.public_key f.0.public_length

  private-ok :
      (ephemeral : KeyPair) (name : KeyName) (one_time : Option (ℕ × KeyPair))
      → Fourth c ephemeral one_time
      → assert_optional_key name (optional private_of one_time) ≡ ok tt
  unfolding assert_optional_key
  private-ok ephemeral name none f = refl
  private-ok ephemeral name (some (id, pair)) f =
      assert_key-ok name pair.private_key f.0.private_length

  -- Both ends compute the fourth output alike.
  Fourth-ok :
      (ephemeral : KeyPair) (one_time : Option (ℕ × KeyPair))
      → IsPair c ephemeral
      → Fourth c ephemeral one_time
      → (d : List Bytes) × (dh_by_private c ephemeral.private_key
            (optional public_key_of (optional published one_time))
          ≡ ok d)
        × (dh_by_public c (optional private_of one_time) ephemeral.public_key ≡ ok d)
  unfolding dh_by_private dh_by_public
  Fourth-ok ephemeral none e f = ([], refl, refl)
  Fourth-ok ephemeral (some (id, pair)) e (p, d, g) =
      (d ∷ [], rw g refl, rw (dh_swap ephemeral pair d e p g) refl)

  check_bundle-ok :
      (w : Parties c)
      → check_bundle c (bundle_of c w.b w.signed_prekey_id w.signed_prekey w.one_time) ≡ ok tt
  unfolding check_bundle create_signed_prekey
  check_bundle-ok w =
      let (spk, idk) = verify-create c laws w.b w.signed_prekey_id w.signed_prekey w.b_signing in
      rw
        (assert_key-ok KeyName.bundle_identity_key w.b.signing.public_key w.b_signing.public_length)
        (rw (assert_key-ok KeyName.bundle_identity_dh_key w.b.dh.public_key w.b_dh.public_length) (
          rw
            (assert_key-ok KeyName.bundle_signed_prekey w.signed_prekey.public_key
              w.signed_prekey_pair.public_length)
            (rw (published-ok w.ephemeral KeyName.bundle_one_time_prekey w.one_time w.fourth)
              (rw (spk, idk) refl))))

  abbrev pub header_of : Parties c → InitialMessageHeader
  header_of w = record {
    identity_key = w.a.signing.public_key;
    identity_dh_key = w.a.dh.public_key;
    ephemeral_key = w.ephemeral.public_key;
    signed_prekey_id = w.signed_prekey_id;
    one_time_prekey_id = optional (λ (p : ℕ × KeyPair). p.0) w.one_time;
  }

  check_header-ok :
      (w : Parties c) → check_header c (prekeys_of w.signed_prekey w.one_time) (header_of w) ≡ ok tt
  unfolding check_header
  check_header-ok w =
      rw
        (assert_key-ok KeyName.header_identity_key w.a.signing.public_key w.a_signing.public_length)
        (rw (assert_key-ok KeyName.header_identity_dh_key w.a.dh.public_key w.a_dh.public_length) (
          rw
            (assert_key-ok KeyName.header_ephemeral_key w.ephemeral.public_key
              w.ephemeral_pair.public_length)
            (rw
              (assert_key-ok KeyName.signed_prekey_private w.signed_prekey.private_key
                w.signed_prekey_pair.private_length)
              (both w.one_time
                (private-ok w.ephemeral KeyName.one_time_prekey_private w.one_time w.fourth)))))
    where
      both :
          (one_time : Option (ℕ × KeyPair))
          → assert_optional_key KeyName.one_time_prekey_private (optional private_of one_time)
            ≡ ok tt
          → (if differ
                (is_some (optional (λ (p : ℕ × KeyPair). p.0) one_time))
                (is_some (optional private_of one_time))
              then err X3dhError.one_time_prekey_mismatch
              else assert_optional_key KeyName.one_time_prekey_private
                  (optional private_of one_time))
            ≡ ok tt
      both none e = e
      both (some _) e = e

  ids :
      (one_time : Option (ℕ × KeyPair))
      → optional id_of (optional published one_time) ≡ optional (λ (p : ℕ × KeyPair). p.0) one_time
  ids none = refl
  ids (some _) = refl

  -- The handshake with a bundle that its owner published succeeds on both sides, and both sides have
  -- the same secret, of 32 bytes, and the same associated data, with a one-time prekey and without.
  -- The keys are assumed to be as the library makes them, and no output to be refused as weak.
  pub initiate_x3dh-respond_x3dh :
      (w : Parties c)
      → (i : InitiatorSession) × (initiate_x3dh c w.a
            (bundle_of c w.b w.signed_prekey_id w.signed_prekey w.one_time)
            w.ephemeral
          ≡ ok i)
        × (respond_x3dh c w.b (prekeys_of w.signed_prekey w.one_time) i.header
            ≡ ok (record { shared_secret = i.shared_secret; associated_data = i.associated_data }))
        × (length i.shared_secret ≡ 32)
        × (i.header ≡ header_of w)
  unfolding initiate_x3dh respond_x3dh create_signed_prekey
  initiate_x3dh-respond_x3dh w =
      let (d4, f, g) = Fourth-ok w.ephemeral w.one_time w.ephemeral_pair w.fourth in
      let (secret, made, long) = derive_secret-ok (w.d1 ∷ w.d2 ∷ w.d3 ∷ d4) in
      let e1 = dh_swap w.a.dh w.signed_prekey w.d1 w.a_dh w.signed_prekey_pair w.d1_is in
      let e2 = dh_swap w.ephemeral w.b.dh w.d2 w.ephemeral_pair w.b_dh w.d2_is in
      let e3 =
        dh_swap w.ephemeral w.signed_prekey w.d3 w.ephemeral_pair w.signed_prekey_pair w.d3_is in
      (
        record {
          shared_secret = secret;
          header = header_of w;
          associated_data = associated_data_of w.a.signing.public_key w.b.signing.public_key;
        },
        rw (check_bundle-ok w)
            (rw w.d1_is (rw w.d2_is (rw w.d3_is (rw f (rw made (rw (ids w.one_time) (refl))))))),
        rw (check_header-ok w) (rw e1 (rw e2 (rw e3 (rw g (rw made refl))))),
        long,
        refl,
      )
