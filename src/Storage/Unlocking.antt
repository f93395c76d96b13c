-- ===== src/Storage/Unlocking.antt =====
-- web/src/lib/storage/vault.ts: what a passphrase unlocks after a vault was created, used and locked.
use shatters.Common.{
  >>=-inv, err, ok, ok-injective, ◌≡◌, refl, sym, ap, subst, ◌∙◌, Bool, true, false, none, some,
  List, [], Text, length, arith, All, text_eq, text_eq_refl, if◌then◌else◌, lookup, assign,
  lookup-assign, utf8_encode, utf8_decode, utf8_decode-utf8_encode, is_empty,
}
use shatters.Bytes.{Bytes}
use shatters.Crypto.{Crypto, IsSound}
use shatters.Json.{are_plain_fields, parse, parse-stringify_bytes}
use shatters.Storage.Adapter
use shatters.Storage.Adapter.{MemoryAdapter, set}
use shatters.Storage.Vault.{
  PasswordHash, params_key, canary_name, canary_plaintext, Result, already_exists, empty_passphrase,
  KdfParams, VaultStrength, Vault, record_key, exists, derive_key, require_key, seal, put,
  open_framed, get_record, put_string, get_string,
}
use shatters.Storage.Unlock.{
  params_fields, params_bytes, params_of, read_params, create, check_canary, unlock,
}
use shatters.Storage.Sealing.{get_record-unlocked, get-set}
use shatters.Storage.Objects.{Spares, expected_all-Spares}
use shatters.Storage.Records.{
  Operation, perform_all, expected_all, HasNonce, Represents, perform_all-Follows, put-Follows,
}

-- The name is not the canary's.
abbrev pub SparesCanary : Operation → Type 0
SparesCanary op = Spares canary_name op

-- What a vault holds that was just created.
abbrev pub canary_only : List (Text × Bytes)
canary_only = assign canary_name (utf8_encode canary_plaintext) []

lookup-canary_only : lookup canary_name canary_only ≡ some (utf8_encode canary_plaintext)
lookup-canary_only =
    lookup-assign canary_name canary_name (utf8_encode canary_plaintext) []
    ∙ ap (λ b. if b then some (utf8_encode canary_plaintext) else lookup canary_name [])
        (text_eq_refl canary_name)

-- The store has no record yet.
abbrev pub IsFresh : MemoryAdapter → Type 0
IsFresh adapter = (name : Text) → Adapter.get (record_key name) adapter ≡ none

guards-inverse :
    (first second : Bool) (r : Result Vault) (vault : Vault)
    → (if first then err already_exists else if second then err empty_passphrase else r) ≡ ok vault
    → r ≡ ok vault
guards-inverse true second r vault e = absurd (ground (arith, e))
guards-inverse false true r vault e = absurd (ground (arith, e))
guards-inverse false false r vault e = e

module _ (c : Crypto) (p : PasswordHash) where
  abbrev started : KdfParams → Bytes → MemoryAdapter → Vault
  started params key adapter = record {
    adapter = set params_key (params_bytes params) adapter;
    params = params;
    key = some key;
  }

  params_key-record_key : (a : Text) → text_eq params_key (record_key a) ≡ false
  unfolding record_key text_eq
  params_key-record_key a = refl

  open_framed-nothing :
      (name : Text) (key : Bytes) → open_framed c name key none ≡ ok (lookup name [])
  unfolding open_framed lookup
  open_framed-nothing name key = refl

  pub create-inverse :
      (passphrase : Text) (strength : VaultStrength) (salt nonce : Bytes) (adapter : MemoryAdapter)
      (vault : Vault)
      → create c p passphrase strength salt nonce adapter ≡ ok vault
      → (key : Bytes) × (derive_key p passphrase (params_of p salt strength) ≡ ok key)
        × (put c canary_name
              (utf8_encode canary_plaintext)
              nonce
              (started (params_of p salt strength) key adapter)
            ≡ ok vault)
  unfolding create put_string
  create-inverse passphrase strength salt nonce adapter vault e =
      >>=-inv (derive_key p passphrase (params_of p salt strength))
        (λ key.
          put c canary_name (utf8_encode canary_plaintext) nonce
            (started (params_of p salt strength) key adapter))
        vault (guards-inverse (exists adapter) (is_empty passphrase) _ vault e)

  pub read_params-params_bytes :
      (params : KdfParams)
      → are_plain_fields (params_fields params) ≡ true
      → read_params (parse (utf8_decode (params_bytes params))) ≡ ok params
  unfolding params_bytes read_params params_fields text_eq
  read_params-params_bytes params plain =
      rw (parse-stringify_bytes (params_fields params) plain) refl

  check_canary-reads :
      (vault : Vault)
      → get_record c canary_name vault ≡ ok (some (utf8_encode canary_plaintext))
      → check_canary c p vault ≡ ok vault
  unfolding check_canary get_string
  check_canary-reads vault e =
      rw (e, utf8_decode-utf8_encode canary_plaintext refl)
        (rw (text_eq_refl canary_plaintext) refl)

  -- The created vault holds the canary only.
  pub create-Represents :
      (passphrase : Text) (strength : VaultStrength) (salt nonce : Bytes) (adapter : MemoryAdapter)
      (vault : Vault)
      → IsSound c
      → IsFresh adapter
      → length nonce ≡ 24
      → create c p passphrase strength salt nonce adapter ≡ ok vault
      → (key : Bytes) × (derive_key p passphrase (params_of p salt strength) ≡ ok key)
        × (vault.params ≡ params_of p salt strength)
        × (Adapter.get params_key vault.adapter ≡ some (params_bytes (params_of p salt strength)))
        × Represents c key vault canary_only
  create-Represents passphrase strength salt nonce adapter vault sound fresh h e =
      let params = params_of p salt strength in
      let (key, derived, stored) = create-inverse passphrase strength salt nonce adapter vault e in
      let nothing : Represents c key (started params key adapter) [] = record {
        unlocked = refl;
        reads = λ name.
            get_record-unlocked c name key (started params key adapter) refl
            ∙ ap (open_framed c name key) (
                get-set (record_key name) params_key (params_bytes params) adapter
                ∙ ap
                    (λ b.
                      if b
                      then some (params_bytes params)
                      else Adapter.get (record_key name) adapter)
                    (params_key-record_key name)
                ∙ fresh name)
            ∙ open_framed-nothing name key;
      } in
      let (next, put_ok, f) =
        put-Follows c sound canary_name (utf8_encode canary_plaintext) nonce key
          (started params key adapter) [] h nothing in
      let same : next ≡ vault = ok-injective next vault (sym put_ok ∙ stored) in
      (
        key,
        derived,
        ap (λ v. v.params) (sym same) ∙ f.same_params,
        ap (λ v. Adapter.get params_key v.adapter) (sym same)
            ∙ f.same_entry
            ∙ get-set params_key params_key (params_bytes params) adapter
            ∙ ap (λ b. if b then some (params_bytes params) else Adapter.get params_key adapter)
                (text_eq_refl params_key),
        subst (λ v. Represents c key v canary_only) same f.represents,
      )

  -- What the creation leaves of the other entries of the store.
  create-others :
      (passphrase : Text) (strength : VaultStrength) (salt nonce : Bytes) (adapter : MemoryAdapter)
      (vault : Vault)
      → create c p passphrase strength salt nonce adapter ≡ ok vault
      → (name : Text) → text_eq params_key name ≡ false
      → text_eq (record_key canary_name) name ≡ false
      → Adapter.get name vault.adapter ≡ Adapter.get name adapter
  unfolding put require_key
  create-others passphrase strength salt nonce adapter vault e name not_params not_canary =
      let (key, _, stored) = create-inverse passphrase strength salt nonce adapter vault e in
      let value : Bytes = seal c canary_name (utf8_encode canary_plaintext) nonce key in
      let params : Bytes = params_bytes (params_of p salt strength) in
      let with_params : MemoryAdapter = set params_key params adapter in
      let same : set (record_key canary_name) value with_params ≡ vault.adapter =
        ap (λ v. v.adapter) (ok-injective _ vault stored) in
      rw⁻¹ same (
        get-set name (record_key canary_name) value with_params
        ∙ ap (λ b. if b then some value else Adapter.get name with_params) not_canary
        ∙ get-set name params_key params adapter
        ∙ ap (λ b. if b then some params else Adapter.get name adapter) not_params)

  -- A vault whose stored parameters are its own unlocks under a passphrase that gives its key, if it
  -- holds the canary.
  unlock-own :
      (passphrase : Text) (key : Bytes) (vault : Vault) (m : List (Text × Bytes))
      → are_plain_fields (params_fields vault.params) ≡ true
      → Adapter.get params_key vault.adapter ≡ some (params_bytes vault.params)
      → derive_key p passphrase vault.params ≡ ok key
      → Represents c key vault m
      → lookup canary_name m ≡ some (utf8_encode canary_plaintext)
      → unlock c p passphrase vault.adapter ≡ ok vault
  unfolding unlock
  unlock-own passphrase key vault m plain stored derived r canary =
      let same : record { adapter = vault.adapter; params = vault.params; key = some key } ≡ vault =
        ap (λ k. record { adapter = vault.adapter; params = vault.params; key = k })
          (sym r.unlocked) in
      rw (stored, read_params-params_bytes vault.params plain, derived, same)
        (check_canary-reads vault (r.reads canary_name ∙ ap ok canary))

-- A vault that is created in a store without records, with a nonce of 24 bytes and parameters that JSON
-- keeps, has put its parameters and the canary's record in the store and left every other entry as it
-- was. Changed then by any `put` and `delete` but of the canary's name, it unlocks again from its store with the
-- passphrase that it was created with: the vault is the one that was left, and holds the canary and
-- what was put, and no other record.
pub unlock-create :
    (c : Crypto) (p : PasswordHash) (passphrase : Text) (strength : VaultStrength)
    (salt nonce : Bytes) (adapter : MemoryAdapter) (created : Vault) (ops : List Operation)
    → IsSound c
    → IsFresh adapter
    → length nonce ≡ 24
    → are_plain_fields (params_fields (params_of p salt strength)) ≡ true
    → create c p passphrase strength salt nonce adapter ≡ ok created
    → All HasNonce ops
    → All SparesCanary ops
    → (Adapter.get params_key created.adapter ≡ some (params_bytes (params_of p salt strength)))
      × ((name : Text)
          → text_eq params_key name ≡ false
          → text_eq (record_key canary_name) name ≡ false
          → Adapter.get name created.adapter ≡ Adapter.get name adapter)
      × (key : Bytes) × (last : Vault) × (perform_all c ops created ≡ ok last)
      × (unlock c p passphrase last.adapter ≡ ok last)
      × Represents c key last (expected_all ops canary_only)
unlock-create c p passphrase strength salt nonce adapter created ops sound fresh h plain e nonces
      spares =
    let (key, derived, same_params, stored, r) =
      create-Represents c p passphrase strength salt nonce adapter created sound fresh h e in
    let (last, es, f) = perform_all-Follows c sound ops key created canary_only nonces r in
    let params : last.params ≡ params_of p salt strength = f.same_params ∙ same_params in
    let canary : lookup canary_name (expected_all ops canary_only)
        ≡ some (utf8_encode canary_plaintext) =
      expected_all-Spares canary_name ops canary_only spares ∙ lookup-canary_only in
    (
      stored,
      create-others c p passphrase strength salt nonce adapter created e,
      key,
      last,
      es,
      unlock-own c p passphrase key last (expected_all ops canary_only)
          (ap (λ q. are_plain_fields (params_fields q)) params ∙ plain)
          (f.same_entry ∙ stored ∙ ap (λ q. some (params_bytes q)) (sym params))
          (ap (λ q. derive_key p passphrase q) params ∙ derived) f.represents canary,
      f.represents,
    )
