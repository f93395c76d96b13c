-- ===== src/Storage/Refusals.antt =====
-- web/src/lib/storage/vault.ts: what does not open.
use shatters.Common.{
  >>=-inv, err, ok, ok-injective, or_throw, ◌>>=◌, ◌≡◌, ◌≢◌, refl, sym, ap, ◌∙◌, true, false, none,
  some, List, [], ◌∷◌, Text, length, All, text_eq, text_eq_refl, if◌then◌else◌, utf8_encode,
  utf8_decode, utf8_decode-utf8_encode, is_well_formed,
}
use shatters.Bytes.{Bytes}
use shatters.Crypto.{Crypto, IsSound}
use shatters.Json.{are_plain_fields}
use shatters.Storage.Adapter
use shatters.Storage.Adapter.{MemoryAdapter, set, delete_entry}
use shatters.Storage.Vault.{
  PasswordHash, params_key, canary_name, canary_plaintext, incorrect_passphrase, unauthentic,
  VaultStrength, Vault, record_key, derive_key, require_key, seal, put, delete_record, open_framed,
  get_record, get_string,
}
use shatters.Storage.Unlock.{params_fields, params_bytes, params_of, create, check_canary, unlock}
use shatters.Storage.Sealing.{
  get_record-unlocked, open_framed-sealed, get-set, get-delete_entry, record_key-eq,
}
use shatters.Storage.Records.{
  perform_all-Follows, Operation, putting, deleting, perform, perform_all, HasNonce,
}
use shatters.Storage.Objects.{text_eq-apart}
use shatters.Storage.Unlocking.{
  canary_only, SparesCanary, IsFresh, create-inverse, create-Represents, read_params-params_bytes,
}

-- What the documentation says of the decryption: it fails under another key or other additional data.
pub record IsBinding (c : Crypto) : Type 0 where
  pub other_data :
      (plaintext ad other nonce key : Bytes)
      → ad ≢ other
      → c.aead_decrypt (c.aead_encrypt plaintext ad nonce key) other nonce key ≡ none
  pub other_key :
      (plaintext ad nonce key other : Bytes)
      → key ≢ other
      → c.aead_decrypt (c.aead_encrypt plaintext ad nonce key) ad nonce other ≡ none

utf8_encode-apart :
    (a b : Text)
    → is_well_formed a ≡ true
    → is_well_formed b ≡ true
    → a ≢ b
    → utf8_encode a ≢ utf8_encode b
utf8_encode-apart a b wa wb apart e =
    apart (sym (utf8_decode-utf8_encode a wa) ∙ ap utf8_decode e ∙ utf8_decode-utf8_encode b wb)

-- A sealed record that stands under another name than the one it was put under, both of them texts with
-- paired surrogates, does not open there.
pub get_record-moved :
    (c : Crypto) (sealed_as name : Text) (value nonce key : Bytes) (vault : Vault)
    → IsSound c
    → IsBinding c
    → length nonce ≡ 24
    → is_well_formed sealed_as ≡ true
    → is_well_formed name ≡ true
    → sealed_as ≢ name
    → vault.key ≡ some key
    → Adapter.get (record_key name) vault.adapter ≡ some (seal c sealed_as value nonce key)
    → get_record c name vault ≡ err (unauthentic name)
get_record-moved c sealed_as name value nonce key vault sound binding h wa wb apart unlocked
      stored =
    get_record-unlocked c name key vault unlocked
    ∙ ap (open_framed c name key) stored
    ∙ open_framed-sealed c sealed_as name value nonce key key sound h
    ∙ ap (λ o. or_throw (unauthentic name) o >>= λ v. ok (some v))
        (binding.other_data value (utf8_encode sealed_as) (utf8_encode name) nonce key
          (utf8_encode-apart sealed_as name wa wb apart))

canary_apart :
    (name : Text) → name ≢ canary_name → text_eq (record_key name) (record_key canary_name) ≡ false
canary_apart name spares = record_key-eq name canary_name ∙ text_eq-apart name canary_name spares

-- The canary's entry after changes that spare it.
perform-entry :
    (c : Crypto) (op : Operation) (vault next : Vault)
    → SparesCanary op
    → perform c op vault ≡ ok next
    → Adapter.get (record_key canary_name) next.adapter
      ≡ Adapter.get (record_key canary_name) vault.adapter
unfolding put delete_record
perform-entry c (putting name value nonce) vault next spares e =
    let changed : Bytes → Vault = λ key. record vault {
      adapter = set (record_key name) (seal c name value nonce key) vault.adapter;
    } in
    let (key, unlocked, done) = >>=-inv (require_key vault) (λ key. ok (changed key)) next e in
    ap (λ v. Adapter.get (record_key canary_name) v.adapter)
      (sym (ok-injective (changed key) next done))
    ∙ get-set (record_key canary_name) (record_key name) (seal c name value nonce key) vault.adapter
    ∙ ap
        (λ b.
          if b
          then some (seal c name value nonce key)
          else Adapter.get (record_key canary_name) vault.adapter)
        (canary_apart name spares)
perform-entry c (deleting name) vault next spares e =
    let changed : Vault = record vault { adapter = delete_entry (record_key name) vault.adapter } in
    let (key, unlocked, done) = >>=-inv (require_key vault) (λ key. ok changed) next e in
    ap (λ v. Adapter.get (record_key canary_name) v.adapter) (sym (ok-injective changed next done))
    ∙ get-delete_entry (record_key canary_name) (record_key name) vault.adapter
    ∙ ap (λ b. if b then none else Adapter.get (record_key canary_name) vault.adapter)
        (canary_apart name spares)

perform_all-entry :
    (c : Crypto) (ops : List Operation) (vault last : Vault)
    → All SparesCanary ops
    → perform_all c ops vault ≡ ok last
    → Adapter.get (record_key canary_name) last.adapter
      ≡ Adapter.get (record_key canary_name) vault.adapter
perform_all-entry c [] vault last spares e =
    ap (λ v. Adapter.get (record_key canary_name) v.adapter) (sym (ok-injective vault last e))
perform_all-entry c (op ∷ ops) vault last spares e =
    let (next, first, rest) = >>=-inv (perform c op vault) (λ v. perform_all c ops v) last e in
    perform_all-entry c ops next last spares.1 rest ∙ perform-entry c op vault next spares.0 first

-- The canary's record of a vault that was just created.
create-entry :
    (c : Crypto) (p : PasswordHash) (passphrase : Text) (strength : VaultStrength)
    (salt nonce : Bytes) (adapter : MemoryAdapter) (created : Vault)
    → create c p passphrase strength salt nonce adapter ≡ ok created
    → (key : Bytes) × (derive_key p passphrase (params_of p salt strength) ≡ ok key)
      × (Adapter.get (record_key canary_name) created.adapter
          ≡ some (seal c canary_name (utf8_encode canary_plaintext) nonce key))
unfolding put require_key
create-entry c p passphrase strength salt nonce adapter created e =
    let params = params_of p salt strength in
    let (key, derived, stored) =
      create-inverse c p passphrase strength salt nonce adapter created e in
    let sealed = seal c canary_name (utf8_encode canary_plaintext) nonce key in
    let begun = set params_key (params_bytes params) adapter in
    let changed : Vault = record {
      adapter = set (record_key canary_name) sealed begun;
      params = params;
      key = some key;
    } in
    (
      key,
      derived,
      ap (λ v. Adapter.get (record_key canary_name) v.adapter)
            (sym (ok-injective changed created stored))
          ∙ get-set (record_key canary_name) (record_key canary_name) sealed begun
          ∙ ap (λ b. if b then some sealed else Adapter.get (record_key canary_name) begun)
              (text_eq_refl (record_key canary_name)),
    )

stored_params :
    (c : Crypto) (p : PasswordHash) (passphrase : Text) (strength : VaultStrength)
    (salt nonce : Bytes) (adapter : MemoryAdapter) (created last : Vault) (ops : List Operation)
    → IsSound c
    → IsFresh adapter
    → length nonce ≡ 24
    → create c p passphrase strength salt nonce adapter ≡ ok created
    → All HasNonce ops
    → perform_all c ops created ≡ ok last
    → Adapter.get params_key last.adapter ≡ some (params_bytes (params_of p salt strength))
stored_params c p passphrase strength salt nonce adapter created last ops sound fresh h e nonces
      es =
    let (key, derived, same_params, stored, r) =
      create-Represents c p passphrase strength salt nonce adapter created sound fresh h e in
    let (reached, done, f) = perform_all-Follows c sound ops key created canary_only nonces r in
    ap (λ v. Adapter.get params_key v.adapter) (ok-injective last reached (sym es ∙ done))
    ∙ f.same_entry
    ∙ stored

check_canary-fails :
    (c : Crypto) (p : PasswordHash) (vault : Vault)
    → get_record c canary_name vault ≡ err (unauthentic canary_name)
    → check_canary c p vault ≡ err incorrect_passphrase
unfolding check_canary get_string
check_canary-fails c p vault e = rw e refl

-- A vault that was created and changed as before does not unlock with a passphrase that gives another
-- key, where the decryption fails under another key: it is refused as incorrect.
pub unlock-incorrect :
    (c : Crypto) (p : PasswordHash) (passphrase wrong : Text) (strength : VaultStrength)
    (salt nonce other : Bytes) (adapter : MemoryAdapter) (created last : Vault)
    (ops : List Operation)
    → IsSound c
    → IsBinding c
    → IsFresh adapter
    → length nonce ≡ 24
    → are_plain_fields (params_fields (params_of p salt strength)) ≡ true
    → create c p passphrase strength salt nonce adapter ≡ ok created
    → All HasNonce ops
    → All SparesCanary ops
    → perform_all c ops created ≡ ok last
    → derive_key p wrong (params_of p salt strength) ≡ ok other
    → derive_key p passphrase (params_of p salt strength) ≢ ok other
    → unlock c p wrong last.adapter ≡ err incorrect_passphrase
unfolding unlock
unlock-incorrect c p passphrase wrong strength salt nonce other adapter created last ops sound
      binding fresh h plain e nonces spares es derived apart =
    let params = params_of p salt strength in
    let (key, right, entry) = create-entry c p passphrase strength salt nonce adapter created e in
    let stored =
      stored_params c p passphrase strength salt nonce adapter created last ops sound fresh h e
        nonces es in
    let opened : Vault = record { adapter = last.adapter; params = params; key = some other } in
    let refused : get_record c canary_name opened ≡ err (unauthentic canary_name) =
      get_record-unlocked c canary_name other opened refl
      ∙ ap (open_framed c canary_name other)
          (perform_all-entry c ops created last spares es ∙ entry)
      ∙ open_framed-sealed c canary_name canary_name (utf8_encode canary_plaintext) nonce key other
          sound h
      ∙ ap (λ o. or_throw (unauthentic canary_name) o >>= λ v. ok (some v))
          (binding.other_key (utf8_encode canary_plaintext) (utf8_encode canary_name) nonce key
            other (λ same. apart (right ∙ ap ok same))) in
    rw (stored, read_params-params_bytes c p params plain, derived)
      (check_canary-fails c p opened refused)
