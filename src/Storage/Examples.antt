-- ===== src/Storage/Examples.antt =====
-- A vault in an empty store, over a library whose decryption checks the key and the additional data.
use shatters.Common.{
  err, ok, ok-injective, ◌>>=◌, length, starts_with, ℕ, ◌≡◌, ◌≢◌, refl, ap, subst, sym, ◌∙◌, arith,
  text_eq_iff, true, false, none, some, List, [], ◌∷◌, Text, text_eq, lookup, assign, ascii, btoa,
  utf8_encode,
}
use shatters.Bytes.{Bytes, zeroes}
use shatters.Crypto.Labelled.{labelled, labelled-IsSound, labelled-other_data, labelled-other_key}
use shatters.Json.{object, are_plain_fields, overflow_limit}
use shatters.Storage.Adapter
use shatters.Storage.Adapter.{MemoryAdapter, new_adapter, set}
use shatters.Storage.Vault.{
  put_json, get_json, PasswordHash, incorrect_passphrase, unauthentic, KdfParams, moderate, Vault,
  canary_name, canary_plaintext, params_key, record_key, record_prefix, is_locked, destroy,
  put_string, derive_key, require_key, put, seal, get_record, exists,
}
use shatters.Storage.Unlock.{params_of, params_fields, params_bytes, create, unlock}
use shatters.Storage.Records.{
  Operation, putting, deleting, perform_all, expected_all, Represents, perform_all-Represents,
}
use shatters.Storage.Unlocking.{canary_only, unlock-create, create-Represents}
use shatters.Storage.Objects.{get_json-put_json}
use shatters.Storage.Refusals.{IsBinding, get_record-moved, unlock-incorrect}
use shatters.Storage.Erasure.{destroy-erases}

-- The key is the passphrase.
abbrev toy_hash : PasswordHash
toy_hash = record {
  pwhash = λ passphrase salt ops mem. some passphrase;
  to_base64 = λ bytes. btoa bytes;
  from_base64 = λ text. some (zeroes 16);
  moderate_ops = 3;
  moderate_mem = 268435456;
  interactive_ops = 2;
  interactive_mem = 67108864;
}

labelled-IsBinding : IsBinding labelled
labelled-IsBinding = record { other_data = labelled-other_data; other_key = labelled-other_key }

abbrev nonce : Bytes
nonce = zeroes 24

abbrev passphrase : Text
passphrase = ascii "secret"

abbrev params : KdfParams
params = params_of toy_hash (zeroes 16) moderate

abbrev changes : List Operation
changes =
    putting (ascii "note") (1 ∷ 2 ∷ []) nonce
    ∷ putting (ascii "old") (3 ∷ []) nonce
    ∷ deleting (ascii "old")
    ∷ []

-- The vault's store once it is created.
abbrev created : Vault
created = record {
  adapter =
      set (record_key canary_name)
        (seal labelled canary_name (utf8_encode canary_plaintext) nonce passphrase)
        (set params_key (params_bytes params) new_adapter);
  params = params;
  key = some passphrase;
}

create_test :
    create labelled toy_hash passphrase moderate (zeroes 16) nonce new_adapter ≡ ok created
unfolding create exists Adapter.get put_string put require_key derive_key params_of lookup
create_test = refl

fresh : (name : Text) → Adapter.get (record_key name) new_adapter ≡ none
unfolding Adapter.get lookup
fresh name = refl

plain : are_plain_fields (params_fields params) ≡ true
unfolding params_fields params_of btoa overflow_limit
plain = refl

canary_apart : (name : Text) → text_eq name canary_name ≡ false → name ≢ canary_name
canary_apart name e same = ground (arith, e, text_eq_iff name canary_name)

note_apart : ascii "note" ≢ canary_name
unfolding text_eq
note_apart = canary_apart (ascii "note") refl

old_apart : ascii "old" ≢ canary_name
unfolding text_eq
old_apart = canary_apart (ascii "old") refl

unlock-create_example :
    (Adapter.get params_key created.adapter
      ≡ some (params_bytes (params_of toy_hash (zeroes 16) moderate)))
    × ((name : Text)
        → text_eq params_key name ≡ false
        → text_eq (record_key canary_name) name ≡ false
        → Adapter.get name created.adapter ≡ Adapter.get name new_adapter)
    × (key : Bytes) × (last : Vault) × (perform_all labelled changes created ≡ ok last)
    × (unlock labelled toy_hash passphrase last.adapter ≡ ok last)
    × Represents labelled key last (expected_all changes canary_only)
unlock-create_example =
    unlock-create labelled toy_hash passphrase moderate (zeroes 16) nonce new_adapter created
      changes labelled-IsSound fresh refl plain create_test (refl, (refl, (tt, tt)))
      (note_apart, (old_apart, (old_apart, tt)))

-- The vault after one more record.
abbrev changed : Vault
changed = record {
  adapter =
      set (record_key (ascii "note")) (seal labelled (ascii "note") (1 ∷ 2 ∷ []) nonce passphrase)
        created.adapter;
  params = params;
  key = some passphrase;
}

changed_test :
    perform_all labelled (putting (ascii "note") (1 ∷ 2 ∷ []) nonce ∷ []) created ≡ ok changed
unfolding put require_key
changed_test = refl

derived : (text : Text) → derive_key toy_hash text params ≡ ok text
unfolding derive_key
derived text = refl

unlock-incorrect_example :
    unlock labelled toy_hash (ascii "guess") changed.adapter ≡ err incorrect_passphrase
unlock-incorrect_example =
    unlock-incorrect labelled toy_hash passphrase (ascii "guess") moderate (zeroes 16) nonce
      (ascii "guess") new_adapter created changed (putting (ascii "note") (1 ∷ 2 ∷ []) nonce ∷ [])
      labelled-IsSound labelled-IsBinding fresh refl plain create_test (refl, tt) (note_apart, tt)
      changed_test (derived (ascii "guess")) (λ e. wrong e)
  where
    apart_keys : passphrase ≢ ascii "guess"
    apart_keys e = cc

    wrong : derive_key toy_hash passphrase params ≢ ok (ascii "guess")
    wrong e = apart_keys (ok-injective passphrase (ascii "guess") (sym (derived passphrase) ∙ e))

a_not_b : ascii "a" ≢ ascii "b"
a_not_b e = omega (arith, ap first e)
  where
    first : Text → ℕ
    first [] = 0
    first (u ∷ _) = u

abbrev moved : Vault
moved = record {
  adapter =
      set (record_key (ascii "b")) (seal labelled (ascii "a") (7 ∷ []) nonce passphrase)
        new_adapter;
  params = params;
  key = some passphrase;
}

moved_test :
    Adapter.get (record_key (ascii "b")) moved.adapter
    ≡ some (seal labelled (ascii "a") (7 ∷ []) nonce passphrase)
unfolding Adapter.get set assign lookup record_key text_eq
moved_test = refl

get_record-moved_example : get_record labelled (ascii "b") moved ≡ err (unauthentic (ascii "b"))
get_record-moved_example =
    get_record-moved labelled (ascii "a") (ascii "b") (7 ∷ []) nonce passphrase moved
      labelled-IsSound labelled-IsBinding refl refl refl a_not_b refl moved_test

-- A map that a vault represents, changed once more.
created_holds : Represents labelled passphrase created canary_only
created_holds =
    let (key, got, same_params, stored, holds) =
      create-Represents labelled toy_hash passphrase moderate (zeroes 16) nonce new_adapter created
        labelled-IsSound fresh refl create_test in
    subst (λ k. Represents labelled k created canary_only)
      (ok-injective key passphrase (sym got ∙ derived passphrase)) holds

perform_all-Represents_example :
    (last : Vault) × (perform_all labelled changes created ≡ ok last)
    × Represents labelled passphrase last (expected_all changes canary_only)
perform_all-Represents_example =
    perform_all-Represents labelled changes passphrase created canary_only labelled-IsSound
      (refl, (refl, (tt, tt))) created_holds

destroy-erases_example :
    (exists (destroy changed).adapter ≡ false)
    × (is_locked (destroy changed) ≡ true)
    × ((name : Text) → Adapter.get (record_key name) (destroy changed).adapter ≡ none)
    × ((key : Text)
        → text_eq params_key key ≡ false
        → starts_with key record_prefix ≡ false
        → Adapter.get key (destroy changed).adapter ≡ Adapter.get key changed.adapter)
destroy-erases_example = destroy-erases changed

other_apart : ascii "note" ≢ ascii "a"
other_apart e = omega (arith, ap length e)

get_json-put_json_example :
    (last : Vault) × ((put_json labelled (ascii "a") (object (params_fields params)) nonce created
        >>= λ next. perform_all labelled (putting (ascii "note") (1 ∷ []) nonce ∷ []) next)
      ≡ ok last)
    × (get_json labelled (ascii "a") last ≡ ok (some (object (params_fields params))))
get_json-put_json_example =
    get_json-put_json labelled (ascii "a") (params_fields params) nonce passphrase
      (putting (ascii "note") (1 ∷ []) nonce ∷ []) created canary_only labelled-IsSound plain refl
      (refl, tt) (other_apart, tt) created_holds
