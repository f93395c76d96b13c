-- ===== src/Storage/Objects.antt =====
-- web/src/lib/storage/vault.ts, `putJSON` and `getJSON`: what is read back after other records change.
use shatters.Common.{
  ok, ◌>>=◌, ◌≡◌, ◌≢◌, refl, ap, ◌∙◌, inl, inr, true, false, none, some, List, [], ◌∷◌, Text,
  length, All, Bool-cases, text_eq, text_eq_refl, text_eq_iff, if◌then◌else◌, lookup, assign,
  remove_key, lookup-assign, lookup-remove_key, utf8_encode,
}
use shatters.Bytes.{Bytes}
use shatters.Crypto.{Crypto, IsSound}
use shatters.Json.{object, Fields, are_plain_fields, stringify, parse-stringify_bytes}
use shatters.Storage.Vault.{Vault, get_record, put_string, get_string, put_json, get_json}
use shatters.Storage.Records.{
  Operation, putting, deleting, perform_all, expected_all, HasNonce, Represents,
  perform_all-Represents,
}

-- The operation is on another name.
abbrev pub Spares : Text → Operation → Type 0
Spares name (putting other value nonce) = other ≢ name
Spares name (deleting other) = other ≢ name

pub text_eq-apart : (a b : Text) → a ≢ b → text_eq a b ≡ false
text_eq-apart a b h = elim (Bool-cases (text_eq a b)) [
  | inl e ↦ absurd (h ((text_eq_iff a b).0 e))
  | inr e ↦ e
]

pub expected_all-Spares :
    (name : Text) (ops : List Operation) (m : List (Text × Bytes))
    → All (Spares name) ops
    → lookup name (expected_all ops m) ≡ lookup name m
expected_all-Spares name [] m h = refl
expected_all-Spares name (putting other value nonce ∷ ops) m h =
    expected_all-Spares name ops (assign other value m) h.1
    ∙ lookup-assign name other value m
    ∙ ap (λ b. if b then some value else lookup name m) (text_eq-apart other name h.0)
expected_all-Spares name (deleting other ∷ ops) m h =
    expected_all-Spares name ops (remove_key other m) h.1
    ∙ lookup-remove_key name other m
    ∙ ap (λ b. if b then none else lookup name m) (text_eq-apart other name h.0)

-- An object that was stored, whatever was done to other records since.
lookup-stored :
    (name : Text) (value : Bytes) (ops : List Operation) (m : List (Text × Bytes))
    → All (Spares name) ops
    → lookup name (expected_all ops (assign name value m)) ≡ some value
lookup-stored name value ops m h =
    expected_all-Spares name ops (assign name value m) h
    ∙ lookup-assign name name value m
    ∙ ap (λ b. if b then some value else lookup name m) (text_eq_refl name)

get_json-stored :
    (c : Crypto) (name : Text) (fields : Fields) (vault : Vault)
    → are_plain_fields fields ≡ true
    → get_record c name vault ≡ ok (some (utf8_encode (stringify (object fields))))
    → get_json c name vault ≡ ok (some (object fields))
unfolding get_json get_string
get_json-stored c name fields vault plain e = rw (e, parse-stringify_bytes fields plain) refl

-- An object that JSON prints without loss is put into a vault that is unlocked and holds the values of a
-- map, with a nonce of 24 bytes, and any records of other names are put or deleted after that. Every
-- call succeeds, and `getJSON` returns the object.
pub get_json-put_json :
    (c : Crypto) (name : Text) (fields : Fields) (nonce key : Bytes) (ops : List Operation)
    (vault : Vault) (m : List (Text × Bytes))
    → IsSound c
    → are_plain_fields fields ≡ true
    → length nonce ≡ 24
    → All HasNonce ops
    → All (Spares name) ops
    → Represents c key vault m
    → (last : Vault) × ((put_json c name (object fields) nonce vault >>= λ next.
          perform_all c ops next)
        ≡ ok last)
      × (get_json c name last ≡ ok (some (object fields)))
unfolding put_json put_string
get_json-put_json c name fields nonce key ops vault m sound plain size nonces spared r =
    let value = utf8_encode (stringify (object fields)) in
    let (last, e, after) =
      perform_all-Represents c (putting name value nonce ∷ ops) key vault m sound (size, nonces)
        r in
    (
      last,
      e,
      get_json-stored c name fields last plain
          (after.reads name ∙ ap ok (lookup-stored name value ops m spared)),
    )
