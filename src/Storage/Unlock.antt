-- ===== src/Storage/Unlock.antt =====
-- web/src/lib/storage/vault.ts: `Vault.create` and `Vault.unlock`.
use shatters.Common.{
  err, ok, or_throw, ◌>>=◌, Bool, false, Option, none, some, Text, text_eq, if◌then◌else◌, ascii,
  utf8_encode, utf8_decode, is_empty,
}
use shatters.Bytes.{Bytes}
use shatters.Crypto.{Crypto}
use shatters.Json.{
  Json, Fields, object, null, field, end, string, number, natural, get, stringify, parse,
}
use shatters.Storage.Adapter
use shatters.Storage.Adapter.{MemoryAdapter, set}
use shatters.Storage.Vault.{
  PasswordHash, params_key, canary_name, canary_plaintext, algorithm, already_exists,
  empty_passphrase, no_vault, corrupt_params, incorrect_passphrase, unsupported_algorithm, foreign,
  Result, KdfParams, VaultStrength, interactive, moderate, Vault, exists, derive_key, put_string,
  get_string,
}

-- The parameters as the object that is stored.
unfoldable pub params_fields : KdfParams → Fields
params_fields params = field (ascii "algorithm") (string algorithm) (
    field (ascii "salt") (string params.salt) (
      field (ascii "opsLimit") (number (natural params.ops_limit))
        (field (ascii "memLimit") (number (natural params.mem_limit)) end)))

unfoldable pub params_bytes : KdfParams → Bytes
params_bytes params = utf8_encode (stringify (object (params_fields params)))

unfoldable pub params_of : PasswordHash → Bytes → VaultStrength → KdfParams
params_of p salt interactive = record {
  salt = p.to_base64 salt;
  ops_limit = p.interactive_ops;
  mem_limit = p.interactive_mem;
}
params_of p salt moderate = record {
  salt = p.to_base64 salt;
  ops_limit = p.moderate_ops;
  mem_limit = p.moderate_mem;
}

abbrev is_algorithm : Option Json → Bool
is_algorithm (some (string name)) = text_eq name algorithm
is_algorithm _ = false

-- What `deriveKey` makes of the fields: libsodium throws on a salt that is no text and on a limit that
-- is no natural number.
abbrev typed_params : Option Json → Option Json → Option Json → Result KdfParams
typed_params (some (string salt)) (some (number (natural ops))) (some (number (natural mem))) =
    ok (record { salt = salt; ops_limit = ops; mem_limit = mem })
typed_params _ _ _ = err foreign

abbrev params_in : Json → Result KdfParams
params_in json =
    if is_algorithm (get (ascii "algorithm") json)
    then typed_params (get (ascii "salt") json) (get (ascii "opsLimit") json)
        (get (ascii "memLimit") json)
    else err (unsupported_algorithm (get (ascii "algorithm") json))

-- Of the value that the stored bytes parse to; `null` has no fields to ask for.
unfoldable pub read_params : Option Json → Result KdfParams
read_params none = err corrupt_params
read_params (some null) = err foreign
read_params (some json) = params_in json

module _ (c : Crypto) (p : PasswordHash) where
  abbrev initialise : Text → KdfParams → (nonce : Bytes) → MemoryAdapter → Result Vault
  initialise passphrase params nonce adapter = do
    key ← derive_key p passphrase params
    put_string c canary_name canary_plaintext nonce (record {
      adapter = set params_key (params_bytes params) adapter;
      params = params;
      key = some key;
    })

  -- `Vault.create`, given its random salt and the nonce of the canary's record.
  unfoldable pub create : Text → VaultStrength → (salt nonce : Bytes) → MemoryAdapter → Result Vault
  create passphrase strength salt nonce adapter =
      if exists adapter
      then err already_exists
      else if is_empty passphrase
      then err empty_passphrase
      else initialise passphrase (params_of p salt strength) nonce adapter

  abbrev is_canary : Result (Option Text) → Bool
  is_canary (ok (some text)) = text_eq text canary_plaintext
  is_canary _ = false

  unfoldable pub check_canary : Vault → Result Vault
  check_canary vault =
      if is_canary (get_string c canary_name vault) then ok vault else err incorrect_passphrase

  -- `Vault.unlock`.
  unfoldable pub unlock : Text → MemoryAdapter → Result Vault
  unlock passphrase adapter = do
    raw ← or_throw no_vault (Adapter.get params_key adapter)
    params ← read_params (parse (utf8_decode raw))
    key ← derive_key p passphrase params
    check_canary (record { adapter = adapter; params = params; key = some key })
