-- ===== src/Storage/Vault.antt =====
-- web/src/lib/storage/vault.ts. A call returns the vault that it leaves, with the store that it writes to.
use shatters.Common.{
  Outcome, err, ok, or_throw, pure, ◌>>=◌, ℕ, Bool, not, Option, none, some, List, [], ◌∷◌, ◌++◌,
  Text, length, leb, take, drop, text_eq, if◌then◌else◌, ascii, utf8_encode, utf8_decode, is_some,
}
use shatters.Bytes.{Bytes}
use shatters.Crypto.{Crypto}
use shatters.Json.{Json, stringify, parse}
use shatters.Storage.Adapter.{MemoryAdapter, get, set, delete_entry, keys}

-- What the vault calls of libsodium besides Crypto; `none` where it throws.
pub record PasswordHash : Type 0 where
  -- `crypto_pwhash(32, passphrase, salt, ops_limit, mem_limit, ALG_ARGON2ID13)`.
  pub pwhash : (passphrase : Text) (salt : Bytes) (ops_limit mem_limit : ℕ) → Option Bytes
  -- `to_base64` and `from_base64` of the variant ORIGINAL.
  pub to_base64 : Bytes → Text
  pub from_base64 : Text → Option Bytes
  -- `crypto_pwhash_OPSLIMIT_MODERATE` and its like.
  pub moderate_ops : ℕ
  pub moderate_mem : ℕ
  pub interactive_ops : ℕ
  pub interactive_mem : ℕ

abbrev pub params_key : Text
params_key = ascii "vault:params"

abbrev pub record_prefix : Text
record_prefix = ascii "vault:record:"

abbrev pub canary_name : Text
canary_name = ascii "__canary__"

abbrev pub canary_plaintext : Text
canary_plaintext = ascii "shatters-vault-v1"

abbrev pub nonce_length : ℕ
nonce_length = 24

abbrev pub algorithm : Text
algorithm = ascii "argon2id13"

pub data VaultError : Type 0 where
  already_exists empty_passphrase no_vault corrupt_params incorrect_passphrase locked : VaultError
  unsupported_algorithm : Option Json → VaultError
  truncated unauthentic : (name : Text) → VaultError
  -- An error that is not the vault's own: of libsodium, of a field that is missing, of JSON.parse.
  foreign : VaultError

abbrev pub Result {ℓ} : Type ℓ → Type ℓ
Result A = Outcome VaultError A

pub record KdfParams : Type 0 where
  pub salt : Text
  pub ops_limit : ℕ
  pub mem_limit : ℕ

pub data VaultStrength : Type 0 where
  interactive moderate : VaultStrength

pub record Vault : Type 0 where
  pub adapter : MemoryAdapter
  pub params : KdfParams
  pub key : Option Bytes

unfoldable pub record_key : Text → Text
record_key name = record_prefix ++ name

unfoldable pub exists : MemoryAdapter → Bool
exists adapter = is_some (get params_key adapter)

unfoldable pub derive_key : PasswordHash → Text → KdfParams → Result Bytes
derive_key p passphrase params = do
  salt ← or_throw foreign (p.from_base64 params.salt)
  or_throw foreign (p.pwhash passphrase salt params.ops_limit params.mem_limit)

unfoldable pub is_locked : Vault → Bool
is_locked vault = not (is_some vault.key)

unfoldable pub lock : Vault → Vault
lock vault = record vault { key = none }

unfoldable pub require_key : Vault → Result Bytes
require_key vault = or_throw locked vault.key

unfoldable pub delete_record : Text → Vault → Result Vault
delete_record name vault = do
  key ← require_key vault
  pure (record vault { adapter = delete_entry (record_key name) vault.adapter })

-- The names behind their prefix, without the canary's.
unfoldable pub names_of : List Text → List Text
names_of [] = []
names_of (key ∷ keys) =
    if text_eq (drop (length record_prefix) key) canary_name
    then names_of keys
    else drop (length record_prefix) key ∷ names_of keys

unfoldable pub list : Text → Vault → Result (List Text)
list prefix vault = do
  key ← require_key vault
  pure (names_of (keys (record_prefix ++ prefix) vault.adapter))

unfoldable pub delete_all : List Text → MemoryAdapter → MemoryAdapter
delete_all [] adapter = adapter
delete_all (key ∷ keys) adapter = delete_all keys (delete_entry key adapter)

unfoldable pub destroy : Vault → Vault
destroy vault = lock (record vault {
  adapter = delete_entry params_key (delete_all (keys record_prefix vault.adapter) vault.adapter);
})

module _ (c : Crypto) where
  abbrev pub seal : (name : Text) (value nonce key : Bytes) → Bytes
  seal name value nonce key = nonce ++ c.aead_encrypt value (utf8_encode name) nonce key

  unfoldable pub put : Text → Bytes → (nonce : Bytes) → Vault → Result Vault
  put name value nonce vault = do
    key ← require_key vault
    pure
        (record vault { adapter = set (record_key name) (seal name value nonce key) vault.adapter })

  unfoldable pub open_framed : Text → Bytes → Option Bytes → Result (Option Bytes)
  open_framed name key none = ok none
  open_framed name key (some framed) =
      if leb (length framed) nonce_length
      then err (truncated name)
      else or_throw (unauthentic name) (
          c.aead_decrypt (drop nonce_length framed) (utf8_encode name) (take nonce_length framed)
            key)
        >>= λ value. ok (some value)

  unfoldable pub get_record : Text → Vault → Result (Option Bytes)
  get_record name vault = do
    key ← require_key vault
    open_framed name key (get (record_key name) vault.adapter)

  unfoldable pub put_string : Text → Text → (nonce : Bytes) → Vault → Result Vault
  put_string name value nonce vault = put name (utf8_encode value) nonce vault

  abbrev pub decoded : Option Bytes → Option Text
  decoded none = none
  decoded (some raw) = some (utf8_decode raw)

  unfoldable pub get_string : Text → Vault → Result (Option Text)
  get_string name vault = get_record name vault >>= λ raw. ok (decoded raw)

  unfoldable pub put_json : Text → Json → (nonce : Bytes) → Vault → Result Vault
  put_json name value nonce vault = put_string name (stringify value) nonce vault

  abbrev pub parsed : Option Text → Result (Option Json)
  parsed none = ok none
  parsed (some raw) = or_throw foreign (parse raw) >>= λ value. ok (some value)

  unfoldable pub get_json : Text → Vault → Result (Option Json)
  get_json name vault = get_string name vault >>= parsed
