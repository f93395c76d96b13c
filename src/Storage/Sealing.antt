-- ===== src/Storage/Sealing.antt =====
-- web/src/lib/storage/vault.ts, `put` and `get`: one sealed record, and the entries of the store around it.
use shatters.Common.{
  ok, or_throw, ◌>>=◌, ℕ, ◌<◌, ◌≡◌, ◌≢◌, refl, subst, false, none, some, [], ◌∷◌, ◌++◌, Text,
  length, take, drop, leb, arith, text_eq, if◌then◌else◌, lookup-assign, lookup-remove_key,
  take-append_self, drop-append_self, length-append, utf8_encode,
}
use shatters.Bytes.{Bytes}
use shatters.Crypto.{Crypto, IsSound}
use shatters.Storage.Adapter.{MemoryAdapter, get, set, delete_entry}
use shatters.Storage.Vault.{
  unauthentic, Vault, params_key, record_prefix, record_key, seal, require_key, open_framed,
  get_record,
}

text_eq-append : (p a b : Text) → text_eq (p ++ a) (p ++ b) ≡ text_eq a b
unfolding text_eq
text_eq-append [] a b = refl
text_eq-append (u ∷ p) a b = ground (arith, text_eq-append p a b)

pub record_key-eq : (a b : Text) → text_eq (record_key a) (record_key b) ≡ text_eq a b
unfolding record_key
record_key-eq a b = text_eq-append record_prefix a b

pub record_key-params_key : (a : Text) → text_eq (record_key a) params_key ≡ false
unfolding record_key text_eq
record_key-params_key a = refl

pub get-set :
    (j k : Text) (value : Bytes) (adapter : MemoryAdapter)
    → get j (set k value adapter) ≡ (if text_eq k j then some value else get j adapter)
unfolding get set
get-set j k value adapter = lookup-assign j k value adapter.entries

pub get-delete_entry :
    (j k : Text) (adapter : MemoryAdapter)
    → get j (delete_entry k adapter) ≡ (if text_eq k j then none else get j adapter)
unfolding get delete_entry
get-delete_entry j k adapter = lookup-remove_key j k adapter.entries

pub get_record-unlocked :
    (c : Crypto) (name : Text) (key : Bytes) (vault : Vault)
    → vault.key ≡ some key
    → get_record c name vault ≡ open_framed c name key (get (record_key name) vault.adapter)
unfolding get_record require_key
get_record-unlocked c name key vault e = simp e refl

take-append_at : (n : ℕ) (xs ys : Bytes) → length xs ≡ n → take n (xs ++ ys) ≡ xs
take-append_at n xs ys h = subst (λ k. take k (xs ++ ys) ≡ xs) h (take-append_self xs ys)

drop-append_at : (n : ℕ) (xs ys : Bytes) → length xs ≡ n → drop n (xs ++ ys) ≡ ys
drop-append_at n xs ys h = subst (λ k. drop k (xs ++ ys) ≡ ys) h (drop-append_self xs ys)

nonempty-length : (xs : Bytes) → xs ≢ [] → 0 < length xs
nonempty-length [] h = absurd (h refl)
nonempty-length (x ∷ xs) h = omega arith

-- What stands in a frame is opened under any name and key as the decryption says.
pub open_framed-sealed :
    (c : Crypto) (sealed_as name : Text) (value nonce key other : Bytes)
    → IsSound c
    → length nonce ≡ 24
    → open_framed c name other (some (seal c sealed_as value nonce key))
      ≡ or_throw (unauthentic name) (
          c.aead_decrypt
            (c.aead_encrypt value (utf8_encode sealed_as) nonce key)
            (utf8_encode name)
            nonce
            other)
        >>= λ v. ok (some v)
unfolding open_framed
open_framed-sealed c sealed_as name value nonce key other sound h =
    let ct = c.aead_encrypt value (utf8_encode sealed_as) nonce key in
    let long : leb (length (nonce ++ ct)) 24 ≡ false = ground (
      arith,
      length-append nonce ct,
      nonempty-length ct (sound.encrypt_nonempty value (utf8_encode sealed_as) nonce key),
      h,
    ) in
    rw (long, take-append_at 24 nonce ct h, drop-append_at 24 nonce ct h) refl
