-- ===== src/Kdf.antt =====
-- web/src/lib/crypto/kdf.ts: HKDF-SHA256 over the library's HMAC.
pub mod Output
use shatters.Common.{
  Outcome, err, ok, ℕ, zero, suc, ◌+◌, ◌*◌, ◌/◌, ◌%◌, Bool, true, false, not, ◌||◌, List, [], ◌∷◌,
  ◌++◌, length, take, ltb, ◌==◌, if◌then◌else◌,
}
use shatters.Bytes.{Bytes}
use shatters.Crypto.{Crypto}

abbrev pub hash_length : ℕ
hash_length = 32

pub data KdfError : Type 0 where
  salt_length output_length : KdfError

abbrev pub Result : Type 0
Result = Outcome KdfError Bytes

module _ (c : Crypto) where
  -- The loop of the expansion, over the blocks left; the counter is one byte. Each block fills its
  -- 32 bytes of `okm`, so the blocks in a row are the buffer.
  unfoldable pub expand : ℕ → (prk info : Bytes) → (i : ℕ) → (previous : Bytes) → Bytes
  expand zero prk info i previous = []
  expand (suc blocks) prk info i previous =
      let block = c.hmac_sha256 (previous ++ (info ++ (i % 256) ∷ [])) prk in
      block ++ expand blocks prk info (suc i) block

  unfoldable pub hkdf_sha256 : (ikm salt info : Bytes) → ℕ → Result
  hkdf_sha256 ikm salt info length_ =
      if not (length salt == hash_length)
      then err salt_length
      else if ltb length_ 1 || ltb (255 * hash_length) length_
      then err output_length
      else ok
          (take length_ (expand ((length_ + 31) / hash_length) (c.hmac_sha256 ikm salt) info 1 []))
