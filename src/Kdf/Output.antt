-- ===== src/Kdf/Output.antt =====
-- web/src/lib/crypto/kdf.ts: when `hkdfSha256` throws, and what it returns.
use shatters.Common.{
  err, ok, ℕ, zero, suc, ◌+◌, ◌*◌, ◌/◌, ◌≤◌, ◌<◌, ◌≡◌, ◌≢◌, ◌⊎◌, inl, inr, ◌%◌, ◌∷◌, ◌||◌, ltb,
  ◌==◌, Bool-cases, [], ◌++◌, length, length-append, length-take_le, take, arith,
}
use shatters.Bytes.{Bytes}
use shatters.Crypto.{Crypto, IsSound}
use shatters.Kdf.{KdfError, salt_length, output_length, expand, hkdf_sha256}

module _ (c : Crypto) (laws : IsSound c) where
  length-expand :
      (blocks : ℕ) (prk info : Bytes) (i : ℕ) (previous : Bytes)
      → length (expand c blocks prk info i previous) ≡ 32 * blocks
  unfolding expand
  length-expand zero prk info i previous = omega arith
  length-expand (suc blocks) prk info i previous =
      let block = c.hmac_sha256 (previous ++ (info ++ (i % 256) ∷ [])) prk in
      omega (
        arith,
        length-append block (expand c blocks prk info (suc i) block),
        laws.hmac_length (previous ++ (info ++ (i % 256) ∷ [])) prk,
        length-expand blocks prk info (suc i) block,
      )

  -- `hkdfSha256` returns exactly for a salt of 32 bytes and a length from 1 to 255 blocks, and then
  -- it returns as many bytes as were asked for; otherwise it throws.
  pub hkdf_sha256-length :
      (ikm salt info : Bytes) (n : ℕ)
      → ((out : Bytes) × (hkdf_sha256 c ikm salt info n ≡ ok out)
          × (length out ≡ n)
          × (length salt ≡ 32)
          × (1 ≤ n)
          × (n ≤ 255 * 32))
        ⊎ ((e : KdfError) × (hkdf_sha256 c ikm salt info n ≡ err e)
            × ((length salt ≢ 32) ⊎ ((n < 1) ⊎ (255 * 32 < n))))
  unfolding hkdf_sha256
  hkdf_sha256-length ikm salt info n = elim (Bool-cases (length salt == 32)) [
    | inr bad ↦ inr (salt_length, ground arith, inl (λ e. ground arith))
    | inl salted ↦ elim (Bool-cases (ltb n 1 || ltb 8160 n)) [
      | inl outside ↦ inr (output_length, ground arith, inr (ground arith))
      | inr inside ↦
          let okm = expand c ((n + 31) / 32) (c.hmac_sha256 ikm salt) info 1 [] in
          let long = length-expand ((n + 31) / 32) (c.hmac_sha256 ikm salt) info 1 [] in
          inl (
            take n okm,
            ground arith,
            length-take_le n okm (omega arith),
            ground arith,
            ground arith,
            ground arith,
          )
    ]
  ]
