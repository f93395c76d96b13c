-- ===== src/Content/Slices.antt =====
-- The chunks of a file: where they stand in the list, their sizes, and that their bytes make the file.
use shatters.Common.{
  ok, ℕ, zero, suc, ◌+◌, ◌-◌, ◌*◌, ◌≤◌, ◌<◌, ◌≡◌, refl, sym, ap, subst, ◌∙◌, some, [], ◌∷◌, ◌++◌,
  arith, take, drop, length, take-append-drop, drop-drop, All-take, All-drop, atob-btoa,
}
use mathlib.Core.List.{Memᴰ}
use shatters.Bytes.{Bytes, IsBytes, slice}
use shatters.Content.Chunks.{
  AttachmentInput, AttachmentChunk, Parts, max_chunk_bytes, chunk_total, chunk_at, chunks_from,
  chunk_attachment, get_part, concat_parts, to_base64, from_base64,
}

-- The bytes of chunk `i`.
abbrev pub piece : AttachmentInput → ℕ → Bytes
piece input i = slice input.bytes (i * max_chunk_bytes) ((i + 1) * max_chunk_bytes)

pub chunk_total-positive : (bytes : Bytes) → 0 < chunk_total bytes
unfolding chunk_total
chunk_total-positive bytes = omega arith

pub chunk_total-enough : (bytes : Bytes) → length bytes ≤ chunk_total bytes * max_chunk_bytes
unfolding chunk_total
chunk_total-enough bytes = omega arith

chunks_from-mem :
    (input : AttachmentInput) (i left : ℕ) (c : AttachmentChunk)
    → Memᴰ c (chunks_from input i left)
    → (j : ℕ) × (j < i + left) × (c ≡ chunk_at input j)
unfolding chunks_from
chunks_from-mem input i zero c m = elim m [ ]
chunks_from-mem input i (suc left) c (Memᴰ.head e) = (i, omega arith, e)
chunks_from-mem input i (suc left) c (Memᴰ.tail m) =
    let found = chunks_from-mem input (i + 1) left c m in (found.0, omega (arith, found.1), found.2)

pub chunk_attachment-mem :
    (input : AttachmentInput) (c : AttachmentChunk)
    → Memᴰ c (chunk_attachment input)
    → (j : ℕ) × (j < chunk_total input.bytes) × (c ≡ chunk_at input j)
unfolding chunk_attachment
chunk_attachment-mem input c m =
    let found = chunks_from-mem input 0 (chunk_total input.bytes) c m in
    (found.0, omega (arith, found.1), found.2)

chunks_from-chunk_at :
    (input : AttachmentInput) (i left k : ℕ)
    → k < left
    → Memᴰ (chunk_at input (i + k)) (chunks_from input i left)
unfolding chunks_from
chunks_from-chunk_at input i zero k below = absurd (omega arith)
chunks_from-chunk_at input i (suc left) zero below = Memᴰ.head (ap (chunk_at input) (omega arith))
chunks_from-chunk_at input i (suc left) (suc k) below =
    let e : i + 1 + k ≡ i + suc k = omega arith in
    Memᴰ.tail (
      subst (λ n. Memᴰ (chunk_at input n) (chunks_from input (i + 1) left)) e
        (chunks_from-chunk_at input (i + 1) left k (omega arith)))

pub chunk_at-mem :
    (input : AttachmentInput) (i : ℕ)
    → i < chunk_total input.bytes
    → Memᴰ (chunk_at input i) (chunk_attachment input)
unfolding chunk_attachment
chunk_at-mem input i below =
    subst (λ n. Memᴰ (chunk_at input n) (chunk_attachment input))
      (let e : 0 + i ≡ i = omega arith in e)
      (chunks_from-chunk_at input 0 (chunk_total input.bytes) i below)

pub from_base64-piece :
    (input : AttachmentInput) (i : ℕ)
    → IsBytes input.bytes
    → from_base64 (chunk_at input i).data_text ≡ ok (piece input i)
unfolding from_base64 chunk_at to_base64
from_base64-piece input i h =
    rw
      (atob-btoa (piece input i) (
        All-take (λ b. b < 256) _ (drop (i * max_chunk_bytes) input.bytes)
          (All-drop (λ b. b < 256) (i * max_chunk_bytes) input.bytes h)))
      refl

drop-past : (n : ℕ) (xs : Bytes) → length xs ≤ n → drop n xs ≡ []
drop-past zero [] h = refl
drop-past zero (x ∷ xs) h = absurd (omega arith)
drop-past (suc n) [] h = refl
drop-past (suc n) (x ∷ xs) h = drop-past n xs (omega arith)

-- What is left from chunk `i` on is that chunk and what is left behind it.
split :
    (i : ℕ) (xs : Bytes)
    → slice xs (i * max_chunk_bytes) ((i + 1) * max_chunk_bytes)
        ++ drop ((i + 1) * max_chunk_bytes) xs
      ≡ drop (i * max_chunk_bytes) xs
split i xs =
    let front : (i + 1) * max_chunk_bytes - i * max_chunk_bytes ≡ max_chunk_bytes = omega arith in
    let back : (i + 1) * max_chunk_bytes ≡ i * max_chunk_bytes + max_chunk_bytes = omega arith in
    rw (front, back)
      (sym (
          ap (λ t. take max_chunk_bytes (drop (i * max_chunk_bytes) xs) ++ t)
            (drop-drop max_chunk_bytes (i * max_chunk_bytes) xs))
        ∙ take-append-drop max_chunk_bytes (drop (i * max_chunk_bytes) xs))

-- The parts from `i` on are the bytes from the start of chunk `i` on.
concat_parts-pieces :
    (input : AttachmentInput) (parts : Parts) (i left : ℕ)
    → ((j : ℕ) → j < i + left → get_part j parts ≡ some (piece input j))
    → length input.bytes ≤ (i + left) * max_chunk_bytes
    → concat_parts parts i left ≡ ok (drop (i * max_chunk_bytes) input.bytes)
unfolding concat_parts
concat_parts-pieces input parts i zero all enough =
    ap ok (sym (drop-past (i * max_chunk_bytes) input.bytes (omega (arith, enough))))
concat_parts-pieces input parts i (suc left) all enough =
    rw
      (
        all i (omega arith),
        concat_parts-pieces input parts (i + 1) left (λ j below. all j (omega (arith, below)))
            (omega (arith, enough)),
      )
      (ap ok (split i input.bytes))

-- The stored parts of all chunks make the bytes of the file.
pub concat_parts-all :
    (input : AttachmentInput) (parts : Parts)
    → ((j : ℕ) → j < chunk_total input.bytes → get_part j parts ≡ some (piece input j))
    → concat_parts parts 0 (chunk_total input.bytes) ≡ ok input.bytes
concat_parts-all input parts all =
    concat_parts-pieces input parts 0 (chunk_total input.bytes)
      (λ j below. all j (omega (arith, below))) (omega (arith, chunk_total-enough input.bytes))
