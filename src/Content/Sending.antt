-- ===== src/Content/Sending.antt =====
-- web/src/lib/crypto/content.ts: each chunk of a file on its way to the peer.
use shatters.Common.{
  ok, ◌≡◌, ◌≢◌, ◌≤◌, refl, some, [], ◌∷◌, Text, length, take, zero, ℕ, suc, ltb, ◌&&◌, arith, ◌+◌,
  ◌-◌, ◌*◌, ◌<◌, drop, Bool, ◌^◌, none, true, false, ap, ◌∙◌, if◌then◌else◌, ◌==◌, btoa, btoa-units,
  Option-cases, inl, inr,
}
use mathlib.Core.List.{Memᴰ}
use shatters.Bytes.{Bytes, IsBytes}
use shatters.Content.Chunks.{
  AttachmentInput, AttachmentChunk, chunk_attachment, chunk_at, chunk_total, to_base64, from_base64,
}
use shatters.Content.Slices.{piece, chunk_attachment-mem, from_base64-piece}
use shatters.Json.{Json, overflow_limit, is_units, is_units-of_All, are_plain_fields, plain_safe}
use shatters.Content.Frame.{attachment, to_fields, encode_content, framed_fields}
use shatters.Content.Decode.{content, decode_content}
use shatters.Content.Roundtrip.{is_present, is_sendable, decode_content-encode_content}

length-take : (n : ℕ) (xs : Bytes) → length (take n xs) ≤ n
length-take zero xs = omega arith
length-take (suc n) [] = omega arith
length-take (suc n) (x ∷ xs) = omega (arith, length-take n xs)

piece-short : (input : AttachmentInput) (i : ℕ) → length (piece input i) ≤ 32 * 1024
piece-short input i =
    omega (arith, length-take ((i + 1) * 32768 - i * 32768) (drop (i * 32768) input.bytes))

chunk_at-is_sendable :
    (input : AttachmentInput) (i : ℕ)
    → input.id ≢ []
    → i < chunk_total input.bytes
    → is_sendable (attachment (chunk_at input i)) ≡ true
unfolding chunk_at
chunk_at-is_sendable input i named below = present input.id named
  where
    present : (id : Text) → id ≢ [] → (is_present id && ltb i (chunk_total input.bytes)) ≡ true
    present [] named = absurd (named refl)
    present (u ∷ us) named = ground arith

-- A file whose texts are of 16-bit units and whose size and time are exact in a double.
pub record IsSafe (input : AttachmentInput) : Type 0 where
  pub id_units : is_units input.id ≡ true
  pub name_units : is_units input.name ≡ true
  pub mime_type_units : is_units input.mime_type ≡ true
  pub caption_units : (caption : Text) → input.caption ≡ some caption → is_units caption ≡ true
  pub size_safe : length input.bytes < 2 ^ 53
  pub timestamp_safe : input.timestamp < 2 ^ 53

chunk_total-lt : (bytes : Bytes) → length bytes < 2 ^ 53 → chunk_total bytes < 2 ^ 53
unfolding chunk_total
chunk_total-lt bytes h = omega (arith, h)

-- A chunk that is written as JSON without rounding or loss.
record IsPlainChunk (c : AttachmentChunk) : Type 0 where
  id_units : is_units c.id ≡ true
  name_units : is_units c.name ≡ true
  mime_type_units : is_units c.mime_type ≡ true
  data_units : is_units c.data_text ≡ true
  size_safe : c.size < 2 ^ 53
  index_safe : c.chunk_index < 2 ^ 53
  count_safe : c.chunk_count < 2 ^ 53
  timestamp_safe : c.timestamp < 2 ^ 53
  caption_units : (caption : Text) → c.caption ≡ some caption → is_units caption ≡ true

plain_attachment :
    (c : AttachmentChunk) → IsPlainChunk c → are_plain_fields (framed_fields (attachment c)) ≡ true
unfolding to_fields overflow_limit
plain_attachment c p =
    let size = plain_safe c.size p.size_safe in
    let index = plain_safe c.chunk_index p.index_safe in
    let count = plain_safe c.chunk_count p.count_safe in
    let time = plain_safe c.timestamp p.timestamp_safe in
    elim (Option-cases c.caption) [
      | inl e ↦
          simp
            (e, p.id_units, p.name_units, p.mime_type_units, p.data_units, size, index, count, time)
            refl
      | inr (t, e) ↦
          simp
            (
              e,
              p.caption_units t e,
              p.id_units,
              p.name_units,
              p.mime_type_units,
              p.data_units,
              size,
              index,
              count,
              time,
            )
            refl
    ]

chunk_at-plain :
    (input : AttachmentInput) (i : ℕ)
    → IsSafe input
    → i < chunk_total input.bytes
    → are_plain_fields (framed_fields (attachment (chunk_at input i))) ≡ true
unfolding chunk_at to_base64
chunk_at-plain input i safe below =
    let count = chunk_total-lt input.bytes safe.size_safe in
    plain_attachment (chunk_at input i) (record {
      id_units = safe.id_units;
      name_units = safe.name_units;
      mime_type_units = safe.mime_type_units;
      data_units = is_units-of_All (btoa (piece input i)) (btoa-units (piece input i));
      size_safe = safe.size_safe;
      index_safe = omega (arith, below, count);
      count_safe = count;
      timestamp_safe = safe.timestamp_safe;
      caption_units = captioned (i == chunk_total input.bytes - 1);
    })
  where
    captioned :
        (last : Bool) (t : Text)
        → (if last then input.caption else none) ≡ some t
        → is_units t ≡ true
    captioned true t e = safe.caption_units t e
    captioned false t e = absurd (ground arith)

-- A chunk that `chunkAttachment` makes of a file of bytes that has an id, whose texts are of 16-bit
-- units and whose size and time are below 2 ^ 53, carries at most 32 KiB of the file in base64 that reads
-- back, and the peer's `decodeContent` accepts the bytes that `encodeContent` makes of it.
pub chunk_attachment-content :
    (positive : Json → Bool) (input : AttachmentInput) (c : AttachmentChunk) (bytes : Bytes)
    → IsBytes input.bytes
    → IsSafe input
    → input.id ≢ []
    → Memᴰ c (chunk_attachment input)
    → encode_content (attachment c) ≡ ok bytes
    → ((part : Bytes) × (from_base64 c.data_text ≡ ok part) × (length part ≤ 32 * 1024))
      × (decode_content positive bytes ≡ ok (content (to_fields (attachment c))))
chunk_attachment-content positive input c bytes valid safe named m e =
    let (i, below, same) = chunk_attachment-mem input c m in
    let back : from_base64 c.data_text ≡ ok (piece input i) =
      ap (λ x. from_base64 x.data_text) same ∙ from_base64-piece input i valid in
    let plain : are_plain_fields (framed_fields (attachment c)) ≡ true =
      ap (λ x. are_plain_fields (framed_fields (attachment x))) same
      ∙ chunk_at-plain input i safe below in
    let sendable : is_sendable (attachment c) ≡ true =
      ap (λ x. is_sendable (attachment x)) same ∙ chunk_at-is_sendable input i named below in
    (
      (piece input i, back, piece-short input i),
      (decode_content-encode_content positive (attachment c) bytes e plain).1 sendable,
    )
