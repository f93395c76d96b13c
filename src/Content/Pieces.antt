-- ===== src/Content/Pieces.antt =====
-- web/src/lib/crypto/content.ts, `AttachmentAssembler`: what it holds of a file, and how a chunk changes that.
use shatters.Common.{
  ok, ◌>>=◌, ℕ, zero, suc, ◌-◌, ◌<◌, ◌≡◌, refl, sym, ap, ◌∙◌, ◌⊎◌, inl, inr, Bool, true, false, not,
  ◌||◌, Option, none, some, List, [], ◌∷◌, Text, length, ◌==◌, if◌then◌else◌, arith, Bool-cases,
  Option-cases, ==_iff, is_some,
}
use shatters.Bytes.{Bytes}
use shatters.Content.Chunks.{
  AttachmentInput, AttachmentChunk, AttachmentAssembler, AttachmentFile, Parts, chunk_total,
  chunk_at, concat_parts, get_part, set_part, meta_with, check_size, finish, add, new_assembler,
}
use shatters.Content.Indices.{
  count_below, all_below, count_below-all_below, all_below-elim, count_below-same,
  count_below-one_more, get_part-set_part, length-set_part,
}
use shatters.Content.Slices.{piece, chunk_total-positive, concat_parts-all}

-- Whether a chunk of this index has arrived.
abbrev pub has_index : List AttachmentChunk → ℕ → Bool
has_index [] j = false
has_index (c ∷ cs) j = c.chunk_index == j || has_index cs j

-- Whether every chunk of the file has arrived.
abbrev pub is_complete : AttachmentInput → List AttachmentChunk → Bool
is_complete input arrived = all_below (chunk_total input.bytes) (has_index arrived)

-- The assembler once the chunks have arrived, the latest first.
abbrev pub receive_all : List AttachmentChunk → AttachmentAssembler
receive_all [] = new_assembler
receive_all (c ∷ earlier) = (add c (receive_all earlier)).0

abbrev pub file_of : AttachmentInput → AttachmentFile
file_of input = record {
  name = input.name;
  mime_type = input.mime_type;
  bytes = input.bytes;
  caption = input.caption;
}

pub none_arrived : (n : ℕ) → count_below n (has_index []) ≡ 0
none_arrived zero = refl
none_arrived (suc n) = none_arrived n

module _ (input : AttachmentInput) where
  -- What the metadata says whichever chunk it is from.
  pub record IsMeta (m : AttachmentChunk) : Type 0 where
    pub id_lem : m.id ≡ input.id
    pub name_lem : m.name ≡ input.name
    pub mime_type_lem : m.mime_type ≡ input.mime_type
    pub size_lem : m.size ≡ length input.bytes
    pub count_lem : m.chunk_count ≡ chunk_total input.bytes

  abbrev pub caption_of : Bool → Option Text
  caption_of last = if last then input.caption else none

  abbrev pub last_index : ℕ
  last_index = chunk_total input.bytes - 1

  -- The metadata of an assembler to which these chunks have been added.
  pub data Describes : List AttachmentChunk → Option AttachmentChunk → Type 0 where
    nothing : Describes [] none
    known :
        {c : AttachmentChunk} {cs : List AttachmentChunk} (m : AttachmentChunk)
        → IsMeta m
        → m.caption ≡ caption_of (has_index (c ∷ cs) last_index)
        → Describes (c ∷ cs) (some m)

  abbrev pub HasPieces : List AttachmentChunk → Parts → Type 0
  HasPieces arrived parts =
      ((j : ℕ) → get_part j parts ≡ (if has_index arrived j then some (piece input j) else none))
      × (length parts ≡ count_below (chunk_total input.bytes) (has_index arrived))

  pub HasPieces-set_part :
      (i : ℕ) (arrived : List AttachmentChunk) (parts : Parts)
      → i < chunk_total input.bytes
      → HasPieces arrived parts
      → HasPieces (chunk_at input i ∷ arrived) (set_part i (piece input i) parts)
  unfolding chunk_at
  HasPieces-set_part i arrived parts below h = (
    λ j. ground (arith, get_part-set_part j i (piece input i) parts, h.0 j, ==_iff i j),
    elim (Bool-cases (has_index arrived i)) [
      | inl old ↦
          length-set_part i (piece input i) parts
          ∙ ap (λ o. if is_some o then length parts else suc (length parts))
              (h.0 i ∙ ap piece_if old)
          ∙ h.1
          ∙ sym (count_below-same total _ _ (λ j lower. ground (arith, ==_iff i j, old)))
      | inr new ↦
          length-set_part i (piece input i) parts
          ∙ ap (λ o. if is_some o then length parts else suc (length parts))
              (h.0 i ∙ ap piece_if new)
          ∙ ap suc h.1
          ∙ sym (
              count_below-one_more total i _ _ below new (ground arith)
                (λ j apart. ground (arith, apart)))
    ],
  )
    where
      total : ℕ
      total = chunk_total input.bytes

      piece_if : Bool → Option Bytes
      piece_if b = if b then some (piece input i) else none

  check_size-IsMeta :
      (m : AttachmentChunk)
      → IsMeta m
      → m.caption ≡ input.caption
      → check_size m input.bytes ≡ ok (some (file_of input))
  check_size-IsMeta m meta caption =
      simp (meta.size_lem, meta.name_lem, meta.mime_type_lem, caption) (ground arith)

  pub finish-Complete :
      (m : AttachmentChunk) (arrived : List AttachmentChunk) (parts : Parts)
      → IsMeta m
      → m.caption ≡ caption_of (has_index arrived last_index)
      → HasPieces arrived parts
      → finish m (chunk_total input.bytes) parts
        ≡ ok (if is_complete input arrived then some (file_of input) else none)
  unfolding finish
  finish-Complete m arrived parts meta caption h =
      rw
        (ap (λ n. n == chunk_total input.bytes) h.1
          ∙ count_below-all_below (chunk_total input.bytes) (has_index arrived))
        (go (is_complete input arrived) refl)
    where
      go :
          (b : Bool)
          → is_complete input arrived ≡ b
          → (if not b
              then ok none
              else concat_parts parts 0 (chunk_total input.bytes) >>= λ bytes. check_size m bytes)
            ≡ ok (if b then some (file_of input) else none)
      go false missing = refl
      go true all =
          rw
            (concat_parts-all input parts (λ j below.
              h.0 j
              ∙ ap (λ b. if b then some (piece input j) else none)
                  (all_below-elim _ _ all j below)))
            (check_size-IsMeta m meta (
              caption
              ∙ ap caption_of (
                  all_below-elim (chunk_total input.bytes) (has_index arrived) all last_index
                    (omega (arith, chunk_total-positive input.bytes)))))

  -- What holds of the assembler once these chunks have been added.
  pub record Holds (arrived : List AttachmentChunk) (s : AttachmentAssembler) : Type 0 where
    pub described : Describes arrived s.meta
    pub pieces : HasPieces arrived s.parts

  -- A chunk gives its caption to metadata that has the one of the earlier chunks, or its own.
  pub caption_of-meta_with :
      (here last : Bool) (m : AttachmentChunk)
      → (m.caption ≡ caption_of last) ⊎ ((last ≡ false) × (m.caption ≡ caption_of here))
      → (meta_with m (caption_of here)).caption ≡ caption_of (here || last)
  unfolding meta_with
  caption_of-meta_with false last m (inl e) = e
  caption_of-meta_with false last m (inr (no_last, e)) = e ∙ ap caption_of (sym no_last)
  caption_of-meta_with true last m h = elim (Option-cases input.caption) [
    | inl e ↦ rw e (unset input.caption e last h)
    | inr (caption, e) ↦ rw e refl
  ]
    where
      unset :
          (o : Option Text)
          → o ≡ none
          → (last : Bool)
          → (m.caption ≡ (if last then o else none)) ⊎ ((last ≡ false) × (m.caption ≡ o))
          → m.caption ≡ none
      unset o e true (inl q) = q ∙ e
      unset o e true (inr (_, q)) = q ∙ e
      unset o e false (inl q) = q
      unset o e false (inr (_, q)) = q ∙ e

  pub meta_with-IsMeta :
      (m : AttachmentChunk) (caption : Option Text) → IsMeta m → IsMeta (meta_with m caption)
  unfolding meta_with
  meta_with-IsMeta m none h = h
  meta_with-IsMeta m (some caption) h = record {
    id_lem = h.id_lem;
    name_lem = h.name_lem;
    mime_type_lem = h.mime_type_lem;
    size_lem = h.size_lem;
    count_lem = h.count_lem;
  }

  pub chunk_at-IsMeta : (i : ℕ) → IsMeta (chunk_at input i)
  unfolding chunk_at
  chunk_at-IsMeta i = record {
    id_lem = refl;
    name_lem = refl;
    mime_type_lem = refl;
    size_lem = refl;
    count_lem = refl;
  }
