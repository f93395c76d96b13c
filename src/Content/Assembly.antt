-- ===== src/Content/Assembly.antt =====
-- The chunks of one file arriving in any order, some of them more than once.
use shatters.Common.{
  ok, ℕ, ◌<◌, ◌≡◌, refl, sym, subst, ◌⊎◌, inl, inr, true, false, Option, none, some, List, [], ◌∷◌,
  ◌==◌, if◌then◌else◌, All, text_eq, text_eq_refl, ==_iff,
}
use mathlib.Core.List.{Memᴰ}
use shatters.Bytes.{IsBytes}
use shatters.Content.Chunks.{
  AttachmentInput, AttachmentChunk, AttachmentAssembler, AttachmentFile, Parts, Result, chunk_total,
  chunk_at, chunk_attachment, get_part, set_part, meta_with, add_to, store_part, store_chunk, add,
}
use shatters.Content.Slices.{piece, chunk_attachment-mem, from_base64-piece}
use shatters.Content.Pieces.{
  has_index, is_complete, receive_all, file_of, nothing, known, Holds, HasPieces,
  HasPieces-set_part, finish-Complete, IsMeta, caption_of, last_index, Describes,
  caption_of-meta_with, meta_with-IsMeta, chunk_at-IsMeta, none_arrived,
}

module _ (input : AttachmentInput) where
  -- What an addition should leave and return.
  abbrev Added :
      List AttachmentChunk → AttachmentAssembler × Result (Option AttachmentFile) → Type 0
  Added arrived r =
      Holds input arrived r.0
      × (r.1 ≡ ok (if is_complete input arrived then some (file_of input) else none))

  store_chunk-Added :
      (i : ℕ) (arrived : List AttachmentChunk) (m : AttachmentChunk) (parts : Parts)
      → IsBytes input.bytes
      → i < chunk_total input.bytes
      → IsMeta input m
      → (m.caption ≡ caption_of input (has_index arrived (last_index input)))
        ⊎ ((has_index arrived (last_index input) ≡ false)
            × (m.caption ≡ (chunk_at input i).caption))
      → HasPieces input arrived parts
      → Added (chunk_at input i ∷ arrived) (store_chunk m (chunk_at input i) parts)
  unfolding store_chunk store_part chunk_at
  store_chunk-Added i arrived m parts bytes below meta caption h =
      let new = meta_with m (chunk_at input i).caption in
      let described = meta_with-IsMeta input m (chunk_at input i).caption meta in
      let captioned : new.caption
          ≡ caption_of input (has_index (chunk_at input i ∷ arrived) (last_index input)) =
        caption_of-meta_with input (i == (last_index input)) (has_index arrived (last_index input))
          m caption in
      let stored = HasPieces-set_part input i arrived parts below h in
      rw (from_base64-piece input i bytes) (
        record { described = known new described captioned; pieces = stored },
        finish-Complete input new (chunk_at input i ∷ arrived) (set_part i (piece input i) parts)
            described captioned stored,
      )

  id_matches :
      (i : ℕ) (m : AttachmentChunk) → IsMeta input m → text_eq m.id (chunk_at input i).id ≡ true
  unfolding chunk_at
  id_matches i m h = rw h.id_lem (text_eq_refl input.id)

  count_matches :
      (i : ℕ) (m : AttachmentChunk)
      → IsMeta input m
      → (m.chunk_count == (chunk_at input i).chunk_count) ≡ true
  unfolding chunk_at
  count_matches i m h = (==_iff m.chunk_count (chunk_total input.bytes)).1 h.count_lem

  add-Added :
      (i : ℕ) (arrived : List AttachmentChunk) (s : AttachmentAssembler)
      → IsBytes input.bytes
      → i < chunk_total input.bytes
      → Holds input arrived s
      → Added (chunk_at input i ∷ arrived) (add (chunk_at input i) s)
  unfolding add
  add-Added i arrived s bytes below h = go arrived s.meta h.described h.pieces
    where
      go :
          (arrived : List AttachmentChunk) (meta : Option AttachmentChunk)
          → Describes input arrived meta
          → HasPieces input arrived s.parts
          → Added (chunk_at input i ∷ arrived) (add_to meta (chunk_at input i) s)
      go [] none nothing pieces =
          store_chunk-Added i [] (chunk_at input i) s.parts bytes below (chunk_at-IsMeta input i)
            (inr (refl, refl)) pieces
      go [] (some m) d pieces = elim d [ ]
      go (c ∷ cs) none d pieces = elim d [ ]
      go (c ∷ cs) (some m) (known _ described captioned) pieces =
          rw (id_matches i m described, count_matches i m described)
            (store_chunk-Added i (c ∷ cs) m s.parts bytes below described (inl captioned) pieces)

  receive_all-Holds :
      (arrived : List AttachmentChunk)
      → IsBytes input.bytes
      → All (λ c. Memᴰ c (chunk_attachment input)) arrived
      → Holds input arrived (receive_all arrived)
  receive_all-Holds [] bytes h = record {
    described = nothing;
    pieces = unfold get_part in (λ j. refl, sym (none_arrived (chunk_total input.bytes)));
  }
  receive_all-Holds (c ∷ arrived) bytes h =
      let (i, below, e) = chunk_attachment-mem input c h.0 in
      subst (λ x. Holds input (x ∷ arrived) (add x (receive_all arrived)).0) (sym e)
        (add-Added i arrived (receive_all arrived) bytes below
          (receive_all-Holds arrived bytes h.1)).0

-- The chunks of a file of bytes arrive in any order, any of them more than once: no call of `add` fails,
-- and the one that the latest chunk is given to returns the file, with its name, its type, its bytes and
-- its caption, if every chunk of the file has arrived by then, and nothing if one is missing.
pub add-chunk_attachment :
    (input : AttachmentInput) (latest : AttachmentChunk) (earlier : List AttachmentChunk)
    → IsBytes input.bytes
    → All (λ c. Memᴰ c (chunk_attachment input)) (latest ∷ earlier)
    → (add latest (receive_all earlier)).1
      ≡ ok (if is_complete input (latest ∷ earlier) then some (file_of input) else none)
add-chunk_attachment input latest earlier bytes h =
    let (i, below, e) = chunk_attachment-mem input latest h.0 in
    subst
      (λ x.
        (add x (receive_all earlier)).1
        ≡ ok (if is_complete input (x ∷ earlier) then some (file_of input) else none))
      (sym e)
      (add-Added input i earlier (receive_all earlier) bytes below
        (receive_all-Holds input earlier bytes h.1)).1
