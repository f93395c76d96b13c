-- ===== src/Content/Chunks.antt =====
-- The attachments of web/src/lib/crypto/content.ts: `chunkAttachment` and `AttachmentAssembler`. A
-- chunk is one that `decodeContent` let through: its index and its count are natural numbers.
use shatters.Common.{
  Outcome, err, ok, or_throw, pure, ◌>>=◌, ℕ, zero, suc, ◌+◌, ◌-◌, ◌*◌, ◌/◌, max, not, Option, none,
  some, List, [], ◌∷◌, ◌++◌, Text, length, ◌==◌, if◌then◌else◌, text_eq, btoa, atob,
}
use shatters.Bytes.{Bytes, slice}

abbrev pub max_chunk_bytes : ℕ
max_chunk_bytes = 32 * 1024

-- The messages of a `ContentError` of the assembler, and the error of `atob`.
pub data AssemblyError : Type 0 where
  different_attachment chunk_count_changed invalid_character : AssemblyError
  missing_chunk : ℕ → AssemblyError
  wrong_size : (assembled expected : ℕ) → AssemblyError

abbrev pub Result {ℓ} : Type ℓ → Type ℓ
Result A = Outcome AssemblyError A

-- `AttachmentChunkContent`; `caption` is `none` where it is undefined.
pub record AttachmentChunk : Type 0 where
  pub id : Text
  pub name : Text
  pub mime_type : Text
  pub size : ℕ
  pub chunk_index : ℕ
  pub chunk_count : ℕ
  pub data_text : Text
  pub timestamp : ℕ
  pub caption : Option Text

pub record AttachmentInput : Type 0 where
  pub id : Text
  pub name : Text
  pub mime_type : Text
  pub bytes : Bytes
  pub timestamp : ℕ
  pub caption : Option Text

-- `toBase64`.
unfoldable pub to_base64 : Bytes → Text
to_base64 bytes = btoa bytes

-- `fromBase64`.
unfoldable pub from_base64 : Text → Result Bytes
from_base64 text = or_throw invalid_character (atob text)

-- `Math.max(1, Math.ceil(length / MAX_CHUNK_BYTES))`.
unfoldable pub chunk_total : Bytes → ℕ
chunk_total bytes = max 1 ((length bytes + (max_chunk_bytes - 1)) / max_chunk_bytes)

-- The body of the loop of `chunkAttachment`.
unfoldable pub chunk_at : AttachmentInput → ℕ → AttachmentChunk
chunk_at input i = record {
  id = input.id;
  name = input.name;
  mime_type = input.mime_type;
  size = length input.bytes;
  chunk_index = i;
  chunk_count = chunk_total input.bytes;
  data_text = to_base64 (slice input.bytes (i * max_chunk_bytes) ((i + 1) * max_chunk_bytes));
  timestamp = input.timestamp;
  caption = if i == chunk_total input.bytes - 1 then input.caption else none;
}

-- The loop from `i` on, with the rounds that are left.
unfoldable pub chunks_from : AttachmentInput → ℕ → ℕ → List AttachmentChunk
chunks_from input i zero = []
chunks_from input i (suc left) = chunk_at input i ∷ chunks_from input (i + 1) left

unfoldable pub chunk_attachment : AttachmentInput → List AttachmentChunk
chunk_attachment input = chunks_from input 0 (chunk_total input.bytes)

-- `Map<number, Uint8Array>`.
abbrev pub Parts : Type 0
Parts = List (ℕ × Bytes)

-- `parts.get(i)`.
unfoldable pub get_part : ℕ → Parts → Option Bytes
get_part i [] = none
get_part i ((j, part) ∷ parts) = if j == i then some part else get_part i parts

-- `parts.set(i, part)`.
unfoldable pub set_part : ℕ → Bytes → Parts → Parts
set_part i part [] = (i, part) ∷ []
set_part i part ((j, old) ∷ parts) =
    if j == i then (j, part) ∷ parts else (j, old) ∷ set_part i part parts

pub record AttachmentAssembler : Type 0 where
  pub parts : Parts
  pub meta : Option AttachmentChunk

abbrev pub new_assembler : AttachmentAssembler
new_assembler = record { parts = []; meta = none }

pub record AttachmentFile : Type 0 where
  pub name : Text
  pub mime_type : Text
  pub bytes : Bytes
  pub caption : Option Text

-- The parts from `i` on, in the order of their indices, put one behind the other.
unfoldable pub concat_parts : Parts → ℕ → ℕ → Result Bytes
concat_parts parts i zero = ok []
concat_parts parts i (suc left) = do
  part ← or_throw (missing_chunk i) (get_part i parts)
  rest ← concat_parts parts (i + 1) left
  pure (part ++ rest)

-- `this.meta ??= chunk`, and a chunk that has a caption sets it.
unfoldable pub meta_with : AttachmentChunk → Option Text → AttachmentChunk
meta_with meta none = meta
meta_with meta (some caption) = record meta { caption = some caption }

abbrev pub check_size : AttachmentChunk → Bytes → Result (Option AttachmentFile)
check_size meta bytes =
    if length bytes == meta.size
    then ok (
        some (record {
          name = meta.name;
          mime_type = meta.mime_type;
          bytes = bytes;
          caption = meta.caption;
        }))
    else err (wrong_size (length bytes) meta.size)

-- `add` once the part is stored.
unfoldable pub finish : AttachmentChunk → ℕ → Parts → Result (Option AttachmentFile)
finish meta count parts =
    if not (length parts == count)
    then ok none
    else concat_parts parts 0 count >>= λ bytes. check_size meta bytes

-- `add` once the part is decoded, by whether `atob` threw.
unfoldable pub store_part :
    AttachmentChunk
    → AttachmentChunk
    → Parts
    → Result Bytes
    → AttachmentAssembler × Result (Option AttachmentFile)
store_part meta chunk parts (err e) = (record { parts = parts; meta = some meta }, err e)
store_part meta chunk parts (ok part) =
    let stored = set_part chunk.chunk_index part parts in
    (record { parts = stored; meta = some meta }, finish meta chunk.chunk_count stored)

-- `add` once the chunk is known to belong to the attachment.
unfoldable pub store_chunk :
    AttachmentChunk → AttachmentChunk → Parts → AttachmentAssembler × Result (Option AttachmentFile)
store_chunk meta chunk parts =
    store_part (meta_with meta chunk.caption) chunk parts (from_base64 chunk.data_text)

-- `add` by `this.meta`.
abbrev pub add_to :
    Option AttachmentChunk
    → AttachmentChunk
    → AttachmentAssembler
    → AttachmentAssembler × Result (Option AttachmentFile)
add_to none chunk assembler = store_chunk chunk chunk assembler.parts
add_to (some meta) chunk assembler =
    if not (text_eq meta.id chunk.id)
    then (assembler, err different_attachment)
    else if not (meta.chunk_count == chunk.chunk_count)
    then (assembler, err chunk_count_changed)
    else store_chunk meta chunk assembler.parts

unfoldable pub add :
    AttachmentChunk → AttachmentAssembler → AttachmentAssembler × Result (Option AttachmentFile)
add chunk assembler = add_to assembler.meta chunk assembler

-- `progress`.
unfoldable pub progress : AttachmentAssembler → ℕ × ℕ
progress assembler =
    (length assembler.parts, elim assembler.meta [ none ↦ 0 | some meta ↦ meta.chunk_count ])
