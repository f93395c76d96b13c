-- ===== src/Content/Examples.antt =====
-- A file of 40000 bytes, in two chunks of which the second arrives first, and a receipt.
use shatters.Common.{
  ok, ℕ, zero, suc, ◌≡◌, ◌↔◌, ◌*◌, ◌≤◌, refl, Bool, Option, Text, subst, utf8_encode, true, false,
  none, some, [], ◌∷◌, if◌then◌else◌, length, arith, ascii,
}
use shatters.Bytes.{Bytes, IsBytes, zeroes, length-zeroes}
use shatters.Content.Chunks.{AttachmentInput, chunk_total, chunk_at, add, from_base64}
use shatters.Content.Slices.{chunk_at-mem}
use shatters.Content.Pieces.{is_complete, receive_all, file_of}
use shatters.Content.Assembly.{add-chunk_attachment}
use shatters.Json.{Json, object, stringify, overflow_limit, are_plain_fields, is_units}
use shatters.Content.Frame.{
  MessageContent, receipt, read, attachment, to_fields, framed_fields, encode_content,
}
use shatters.Content.Decode.{content, decode_content}
use shatters.Content.Roundtrip.{is_sendable, decode_content-encode_content}
use shatters.Content.Sending.{IsSafe, chunk_attachment-content}

abbrev photo : AttachmentInput
photo = record {
  id = 112 ∷ [];
  name = ascii "photo.jpg";
  mime_type = ascii "image/jpeg";
  bytes = zeroes 40000;
  timestamp = 5;
  caption = some (ascii "hi");
}

zeroes-IsBytes : (n : ℕ) → IsBytes (zeroes n)
zeroes-IsBytes zero = tt
zeroes-IsBytes (suc n) = (omega arith, zeroes-IsBytes n)

two_chunks : chunk_total photo.bytes ≡ 2
unfolding chunk_total
two_chunks = omega (arith, length-zeroes 40000)

add-chunk_attachment_example :
    (add (chunk_at photo 0) (receive_all (chunk_at photo 1 ∷ []))).1
    ≡ ok (
        if is_complete photo (chunk_at photo 0 ∷ chunk_at photo 1 ∷ [])
        then some (file_of photo)
        else none)
add-chunk_attachment_example =
    add-chunk_attachment photo (chunk_at photo 0) (chunk_at photo 1 ∷ []) (zeroes-IsBytes 40000) (
      chunk_at-mem photo 0 (omega (arith, two_chunks)),
      (chunk_at-mem photo 1 (omega (arith, two_chunks)), tt),
    )

abbrev read_receipt : MessageContent
read_receipt = receipt read ((109 ∷ []) ∷ []) 7

abbrev bytes_of : MessageContent → Bytes
bytes_of c = utf8_encode (stringify (object (framed_fields c)))

abbrev never : Json → Bool
never j = false

read_receipt-plain : are_plain_fields (framed_fields read_receipt) ≡ true
unfolding to_fields overflow_limit
read_receipt-plain = refl

decode_content-encode_content_example :
    (decode_content never (bytes_of read_receipt) ≡ ok (content (to_fields read_receipt)))
    ↔ (is_sendable read_receipt ≡ true)
unfolding encode_content
decode_content-encode_content_example =
    decode_content-encode_content never read_receipt (bytes_of read_receipt) refl read_receipt-plain

photo-IsSafe : IsSafe photo
photo-IsSafe = record {
  id_units = refl;
  name_units = refl;
  mime_type_units = refl;
  caption_units = λ t e. subst (λ (o : Option Text). units_if o ≡ true) e refl;
  size_safe = omega (arith, length-zeroes 40000);
  timestamp_safe = omega arith;
}
  where
    units_if : Option Text → Bool
    units_if none = true
    units_if (some t) = is_units t

chunk_attachment-content_example :
    ((part : Bytes) × (from_base64 (chunk_at photo 1).data_text ≡ ok part)
      × (length part ≤ 32 * 1024))
    × (decode_content never (bytes_of (attachment (chunk_at photo 1)))
        ≡ ok (content (to_fields (attachment (chunk_at photo 1)))))
unfolding encode_content
chunk_attachment-content_example =
    chunk_attachment-content never photo (chunk_at photo 1)
      (bytes_of (attachment (chunk_at photo 1))) (zeroes-IsBytes 40000) photo-IsSafe (λ e. cc)
      (chunk_at-mem photo 1 (omega (arith, two_chunks))) refl
