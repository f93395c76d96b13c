-- ===== src/Common/Utf8/Coding.antt =====
-- `new TextEncoder().encode(text)` and `new TextDecoder().decode(bytes)`, by the Encoding Standard: a
-- surrogate without its partner is written as U+FFFD, and so is what does not decode read.
use Prim.Native.Nat.{ℕ, ◌+◌, ◌-◌, ◌*◌, ◌/◌, ◌%◌}
use mathlib.Core.Bool.{Bool, true, false, not, ◌&&◌}
use mathlib.Core.Option.{Option, none, some}
use mathlib.Core.List.{List, [], ◌∷◌, ◌++◌}
use shatters.Common.Tests.{ltb, leb, ◌==◌, if◌then◌else◌}
use shatters.Common.Strings.{Text}

abbrev pub is_high : ℕ → Bool
is_high u = leb 55296 u && leb u 56319

abbrev pub is_low : ℕ → Bool
is_low u = leb 56320 u && leb u 57343

abbrev pub encode_point : ℕ → List ℕ
encode_point c =
    if ltb c 128
    then c ∷ []
    else if ltb c 2048
    then (192 + c / 64) ∷ (128 + c % 64) ∷ []
    else if ltb c 65536
    then (224 + c / 4096) ∷ (128 + c / 64 % 64) ∷ (128 + c % 64) ∷ []
    else (240 + c / 262144) ∷ (128 + c / 4096 % 64) ∷ (128 + c / 64 % 64) ∷ (128 + c % 64) ∷ []

abbrev replacement : ℕ
replacement = 65533

abbrev pub pending : ℕ → Option ℕ
pending u = if is_high u then some u else none

abbrev pub emit_alone : ℕ → List ℕ
emit_alone u =
    if is_high u then [] else if is_low u then encode_point replacement else encode_point u

abbrev pub emit : Option ℕ → ℕ → List ℕ
emit none u = emit_alone u
emit (some h) u =
    if is_low u
    then encode_point (65536 + (h - 55296) * 1024 + (u - 56320))
    else encode_point replacement ++ emit_alone u

-- From a surrogate that waits for its partner on.
abbrev pub encode_from : Option ℕ → Text → List ℕ
encode_from none [] = []
encode_from (some h) [] = encode_point replacement
encode_from waiting (u ∷ us) = emit waiting u ++ encode_from (pending u) us

-- Whether every surrogate has its partner.
abbrev pub is_paired : Option ℕ → Text → Bool
is_paired none [] = true
is_paired (some h) [] = false
is_paired none (u ∷ us) = ltb u 65536 && not (is_low u) && is_paired (pending u) us
is_paired (some h) (u ∷ us) = is_low u && is_paired none us

abbrev pub starts_with_mark : Text → Bool
starts_with_mark [] = false
starts_with_mark (u ∷ us) = u == 65279

-- A text that survives: its surrogates are paired, and it does not start with a byte order mark.
abbrev pub is_well_formed : Text → Bool
is_well_formed text = is_paired none text && not (starts_with_mark text)

unfoldable pub utf8_encode : Text → List ℕ
utf8_encode text = encode_from none text

-- How many bytes are missing, the bits so far, and the bounds of the next byte.
pub record Decoder : Type 0 where
  pub needed : ℕ
  pub point : ℕ
  pub lower : ℕ
  pub upper : ℕ

abbrev pub start : Decoder
start = record { needed = 0; point = 0; lower = 128; upper = 191 }

abbrev first_byte : ℕ → Text × Decoder
first_byte b =
    if ltb b 128
    then (b ∷ [], start)
    else if ltb b 194
    then (replacement ∷ [], start)
    else if ltb b 224
    then ([], record { needed = 1; point = b - 192; lower = 128; upper = 191 })
    else if ltb b 240
    then (
      [],
      record {
        needed = 2;
        point = b - 224;
        lower = if b == 224 then 160 else 128;
        upper = if b == 237 then 159 else 191;
      },
    )
    else if ltb b 245
    then (
      [],
      record {
        needed = 3;
        point = b - 240;
        lower = if b == 240 then 144 else 128;
        upper = if b == 244 then 143 else 191;
      },
    )
    else (replacement ∷ [], start)

abbrev pub units : ℕ → Text
units c =
    if ltb c 65536 then c ∷ [] else (55296 + (c - 65536) / 1024) ∷ (56320 + (c - 65536) % 1024) ∷ []

abbrev next_byte : Decoder → ℕ → Text × Decoder
next_byte d b =
    if leb d.lower b && leb b d.upper
    then (let point = d.point * 64 + b % 64 in
        if d.needed == 1
        then (units point, start)
        else ([], record { needed = d.needed - 1; point = point; lower = 128; upper = 191 }))
    else (replacement ∷ (first_byte b).0, (first_byte b).1)

abbrev step : Decoder → ℕ → Text × Decoder
step d b = if d.needed == 0 then first_byte b else next_byte d b

abbrev pub decode_from : Decoder → List ℕ → Text
decode_from d [] = if d.needed == 0 then [] else replacement ∷ []
decode_from d (b ∷ bytes) = (step d b).0 ++ decode_from (step d b).1 bytes

-- A byte order mark in front is dropped.
abbrev pub without_mark : Text → Text
without_mark [] = []
without_mark (u ∷ us) = if u == 65279 then us else u ∷ us

unfoldable pub utf8_decode : List ℕ → Text
utf8_decode bytes = without_mark (decode_from start bytes)
