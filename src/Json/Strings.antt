-- ===== src/Json/Strings.antt =====
-- A quoted string is read back, whatever its code units are.
use shatters.Common.{
  ℕ, ◌+◌, ◌*◌, ◌/◌, ◌%◌, ◌<◌, ◌≡◌, refl, ap, ◌∙◌, true, false, Option, none, some, [], ◌∷◌, ◌++◌,
  Text, ltb, All, append_assoc, arith, Bool-cases, Option-cases, inl, inr, ◌||◌, is_high, is_low,
}
use shatters.Json.Print.{hex_digit, unicode_escape, short_escape, quote_alone, quote_from}
use shatters.Json.Lexer.{
  Lexing, plain, escaped, hex_value, lex_string, plain_step, escaped_step, lex_step, go_on, prepend,
}

hex_value-hex_digit : (d : ℕ) → d < 16 → hex_value (hex_digit d) ≡ some d
hex_value-hex_digit d small = ground arith

prepend_nothing : (o : Option (Text × Text)) → prepend [] o ≡ o
prepend_nothing none = refl
prepend_nothing (some r) = refl

prepend_all :
    (u : ℕ) (o : Option (Text × Text))
    → prepend [] (
        prepend [] (
          prepend [] (
            prepend [] (
              prepend [] (
                prepend
                  (((((0 * 16 + u / 4096) * 16 + u / 256 % 16) * 16 + u / 16 % 16) * 16 + u % 16)
                    ∷ [])
                  o)))))
      ≡ prepend (u ∷ []) o
prepend_all u none = refl
prepend_all u (some r) =
    let e : ((((0 * 16 + u / 4096) * 16 + u / 256 % 16) * 16 + u / 16 % 16) * 16 + u % 16) ≡ u =
      omega arith in
    rw e refl

lex_string-unicode_escape :
    (u : ℕ) (ts : Text)
    → u < 65536
    → lex_string plain (unicode_escape u ++ ts) ≡ prepend (u ∷ []) (lex_string plain ts)
lex_string-unicode_escape u ts small =
    rw
      (
        hex_value-hex_digit (u / 4096) (omega arith),
        hex_value-hex_digit (u / 256 % 16) (omega arith),
        hex_value-hex_digit (u / 16 % 16) (omega arith),
        hex_value-hex_digit (u % 16) (omega arith),
      )
      (prepend_all u (lex_string plain ts))

lex_string-go_on :
    (s s' : Lexing) (c : ℕ) (out ts : Text)
    → lex_step s c ≡ go_on out s'
    → lex_string s (c ∷ ts) ≡ prepend out (lex_string s' ts)
lex_string-go_on s s' c out ts e = ground (arith, e)

escaped_step-short_escape :
    (u letter : ℕ) → short_escape u ≡ some letter → escaped_step letter ≡ go_on (u ∷ []) plain
escaped_step-short_escape u letter e = ground arith

lex_string-short_escape :
    (u letter : ℕ) (ts : Text)
    → short_escape u ≡ some letter
    → lex_string plain (92 ∷ letter ∷ ts) ≡ prepend (u ∷ []) (lex_string plain ts)
lex_string-short_escape u letter ts e =
    ap (prepend [])
      (lex_string-go_on escaped plain letter (u ∷ []) ts (escaped_step-short_escape u letter e))
    ∙ prepend_nothing (prepend (u ∷ []) (lex_string plain ts))

short_escape-none :
    (u : ℕ) → short_escape u ≡ none → ltb u 32 ≡ false → plain_step u ≡ go_on (u ∷ []) plain
short_escape-none u e low = ground arith

lex_string-quote_alone :
    (u : ℕ) (ts : Text)
    → u < 65536
    → lex_string plain (quote_alone u ++ ts) ≡ prepend (u ∷ []) (lex_string plain ts)
lex_string-quote_alone u ts small = elim (Option-cases (short_escape u)) [
  | inr (letter, e) ↦ rw e (lex_string-short_escape u letter ts e)
  | inl e ↦ elim (Bool-cases (ltb u 32 || is_low u)) [
    | inl coded ↦ rw (e, coded) (lex_string-unicode_escape u ts small)
    | inr direct ↦
        rw (e, direct)
          (lex_string-go_on plain plain u (u ∷ []) ts (short_escape-none u e (ground arith)))
  ]
]

abbrev pub with_waiting : Option ℕ → Text → Text
with_waiting none us = us
with_waiting (some h) us = h ∷ us

abbrev pub IsUnits : Text → Type 0
IsUnits = All (λ u. u < 65536)

-- One more code unit in front of a text that is read back.
quote_alone-in_front :
    (u : ℕ) (q ts us rest : Text)
    → u < 65536
    → lex_string plain (q ++ ts) ≡ some (us, rest)
    → lex_string plain ((quote_alone u ++ q) ++ ts) ≡ some (u ∷ us, rest)
quote_alone-in_front u q ts us rest small e =
    ap (lex_string plain) (append_assoc (quote_alone u) q ts)
    ∙ lex_string-quote_alone u (q ++ ts) small
    ∙ ap (prepend (u ∷ [])) e

quote_first-in_front :
    (u : ℕ) (us rest : Text)
    → u < 65536
    → (is_high u ≡ true
        → lex_string plain (quote_from (some u) us ++ 34 ∷ rest) ≡ some (u ∷ us, rest))
    → lex_string plain (quote_from none us ++ 34 ∷ rest) ≡ some (us, rest)
    → lex_string plain (quote_from none (u ∷ us) ++ 34 ∷ rest) ≡ some (u ∷ us, rest)
quote_first-in_front u us rest small when_high otherwise = elim (Bool-cases (is_high u)) [
  | inl high ↦ rw high (when_high high)
  | inr alone ↦
      rw alone (quote_alone-in_front u (quote_from none us) (34 ∷ rest) us rest small otherwise)
]

-- A pair of surrogates stands as it is.
lex_string-pair :
    (x u : ℕ) (us ts : Text) (rest : Text)
    → is_high x ≡ true
    → is_low u ≡ true
    → lex_string plain ts ≡ some (us, rest)
    → lex_string plain (x ∷ u ∷ ts) ≡ some (x ∷ u ∷ us, rest)
lex_string-pair x u us ts rest high low e =
    lex_string-go_on plain plain x (x ∷ []) (u ∷ ts) (ground arith)
    ∙ ap (prepend (x ∷ [])) (lex_string-go_on plain plain u (u ∷ []) ts (ground arith))
    ∙ ap (λ o. prepend (x ∷ []) (prepend (u ∷ []) o)) e

abbrev pub WaitsFor : Option ℕ → Type 0
WaitsFor none = Unit
WaitsFor (some h) = is_high h ≡ true

pub lex_string-quote_from :
    (waiting : Option ℕ) (us rest : Text)
    → WaitsFor waiting
    → IsUnits (with_waiting waiting us)
    → lex_string plain (quote_from waiting us ++ 34 ∷ rest) ≡ some (with_waiting waiting us, rest)
lex_string-quote_from none [] rest w h = refl
lex_string-quote_from (some x) [] rest w h = lex_string-unicode_escape x (34 ∷ rest) h.0
lex_string-quote_from none (u ∷ us) rest w h =
    quote_first-in_front u us rest h.0 (λ high. lex_string-quote_from (some u) us rest high h)
      (lex_string-quote_from none us rest tt h.1)
lex_string-quote_from (some x) (u ∷ us) rest w h = elim (Bool-cases (is_low u)) [
  | inl low ↦
      let single : is_high u ≡ false = ground arith in
      rw (low, single)
        (lex_string-pair x u us (quote_from none us ++ 34 ∷ rest) rest w low
          (lex_string-quote_from none us rest tt h.1.1))
  | inr other ↦ rw other (
      lex_string-unicode_escape x (quote_from none (u ∷ us) ++ 34 ∷ rest) h.0
      ∙ ap (prepend (x ∷ [])) (
          quote_first-in_front u us rest h.1.0
            (λ high. lex_string-quote_from (some u) us rest high h.1)
            (lex_string-quote_from none us rest tt h.1.1)))
]
