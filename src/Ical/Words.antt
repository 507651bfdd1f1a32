-- ===== src/Ical/Words.antt =====
-- packages/platform-caldav/src/ical.ts: texts that a content line carries as they are.
use mathlib.Core.List.{append_assoc, append-nil}
use sockethub.Base.{
  ℕ, ◌≡◌, refl, sym, ap, ◌∙◌, Bool, true, false, ◌||◌, [], ◌∷◌, ◌++◌, some, Text, nat_eq, text_eq,
  ◌==◌, arith, All, any, ltb, leb,
}
use sockethub.Escapes.{decode}
use sockethub.Ical.{encode_parameter, decode_parameter, unquoted, caret_character}
use sockethub.Ical.Scan.{Passes, IsPlain, plain_lem, encode-Skips, Skips-append}
use sockethub.Ical.Content.{split_equals}

abbrev pub word_char : ℕ → Bool
word_char c = (c == b'"' || (c == b':' || (c == b';' || (c == b'^' || c == b'='))))

-- What a key or a bare value is made of.
abbrev pub IsWordChar : ℕ → Type 0
IsWordChar c =
    ((c == b'"') ≡ false)
    × ((c == b':') ≡ false)
    × ((c == b';') ≡ false)
    × ((c == b'^') ≡ false)
    × ((c == b'=') ≡ false)

-- To be used on literals, by computation.
pub literal_lem : (s : Text) → any word_char s ≡ false → All IsWordChar s
literal_lem [] h = tt
literal_lem (c ∷ s) h = ground (arith, literal_lem s, h)

pub ascii_lem : (s : Text) → any (λ c. leb 128 c) s ≡ false → All (λ c. ltb c 128 ≡ true) s
ascii_lem [] h = tt
ascii_lem (c ∷ s) h = ground (arith, ascii_lem s, h)

pub word-Passes : (s : Text) → All IsWordChar s → Passes s
word-Passes s h =
    (plain_lem (λ c. c == b':') s (colon s h), plain_lem (λ c. c == b';') s (semi s h))
  where
    colon : (s : Text) → All IsWordChar s → All (IsPlain (λ c. c == b':')) s
    colon [] h = tt
    colon (c ∷ s) h = ((h.0.0, h.0.1), colon s h.1)

    semi : (s : Text) → All IsWordChar s → All (IsPlain (λ c. c == b';')) s
    semi [] h = tt
    semi (c ∷ s) h = ((h.0.0, h.0.2), semi s h.1)

pub param-Passes :
    (key value : Text) → All IsWordChar key → Passes value → Passes (key ++ b'=' ∷ value)
param-Passes key value h k = (
  Skips-append (λ c. c == b':') false key (b'=' ∷ value) (word-Passes key h).0 (refl, k.0),
  Skips-append (λ c. c == b';') false key (b'=' ∷ value) (word-Passes key h).1 (refl, k.1),
)

pub encode-Passes : (s : Text) → Passes (encode_parameter s)
encode-Passes s = (
  encode-Skips (λ c. c == b':') s refl (λ c h. ground (arith, h)),
  encode-Skips (λ c. c == b';') s refl (λ c h. ground (arith, h)),
)

pub split_equals-word :
    (before key value : Text)
    → All IsWordChar key
    → split_equals before (key ++ b'=' ∷ value) ≡ some (before ++ key, value)
unfolding split_equals
split_equals-word before [] value h = ap (λ t. some (t, value)) (sym (append-nil before))
split_equals-word before (c ∷ key) value h = rw (h.0.4) (
    split_equals-word (before ++ c ∷ []) key value h.1
    ∙ ap (λ t. some (t, value)) (append_assoc before (c ∷ []) key))

decode-word : (s : Text) → All IsWordChar s → decode b'^' caret_character s ≡ s
unfolding decode
decode-word [] h = refl
decode-word (c ∷ []) h = refl
decode-word (c ∷ d ∷ s) h = rw (h.0.3) (ap (λ t. c ∷ t) (decode-word (d ∷ s) h.1))

pub decode_parameter-word : (s : Text) → All IsWordChar s → decode_parameter s ≡ s
unfolding decode_parameter unquoted
decode_parameter-word [] h = decode-word [] h
decode_parameter-word (c ∷ s) h = rw (h.0.0) (decode-word (c ∷ s) h)
