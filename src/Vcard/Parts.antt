-- ===== src/Vcard/Parts.antt =====
-- packages/platform-carddav/src/vcard.ts: a structured value, such as the one of `ADR`, comes apart into the
-- parts that it was joined of.
use mathlib.Core.List.{append_assoc, append-nil}
use sockethub.Base.{
  ℕ, ◌≡◌, refl, sym, ap, ◌∙◌, subst, false, ◌||◌, List, [], ◌∷◌, ◌++◌, Text, nat_eq, ◌==◌, All, map,
  if_cases, arith,
}
use sockethub.Escapes.{flat, unix}
use sockethub.Ical.{joined_by}
use sockethub.Vcard.{split_escaped, unescape_text, escape_text}
use sockethub.Vcard.Stages.{code, escape_text-code}
use sockethub.Vcard.Values.{unescape_text-garbled, garbled-plain}

split-plain :
    (current : Text) (c : ℕ) (s : Text)
    → (c == b';') ≡ false
    → (c == 92) ≡ false
    → split_escaped b';' current false (c ∷ s) ≡ split_escaped b';' (current ++ c ∷ []) false s
unfolding split_escaped
split-plain current c s h k = rw (h, k) refl

split-pair :
    (current : Text) (d : ℕ) (s : Text)
    → split_escaped b';' current false (92 ∷ d ∷ s)
      ≡ split_escaped b';' (current ++ 92 ∷ d ∷ []) false s
unfolding split_escaped
split-pair current d s =
    ap (λ t. split_escaped b';' t false s) (append_assoc current (92 ∷ []) (d ∷ []))

split-code :
    (current : Text) (c : ℕ) (s : Text)
    → split_escaped b';' current false (code c ++ s)
      ≡ split_escaped b';' (current ++ code c) false s
split-code current c s =
    if_cases Goal (c == 92) (λ _. split-pair current 92 s)
      λ slash.
        if_cases Goal (c == 10) (λ _. split-pair current b'n' s)
          λ _.
            if_cases Goal (c == b';' || c == b',') (λ _. split-pair current c s)
              λ special. split-plain current c s (ground (arith, special)) slash
  where
    Goal : Text → Type 0
    Goal t = split_escaped b';' current false (t ++ s) ≡ split_escaped b';' (current ++ t) false s

split-flat :
    (current u s : Text)
    → split_escaped b';' current false (flat code u ++ s)
      ≡ split_escaped b';' (current ++ flat code u) false s
unfolding flat
split-flat current [] s = ap (λ t. split_escaped b';' t false s) (sym (append-nil current))
split-flat current (c ∷ u) s =
    ap (split_escaped b';' current false) (append_assoc (code c) (flat code u) s)
    ∙ split-code current c (flat code u ++ s)
    ∙ split-flat (current ++ code c) u s
    ∙ ap (λ t. split_escaped b';' t false s) (append_assoc current (code c) (flat code u))

split-escape :
    (s rest : Text)
    → split_escaped b';' [] false (escape_text s ++ rest)
      ≡ split_escaped b';' (escape_text s) false rest
split-escape s rest =
    subst (λ t. split_escaped b';' [] false (t ++ rest) ≡ split_escaped b';' t false rest)
      (sym (escape_text-code s)) (split-flat [] (unix s) rest)

split-joined :
    (p : Text) (ps : List Text)
    → split_escaped b';' [] false (joined_by (b';' ∷ []) (map escape_text (p ∷ ps)))
      ≡ map escape_text (p ∷ ps)
unfolding split_escaped joined_by
split-joined p [] =
    ap (split_escaped b';' [] false) (sym (append-nil (escape_text p))) ∙ split-escape p []
split-joined p (q ∷ ps) = split-escape p _ ∙ ap (λ t. escape_text p ∷ t) (split-joined q ps)

-- A text with no backslash, whose line breaks may be any.
abbrev pub IsPlainPart : Text → Type 0
IsPlainPart s = All (λ c. (c == 92) ≡ false) (unix s)

unescaped_lem :
    (ps : List Text) → All IsPlainPart ps → map unescape_text (map escape_text ps) ≡ map unix ps
unescaped_lem [] h = refl
unescaped_lem (p ∷ ps) h =
    ap (λ t. t ∷ map unescape_text (map escape_text ps))
      (unescape_text-garbled p ∙ garbled-plain (unix p) h.0)
    ∙ ap (λ t. unix p ∷ t) (unescaped_lem ps h.1)

-- Texts without backslashes, escaped and joined by semicolons, come apart into the texts, with their line
-- breaks as line feeds.
pub split_escaped-joined :
    (p : Text) (ps : List Text)
    → All IsPlainPart (p ∷ ps)
    → map unescape_text
        (split_escaped b';' [] false (joined_by (b';' ∷ []) (map escape_text (p ∷ ps))))
      ≡ map unix (p ∷ ps)
split_escaped-joined p ps h = ap (map unescape_text) (split-joined p ps) ∙ unescaped_lem (p ∷ ps) h
