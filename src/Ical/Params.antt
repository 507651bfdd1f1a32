-- ===== src/Ical/Params.antt =====
-- packages/platform-caldav/src/ical.ts: what is written as the value of a parameter is read back, and
-- holds no line break, and a quote only at its ends.
use sockethub.Base.{
  ℕ, ◌≡◌, refl, sym, ap, subst, ◌∙◌, true, false, ◌||◌, [], ◌∷◌, ◌++◌, some, if◌then◌else◌, Text,
  nat_eq, ◌==◌, ◌⊎◌, inl, inr, arith, All, any, eq_of_beq, if_cases,
}
use sockethub.Escapes.{flat, replacing, replace_all, is, is_break, replace_crlf, unix, decode}
use sockethub.Escapes.Laws.{
  flat-flat, flat-ext, Codes, decode-flat, crlf_pipeline, per_character, All-flat, All-weaken,
  NotCr, unix-All,
}
use sockethub.Ical.{
  caret_text, caret_character, needs_quotes, quoted, encode_parameter, without_last,
  ends_with_quote, unquoted, decode_parameter,
}

abbrev after_crlf : ℕ → Text
after_crlf c =
    if c == 13 || c == 10 then b'^' ∷ b'n' ∷ [] else if c == b'"' then b'^' ∷ 39 ∷ [] else c ∷ []

-- All replacements, on one character.
abbrev caret_code : ℕ → Text
caret_code c = if c == b'^' then b'^' ∷ b'^' ∷ [] else after_crlf c

two_character :
    (c : ℕ)
    → flat (replacing (is b'"') (b'^' ∷ 39 ∷ [])) (replacing is_break (b'^' ∷ b'n' ∷ []) c)
      ≡ after_crlf c
unfolding flat
two_character c = ground arith

per_lem : (c : ℕ) → per_character after_crlf b'^' b'n' refl refl refl refl c ≡ caret_code c
unfolding flat
per_lem c = ground arith

caret_text-flat : (s : Text) → caret_text s ≡ flat caret_code (unix s)
unfolding caret_text replace_all
caret_text-flat s =
    let piped = replace_crlf (b'^' ∷ b'n' ∷ []) (flat (replacing (is b'^') (b'^' ∷ b'^' ∷ [])) s) in
    let quote = replacing (is b'"') (b'^' ∷ 39 ∷ []) in
    let breaks = replacing is_break (b'^' ∷ b'n' ∷ []) in
    flat-flat quote breaks piped
    ∙ flat-ext (λ c. flat quote (breaks c)) after_crlf piped two_character
    ∙ crlf_pipeline after_crlf b'^' b'n' refl refl refl refl s
    ∙ flat-ext (per_character after_crlf b'^' b'n' refl refl refl refl) caret_code (unix s) per_lem

caret_code-Codes : (c : ℕ) → NotCr c → Codes b'^' caret_character caret_code c
caret_code-Codes c h =
    if_cases Reads (c == b'^') (λ q. inl (b'^', refl, ap some (sym (eq_of_beq c b'^' q))))
      λ not_escape.
        if_cases Reads (c == 13 || c == 10) (λ q. inl (b'n', refl, ground (arith, h, q)))
          (λ not_break.
            if_cases Reads (c == b'"') (λ q. inl (39, refl, ap some (sym (eq_of_beq c b'"' q))))
              (λ _. inr (refl, not_escape)))
  where
    Reads : Text → Type 0
    Reads t =
        ((d : ℕ) × (t ≡ b'^' ∷ d ∷ []) × (caret_character d ≡ some c))
        ⊎ ((t ≡ c ∷ []) × ((c == b'^') ≡ false))

decode-caret_text : (s : Text) → decode b'^' caret_character (caret_text s) ≡ unix s
decode-caret_text s =
    ap (decode b'^' caret_character) (caret_text-flat s)
    ∙ decode-flat b'^' caret_character caret_code (unix s) (
        All-weaken NotCr (Codes b'^' caret_character caret_code) (unix s) caret_code-Codes
          (unix-All s))

-- A character that neither breaks a line nor ends a quoted value.
abbrev pub IsInner : ℕ → Type 0
IsInner c = (is_break c ≡ false) × ((c == b'"') ≡ false)

caret_code-IsInner : (c : ℕ) → All IsInner (caret_code c)
caret_code-IsInner c =
    if_cases (All IsInner) (c == b'^') (λ _. ((refl, refl), ((refl, refl), tt)))
      λ _.
        if_cases (All IsInner) (c == 13 || c == 10) (λ _. ((refl, refl), ((refl, refl), tt)))
          λ not_break.
            if_cases (All IsInner) (c == b'"') (λ _. ((refl, refl), ((refl, refl), tt)))
              (λ not_quote. ((not_break, not_quote), tt))

pub caret_text-IsInner : (s : Text) → All IsInner (caret_text s)
caret_text-IsInner s =
    subst (All IsInner) (sym (caret_text-flat s))
      (All-flat IsInner caret_code (unix s) caret_code-IsInner)

without_last-snoc : (c : ℕ) (s : Text) → without_last (s ++ c ∷ []) ≡ s
unfolding without_last
without_last-snoc c [] = refl
without_last-snoc c (d ∷ []) = refl
without_last-snoc c (d ∷ e ∷ s) = ap (λ t. d ∷ t) (without_last-snoc c (e ∷ s))

ends_with_quote-snoc : (s : Text) → ends_with_quote (s ++ b'"' ∷ []) ≡ true
unfolding ends_with_quote
ends_with_quote-snoc [] = refl
ends_with_quote-snoc (d ∷ []) = refl
ends_with_quote-snoc (d ∷ e ∷ s) = ends_with_quote-snoc (e ∷ s)

unquoted-quoted : (s : Text) → unquoted (quoted s) ≡ s
unfolding unquoted
unquoted-quoted s = rw (ends_with_quote-snoc (b'"' ∷ s)) (without_last-snoc b'"' s)

unquoted-IsInner : (s : Text) → All IsInner s → unquoted s ≡ s
unfolding unquoted
unquoted-IsInner [] h = refl
unquoted-IsInner (c ∷ s) h = rw h.0.1

-- What is written as a parameter's value is read back, with every line break as one line feed.
pub decode_parameter-encode : (s : Text) → decode_parameter (encode_parameter s) ≡ unix s
unfolding decode_parameter encode_parameter
decode_parameter-encode s =
    if_cases (λ t. decode b'^' caret_character (unquoted t) ≡ unix s)
      (any needs_quotes (caret_text s))
      (λ _. ap (decode b'^' caret_character) (unquoted-quoted (caret_text s)) ∙ decode-caret_text s)
      (λ _.
        ap (decode b'^' caret_character) (unquoted-IsInner (caret_text s) (caret_text-IsInner s))
        ∙ decode-caret_text s)
