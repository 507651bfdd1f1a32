-- ===== src/Ical/Values.antt =====
-- packages/platform-caldav/src/ical.ts: what is written as a value of a property is read back, and can
-- hold no line break.
use sockethub.Base.{
  ℕ, ◌≡◌, refl, sym, ap, ◌∙◌, false, ◌||◌, [], ◌∷◌, some, if◌then◌else◌, Text, nat_eq, ◌==◌, ◌⊎◌,
  inl, inr, arith, All, eq_of_beq, if_cases, subst,
}
use sockethub.Escapes.{flat, replacing, replace_all, is, replace_crlf, unix, decode}
use sockethub.Escapes.Laws.{
  All-flat, All-weaken, NotCr, NotBreak, unix-All, per_character, flat-flat, flat-ext, Codes,
  decode-flat, crlf_pipeline,
}
use sockethub.Ical.{escape_text, unescape_text, text_character}

-- The four replacements that follow the one of CRLF.
abbrev after_crlf : ℕ → Text
after_crlf c =
    if c == 10 || c == 13
    then 92 ∷ b'n' ∷ []
    else if c == b';' || c == b','
    then 92 ∷ c ∷ []
    else c ∷ []

-- All of them, on one character.
abbrev text_code : ℕ → Text
text_code c = if c == 92 then 92 ∷ 92 ∷ [] else after_crlf c

four_character :
    (c : ℕ)
    → flat
        (λ d.
          flat
            (λ e.
              flat (replacing (is b',') (92 ∷ b',' ∷ [])) (replacing (is b';') (92 ∷ b';' ∷ []) e))
            (replacing (is 13) (92 ∷ b'n' ∷ []) d))
        (replacing (is 10) (92 ∷ b'n' ∷ []) c)
      ≡ after_crlf c
unfolding flat
four_character c = ground arith

four_lem :
    (s : Text)
    → replace_all (is b',') (92 ∷ b',' ∷ []) (
        replace_all
          (is b';')
          (92 ∷ b';' ∷ [])
          (replace_all (is 13) (92 ∷ b'n' ∷ []) (replace_all (is 10) (92 ∷ b'n' ∷ []) s)))
      ≡ flat after_crlf s
unfolding replace_all
four_lem s =
    let comma = replacing (is b',') (92 ∷ b',' ∷ []) in
    let semicolon = replacing (is b';') (92 ∷ b';' ∷ []) in
    let cr = replacing (is 13) (92 ∷ b'n' ∷ []) in
    let lf = replacing (is 10) (92 ∷ b'n' ∷ []) in
    flat-flat comma semicolon (flat cr (flat lf s))
    ∙ flat-flat (λ c. flat comma (semicolon c)) cr (flat lf s)
    ∙ flat-flat (λ c. flat (λ d. flat comma (semicolon d)) (cr c)) lf s
    ∙ flat-ext (λ c. flat (λ d. flat (λ e. flat comma (semicolon e)) (cr d)) (lf c)) after_crlf s
        four_character

per_lem : (c : ℕ) → per_character after_crlf 92 b'n' refl refl refl refl c ≡ text_code c
unfolding flat
per_lem c = ground arith

escape_text-flat : (s : Text) → escape_text s ≡ flat text_code (unix s)
unfolding escape_text replace_all
escape_text-flat s =
    four_lem (replace_crlf (92 ∷ b'n' ∷ []) (replace_all (is 92) (92 ∷ 92 ∷ []) s))
    ∙ crlf_pipeline after_crlf 92 b'n' refl refl refl refl s
    ∙ flat-ext (per_character after_crlf 92 b'n' refl refl refl refl) text_code (unix s) per_lem

text_code-Codes : (c : ℕ) → NotCr c → Codes 92 text_character text_code c
text_code-Codes c h =
    if_cases Reads (c == 92) (λ q. inl (92, refl, ap some (sym (eq_of_beq c 92 q))))
      λ not_escape.
        if_cases Reads (c == 10 || c == 13) (λ q. inl (b'n', refl, ground (arith, h, q)))
          (λ not_break.
            if_cases Reads (c == b';' || c == b',') (λ q. inl (c, refl, ground (arith, q)))
              (λ _. inr (refl, not_escape)))
  where
    Reads : Text → Type 0
    Reads t =
        ((d : ℕ) × (t ≡ 92 ∷ d ∷ []) × (text_character d ≡ some c))
        ⊎ ((t ≡ c ∷ []) × ((c == 92) ≡ false))

-- What is written as a text value is read back, with every line break as one line feed.
pub unescape_text-escape : (s : Text) → unescape_text (escape_text s) ≡ unix s
unfolding unescape_text
unescape_text-escape s =
    ap (decode 92 text_character) (escape_text-flat s)
    ∙ decode-flat 92 text_character text_code (unix s)
        (All-weaken NotCr (Codes 92 text_character text_code) (unix s) text_code-Codes (unix-All s))

text_code-NotBreak : (c : ℕ) → All NotBreak (text_code c)
text_code-NotBreak c =
    if_cases (All NotBreak) (c == 92) (λ _. (refl, (refl, tt)))
      λ _.
        if_cases (All NotBreak) (c == 10 || c == 13) (λ _. (refl, (refl, tt)))
          λ not_break.
            let plain : NotBreak c = ground (arith, not_break) in
            if_cases (All NotBreak) (c == b';' || c == b',') (λ _. (refl, (plain, tt)))
              (λ _. (plain, tt))

-- A text value holds no line break, whatever text it is made of.
pub escape_text-NotBreak : (s : Text) → All NotBreak (escape_text s)
escape_text-NotBreak s =
    subst (All NotBreak) (sym (escape_text-flat s))
      (All-flat NotBreak text_code (unix s) text_code-NotBreak)
