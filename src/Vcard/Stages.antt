-- ===== src/Vcard/Stages.antt =====
-- packages/platform-carddav/src/vcard.ts: the texts between the replacements of `unescapeText`.
use sockethub.Base.{
  ℕ, ◌≡◌, refl, sym, ap, ◌∙◌, Bool, true, false, ◌&&◌, ◌||◌, [], ◌∷◌, ◌++◌, Option, none,
  if◌then◌else◌, Text, nat_eq, ◌==◌, arith, if_cases, Bool-cases, inl, inr,
}
use sockethub.Escapes.{flat, replacing, replace_all, is, unix, decode}
use sockethub.Escapes.Laws.{flat-flat, flat-ext, decode-plain}
use sockethub.Vcard.{escape_text}

abbrev pub is_n : ℕ → Bool
is_n c = c == b'n' || c == b'N'

-- A text in which the letter n behind a backslash is a line feed.
unfoldable pub garbled : Text → Text
garbled [] = []
garbled (c ∷ []) = c ∷ []
garbled (c ∷ d ∷ s) =
    let after = garbled s in
    let later = garbled (d ∷ s) in if c == 92 && is_n d then 92 ∷ 10 ∷ after else c ∷ later

-- The same, each other character written by `q`.
unfoldable pub staged : (ℕ → Text) → Text → Text
staged q [] = []
staged q (c ∷ []) = q c ++ []
staged q (c ∷ d ∷ s) =
    let after = staged q s in
    let later = staged q (d ∷ s) in if c == 92 && is_n d then 92 ∷ 10 ∷ after else q c ++ later

abbrev pub code : ℕ → Text
code c =
    if c == 92
    then 92 ∷ 92 ∷ []
    else if c == 10
    then 92 ∷ b'n' ∷ []
    else if c == b';' || c == b','
    then 92 ∷ c ∷ []
    else c ∷ []

abbrev pub without_feeds : ℕ → Text
without_feeds c =
    if c == 92 then 92 ∷ 92 ∷ [] else if c == b';' || c == b',' then 92 ∷ c ∷ [] else c ∷ []

abbrev pub without_commas : ℕ → Text
without_commas c = if c == 92 then 92 ∷ 92 ∷ [] else if c == b';' then 92 ∷ c ∷ [] else c ∷ []

abbrev pub backslashes : ℕ → Text
backslashes c = if c == 92 then 92 ∷ 92 ∷ [] else c ∷ []

pub code_lem :
    (c : ℕ)
    → flat
        (λ d.
          flat
            (λ e.
              flat (replacing (is b',') (92 ∷ b',' ∷ [])) (replacing (is b';') (92 ∷ b';' ∷ []) e))
            (replacing (is 10) (92 ∷ b'n' ∷ []) d))
        (replacing (is 92) (92 ∷ 92 ∷ []) c)
      ≡ code c
unfolding flat
code_lem c = ground arith

pub escape_text-code : (s : Text) → escape_text s ≡ flat code (unix s)
unfolding escape_text replace_all
escape_text-code s =
    let comma = replacing (is b',') (92 ∷ b',' ∷ []) in
    let semicolon = replacing (is b';') (92 ∷ b';' ∷ []) in
    let lf = replacing (is 10) (92 ∷ b'n' ∷ []) in
    let slash = replacing (is 92) (92 ∷ 92 ∷ []) in
    flat-flat comma semicolon (flat lf (flat slash (unix s)))
    ∙ flat-flat (λ c. flat comma (semicolon c)) lf (flat slash (unix s))
    ∙ flat-flat (λ c. flat (λ d. flat comma (semicolon d)) (lf c)) slash (unix s)
    ∙ flat-ext (λ c. flat (λ d. flat (λ e. flat comma (semicolon e)) (lf d)) (slash c)) code
        (unix s) code_lem

pub staged-n :
    (q : ℕ → Text) (d : ℕ) (s : Text) → is_n d ≡ true → staged q (92 ∷ d ∷ s) ≡ 92 ∷ 10 ∷ staged q s
unfolding staged
staged-n q d s h = rw h refl

pub staged-other :
    (q : ℕ → Text) (c d : ℕ) (s : Text)
    → (c == 92 && is_n d) ≡ false
    → staged q (c ∷ d ∷ s) ≡ q c ++ staged q (d ∷ s)
unfolding staged
staged-other q c d s h = rw h refl

pub decode-nil : (table : ℕ → Option ℕ) → decode 92 table [] ≡ []
unfolding decode
decode-nil table = refl

pub decode-single : (table : ℕ → Option ℕ) (c : ℕ) → decode 92 table (c ∷ []) ≡ c ∷ []
unfolding decode
decode-single table c = refl

-- A backslash before what the table does not have stays.
pub decode-kept :
    (table : ℕ → Option ℕ) (d : ℕ) (s : Text)
    → table d ≡ none
    → decode 92 table (92 ∷ d ∷ s) ≡ 92 ∷ decode 92 table (d ∷ s)
unfolding decode
decode-kept table d s h = rw h refl

-- A text that does not begin with a letter of the table.
abbrev pub Calm : (ℕ → Option ℕ) → Text → Type 0
Calm table [] = Unit
Calm table (d ∷ s) = table d ≡ none

pub double_lem :
    (table : ℕ → Option ℕ) (s : Text)
    → table 92 ≡ none
    → Calm table s
    → decode 92 table (92 ∷ 92 ∷ s) ≡ 92 ∷ 92 ∷ decode 92 table s
double_lem table [] e h =
    decode-kept table 92 [] e
    ∙ ap (λ t. 92 ∷ t) (decode-single table 92)
    ∙ ap (λ t. 92 ∷ 92 ∷ t) (sym (decode-nil table))
double_lem table (d ∷ s) e h =
    decode-kept table 92 (d ∷ s) e ∙ ap (λ t. 92 ∷ t) (decode-kept table d s h)

pub Calm-staged :
    (table : ℕ → Option ℕ) (q : ℕ → Text)
    → table 92 ≡ none
    → ((c : ℕ) (s : Text) → Calm table (q c ++ s))
    → (s : Text) → Calm table (staged q s)
unfolding staged
Calm-staged table q e h [] = tt
Calm-staged table q e h (c ∷ []) = h c []
Calm-staged table q e h (c ∷ d ∷ s) =
    if_cases (Calm table) (c == 92 && is_n d) (λ _. e) (λ _. h c (staged q (d ∷ s)))

-- One pass: every character written by `q` is then written by `j`.
pub staged-pass {κ} :
    (table : ℕ → Option ℕ) (q j : ℕ → Text) (C : Text → Type κ)
    → table 10 ≡ none
    → ((s : Text) → C (staged q s))
    → ((c : ℕ) (s : Text) → C s → decode 92 table (q c ++ s) ≡ j c ++ decode 92 table s)
    → (s : Text) → decode 92 table (staged q s) ≡ staged j s
unfolding staged
staged-pass table q j C ten calm step [] = unfold decode in refl
staged-pass table q j C ten calm step (c ∷ []) =
    step c [] (calm []) ∙ ap (λ t. j c ++ t) (decode-nil table)
staged-pass table q j C ten calm step (c ∷ d ∷ s) =
    let after = staged-pass table q j C ten calm step s in
    let later = staged-pass table q j C ten calm step (d ∷ s) in
    elim (Bool-cases (c == 92 && is_n d)) [
      | inl y ↦ rw y (
          decode-kept table 10 (staged q s) ten
          ∙ ap (λ t. 92 ∷ t) (decode-plain 92 table 10 (staged q s) refl)
          ∙ ap (λ t. 92 ∷ 10 ∷ t) after)
      | inr n ↦ rw n (step c (staged q (d ∷ s)) (calm (d ∷ s)) ∙ ap (λ t. j c ++ t) later)
    ]
