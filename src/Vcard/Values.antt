-- ===== src/Vcard/Values.antt =====
-- packages/platform-carddav/src/vcard.ts: what comes back of a text that was escaped.
use sockethub.Base.{
  ℕ, ◌≡◌, refl, sym, ap, ◌∙◌, true, false, ◌&&◌, ◌||◌, [], ◌∷◌, ◌++◌, Text, nat_eq, ◌==◌, arith,
  All, Bool-cases, inl, inr, eq_of_beq, subst,
}
use sockethub.Escapes.{flat, unix, decode}
use sockethub.Escapes.Laws.{decode-plain, decode-escaped}
use sockethub.Vcard.{feed_letter, itself, unescape_text, escape_text}
use sockethub.Vcard.Stages.{
  is_n, garbled, staged, code, without_feeds, without_commas, backslashes, escape_text-code,
  staged-n, staged-other, decode-nil, decode-kept, Calm, double_lem, Calm-staged, staged-pass,
}

feed_one :
    (c : ℕ) (s : Text)
    → (c == 92) ≡ false
    → decode 92 feed_letter (code c ++ s) ≡ without_feeds c ++ decode 92 feed_letter s
feed_one c s h = elim (Bool-cases (c == 10)) [
  | inl y ↦
      subst (λ d. decode 92 feed_letter (code d ++ s) ≡ without_feeds d ++ decode 92 feed_letter s)
        (sym (eq_of_beq c 10 y)) (decode-escaped 92 feed_letter b'n' 10 s refl)
  | inr n ↦ elim (Bool-cases (c == b';' || c == b',')) [
    | inl y ↦
        rw (h, n, y)
          (decode-kept feed_letter c s (ground (arith, y))
            ∙ ap (λ t. 92 ∷ t) (decode-plain 92 feed_letter c s h))
    | inr m ↦ rw (h, n, m) (decode-plain 92 feed_letter c s h)
  ]
]

code-Calm : (d : ℕ) (s : Text) → is_n d ≡ false → Calm feed_letter (code d ++ s)
code-Calm d s h = ground (arith, h)

feed_n :
    (d : ℕ) (s : Text)
    → is_n d ≡ true
    → decode 92 feed_letter (flat code (92 ∷ d ∷ s)) ≡ 92 ∷ 10 ∷ decode 92 feed_letter (flat code s)
unfolding flat
feed_n d s h =
    ap (λ t. decode 92 feed_letter (92 ∷ 92 ∷ (t ++ flat code s))) letter_lem
    ∙ decode-kept feed_letter 92 (d ∷ flat code s) refl
    ∙ ap (λ t. 92 ∷ t) (decode-escaped 92 feed_letter d 10 (flat code s) (ground (arith, h)))
  where
    letter_lem : code d ≡ d ∷ []
    letter_lem = ground (arith, h)

feed_double :
    (d : ℕ) (s : Text)
    → is_n d ≡ false
    → decode 92 feed_letter (flat code (92 ∷ d ∷ s))
      ≡ 92 ∷ 92 ∷ decode 92 feed_letter (flat code (d ∷ s))
unfolding flat
feed_double d s h = double_lem feed_letter (flat code (d ∷ s)) refl (code-Calm d (flat code s) h)

feed_other :
    (c : ℕ) (s : Text)
    → (c == 92) ≡ false
    → decode 92 feed_letter (flat code (c ∷ s))
      ≡ without_feeds c ++ decode 92 feed_letter (flat code s)
unfolding flat
feed_other c s h = feed_one c (flat code s) h

feed-nil : decode 92 feed_letter (flat code []) ≡ []
unfolding flat
feed-nil = decode-nil feed_letter

feed-last : (c : ℕ) → decode 92 feed_letter (flat code (c ∷ [])) ≡ staged without_feeds (c ∷ [])
unfolding flat staged
feed-last c = elim (Bool-cases (c == 92)) [
  | inl y ↦
      rw y (double_lem feed_letter [] refl tt ∙ ap (λ t. 92 ∷ 92 ∷ t) (decode-nil feed_letter))
  | inr n ↦ feed_one c [] n ∙ ap (λ t. without_feeds c ++ t) (decode-nil feed_letter)
]

feed-pass : (s : Text) → decode 92 feed_letter (flat code s) ≡ staged without_feeds s
feed-pass [] = feed-nil ∙ unfold staged in refl
feed-pass (c ∷ []) = feed-last c
feed-pass (c ∷ d ∷ s) =
    let after = feed-pass s in
    let later = feed-pass (d ∷ s) in
    elim (Bool-cases (c == 92)) [
      | inl y ↦
          subst
            (λ x. decode 92 feed_letter (flat code (x ∷ d ∷ s)) ≡ staged without_feeds (x ∷ d ∷ s))
            (sym (eq_of_beq c 92 y))
            (elim (Bool-cases (is_n d)) [
              | inl z ↦
                  feed_n d s z ∙ ap (λ t. 92 ∷ 10 ∷ t) after ∙ sym (staged-n without_feeds d s z)
              | inr z ↦
                  feed_double d s z
                  ∙ ap (λ t. 92 ∷ 92 ∷ t) later
                  ∙ sym (staged-other without_feeds 92 d s z)
            ])
      | inr n ↦
          feed_other c (d ∷ s) n
          ∙ ap (λ t. without_feeds c ++ t) later
          ∙ sym (staged-other without_feeds c d s (ap (λ b. b && is_n d) n))
    ]

comma_step :
    (c : ℕ) (s : Text)
    → Calm (itself b',') s
    → decode 92 (itself b',') (without_feeds c ++ s) ≡ without_commas c ++ decode 92 (itself b',') s
comma_step c s calm = elim (Bool-cases (c == 92)) [
  | inl y ↦ subst Goal (sym (eq_of_beq c 92 y)) (double_lem (itself b',') s refl calm)
  | inr n ↦ elim (Bool-cases (c == b',')) [
    | inl y ↦
        subst Goal (sym (eq_of_beq c b',' y)) (decode-escaped 92 (itself b',') b',' b',' s refl)
    | inr m ↦ elim (Bool-cases (c == b';')) [
      | inl y ↦ subst Goal (sym (eq_of_beq c b';' y)) (
          decode-kept (itself b',') b';' s refl
          ∙ ap (λ t. 92 ∷ t) (decode-plain 92 (itself b',') b';' s refl))
      | inr k ↦ rw (n, k, m) (decode-plain 92 (itself b',') c s n)
    ]
  ]
]
  where
    Goal : ℕ → Type 0
    Goal d =
        decode 92 (itself b',') (without_feeds d ++ s)
        ≡ without_commas d ++ decode 92 (itself b',') s

semicolon_step :
    (c : ℕ) (s : Text)
    → Calm (itself b';') s
    → decode 92 (itself b';') (without_commas c ++ s) ≡ backslashes c ++ decode 92 (itself b';') s
semicolon_step c s calm = elim (Bool-cases (c == 92)) [
  | inl y ↦ subst Goal (sym (eq_of_beq c 92 y)) (double_lem (itself b';') s refl calm)
  | inr n ↦ elim (Bool-cases (c == b';')) [
    | inl y ↦
        subst Goal (sym (eq_of_beq c b';' y)) (decode-escaped 92 (itself b';') b';' b';' s refl)
    | inr m ↦ rw (n, m) (decode-plain 92 (itself b';') c s n)
  ]
]
  where
    Goal : ℕ → Type 0
    Goal d =
        decode 92 (itself b';') (without_commas d ++ s) ≡ backslashes d ++ decode 92 (itself b';') s

abbrev Anything : Text → Type 0
Anything s = Unit

slash_step :
    (c : ℕ) (s : Text)
    → Anything s
    → decode 92 (itself 92) (backslashes c ++ s) ≡ (c ∷ []) ++ decode 92 (itself 92) s
slash_step c s u = elim (Bool-cases (c == 92)) [
  | inl y ↦
      subst (λ d. decode 92 (itself 92) (backslashes d ++ s) ≡ (d ∷ []) ++ decode 92 (itself 92) s)
        (sym (eq_of_beq c 92 y)) (decode-escaped 92 (itself 92) 92 92 s refl)
  | inr n ↦ rw n (decode-plain 92 (itself 92) c s n)
]

comma-Calm : (c : ℕ) (s : Text) → Calm (itself b',') (without_feeds c ++ s)
comma-Calm c s = ground arith

semicolon-Calm : (c : ℕ) (s : Text) → Calm (itself b';') (without_commas c ++ s)
semicolon-Calm c s = ground arith

garbled-staged : (s : Text) → staged (λ c. c ∷ []) s ≡ garbled s
unfolding staged garbled
garbled-staged [] = refl
garbled-staged (c ∷ []) = refl
garbled-staged (c ∷ d ∷ s) = rw (garbled-staged s, garbled-staged (d ∷ s)) refl

-- What comes back of an escaped text is the text with its line breaks as line feeds, in which each letter
-- n, small or capital, that stands behind a backslash has become a line feed.
pub unescape_text-garbled : (s : Text) → unescape_text (escape_text s) ≡ garbled (unix s)
unfolding unescape_text
unescape_text-garbled s =
    let comma = decode 92 (itself b',') in
    let semicolon = decode 92 (itself b';') in
    let slash = decode 92 (itself 92) in
    ap (λ t. slash (semicolon (comma (decode 92 feed_letter t)))) (escape_text-code s)
    ∙ ap (λ t. slash (semicolon (comma t))) (feed-pass (unix s))
    ∙ ap (λ t. slash (semicolon t))
        (staged-pass (itself b',') without_feeds without_commas (Calm (itself b',')) refl
          (Calm-staged (itself b',') without_feeds refl comma-Calm) comma_step (unix s))
    ∙ ap slash (
        staged-pass (itself b';') without_commas backslashes (Calm (itself b';')) refl
          (Calm-staged (itself b';') without_commas refl semicolon-Calm) semicolon_step (unix s))
    ∙ staged-pass (itself 92) backslashes (λ c. c ∷ []) Anything refl (λ _. tt) slash_step (unix s)
    ∙ garbled-staged (unix s)

-- A text without backslashes holds nothing that is garbled.
pub garbled-plain : (s : Text) → All (λ c. (c == 92) ≡ false) s → garbled s ≡ s
unfolding garbled
garbled-plain [] h = refl
garbled-plain (c ∷ []) h = refl
garbled-plain (c ∷ d ∷ s) h = rw (h.0) (ap (λ t. c ∷ t) (garbled-plain (d ∷ s) h.1))
