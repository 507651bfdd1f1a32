-- ===== src/Escapes/Laws.antt =====
-- The laws of codes with an escape character.
use mathlib.Core.List.{append_assoc, append-nil}
use sockethub.Base.{
  ℕ, ◌≡◌, refl, sym, ap, ◌∙◌, false, List, [], ◌∷◌, ◌++◌, Option, some, Text, nat_eq, ◌==◌, ◌⊎◌,
  inl, inr, All, if_cases, eq_refl, Bool-cases, beq_of_ne, ne_of_beq, eq_of_beq, subst,
}
use sockethub.Escapes.{flat, replacing, replace_all, is, is_break, replace_crlf, unix, decode}

flat-append : (k : ℕ → Text) (s t : Text) → flat k (s ++ t) ≡ flat k s ++ flat k t
unfolding flat
flat-append k [] t = refl
flat-append k (c ∷ s) t = rw (flat-append k s t, append_assoc)

pub flat-flat : (k j : ℕ → Text) (s : Text) → flat k (flat j s) ≡ flat (λ c. flat k (j c)) s
unfolding flat
flat-flat k j [] = refl
flat-flat k j (c ∷ s) = rw (flat-append k (j c) (flat j s), flat-flat k j s)

pub flat-ext : (k j : ℕ → Text) (s : Text) → ((c : ℕ) → k c ≡ j c) → flat k s ≡ flat j s
unfolding flat
flat-ext k j [] h = refl
flat-ext k j (c ∷ s) h = rw (h c, flat-ext k j s h)

-- How a code writes one character: behind the escape character, as a letter that the table reads back,
-- or as it is.
abbrev pub Codes : ℕ → (ℕ → Option ℕ) → (ℕ → Text) → ℕ → Type 0
Codes e table k c =
    ((d : ℕ) × (k c ≡ e ∷ d ∷ []) × (table d ≡ some c)) ⊎ ((k c ≡ c ∷ []) × ((c == e) ≡ false))

module _ (e : ℕ) (table : ℕ → Option ℕ) where
  pub decode-escaped :
      (d x : ℕ) (s : Text) → table d ≡ some x → decode e table (e ∷ d ∷ s) ≡ x ∷ decode e table s
  unfolding decode
  decode-escaped d x s h = rw (eq_refl e, h)

  pub decode-plain :
      (c : ℕ) (s : Text) → (c == e) ≡ false → decode e table (c ∷ s) ≡ c ∷ decode e table s
  unfolding decode
  decode-plain c [] h = refl
  decode-plain c (d ∷ s) h = rw h

  -- What a code writes is read back.
  pub decode-flat :
      (k : ℕ → Text) (s : Text) → All (Codes e table k) s → decode e table (flat k s) ≡ s
  unfolding flat
  decode-flat k [] h = unfold decode in refl
  decode-flat k (c ∷ s) h =
      let rest = decode-flat k s h.1 in
      elim h.0 [
        | inl (d, written, back) ↦ rw (written, decode-escaped d c (flat k s) back, rest)
        | inr (written, other) ↦ rw (written, decode-plain c (flat k s) other, rest)
      ]

pub All-append {ℓ κ} :
    {A : Type ℓ} (P : A → Type κ) (s t : List A) → All P s → All P t → All P (s ++ t)
All-append P [] t h k = k
All-append P (c ∷ s) t h k = (h.0, All-append P s t h.1 k)

pub All-flat {κ} :
    (P : ℕ → Type κ) (k : ℕ → Text) (s : Text) → ((c : ℕ) → All P (k c)) → All P (flat k s)
unfolding flat
All-flat P k [] h = tt
All-flat P k (c ∷ s) h = All-append P (k c) (flat k s) (h c) (All-flat P k s h)

pub All-weaken {κ μ} :
    (P : ℕ → Type κ) (Q : ℕ → Type μ) (s : Text) → ((c : ℕ) → P c → Q c) → All P s → All Q s
All-weaken P Q [] h k = tt
All-weaken P Q (c ∷ s) h k = (h c k.0, All-weaken P Q s h k.1)

-- No character is a carriage return.
abbrev pub NotCr : ℕ → Type 0
NotCr c = (c == 13) ≡ false

-- No character breaks a line.
abbrev pub NotBreak : ℕ → Type 0
NotBreak c = is_break c ≡ false

pub unix-All : (s : Text) → All NotCr (unix s)
unfolding unix replace_all
unix-All s =
    All-flat NotCr (replacing (is 13) (10 ∷ [])) (replace_crlf (10 ∷ []) s)
      λ c. if_cases (All NotCr) (c == 13) (λ _. (refl, tt)) (λ h. (h, tt))

crlf-other :
    (w : Text) (c : ℕ) (s : Text)
    → (c == 13) ≡ false
    → replace_crlf w (c ∷ s) ≡ c ∷ replace_crlf w s
unfolding replace_crlf
crlf-other w c [] h = refl
crlf-other w c (d ∷ s) h = rw h

crlf-lone :
    (w : Text) (d : ℕ) (s : Text)
    → (d == 10) ≡ false
    → replace_crlf w (13 ∷ d ∷ s) ≡ 13 ∷ replace_crlf w (d ∷ s)
unfolding replace_crlf
crlf-lone w d s h = rw h

unix-other : (c : ℕ) (s : Text) → (c == 13) ≡ false → unix (c ∷ s) ≡ c ∷ unix s
unfolding unix replace_all flat
unix-other c s h = rw (crlf-other (10 ∷ []) c s h, h)

unix-lone : (d : ℕ) (s : Text) → (d == 10) ≡ false → unix (13 ∷ d ∷ s) ≡ 10 ∷ unix (d ∷ s)
unfolding unix replace_all flat
unix-lone d s h = rw (crlf-lone (10 ∷ []) d s h)

unix-crlf : (s : Text) → unix (13 ∷ 10 ∷ s) ≡ 10 ∷ unix s
unfolding unix replace_all flat replace_crlf
unix-crlf s = refl

cr_cons : (s : Text) → (d : ℕ) × (t : Text) × (unix (13 ∷ s) ≡ d ∷ t)
cr_cons [] = (10, [], unfold unix replace_all flat replace_crlf in refl)
cr_cons (d ∷ s) = elim (Bool-cases (d == 10)) [
  | inl q ↦ (
    10,
    unix s,
    subst (λ x. unix (13 ∷ x ∷ s) ≡ 10 ∷ unix s) (sym (eq_of_beq d 10 q)) (unix-crlf s),
  )
  | inr q ↦ (10, unix (d ∷ s), unix-lone d s q)
]

-- A text that is not empty does not become empty.
pub unix-cons : (c : ℕ) (s : Text) → (d : ℕ) × (t : Text) × (unix (c ∷ s) ≡ d ∷ t)
unix-cons c s = elim (Bool-cases (c == 13)) [
  | inr q ↦ (c, unix s, unix-other c s q)
  | inl q ↦
      subst (λ x. (d : ℕ) × (t : Text) × (unix (x ∷ s) ≡ d ∷ t)) (sym (eq_of_beq c 13 q))
        (cr_cons s)
]

-- A code that doubles the escape character, then writes a pair for a carriage return with its line
-- feed, then writes each character: it writes the characters of the text with unified breaks.
module _ (k : ℕ → Text) (e n : ℕ) (not_cr : (e == 13) ≡ false) (not_lf : (e == 10) ≡ false)
    (cr : k 13 ≡ k 10) (pair : k e ++ k n ≡ k 10) where
  abbrev doubled : ℕ → Text
  doubled = replacing (is e) (e ∷ e ∷ [])

  abbrev pub per_character : ℕ → Text
  per_character c = flat k (doubled c)

  doubled-other : (c : ℕ) (s : Text) → (c == e) ≡ false → flat doubled (c ∷ s) ≡ c ∷ flat doubled s
  unfolding flat
  doubled-other c s h = rw h

  doubled-escape : (s : Text) → flat doubled (e ∷ s) ≡ e ∷ e ∷ flat doubled s
  unfolding flat
  doubled-escape s = rw (eq_refl e)

  doubled-head : (d : ℕ) (s : Text) → (t : Text) × (flat doubled (d ∷ s) ≡ d ∷ t)
  doubled-head d s = elim (Bool-cases (d == e)) [
    | inl h ↦ (
      e ∷ flat doubled s,
      subst (λ x. flat doubled (x ∷ s) ≡ x ∷ e ∷ flat doubled s) (sym (eq_of_beq d e h))
          (doubled-escape s),
    )
    | inr h ↦ (flat doubled s, doubled-other d s h)
  ]

  written_cons : (c : ℕ) (s : Text) → flat k (c ∷ s) ≡ k c ++ flat k s
  unfolding flat
  written_cons c s = refl

  per_escape : per_character e ≡ k e ++ (k e ++ [])
  unfolding flat
  per_escape = rw (eq_refl e)

  per_other : (c : ℕ) → (c == e) ≡ false → per_character c ≡ k c
  unfolding flat
  per_other c h = rw (h, append-nil)

  lf_lem : per_character 10 ≡ k 10
  lf_lem = per_other 10 (beq_of_ne 10 e (λ q. ne_of_beq e 10 not_lf (sym q)))

  pair_lem : (s : Text) → flat k (e ∷ n ∷ s) ≡ k 10 ++ flat k s
  unfolding flat
  pair_lem s = sym (append_assoc (k e) (k n) (flat k s)) ∙ ap (λ t. t ++ flat k s) pair

  abbrev w : Text
  w = e ∷ n ∷ []

  abbrev piped : Text → Text
  piped s = flat k (replace_crlf w (flat doubled s))

  abbrev spec : Text → Text
  spec s = flat per_character (unix s)

  spec_cons :
      (c : ℕ) (s : Text) → flat per_character (c ∷ s) ≡ per_character c ++ flat per_character s
  unfolding flat
  spec_cons c s = refl

  escape_step : (s : Text) → piped s ≡ spec s → piped (e ∷ s) ≡ spec (e ∷ s)
  escape_step s h =
      rw
        (
          doubled-escape s,
          crlf-other w e (e ∷ flat doubled s) not_cr,
          crlf-other w e (flat doubled s) not_cr,
          unix-other e s not_cr,
          written_cons e (e ∷ replace_crlf w (flat doubled s)),
          written_cons e (replace_crlf w (flat doubled s)),
          spec_cons e (unix s),
          per_escape,
          h,
        )
        (rw (append-nil, append_assoc))

  other_step :
      (c : ℕ) (s : Text)
      → (c == e) ≡ false
      → (c == 13) ≡ false
      → piped s ≡ spec s
      → piped (c ∷ s) ≡ spec (c ∷ s)
  other_step c s o p h = rw (
    doubled-other c s o,
    crlf-other w c (flat doubled s) p,
    unix-other c s p,
    written_cons c (replace_crlf w (flat doubled s)),
    spec_cons c (unix s),
    per_other c o,
    h,
  )

  cr_ne : (13 == e) ≡ false
  cr_ne = beq_of_ne 13 e (λ q. ne_of_beq e 13 not_cr (sym q))

  lf_ne : (10 == e) ≡ false
  lf_ne = beq_of_ne 10 e (λ q. ne_of_beq e 10 not_lf (sym q))

  crlf_step : (s : Text) → piped s ≡ spec s → piped (13 ∷ 10 ∷ s) ≡ spec (13 ∷ 10 ∷ s)
  unfolding replace_crlf flat
  crlf_step s h = rw (
    doubled-other 13 (10 ∷ s) cr_ne,
    doubled-other 10 s lf_ne,
    pair_lem (replace_crlf w (flat doubled s)),
    unix-crlf s,
    spec_cons 10 (unix s),
    lf_lem,
    h,
  )

  lone_step :
      (d : ℕ) (s : Text)
      → (d == 10) ≡ false
      → piped (d ∷ s) ≡ spec (d ∷ s)
      → piped (13 ∷ d ∷ s) ≡ spec (13 ∷ d ∷ s)
  lone_step d s o h =
      let (t, head) = doubled-head d s in
      rw (
        doubled-other 13 (d ∷ s) cr_ne,
        head,
        crlf-lone w d t o,
        sym head,
        written_cons 13 (replace_crlf w (flat doubled (d ∷ s))),
        unix-lone d s o,
        spec_cons 10 (unix (d ∷ s)),
        lf_lem,
        cr,
        h,
      )

  first_step :
      (c : ℕ) (s : Text) → (c == 13) ≡ false → piped s ≡ spec s → piped (c ∷ s) ≡ spec (c ∷ s)
  first_step c s p h = elim (Bool-cases (c == e)) [
    | inl q ↦ subst (λ x. piped (x ∷ s) ≡ spec (x ∷ s)) (sym (eq_of_beq c e q)) (escape_step s h)
    | inr q ↦ other_step c s q p h
  ]

  cr_last : piped (13 ∷ []) ≡ spec (13 ∷ [])
  unfolding replace_crlf flat unix replace_all
  cr_last = rw (cr_ne, cr, lf_ne) (sym (append-nil (k 10 ++ [])))

  pub crlf_pipeline : (s : Text) → piped s ≡ spec s
  crlf_pipeline [] = unfold unix replace_all replace_crlf flat in refl
  crlf_pipeline (c ∷ []) = elim (Bool-cases (c == 13)) [
    | inl q ↦ subst (λ x. piped (x ∷ []) ≡ spec (x ∷ [])) (sym (eq_of_beq c 13 q)) cr_last
    | inr q ↦ first_step c [] q (unfold unix replace_all replace_crlf flat in refl)
  ]
  crlf_pipeline (c ∷ d ∷ s) =
      let after = crlf_pipeline s in
      let later = crlf_pipeline (d ∷ s) in
      elim (Bool-cases (c == 13)) [
        | inr q ↦ first_step c (d ∷ s) q later
        | inl q ↦
            subst (λ x. piped (x ∷ d ∷ s) ≡ spec (x ∷ d ∷ s)) (sym (eq_of_beq c 13 q))
              (elim (Bool-cases (d == 10)) [
                | inl r ↦
                    subst (λ x. piped (13 ∷ x ∷ s) ≡ spec (13 ∷ x ∷ s)) (sym (eq_of_beq d 10 r))
                      (crlf_step s after)
                | inr r ↦ lone_step d s r later
              ])
      ]
