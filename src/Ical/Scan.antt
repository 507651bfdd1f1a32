-- ===== src/Ical/Scan.antt =====
-- packages/platform-caldav/src/ical.ts: the two scans of a content line pass over what is quoted, and find
-- the separators that the writer put in.
use mathlib.Core.List.{append_assoc, append-nil}
use sockethub.Base.{
  ℕ, ◌≡◌, refl, sym, ap, subst, ◌∙◌, Bool, true, false, ◌&&◌, ◌||◌, not, List, [], ◌∷◌, ◌++◌, some,
  Text, nat_eq, ◌==◌, arith, All, any, if_cases,
}
use sockethub.Ical.{joined_by, caret_text, encode_parameter, needs_quotes}
use sockethub.Ical.Params.{IsInner, caret_text-IsInner}
use sockethub.Ical.Content.{toggled, split_from, find_colon, with_params}

-- A scan that starts with `q` passes over the whole text, without a stop, and ends outside quotes.
abbrev pub Skips : (ℕ → Bool) → Bool → Text → Type 0
Skips stop q [] = q ≡ false
Skips stop q (c ∷ s) = ((not (toggled c q) && stop c) ≡ false) × Skips stop (toggled c q) s

pub find_colon-Skips :
    (q : Bool) (before s value : Text)
    → Skips (λ c. c == b':') q s
    → find_colon q before (s ++ b':' ∷ value) ≡ some (before ++ s, value)
unfolding find_colon
find_colon-Skips q before [] value h = rw h (ap (λ t. some (t, value)) (sym (append-nil before)))
find_colon-Skips q before (c ∷ s) value h = rw (h.0) (
    find_colon-Skips (toggled c q) (before ++ c ∷ []) s value h.1
    ∙ ap (λ t. some (t, value)) (append_assoc before (c ∷ []) s))

split_from-last :
    (sep : ℕ) (q : Bool) (current s : Text)
    → Skips (λ c. c == sep) q s
    → split_from sep q current s ≡ (current ++ s) ∷ []
unfolding split_from
split_from-last sep q current [] h = ap (λ t. t ∷ []) (sym (append-nil current))
split_from-last sep q current (c ∷ s) h = rw (h.0) (
    split_from-last sep (toggled c q) (current ++ c ∷ []) s h.1
    ∙ ap (λ t. t ∷ []) (append_assoc current (c ∷ []) s))

split_from-next :
    (q : Bool) (current s t : Text)
    → Skips (λ c. c == b';') q s
    → split_from b';' q current (s ++ b';' ∷ t) ≡ (current ++ s) ∷ split_from b';' false [] t
unfolding split_from
split_from-next q current [] t h =
    rw h (ap (λ u. u ∷ split_from b';' false [] t) (sym (append-nil current)))
split_from-next q current (c ∷ s) t h = rw (h.0) (
    split_from-next (toggled c q) (current ++ c ∷ []) s t h.1
    ∙ ap (λ u. u ∷ split_from b';' false [] t) (append_assoc current (c ∷ []) s))

-- A part of a line: a scan for a colon or a semicolon passes over it.
abbrev pub Passes : Text → Type 0
Passes s = Skips (λ c. c == b':') false s × Skips (λ c. c == b';') false s

pub Skips-append :
    (stop : ℕ → Bool) (q : Bool) (s t : Text)
    → Skips stop q s
    → Skips stop false t
    → Skips stop q (s ++ t)
Skips-append stop q [] t h k = subst (λ b. Skips stop b t) (sym h) k
Skips-append stop q (c ∷ s) t h k = (h.0, Skips-append stop (toggled c q) s t h.1 k)

joined_lem :
    (p : Text) (ps : List Text)
    → Passes p
    → All Passes ps
    → split_from b';' false [] (joined_by (b';' ∷ []) (p ∷ ps)) ≡ p ∷ ps
unfolding joined_by
joined_lem p [] h k = split_from-last b';' false [] p h.1
joined_lem p (r ∷ ps) h k =
    split_from-next false [] p (joined_by (b';' ∷ []) (r ∷ ps)) h.1
    ∙ ap (λ l. p ∷ l) (joined_lem r ps k.0 k.1)

-- The parts of a line come apart as they were put together.
pub split-with_params :
    (first : Text) (params : List Text)
    → Passes first
    → All Passes params
    → split_from b';' false [] (first ++ with_params params) ≡ first ∷ params
split-with_params first [] h k =
    ap (split_from b';' false []) (append-nil first) ∙ split_from-last b';' false [] first h.1
split-with_params first (p ∷ ps) h k =
    split_from-next false [] first (joined_by (b';' ∷ []) (p ∷ ps)) h.1
    ∙ ap (λ l. first ∷ l) (joined_lem p ps k.0 k.1)

-- A scan for a colon passes over all of it.
joined-colon :
    (p : Text) (ps : List Text)
    → Passes p
    → All Passes ps
    → Skips (λ c. c == b':') false (joined_by (b';' ∷ []) (p ∷ ps))
unfolding joined_by
joined-colon p [] h k = h.0
joined-colon p (r ∷ ps) h k =
    Skips-append (λ c. c == b':') false p (b';' ∷ joined_by (b';' ∷ []) (r ∷ ps)) h.0
      (refl, joined-colon r ps k.0 k.1)

pub with_params-colon :
    (first : Text) (params : List Text)
    → Passes first
    → All Passes params
    → Skips (λ c. c == b':') false (first ++ with_params params)
with_params-colon first [] h k = subst (Skips (λ c. c == b':') false) (sym (append-nil first)) h.0
with_params-colon first (p ∷ ps) h k =
    Skips-append (λ c. c == b':') false first (b';' ∷ joined_by (b';' ∷ []) (p ∷ ps)) h.0
      (refl, joined-colon p ps k.0 k.1)

-- Inside quotes everything is passed over.
inner_lem :
    (stop : ℕ → Bool) (s : Text)
    → stop b'"' ≡ false
    → All IsInner s
    → Skips stop true (s ++ b'"' ∷ [])
inner_lem stop [] n h = (n, refl)
inner_lem stop (c ∷ s) n h = rw (h.0.1) (refl, inner_lem stop s n h.1)

-- Characters that a scan takes outside quotes.
abbrev pub IsPlain : (ℕ → Bool) → ℕ → Type 0
IsPlain stop c = ((c == b'"') ≡ false) × (stop c ≡ false)

pub plain_lem : (stop : ℕ → Bool) (s : Text) → All (IsPlain stop) s → Skips stop false s
plain_lem stop [] h = refl
plain_lem stop (c ∷ s) h = rw (h.0.0) (h.0.1, plain_lem stop s h.1)

or_false : (a b : Bool) → (a || b) ≡ false → (a ≡ false) × (b ≡ false)
or_false true b h = ground (arith, h)
or_false false b h = (refl, h)

unquoted_lem :
    (stop : ℕ → Bool) (t : Text)
    → ((c : ℕ) → needs_quotes c ≡ false → stop c ≡ false)
    → All IsInner t
    → any needs_quotes t ≡ false
    → All (IsPlain stop) t
unquoted_lem stop [] m h o = tt
unquoted_lem stop (c ∷ t) m h o =
    let (here, later) = or_false (needs_quotes c) (any needs_quotes t) o in
    ((h.0.1, m c here), unquoted_lem stop t m h.1 later)

pub encode-Skips :
    (stop : ℕ → Bool) (s : Text)
    → stop b'"' ≡ false
    → ((c : ℕ) → needs_quotes c ≡ false → stop c ≡ false)
    → Skips stop false (encode_parameter s)
unfolding encode_parameter
encode-Skips stop s n m =
    if_cases (Skips stop false) (any needs_quotes (caret_text s))
      (λ _. (refl, inner_lem stop (caret_text s) n (caret_text-IsInner s)))
      (λ o.
        plain_lem stop (caret_text s) (unquoted_lem stop (caret_text s) m (caret_text-IsInner s) o))
