-- ===== src/Identity/Json.antt =====
-- The encoding of a list of texts can be read in one way only.
use sockethub.Base.{ℕ, ◌≡◌, refl, ◌≢◌, true, List, [], ◌∷◌, ◌++◌, arith, Text, sym, ◌∙◌}
use mathlib.Core.List.{append_assoc}
use sockethub.Identity.{
  json_escape, is_escaped, json_char, json_body, json_string, json_tail, json_array,
}

json_escape-inj :
    (c d : ℕ) (s t : Text)
    → is_escaped c ≡ true
    → is_escaped d ≡ true
    → json_escape c ++ s ≡ json_escape d ++ t
    → (c ≡ d) × (s ≡ t)
unfolding json_escape
json_escape-inj c d s t hc hd e = ground arith

json_char-inj : (c d : ℕ) (s t : Text) → json_char c ++ s ≡ json_char d ++ t → (c ≡ d) × (s ≡ t)
unfolding json_char
json_char-inj c d s t e = ground (arith, json_escape-inj c d s t)

json_char-ne-quote : (c : ℕ) (s t : Text) → json_char c ++ s ≢ b'"' ∷ t
unfolding json_char
json_char-ne-quote c s t e = ground arith

json_body-nil : (s : Text) → json_body [] ++ b'"' ∷ s ≡ b'"' ∷ s
unfolding json_body
json_body-nil s = refl

json_body-cons :
    (c : ℕ) (u s : Text) → json_body (c ∷ u) ++ b'"' ∷ s ≡ json_char c ++ (json_body u ++ b'"' ∷ s)
unfolding json_body
json_body-cons c u s = append_assoc (json_char c) (json_body u) (b'"' ∷ s)

-- Two quoted texts that begin alike are the same text, and so is what follows them.
json_body-inj :
    (u v s t : Text) → json_body u ++ b'"' ∷ s ≡ json_body v ++ b'"' ∷ t → (u ≡ v) × (s ≡ t)
json_body-inj [] [] s t e = unfold json_body in ground arith
json_body-inj [] (d ∷ v) s t e = absurd (
    json_char-ne-quote d (json_body v ++ b'"' ∷ t) s
      (sym (json_body-cons d v t) ∙ sym e ∙ json_body-nil s))
json_body-inj (c ∷ u) [] s t e = absurd (
    json_char-ne-quote c (json_body u ++ b'"' ∷ s) t
      (sym (json_body-cons c u s) ∙ e ∙ json_body-nil t))
json_body-inj (c ∷ u) (d ∷ v) s t e =
    let (same, rest) =
      json_char-inj c d (json_body u ++ b'"' ∷ s) (json_body v ++ b'"' ∷ t)
        (sym (json_body-cons c u s) ∙ e ∙ json_body-cons d v t) in
    let (same_rest, after) = json_body-inj u v s t rest in (cc, after)

json_string-inj : (u v s t : Text) → json_string u ++ s ≡ json_string v ++ t → (u ≡ v) × (s ≡ t)
unfolding json_string
json_string-inj u v s t e = json_body-inj u v s t (
    sym (append_assoc (json_body u) (b'"' ∷ []) s)
    ∙ tail_lem e
    ∙ append_assoc (json_body v) (b'"' ∷ []) t)
  where
    tail_lem : {a b : Text} → b'"' ∷ a ≡ b'"' ∷ b → a ≡ b
    tail_lem h = cc

json_tail-inj : (us vs : List Text) → json_tail us ≡ json_tail vs → us ≡ vs
json_tail-inj [] [] e = refl
json_tail-inj [] (v ∷ vs) e = ground arith
json_tail-inj (u ∷ us) [] e = ground arith
json_tail-inj (u ∷ us) (v ∷ vs) e =
    let (same, rest) = json_string-inj u v (json_tail us) (json_tail vs) (ground arith) in
    let same_rest = json_tail-inj us vs rest in cc

json_string-ne-bracket : (u s : Text) → json_string u ++ s ≢ b']' ∷ []
unfolding json_string
json_string-ne-bracket u s e = ground arith

-- Distinct lists of texts have distinct encodings, whatever the texts hold.
pub json_array-inj : (us vs : List Text) → json_array us ≡ json_array vs → us ≡ vs
unfolding json_array
json_array-inj [] [] e = refl
json_array-inj [] (v ∷ vs) e = absurd (json_string-ne-bracket v (json_tail vs) (ground arith))
json_array-inj (u ∷ us) [] e = absurd (json_string-ne-bracket u (json_tail us) (ground arith))
json_array-inj (u ∷ us) (v ∷ vs) e =
    let (same, rest) = json_string-inj u v (json_tail us) (json_tail vs) (ground arith) in
    let same_rest = json_tail-inj us vs rest in cc

pub json_array-head : (us : List Text) → (s : Text) × (json_array us ≡ b'[' ∷ s)
unfolding json_array
json_array-head [] = (b']' ∷ [], refl)
json_array-head (u ∷ us) = (json_string u ++ json_tail us, refl)
