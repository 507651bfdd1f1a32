-- ===== src/Ical/Fold.antt =====
-- packages/platform-caldav/src/ical.ts: the pieces of a folded line, and unfolding them.
use mathlib.Core.List.{append_assoc, append-nil}
use sockethub.Base.{
  ℕ, ◌≡◌, refl, sym, ap, ◌∙◌, Bool, true, false, ◌&&◌, List, [], ◌∷◌, ◌++◌, Text, nat_eq, ltb,
  arith, All, if_cases,
}
use sockethub.Identity.{truthy}
use sockethub.Escapes.Laws.{NotBreak, All-append}
use sockethub.Ical.{byte_length, fold_from, joined_by, fold_line, unfold_body}

abbrev pub crlf : Text
crlf = 13 ∷ 10 ∷ []

abbrev pub fold_mark : Text
fold_mark = 13 ∷ 10 ∷ 32 ∷ []

pub unfold-plain : (c : ℕ) (s : Text) → NotBreak c → unfold_body (c ∷ s) ≡ c ∷ unfold_body s
unfolding unfold_body
unfold-plain c [] h = refl
unfold-plain c (a ∷ []) h = ground (arith, h)
unfold-plain c (a ∷ b ∷ s) h = ground (arith, h)

pub unfold-append : (s t : Text) → All NotBreak s → unfold_body (s ++ t) ≡ s ++ unfold_body t
unfold-append [] t h = refl
unfold-append (c ∷ s) t h = unfold-plain c (s ++ t) h.0 ∙ ap (λ u. c ∷ u) (unfold-append s t h.1)

pub unfold-mark : (s : Text) → unfold_body (13 ∷ 10 ∷ 32 ∷ s) ≡ unfold_body s
unfolding unfold_body
unfold-mark s = refl

abbrev pub concat : List Text → Text
concat [] = []
concat (s ∷ ss) = s ++ concat ss

pub unfold-joined :
    (chunks : List Text) (t : Text)
    → All (All NotBreak) chunks
    → unfold_body (joined_by fold_mark chunks ++ t) ≡ concat chunks ++ unfold_body t
unfolding joined_by
unfold-joined [] t h = refl
unfold-joined (s ∷ []) t h =
    unfold-append s t h.0 ∙ ap (λ v. v ++ unfold_body t) (sym (append-nil s))
unfold-joined (s ∷ u ∷ ss) t h =
    let rest = joined_by fold_mark (u ∷ ss) in
    ap unfold_body (append_assoc s (13 ∷ 10 ∷ 32 ∷ rest) t)
    ∙ unfold-append s (13 ∷ 10 ∷ 32 ∷ (rest ++ t)) h.0
    ∙ ap (λ v. s ++ v) (unfold-mark (rest ++ t) ∙ unfold-joined (u ∷ ss) t h.1)
    ∙ sym (append_assoc s (u ++ concat ss) (unfold_body t))

-- Whether `current` is put out before `c`.
abbrev pub is_over : Text → ℕ → ℕ → Bool
is_over current limit c = ltb limit (byte_length (current ++ c ∷ [])) && truthy current

pub fold_from-cases {κ} :
    (P : List Text → Type κ) (current : Text) (limit c : ℕ) (s : Text)
    → (is_over current limit c ≡ true → P (current ∷ fold_from (c ∷ []) 74 s))
    → (is_over current limit c ≡ false → P (fold_from (current ++ c ∷ []) limit s))
    → P (fold_from current limit (c ∷ s))
unfolding fold_from
fold_from-cases P current limit c s h k = if_cases P (is_over current limit c) h k

pub concat-fold_from :
    (current : Text) (limit : ℕ) (s : Text) → concat (fold_from current limit s) ≡ current ++ s
concat-fold_from current limit [] = unfold fold_from in refl
concat-fold_from current limit (c ∷ s) =
    fold_from-cases (λ l. concat l ≡ current ++ c ∷ s) current limit c s
      (λ _. ap (λ u. current ++ u) (concat-fold_from (c ∷ []) 74 s))
      (λ _. concat-fold_from (current ++ c ∷ []) limit s ∙ append_assoc current (c ∷ []) s)

pub fold_from-NotBreak :
    (current : Text) (limit : ℕ) (s : Text)
    → All NotBreak current
    → All NotBreak s
    → All (All NotBreak) (fold_from current limit s)
fold_from-NotBreak current limit [] h k = unfold fold_from in (h, tt)
fold_from-NotBreak current limit (c ∷ s) h k =
    fold_from-cases (All (All NotBreak)) current limit c s
      (λ _. (h, fold_from-NotBreak (c ∷ []) 74 s (k.0, tt) k.1))
      (λ _.
        fold_from-NotBreak (current ++ c ∷ []) limit s
          (All-append NotBreak current (c ∷ []) h (k.0, tt)) k.1)

-- Unfolding takes back the folding of one line.
pub unfold_body-fold_line :
    (s t : Text) → All NotBreak s → unfold_body (fold_line s ++ t) ≡ s ++ unfold_body t
unfolding fold_line
unfold_body-fold_line s t h =
    unfold-joined (fold_from [] 75 s) t (fold_from-NotBreak [] 75 s tt h)
    ∙ ap (λ u. u ++ unfold_body t) (concat-fold_from [] 75 s)

-- The physical lines: each but the first begins with the space of the mark.
abbrev pub continued : List Text → List Text
continued [] = []
continued (s ∷ ss) = (32 ∷ s) ∷ continued ss

abbrev pub physical : List Text → List Text
physical [] = []
physical (s ∷ ss) = s ∷ continued ss

pub joined-continued :
    (u : Text) (ss : List Text)
    → 32 ∷ joined_by fold_mark (u ∷ ss) ≡ joined_by crlf ((32 ∷ u) ∷ continued ss)
unfolding joined_by
joined-continued u [] = refl
joined-continued u (v ∷ ss) = ap (λ t. 32 ∷ (u ++ 13 ∷ 10 ∷ t)) (joined-continued v ss)

pub joined-physical : (ss : List Text) → joined_by fold_mark ss ≡ joined_by crlf (physical ss)
unfolding joined_by
joined-physical [] = refl
joined-physical (s ∷ []) = refl
joined-physical (s ∷ u ∷ ss) = ap (λ t. s ++ 13 ∷ 10 ∷ t) (joined-continued u ss)
