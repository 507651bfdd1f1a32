-- ===== src/Ical/Files.antt =====
-- packages/platform-caldav/src/ical.ts: a file whose lines are folded unfolds to the file.
use mathlib.Core.List.{append_assoc}
use sockethub.Base.{
  ℕ, ◌≡◌, refl, sym, ap, ◌∙◌, true, false, List, [], ◌∷◌, ◌++◌, Text, nat_eq, arith, All, map,
}
use sockethub.Escapes.Laws.{NotBreak}
use sockethub.Ical.{fold_from, joined_by, fold_line, is_blank, unfold_body}
use sockethub.Ical.Fold.{crlf, fold_mark, fold_from-cases, unfold_body-fold_line}

joined-head :
    (c : ℕ) (s : Text) (ss : List Text) → (t : Text) × (joined_by fold_mark ((c ∷ s) ∷ ss) ≡ c ∷ t)
unfolding joined_by
joined-head c s [] = (s, refl)
joined-head c s (u ∷ ss) = (s ++ (fold_mark ++ joined_by fold_mark (u ∷ ss)), refl)

abbrev Begins : ℕ → List Text → Type 0
Begins c ss = (t : Text) × (joined_by fold_mark ss ≡ c ∷ t)

fold_from-Begins :
    (c : ℕ) (current : Text) (limit : ℕ) (s : Text) → Begins c (fold_from (c ∷ current) limit s)
fold_from-Begins c current limit [] = unfold fold_from in joined-head c current []
fold_from-Begins c current limit (d ∷ s) =
    fold_from-cases (Begins c) (c ∷ current) limit d s
      (λ _. joined-head c current (fold_from (d ∷ []) 74 s))
      (λ _. fold_from-Begins c (current ++ d ∷ []) limit s)

fold_line-Begins : (c : ℕ) (s : Text) → (t : Text) × (fold_line (c ∷ s) ≡ c ∷ t)
unfolding fold_line
fold_line-Begins c s =
    fold_from-cases (Begins c) [] 75 c s (λ o. ground (arith, o)) (λ _. fold_from-Begins c [] 75 s)

-- A line of a file: no break in it, and it does not begin with a blank.
abbrev pub IsLine : Text → Type 0
IsLine [] = true ≡ false
IsLine (c ∷ s) = (is_blank c ≡ false) × All NotBreak (c ∷ s)

unfold-lf :
    (c : ℕ) (s : Text) → is_blank c ≡ false → unfold_body (10 ∷ c ∷ s) ≡ 10 ∷ unfold_body (c ∷ s)
unfolding unfold_body
unfold-lf c [] h = rw h
unfold-lf c (d ∷ s) h = rw h

unfold-break :
    (c : ℕ) (s : Text)
    → is_blank c ≡ false
    → unfold_body (13 ∷ 10 ∷ c ∷ s) ≡ 13 ∷ 10 ∷ unfold_body (c ∷ s)
unfolding unfold_body
unfold-break c s h = rw h (ap (λ t. 13 ∷ t) (unfold-lf c s h))

IsLine-NotBreak : (line : Text) → IsLine line → All NotBreak line
IsLine-NotBreak [] h = tt
IsLine-NotBreak (c ∷ s) h = h.1

unfold-next :
    (line t : Text)
    → IsLine line
    → unfold_body (13 ∷ 10 ∷ (fold_line line ++ t)) ≡ 13 ∷ 10 ∷ (line ++ unfold_body t)
unfold-next [] t h = ground (arith, h)
unfold-next (c ∷ s) t h =
    let (u, head) = fold_line-Begins c s in
    ap (λ v. unfold_body (13 ∷ 10 ∷ (v ++ t))) head
    ∙ unfold-break c (u ++ t) h.0
    ∙ ap (λ v. 13 ∷ 10 ∷ v)
        (ap (λ v. unfold_body (v ++ t)) (sym head) ∙ unfold_body-fold_line (c ∷ s) t h.1)

abbrev folded : List Text → Text
folded lines = joined_by crlf (map fold_line lines)

following_lem :
    (line : Text) (lines : List Text)
    → IsLine line
    → All IsLine lines
    → unfold_body (13 ∷ 10 ∷ (folded (line ∷ lines) ++ crlf))
      ≡ 13 ∷ 10 ∷ (joined_by crlf (line ∷ lines) ++ crlf)
unfolding joined_by
following_lem line [] h k =
    unfold-next line crlf h ∙ ap (λ v. 13 ∷ 10 ∷ (line ++ v)) (unfold unfold_body in refl)
following_lem line (next ∷ lines) h k =
    ap (λ v. unfold_body (13 ∷ 10 ∷ v))
      (append_assoc (fold_line line) (13 ∷ 10 ∷ folded (next ∷ lines)) crlf)
    ∙ unfold-next line (13 ∷ 10 ∷ (folded (next ∷ lines) ++ crlf)) h
    ∙ ap (λ v. 13 ∷ 10 ∷ v)
        (ap (λ v. line ++ v) (following_lem next lines k.0 k.1)
          ∙ sym (append_assoc line (13 ∷ 10 ∷ joined_by crlf (next ∷ lines)) crlf))

-- A file of lines, each without breaks and with no blank at its beginning, each folded and each ended by
-- CRLF, unfolds to the file of the lines.
pub unfold_body-fold :
    (line : Text) (lines : List Text)
    → IsLine line
    → All IsLine lines
    → unfold_body (joined_by crlf (map fold_line (line ∷ lines)) ++ crlf)
      ≡ joined_by crlf (line ∷ lines) ++ crlf
unfolding joined_by
unfold_body-fold line [] h k =
    unfold_body-fold_line line crlf (IsLine-NotBreak line h)
    ∙ ap (λ v. line ++ v) (unfold unfold_body in refl)
unfold_body-fold line (next ∷ lines) h k =
    ap unfold_body (append_assoc (fold_line line) (13 ∷ 10 ∷ folded (next ∷ lines)) crlf)
    ∙ unfold_body-fold_line line (13 ∷ 10 ∷ (folded (next ∷ lines) ++ crlf))
        (IsLine-NotBreak line h)
    ∙ ap (λ v. line ++ v) (following_lem next lines k.0 k.1)
    ∙ sym (append_assoc line (13 ∷ 10 ∷ joined_by crlf (next ∷ lines)) crlf)
