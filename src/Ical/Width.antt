-- ===== src/Ical/Width.antt =====
-- packages/platform-caldav/src/ical.ts: how long the lines of a folded line are.
use sockethub.Base.{ℕ, ◌+◌, ◌≤◌, ◌≡◌, refl, false, List, [], ◌∷◌, ◌++◌, Text, nat_eq, arith, All}
use sockethub.Escapes.Laws.{NotBreak, All-append}
use sockethub.Ical.{utf8_length, byte_length, fold_from, joined_by, fold_line}
use sockethub.Ical.Fold.{crlf, is_over, fold_from-cases, continued, physical, joined-physical}

byte_length-snoc : (s : Text) (c : ℕ) → byte_length (s ++ c ∷ []) ≡ byte_length s + utf8_length c
unfolding byte_length
byte_length-snoc [] c = omega arith
byte_length-snoc (d ∷ s) c = omega (arith, byte_length-snoc s c)

utf8_length-le : (c : ℕ) → utf8_length c ≤ 4
utf8_length-le c = ground arith

-- A physical line has no break in it, and 75 bytes at most.
abbrev pub Fits : ℕ → Text → Type 0
Fits n s = All NotBreak s × (byte_length s ≤ n)

abbrev FirstFits : ℕ → List Text → Type 0
FirstFits n [] = Unit
FirstFits n (s ∷ ss) = Fits n s × All (Fits 74) ss

single_lem : (limit c : ℕ) → 4 ≤ limit → byte_length (c ∷ []) ≤ limit
unfolding byte_length
single_lem limit c m = omega (arith, utf8_length-le c, m)

fits_lem :
    (current : Text) (limit c : ℕ)
    → 4 ≤ limit
    → byte_length current ≤ limit
    → is_over current limit c ≡ false
    → byte_length (current ++ c ∷ []) ≤ limit
fits_lem [] limit c m h o = single_lem limit c m
fits_lem (d ∷ s) limit c m h o = ground (arith, o)

first_lem : (ss : List Text) → FirstFits 74 ss → All (Fits 74) ss
first_lem [] h = tt
first_lem (s ∷ ss) h = h

fold_from-Fits :
    (current : Text) (limit : ℕ) (s : Text)
    → 4 ≤ limit
    → Fits limit current
    → All NotBreak s
    → FirstFits limit (fold_from current limit s)
fold_from-Fits current limit [] m h k = unfold fold_from in (h, tt)
fold_from-Fits current limit (c ∷ s) m h k =
    fold_from-cases (FirstFits limit) current limit c s
      (λ _. (
        h,
        first_lem (fold_from (c ∷ []) 74 s) (
            fold_from-Fits (c ∷ []) 74 s (omega arith) ((k.0, tt), single_lem 74 c (omega arith))
              k.1),
      ))
      (λ o.
        fold_from-Fits (current ++ c ∷ []) limit s m
          (All-append NotBreak current (c ∷ []) h.0 (k.0, tt), fits_lem current limit c m h.1 o)
          k.1)

nil_lem : byte_length [] ≤ 75
unfolding byte_length
nil_lem = omega arith

continued-Fits : (ss : List Text) → All (Fits 74) ss → All (Fits 75) (continued ss)
unfolding byte_length
continued-Fits [] h = tt
continued-Fits (s ∷ ss) h = (((refl, h.0.0), omega (arith, h.0.1)), continued-Fits ss h.1)

physical-Fits : (ss : List Text) → FirstFits 75 ss → All (Fits 75) (physical ss)
physical-Fits [] h = tt
physical-Fits (s ∷ ss) h = (h.0, continued-Fits ss h.1)

-- A line without breaks is written as lines, separated by CRLF, of 75 bytes at most in UTF-8.
pub fold_line-Fits :
    (s : Text)
    → All NotBreak s
    → (lines : List Text) × (fold_line s ≡ joined_by crlf lines) × All (Fits 75) lines
unfolding fold_line
fold_line-Fits s h =
    let chunks = fold_from [] 75 s in
    (
      physical chunks,
      joined-physical chunks,
      physical-Fits chunks (fold_from-Fits [] 75 s (omega arith) (tt, nil_lem) h),
    )
