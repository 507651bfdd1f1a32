-- ===== src/Escapes.antt =====
-- JavaScript's text operations that the calendar and contact formats are written with, and the laws of
-- codes that put an escape character before some letters.
pub mod Laws
use sockethub.Base.{
  ℕ, ◌+◌, ◌-◌, Bool, true, false, ◌&&◌, ◌||◌, List, [], ◌∷◌, ◌++◌, Option, none, some,
  if◌then◌else◌, Text, nat_eq, ◌==◌, ltb, leb, map,
}

-- Each character becomes a text.
unfoldable pub flat : (ℕ → Text) → Text → Text
flat k [] = []
flat k (c ∷ s) = k c ++ flat k s

abbrev pub replacing : (ℕ → Bool) → Text → ℕ → Text
replacing p with_ c = if p c then with_ else c ∷ []

-- `s.replaceAll(pattern, with)`, for the characters that have `p`.
unfoldable pub replace_all : (ℕ → Bool) → Text → Text → Text
replace_all p with_ s = flat (replacing p with_) s

abbrev pub is : ℕ → ℕ → Bool
is c d = d == c

abbrev pub is_break : ℕ → Bool
is_break d = d == 13 || d == 10

-- `s.replaceAll("\r\n", with)`.
unfoldable pub replace_crlf : Text → Text → Text
replace_crlf with_ [] = []
replace_crlf with_ (c ∷ []) = c ∷ []
replace_crlf with_ (c ∷ d ∷ s) =
    let after = replace_crlf with_ s in
    let later = replace_crlf with_ (d ∷ s) in
    if c == 13 && d == 10 then with_ ++ after else c ∷ later

-- The text with every line break as one line feed.
unfoldable pub unix : Text → Text
unix s = replace_all (is 13) (10 ∷ []) (replace_crlf (10 ∷ []) s)

-- A replacement of `e` and one character after it, in one pass, for the characters in the table.
unfoldable pub decode : ℕ → (ℕ → Option ℕ) → Text → Text
decode e table [] = []
decode e table (c ∷ []) = c ∷ []
decode e table (c ∷ d ∷ s) =
    let after = decode e table s in
    let later = decode e table (d ∷ s) in
    if c == e then elim (table d) [ none ↦ c ∷ later | some x ↦ x ∷ after ] else c ∷ later

-- `toUpperCase` and `toLowerCase` of ASCII letters.
abbrev pub ascii_upper : ℕ → ℕ
ascii_upper c = if leb 97 c && leb c 122 then c - 32 else c
