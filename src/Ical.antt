-- ===== src/Ical.antt =====
-- packages/platform-caldav/src/ical.ts: the text of calendar files. Values of properties and of
-- parameters, content lines and their folding. `upper` and `lower` are `toUpperCase` and
-- `toLowerCase`, which are the runtime's.
pub mod Values
pub mod Params
pub mod Fold
pub mod Width
pub mod Files
pub mod Content
pub mod Scan
pub mod Words
pub mod Entries
pub mod People
mod Tests
use sockethub.Base.{
  ℕ, suc, ◌+◌, ◌-◌, Bool, true, false, ◌&&◌, ◌||◌, not, List, [], ◌∷◌, ◌++◌, Option, none, some,
  if◌then◌else◌, Text, codes, nat_eq, text_eq, ◌==◌, ltb, leb, any, ◌⊎◌, inl, inr,
}
use sockethub.Base.Table.{Table, get, set}
use sockethub.Identity.{truthy}
use sockethub.Escapes.{is, is_break, replace_all, replace_crlf, decode}

unfoldable pub escape_text : Text → Text
escape_text value = replace_all (is b',') (92 ∷ b',' ∷ []) (
    replace_all (is b';') (92 ∷ b';' ∷ []) (
      replace_all (is 13) (92 ∷ b'n' ∷ []) (
        replace_all (is 10) (92 ∷ b'n' ∷ [])
          (replace_crlf (92 ∷ b'n' ∷ []) (replace_all (is 92) (92 ∷ 92 ∷ []) value)))))

abbrev pub text_character : ℕ → Option ℕ
text_character c =
    if c == b'n' || c == b'N'
    then some 10
    else if c == b',' || (c == b';' || c == 92)
    then some c
    else none

unfoldable pub unescape_text : Text → Text
unescape_text value = decode 92 text_character value

-- The class `\s`.
abbrev pub is_space : ℕ → Bool
is_space c =
    (leb 9 c && leb c 13)
    || (c == 32
        || (c == 160
            || (c == 5760
                || ((leb 8192 c && leb c 8202)
                    || (c == 8232
                        || (c == 8233
                            || (c == 8239 || (c == 8287 || (c == 12288 || c == 65279)))))))))

abbrev pub needs_quotes : ℕ → Bool
needs_quotes c = c == b',' || (c == b':' || (c == b';' || is_space c))

unfoldable pub caret_text : Text → Text
caret_text value = replace_all (is b'"') (b'^' ∷ 39 ∷ []) (
    replace_all is_break (b'^' ∷ b'n' ∷ [])
      (replace_crlf (b'^' ∷ b'n' ∷ []) (replace_all (is b'^') (b'^' ∷ b'^' ∷ []) value)))

abbrev pub quoted : Text → Text
quoted s = b'"' ∷ (s ++ b'"' ∷ [])

unfoldable pub encode_parameter : Text → Text
encode_parameter value =
    let encoded = caret_text value in if any needs_quotes encoded then quoted encoded else encoded

abbrev pub caret_character : ℕ → Option ℕ
caret_character c =
    if c == b'^'
    then some b'^'
    else if c == 39
    then some b'"'
    else if c == b'n' || c == b'N'
    then some 10
    else none

unfoldable pub without_last : Text → Text
without_last [] = []
without_last (c ∷ []) = []
without_last (c ∷ d ∷ s) = c ∷ without_last (d ∷ s)

unfoldable pub ends_with_quote : Text → Bool
ends_with_quote [] = false
ends_with_quote (c ∷ []) = c == b'"'
ends_with_quote (c ∷ d ∷ s) = ends_with_quote (d ∷ s)

-- `slice(1, -1)` of a text that starts and ends with a quote.
unfoldable pub unquoted : Text → Text
unquoted [] = []
unquoted (c ∷ s) = if c == b'"' && ends_with_quote (c ∷ s) then without_last s else c ∷ s

unfoldable pub decode_parameter : Text → Text
decode_parameter value = decode b'^' caret_character (unquoted value)

-- `inl` is an exception.
unfoldable pub content_line_value : Text → Text → Text ⊎ Text
content_line_value value field =
    if any is_break value then inl (codes "invalid " ++ field) else inr value

-- The bytes of a code point in UTF-8.
abbrev pub utf8_length : ℕ → ℕ
utf8_length c = if ltb c 128 then 1 else if ltb c 2048 then 2 else if ltb c 65536 then 3 else 4

unfoldable pub byte_length : Text → ℕ
byte_length [] = 0
byte_length (c ∷ s) = utf8_length c + byte_length s

-- The loop of `foldLine`, with the physical lines before `current` in the result.
unfoldable pub fold_from : Text → ℕ → Text → List Text
fold_from current limit [] = current ∷ []
fold_from current limit (c ∷ s) =
    let broken = fold_from (c ∷ []) 74 s in
    let longer = fold_from (current ++ c ∷ []) limit s in
    if ltb limit (byte_length (current ++ c ∷ [])) && truthy current
    then current ∷ broken
    else longer

unfoldable pub joined_by : Text → List Text → Text
joined_by separator [] = []
joined_by separator (s ∷ []) = s
joined_by separator (s ∷ t ∷ ts) = s ++ (separator ++ joined_by separator (t ∷ ts))

unfoldable pub fold_line : Text → Text
fold_line line = joined_by (13 ∷ 10 ∷ 32 ∷ []) (fold_from [] 75 line)

abbrev pub is_blank : ℕ → Bool
is_blank c = c == 32 || c == 9

-- `body.replace(/\r?\n[ \t]/g, "")`.
unfoldable pub unfold_body : Text → Text
unfold_body [] = []
unfold_body (a ∷ []) = a ∷ []
unfold_body (a ∷ b ∷ []) = if a == 10 && is_blank b then [] else a ∷ b ∷ []
unfold_body (a ∷ b ∷ c ∷ s) =
    let after_three = unfold_body s in
    let after_two = unfold_body (c ∷ s) in
    let later = unfold_body (b ∷ c ∷ s) in
    if a == 13 && (b == 10 && is_blank c)
    then after_three
    else if a == 10 && is_blank b
    then after_two
    else a ∷ later
