-- ===== src/Vcard.antt =====
-- packages/platform-carddav/src/vcard.ts: the values of contact files, and their parts.
pub mod Stages
pub mod Values
pub mod Parts
mod Tests
use sockethub.Base.{
  ℕ, Bool, true, false, ◌&&◌, ◌||◌, not, List, [], ◌∷◌, ◌++◌, Option, none, some, if◌then◌else◌,
  Text, nat_eq, ◌==◌,
}
use sockethub.Escapes.{is, replace_all, unix, decode}

-- The loop of `splitEscaped`.
unfoldable pub split_escaped : ℕ → Text → Bool → Text → List Text
split_escaped separator current escaped [] = current ∷ []
split_escaped separator current escaped (c ∷ s) =
    let ended = split_escaped separator [] escaped s in
    let longer = split_escaped separator (current ++ c ∷ []) (not escaped && c == 92) s in
    if not escaped && c == separator then current ∷ ended else longer

-- The letters of the four replacements of `unescapeText`.
abbrev pub feed_letter : ℕ → Option ℕ
feed_letter c = if c == b'n' || c == b'N' then some 10 else none

abbrev pub itself : ℕ → ℕ → Option ℕ
itself d c = if c == d then some d else none

unfoldable pub unescape_text : Text → Text
unescape_text value =
    decode 92 (itself 92)
      (decode 92 (itself b';') (decode 92 (itself b',') (decode 92 feed_letter value)))

unfoldable pub escape_text : Text → Text
escape_text value = replace_all (is b',') (92 ∷ b',' ∷ []) (
    replace_all (is b';') (92 ∷ b';' ∷ [])
      (replace_all (is 10) (92 ∷ b'n' ∷ []) (replace_all (is 92) (92 ∷ 92 ∷ []) (unix value))))
