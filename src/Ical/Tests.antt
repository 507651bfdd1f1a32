-- ===== src/Ical/Tests.antt =====
-- Texts on which the theorems apply.
use sockethub.Base.{
  ℕ, ◌+◌, ◌≡◌, refl, true, false, List, [], ◌∷◌, ◌++◌, some, Text, codes, leb, All, inr, map,
  if◌then◌else◌, ◌&&◌, arith, text_eq, nat_eq,
}
use sockethub.Escapes.{unix, ascii_upper}
use sockethub.Escapes.Laws.{NotBreak}
use sockethub.Ical.{
  escape_text, unescape_text, encode_parameter, decode_parameter, fold_line, unfold_body, joined_by,
}
use sockethub.Ical.Values.{unescape_text-escape, escape_text-NotBreak}
use sockethub.Ical.Params.{decode_parameter-encode}
use sockethub.Ical.Fold.{crlf}
use sockethub.Ical.Width.{fold_line-Fits, Fits}
use sockethub.Ical.Files.{unfold_body-fold}
use sockethub.Ical.Content.{
  ContentLine, Person, parse_content_line, parse_person, person_line, person_name,
}
use sockethub.Ical.Entries.{kept}
use sockethub.Ical.People.{person_line-read}

abbrev ascii_lower : ℕ → ℕ
ascii_lower c = if leb 65 c && leb c 90 then c + 32 else c

abbrev upper : Text → Text
upper s = map ascii_upper s

abbrev lower : Text → Text
lower s = map ascii_lower s

-- A backslash before the letter n, a comma, a semicolon and a Windows line break.
abbrev note : Text
note = 92 ∷ codes "n, one; two" ++ 13 ∷ 10 ∷ codes "three"

unescape_text-escape_example : unescape_text (escape_text note) ≡ unix note
unescape_text-escape_example = unescape_text-escape note

escape_text-NotBreak_example : All NotBreak (escape_text note)
escape_text-NotBreak_example = escape_text-NotBreak note

-- A caret, quotes, a colon and a line break.
abbrev nickname : Text
nickname = codes "a^n: " ++ b'"' ∷ 10 ∷ b'"' ∷ []

decode_parameter-encode_example : decode_parameter (encode_parameter nickname) ≡ unix nickname
decode_parameter-encode_example = decode_parameter-encode nickname

-- 88 characters, one of which takes three bytes.
abbrev long_line : Text
long_line =
    codes "DESCRIPTION:a line that is longer than seventy five bytes when it is written "
    ++ 8364 ∷ codes " and goes on"

fold_line-Fits_example :
    (lines : List Text) × (fold_line long_line ≡ joined_by crlf lines) × All (Fits 75) lines
fold_line-Fits_example = fold_line-Fits long_line (ground arith)

unfold_body-fold_example :
    unfold_body (joined_by crlf (map fold_line (codes "BEGIN:VEVENT" ∷ long_line ∷ [])) ++ crlf)
    ≡ joined_by crlf (codes "BEGIN:VEVENT" ∷ long_line ∷ []) ++ crlf
unfold_body-fold_example =
    unfold_body-fold (codes "BEGIN:VEVENT") (long_line ∷ []) (ground arith) (ground arith)

abbrev guest : Person
guest = record {
  email = codes "joe@example.org";
  name = some (codes "Joe; \"the\" Doe");
  role = some (codes "chair");
  status = some (codes "needs-action");
  rsvp = some false;
}

person_line-read_example :
    (line : Text) × (content : ContentLine) × (person_line upper lower true guest ≡ inr line)
    × (parse_content_line upper lower line ≡ some content)
    × (content.name ≡ person_name true)
    × (parse_person upper lower content ≡ kept true guest)
person_line-read_example =
    person_line-read upper lower (λ s h. refl) true guest (ground arith) (ground arith)
      (ground arith)
