-- ===== src/Vcard/Tests.antt =====
-- Texts on which the theorems apply.
use sockethub.Base.{◌≡◌, refl, ◌∙◌, false, [], ◌∷◌, ◌++◌, Text, codes, map, arith}
use sockethub.Escapes.{unix, flat, replace_all, replace_crlf}
use sockethub.Ical.{joined_by}
use sockethub.Vcard.{split_escaped, unescape_text, escape_text}
use sockethub.Vcard.Stages.{garbled}
use sockethub.Vcard.Values.{unescape_text-garbled}
use sockethub.Vcard.Parts.{split_escaped-joined}

-- A path of Windows.
abbrev path : Text
path = codes "C:" ++ 92 ∷ codes "new"

unescape_text-garbled_example : unescape_text (escape_text path) ≡ garbled (unix path)
unescape_text-garbled_example = unescape_text-garbled path

-- The letter n of the path is lost.
path_test : unescape_text (escape_text path) ≡ codes "C:" ++ 92 ∷ 10 ∷ codes "ew"
path_test = unescape_text-garbled path ∙ unfold garbled unix flat replace_all replace_crlf in refl

abbrev street : Text
street = codes "1; High, Street" ++ 13 ∷ 10 ∷ codes "2nd floor"

split_escaped-joined_example :
    map unescape_text (
      split_escaped b';' [] false
        (joined_by (b';' ∷ []) (map escape_text ([] ∷ street ∷ codes "Graz" ∷ []))))
    ≡ map unix ([] ∷ street ∷ codes "Graz" ∷ [])
unfolding unix replace_all flat replace_crlf
split_escaped-joined_example = split_escaped-joined [] (street ∷ codes "Graz" ∷ []) (ground arith)
