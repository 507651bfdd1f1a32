-- ===== src/Ical/Content.antt =====
-- packages/platform-caldav/src/ical.ts: content lines, `NAME;KEY=value;KEY="value":value`, and the line of
-- a person. `upper` and `lower` are `toUpperCase` and
-- `toLowerCase`.
use sockethub.Base.{
  ℕ, ◌+◌, Bool, true, false, ◌&&◌, ◌||◌, not, List, [], ◌∷◌, ◌++◌, Option, none, some, or_else,
  if◌then◌else◌, Text, codes, nat_eq, text_eq, ◌==◌, leb, ◌⊎◌, inl, inr,
}
use sockethub.Base.Table.{Table, get, set}
use sockethub.Ical.{encode_parameter, decode_parameter, content_line_value, joined_by}

-- Whether a quoted value is open after a character.
abbrev pub toggled : ℕ → Bool → Bool
toggled c q = if c == b'"' then not q else q

-- The loop of `splitOutsideQuotes`; `current` is the part from `start`.
unfoldable pub split_from : ℕ → Bool → Text → Text → List Text
split_from separator q current [] = current ∷ []
split_from separator q current (c ∷ s) =
    let ended = split_from separator (toggled c q) [] s in
    let longer = split_from separator (toggled c q) (current ++ c ∷ []) s in
    if not (toggled c q) && c == separator then current ∷ ended else longer

unfoldable pub split_outside_quotes : Text → ℕ → List Text
split_outside_quotes value separator = split_from separator false [] value

-- The text before the first colon outside quotes, and the text after it.
unfoldable pub find_colon : Bool → Text → Text → Option (Text × Text)
find_colon q before [] = none
find_colon q before (c ∷ s) =
    let later = find_colon (toggled c q) (before ++ c ∷ []) s in
    if not (toggled c q) && c == b':' then some (before, s) else later

-- The text before the first `=`, and the text after it.
unfoldable pub split_equals : Text → Text → Option (Text × Text)
split_equals before [] = none
split_equals before (c ∷ s) =
    let later = split_equals (before ++ c ∷ []) s in if c == b'=' then some (before, s) else later

pub record ContentLine : Type 0 where
  pub name : Text
  pub params : Table Text Text
  pub value : Text

pub record Person : Type 0 where
  pub email : Text
  pub name : Option Text
  pub role : Option Text
  pub status : Option Text
  pub rsvp : Option Bool

abbrev pub and_then_line {ℓ} : {A B : Type ℓ} → Text ⊎ A → (A → Text ⊎ B) → Text ⊎ B
and_then_line (inl error) f = inl error
and_then_line (inr a) f = f a

-- `value.replace(/^mailto:/i, "")`: the prefix is in small letters, the value in either case.
unfoldable pub without_prefix : Text → Text → Option Text
without_prefix [] s = some s
without_prefix (c ∷ p) [] = none
without_prefix (c ∷ p) (d ∷ s) =
    let rest = without_prefix p s in
    if d == c || ((leb 65 d && leb d 90) && (d + 32) == c) then rest else none

unfoldable pub without_mailto : Text → Text
without_mailto value = or_else (without_prefix (codes "mailto:") value) value

abbrev pub rsvp_text : Bool → Text
rsvp_text true = codes "TRUE"
rsvp_text false = codes "FALSE"

abbrev pub rsvp_param : Option Bool → List Text
rsvp_param none = []
rsvp_param (some b) = (codes "RSVP=" ++ rsvp_text b) ∷ []

abbrev pub with_params : List Text → Text
with_params [] = []
with_params (p ∷ ps) = b';' ∷ joined_by (b';' ∷ []) (p ∷ ps)

abbrev pub person_name : Bool → Text
person_name true = codes "ATTENDEE"
person_name false = codes "ORGANIZER"

abbrev pub name_param : Option Text → List Text
name_param none = []
name_param (some []) = []
name_param (some (c ∷ s)) = (codes "CN=" ++ encode_parameter (c ∷ s)) ∷ []

abbrev pub named : Option Text → Option Text
named none = none
named (some []) = none
named (some (c ∷ s)) = some (c ∷ s)

abbrev pub replied : Option Text → Option Bool
replied none = none
replied (some []) = none
replied (some (c ∷ s)) = some ((c ∷ s) == codes "TRUE")

module _ (upper lower : Text → Text) where
  abbrev add_found : Option (Text × Text) → Table Text Text → Table Text Text
  add_found none params = params
  add_found (some ([], value)) params = params
  add_found (some (c ∷ key, value)) params = set (upper (c ∷ key)) (decode_parameter value) params

  unfoldable pub add_param : Text → Table Text Text → Table Text Text
  add_param raw params = add_found (split_equals [] raw) params

  unfoldable pub add_params : List Text → Table Text Text → Table Text Text
  add_params [] params = params
  add_params (raw ∷ raws) params = add_params raws (add_param raw params)

  abbrev pub content_of : List Text → Text → Option ContentLine
  content_of [] value = none
  content_of (name ∷ raws) value =
      some (record { name = upper name; params = add_params raws []; value = value })

  abbrev pub content_at : Option (Text × Text) → Option ContentLine
  content_at none = none
  content_at (some ([], value)) = none
  content_at (some (c ∷ head, value)) = content_of (split_outside_quotes (c ∷ head) b';') value

  unfoldable pub parse_content_line : Text → Option ContentLine
  parse_content_line line = content_at (find_colon false [] line)

  abbrev pub given_param : Text → Option Text → List Text
  given_param key none = []
  given_param key (some []) = []
  given_param key (some (c ∷ s)) = (key ++ (b'=' ∷ upper (c ∷ s))) ∷ []

  unfoldable pub person_params : Bool → Person → List Text
  person_params attendee p =
      name_param p.name
      ++ (if attendee
          then given_param (codes "ROLE") p.role
            ++ (given_param (codes "PARTSTAT") p.status ++ rsvp_param p.rsvp)
          else [])

  abbrev pub person_text : Bool → Person → Text → Text
  person_text attendee p email =
      person_name attendee
      ++ (with_params (person_params attendee p) ++ (codes ":mailto:" ++ email))

  -- `inl` is an exception.
  unfoldable pub person_line : Bool → Person → Text ⊎ Text
  person_line attendee p =
      and_then_line (content_line_value p.email (lower (person_name attendee) ++ codes ".email"))
        (λ email. inr (person_text attendee p email))

  abbrev pub lowered : Option Text → Option Text
  lowered none = none
  lowered (some []) = none
  lowered (some (c ∷ s)) = some (lower (c ∷ s))

  unfoldable pub parse_person : ContentLine → Person
  parse_person content = record {
    email = without_mailto content.value;
    name = named (get (codes "CN") content.params);
    role = lowered (get (codes "ROLE") content.params);
    status = lowered (get (codes "PARTSTAT") content.params);
    rsvp = replied (get (codes "RSVP") content.params);
  }
