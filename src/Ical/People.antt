-- ===== src/Ical/People.antt =====
-- packages/platform-caldav/src/ical.ts: the line of an organizer or an attendee is read back.
use mathlib.Core.List.{append_assoc}
use sockethub.Base.{
  ℕ, ◌≡◌, refl, sym, ap, ◌∙◌, Bool, true, false, List, [], ◌∷◌, ◌++◌, Option, none, some, Text,
  codes, nat_eq, text_eq, text_beq, inr, arith, All, any, map, ltb,
}
use sockethub.Base.Table.{get}
use sockethub.Escapes.{ascii_upper, is_break}
use sockethub.Escapes.Laws.{unix-cons, NotBreak, All-append}
use sockethub.Ical.{encode_parameter, content_line_value}
use sockethub.Ical.Scan.{find_colon-Skips, Passes, split-with_params, with_params-colon}
use sockethub.Ical.Content.{
  ContentLine, Person, split_outside_quotes, find_colon, add_params, content_of, parse_content_line,
  given_param, name_param, rsvp_param, person_params, with_params, person_name, person_text,
  person_line, without_prefix, without_mailto, lowered, named, replied, parse_person, content_at,
}
use sockethub.Ical.Words.{word_char, literal_lem, word-Passes, param-Passes, encode-Passes}
use sockethub.Ical.Entries.{
  raised, table_of, set_given, or_old, unified, kept, IsWordOption, get_cn, get_role, get_status,
  get_reply, attendee-table, organizer-table, key_lem, same_key, other_key, rsvp_option,
}

module _ (upper lower : Text → Text)
    (upper-ascii : (s : Text) → All (λ c. ltb c 128 ≡ true) s → upper s ≡ map ascii_upper s) where
  name-Passes : (o : Option Text) → All Passes (name_param o)
  name-Passes none = tt
  name-Passes (some []) = tt
  name-Passes (some (c ∷ s)) = (
    param-Passes (codes "CN") (encode_parameter (c ∷ s)) (literal_lem (codes "CN") refl)
        (encode-Passes (c ∷ s)),
    tt,
  )

  given-Passes :
      (key : Text) (o : Option Text)
      → any word_char key ≡ false
      → IsWordOption upper lower o
      → All Passes (given_param upper lower key o)
  given-Passes key none w h = tt
  given-Passes key (some []) w h = tt
  given-Passes key (some (c ∷ s)) w h =
      (param-Passes key (upper (c ∷ s)) (literal_lem key w) (word-Passes (upper (c ∷ s)) h.2), tt)

  rsvp-Passes : (o : Option Bool) → All Passes (rsvp_param o)
  rsvp-Passes none = tt
  rsvp-Passes (some true) = (word_lem, tt)
    where
      word_lem : Passes (codes "RSVP=TRUE")
      word_lem =
          param-Passes (codes "RSVP") (codes "TRUE") (literal_lem (codes "RSVP") refl)
            (word-Passes (codes "TRUE") (literal_lem (codes "TRUE") refl))
  rsvp-Passes (some false) = (word_lem, tt)
    where
      word_lem : Passes (codes "RSVP=FALSE")
      word_lem =
          param-Passes (codes "RSVP") (codes "FALSE") (literal_lem (codes "RSVP") refl)
            (word-Passes (codes "FALSE") (literal_lem (codes "FALSE") refl))

  params-Passes :
      (attendee : Bool) (p : Person)
      → IsWordOption upper lower p.role
      → IsWordOption upper lower p.status
      → All Passes (person_params upper lower attendee p)
  unfolding person_params
  params-Passes false p r s = All-append Passes (name_param p.name) [] (name-Passes p.name) tt
  params-Passes true p r s = All-append Passes (name_param p.name) _ (name-Passes p.name) (
      All-append Passes (given_param upper lower (codes "ROLE") p.role) _
        (given-Passes (codes "ROLE") p.role refl r)
        (All-append Passes (given_param upper lower (codes "PARTSTAT") p.status) _
          (given-Passes (codes "PARTSTAT") p.status refl s) (rsvp-Passes p.rsvp)))

  -- A written line comes apart into its name, its parameters and its value.
  parse-line :
      (c : ℕ) (name : Text) (params : List Text) (value : Text)
      → Passes (c ∷ name)
      → All Passes params
      → parse_content_line upper lower ((c ∷ name) ++ (with_params params ++ b':' ∷ value))
        ≡ some (record {
          name = upper (c ∷ name);
          params = add_params upper lower params [];
          value = value;
        })
  unfolding parse_content_line split_outside_quotes
  parse-line c name params value h k =
      ap (λ line. content_at upper lower (find_colon false [] line))
        (sym (append_assoc (c ∷ name) (with_params params) (b':' ∷ value)))
      ∙ ap (content_at upper lower) (
          find_colon-Skips false [] ((c ∷ name) ++ with_params params) value
            (with_params-colon (c ∷ name) params h k))
      ∙ ap (λ parts. content_of upper lower parts value) (split-with_params (c ∷ name) params h k)

  read_name : (o : Option Text) → named (or_old (unified (named o)) none) ≡ unified (named o)
  read_name none = refl
  read_name (some []) = refl
  read_name (some (c ∷ s)) = let (d, t, e) = unix-cons c s in rw e

  read_word :
      (o : Option Text)
      → IsWordOption upper lower o
      → lowered upper lower (or_old (raised upper lower o) none) ≡ named o
  read_word none h = refl
  read_word (some []) h = refl
  read_word (some (c ∷ s)) h = word_lem (upper (c ∷ s)) refl
    where
      word_lem :
          (t : Text) → upper (c ∷ s) ≡ t → lowered upper lower (some (upper (c ∷ s))) ≡ some (c ∷ s)
      word_lem [] e = ground (arith, e, h.1)
      word_lem (d ∷ t) e = rw e (ap some (ap lower (sym e) ∙ h.0))

  read_reply : (o : Option Bool) → replied (or_old (rsvp_option o) none) ≡ o
  unfolding text_beq
  read_reply none = refl
  read_reply (some true) = refl
  read_reply (some false) = refl

  mailto_lem : (email : Text) → without_mailto (codes "mailto:" ++ email) ≡ email
  unfolding without_mailto without_prefix
  mailto_lem email = refl

  attendee-read :
      (p : Person) (name : Text)
      → IsWordOption upper lower p.role
      → IsWordOption upper lower p.status
      → parse_person upper lower (record {
        name = name;
        params = table_of upper lower p;
        value = codes "mailto:" ++ p.email;
      })
        ≡ kept true p
  unfolding parse_person
  attendee-read p name r s = λ i. record {
    email = mailto_lem p.email i;
    name = (ap named (get_cn upper lower p) ∙ read_name p.name) i;
    role = (ap (lowered upper lower) (get_role upper lower p) ∙ read_word p.role r) i;
    status = (ap (lowered upper lower) (get_status upper lower p) ∙ read_word p.status s) i;
    rsvp = (ap replied (get_reply upper lower p) ∙ read_reply p.rsvp) i;
  }

  organizer-read :
      (p : Person) (name : Text)
      → parse_person upper lower (record {
        name = name;
        params = set_given (codes "CN") (unified (named p.name)) [];
        value = codes "mailto:" ++ p.email;
      })
        ≡ kept false p
  unfolding parse_person get text_beq
  organizer-read p name =
      let o = unified (named p.name) in
      λ i. record {
        email = mailto_lem p.email i;
        name = (ap named (same_key (codes "CN") o [] refl) ∙ read_name p.name) i;
        role = ap (lowered upper lower) (other_key (codes "CN") (codes "ROLE") o [] refl) i;
        status = ap (lowered upper lower) (other_key (codes "CN") (codes "PARTSTAT") o [] refl) i;
        rsvp = ap replied (other_key (codes "CN") (codes "RSVP") o [] refl) i;
      }

  break_lem : (email : Text) → All NotBreak email → any is_break email ≡ false
  break_lem [] h = refl
  break_lem (c ∷ s) h = rw (h.0) (break_lem s h.1)

  -- The value that a person's line carries.
  abbrev address : Person → Text
  address p = codes "mailto:" ++ p.email

  -- If capitals of an ASCII text are those of its letters: a person whose address has no line break and
  -- whose role and status are words that change of case keeps is written to a line which is read back as
  -- the person, with the line breaks of the name unified and without what is empty; an organizer keeps the
  -- name and the address alone.
  pub person_line-read :
      (attendee : Bool) (p : Person)
      → All NotBreak p.email
      → IsWordOption upper lower p.role
      → IsWordOption upper lower p.status
      → (line : Text) × (content : ContentLine) × (person_line upper lower attendee p ≡ inr line)
        × (parse_content_line upper lower line ≡ some content)
        × (content.name ≡ person_name attendee)
        × (parse_person upper lower content ≡ kept attendee p)
  unfolding person_line content_line_value
  person_line-read true p b r s = (
    person_text upper lower true p p.email,
    record {
      name = upper (codes "ATTENDEE");
      params = add_params upper lower (person_params upper lower true p) [];
      value = address p;
    },
    rw (break_lem p.email b) refl,
    parse-line b'A' (codes "TTENDEE") (person_params upper lower true p) (address p)
        (word-Passes (codes "ATTENDEE") (literal_lem (codes "ATTENDEE") refl))
        (params-Passes true p r s),
    key_lem upper lower upper-ascii (codes "ATTENDEE") refl refl,
    ap
          (λ t.
            parse_person upper lower
              (record { name = upper (codes "ATTENDEE"); params = t; value = address p }))
          (attendee-table upper lower upper-ascii p r s)
        ∙ attendee-read p (upper (codes "ATTENDEE")) r s,
  )
  person_line-read false p b r s = (
    person_text upper lower false p p.email,
    record {
      name = upper (codes "ORGANIZER");
      params = add_params upper lower (person_params upper lower false p) [];
      value = address p;
    },
    rw (break_lem p.email b) refl,
    parse-line b'O' (codes "RGANIZER") (person_params upper lower false p) (address p)
        (word-Passes (codes "ORGANIZER") (literal_lem (codes "ORGANIZER") refl))
        (params-Passes false p r s),
    key_lem upper lower upper-ascii (codes "ORGANIZER") refl refl,
    ap
          (λ t.
            parse_person upper lower
              (record { name = upper (codes "ORGANIZER"); params = t; value = address p }))
          (organizer-table upper lower upper-ascii p)
        ∙ organizer-read p (upper (codes "ORGANIZER")),
  )
