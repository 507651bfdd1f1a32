-- ===== src/Ical/Entries.antt =====
-- packages/platform-caldav/src/ical.ts: the parameters of a person's line, as `addParam` reads them.
use mathlib.Core.List.{append-nil}
use sockethub.Base.{
  ℕ, ◌≡◌, refl, ap, ◌∙◌, Bool, true, false, List, [], ◌∷◌, ◌++◌, Option, none, some, if◌then◌else◌,
  Text, codes, nat_eq, text_eq, text_beq, ◌==◌, All, any, map, ltb, leb, if_cases,
}
use sockethub.Base.Table.{Table, get, set, get-set}
use sockethub.Identity.{truthy}
use sockethub.Escapes.{unix, ascii_upper}
use sockethub.Ical.{encode_parameter, decode_parameter}
use sockethub.Ical.Params.{decode_parameter-encode}
use sockethub.Ical.Content.{
  Person, add_param, add_params, given_param, name_param, rsvp_text, rsvp_param, person_params,
  named,
}
use sockethub.Ical.Words.{
  word_char, IsWordChar, literal_lem, ascii_lem, split_equals-word, decode_parameter-word,
}

-- A parameter that may be absent.
abbrev pub set_given : Text → Option Text → Table Text Text → Table Text Text
set_given key none t = t
set_given key (some v) t = set key v t

abbrev pub or_old : Option Text → Option Text → Option Text
or_old none o = o
or_old (some v) o = some v

get-set_given :
    (key k : Text) (o : Option Text) (t : Table Text Text)
    → get k (set_given key o t) ≡ (if key == k then or_old o (get k t) else get k t)
get-set_given key k none t = if_cases (λ x. get k t ≡ x) (key == k) (λ _. refl) (λ _. refl)
get-set_given key k (some v) t = get-set key k v t

pub same_key :
    (key : Text) (o : Option Text) (t : Table Text Text)
    → (key == key) ≡ true
    → get key (set_given key o t) ≡ or_old o (get key t)
same_key key o t e = rw (get-set_given key key o t, e) refl

pub other_key :
    (key k : Text) (o : Option Text) (t : Table Text Text)
    → (key == k) ≡ false
    → get k (set_given key o t) ≡ get k t
other_key key k o t e = rw (get-set_given key k o t, e) refl

abbrev pub unified : Option Text → Option Text
unified none = none
unified (some s) = some (unix s)

abbrev pub rsvp_option : Option Bool → Option Text
rsvp_option none = none
rsvp_option (some b) = some (rsvp_text b)

-- What stays of an attendee: the name with unified breaks, and no name, role or status that is empty.
abbrev pub kept : Bool → Person → Person
kept attendee p = record {
  email = p.email;
  name = unified (named p.name);
  role = if attendee then named p.role else none;
  status = if attendee then named p.status else none;
  rsvp = if attendee then p.rsvp else none;
}

module _ (upper lower : Text → Text) where
  -- A name that `upper` and `lower` take there and back, with nothing in it that needs quotes.
  abbrev IsWord : Text → Type 0
  IsWord t = (lower (upper t) ≡ t) × (truthy (upper t) ≡ true) × All IsWordChar (upper t)

  abbrev pub IsWordOption : Option Text → Type 0
  IsWordOption none = Unit
  IsWordOption (some t) = IsWord t

  abbrev pub raised : Option Text → Option Text
  raised none = none
  raised (some []) = none
  raised (some (c ∷ s)) = some (upper (c ∷ s))

  -- The table that the parameters of an attendee give.
  abbrev pub table_of : Person → Table Text Text
  table_of p = set_given (codes "RSVP") (rsvp_option p.rsvp) (
      set_given (codes "PARTSTAT") (raised p.status) (
        set_given (codes "ROLE") (raised p.role)
          (set_given (codes "CN") (unified (named p.name)) [])))

  pub get_cn : (p : Person) → get (codes "CN") (table_of p) ≡ or_old (unified (named p.name)) none
  unfolding get text_beq
  get_cn p =
      let t1 = set_given (codes "CN") (unified (named p.name)) [] in
      let t2 = set_given (codes "ROLE") (raised p.role) t1 in
      let t3 = set_given (codes "PARTSTAT") (raised p.status) t2 in
      other_key (codes "RSVP") (codes "CN") (rsvp_option p.rsvp) t3 refl
      ∙ other_key (codes "PARTSTAT") (codes "CN") (raised p.status) t2 refl
      ∙ other_key (codes "ROLE") (codes "CN") (raised p.role) t1 refl
      ∙ same_key (codes "CN") (unified (named p.name)) [] refl

  pub get_role : (p : Person) → get (codes "ROLE") (table_of p) ≡ or_old (raised p.role) none
  unfolding get text_beq
  get_role p =
      let t1 = set_given (codes "CN") (unified (named p.name)) [] in
      let t2 = set_given (codes "ROLE") (raised p.role) t1 in
      let t3 = set_given (codes "PARTSTAT") (raised p.status) t2 in
      other_key (codes "RSVP") (codes "ROLE") (rsvp_option p.rsvp) t3 refl
      ∙ other_key (codes "PARTSTAT") (codes "ROLE") (raised p.status) t2 refl
      ∙ same_key (codes "ROLE") (raised p.role) t1 refl
      ∙ ap (or_old (raised p.role))
          (other_key (codes "CN") (codes "ROLE") (unified (named p.name)) [] refl)

  pub get_status :
      (p : Person) → get (codes "PARTSTAT") (table_of p) ≡ or_old (raised p.status) none
  unfolding get text_beq
  get_status p =
      let t1 = set_given (codes "CN") (unified (named p.name)) [] in
      let t2 = set_given (codes "ROLE") (raised p.role) t1 in
      let t3 = set_given (codes "PARTSTAT") (raised p.status) t2 in
      other_key (codes "RSVP") (codes "PARTSTAT") (rsvp_option p.rsvp) t3 refl
      ∙ same_key (codes "PARTSTAT") (raised p.status) t2 refl
      ∙ ap (or_old (raised p.status)) (
          other_key (codes "ROLE") (codes "PARTSTAT") (raised p.role) t1 refl
          ∙ other_key (codes "CN") (codes "PARTSTAT") (unified (named p.name)) [] refl)

  pub get_reply : (p : Person) → get (codes "RSVP") (table_of p) ≡ or_old (rsvp_option p.rsvp) none
  unfolding get text_beq
  get_reply p =
      let t1 = set_given (codes "CN") (unified (named p.name)) [] in
      let t2 = set_given (codes "ROLE") (raised p.role) t1 in
      let t3 = set_given (codes "PARTSTAT") (raised p.status) t2 in
      same_key (codes "RSVP") (rsvp_option p.rsvp) t3 refl
      ∙ ap (or_old (rsvp_option p.rsvp)) (
          other_key (codes "PARTSTAT") (codes "RSVP") (raised p.status) t2 refl
          ∙ other_key (codes "ROLE") (codes "RSVP") (raised p.role) t1 refl
          ∙ other_key (codes "CN") (codes "RSVP") (unified (named p.name)) [] refl)

module _ (upper lower : Text → Text)
    (upper-ascii : (s : Text) → All (λ c. ltb c 128 ≡ true) s → upper s ≡ map ascii_upper s) where
  add_param-word :
      (c : ℕ) (key value : Text) (t : Table Text Text)
      → All IsWordChar (c ∷ key)
      → upper (c ∷ key) ≡ c ∷ key
      → add_param upper lower ((c ∷ key) ++ b'=' ∷ value) t
        ≡ set (c ∷ key) (decode_parameter value) t
  unfolding add_param
  add_param-word c key value t h u = rw (split_equals-word [] (c ∷ key) value h, u)

  add_params-append :
      (ps qs : List Text) (t : Table Text Text)
      → add_params upper lower (ps ++ qs) t
        ≡ add_params upper lower qs (add_params upper lower ps t)
  unfolding add_params
  add_params-append [] qs t = refl
  add_params-append (p ∷ ps) qs t = add_params-append ps qs (add_param upper lower p t)

  -- The keys that are written are in capitals.
  pub key_lem :
      (key : Text) → any (λ c. leb 128 c) key ≡ false → map ascii_upper key ≡ key → upper key ≡ key
  key_lem key a u = upper-ascii key (ascii_lem key a) ∙ u

  add_one :
      (c : ℕ) (key value : Text) (t : Table Text Text)
      → any word_char (c ∷ key) ≡ false
      → any (λ d. leb 128 d) (c ∷ key) ≡ false
      → map ascii_upper (c ∷ key) ≡ c ∷ key
      → add_params upper lower (((c ∷ key) ++ b'=' ∷ value) ∷ []) t
        ≡ set (c ∷ key) (decode_parameter value) t
  unfolding add_params
  add_one c key value t w a u =
      add_param-word c key value t (literal_lem (c ∷ key) w) (key_lem (c ∷ key) a u)

  name-lem :
      (o : Option Text) (t : Table Text Text)
      → add_params upper lower (name_param o) t ≡ set_given (codes "CN") (unified (named o)) t
  name-lem none t = unfold add_params in refl
  name-lem (some []) t = unfold add_params in refl
  name-lem (some (c ∷ s)) t =
      add_one b'C' (b'N' ∷ []) (encode_parameter (c ∷ s)) t refl refl refl
      ∙ ap (λ v. set (codes "CN") v t) (decode_parameter-encode (c ∷ s))

  given-lem :
      (c : ℕ) (key : Text) (o : Option Text) (t : Table Text Text)
      → any word_char (c ∷ key) ≡ false
      → any (λ d. leb 128 d) (c ∷ key) ≡ false
      → map ascii_upper (c ∷ key) ≡ c ∷ key
      → IsWordOption upper lower o
      → add_params upper lower (given_param upper lower (c ∷ key) o) t
        ≡ set_given (c ∷ key) (raised upper lower o) t
  given-lem c key none t w a u h = unfold add_params in refl
  given-lem c key (some []) t w a u h = unfold add_params in refl
  given-lem c key (some (d ∷ s)) t w a u h =
      add_one c key (upper (d ∷ s)) t w a u
      ∙ ap (λ v. set (c ∷ key) v t) (decode_parameter-word (upper (d ∷ s)) h.2)

  rsvp-lem :
      (o : Option Bool) (t : Table Text Text)
      → add_params upper lower (rsvp_param o) t ≡ set_given (codes "RSVP") (rsvp_option o) t
  rsvp-lem none t = unfold add_params in refl
  rsvp-lem (some true) t =
      add_one b'R' (codes "SVP") (codes "TRUE") t refl refl refl
      ∙ ap (λ v. set (codes "RSVP") v t)
          (decode_parameter-word (codes "TRUE") (literal_lem (codes "TRUE") refl))
  rsvp-lem (some false) t =
      add_one b'R' (codes "SVP") (codes "FALSE") t refl refl refl
      ∙ ap (λ v. set (codes "RSVP") v t)
          (decode_parameter-word (codes "FALSE") (literal_lem (codes "FALSE") refl))

  pub attendee-table :
      (p : Person)
      → IsWordOption upper lower p.role
      → IsWordOption upper lower p.status
      → add_params upper lower (person_params upper lower true p) [] ≡ table_of upper lower p
  unfolding person_params
  attendee-table p r s =
      let named_one = set_given (codes "CN") (unified (named p.name)) [] in
      let with_role = set_given (codes "ROLE") (raised upper lower p.role) named_one in
      let with_status = set_given (codes "PARTSTAT") (raised upper lower p.status) with_role in
      let roles = given_param upper lower (codes "ROLE") p.role in
      let states = given_param upper lower (codes "PARTSTAT") p.status in
      let replies = rsvp_param p.rsvp in
      add_params-append (name_param p.name) (roles ++ (states ++ replies)) []
      ∙ ap (add_params upper lower (roles ++ (states ++ replies))) (name-lem p.name [])
      ∙ add_params-append roles (states ++ replies) named_one
      ∙ ap (add_params upper lower (states ++ replies))
          (given-lem b'R' (codes "OLE") p.role named_one refl refl refl r)
      ∙ add_params-append states replies with_role
      ∙ ap (add_params upper lower replies)
          (given-lem b'P' (codes "ARTSTAT") p.status with_role refl refl refl s)
      ∙ rsvp-lem p.rsvp with_status

  pub organizer-table :
      (p : Person)
      → add_params upper lower (person_params upper lower false p) []
        ≡ set_given (codes "CN") (unified (named p.name)) []
  unfolding person_params
  organizer-table p =
      ap (λ ps. add_params upper lower ps []) (append-nil (name_param p.name)) ∙ name-lem p.name []
