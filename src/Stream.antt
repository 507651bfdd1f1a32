-- ===== src/Stream.antt =====
-- packages/schemas/src/activity-stream-helper.ts: the actor, the target and the object of an activity
-- stream as a client may write them, and their normal form.
use sockethub.Base.{
  Bool, true, false, List, [], ◌∷◌, ◌++◌, Option, none, some, or_else, if◌then◌else◌, Text, codes,
  map,
}
use sockethub.Identity.{truthy, given}

-- An object with the properties that the code reads; `rest` has the others, serialized.
pub record Object : Type 0 where
  pub id : Option Text
  pub kind : Option Text
  pub content : Option Text
  pub rest : Text

pub data Entry : Type 0 where
  text_entry : Text → Entry
  object_entry : Object → Entry

-- `missing` is a property that is absent or null.
pub data Ref : Type 0 where
  missing : Ref
  plain : Text → Ref
  object : Object → Ref
  array : List Entry → Ref

-- `ActivityStream` before it is checked, with an array of texts as its context.
pub record Stream : Type 0 where
  pub context : List Text
  pub id : Option Text
  pub kind : Option Text
  pub actor : Ref
  pub target : Ref
  pub content : Ref
  pub rest : Text

abbrev pub no_object : Object
no_object = record { id = none; kind = none; content = none; rest = [] }

-- What spreading a value without properties of its own gives.
abbrev pub empty_stream : Stream
empty_stream = record {
  context = [];
  id = none;
  kind = none;
  actor = missing;
  target = missing;
  content = missing;
  rest = [];
}

-- The property that a plain text becomes.
pub data PrimaryKey : Type 0 where
  id_key content_key : PrimaryKey

unfoldable pub keyed : PrimaryKey → Text → Object
keyed id_key t = record no_object { id = some t }
keyed content_key t = record no_object { content = some t }

unfoldable pub normalize_entry : Entry → Entry
normalize_entry (text_entry t) = object_entry (record no_object { id = some t })
normalize_entry (object_entry o) = object_entry o

unfoldable pub normalize_string_ref : PrimaryKey → Ref → Ref
unfolding normalize_entry keyed
normalize_string_ref key missing = missing
normalize_string_ref key (plain t) = object (keyed key t)
normalize_string_ref key (object o) = object o
normalize_string_ref key (array entries) = array (map normalize_entry entries)

unfoldable pub normalize_activity_stream : Stream → Stream
unfolding normalize_string_ref
normalize_activity_stream meta = record meta {
  actor = normalize_string_ref id_key meta.actor;
  target = normalize_string_ref id_key meta.target;
  content = normalize_string_ref content_key meta.content;
}

-- The truth value of a property.
abbrev pub is_given : Ref → Bool
is_given missing = false
is_given (plain t) = truthy t
is_given (object o) = true
is_given (array entries) = true

abbrev pub entry_text : Entry → Text
entry_text (text_entry t) = t
entry_text (object_entry o) = codes "[object Object]"

unfoldable pub joined : List Entry → Text
joined [] = []
joined (e ∷ []) = entry_text e
joined (e ∷ f ∷ entries) = entry_text e ++ (codes "," ++ joined (f ∷ entries))

-- `ref.id || ref`, as a template shows it.
unfoldable pub shown : Ref → Text
unfolding joined
shown missing = []
shown (plain t) = t
shown (object o) = if given o.id then or_else o.id [] else codes "[object Object]"
shown (array entries) = joined entries
