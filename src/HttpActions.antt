-- ===== src/HttpActions.antt =====
-- packages/server/src/http/actions.ts: what an HTTP request asks for. Bodies are JSON values.
-- `Claim` has the idempotency store, `Request` the run of one request.
pub mod Claim
pub mod Request
pub mod Writes
pub mod Replay
pub mod Adds
pub mod Results
pub mod Exact
pub mod Cached
pub mod Exclusive
pub mod Stream
pub mod Cleanup
pub mod Late
pub mod Finish
pub mod Acknowledge
pub mod Dispatch
mod Tests
use sockethub.Base.{
  ℕ, ◌+◌, Bool, true, false, ◌&&◌, ◌||◌, not, List, [], ◌∷◌, ◌++◌, Option, none, some, is_some,
  if◌then◌else◌, ltb, leb, Text, codes, nat_eq, text_eq, ◌==◌, length,
}
use sockethub.Identity.{truthy, given, trim, json_string, json_array}
use sockethub.Context.{
  build_canonical_context, error_platform_context_url, internal_platform_context_url,
}

-- A number is kept as the text that `String` gives. Fields are in order, each name once.
mutual
  pub data Json : Type 0 where
    null : Json
    bool : Bool → Json
    number string : Text → Json
    array : Items → Json
    object : Fields → Json

  pub data Items : Type 0 where
    no_items : Items
    item : Json → Items → Items

  pub data Fields : Type 0 where
    no_fields : Fields
    field : Text → Json → Fields → Fields

abbrev pub find : Text → Fields → Option Json
find name no_fields = none
find name (field n v rest) = if n == name then some v else find name rest

-- `payload.name` of an object, and of an array none of the names that are read.
abbrev pub property : Text → Json → Option Json
property name (object fs) = find name fs
property name null = none
property name (bool b) = none
property name (number n) = none
property name (string s) = none
property name (array xs) = none

abbrev pub is_object : Json → Bool
is_object (object fs) = true
is_object (array xs) = true
is_object null = false
is_object (bool b) = false
is_object (number n) = false
is_object (string s) = false

-- `String(value)`: an array joins its elements with commas, where null is empty.
unfoldable mutual
  pub to_text : Json → Text
  to_text null = codes "null"
  to_text (bool b) = if b then codes "true" else codes "false"
  to_text (number n) = n
  to_text (string s) = s
  to_text (array xs) = join xs
  to_text (object fs) = codes "[object Object]"

  join : Items → Text
  join no_items = []
  join (item v rest) = element v ++ join_tail rest

  join_tail : Items → Text
  join_tail no_items = []
  join_tail (item v rest) = b',' ∷ (element v ++ join_tail rest)

  element : Json → Text
  element null = []
  element (bool b) = if b then codes "true" else codes "false"
  element (number n) = n
  element (string s) = s
  element (array xs) = join xs
  element (object fs) = codes "[object Object]"

pub data PayloadKind : Type 0 where
  credentials message unknown : PayloadKind

abbrev pub kind_of : Option Json → Option Json → PayloadKind
unfolding to_text
kind_of (some t) (some actor) = if to_text t == codes "credentials" then credentials else message
kind_of (some t) none = unknown
kind_of none actor = unknown

unfoldable pub classify_payload : Json → PayloadKind
classify_payload payload =
    kind_of (property (codes "type") payload) (property (codes "actor") payload)

-- The NDJSON text of `buildServerError`.
unfoldable pub build_server_error : Text → Text → Text
unfolding build_canonical_context json_array
build_server_error text request_id =
    codes "{\"type\":\"error\",\"@context\":"
    ++ (json_array (build_canonical_context error_platform_context_url)
        ++ (codes ",\"actor\":{\"type\":\"Application\",\"name\":\"sockethub-server\"},\"error\":"
            ++ (json_string text
                ++ (if truthy request_id
                    then codes ",\"requestId\":" ++ (json_string request_id ++ codes "}")
                    else codes "}"))))

-- What a handler calls back with: nothing, an `Error`, or a value; and what is written of it.
pub data Outcome : Type 0 where
  nothing : Outcome
  thrown : Text → Outcome
  value : Json → Outcome

abbrev pub string_of : Option Json → Option Text
string_of (some (string s)) = some s
string_of (some null) = none
string_of (some (bool b)) = none
string_of (some (number n)) = none
string_of (some (array xs)) = none
string_of (some (object fs)) = none
string_of none = none

-- `typeof result.error === "string"`.
abbrev pub error_of : Outcome → Option Text
error_of nothing = none
error_of (thrown text) = some text
error_of (value v) = string_of (property (codes "error") v)

abbrev pub id_of : Option Json → Option Text
id_of none = none
id_of (some actor) = string_of (property (codes "id") actor)

-- The actor's id, if it is a string.
abbrev pub actor_id : Json → Option Text
actor_id payload = id_of (property (codes "actor") payload)

abbrev pub texts : List Text → Items
texts [] = no_items
texts (t ∷ ts) = item (string t) (texts ts)

abbrev pub ack_error : Option Text → Fields
ack_error none = no_fields
ack_error (some e) = field (codes "error") (string e) no_fields

abbrev pub ack_of : Text → Option Text → Json
ack_of id e = object (
    field (codes "@context") (array (texts (build_canonical_context internal_platform_context_url)))
      (field (codes "type") (string (codes "credentials-ack")) (
        field (codes "actor")
          (object (
            field (codes "id") (string id)
              (field (codes "type") (string (codes "person")) no_fields)))
          (ack_error e))))

abbrev pub refusal : Option Text → Outcome
refusal none = thrown (codes "invalid credentials payload")
refusal (some e) = thrown e

abbrev pub ack_for : Option Text → Option Text → Outcome
ack_for none e = refusal e
ack_for (some id) e = if truthy id then value (ack_of id e) else refusal e

unfoldable pub build_credentials_ack : Json → Outcome → Outcome
build_credentials_ack payload (thrown text) = thrown text
build_credentials_ack payload nothing = ack_for (actor_id payload) none
build_credentials_ack payload (value v) = ack_for (actor_id payload) (error_of (value v))

-- `RequestIdResolution`.
pub data RequestIdResolution : Type 0 where
  unset : RequestIdResolution
  invalid resolved : Text → RequestIdResolution

abbrev pub is_id_char : ℕ → Bool
is_id_char c =
    (leb 65 c && leb c 90)
    || (leb 97 c && leb c 122)
    || (leb 48 c && leb c 57)
    || c == b'.'
    || c == b'_'
    || c == b':'
    || c == b'-'

abbrev pub all_id_chars : Text → Bool
all_id_chars [] = true
all_id_chars (c ∷ s) = is_id_char c && all_id_chars s

-- `length` counts UTF-16 code units.
abbrev pub utf16_length : Text → ℕ
utf16_length [] = 0
utf16_length (c ∷ s) = (if ltb c 65536 then 1 else 2) + utf16_length s

abbrev pub checked_id : Text → RequestIdResolution
checked_id id =
    if not (truthy id)
    then unset
    else if ltb 128 (utf16_length id)
    then invalid (codes "requestId must be at most 128 characters")
    else if not (all_id_chars id)
    then invalid (codes "requestId contains invalid characters")
    else resolved id

normalize_request_id : Option Json → RequestIdResolution
unfolding trim
normalize_request_id (some (string s)) = checked_id (trim s)
normalize_request_id (some null) = unset
normalize_request_id (some (bool b)) = unset
normalize_request_id (some (number n)) = unset
normalize_request_id (some (array xs)) = unset
normalize_request_id (some (object fs)) = unset
normalize_request_id none = unset

abbrev pub or_next : RequestIdResolution → RequestIdResolution → RequestIdResolution
or_next unset next = next
or_next (invalid e) next = invalid e
or_next (resolved id) next = resolved id

abbrev pub as_string : Option Text → Option Json
as_string none = none
as_string (some s) = some (string s)

abbrev pub either_header : Option Text → Option Text → Option Text
either_header (some h) other = some h
either_header none other = other

-- The two headers and the body, and before them the parameter of the path and of the query.
resolve_request_id : Option Text → Option Text → Option Json → RequestIdResolution
unfolding normalize_request_id
resolve_request_id x_request_id x_sockethub_request_id none =
    normalize_request_id (as_string (either_header x_request_id x_sockethub_request_id))
resolve_request_id x_request_id x_sockethub_request_id (some body) =
    or_next (normalize_request_id (as_string (either_header x_request_id x_sockethub_request_id)))
      (normalize_request_id (property (codes "requestId") body))

resolve_request_id_from_request :
    Option Text → Option Text → Option Text → Option Text → Option Json → RequestIdResolution
unfolding resolve_request_id normalize_request_id
resolve_request_id_from_request param query header other body =
    or_next (normalize_request_id (as_string param))
      (or_next (normalize_request_id (as_string query)) (resolve_request_id header other body))

abbrev pub payload_list : Items → List Json
payload_list no_items = []
payload_list (item v rest) = v ∷ payload_list rest

abbrev pub messages_or_self : Json → Option Json → List Json
messages_or_self body (some (array xs)) = payload_list xs
messages_or_self body (some null) = body ∷ []
messages_or_self body (some (bool b)) = body ∷ []
messages_or_self body (some (number n)) = body ∷ []
messages_or_self body (some (string s)) = body ∷ []
messages_or_self body (some (object fs)) = body ∷ []
messages_or_self body none = body ∷ []

normalize_payloads : Option Json → List Json
normalize_payloads (some (array xs)) = payload_list xs
normalize_payloads (some (object fs)) = messages_or_self (object fs) (find (codes "messages") fs)
normalize_payloads (some null) = []
normalize_payloads (some (bool b)) = []
normalize_payloads (some (number n)) = []
normalize_payloads (some (string s)) = []
normalize_payloads none = []

-- What the checks of the POST handler let through: the payloads, and the client's id if any.
pub data Admission : Type 0 where
  rejected : ℕ → Admission
  accepted : List Json → Option Text → Admission

abbrev pub admit_id : Bool → List Json → RequestIdResolution → Admission
admit_id require payloads unset = if require then rejected 400 else accepted payloads none
admit_id require payloads (invalid e) = rejected 400
admit_id require payloads (resolved id) = accepted payloads (some id)

admit_request : ℕ → Bool → Option Text → Option Text → Option Json → Admission
unfolding normalize_payloads resolve_request_id
admit_request max require header other body =
    let payloads = normalize_payloads body in
    if length payloads == 0
    then rejected 400
    else if ltb max (length payloads)
    then rejected 413
    else admit_id require payloads (resolve_request_id header other body)
