-- ===== src/Identity.antt =====
-- The identifiers under which instances, queues and credentials are kept:
-- packages/util/src/crypto/index.ts (getPlatformId), packages/data-layer/src/queue-id.ts, and the
-- address and key helpers of packages/server/src/connection-scope.ts.
pub mod Json
pub mod Keys
pub mod Address
mod Tests
use sockethub.Base.{
  ℕ, ◌+◌, ◌/◌, ◌%◌, Bool, true, false, ◌&&◌, ◌||◌, List, [], ◌∷◌, ◌++◌, Option, none, some, or_else,
  if◌then◌else◌, ltb, leb, Text, codes, nat_eq, ◌==◌, drop,
}

-- A string's truth value.
abbrev pub truthy : Text → Bool
truthy [] = false
truthy (_ ∷ _) = true

-- `a?`: present and not empty.
abbrev pub given : Option Text → Bool
given none = false
given (some s) = truthy s

abbrev pub hex_digit : ℕ → ℕ
hex_digit n = if ltb n 10 then 48 + n else 87 + n

-- The characters that `JSON.stringify` writes with a backslash, behind that backslash.
pub json_escape : ℕ → Text
json_escape c =
    if c == b'"' || c == 92
    then c ∷ []
    else if c == 8
    then b'b' ∷ []
    else if c == 9
    then b't' ∷ []
    else if c == 10
    then b'n' ∷ []
    else if c == 12
    then b'f' ∷ []
    else if c == 13
    then b'r' ∷ []
    else b'u' ∷ b'0' ∷ b'0' ∷ hex_digit (c / 16) ∷ hex_digit (c % 16) ∷ []

abbrev pub is_escaped : ℕ → Bool
is_escaped c = c == b'"' || c == 92 || ltb c 32

pub json_char : ℕ → Text
json_char c = if is_escaped c then 92 ∷ json_escape c else c ∷ []

-- The text between the quotes.
pub json_body : Text → Text
json_body [] = []
json_body (c ∷ s) = json_char c ++ json_body s

pub json_string : Text → Text
unfolding json_body json_char json_escape
json_string s = b'"' ∷ (json_body s ++ b'"' ∷ [])

abbrev pub json_tail : List Text → Text
json_tail [] = b']' ∷ []
json_tail (s ∷ ss) = b',' ∷ (json_string s ++ json_tail ss)

-- `JSON.stringify` of an array of strings.
unfoldable pub json_array : List Text → Text
unfolding json_string
json_array [] = b'[' ∷ b']' ∷ []
json_array (s ∷ ss) = b'[' ∷ (json_string s ++ json_tail ss)

unfoldable pub encode_id_components : List Text → Text
unfolding json_array
encode_id_components parts = json_array parts

-- The digest is a parameter.
module _ (hash_full : Text → Text) where
  unfoldable pub get_platform_id : Text → Option Text → Option Text → Text
  unfolding encode_id_components
  get_platform_id platform actor scope =
      if given actor
      then hash_full (encode_id_components (platform ∷ or_else actor [] ∷ or_else scope [] ∷ []))
      else hash_full platform

unfoldable pub build_queue_id : Text → Text → Text
build_queue_id parent_id instance_id =
    codes "sockethub:" ++ (parent_id ++ (codes ":data-layer:queue:" ++ instance_id))

unfoldable pub build_credentials_store_id : Text → Text → Text
build_credentials_store_id parent_id session_id =
    codes "sockethub:" ++ (parent_id ++ (codes ":data-layer:credentials-store:" ++ session_id))

unfoldable pub build_credentials_key : Text → Text → Text
build_credentials_key platform actor = platform ++ b':' ∷ actor

unfoldable pub scope_key : Text → Text → Text
scope_key platform actor_id = platform ++ b':' ∷ actor_id

unfoldable pub build_resumption_key : Text → Text → Text → Text
unfolding json_array
build_resumption_key platform actor_id ip = json_array (platform ∷ actor_id ∷ ip ∷ [])

-- The white space that `trim` takes off.
abbrev pub is_space : ℕ → Bool
is_space c =
    (leb 9 c && leb c 13)
    || c == 32
    || c == 160
    || c == 5760
    || (leb 8192 c && leb c 8202)
    || c == 8232
    || c == 8233
    || c == 8239
    || c == 8287
    || c == 12288
    || c == 65279

unfoldable pub trim_start : Text → Text
trim_start [] = []
trim_start (c ∷ s) = if is_space c then trim_start s else c ∷ s

abbrev keep_char : ℕ → Text → Text
keep_char c [] = if is_space c then [] else c ∷ []
keep_char c (d ∷ s) = c ∷ d ∷ s

unfoldable pub trim_end : Text → Text
trim_end [] = []
trim_end (c ∷ s) = keep_char c (trim_end s)

unfoldable pub trim : Text → Text
unfolding trim_start trim_end
trim s = trim_end (trim_start s)

-- `s.split(",")[0]`.
unfoldable pub before_comma : Text → Text
before_comma [] = []
before_comma (c ∷ s) = if c == b',' then [] else c ∷ before_comma s

unfoldable pub starts_with : Text → Text → Bool
starts_with s [] = true
starts_with [] (p ∷ ps) = false
starts_with (c ∷ s) (p ∷ ps) = c == p && starts_with s ps

abbrev pub mapped_prefix : Text
mapped_prefix = codes "::ffff:"

unfoldable pub normalize_ip : Option Text → Text
unfolding trim before_comma starts_with
normalize_ip none = []
normalize_ip (some ip) =
    if truthy ip
    then (let trimmed = trim (before_comma ip) in
        if starts_with trimmed mapped_prefix then drop 7 trimmed else trimmed)
    else []
