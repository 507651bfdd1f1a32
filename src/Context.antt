-- ===== src/Context.antt =====
-- packages/schemas/src/context.ts: the `@context` of an activity stream and the registry of platform
-- contexts, and the fields of an activity that the server reads or writes.
pub mod Roundtrip
use sockethub.Base.{
  ℕ, zero, suc, ◌+◌, ◌-◌, ◌<◌, Bool, true, false, List, [], ◌∷◌, ◌++◌, Option, none, some, is_some,
  if◌then◌else◌, ltb, Text, codes, nat_eq, text_eq, ◌==◌, length, drop, take,
}
use sockethub.Base.Table.{Table, get, set, has}
use sockethub.Identity.{truthy, starts_with}

pub record Actor : Type 0 where
  pub id : Text
  pub kind : Text

-- An internal activity stream. `kind` is `type`, `old_context` the legacy field `context`, and
-- `rest` all other properties, serialized.
pub record Activity : Type 0 where
  pub context : List Text
  pub kind : Text
  pub actor : Option Actor
  pub error : Option Text
  pub session_secret : Option Text
  pub old_context : Option Text
  pub rest : Text

abbrev pub as2_base_context_url : Text
as2_base_context_url = codes "https://www.w3.org/ns/activitystreams"

abbrev pub sockethub_base_context_url : Text
sockethub_base_context_url = codes "https://sockethub.org/ns/context/v1.jsonld"

abbrev pub platform_context_prefix : Text
platform_context_prefix = codes "https://sockethub.org/ns/context/platform/"

abbrev pub error_platform_context_url : Text
error_platform_context_url = codes "https://sockethub.org/ns/context/platform/error/v1.jsonld"

abbrev pub internal_platform_context_url : Text
internal_platform_context_url =
    codes "https://sockethub.org/ns/context/platform/sockethub:internal/v1.jsonld"

unfoldable pub build_canonical_context : Text → List Text
unfolding starts_with
build_canonical_context platform =
    as2_base_context_url
    ∷ sockethub_base_context_url
    ∷ (if starts_with platform (codes "https://")
        then platform
        else platform_context_prefix ++ (platform ++ codes "/v1.jsonld"))
    ∷ []

-- `rest.indexOf("/")`, absent for -1.
unfoldable pub index_of_slash : Text → Option ℕ
index_of_slash [] = none
index_of_slash (c ∷ s) =
    let later = index_of_slash s in
    if c == b'/' then some 0 else elim later [ none ↦ none | some i ↦ some (suc i) ]

abbrev pub until_slash : Text → Option ℕ → Option Text
until_slash rest none = none
until_slash rest (some i) = if ltb 0 i then some (take i rest) else none

-- What one entry of the array gives.
abbrev pub platform_id_of_entry : Text → Option Text
platform_id_of_entry entry =
    if starts_with entry platform_context_prefix
    then (let rest = drop (length platform_context_prefix) entry in
        until_slash rest (index_of_slash rest))
    else none

abbrev pub or_option : Option Text → Option Text → Option Text
or_option (some a) b = some a
or_option none b = b

unfoldable pub platform_id_from_context : List Text → Option Text
unfolding starts_with index_of_slash
platform_id_from_context [] = none
platform_id_from_context (entry ∷ context) =
    or_option (platform_id_of_entry entry) (platform_id_from_context context)

-- The three module-level maps.
pub record ContextRegistry : Type 0 where
  pub platform_ids : Table Text Text
  pub schema_ids : Table Text Text
  pub credentials_schema_ids : Table Text Text

unfoldable pub register_platform_context :
    Text → Text → Text → Text → ContextRegistry → ContextRegistry
register_platform_context platform_id url schema_id credentials_schema_id g = record g {
  platform_ids = set url platform_id g.platform_ids;
  schema_ids = set url schema_id g.schema_ids;
  credentials_schema_ids = set url credentials_schema_id g.credentials_schema_ids;
}

-- `contexts.filter(…has…)`.
unfoldable pub registered : ContextRegistry → List Text → List Text
registered g [] = []
registered g (url ∷ urls) =
    let later = registered g urls in if has url g.platform_ids then url ∷ later else later

abbrev pub only : List Text → Option Text
only [] = none
only (url ∷ []) = some url
only (url ∷ _ ∷ _) = none

unfoldable pub resolve_platform_context_url : ContextRegistry → Activity → Option Text
unfolding registered
resolve_platform_context_url g msg = only (registered g msg.context)

abbrev pub lookup_url : Table Text Text → Option Text → Option Text
lookup_url m none = none
lookup_url m (some url) = if truthy url then get url m else none

-- `resolvePlatformId` of packages/schemas/src/validator.ts: the platform of the one registered
-- context. An empty URL counts as none.
unfoldable pub resolve_platform_id : ContextRegistry → Activity → Option Text
unfolding resolve_platform_context_url
resolve_platform_id g msg = lookup_url g.platform_ids (resolve_platform_context_url g msg)
