-- ===== src/Client/Registry.antt =====
-- packages/client/src/sockethub-client.ts: the platform registry that the server declares.
use sockethub.Base.{
  Bool, List, [], ◌∷◌, ◌++◌, Option, none, some, if◌then◌else◌, or_else, map, Text, codes, text_eq,
  ◌⊎◌, inl, inr, ◌&&◌,
}
use sockethub.Base.Table.{set}
use sockethub.Identity.{given}
use sockethub.Validator.Schemas.{Schemas, AjvLibrary, add_platform_context, add_platform_schema}
use sockethub.Client.{
  Client, PlatformRegistryEntry, PlatformRegistryPayload, PlatformSummary, ClientReadyInfo,
  ReadyReason, emit, on_schemas,
}

-- One platform of a payload that passes the checks on `id`, `version` and `contextUrl`. `types` is
-- none where it is not an array, a schema none where it is not a plain object.
pub record PlatformOffer : Type 0 where
  pub id : Text
  pub version : Text
  pub context_url : Text
  pub context_version : Option Text
  pub schema_version : Option Text
  pub types : Option (List Text)
  pub credentials : Option Text
  pub messages : Option Text

-- A text is none where the property is not a string; an entry of `platforms` is none where it fails
-- the checks.
pub record RegistryOffer : Type 0 where
  pub version : Option Text
  pub fingerprint : Option Text
  pub unchanged : Bool
  pub as_context : Option Text
  pub sockethub_context : Option Text
  pub platforms : Option (List (Option PlatformOffer))

unfoldable pub get_registered_platforms : Client → List PlatformRegistryEntry
get_registered_platforms c = map (λ row. row.1) c.platform_registry

abbrev pub base_contexts : Option Text → Option Text → Option (Text × Text)
base_contexts (some a) (some b) = if given (some a) && given (some b) then some (a, b) else none
base_contexts _ _ = none

unfoldable pub build_platform_registry_payload : Client → PlatformRegistryPayload
build_platform_registry_payload c = record {
  version = c.sockethub_version;
  contexts = base_contexts c.as_context_url c.sockethub_context_url;
  platforms = get_registered_platforms c;
}

-- `inl` is an exception.
get_registered_base_contexts : Client → Text ⊎ (Text × Text)
get_registered_base_contexts c = elim (base_contexts c.as_context_url c.sockethub_context_url) [
  | none ↦ inl (codes "Schema registry not loaded yet. Wait for client ready state after connect.")
  | some urls ↦ inr urls
]

abbrev pub summary : PlatformRegistryEntry → PlatformSummary
summary p = record {
  id = p.id;
  version = p.version;
  context_url = p.context_url;
  context_version = p.context_version;
  schema_version = p.schema_version;
  types = p.types;
}

abbrev pub ready_info_of :
    ReadyReason
    → Option Text
    → Option (Text × Text)
    → List PlatformRegistryEntry
    → Option ClientReadyInfo
ready_info_of reason (some version) (some (a, b)) platforms =
    if given (some version)
    then some (record {
      reason = reason;
      sockethub_version = version;
      as_context = a;
      sockethub_context = b;
      platforms = map summary platforms;
    })
    else none
ready_info_of reason _ _ platforms = none

unfoldable pub build_ready_info : ReadyReason → Client → Option ClientReadyInfo
build_ready_info reason c =
    ready_info_of reason c.sockethub_version
      (base_contexts c.as_context_url c.sockethub_context_url) (get_registered_platforms c)

abbrev pub entry_of : PlatformOffer → PlatformRegistryEntry
entry_of p = record {
  id = p.id;
  version = p.version;
  context_url = p.context_url;
  context_version = p.context_version;
  schema_version = p.schema_version;
  types = or_else p.types [];
  credentials = p.credentials;
  messages = p.messages;
}

module _ (ajv : AjvLibrary) where
  abbrev pub add_given : Option Text → Text → Schemas → Text ⊎ Schemas
  add_given none platform_type s = inr s
  add_given (some schema) platform_type s = add_platform_schema ajv schema platform_type s

  -- An exception is reported on the console; what was added before it stays.
  abbrev pub kept : Schemas → Text ⊎ Schemas → Schemas
  kept s (inl error) = s
  kept s (inr t) = t

  abbrev pub add_messages : PlatformOffer → Schemas → Text ⊎ Schemas → Schemas
  add_messages p s (inl error) = s
  add_messages p s (inr t) = kept t (add_given p.messages (p.id ++ codes "/messages") t)

  unfoldable pub register_schemas : PlatformOffer → Schemas → Schemas
  register_schemas p s =
      let t = add_platform_context p.id p.context_url s in
      add_messages p t (add_given p.credentials (p.id ++ codes "/credentials") t)

  unfoldable pub apply_platform : Option PlatformOffer → Client → Client
  apply_platform none c = c
  apply_platform (some p) c = record c {
    platform_registry = set p.id (entry_of p) c.platform_registry;
    schemas = register_schemas p c.schemas;
  }

  unfoldable pub apply_platforms : List (Option PlatformOffer) → Client → Client
  apply_platforms [] c = c
  apply_platforms (p ∷ ps) c = apply_platforms ps (apply_platform p c)

  -- The payload passed its checks.
  unfoldable pub apply_registry :
      RegistryOffer → Text → Text → List (Option PlatformOffer) → Client → Client
  apply_registry offer a b platforms c =
      let c' = apply_platforms platforms (record c {
        sockethub_version = some (or_else offer.version (codes "unknown"));
        as_context_url = some a;
        sockethub_context_url = some b;
        platform_registry = [];
      }) in
      emit (on_schemas (build_platform_registry_payload c'))
        (record c' { registry_fingerprint = offer.fingerprint })

  abbrev pub apply_checked :
      RegistryOffer
      → Option Text
      → Option Text
      → Option (List (Option PlatformOffer))
      → Client
      → Option Client
  apply_checked offer (some a) (some b) (some platforms) c =
      some (apply_registry offer a b platforms c)
  apply_checked offer _ _ _ c = none

  -- None where the code returns undefined.
  unfoldable pub apply_platform_registry : RegistryOffer → Client → Option Client
  apply_platform_registry offer c =
      apply_checked offer offer.as_context offer.sockethub_context offer.platforms c
