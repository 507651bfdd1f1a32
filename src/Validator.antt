-- ===== src/Validator.antt =====
-- packages/schemas/src/validator.ts: the checks of an activity against the registered schemas.
-- AJV is a parameter: for the name of a schema it has a validator or none, and a validator accepts,
-- or gives the message that the error parser makes of its errors.
pub mod Schemas
use sockethub.Base.{
  [], ◌++◌, Option, none, some, if◌then◌else◌, is_some, Text, codes, text_eq, ◌==◌, not,
}
use sockethub.Identity.{truthy}
use sockethub.Context.{
  Activity, ContextRegistry, resolve_platform_context_url, resolve_platform_id, lookup_url,
}

abbrev pub Ajv : Type 0
Ajv = Text → Option (Activity → Option Text)

abbrev pub schema_url : Text
schema_url = codes "https://sockethub.org/schemas/v0"

abbrev pub in_brackets : Option Text → Text → Text
in_brackets none message = message
in_brackets (some platform_id) message =
    if truthy platform_id then codes "[" ++ (platform_id ++ (codes "] " ++ message)) else message

abbrev pub verdict : ContextRegistry → Activity → Option Text → Text
verdict g msg none = []
verdict g msg (some message) = in_brackets (resolve_platform_id g msg) message

module _ (ajv : Ajv) (g : ContextRegistry) where
  handle_validation : Text → Activity → Text
  handle_validation schema_ref msg = elim (ajv schema_ref) [
    | none ↦ codes "schema " ++ (schema_ref ++ codes " not found")
    | some validator ↦ verdict g msg (validator msg)
  ]

  -- The schema that one of the registry's maps has for the one registered context of a message.
  with_schema : Text → (Text → Text) → Option Text → Option Text → Activity → Text
  unfolding handle_validation
  with_schema no_context no_schema none schema_id msg = no_context
  with_schema no_context no_schema (some url) none msg =
      if truthy url then no_schema url else no_context
  with_schema no_context no_schema (some url) (some schema_id) msg =
      if truthy url
      then if truthy schema_id then handle_validation schema_id msg else no_schema url
      else no_context

  unfoldable pub validate_activity_stream : Activity → Text
  unfolding handle_validation with_schema
  validate_activity_stream msg =
      let stream_error = handle_validation (schema_url ++ codes "/activity-stream") msg in
      let url = resolve_platform_context_url g msg in
      if truthy stream_error
      then stream_error
      else with_schema
          (codes
            "activity streams must have exactly one registered platform context URL in @context")
          (λ u.
            codes "platform context URL "
            ++ (u ++ codes " does not have a registered message schema"))
          url (lookup_url g.schema_ids url) msg

  -- The test that `@context` is an array holds by the type of `context`.
  unfoldable pub validate_credentials : Activity → Text
  unfolding handle_validation with_schema
  validate_credentials msg =
      let stream_error = handle_validation (schema_url ++ codes "/activity-stream") msg in
      let url = resolve_platform_context_url g msg in
      if not (msg.kind == codes "credentials")
      then codes "credential activity streams must have credentials set as type"
      else if truthy stream_error
      then stream_error
      else with_schema
          (codes
            "credential activity streams must have exactly one registered platform context URL in @context")
          (λ u.
            codes "platform context URL "
            ++ (u ++ codes " does not have a registered credentials schema"))
          url (lookup_url g.credentials_schema_ids url) msg

  abbrev pub responses_schema_id : Text → Text
  responses_schema_id platform_id =
      schema_url ++ (codes "/context/" ++ (platform_id ++ codes "/responses"))

  response_check : Option Text → Activity → Text
  unfolding handle_validation
  response_check none msg = []
  response_check (some platform_id) msg =
      if truthy platform_id
      then (if is_some (ajv (responses_schema_id platform_id))
          then handle_validation (responses_schema_id platform_id) msg
          else [])
      else []

  unfoldable pub validate_activity_stream_response : Activity → Text
  unfolding response_check
  validate_activity_stream_response msg = response_check (resolve_platform_id g msg) msg
