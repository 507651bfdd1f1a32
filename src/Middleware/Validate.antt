-- ===== src/Middleware/Validate.antt =====
-- packages/server/src/middleware/validate.ts: the validation of an activity stream that comes in, for
-- the platforms that are enabled here, with the types that each has.
use sockethub.Base.{
  Bool, ◌||◌, List, [], ◌∷◌, ◌++◌, Option, none, some, if◌then◌else◌, Text, codes, text_eq, ◌==◌,
  ◌⊎◌, inl, inr, any,
}
use sockethub.Base.Table.{Table, get}
use sockethub.Identity.{truthy}
use sockethub.Context.{
  Activity, ContextRegistry, resolve_platform_id, as2_base_context_url, sockethub_base_context_url,
}
use sockethub.Validator.{Ajv, validate_activity_stream, validate_credentials}
use sockethub.Middleware.{Reply, passes, raises}

unfoldable pub joined_with_commas : List Text → Text
joined_with_commas [] = []
joined_with_commas (t ∷ []) = t
joined_with_commas (t ∷ u ∷ ts) = t ++ (codes ", " ++ joined_with_commas (u ∷ ts))

unfoldable pub get_platform_context_candidates : List Text → List Text
get_platform_context_candidates [] = []
get_platform_context_candidates (url ∷ urls) =
    let later = get_platform_context_candidates urls in
    if url == as2_base_context_url || url == sockethub_base_context_url then later else url ∷ later

unfoldable pub context_details : List Text → Text
context_details [] = codes " No platform @context values were provided."
context_details (url ∷ []) = codes " Unregistered platform @context value: " ++ url
context_details (url ∷ other ∷ urls) =
    codes " Multiple platform @context values were provided: "
    ++ (joined_with_commas (url ∷ other ∷ urls) ++ codes ".")

module _ (ajv : Ajv) (g : ContextRegistry) where
  abbrev pub not_registered : Activity → Text
  not_registered msg =
      codes "platform context URL not registered with this Sockethub instance."
      ++ context_details (get_platform_context_candidates msg.context)

  unfoldable pub check_types : Text → List Text → Activity → Text ⊎ Activity
  check_types platform_id types msg =
      if any (λ t. t == msg.kind) types
      then inr msg
      else inl (
          codes "platform type "
          ++ (msg.kind
              ++ (codes " not supported by "
                  ++ (platform_id
                      ++ (codes " platform. (types: "
                          ++ (joined_with_commas types ++ codes ")"))))))

  unfoldable pub check_stream : Bool → Text → List Text → Activity → Text ⊎ Activity
  check_stream for_credentials platform_id types msg =
      if for_credentials
      then if truthy (validate_credentials ajv g msg)
        then inl (validate_credentials ajv g msg)
        else inr msg
      else if truthy (validate_activity_stream ajv g msg)
      then inl (validate_activity_stream ajv g msg)
      else check_types platform_id types msg

  abbrev pub check_enabled : Bool → Text → Option (List Text) → Activity → Text ⊎ Activity
  check_enabled for_credentials platform_id none msg = inl (
      codes "platform "
      ++ (platform_id
          ++ codes " resolved from @context is not enabled in this Sockethub instance."))
  check_enabled for_credentials platform_id (some types) msg =
      check_stream for_credentials platform_id types msg

  abbrev pub check_platform :
      Bool → Table Text (List Text) → Option Text → Activity → Text ⊎ Activity
  check_platform for_credentials platforms none msg = inl (not_registered msg)
  check_platform for_credentials platforms (some platform_id) msg =
      if truthy platform_id
      then check_enabled for_credentials platform_id (get platform_id platforms) msg
      else inl (not_registered msg)

  -- `platforms` has the types of each platform that is enabled; an error is `inl`.
  unfoldable pub run_validation : Bool → Table Text (List Text) → Activity → Text ⊎ Activity
  run_validation for_credentials platforms msg =
      check_platform for_credentials platforms (resolve_platform_id g msg) msg

  abbrev pub as_reply : Text ⊎ Activity → Reply Activity
  as_reply (inl error) = raises error
  as_reply (inr msg) = passes msg

  -- The middleware, after the initialization.
  unfoldable pub validate : Bool → Table Text (List Text) → Activity → Reply Activity
  validate for_credentials platforms msg = as_reply (run_validation for_credentials platforms msg)
