-- ===== src/Validator/Schemas.antt =====
-- packages/schemas/src/validator.ts: the registration of platforms' contexts and schemas. A schema is
-- its serialization. AJV's table of added schemas is explicit; that AJV refuses a schema is a parameter.
use sockethub.Base.{
  Bool, true, ◌++◌, Option, none, some, is_some, if◌then◌else◌, Text, codes, text_eq, ◌⊎◌, inl, inr,
}
use sockethub.Base.Table.{Table, set}
use sockethub.Context.{
  ContextRegistry, register_platform_context, error_platform_context_url,
  internal_platform_context_url,
}
use sockethub.Validator.{Ajv, schema_url}

pub record Schemas : Type 0 where
  pub contexts : ContextRegistry
  pub added : Table Text Text
  pub system_contexts_registered : Bool

-- AJV: its validators over the schemas that were added, and the error that `addSchema` throws.
pub record AjvLibrary : Type 0 where
  pub validators : Table Text Text → Ajv
  pub refusal : Text → Text → Option Text

abbrev pub schema_ref : Text → Text
schema_ref platform_type = schema_url ++ (codes "/context/" ++ platform_type)

unfoldable pub add_platform_context : Text → Text → Schemas → Schemas
add_platform_context platform_id url s = record s {
  contexts =
      register_platform_context platform_id url (schema_ref (platform_id ++ codes "/messages"))
        (schema_ref (platform_id ++ codes "/credentials")) s.contexts;
}

module _ (lib : AjvLibrary) where
  -- `inl` is an exception. A name that has a schema keeps it.
  unfoldable pub add_schema : Text → Text → Schemas → Text ⊎ Schemas
  add_schema ref schema s =
      if is_some (lib.validators s.added ref) then inr s else elim (lib.refusal ref schema) [
        | none ↦ inr (record s { added = set ref schema s.added })
        | some error ↦ inl error
      ]

  unfoldable pub add_platform_schema : Text → Text → Schemas → Text ⊎ Schemas
  unfolding add_schema
  add_platform_schema schema platform_type s = add_schema (schema_ref platform_type) schema s

  abbrev pub and_then : Text ⊎ Schemas → (Schemas → Text ⊎ Schemas) → Text ⊎ Schemas
  and_then (inl error) f = inl error
  and_then (inr s) f = f s

  unfoldable pub register_system_context : Text → Text → Schemas → Text ⊎ Schemas
  unfolding add_schema
  register_system_context platform_id url s =
      and_then
        (add_schema (schema_ref (platform_id ++ codes "/messages")) (codes "{}")
          (add_platform_context platform_id url s))
        (add_schema (schema_ref (platform_id ++ codes "/credentials")) (codes "{}"))

  unfoldable pub register_system_platform_contexts : Schemas → Text ⊎ Schemas
  register_system_platform_contexts s =
      if s.system_contexts_registered
      then inr s
      else and_then
          (and_then (register_system_context (codes "error") error_platform_context_url s)
            (register_system_context (codes "sockethub:internal") internal_platform_context_url))
          (λ t. inr (record t { system_contexts_registered = true }))
