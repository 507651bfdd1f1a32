-- ===== src/Client/Updates.antt =====
-- packages/client/src/sockethub-client.ts: a schema that a client has registered stays, whatever
-- registry the server declares later.
use sockethub.Base.{
  ◌≡◌, true, false, List, [], ◌∷◌, ◌++◌, Option, none, some, is_some, arith, Text, codes, text_eq,
  ◌⊎◌, inl, inr, if_cases,
}
use sockethub.Base.Table.{Table, get, set, has, get-set}
use sockethub.Validator.Schemas.{
  Schemas, AjvLibrary, add_schema, add_platform_schema, add_platform_context, schema_ref,
}
use sockethub.Client.{Client, emit}
use sockethub.Client.Registry.{
  PlatformOffer, RegistryOffer, add_given, kept, add_messages, register_schemas, apply_platform,
  apply_platforms, apply_registry,
}

module _ (ajv : AjvLibrary)
    (has_validator : (added : Table Text Text) (ref : Text)
      → has ref added ≡ true
      → is_some (ajv.validators added ref) ≡ true)
    (ref schema : Text) where
  abbrev Keeps : Schemas → Type 0
  Keeps s = get ref s.added ≡ some schema

  abbrev KeepsRight : Text ⊎ Schemas → Type 0
  KeepsRight (inl error) = Unit
  KeepsRight (inr s) = Keeps s

  added_lem :
      (other new : Text) (s : Schemas)
      → is_some (ajv.validators s.added other) ≡ false
      → Keeps s
      → get ref (set other new s.added) ≡ some schema
  added_lem other new s absent h = ground (
    arith,
    get-set other ref new s.added,
    text_eq.beq_iff other ref,
    has_validator s.added other,
    absent,
    h,
  )

  refusal_lem :
      (o : Option Text) (other new : Text) (s : Schemas)
      → get ref (set other new s.added) ≡ some schema
      → KeepsRight (elim o [
        | none ↦ inr (record s { added = set other new s.added })
        | some error ↦ inl error
      ])
  refusal_lem none other new s h = h
  refusal_lem (some error) other new s h = tt

  add_schema-Keeps :
      (other new : Text) (s : Schemas) → Keeps s → KeepsRight (add_schema ajv other new s)
  unfolding add_schema
  add_schema-Keeps other new s h =
      if_cases KeepsRight (is_some (ajv.validators s.added other)) (λ _. h)
        (λ absent. refusal_lem (ajv.refusal other new) other new s (added_lem other new s absent h))

  add_given-Keeps :
      (o : Option Text) (platform_type : Text) (s : Schemas)
      → Keeps s
      → KeepsRight (add_given ajv o platform_type s)
  add_given-Keeps none platform_type s h = h
  add_given-Keeps (some new) platform_type s h =
      unfold add_platform_schema in add_schema-Keeps (schema_ref platform_type) new s h

  add_messages-Keeps :
      (p : PlatformOffer) (s : Schemas) (r : Text ⊎ Schemas)
      → Keeps s
      → KeepsRight r
      → Keeps (add_messages ajv p s r)
  add_messages-Keeps p s (inl error) h k = h
  add_messages-Keeps p s (inr t) h k =
      kept-Keeps (add_given ajv p.messages (p.id ++ codes "/messages") t)
        (add_given-Keeps p.messages (p.id ++ codes "/messages") t k)
    where
      kept-Keeps : (r : Text ⊎ Schemas) → KeepsRight r → Keeps (kept ajv t r)
      kept-Keeps (inl error) j = k
      kept-Keeps (inr u) j = j

  apply_platforms-Keeps :
      (ps : List (Option PlatformOffer)) (c : Client)
      → Keeps c.schemas
      → Keeps (apply_platforms ajv ps c).schemas
  unfolding apply_platforms apply_platform register_schemas add_platform_context
  apply_platforms-Keeps [] c h = h
  apply_platforms-Keeps (none ∷ ps) c h = apply_platforms-Keeps ps c h
  apply_platforms-Keeps (some p ∷ ps) c h =
      let t = add_platform_context p.id p.context_url c.schemas in
      apply_platforms-Keeps ps _ (
        add_messages-Keeps p t (add_given ajv p.credentials (p.id ++ codes "/credentials") t) h
          (add_given-Keeps p.credentials (p.id ++ codes "/credentials") t h))

  -- If AJV has a validator for each schema that was added, then a schema that is registered under a
  -- name is still the one under that name after any registry that the server declares, also one that
  -- has another schema for it.
  pub apply_registry-schemas_kept :
      (offer : RegistryOffer) (a b : Text) (ps : List (Option PlatformOffer)) (c : Client)
      → get ref c.schemas.added ≡ some schema
      → get ref (apply_registry ajv offer a b ps c).schemas.added ≡ some schema
  unfolding apply_registry emit
  apply_registry-schemas_kept offer a b ps c h = apply_platforms-Keeps ps _ h
