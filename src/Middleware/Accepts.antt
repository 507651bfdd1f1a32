-- ===== src/Middleware/Accepts.antt =====
-- packages/server/src/middleware/validate.ts: which messages pass the validation.
use sockethub.Base.{
  ◌≡◌, ◌↔◌, refl, sym, ap, subst, true, false, List, Option, none, some, Text, text_eq, ◌==◌, ◌⊎◌,
  inl, inr, any, if_cases, All, Bool-cases, or_else, [], ◌∷◌, ◌∙◌,
}
use sockethub.Base.Table.{Table, get, has}
use sockethub.Identity.{truthy}
use sockethub.Context.{
  Activity, ContextRegistry, registered, only, lookup_url, resolve_platform_context_url,
  resolve_platform_id,
}
use sockethub.Validator.{Ajv, validate_activity_stream}
use sockethub.Middleware.Validate.{
  check_types, check_stream, check_enabled, check_platform, run_validation,
}

abbrev first_of : Text → List Text → Text
first_of u [] = u
first_of u (v ∷ vs) = v

abbrev rest_of : List Text → List Text
rest_of [] = []
rest_of (v ∷ vs) = vs

some_inj : (u v : Text) → some u ≡ some v → u ≡ v
some_inj u v e = ap (λ o. or_else o u) e

module _ (ajv : Ajv) (g : ContextRegistry) (platforms : Table Text (List Text))
    (msg : Activity) where
  -- `url` is the only URL of a list that is registered as a platform's context.
  abbrev NamesOne : Text → List Text → Type 0
  NamesOne url [] = true ≡ false
  NamesOne url (u ∷ us) =
      ((url ≡ u) × (has u g.platform_ids ≡ true) × All (λ v. has v g.platform_ids ≡ false) us)
      ⊎ ((has u g.platform_ids ≡ false) × NamesOne url us)

  registered-none :
      (us : List Text) → All (λ v. has v g.platform_ids ≡ false) us → registered g us ≡ []
  unfolding registered
  registered-none [] h = refl
  registered-none (u ∷ us) h = rw (h.0) (registered-none us h.1)

  none_registered :
      (us : List Text) → registered g us ≡ [] → All (λ v. has v g.platform_ids ≡ false) us
  unfolding registered
  none_registered [] e = tt
  none_registered (u ∷ us) e = elim (Bool-cases (has u g.platform_ids)) [
    | inl y ↦ let e' = rw y at e in absurd (cc)
    | inr n ↦ let e' = rw n at e in (n, none_registered us e')
  ]

  registered-NamesOne : (url : Text) (us : List Text) → NamesOne url us → registered g us ≡ url ∷ []
  unfolding registered
  registered-NamesOne url [] h = absurd (cc)
  registered-NamesOne url (u ∷ us) (inl (e, y, h)) =
      rw (y, registered-none us h) (ap (λ t. t ∷ []) (sym e))
  registered-NamesOne url (u ∷ us) (inr (n, h)) = rw n (registered-NamesOne url us h)

  NamesOne-registered : (url : Text) (us : List Text) → registered g us ≡ url ∷ [] → NamesOne url us
  unfolding registered
  NamesOne-registered url [] e = absurd (cc)
  NamesOne-registered url (u ∷ us) e = elim (Bool-cases (has u g.platform_ids)) [
    | inl y ↦
        let e' = rw y at e in inl (sym (ap (first_of u) e'), y, none_registered us (ap rest_of e'))
    | inr n ↦ let e' = rw n at e in inr (n, NamesOne-registered url us e')
  ]

  only-one : (url : Text) (us : List Text) → only us ≡ some url → us ≡ url ∷ []
  only-one url [] e = absurd (cc)
  only-one url (u ∷ []) e = ap (λ t. t ∷ []) (some_inj u url e)
  only-one url (u ∷ v ∷ us) e = absurd (cc)

  -- The message names one platform; that is enabled, supports the message's type, and the schemas
  -- accept the message.
  pub record IsAccepted : Type 0 where
    pub platform_id : Text
    pub types : List Text
    pub url : Text
    pub names : NamesOne url msg.context
    pub is_given : truthy url ≡ true
    pub maps : get url g.platform_ids ≡ some platform_id
    pub named : truthy platform_id ≡ true
    pub enabled : get platform_id platforms ≡ some types
    pub valid : truthy (validate_activity_stream ajv g msg) ≡ false
    pub supported : any (λ t. t == msg.kind) types ≡ true

  abbrev Names : Text → Type 0
  Names platform_id =
      (url : Text) × NamesOne url msg.context
      × (truthy url ≡ true)
      × (get url g.platform_ids ≡ some platform_id)

  lookup-Names :
      (platform_id : Text) (us : List Text) (o : Option Text)
      → registered g msg.context ≡ us
      → only us ≡ o
      → lookup_url g.platform_ids o ≡ some platform_id
      → Names platform_id
  lookup-Names platform_id us none r o l = absurd (cc)
  lookup-Names platform_id us (some url) r o l = elim (Bool-cases (truthy url)) [
    | inl y ↦
        let l' = rw y at l in
        (url, NamesOne-registered url msg.context (r ∙ only-one url us o), y, l')
    | inr n ↦ let l' = rw n at l in absurd (cc)
  ]

  resolve-Names :
      (platform_id : Text) → resolve_platform_id g msg ≡ some platform_id → Names platform_id
  unfolding resolve_platform_id resolve_platform_context_url
  resolve-Names platform_id l =
      lookup-Names platform_id (registered g msg.context) (only (registered g msg.context)) refl
        refl l

  Names-resolve :
      (platform_id url : Text)
      → NamesOne url msg.context
      → truthy url ≡ true
      → get url g.platform_ids ≡ some platform_id
      → resolve_platform_id g msg ≡ some platform_id
  unfolding resolve_platform_id resolve_platform_context_url
  Names-resolve platform_id url n t m = rw (registered-NamesOne url msg.context n, t) m

  -- What holds of a result unless it is an error.
  abbrev Passed : Text ⊎ Activity → Type 0
  Passed (inl error) = Unit
  Passed (inr out) = (out ≡ msg) × IsAccepted

  stream-Passed :
      (platform_id : Text) (types : List Text)
      → resolve_platform_id g msg ≡ some platform_id
      → truthy platform_id ≡ true
      → get platform_id platforms ≡ some types
      → Passed (check_stream ajv g false platform_id types msg)
  unfolding check_stream check_types
  stream-Passed platform_id types r n e =
      if_cases Passed (truthy (validate_activity_stream ajv g msg)) (λ _. tt)
        λ v.
          if_cases Passed (any (λ t. t == msg.kind) types)
            (λ s.
              let (url, names, is_given, maps) = resolve-Names platform_id r in
              (
                refl,
                record {
                  platform_id = platform_id;
                  types = types;
                  url = url;
                  names = names;
                  is_given = is_given;
                  maps = maps;
                  named = n;
                  enabled = e;
                  valid = v;
                  supported = s;
                },
              ))
            (λ _. tt)

  enabled-Passed :
      (platform_id : Text) (o : Option (List Text))
      → resolve_platform_id g msg ≡ some platform_id
      → truthy platform_id ≡ true
      → get platform_id platforms ≡ o
      → Passed (check_enabled ajv g false platform_id o msg)
  enabled-Passed platform_id none r n e = tt
  enabled-Passed platform_id (some types) r n e = stream-Passed platform_id types r n e

  platform-Passed :
      (o : Option Text)
      → resolve_platform_id g msg ≡ o
      → Passed (check_platform ajv g false platforms o msg)
  platform-Passed none r = tt
  platform-Passed (some platform_id) r =
      if_cases Passed (truthy platform_id)
        (λ n. enabled-Passed platform_id (get platform_id platforms) r n refl) (λ _. tt)

  accepted :
      (out : Activity)
      → (out ≡ msg) × IsAccepted
      → run_validation ajv g false platforms msg ≡ inr out
  unfolding run_validation check_stream check_types
  accepted out (same, h) =
      rw
        (
          Names-resolve h.platform_id h.url h.names h.is_given h.maps,
          h.named,
          h.enabled,
          h.valid,
          h.supported,
        )
        (ap inr (sym same))

  -- What passes the validation of a message is the message itself, and it passes exactly if just one
  -- of its contexts is registered, for a platform that is enabled here and supports the message's
  -- type, and the schemas accept the message.
  pub run_validation-accepts :
      (out : Activity)
      → (run_validation ajv g false platforms msg ≡ inr out) ↔ ((out ≡ msg) × IsAccepted)
  unfolding run_validation
  run_validation-accepts out =
      (λ e. subst Passed e (platform-Passed (resolve_platform_id g msg) refl), accepted out)
