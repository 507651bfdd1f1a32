-- ===== src/Identity/Keys.antt =====
-- Which identifiers can coincide.
use sockethub.Base.{◌≡◌, ◌≢◌, true, false, [], ◌∷◌, Option, arith, or_else, Text, ◌∙◌}
use sockethub.Identity.{given, get_platform_id, build_resumption_key}
use sockethub.Identity.Json.{json_array-inj, json_array-head}

-- Two anonymous connections have the same resumption key only with the same platform, actor and
-- address, whatever characters these hold.
pub build_resumption_key-inj :
    (p p' a a' i i' : Text)
    → build_resumption_key p a i ≡ build_resumption_key p' a' i'
    → (p ≡ p') × (a ≡ a') × (i ≡ i')
unfolding build_resumption_key
build_resumption_key-inj p p' a a' i i' e =
    let h = json_array-inj (p ∷ a ∷ i ∷ []) (p' ∷ a' ∷ i' ∷ []) e in
    (ground arith, ground arith, ground arith)

module _ (hash_full : Text → Text) (inj : (s t : Text) → hash_full s ≡ hash_full t → s ≡ t) where
  -- Under a digest without collisions two persistent instances have the same identifier only for the
  -- same platform, actor and scope.
  pub get_platform_id-inj :
      (p p' : Text) (a a' s s' : Option Text)
      → given a ≡ true
      → given a' ≡ true
      → get_platform_id hash_full p a s ≡ get_platform_id hash_full p' a' s'
      → (p ≡ p') × (or_else a [] ≡ or_else a' []) × (or_else s [] ≡ or_else s' [])
  unfolding get_platform_id
  get_platform_id-inj p p' a a' s s' ga ga' e =
      let h =
        json_array-inj (p ∷ or_else a [] ∷ or_else s [] ∷ [])
          (p' ∷ or_else a' [] ∷ or_else s' [] ∷ []) (inj _ _ (rw (ga, ga') at e)) in
      (ground arith, ground arith, ground arith)

  -- A global instance shares no identifier with a persistent one, unless its platform's name begins
  -- with a bracket.
  pub get_platform_id-global_ne :
      (p p' : Text) (a a' s s' : Option Text)
      → given a ≡ false
      → given a' ≡ true
      → ((t : Text) → p ≢ b'[' ∷ t)
      → get_platform_id hash_full p a s ≢ get_platform_id hash_full p' a' s'
  unfolding get_platform_id
  get_platform_id-global_ne p p' a a' s s' ga ga' plain e =
      let (t, h) = json_array-head (p' ∷ or_else a' [] ∷ or_else s' [] ∷ []) in
      plain t (inj _ _ (rw (ga, ga') at e) ∙ h)
