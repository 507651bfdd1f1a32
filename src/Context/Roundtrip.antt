-- ===== src/Context/Roundtrip.antt =====
-- The platform id that a canonical context was built from can be read back from it.
use sockethub.Base.{
  ◌≡◌, refl, ◌≢◌, ◌⊎◌, Bool, true, false, ◌&&◌, not, [], ◌∷◌, ◌++◌, some, arith, Text, codes,
  nat_eq, text_eq, ◌==◌, Bool-cases, inl, inr, ap, length, drop, take, eq_refl,
}
use sockethub.Identity.{starts_with}
use sockethub.Context.{
  build_canonical_context, platform_id_from_context, platform_id_of_entry, until_slash,
  index_of_slash, platform_context_prefix,
}

-- A platform's name has no slash.
abbrev pub slash_free : Text → Bool
slash_free [] = true
slash_free (c ∷ s) = not (c == b'/') && slash_free s

starts-slash_free :
    (s p : Text) → starts_with s p ≡ true → slash_free s ≡ true → slash_free p ≡ true
unfolding starts_with
starts-slash_free s [] h f = refl
starts-slash_free [] (c ∷ p) h f = cc
starts-slash_free (d ∷ s) (c ∷ p) h f = ground (arith, h, f, starts-slash_free s p)

starts-append : (p x : Text) → starts_with (p ++ x) p ≡ true
unfolding starts_with
starts-append [] x = refl
starts-append (c ∷ p) x = rw (eq_refl c) (starts-append p x)

drop-append : (p x : Text) → drop (length p) (p ++ x) ≡ x
drop-append [] x = refl
drop-append (c ∷ p) x = drop-append p x

take-append : (p x : Text) → take (length p) (p ++ x) ≡ p
take-append [] x = refl
take-append (c ∷ p) x = ap (λ t. c ∷ t) (take-append p x)

index_of_slash-append :
    (p x : Text) → slash_free p ≡ true → index_of_slash (p ++ b'/' ∷ x) ≡ some (length p)
unfolding index_of_slash
index_of_slash-append [] x f = refl
index_of_slash-append (c ∷ p) x f = ground (arith, f, index_of_slash-append p x)

-- What follows the prefix is read up to the slash.
platform_id_of_entry-own :
    (p x : Text)
    → slash_free p ≡ true
    → p ≢ []
    → platform_id_of_entry (platform_context_prefix ++ (p ++ b'/' ∷ x)) ≡ some p
platform_id_of_entry-own p x f n =
    rw (starts-append platform_context_prefix (p ++ b'/' ∷ x))
      (rw (index_of_slash-append p x f) (read p n))
  where
    read : (q : Text) → q ≢ [] → until_slash (q ++ b'/' ∷ x) (some (length q)) ≡ some q
    read [] n = ground (arith, n)
    read (c ∷ q) n = ground (arith, take-append q (b'/' ∷ x))

-- A platform whose name has no slash, and has a character, is read back from the context that is
-- built for it.
pub platform_id_from_context-build :
    (platform : Text)
    → slash_free platform ≡ true
    → platform ≢ []
    → platform_id_from_context (build_canonical_context platform) ≡ some platform
unfolding platform_id_from_context build_canonical_context
platform_id_from_context-build platform f n =
    rw (foreign (Bool-cases (starts_with platform (codes "https://"))))
      (rw (platform_id_of_entry-own platform (codes "v1.jsonld") f n) refl)
  where
    foreign :
        (starts_with platform (codes "https://") ≡ true)
          ⊎ (starts_with platform (codes "https://") ≡ false)
        → starts_with platform (codes "https://") ≡ false
    foreign (inl h) = let g = starts-slash_free platform (codes "https://") h f in cc
    foreign (inr h) = h
