-- ===== src/CredentialsStore/Tests.antt =====
-- A store on which the theorem applies.
use sockethub.Base.{
  ℕ, ◌≡◌, ◌≢◌, refl, sym, subst, Bool, true, false, ◌&&◌, List, [], ◌∷◌, none, if◌then◌else◌, Text,
  codes, nat_eq, text_eq, ◌==◌, arith, length, eq_of_beq, Bool-cases, inl, inr,
}
use sockethub.Base.Table.{Table, get, has}
use sockethub.Identity.{build_credentials_store_id}
use sockethub.Escapes.{flat}
use sockethub.CredentialsStore.{escape_redis_glob, purge_pattern, purge_keys}
use sockethub.CredentialsStore.Purge.{IsGlob, answered, purge_keys-own}

-- A pattern with escapes and stars; the flag is set behind a backslash.
glob_match : Bool → Text → Text → Bool
glob_match escaped [] [] = true
glob_match escaped [] (d ∷ k) = false
glob_match escaped (c ∷ p) [] =
    let next = glob_match true p [] in
    if escaped then false else if c == 92 then next else if c == b'*' then true else false
glob_match escaped (c ∷ p) (d ∷ k) =
    let next = glob_match true p (d ∷ k) in
    let rest = glob_match false p k in
    if escaped
    then d == c && rest
    else if c == 92
    then next
    else if c == b'*'
    then true
    else d == c && rest

glob_match-IsGlob : IsGlob (glob_match false)
unfolding glob_match
glob_match-IsGlob = (
  λ c p. refl,
  λ c d p k. refl,
  λ c p h. ground (arith, h),
  λ c d p k h. ground (arith, h),
  elim [ [] ↦ refl | d ∷ k ↦ refl ],
)

abbrev parent : Text
parent = codes "ab*"

abbrev other : Text
other = codes "abc"

abbrev session : Text
session = codes "s1"

abbrev store : Table Text ℕ
store =
    (build_credentials_store_id parent session, 1)
    ∷ (build_credentials_store_id other session, 2)
    ∷ []

abbrev pages : List (List Text)
pages = [] ∷ (build_credentials_store_id parent session ∷ []) ∷ []

pages_matching :
    (k : Text) → answered k pages ≡ true → glob_match false (purge_pattern parent) k ≡ true
unfolding glob_match purge_pattern escape_redis_glob flat build_credentials_store_id
pages_matching k h =
    subst (λ t. glob_match false (purge_pattern parent) t ≡ true)
      (eq_of_beq (build_credentials_store_id parent session) k (first_lem h)) refl
  where
    first_lem : answered k pages ≡ true → (build_credentials_store_id parent session == k) ≡ true
    first_lem e = ground (arith, e)

other_lem :
    glob_match false (purge_pattern parent) (build_credentials_store_id other session) ≢ true
unfolding glob_match purge_pattern escape_redis_glob flat build_credentials_store_id
other_lem e = absurd (cc)

pages_complete :
    (k : Text)
    → has k store ≡ true
    → glob_match false (purge_pattern parent) k ≡ true
    → answered k pages ≡ true
unfolding get
pages_complete k here m = elim (Bool-cases (build_credentials_store_id parent session == k)) [
  | inl y ↦ rw y refl
  | inr n ↦ elim (Bool-cases (build_credentials_store_id other session == k)) [
    | inl y ↦ absurd (
        other_lem (
          subst (λ t. glob_match false (purge_pattern parent) t ≡ true)
            (sym (eq_of_beq (build_credentials_store_id other session) k y)) m))
    | inr o ↦ ground (arith, here, n, o)
  ]
]

purge_keys-own_example :
    ((session : Text)
      → get (build_credentials_store_id parent session) (purge_keys pages (store, 0)).0 ≡ none)
    × ((other session : Text)
        → length other ≡ length parent
        → other ≢ parent
        → get (build_credentials_store_id other session) (purge_keys pages (store, 0)).0
          ≡ get (build_credentials_store_id other session) store)
purge_keys-own_example =
    purge_keys-own (glob_match false) parent pages store glob_match-IsGlob pages_matching
      pages_complete
