-- ===== src/CredentialsStore/Purge.antt =====
-- packages/data-layer/src/credentials-store.ts: which keys an instance gives back.
use sockethub.Base.{
  ℕ, ◌+◌, ◌≡◌, ◌≢◌, refl, sym, ap, subst, ◌∙◌, Bool, true, false, ◌&&◌, ◌||◌, List, [], ◌∷◌, ◌++◌,
  none, if◌then◌else◌, Text, codes, nat_eq, text_eq, ◌==◌, inl, inr, arith, length, Bool-cases,
  eq_refl, eq_of_beq,
}
use sockethub.Base.Table.{Table, get, delete, has, get-delete}
use sockethub.Identity.{build_credentials_store_id, starts_with}
use sockethub.Escapes.{flat}
use sockethub.CredentialsStore.{
  is_glob, glob_code, escape_redis_glob, purge_pattern, purge_page, purge_keys,
}

-- What Redis documents of the patterns of `SCAN`, as far as the pattern above needs it.
abbrev pub IsGlob : (Text → Text → Bool) → Type 0
IsGlob is_match =
    ((c : ℕ) (p : Text) → is_match (92 ∷ c ∷ p) [] ≡ false)
    × ((c d : ℕ) (p k : Text) → is_match (92 ∷ c ∷ p) (d ∷ k) ≡ (d == c && is_match p k))
    × ((c : ℕ) (p : Text) → is_glob c ≡ false → is_match (c ∷ p) [] ≡ false)
    × ((c d : ℕ) (p k : Text)
        → is_glob c ≡ false
        → is_match (c ∷ p) (d ∷ k) ≡ (d == c && is_match p k))
    × ((k : Text) → is_match (b'*' ∷ []) k ≡ true)

module _ (is_match : Text → Text → Bool) (redis : IsGlob is_match) where
  escaped-match : (s k : Text) → is_match (flat glob_code s ++ b'*' ∷ []) k ≡ starts_with k s
  unfolding flat starts_with
  escaped-match [] k = redis.4 k
  escaped-match (c ∷ s) [] = elim (Bool-cases (is_glob c)) [
    | inl y ↦ rw y (redis.0 c (flat glob_code s ++ b'*' ∷ []))
    | inr n ↦ rw n (redis.2 c (flat glob_code s ++ b'*' ∷ []) n)
  ]
  escaped-match (c ∷ s) (d ∷ k) =
      let rest = escaped-match s k in
      elim (Bool-cases (is_glob c)) [
        | inl y ↦ rw y (redis.1 c d (flat glob_code s ++ b'*' ∷ []) k ∙ ap (λ b. d == c && b) rest)
        | inr n ↦
            rw n (redis.3 c d (flat glob_code s ++ b'*' ∷ []) k n ∙ ap (λ b. d == c && b) rest)
      ]

  -- The pattern of an instance stands for the keys that begin with the name of its stores.
  pattern-match :
      (parent_id k : Text)
      → is_match (purge_pattern parent_id) k
        ≡ starts_with k (build_credentials_store_id parent_id [])
  unfolding purge_pattern escape_redis_glob
  pattern-match parent_id k = escaped-match (build_credentials_store_id parent_id []) k

-- Whether a key is in the list.
abbrev listed : Text → List Text → Bool
listed k [] = false
listed k (j ∷ js) = j == k || listed k js

abbrev pub answered : Text → List (List Text) → Bool
answered k [] = false
answered k (js ∷ pages) = listed k js || answered k pages

get-page {ℓ} :
    {V : Type ℓ} (k : Text) (keys : List Text) (done : Table Text V × ℕ)
    → get k (purge_page keys done).0 ≡ (if listed k keys then none else get k done.0)
unfolding purge_page
get-page k [] done = refl
get-page k (j ∷ js) done = ground (
  arith,
  get-page k js (delete j done.0, if has j done.0 then done.1 + 1 else done.1),
  get-delete j k done.0,
)

get-pages {ℓ} :
    {V : Type ℓ} (k : Text) (pages : List (List Text)) (done : Table Text V × ℕ)
    → get k (purge_keys pages done).0 ≡ (if answered k pages then none else get k done.0)
unfolding purge_keys
get-pages k [] done = refl
get-pages k (js ∷ pages) done =
    ground (arith, get-pages k pages (purge_page js done), get-page k js done)

starts_with-append : (s t : Text) → starts_with (s ++ t) s ≡ true
unfolding starts_with
starts_with-append [] t = refl
starts_with-append (c ∷ s) t = rw (eq_refl c) (starts_with-append s t)

starts_with-cancel : (p s t : Text) → starts_with (p ++ s) (p ++ t) ≡ starts_with s t
unfolding starts_with
starts_with-cancel [] s t = refl
starts_with-cancel (c ∷ p) s t = rw (eq_refl c) (starts_with-cancel p s t)

-- Names of one length that begin alike are the same.
starts_with-same :
    (a b s t : Text) → length a ≡ length b → starts_with (a ++ s) (b ++ t) ≡ true → a ≡ b
unfolding starts_with
starts_with-same [] [] s t l h = refl
starts_with-same [] (d ∷ b) s t l h = absurd (omega (arith, l))
starts_with-same (c ∷ a) [] s t l h = absurd (omega (arith, l))
starts_with-same (c ∷ a) (d ∷ b) s t l h = elim (Bool-cases (c == d)) [
  | inl y ↦ λ i. eq_of_beq c d y i ∷ starts_with-same a b s t (omega (arith, l)) (tail_lem y) i
  | inr n ↦ ground (arith, n, h)
]
  where
    tail_lem : (c == d) ≡ true → starts_with (a ++ s) (b ++ t) ≡ true
    tail_lem y = subst (λ x. (x && starts_with (a ++ s) (b ++ t)) ≡ true) y h

own-prefix :
    (parent session : Text)
    → starts_with (build_credentials_store_id parent session) (build_credentials_store_id parent [])
      ≡ true
unfolding build_credentials_store_id
own-prefix parent session =
    starts_with-cancel (codes "sockethub:")
      (parent ++ (codes ":data-layer:credentials-store:" ++ session))
      (parent ++ (codes ":data-layer:credentials-store:" ++ []))
    ∙ starts_with-cancel parent (codes ":data-layer:credentials-store:" ++ session)
        (codes ":data-layer:credentials-store:" ++ [])
    ∙ starts_with-cancel (codes ":data-layer:credentials-store:") session []
    ∙ starts_with-append [] session

other-prefix :
    (parent other session : Text)
    → length other ≡ length parent
    → other ≢ parent
    → starts_with (build_credentials_store_id other session) (build_credentials_store_id parent [])
      ≡ false
unfolding build_credentials_store_id
other-prefix parent other session l n = elim (Bool-cases found) [
  | inl y ↦ absurd (
      n (
        starts_with-same other parent (codes ":data-layer:credentials-store:" ++ session)
          (codes ":data-layer:credentials-store:" ++ []) l
          (sym (
              starts_with-cancel (codes "sockethub:")
                (other ++ (codes ":data-layer:credentials-store:" ++ session))
                (parent ++ (codes ":data-layer:credentials-store:" ++ [])))
            ∙ y)))
  | inr f ↦ f
]
  where
    found : Bool
    found =
        starts_with (build_credentials_store_id other session)
          (build_credentials_store_id parent [])

module _ {ℓ} {V : Type ℓ} (is_match : Text → Text → Bool) (parent : Text) (pages : List (List Text))
    (store : Table Text V) where
  purge-get :
      IsGlob is_match
      → ((k : Text) → answered k pages ≡ true → is_match (purge_pattern parent) k ≡ true)
      → ((k : Text)
          → has k store ≡ true
          → is_match (purge_pattern parent) k ≡ true
          → answered k pages ≡ true)
      → (k : Text)
      → get k (purge_keys pages (store, 0)).0
        ≡ (if starts_with k (build_credentials_store_id parent []) then none else get k store)
  purge-get redis matching complete k =
      get-pages k pages (store, 0)
      ∙ ground (arith, matching k, complete k, pattern-match is_match redis parent k)

  -- When Redis answers `SCAN` with keys that match the pattern, every one that is there among them, an
  -- instance gives back all stores of its own sessions and leaves those of every other instance, whose
  -- identifier has the same length, as they are.
  pub purge_keys-own :
      IsGlob is_match
      → ((k : Text) → answered k pages ≡ true → is_match (purge_pattern parent) k ≡ true)
      → ((k : Text)
          → has k store ≡ true
          → is_match (purge_pattern parent) k ≡ true
          → answered k pages ≡ true)
      → ((session : Text)
          → get (build_credentials_store_id parent session) (purge_keys pages (store, 0)).0 ≡ none)
        × ((other session : Text)
            → length other ≡ length parent
            → other ≢ parent
            → get (build_credentials_store_id other session) (purge_keys pages (store, 0)).0
              ≡ get (build_credentials_store_id other session) store)
  purge_keys-own redis matching complete = (
    λ session.
        rw
          (
            purge-get redis matching complete (build_credentials_store_id parent session),
            own-prefix parent session,
          )
          refl,
    λ other session l n.
        rw
          (
            purge-get redis matching complete (build_credentials_store_id other session),
            other-prefix parent other session l n,
          )
          refl,
  )
