-- ===== src/Cors/Listed.antt =====
-- packages/server/src/cors.ts: an origin is allowed exactly if the configuration lists it.
use sockethub.Base.{
  ◌≡◌, ◌≢◌, refl, ◌∙◌, Bool, true, false, ◌&&◌, ◌||◌, not, List, [], ◌∷◌, ◌++◌, Option, none, some,
  is_some, if◌then◌else◌, Text, codes, text_eq, ◌==◌, any, arith, Bool-cases, subst, eq_of_beq, inl,
  inr,
}
use sockethub.Identity.{trim}
use sockethub.NetAddress.{split_at}
use sockethub.Cors.{
  Origins, any_origin, origins, includes_origin, add_origin, add_entry, collect_origins, parse_raw,
  parse_cors_origins, resolve_allowed_origin,
}

abbrev is_star : Text → Bool
is_star e = not (trim e == []) && trim e == codes "*"

-- Whether an entry stands for an origin.
abbrev stands_for : Option Text → Text → Bool
stands_for none o = false
stands_for (some p) o = not (p == codes "null") && p == o

kept_lem : (b : Bool) (request : Text) → is_some (if b then some request else none) ≡ b
kept_lem true request = refl
kept_lem false request = refl

module _ (origin_of : Text → Option Text) where
  abbrev lists : Text → Text → Bool
  lists o e = not (trim e == []) && stands_for (origin_of (trim e)) o

  -- Every origin, where an entry is a star; otherwise those that an entry stands for.
  abbrev pub listed : Text → List Text → Bool
  listed o es = any is_star es || any (lists o) es

  abbrev member : Text → Origins → Bool
  member o any_origin = true
  member o (origins os) = includes_origin o os

  includes-append :
      (o p : Text) (os : List Text)
      → includes_origin o (os ++ p ∷ []) ≡ (includes_origin o os || p == o)
  includes-append o p [] = ground arith
  includes-append o p (q ∷ os) = ground (arith, includes-append o p os)

  absorb_lem :
      (o p : Text) (os : List Text)
      → includes_origin p os ≡ true
      → (includes_origin o os || p == o) ≡ includes_origin o os
  absorb_lem o p os h = elim (Bool-cases (p == o)) [
    | inl y ↦ rw y (ground (arith, subst (λ t. includes_origin t os ≡ true) (eq_of_beq p o y) h))
    | inr n ↦ rw n (ground arith)
  ]

  member-add_origin :
      (o : Text) (p : Option Text) (next : List Text → Origins) (star later : Bool) (os : List Text)
      → ((us : List Text) → member o (next us) ≡ (star || (includes_origin o us || later)))
      → member o (add_origin p next os)
        ≡ (star || (includes_origin o os || (stands_for p o || later)))
  member-add_origin o none next star later os h = h os
  member-add_origin o (some p) next star later os h = elim (Bool-cases (p == codes "null")) [
    | inl y ↦ rw y (h os)
    | inr n ↦ elim (Bool-cases (includes_origin p os)) [
      | inl y ↦ rw (n, y) (h os ∙ ground (arith, absorb_lem o p os y))
      | inr m ↦ rw (n, m) (h (os ++ p ∷ []) ∙ ground (arith, includes-append o p os))
    ]
  ]

  member-add_entry :
      (o t : Text) (p : Option Text) (next : List Text → Origins) (star later : Bool)
      (os : List Text)
      → ((us : List Text) → member o (next us) ≡ (star || (includes_origin o us || later)))
      → member o (add_entry t p next os) ≡ (
          ((not (t == []) && t == codes "*") || star)
          || (includes_origin o os || ((not (t == []) && stands_for p o) || later)))
  member-add_entry o t p next star later os h = elim (Bool-cases (t == [])) [
    | inl y ↦ rw y (h os)
    | inr n ↦ elim (Bool-cases (t == codes "*")) [
      | inl y ↦ rw (n, y) refl
      | inr m ↦ rw (n, m) (member-add_origin o p next star later os h)
    ]
  ]

  member-collect_origins :
      (o : Text) (es os : List Text)
      → member o (collect_origins origin_of es os)
        ≡ (any is_star es || (includes_origin o os || any (lists o) es))
  unfolding collect_origins
  member-collect_origins o [] os = ground arith
  member-collect_origins o (e ∷ es) os =
      member-add_entry o (trim e) (origin_of (trim e)) (collect_origins origin_of es)
        (any is_star es) (any (lists o) es) os (member-collect_origins o es)

  member-allowed :
      (o request : Text) (allowed : Origins)
      → request ≢ []
      → origin_of request ≡ some o
      → is_some (resolve_allowed_origin origin_of allowed (some request)) ≡ member o allowed
  unfolding resolve_allowed_origin
  member-allowed o request any_origin n e = refl
  member-allowed o [] (origins os) n e = absurd (n refl)
  member-allowed o (c ∷ s) (origins os) n e = rw e (kept_lem (includes_origin o os) (c ∷ s))

  -- A request with an origin is allowed exactly if nothing or a star is configured, or one of the entries
  -- between the commas is a star or stands for that origin; an entry that is no URL, or whose origin is
  -- opaque, stands for none.
  pub resolve_allowed_origin-listed :
      (configured request o : Text)
      → request ≢ []
      → origin_of request ≡ some o
      → is_some (
          resolve_allowed_origin origin_of
            (parse_cors_origins origin_of (some configured))
            (some request))
        ≡ ((trim configured == [] || trim configured == codes "*")
            || listed o (split_at b',' [] (trim configured)))
  unfolding parse_cors_origins
  resolve_allowed_origin-listed configured request o n e =
      member-allowed o request (parse_raw origin_of (trim configured)) n e ∙ raw_lem
    where
      raw_lem : member o (parse_raw origin_of (trim configured)) ≡ (
          (trim configured == [] || trim configured == codes "*")
          || listed o (split_at b',' [] (trim configured)))
      raw_lem = elim (Bool-cases (trim configured == [] || trim configured == codes "*")) [
        | inl y ↦ rw y refl
        | inr m ↦ rw m (member-collect_origins o (split_at b',' [] (trim configured)) [])
      ]
