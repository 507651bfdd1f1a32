-- ===== src/Identity/Address.antt =====
-- The client address under which a scope is recorded.
use sockethub.Base.{
  ◌≡◌, refl, ◌≢◌, true, false, [], ◌∷◌, ◌++◌, some, arith, Text, nat_eq, if◌then◌else◌, All, ◌∙◌,
  drop,
}
use sockethub.Identity.{
  truthy, is_space, trim_start, trim_end, trim, before_comma, starts_with, mapped_prefix,
  normalize_ip,
}

before_comma-append : (v rest : Text) → All (λ c. c ≢ b',') v → before_comma (v ++ b',' ∷ rest) ≡ v
unfolding before_comma
before_comma-append [] rest h = refl
before_comma-append (c ∷ v) rest h = ground (arith, before_comma-append v rest h.1)

before_comma_self : (v : Text) → All (λ c. c ≢ b',') v → before_comma v ≡ v
unfolding before_comma
before_comma_self [] h = refl
before_comma_self (c ∷ v) h = ground (arith, before_comma_self v h.1)

-- The characters of an address as it is written.
abbrev pub IsAddress : Text → Type 0
IsAddress = All (λ c. (c ≢ b',') × (is_space c ≡ false))

NoComma : (v : Text) → IsAddress v → All (λ c. c ≢ b',') v
NoComma [] h = tt
NoComma (c ∷ v) h = (h.0.0, NoComma v h.1)

trim_end-address : (v : Text) → IsAddress v → trim_end v ≡ v
unfolding trim_end
trim_end-address [] h = refl
trim_end-address (c ∷ []) h = rw h.0.1
trim_end-address (c ∷ d ∷ v) h = rw (trim_end-address (d ∷ v) h.1)

trim_start-address : (v : Text) → IsAddress v → trim_start v ≡ v
unfolding trim_start
trim_start-address [] h = refl
trim_start-address (c ∷ v) h = rw h.0.1

trim-address : (v : Text) → IsAddress v → trim v ≡ v
unfolding trim
trim-address v h = rw (trim_start-address v h, trim_end-address v h)

IsAddress-mapped : (v : Text) → IsAddress v → IsAddress (mapped_prefix ++ v)
IsAddress-mapped v h =
    let colon : (b':' ≢ b',') × (is_space b':' ≡ false) = (omega arith, refl) in
    let letter : (b'f' ≢ b',') × (is_space b'f' ≡ false) = (omega arith, refl) in
    (colon, (colon, (letter, (letter, (letter, (letter, (colon, h)))))))

normalize_ip-address :
    (s w : Text)
    → truthy s ≡ true
    → before_comma s ≡ w
    → IsAddress w
    → normalize_ip (some s) ≡ (if starts_with w mapped_prefix then drop 7 w else w)
unfolding normalize_ip
normalize_ip-address s w t b h = rw (t, b, trim-address w h)

truthy-append : (v t : Text) → truthy v ≡ true → truthy (v ++ t) ≡ true
truthy-append [] t h = absurd (cc)
truthy-append (c ∷ v) t h = refl

starts_with-append : (p v : Text) → starts_with (p ++ v) p ≡ true
unfolding starts_with
starts_with-append [] v = refl
starts_with-append (c ∷ p) v = ground (arith, starts_with-append p v)

module _ (v rest : Text) (some_char : truthy v ≡ true) (address : IsAddress v) where
  -- The ways to write one plain address, alone, first in a forwarded list, and either of these mapped
  -- into IPv6, come out as the address itself.
  pub normalize_ip-canonical :
      starts_with v mapped_prefix ≡ false
      → (normalize_ip (some v) ≡ v)
        × (normalize_ip (some (v ++ b',' ∷ rest)) ≡ v)
        × (normalize_ip (some (mapped_prefix ++ v)) ≡ v)
        × (normalize_ip (some ((mapped_prefix ++ v) ++ b',' ∷ rest)) ≡ v)
  normalize_ip-canonical plain =
      let mapped = IsAddress-mapped v address in
      let mv = mapped_prefix ++ v in
      let out : (if starts_with mv mapped_prefix then drop 7 mv else mv) ≡ v =
        rw (starts_with-append mapped_prefix v) in
      (
        normalize_ip-address v v some_char (before_comma_self v (NoComma v address)) address
            ∙ rw plain,
        normalize_ip-address (v ++ b',' ∷ rest) v (truthy-append v _ some_char)
              (before_comma-append v rest (NoComma v address)) address
            ∙ rw plain,
        normalize_ip-address mv mv refl (before_comma_self mv (NoComma mv mapped)) mapped ∙ out,
        normalize_ip-address (mv ++ b',' ∷ rest) mv refl
              (before_comma-append mv rest (NoComma mv mapped)) mapped
            ∙ out,
      )
