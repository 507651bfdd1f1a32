-- ===== src/NetAddress/Blocks.antt =====
-- packages/util/src/net/address.ts: the blocked addresses as blocks of numbers.
use mathlib.Core.List.{append_assoc, append-nil}
use sockethub.Base.{
  ℕ, ◌+◌, ◌*◌, ◌/◌, ◌%◌, ◌≤◌, ◌<◌, ◌≡◌, refl, sym, ap, ◌∙◌, Bool, true, false, ◌&&◌, ◌||◌, [], ◌∷◌,
  ◌++◌, Option, some, if◌then◌else◌, Text, nat_eq, ◌==◌, leb, map, arith, All, Bool-cases, inl, inr,
}
use sockethub.NetAddress.{
  split_at, blocked_octets, blocked_parts, Groups, is_embedding, is_blocked_ipv4, dotted,
  extract_embedded_ipv4, blocked_expanded,
}

-- Whether an address of 32 bits is in one of the blocks 0/8, 10/8, 127/8, 100.64/10, 169.254/16, 172.16/12
-- and 192.168/16.
abbrev pub in_blocks : ℕ → Bool
in_blocks n =
    n / 16777216 == 0
    || (n / 16777216 == 10
        || (n / 16777216 == 127
            || (n / 4194304 == 401
                || (n / 65536 == 43518 || (n / 1048576 == 2753 || n / 65536 == 49320)))))

abbrev number_of : ℕ → ℕ → ℕ → ℕ → ℕ
number_of a b c d = a * 16777216 + b * 65536 + c * 256 + d

-- The first 96 bits of an address as a number, and the three prefixes of addresses that carry an IPv4
-- one: compatible ::/96, mapped ::ffff:0:0/96 and translated 64:ff9b::/96.
abbrev first_96 : Groups → ℕ
first_96 x = ((((x.a * 65536 + x.b) * 65536 + x.c) * 65536 + x.d) * 65536 + x.e) * 65536 + x.f

abbrev pub carries : Groups → Bool
carries x = first_96 x == 65535 || (first_96 x == 0 || first_96 x == 6619035 * 18446744073709551616)

abbrev pub Is16 : Groups → Type 0
Is16 x =
    (x.a < 65536)
    × (x.b < 65536)
    × (x.c < 65536)
    × (x.d < 65536)
    × (x.e < 65536)
    × (x.f < 65536)
    × (x.g < 65536)
    × (x.h < 65536)

digit :
    (n m k l : ℕ) → m < 65536 → l < 65536 → (n * 65536 + m == k * 65536 + l) ≡ (n == k && m == l)
digit n m k l hm hl = ground (arith, hm, hl)

-- A number of 96 bits is another one exactly if all six digits are.
first_96-digits :
    (x : Groups) (b k l : ℕ)
    → Is16 x
    → k < 65536
    → l < 65536
    → (first_96 x == ((((b * 65536 + k) * 65536 + 0) * 65536 + 0) * 65536 + 0) * 65536 + l)
      ≡ (((((x.a == b && x.b == k) && x.c == 0) && x.d == 0) && x.e == 0) && x.f == l)
first_96-digits x b k l h hk hl =
    let x2 = x.a * 65536 + x.b in
    let x3 = x2 * 65536 + x.c in
    let x4 = x3 * 65536 + x.d in
    let x5 = x4 * 65536 + x.e in
    let k2 = b * 65536 + k in
    let k3 = k2 * 65536 + 0 in
    let k4 = k3 * 65536 + 0 in
    let k5 = k4 * 65536 + 0 in
    digit x5 x.f k5 l h.5 hl
    ∙ ap (λ t. t && x.f == l)
        (digit x4 x.e k4 0 h.4 (omega arith)
          ∙ ap (λ t. t && x.e == 0)
              (digit x3 x.d k3 0 h.3 (omega arith)
                ∙ ap (λ t. t && x.d == 0)
                    (digit x2 x.c k2 0 h.2 (omega arith)
                      ∙ ap (λ t. t && x.c == 0) (digit x.a x.b b k h.1 hk))))

and_assoc :
    (a b c d e f : Bool)
    → (((((a && b) && c) && d) && e) && f) ≡ (a && (b && (c && (d && (e && f)))))
and_assoc true b c d e f = and_assoc4 b c d e f
  where
    and_assoc4 : (b c d e f : Bool) → ((((b && c) && d) && e) && f) ≡ (b && (c && (d && (e && f))))
    and_assoc4 true true true e f = refl
    and_assoc4 true true false e f = refl
    and_assoc4 true false d e f = refl
    and_assoc4 false c d e f = refl
and_assoc false b c d e f = refl

is_embedding-carries : (x : Groups) → Is16 x → is_embedding x ≡ carries x
is_embedding-carries x h =
    let mapped = first_96-digits x 0 0 65535 h (omega arith) (omega arith) in
    let compatible = first_96-digits x 0 0 0 h (omega arith) (omega arith) in
    let translated = first_96-digits x 100 65435 0 h (omega arith) (omega arith) in
    rw (mapped, compatible, translated)
      (cases (x.a == 0) (x.b == 0) (x.c == 0) (x.d == 0) (x.e == 0) (x.f == 0) (x.f == 65535)
        (x.a == 100) (x.b == 65435))
  where
    cases :
        (a b c d e f m s t : Bool)
        → (((a && (b && (c && (d && e)))) && m)
            || (((a && (b && (c && (d && e)))) && f) || (s && (t && (c && (d && (e && f)))))))
          ≡ ((((((a && b) && c) && d) && e) && m)
              || ((((((a && b) && c) && d) && e) && f) || (((((s && t) && c) && d) && e) && f)))
    cases a b c d e f m s t =
        rw (and_assoc a b c d e m, and_assoc a b c d e f, and_assoc s t c d e f)
          (both a b c d e m f (s && (t && (c && (d && (e && f))))))
      where
        both :
            (a b c d e m f r : Bool)
            → (((a && (b && (c && (d && e)))) && m) || (((a && (b && (c && (d && e)))) && f) || r))
              ≡ ((a && (b && (c && (d && (e && m)))))
                  || ((a && (b && (c && (d && (e && f))))) || r))
        both true true true true e m f r = refl
        both true true true false e m f r = refl
        both true true false d e m f r = refl
        both true false c d e m f r = refl
        both false b c d e m f r = refl

module _ (a b c d : ℕ) (hb : b ≤ 255) (hc : c ≤ 255) (hd : d ≤ 255) where
  div_8 : number_of a b c d / 16777216 ≡ a
  div_8 = omega (arith, hb, hc, hd)

  div_10 : number_of a b c d / 4194304 ≡ a * 4 + b / 64
  div_10 = omega (arith, hb, hc, hd)

  div_12 : number_of a b c d / 1048576 ≡ a * 16 + b / 16
  div_12 = omega (arith, hb, hc, hd)

  div_16 : number_of a b c d / 65536 ≡ a * 256 + b
  div_16 = omega (arith, hb, hc, hd)

blocks_lem :
    (a b : ℕ)
    → b ≤ 255
    → blocked_octets a b ≡ (
        a == 0
        || (a == 10
            || (a == 127
                || (a * 4 + b / 64 == 401
                    || (a * 256 + b == 43518
                        || (a * 16 + b / 16 == 2753 || a * 256 + b == 49320))))))
unfolding blocked_octets
blocks_lem a b hb = ground (arith, hb)

octets-blocks :
    (a b c d : ℕ) → b ≤ 255 → c ≤ 255 → d ≤ 255 → blocked_octets a b ≡ in_blocks (number_of a b c d)
octets-blocks a b c d hb hc hd =
    rw
      (
        div_8 a b c d hb hc hd,
        div_10 a b c d hb hc hd,
        div_12 a b c d hb hc hd,
        div_16 a b c d hb hc hd,
      )
      (blocks_lem a b hb)

split-plain_part :
    (current part rest : Text)
    → All (λ c. (c == b'.') ≡ false) part
    → split_at b'.' current (part ++ b'.' ∷ rest) ≡ (current ++ part) ∷ split_at b'.' [] rest
unfolding split_at
split-plain_part current [] rest h = ap (λ t. t ∷ split_at b'.' [] rest) (sym (append-nil current))
split-plain_part current (c ∷ part) rest h = rw (h.0) (
    split-plain_part (current ++ c ∷ []) part rest h.1
    ∙ ap (λ t. t ∷ split_at b'.' [] rest) (append_assoc current (c ∷ []) part))

split-last_part :
    (current part : Text)
    → All (λ c. (c == b'.') ≡ false) part
    → split_at b'.' current part ≡ (current ++ part) ∷ []
unfolding split_at
split-last_part current [] h = ap (λ t. t ∷ []) (sym (append-nil current))
split-last_part current (c ∷ part) h = rw (h.0) (
    split-last_part (current ++ c ∷ []) part h.1
    ∙ ap (λ t. t ∷ []) (append_assoc current (c ∷ []) part))

-- What is printed for a byte has no dot, and reads back.
abbrev pub Prints : (Text → Option ℕ) → (ℕ → Text) → Type 0
Prints number decimal =
    (n : ℕ) → n ≤ 255 → (number (decimal n) ≡ some n) × All (λ c. (c == b'.') ≡ false) (decimal n)

module _ (number : Text → Option ℕ) (decimal : ℕ → Text) (prints : Prints number decimal) where
  parts-blocks :
      (a b c d : ℕ)
      → a ≤ 255
      → b ≤ 255
      → c ≤ 255
      → d ≤ 255
      → blocked_parts
          (number (decimal a) ∷ number (decimal b) ∷ number (decimal c) ∷ number (decimal d) ∷ [])
        ≡ in_blocks (number_of a b c d)
  unfolding blocked_parts
  parts-blocks a b c d ha hb hc hd =
      rw ((prints a ha).0, (prints b hb).0, (prints c hc).0, (prints d hd).0)
        (guard_lem ∙ octets-blocks a b c d hb hc hd)
    where
      guard_lem :
          (if leb a 255 && (leb b 255 && (leb c 255 && leb d 255))
            then blocked_octets a b
            else true)
          ≡ blocked_octets a b
      guard_lem = ground (arith, ha, hb, hc, hd)

  -- An address in four decimal bytes is blocked exactly if its number is in one of the blocks.
  ipv4-blocks :
      (a b c d : ℕ)
      → a ≤ 255
      → b ≤ 255
      → c ≤ 255
      → d ≤ 255
      → is_blocked_ipv4 number decimal
          (decimal a ++ (b'.' ∷ (decimal b ++ (b'.' ∷ (decimal c ++ (b'.' ∷ decimal d))))))
        ≡ in_blocks (number_of a b c d)
  unfolding is_blocked_ipv4
  ipv4-blocks a b c d ha hb hc hd =
      ap (λ ts. blocked_parts (map number ts))
        (split-plain_part [] (decimal a) _ (prints a ha).1
          ∙ ap (λ ts. decimal a ∷ ts) (split-plain_part [] (decimal b) _ (prints b hb).1)
          ∙ ap (λ ts. decimal a ∷ decimal b ∷ ts)
              (split-plain_part [] (decimal c) _ (prints c hc).1)
          ∙ ap (λ ts. decimal a ∷ decimal b ∷ decimal c ∷ ts)
              (split-last_part [] (decimal d) (prints d hd).1))
      ∙ parts-blocks a b c d ha hb hc hd

  dotted-blocks :
      (g h : ℕ)
      → g < 65536
      → h < 65536
      → is_blocked_ipv4 number decimal (dotted number decimal g h) ≡ in_blocks (g * 65536 + h)
  dotted-blocks g h hg hh =
      ipv4-blocks (g / 256) (g % 256) (h / 256) (h % 256) (omega (arith, hg)) (omega arith)
        (omega (arith, hh)) (omega arith)
      ∙ ap in_blocks (sum_lem g h)
    where
      sum_lem : (g h : ℕ) → number_of (g / 256) (g % 256) (h / 256) (h % 256) ≡ g * 65536 + h
      sum_lem g h = omega arith

  mask_lem :
      (n : ℕ)
      → (if (n / 512) * 512 == 64512 then true else if (n / 64) * 64 == 65152 then true else false)
        ≡ (n / 512 == 126 || n / 64 == 1018)
  mask_lem n = ground arith

  -- An address of eight groups of 16 bits is blocked exactly if, its first 96 bits being those of ::,
  -- ::ffff:0:0 or 64:ff9b::, its last 32 bits are the number of an address in one of the blocks of
  -- IPv4, or, the first 96 bits being others, it is in fc00::/7 or fe80::/10.
  pub blocked_expanded-blocks :
      (x : Groups)
      → Is16 x
      → blocked_expanded number decimal (some x) ≡ (
          if carries x then in_blocks (x.g * 65536 + x.h) else x.a / 512 == 126 || x.a / 64 == 1018)
  unfolding blocked_expanded extract_embedded_ipv4
  blocked_expanded-blocks x bits = elim (Bool-cases (is_embedding x)) [
    | inl y ↦ rw (sym (is_embedding-carries x bits), y) (dotted-blocks x.g x.h bits.6 bits.7)
    | inr n ↦ rw (sym (is_embedding-carries x bits), n) (mask_lem x.a)
  ]
