-- ===== src/NetAddress.antt =====
-- packages/util/src/net/address.ts: which addresses a server may not be sent to. `number` is JavaScript's
-- `Number` where it gives an integer from 0 on, and `decimal` prints one; both are the runtime's.
pub mod Blocks
mod Tests
use sockethub.Base.{
  ℕ, ◌+◌, ◌*◌, ◌/◌, ◌%◌, Bool, true, false, ◌&&◌, ◌||◌, not, List, [], ◌∷◌, ◌++◌, Option, none,
  some, if◌then◌else◌, Text, nat_eq, ◌==◌, leb, map,
}

-- `s.split(c)`; `current` is the part before.
unfoldable pub split_at : ℕ → Text → Text → List Text
split_at separator current [] = current ∷ []
split_at separator current (c ∷ s) =
    let ended = split_at separator [] s in
    let longer = split_at separator (current ++ c ∷ []) s in
    if c == separator then current ∷ ended else longer

unfoldable pub blocked_octets : ℕ → ℕ → Bool
blocked_octets a b =
    if a == 0
    then true
    else if a == 127
    then true
    else if a == 10
    then true
    else if a == 172 && (leb 16 b && leb b 31)
    then true
    else if a == 192 && b == 168
    then true
    else if a == 169 && b == 254
    then true
    else if a == 100 && (leb 64 b && leb b 127)
    then true
    else false

-- What is not four numbers is blocked.
unfoldable pub blocked_parts : List (Option ℕ) → Bool
blocked_parts [] = true
blocked_parts (none ∷ ps) = true
blocked_parts (some a ∷ []) = true
blocked_parts (some a ∷ none ∷ ps) = true
blocked_parts (some a ∷ some b ∷ []) = true
blocked_parts (some a ∷ some b ∷ none ∷ ps) = true
blocked_parts (some a ∷ some b ∷ some c ∷ []) = true
blocked_parts (some a ∷ some b ∷ some c ∷ none ∷ ps) = true
blocked_parts (some a ∷ some b ∷ some c ∷ some d ∷ []) =
    if leb a 255 && (leb b 255 && (leb c 255 && leb d 255)) then blocked_octets a b else true
blocked_parts (some a ∷ some b ∷ some c ∷ some d ∷ p ∷ ps) = true

-- The eight groups of an IPv6 address.
pub record Groups : Type 0 where
  pub a : ℕ
  pub b : ℕ
  pub c : ℕ
  pub d : ℕ
  pub e : ℕ
  pub f : ℕ
  pub g : ℕ
  pub h : ℕ

abbrev zero_prefix : Groups → Bool
zero_prefix x = x.a == 0 && (x.b == 0 && (x.c == 0 && (x.d == 0 && x.e == 0)))

abbrev pub is_embedding : Groups → Bool
is_embedding x =
    (zero_prefix x && x.f == 65535)
    || ((zero_prefix x && x.f == 0)
        || (x.a == 100 && (x.b == 65435 && (x.c == 0 && (x.d == 0 && (x.e == 0 && x.f == 0))))))

module _ (number : Text → Option ℕ) (decimal : ℕ → Text) where
  unfoldable pub is_blocked_ipv4 : Text → Bool
  is_blocked_ipv4 ip = blocked_parts (map number (split_at b'.' [] ip))

  abbrev pub dotted : ℕ → ℕ → Text
  dotted g h =
      decimal (g / 256)
      ++ (b'.' ∷ (decimal (g % 256) ++ (b'.' ∷ (decimal (h / 256) ++ (b'.' ∷ decimal (h % 256))))))

  unfoldable pub extract_embedded_ipv4 : Groups → Option Text
  extract_embedded_ipv4 x = if is_embedding x then some (dotted x.g x.h) else none

  -- `isBlockedIpv6` behind `expandIpv6`. The masks 0xfe00 and 0xffc0 of a group of 16 bits are written as
  -- divisions.
  abbrev pub blocked_embedded : Groups → Option Text → Bool
  blocked_embedded x none =
      if (x.a / 512) * 512 == 64512 then true else if (x.a / 64) * 64 == 65152 then true else false
  blocked_embedded x (some ip) = is_blocked_ipv4 ip

  unfoldable pub blocked_expanded : Option Groups → Bool
  blocked_expanded none = true
  blocked_expanded (some x) = blocked_embedded x (extract_embedded_ipv4 x)
