-- ===== src/NetAddress/Tests.antt =====
-- Addresses on which the theorem applies.
use sockethub.Base.{
  ℕ, ◌+◌, ◌-◌, ◌*◌, ◌/◌, ◌%◌, ◌≡◌, ap, false, ◌||◌, [], ◌∷◌, Option, some, if◌then◌else◌, Text,
  nat_eq, ◌==◌, ltb, arith, All, if_cases,
}
use sockethub.NetAddress.{Groups, blocked_expanded}
use sockethub.NetAddress.Blocks.{in_blocks, Prints, Is16, carries, blocked_expanded-blocks}

abbrev value_of : ℕ → Text → ℕ
value_of n [] = n
value_of n (c ∷ s) = value_of (n * 10 + (c - 48)) s

abbrev number : Text → Option ℕ
number s = some (value_of 0 s)

abbrev decimal : ℕ → Text
decimal n =
    if ltb n 10
    then (48 + n) ∷ []
    else if ltb n 100
    then (48 + n / 10) ∷ (48 + n % 10) ∷ []
    else (48 + n / 100) ∷ (48 + (n / 10) % 10) ∷ (48 + n % 10) ∷ []

number-Prints : Prints number decimal
number-Prints n h =
    if_cases Reads (ltb n 10) (λ y. (ap some (ground (arith, y)), (ground (arith, y), tt)))
      (λ n1.
        if_cases Reads (ltb n 100)
          (λ y. (ap some (ground (arith, y)), (ground (arith, y), (ground (arith, y), tt))))
          (λ n2. (
            ap some (ground (arith, n2, h)),
            (ground (arith, n2, h), (ground (arith, n2, h), (ground (arith, n2, h), tt))),
          )))
  where
    Reads : Text → Type 0
    Reads t = (number t ≡ some n) × All (λ c. (c == b'.') ≡ false) t

-- ::ffff:127.0.0.1
abbrev mapped : Groups
mapped = record { a = 0; b = 0; c = 0; d = 0; e = 0; f = 65535; g = 32512; h = 1 }

mapped-Is16 : Is16 mapped
mapped-Is16 = (
  omega arith,
  omega arith,
  omega arith,
  omega arith,
  omega arith,
  omega arith,
  omega arith,
  omega arith,
)

blocked_expanded-blocks_example : blocked_expanded number decimal (some mapped) ≡ (
    if carries mapped
    then in_blocks (mapped.g * 65536 + mapped.h)
    else mapped.a / 512 == 126 || mapped.a / 64 == 1018)
blocked_expanded-blocks_example =
    blocked_expanded-blocks number decimal number-Prints mapped mapped-Is16
