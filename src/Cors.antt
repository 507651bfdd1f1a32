-- ===== src/Cors.antt =====
-- packages/server/src/cors.ts: which origins may read the server's answers. `origin_of` is `new URL(s).origin`,
-- none where it throws.
mod Listed
mod Tests
use sockethub.Base.{
  Bool, true, false, ◌||◌, List, [], ◌∷◌, ◌++◌, Option, none, some, if◌then◌else◌, Text, codes,
  text_eq, ◌==◌, any,
}
use sockethub.Identity.{trim}
use sockethub.NetAddress.{split_at}

-- `"*" | Array<string>`.
pub data Origins : Type 0 where
  any_origin : Origins
  origins : List Text → Origins

abbrev pub includes_origin : Text → List Text → Bool
includes_origin o os = any (λ u. u == o) os

abbrev pub add_origin : Option Text → (List Text → Origins) → List Text → Origins
add_origin none next os = next os
add_origin (some o) next os =
    if o == codes "null"
    then next os
    else if includes_origin o os
    then next os
    else next (os ++ o ∷ [])

abbrev pub add_entry : Text → Option Text → (List Text → Origins) → List Text → Origins
add_entry trimmed o next os =
    if trimmed == []
    then next os
    else if trimmed == codes "*"
    then any_origin
    else add_origin o next os

module _ (origin_of : Text → Option Text) where
  -- The loop, from the entries that are left.
  unfoldable pub collect_origins : List Text → List Text → Origins
  collect_origins [] os = origins os
  collect_origins (e ∷ es) os = add_entry (trim e) (origin_of (trim e)) (collect_origins es) os

  abbrev pub parse_raw : Text → Origins
  parse_raw raw =
      if raw == [] || raw == codes "*"
      then any_origin
      else collect_origins (split_at b',' [] raw) []

  -- What is not a text counts as empty.
  unfoldable pub parse_cors_origins : Option Text → Origins
  parse_cors_origins none = parse_raw []
  parse_cors_origins (some configured) = parse_raw (trim configured)

  abbrev pub allow_origin : List Text → Text → Option Text → Option Text
  allow_origin os request none = none
  allow_origin os request (some o) = if includes_origin o os then some request else none

  unfoldable pub resolve_allowed_origin : Origins → Option Text → Option Text
  resolve_allowed_origin any_origin request = some (codes "*")
  resolve_allowed_origin (origins os) none = none
  resolve_allowed_origin (origins os) (some []) = none
  resolve_allowed_origin (origins os) (some (c ∷ s)) = allow_origin os (c ∷ s) (origin_of (c ∷ s))
