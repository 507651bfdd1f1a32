-- ===== src/Cors/Tests.antt =====
-- A configuration on which the theorem applies.
use sockethub.Base.{◌≡◌, refl, ◌||◌, [], ◌++◌, Option, some, is_some, Text, codes, text_eq, ◌==◌}
use sockethub.Identity.{trim}
use sockethub.NetAddress.{split_at}
use sockethub.Cors.{parse_cors_origins, resolve_allowed_origin}
use sockethub.Cors.Listed.{listed, resolve_allowed_origin-listed}

-- A stand-in for `new URL(s).origin`.
abbrev same : Text → Option Text
same s = some s

abbrev app : Text
app = codes "https://app.example.com"

abbrev configured : Text
configured = codes "http://localhost, , null," ++ app

resolve_allowed_origin-listed_example :
    is_some (resolve_allowed_origin same (parse_cors_origins same (some configured)) (some app)) ≡ (
      (trim configured == [] || trim configured == codes "*")
      || listed same app (split_at b',' [] (trim configured)))
resolve_allowed_origin-listed_example =
    resolve_allowed_origin-listed same configured app app (λ e. absurd (cc)) refl
