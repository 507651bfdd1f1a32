-- ===== src/Middleware/Tests.antt =====
-- A chain and a message on which the theorems apply.
use sockethub.Base.{ℕ, ◌+◌, ◌≡◌, ◌↔◌, false, List, [], ◌∷◌, none, some, Text, codes, text_eq, inr}
use sockethub.Base.Table.{Table}
use sockethub.Context.{Activity, ContextRegistry}
use sockethub.Validator.{Ajv}
use sockethub.Middleware.{Reply, passes, passes_nothing, done}
use sockethub.Middleware.Through.{through, done-through}
use sockethub.Middleware.Validate.{run_validation}
use sockethub.Middleware.Accepts.{IsAccepted, run_validation-accepts}

-- The second handler passes nothing on, so the third gets what the chain was given.
abbrev handlers : List (ℕ → Reply ℕ)
handlers = (λ n. passes (n + 1)) ∷ (λ n. passes_nothing) ∷ (λ n. passes (n + 5)) ∷ []

done-through_example : done handlers 10 ≡ through 10 handlers (passes 10)
done-through_example = done-through handlers 10

abbrev ajv : Ajv
ajv = λ ref. some (λ msg. none)

abbrev contexts : ContextRegistry
contexts = record {
  platform_ids = (codes "u", codes "irc") ∷ [];
  schema_ids = (codes "u", codes "m") ∷ [];
  credentials_schema_ids = (codes "u", codes "c") ∷ [];
}

abbrev platforms : Table Text (List Text)
platforms = (codes "irc", codes "join" ∷ codes "send" ∷ []) ∷ []

abbrev join : Activity
join = record {
  context = codes "u" ∷ [];
  kind = codes "join";
  actor = none;
  error = none;
  session_secret = none;
  old_context = none;
  rest = [];
}

run_validation-accepts_example :
    (run_validation ajv contexts false platforms join ≡ inr join)
    ↔ ((join ≡ join) × IsAccepted ajv contexts platforms join)
run_validation-accepts_example = run_validation-accepts ajv contexts platforms join join
