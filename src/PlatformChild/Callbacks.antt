-- ===== src/PlatformChild/Callbacks.antt =====
-- packages/server/src/platform.ts: the first callback of a job decides it.
use sockethub.Base.{ℕ, ◌≡◌, List, [], ◌∷◌, ◌++◌, Option, none, some, Text}
use sockethub.Stream.{Stream}
use sockethub.PlatformChild.{
  JobOutcome, resolved, rejected, Run, Child, settle_job, marked, callback_outcome, item_at,
}

-- What a callback says: an error rejects the job, a result resolves it.
abbrev pub verdict : Option Text → Option Stream → JobOutcome
verdict none result = resolved result
verdict (some error) result = rejected error

-- What goes to Sentry.
abbrev pub error_list : Option Text → List Text
error_list none = []
error_list (some error) = error ∷ []

-- The run of a job after its first callback.
abbrev decided : Option Text → Option Stream → Run → Run
decided error result run = settle_job (callback_outcome error result) (marked run)

abbrev First : ℕ → Run → Option Text → Option Stream → Child → Child → Type 0
First i run error result c d =
    (d.reported ≡ c.reported ++ error_list error)
    × (item_at i d.runs ≡ some (decided error result run))
