-- ===== src/JobQueue/Tests.antt =====
-- A queue on which the theorems apply.
use sockethub.Base.{
  ℕ, zero, suc, ◌≡◌, refl, ap, sym, ◌∙◌, false, List, [], ◌∷◌, ◌++◌, none, some, Text, codes, ◌⊎◌,
  inr, All, map, nat_eq, ◌==◌, length,
}
use sockethub.Context.{Activity, ContextRegistry}
use sockethub.JobQueue.{
  JobQueue, queue_step, add, create_job, title_of, JobDataDecrypted, QueueEvent, adds, pauses,
  resumes, takes, queue_steps, new_job_queue, decrypt_job_data,
}
use sockethub.JobQueue.Order.{Deciphers}
use sockethub.JobQueue.Titles.{PrintsNumbers, Unlike, queue_steps-Unlike}

abbrev registry : ContextRegistry
registry = record { platform_ids = []; schema_ids = []; credentials_schema_ids = [] }

abbrev message_of : Text → Activity
message_of kind = record {
  context = [];
  kind = kind;
  actor = none;
  error = none;
  session_secret = some (codes "s");
  old_context = none;
  rest = [];
}

-- A cipher of two messages, and numbers as strokes.
abbrev encrypt : Text → Activity → Text → Text
encrypt iv m secret = m.kind

abbrev decrypt : Text → Text → Text ⊎ Activity
decrypt t secret = inr (message_of t)

strokes : ℕ → Text
strokes zero = []
strokes (suc n) = b'1' ∷ strokes n

length-strokes : (n : ℕ) → length (strokes n) ≡ n
unfolding strokes
length-strokes zero = refl
length-strokes (suc n) = ap suc (length-strokes n)

plain_lem : (n : ℕ) → All (λ c. (c == b'-') ≡ false) (strokes n)
unfolding strokes
plain_lem zero = tt
plain_lem (suc n) = (refl, plain_lem n)

strokes-PrintsNumbers : PrintsNumbers strokes
strokes-PrintsNumbers =
    (plain_lem, λ n m e. sym (length-strokes n) ∙ ap length e ∙ length-strokes m)

abbrev events : List QueueEvent
events =
    adds (codes "iv0") (codes "s1") (message_of (codes "send"))
    ∷ takes
    ∷ pauses
    ∷ adds (codes "iv1") (codes "s2") (message_of (codes "join"))
    ∷ resumes
    ∷ adds (codes "iv2") (codes "s2") (message_of (codes "join"))
    ∷ []

events-Deciphers : All (Deciphers registry strokes encrypt (codes "k") decrypt) events
events-Deciphers = (refl, (tt, (tt, (refl, (tt, (refl, tt))))))

queue_steps-Unlike_example :
    (jobs : List JobDataDecrypted) × ((queue_steps registry strokes encrypt
          (codes "k")
          decrypt
          events
          new_job_queue).handled
        ++ map
            (decrypt_job_data decrypt (codes "k"))
            (queue_steps registry strokes encrypt (codes "k") decrypt events new_job_queue).stored
      ≡ map inr jobs)
    × Unlike (map (λ job. job.title) jobs)
queue_steps-Unlike_example =
    queue_steps-Unlike registry strokes strokes-PrintsNumbers encrypt (codes "k") decrypt events
      events-Deciphers

-- A queue object that is made over a queue that still has a job of its predecessor counts from 0 again.
abbrev left_behind : JobQueue
left_behind =
    queue_steps registry strokes encrypt (codes "k") decrypt
      (adds (codes "iv0") (codes "s1") (message_of (codes "send")) ∷ []) new_job_queue

restart_test :
    map
      (λ job. job.title)
      (queue_steps registry strokes encrypt
        (codes "k")
        decrypt
        (adds (codes "iv1") (codes "s2") (message_of (codes "join")) ∷ [])
        (record left_behind { counter = 0 })).stored
    ≡ title_of registry strokes (message_of (codes "send")) 0
      ∷ title_of registry strokes (message_of (codes "join")) 0
      ∷ []
unfolding queue_steps queue_step add create_job title_of
restart_test = refl
