-- ===== src/JobQueue/Order.antt =====
-- packages/data-layer/src/job-queue.ts and job-worker.ts: what the worker gets of what the server adds.
use mathlib.Core.List.{append_assoc, append-nil}
use sockethub.Base.{
  ℕ, ◌+◌, ◌≡◌, refl, sym, ap, ◌∙◌, Bool, true, false, List, [], ◌∷◌, ◌++◌, if◌then◌else◌, Text, ◌⊎◌,
  inr, map, if_both, All,
}
use sockethub.Context.{Activity, ContextRegistry}
use sockethub.JobQueue.{
  JobDataEncrypted, JobDataDecrypted, JobQueue, QueueEvent, adds, pauses, resumes, takes,
  new_job_queue, with_pause, title_of, create_job, add, with_message, decrypt_job_data, take_job,
  queue_step, queue_steps,
}

module _ (g : ContextRegistry) (print : ℕ → Text) where
  -- The jobs that the server was able to add, each with its session, its message and its number.
  abbrev pub accepted : Bool → ℕ → List QueueEvent → List JobDataDecrypted
  accepted paused n [] = []
  accepted paused n (adds iv session m ∷ es) =
      let later = accepted paused (n + 1) es in
      if paused
      then later
      else record { title = title_of g print m n; msg = m; session_id = session } ∷ later
  accepted paused n (pauses ∷ es) = accepted true n es
  accepted paused n (resumes ∷ es) = accepted false n es
  accepted paused n (takes ∷ es) = accepted paused n es

  module _ (encrypt : Text → Activity → Text → Text) (secret : Text)
      (decrypt : Text → Text → Text ⊎ Activity) where
    -- The cipher takes back its own work on the message that is added.
    abbrev pub Deciphers : QueueEvent → Type 0
    Deciphers (adds iv session m) = decrypt (encrypt iv m secret) secret ≡ inr m
    Deciphers pauses = Unit
    Deciphers resumes = Unit
    Deciphers takes = Unit

    abbrev read_jobs : List JobDataEncrypted → List (Text ⊎ JobDataDecrypted)
    read_jobs jobs = map (decrypt_job_data decrypt secret) jobs

    abbrev done_and_stored : JobQueue → List (Text ⊎ JobDataDecrypted)
    done_and_stored q = q.handled ++ read_jobs q.stored

    read-create_job :
        (iv session : Text) (m : Activity) (n : ℕ)
        → decrypt (encrypt iv m secret) secret ≡ inr m
        → decrypt_job_data decrypt secret (create_job g print encrypt secret iv session m n)
          ≡ inr (record { title = title_of g print m n; msg = m; session_id = session })
    unfolding decrypt_job_data create_job
    read-create_job iv session m n cipher =
        ap (with_message (create_job g print encrypt secret iv session m n)) cipher

    read-append :
        (jobs : List JobDataEncrypted) (job : JobDataEncrypted)
        → read_jobs (jobs ++ job ∷ []) ≡ read_jobs jobs ++ decrypt_job_data decrypt secret job ∷ []
    read-append [] job = refl
    read-append (j ∷ jobs) job =
        ap (λ t. decrypt_job_data decrypt secret j ∷ t) (read-append jobs job)

    abbrev step_of : QueueEvent → JobQueue → JobQueue
    step_of e q = queue_step g print encrypt secret decrypt e q

    stored-take_job :
        (jobs : List JobDataEncrypted) (q : JobQueue)
        → q.stored ≡ jobs
        → done_and_stored (take_job decrypt secret jobs q) ≡ done_and_stored q
    stored-take_job [] q e = refl
    stored-take_job (job ∷ jobs) q e =
        append_assoc q.handled (decrypt_job_data decrypt secret job ∷ []) (read_jobs jobs)
        ∙ ap (λ t. q.handled ++ read_jobs t) (sym e)

    stored-add :
        (b : Bool) (done : List (Text ⊎ JobDataDecrypted)) (jobs : List JobDataEncrypted)
        (job : JobDataEncrypted) (d : JobDataDecrypted) (later : List JobDataDecrypted)
        → decrypt_job_data decrypt secret job ≡ inr d
        → (done ++ read_jobs (if b then jobs else jobs ++ job ∷ [])) ++ map inr later
          ≡ (done ++ read_jobs jobs) ++ map inr (if b then later else d ∷ later)
    stored-add true done jobs job d later e = refl
    stored-add false done jobs job d later e =
        rw (read-append jobs job, e)
          (ap (λ t. t ++ map inr later) (sym (append_assoc done (read_jobs jobs) (inr d ∷ [])))
            ∙ append_assoc (done ++ read_jobs jobs) (inr d ∷ []) (map inr later))

    stored-queue_steps :
        (es : List QueueEvent) (q : JobQueue)
        → All Deciphers es
        → done_and_stored (queue_steps g print encrypt secret decrypt es q)
          ≡ done_and_stored q ++ map inr (accepted q.paused q.counter es)
    unfolding queue_steps queue_step add
    stored-queue_steps [] q h = sym (append-nil (done_and_stored q))
    stored-queue_steps (adds iv session m ∷ es) q h =
        stored-queue_steps es (add g print encrypt secret iv session m q) h.1
        ∙ stored-add q.paused q.handled q.stored
            (create_job g print encrypt secret iv session m q.counter) _
            (accepted q.paused (q.counter + 1) es) (read-create_job iv session m q.counter h.0)
    stored-queue_steps (pauses ∷ es) q h = stored-queue_steps es (with_pause true q) h.1
    stored-queue_steps (resumes ∷ es) q h = stored-queue_steps es (with_pause false q) h.1
    stored-queue_steps (takes ∷ es) q h =
        if_both {A = JobQueue} Goal q.paused (stored-queue_steps es q h.1)
          (taken q.stored (λ d. stored-queue_steps es d h.1) refl)
      where
        Goal : JobQueue → Type 0
        Goal d =
            done_and_stored (queue_steps g print encrypt secret decrypt es d)
            ≡ done_and_stored q ++ map inr (accepted q.paused q.counter es)

        taken :
            (jobs : List JobDataEncrypted)
            → ((d : JobQueue)
                → done_and_stored (queue_steps g print encrypt secret decrypt es d)
                  ≡ done_and_stored d ++ map inr (accepted d.paused d.counter es))
            → q.stored ≡ jobs
            → Goal (take_job decrypt secret jobs q)
        taken [] later e = later q
        taken (job ∷ jobs) later e =
            later (take_job decrypt secret (job ∷ jobs) q)
            ∙ ap (λ t. t ++ map inr (accepted q.paused q.counter es))
                (stored-take_job (job ∷ jobs) q e)

    pub queue_steps-accepted :
        (es : List QueueEvent)
        → All Deciphers es
        → (queue_steps g print encrypt secret decrypt es new_job_queue).handled
            ++ map
                (decrypt_job_data decrypt secret)
                (queue_steps g print encrypt secret decrypt es new_job_queue).stored
          ≡ map inr (accepted false 0 es)
    queue_steps-accepted es h = stored-queue_steps es new_job_queue h
