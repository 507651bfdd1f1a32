-- ===== src/PlatformChild/Allowed.antt =====
-- packages/server/src/platform.ts: which calls of the platform's methods are made.
use sockethub.Base.{
  Bool-cases, eq_of_beq, ◌==◌, text_eq, ◌≢◌, sym, if◌then◌else◌, Bool, ℕ, zero, suc, ◌≡◌, refl, ap,
  subst, true, false, ◌&&◌, not, List, [], ◌∷◌, Option, none, some, or_else, Text, ◌⊎◌, inl, inr,
  arith, if_both, if_cases, All,
}
use sockethub.Identity.{build_credentials_key}
use sockethub.Stream.{Stream}
use sockethub.CredentialsStore.{Secrets, Credentials, credentials_get, is_usable, is_other}
use sockethub.PlatformChild.{
  Platform, Job, JobOutcome, rejected, Stage, waiting, calling, called, ended, Run, Child,
  MethodCall, requires_credentials, has_method, settle_job, at_stage, done_callback, item_at, put,
  put_run, add_run, bound_to, report_error, marked, callback_outcome, resolved, send,
  session_unauthorized, bind_hash, not_available, uninitialized, error_string, new_run,
  done_callback, new_child,
}
use sockethub.PlatformChild.Steps.{
  ChildEvent, job_arrives, store_answers, store_fails, method_throws, method_returns,
  method_calls_back, initializes, actor_changes, refuse, job_handler, proceed, received,
  wrapped_callback, on_answer, on_failure, on_throw, on_return, on_callback, with_run, child_step,
  child_steps,
}
use sockethub.Escapes.Laws.{All-append}

-- A hash that is missing or empty asks for nothing.
abbrev HasHash : (Secrets → Text) → Option Text → Secrets → Type 0
HasHash object_hash none object = Unit
HasHash object_hash (some []) object = Unit
HasHash object_hash (some (c ∷ hash)) object = object_hash object ≡ c ∷ hash

abbrev When : Bool → Type 0 → Type 0
When true A = A
When false A = Unit

when_true : {A : Type 0} (b : Bool) → (b ≡ true → A) → When b A
when_true true f = f refl
when_true false f = tt

-- A method is called with credentials when, and only when, its type requires them. They are usable, and
-- those for a persistent platform have the hash that the platform had when the job arrived. Without
-- them, the methods of a persistent platform are called when it is initialized.
abbrev WithCredentials : (Secrets → Text) → Platform → MethodCall → Option Credentials → Type 0
WithCredentials object_hash p call none =
    (requires_credentials p call.job ≡ false) × ((p.persist && not call.was_initialized) ≡ false)
WithCredentials object_hash p call (some c) =
    (requires_credentials p call.job ≡ true)
    × (is_usable c.object ≡ true)
    × When p.persist (HasHash object_hash call.hash c.object)

abbrev pub IsAllowed : (Secrets → Text) → Platform → MethodCall → Type 0
IsAllowed object_hash p call =
    (has_method p call.job ≡ true) × WithCredentials object_hash p call call.credentials

abbrev StageFits : Platform → Run → Stage → Type 0
StageFits p run (waiting hash) =
    (requires_credentials p run.job ≡ true) × (p.persist ≡ true → hash ≡ run.bound)
StageFits p run (calling given) = Unit
StageFits p run (called given) = Unit
StageFits p run ended = Unit

abbrev Fits : Platform → Run → Type 0
Fits p run = StageFits p run run.stage

-- How a new run fits once it has its hash.
abbrev NewFits : Platform → Option Text → Run → Type 0
NewFits p hash run = Fits p (bound_to hash run)

All-put {ℓ κ} :
    {A : Type ℓ} (P : A → Type κ) (i : ℕ) (x : A) (xs : List A)
    → P x
    → All P xs
    → All P (put i x xs)
All-put P i x [] h k = tt
All-put P zero x (y ∷ xs) h k = (h, k.1)
All-put P (suc i) x (y ∷ xs) h k = (k.0, All-put P i x xs h k.1)

All-item_at {ℓ κ} :
    {A : Type ℓ} (P : A → Type κ) (i : ℕ) (x : A) (xs : List A)
    → All P xs
    → item_at i xs ≡ some x
    → P x
All-item_at P i x [] k e = absurd (cc)
All-item_at P zero x (y ∷ xs) k e = subst P (ap (λ o. or_else o y) e) k.0
All-item_at P (suc i) x (y ∷ xs) k e = All-item_at P i x xs k.1 e

Fits-settle_job :
    (p : Platform) (o : JobOutcome) (run : Run) → Fits p run → Fits p (settle_job o run)
Fits-settle_job p o run h = h

module _ (p : Platform) (object_hash : Secrets → Text) where
  abbrev Sound : Child → Type 0
  Sound c = All (IsAllowed object_hash p) c.calls × All (Fits p) c.runs

  Sound-put : (i : ℕ) (run : Run) (c : Child) → Fits p run → Sound c → Sound (put_run i run c)
  Sound-put i run c h s = (s.0, All-put (Fits p) i run c.runs h s.1)

  Sound-add :
      (run : Run) (c : Child) → NewFits p c.credentials_hash run → Sound c → Sound (add_run run c)
  Sound-add run c h s =
      (s.0, All-append (Fits p) c.runs (bound_to c.credentials_hash run ∷ []) s.1 (h, tt))

  Sound-report_error : (error : Option Text) (c : Child) → Sound c → Sound (report_error error c)
  Sound-report_error none c s = s
  Sound-report_error (some error) c s = s

  Sound-done_callback :
      (i : ℕ) (run : Run) (error : Option Text) (result : Option Stream) (c : Child)
      → Fits p run
      → Sound c
      → Sound (done_callback i run error result c)
  unfolding done_callback
  Sound-done_callback i run error result c h s =
      if_both {A = Child} Sound run.called_back (Sound-put i (settle_job (resolved none) run) c h s)
        (Sound-report_error error _
          (Sound-put i (settle_job (callback_outcome error result) (marked run)) c h s))

  Sound-refuse :
      (i : ℕ) (run : Run) (error : Text) (c : Child)
      → Fits p run
      → Sound c
      → Sound (refuse i run error c)
  unfolding refuse
  Sound-refuse i run error c h s =
      if_both {A = Child} Sound c.initialized
        (Sound-done_callback i run (some (error_string error)) none
          (send (session_unauthorized run.job.session_id) c) h s)
        (Sound-put i (settle_job (rejected error) run) c h s)

  Sound-job_handler : (job : Job) (c : Child) → Sound c → Sound (job_handler p object_hash job c)
  unfolding job_handler
  Sound-job_handler job c s =
      if_cases {A = Child} Sound (requires_credentials p job)
        (λ y.
          Sound-add (new_run job (waiting (if p.persist then c.credentials_hash else none))) c
            (y, λ per. rw per refl) s)
        λ n.
          if_cases {A = Child} Sound (p.persist && not c.initialized)
            (λ _. Sound-add (settle_job (rejected (uninitialized job)) (new_run job ended)) c tt s)
            λ ready.
              if_cases {A = Child} Sound (has_method p job)
                (λ m. (((m, (n, ready)), s.0), (Sound-add (new_run job (calling none)) c tt s).1))
                (λ _.
                  Sound-add (settle_job (rejected (not_available job)) (new_run job ended)) c tt s)

  -- What `get` gives is usable, and has the hash.
  get_lem :
      (actor : Text) (hash : Option Text) (found : Option Credentials) (c : Credentials)
      → credentials_get object_hash actor hash found ≡ inr c
      → (is_usable c.object ≡ true) × (is_other object_hash hash c.object ≡ false)
  unfolding credentials_get
  get_lem actor hash none c e = absurd (cc)
  get_lem actor hash (some found) c e = ground (arith, e)

  has_hash :
      (hash : Option Text) (object : Secrets)
      → is_other object_hash hash object ≡ false
      → HasHash object_hash hash object
  has_hash none object h = tt
  has_hash (some []) object h = tt
  has_hash (some (c ∷ hash)) object h = elim (Bool-cases ((c ∷ hash) == object_hash object)) [
    | inl y ↦ sym (eq_of_beq (c ∷ hash) (object_hash object) y)
    | inr n ↦ absurd (other_lem ((c ∷ hash) == object_hash object) n h)
  ]
    where
      other_lem : (b : Bool) → b ≡ false → (if b then false else true) ≢ false
      other_lem true e k = absurd (cc)
      other_lem false e k = absurd (cc)

  Sound-received :
      (i : ℕ) (run : Run) (actor : Text) (hash : Option Text) (found : Option Credentials)
      (answered : Text ⊎ Credentials) (c : Child)
      → credentials_get object_hash actor hash found ≡ answered
      → StageFits p run (waiting hash)
      → Sound c
      → Sound (received p object_hash i run answered c)
  unfolding proceed
  Sound-received i run actor hash found (inl error) c e r s =
      Sound-refuse i (at_stage ended run) error c tt s
  Sound-received i run actor hash found (inr given) c e r s =
      let (usable, same) = get_lem actor hash found given e in
      if_cases {A = Child} Sound (has_method p run.job)
        (λ m. (
          (
            (
              m,
              (
                r.0,
                usable,
                when_true p.persist (λ per.
                    subst (λ h. HasHash object_hash h given.object) (r.1 per)
                      (has_hash hash given.object same)),
              ),
            ),
            s.0,
          ),
          (Sound-put i (at_stage (calling (some given)) run) c tt s).1,
        ))
        (λ _.
          Sound-done_callback i (at_stage ended run) (some (error_string (not_available run.job)))
            none c tt s)

  Sound-wrapped_callback :
      (i : ℕ) (run : Run) (given : Option Credentials) (error : Option Text)
      (result : Option Stream) (c : Child)
      → Fits p run
      → Sound c
      → Sound (wrapped_callback p object_hash i run given error result c)
  unfolding wrapped_callback
  Sound-wrapped_callback i run none error result c h s =
      Sound-done_callback i run error result c h s
  Sound-wrapped_callback i run (some credentials) (some error) result c h s =
      Sound-done_callback i run (some error) result c h s
  Sound-wrapped_callback i run (some credentials) none result c h s =
      if_both {A = Child} (λ d. Sound (done_callback i run none result d)) p.persist
        (Sound-done_callback i run none result (bind_hash (object_hash credentials.object) c) h s)
        (Sound-done_callback i run none result c h s)

  Sound-with_run :
      (o : Option Run) (f : Run → Stage → Child → Child) (c : Child)
      → Sound c
      → ((run : Run) → o ≡ some run → Sound (f run run.stage c))
      → Sound (with_run o f c)
  Sound-with_run none f c s h = s
  Sound-with_run (some run) f c s h = h run refl

  member-Fits : (i : ℕ) (run : Run) (c : Child) → Sound c → item_at i c.runs ≡ some run → Fits p run
  member-Fits i run c s e = All-item_at (Fits p) i run c.runs s.1 e

  Sound-child_step : (e : ChildEvent) (c : Child) → Sound c → Sound (child_step p object_hash e c)
  unfolding child_step
  Sound-child_step (job_arrives job) c s = Sound-job_handler job c s
  Sound-child_step (store_answers i found) c s =
      Sound-with_run (item_at i c.runs) _ c s λ run e. at run run.stage (member-Fits i run c s e)
    where
      at :
          (run : Run) (g : Stage)
          → StageFits p run g
          → Sound (on_answer p object_hash i found run g c)
      at run (waiting hash) h =
          Sound-received i run (build_credentials_key p.name run.job.actor_id) hash found _ c refl h
            s
      at run (calling given) h = s
      at run (called given) h = s
      at run ended h = s
  Sound-child_step (store_fails i error) c s =
      Sound-with_run (item_at i c.runs) _ c s λ run e. at run run.stage
    where
      at : (run : Run) (g : Stage) → Sound (on_failure i error run g c)
      at run (waiting hash) = Sound-refuse i (at_stage ended run) error c tt s
      at run (calling given) = s
      at run (called given) = s
      at run ended = s
  Sound-child_step (method_throws i error) c s =
      Sound-with_run (item_at i c.runs) _ c s λ run e. at run run.stage
    where
      at : (run : Run) (g : Stage) → Sound (on_throw i error run g c)
      at run (waiting hash) = s
      at run (calling none) =
          Sound-put i (settle_job (rejected error) (at_stage (called none) run)) c tt s
      at run (calling (some credentials)) =
          Sound-refuse i (at_stage (called (some credentials)) run) error c tt s
      at run (called given) = s
      at run ended = s
  Sound-child_step (method_returns i) c s =
      Sound-with_run (item_at i c.runs) _ c s λ run e. at run run.stage
    where
      at : (run : Run) (g : Stage) → Sound (on_return i run g c)
      at run (waiting hash) = s
      at run (calling given) = Sound-put i (at_stage (called given) run) c tt s
      at run (called given) = s
      at run ended = s
  Sound-child_step (method_calls_back i error result) c s =
      Sound-with_run (item_at i c.runs) _ c s λ run e. at run run.stage (member-Fits i run c s e)
    where
      at :
          (run : Run) (g : Stage)
          → Fits p run
          → Sound (on_callback p object_hash i error result run g c)
      at run (waiting hash) h = s
      at run (calling given) h = Sound-wrapped_callback i run given error result c h s
      at run (called given) h = Sound-wrapped_callback i run given error result c h s
      at run ended h = s
  Sound-child_step (initializes b) c s = s
  Sound-child_step (actor_changes credentials) c s = if_both {A = Child} Sound p.persist s s

  Sound-child_steps :
      (es : List ChildEvent) (c : Child) → Sound c → Sound (child_steps p object_hash es c)
  unfolding child_steps
  Sound-child_steps [] c s = s
  Sound-child_steps (e ∷ es) c s =
      Sound-child_steps es (child_step p object_hash e c) (Sound-child_step e c s)

  -- In every history of a platform's process, each method was called with credentials when, and only
  -- when, its type requires them, after they were found usable and, on a persistent platform, to have
  -- the hash that the platform had when the job arrived, unless it had none or an empty one; and the
  -- other methods of a persistent platform only while it was initialized.
  pub child_steps-IsAllowed :
      (es : List ChildEvent)
      → All (IsAllowed object_hash p) (child_steps p object_hash es new_child).calls
  child_steps-IsAllowed es = (Sound-child_steps es new_child (tt, tt)).0
