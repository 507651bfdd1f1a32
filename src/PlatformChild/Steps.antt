-- ===== src/PlatformChild/Steps.antt =====
-- packages/server/src/platform.ts, `getJobHandler`: what happens to the jobs of a process.
use sockethub.Base.{
  ℕ, Bool, ◌&&◌, not, List, [], ◌∷◌, Option, none, some, if◌then◌else◌, Text, text_eq, ◌⊎◌, inl,
  inr,
}
use sockethub.Identity.{build_credentials_key}
use sockethub.Stream.{Stream}
use sockethub.CredentialsStore.{Secrets, Credentials, credentials_get}
use sockethub.PlatformChild.{
  Platform, Job, rejected, Stage, waiting, calling, called, ended, Run, session_unauthorized, Child,
  requires_credentials, has_method, settle_job, at_stage, item_at, put_run, add_run, report, send,
  bind_hash, log_call, not_available, uninitialized, error_string, new_run, call_of, done_callback,
}

-- What the world does next, where an exception is its message: the queue hands over a job; the store answers job `i`, or fails; the platform's
-- method for job `i` throws, returns, or calls back; the platform changes whether it is initialized; the
-- platform reports the credentials of a new actor.
pub data ChildEvent : Type 0 where
  job_arrives : Job → ChildEvent
  store_answers : ℕ → Option Credentials → ChildEvent
  store_fails : ℕ → Text → ChildEvent
  method_throws : ℕ → Text → ChildEvent
  method_returns : ℕ → ChildEvent
  method_calls_back : ℕ → Option Text → Option Stream → ChildEvent
  initializes : Bool → ChildEvent
  actor_changes : Credentials → ChildEvent

-- The `catch` of `credentialStore.get(…).then(…)`.
unfoldable pub refuse : ℕ → Run → Text → Child → Child
refuse i run error c =
    if c.initialized
    then done_callback i run (some (error_string error)) none
        (send (session_unauthorized run.job.session_id) c)
    else report error (put_run i (settle_job (rejected error) run) c)

abbrev pub on_failure : ℕ → Text → Run → Stage → Child → Child
on_failure i error run (waiting hash) c = refuse i (at_stage ended run) error c
on_failure i error run (calling given) c = c
on_failure i error run (called given) c = c
on_failure i error run ended c = c

-- A throw is caught beside the call, or by the `catch` above.
abbrev pub on_throw : ℕ → Text → Run → Stage → Child → Child
on_throw i error run (waiting hash) c = c
on_throw i error run (calling none) c =
    report error (put_run i (settle_job (rejected error) (at_stage (called none) run)) c)
on_throw i error run (calling (some credentials)) c =
    refuse i (at_stage (called (some credentials)) run) error c
on_throw i error run (called given) c = c
on_throw i error run ended c = c

abbrev pub on_return : ℕ → Run → Stage → Child → Child
on_return i run (waiting hash) c = c
on_return i run (calling given) c = put_run i (at_stage (called given) run) c
on_return i run (called given) c = c
on_return i run ended c = c

abbrev pub with_run : Option Run → (Run → Stage → Child → Child) → Child → Child
with_run none f c = c
with_run (some run) f c = f run run.stage c

abbrev set_initialized : Bool → Child → Child
set_initialized b c = record {
  initialized = b;
  credentials_hash = c.credentials_hash;
  runs = c.runs;
  sent = c.sent;
  reported = c.reported;
  calls = c.calls;
}

module _ (p : Platform) (object_hash : Secrets → Text) where
  -- The call of the job's handler, up to the first asynchronous step.
  unfoldable pub job_handler : Job → Child → Child
  job_handler job c =
      if requires_credentials p job
      then add_run (new_run job (waiting (if p.persist then c.credentials_hash else none))) c
      else if p.persist && not c.initialized
      then add_run (settle_job (rejected (uninitialized job)) (new_run job ended)) c
      else if has_method p job
      then log_call (call_of job none c.credentials_hash c) (add_run (new_run job (calling none)) c)
      else report (not_available job)
          (add_run (settle_job (rejected (not_available job)) (new_run job ended)) c)

  -- The `then` of `credentialStore.get(…)`.
  unfoldable pub proceed : ℕ → Run → Credentials → Child → Child
  proceed i run credentials c =
      if has_method p run.job
      then log_call (call_of run.job (some credentials) run.bound c)
          (put_run i (at_stage (calling (some credentials)) run) c)
      else done_callback i (at_stage ended run) (some (error_string (not_available run.job))) none c

  abbrev pub received : ℕ → Run → Text ⊎ Credentials → Child → Child
  received i run (inl error) c = refuse i (at_stage ended run) error c
  received i run (inr credentials) c = proceed i run credentials c

  -- `wrappedCallback`, and `doneCallback` where the method has no credentials.
  unfoldable pub wrapped_callback :
      ℕ → Run → Option Credentials → Option Text → Option Stream → Child → Child
  wrapped_callback i run none error result c = done_callback i run error result c
  wrapped_callback i run (some credentials) none result c =
      done_callback i run none result
        (if p.persist then bind_hash (object_hash credentials.object) c else c)
  wrapped_callback i run (some credentials) (some error) result c =
      done_callback i run (some error) result c

  abbrev pub on_answer : ℕ → Option Credentials → Run → Stage → Child → Child
  on_answer i found run (waiting hash) c =
      received i run
        (credentials_get object_hash (build_credentials_key p.name run.job.actor_id) hash found) c
  on_answer i found run (calling given) c = c
  on_answer i found run (called given) c = c
  on_answer i found run ended c = c

  abbrev pub on_callback : ℕ → Option Text → Option Stream → Run → Stage → Child → Child
  on_callback i error result run (waiting hash) c = c
  on_callback i error result run (calling given) c = wrapped_callback i run given error result c
  on_callback i error result run (called given) c = wrapped_callback i run given error result c
  on_callback i error result run ended c = c

  unfoldable pub child_step : ChildEvent → Child → Child
  child_step (job_arrives job) c = job_handler job c
  child_step (store_answers i found) c = with_run (item_at i c.runs) (on_answer i found) c
  child_step (store_fails i error) c = with_run (item_at i c.runs) (on_failure i error) c
  child_step (method_throws i error) c = with_run (item_at i c.runs) (on_throw i error) c
  child_step (method_returns i) c = with_run (item_at i c.runs) (on_return i) c
  child_step (method_calls_back i error result) c =
      with_run (item_at i c.runs) (on_callback i error result) c
  child_step (initializes b) c = set_initialized b c
  child_step (actor_changes credentials) c =
      if p.persist then bind_hash (object_hash credentials.object) c else c

  unfoldable pub child_steps : List ChildEvent → Child → Child
  child_steps [] c = c
  child_steps (e ∷ es) c = child_steps es (child_step e c)
