-- ===== src/JobQueue.antt =====
-- packages/data-layer/src/job-queue.ts, job-worker.ts and job-base.ts: the jobs of a platform instance, from the
-- server to the worker. The list in Redis and its order are BullMQ's; the cipher, with its initialization
-- vector `iv`, and the printing of numbers are parameters.
mod Order
mod Titles
mod Tests
use sockethub.Base.{
  ℕ, ◌+◌, Bool, true, false, List, [], ◌∷◌, ◌++◌, Option, none, some, or_else, if◌then◌else◌, Text,
  codes, ◌⊎◌, inl, inr,
}
use sockethub.Context.{Activity, ContextRegistry, resolve_platform_id}

pub record JobDataEncrypted : Type 0 where
  pub title : Text
  pub msg : Text
  pub session_id : Text

pub record JobDataDecrypted : Type 0 where
  pub title : Text
  pub msg : Activity
  pub session_id : Text

-- `handled` is what the worker gave to its handler, or an exception of the cipher.
pub record JobQueue : Type 0 where
  pub counter : ℕ
  pub paused : Bool
  pub stored : List JobDataEncrypted
  pub handled : List (Text ⊎ JobDataDecrypted)

-- The server adds a job with a vector, a session and a message, pauses or resumes; the worker takes the
-- oldest job.
pub data QueueEvent : Type 0 where
  adds : Text → Text → Activity → QueueEvent
  pauses : QueueEvent
  resumes : QueueEvent
  takes : QueueEvent

-- `resolvePlatformId(msg) || "unknown"`.
abbrev pub platform_or_unknown : Option Text → Text
platform_or_unknown none = codes "unknown"
platform_or_unknown (some []) = codes "unknown"
platform_or_unknown (some (c ∷ s)) = c ∷ s

abbrev pub new_job_queue : JobQueue
new_job_queue = record { counter = 0; paused = false; stored = []; handled = [] }

abbrev pub with_pause : Bool → JobQueue → JobQueue
with_pause b q = record { counter = q.counter; paused = b; stored = q.stored; handled = q.handled }

abbrev with_secret : Option Text → Activity → Activity
with_secret secret m = record {
  context = m.context;
  kind = m.kind;
  actor = m.actor;
  error = m.error;
  session_secret = secret;
  old_context = m.old_context;
  rest = m.rest;
}

abbrev pub with_message : JobDataEncrypted → Text ⊎ Activity → Text ⊎ JobDataDecrypted
with_message job (inl error) = inl error
with_message job (inr m) = inr (record { title = job.title; msg = m; session_id = job.session_id })

abbrev without_secret : Text ⊎ JobDataDecrypted → Text ⊎ JobDataDecrypted
without_secret (inl error) = inl error
without_secret (inr job) =
    inr (record { title = job.title; msg = with_secret none job.msg; session_id = job.session_id })

module _ (decrypt : Text → Text → Text ⊎ Activity) (secret : Text) where
  unfoldable pub decrypt_job_data : JobDataEncrypted → Text ⊎ JobDataDecrypted
  decrypt_job_data job = with_message job (decrypt job.msg secret)

  -- `getJob`, of a job that is there.
  get_job : JobDataEncrypted → Text ⊎ JobDataDecrypted
  get_job job = without_secret (decrypt_job_data job)

  -- `jobHandler` of the worker, with the oldest job.
  abbrev pub take_job : List JobDataEncrypted → JobQueue → JobQueue
  take_job [] q = q
  take_job (job ∷ jobs) q = record {
    counter = q.counter;
    paused = q.paused;
    stored = jobs;
    handled = q.handled ++ decrypt_job_data job ∷ [];
  }

module _ (g : ContextRegistry) (print : ℕ → Text) where
  unfoldable pub title_of : Activity → ℕ → Text
  title_of m n = platform_or_unknown (resolve_platform_id g m) ++ b'-' ∷ print n

  module _ (encrypt : Text → Activity → Text → Text) (secret : Text) where
    unfoldable pub create_job : Text → Text → Activity → ℕ → JobDataEncrypted
    create_job iv session m n = record {
      title = title_of m n;
      msg = encrypt iv m secret;
      session_id = session;
    }

    -- `add`: a job that is refused with "queue closed" has used up its number.
    unfoldable pub add : Text → Text → Activity → JobQueue → JobQueue
    add iv session m q = record {
      counter = q.counter + 1;
      paused = q.paused;
      stored = if q.paused then q.stored else q.stored ++ create_job iv session m q.counter ∷ [];
      handled = q.handled;
    }

    module _ (decrypt : Text → Text → Text ⊎ Activity) where
      unfoldable pub queue_step : QueueEvent → JobQueue → JobQueue
      queue_step (adds iv session m) q = add iv session m q
      queue_step pauses q = with_pause true q
      queue_step resumes q = with_pause false q
      queue_step takes q = if q.paused then q else take_job decrypt secret q.stored q

      unfoldable pub queue_steps : List QueueEvent → JobQueue → JobQueue
      queue_steps [] q = q
      queue_steps (e ∷ es) q = queue_steps es (queue_step e q)
