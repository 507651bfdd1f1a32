-- ===== src/PlatformChild.antt =====
-- packages/server/src/platform.ts: the process of a platform. Each job that its queue hands over is a promise,
-- which the platform's code settles through a callback, at any later time and any number of times. The
-- platform's code, the store of credentials, the parent and the hash of credentials are parameters or events.
pub mod Steps
pub mod Settled
pub mod Actor
pub mod Allowed
pub mod Callbacks
mod Tests
use sockethub.Base.{
  ℕ, zero, suc, ◌+◌, Bool, true, false, ◌&&◌, ◌||◌, not, List, [], ◌∷◌, ◌++◌, Option, none, some,
  or_else, if◌then◌else◌, Text, codes, text_eq, ◌==◌, any, ◌⊎◌, inl, inr,
}
use sockethub.Identity.{build_credentials_key}
use sockethub.Stream.{Stream}
use sockethub.CredentialsStore.{Secrets, Credentials, credentials_get}

-- `platform.config`, and the names of the methods that the platform has.
pub record Platform : Type 0 where
  pub name : Text
  pub persist : Bool
  pub require_credentials : Option (List Text)
  pub methods : List Text

-- `JobDataDecrypted`, with what the handler reads of it.
pub record Job : Type 0 where
  pub title : Text
  pub session_id : Text
  pub kind : Text
  pub actor_id : Text

pub data JobOutcome : Type 0 where
  resolved : Option Stream → JobOutcome
  rejected : Text → JobOutcome

-- Where a job is: `credentialStore.get` is under way, with the hash it was called with; the platform's
-- method has been called, and has not returned yet, or has.
pub data Stage : Type 0 where
  waiting : Option Text → Stage
  calling : Option Credentials → Stage
  called : Option Credentials → Stage
  ended : Stage

-- `bound` is the platform's hash when the job arrived: a history, which the code does not read.
pub record Run : Type 0 where
  pub job : Job
  pub bound : Option Text
  pub stage : Stage
  pub called_back : Bool
  pub outcome : Option JobOutcome

-- A call of a method of the platform, with the platform's hash when the job arrived, and whether the
-- platform was initialized when the call was made.
pub record MethodCall : Type 0 where
  pub job : Job
  pub credentials : Option Credentials
  pub hash : Option Text
  pub was_initialized : Bool

pub data Report : Type 0 where
  session_unauthorized : Text → Report

-- `initialized` and `credentials_hash` are the platform's. `calls` is the history of the calls.
pub record Child : Type 0 where
  pub initialized : Bool
  pub credentials_hash : Option Text
  pub runs : List Run
  pub sent : List Report
  pub reported : List Text
  pub calls : List MethodCall

abbrev includes : Text → List Text → Bool
includes t [] = false
includes t (u ∷ us) = u == t || includes t us

abbrev included : Text → Option (List Text) → Bool
included t none = false
included t (some ts) = includes t ts

abbrev pub requires_credentials : Platform → Job → Bool
requires_credentials p job = included job.kind p.require_credentials

abbrev pub has_method : Platform → Job → Bool
has_method p job = includes job.kind p.methods

-- The first settling of a promise counts.
abbrev pub settle_job : JobOutcome → Run → Run
settle_job o run = record {
  job = run.job;
  bound = run.bound;
  stage = run.stage;
  called_back = run.called_back;
  outcome = some (or_else run.outcome o);
}

abbrev pub at_stage : Stage → Run → Run
at_stage s run = record {
  job = run.job;
  bound = run.bound;
  stage = s;
  called_back = run.called_back;
  outcome = run.outcome;
}

abbrev pub callback_outcome : Option Text → Option Stream → JobOutcome
callback_outcome none result = resolved result
callback_outcome (some error) result = rejected error

abbrev pub marked : Run → Run
marked run = record {
  job = run.job;
  bound = run.bound;
  stage = run.stage;
  called_back = true;
  outcome = run.outcome;
}

abbrev pub item_at {ℓ} : {A : Type ℓ} → ℕ → List A → Option A
item_at i [] = none
item_at zero (a ∷ rest) = some a
item_at (suc i) (a ∷ rest) = item_at i rest

abbrev pub put {ℓ} : {A : Type ℓ} → ℕ → A → List A → List A
put i b [] = []
put zero b (a ∷ rest) = b ∷ rest
put (suc i) b (a ∷ rest) = a ∷ put i b rest

abbrev pub put_run : ℕ → Run → Child → Child
put_run i run c = record {
  initialized = c.initialized;
  credentials_hash = c.credentials_hash;
  runs = put i run c.runs;
  sent = c.sent;
  reported = c.reported;
  calls = c.calls;
}

abbrev pub bound_to : Option Text → Run → Run
bound_to hash run = record {
  job = run.job;
  bound = hash;
  stage = run.stage;
  called_back = run.called_back;
  outcome = run.outcome;
}

abbrev pub add_run : Run → Child → Child
add_run run c = record {
  initialized = c.initialized;
  credentials_hash = c.credentials_hash;
  runs = c.runs ++ bound_to c.credentials_hash run ∷ [];
  sent = c.sent;
  reported = c.reported;
  calls = c.calls;
}

abbrev pub report : Text → Child → Child
report error c = record {
  initialized = c.initialized;
  credentials_hash = c.credentials_hash;
  runs = c.runs;
  sent = c.sent;
  reported = c.reported ++ error ∷ [];
  calls = c.calls;
}

abbrev pub send : Report → Child → Child
send r c = record {
  initialized = c.initialized;
  credentials_hash = c.credentials_hash;
  runs = c.runs;
  sent = c.sent ++ r ∷ [];
  reported = c.reported;
  calls = c.calls;
}

abbrev pub bind_hash : Text → Child → Child
bind_hash hash c = record {
  initialized = c.initialized;
  credentials_hash = some hash;
  runs = c.runs;
  sent = c.sent;
  reported = c.reported;
  calls = c.calls;
}

abbrev pub log_call : MethodCall → Child → Child
log_call call c = record {
  initialized = c.initialized;
  credentials_hash = c.credentials_hash;
  runs = c.runs;
  sent = c.sent;
  reported = c.reported;
  calls = call ∷ c.calls;
}

abbrev pub not_available : Job → Text
not_available job = codes "platform method " ++ (job.kind ++ codes " not available")

-- `err.toString()` of an error with a message; a callback's error is such a text.
abbrev pub error_string : Text → Text
error_string message_ = codes "Error: " ++ message_

abbrev pub uninitialized : Job → Text
uninitialized job = job.kind ++ codes " called on uninitialized platform"

abbrev pub new_run : Job → Stage → Run
new_run job stage = record {
  job = job;
  bound = none;
  stage = stage;
  called_back = false;
  outcome = none;
}

abbrev pub call_of : Job → Option Credentials → Option Text → Child → MethodCall
call_of job credentials hash c = record {
  job = job;
  credentials = credentials;
  hash = hash;
  was_initialized = c.initialized;
}

abbrev pub report_error : Option Text → Child → Child
report_error none c = c
report_error (some error) c = report error c

-- `doneCallback` of job `i`.
unfoldable pub done_callback : ℕ → Run → Option Text → Option Stream → Child → Child
done_callback i run error result c =
    if run.called_back
    then put_run i (settle_job (resolved none) run) c
    else report_error error (put_run i (settle_job (callback_outcome error result) (marked run)) c)

-- A process whose platform was just loaded.
abbrev pub new_child : Child
new_child = record {
  initialized = false;
  credentials_hash = none;
  runs = [];
  sent = [];
  reported = [];
  calls = [];
}
