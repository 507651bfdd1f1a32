-- ===== src/PlatformChild/Tests.antt =====
-- A process on which the theorems apply.
use sockethub.Base.{◌≡◌, refl, true, false, List, [], ◌∷◌, none, some, Text, codes, text_eq, All}
use sockethub.Stream.{Stream}
use sockethub.CredentialsStore.{Secrets, fields, Credentials, absent, scalar, array}
use sockethub.PlatformChild.{Platform, Job, called, Run, Child, new_child}
use sockethub.PlatformChild.Steps.{
  ChildEvent, job_arrives, store_answers, method_throws, method_returns, method_calls_back,
  initializes, child_steps,
}
use sockethub.PlatformChild.Actor.{
  secrets, actor_update, sent, send_fails, worker_stopped, node_step, node_steps, new_node,
}
use sockethub.PlatformChild.Actor.Serial.{Update, serial, last_sent, running, node_steps-one_worker}
use sockethub.PlatformChild.Allowed.{IsAllowed, child_steps-IsAllowed}

abbrev irc : Platform
irc = record {
  name = codes "irc";
  persist = true;
  require_credentials = some (codes "connect" ∷ []);
  methods = codes "connect" ∷ codes "send" ∷ [];
}

abbrev job_of : Text → Text → Job
job_of session kind = record {
  title = codes "irc-0";
  session_id = session;
  kind = kind;
  actor_id = codes "joe";
}

abbrev secret_of : Text → Credentials
secret_of password = record {
  actor = codes "joe";
  object = fields ((codes "password", password) ∷ []);
}

-- A stand-in for the hash.
abbrev last_value : Secrets → Text
last_value absent = []
last_value (scalar s) = s
last_value (array xs) = []
last_value (fields []) = []
last_value (fields ((k, v) ∷ kvs)) = v

-- A connection is made, a second session has another password, and the platform calls back twice.
abbrev story : List ChildEvent
story =
    job_arrives (job_of (codes "s1") (codes "connect"))
    ∷ store_answers 0 (some (secret_of (codes "secret")))
    ∷ initializes true
    ∷ method_returns 0
    ∷ method_calls_back 0 none none
    ∷ job_arrives (job_of (codes "s2") (codes "connect"))
    ∷ store_answers 1 (some (secret_of (codes "guess")))
    ∷ job_arrives (job_of (codes "s1") (codes "send"))
    ∷ method_calls_back 2 (some (codes "timeout")) none
    ∷ []

child_steps-IsAllowed_example :
    All (IsAllowed last_value irc) (child_steps irc last_value story new_child).calls
child_steps-IsAllowed_example = child_steps-IsAllowed irc last_value story

-- The second session's job is still called when it calls back, and again afterwards.
abbrev opening : List ChildEvent
opening =
    job_arrives (job_of (codes "s1") (codes "connect"))
    ∷ store_answers 0 (some (secret_of (codes "secret")))
    ∷ method_returns 0
    ∷ []

abbrev late : List ChildEvent
late = method_calls_back 0 (some (codes "again")) none ∷ method_throws 0 (codes "too late") ∷ []

abbrev opened : Child
opened = child_steps irc last_value opening new_child

abbrev connect_run : Run
connect_run = record {
  job = job_of (codes "s1") (codes "connect");
  bound = none;
  stage = called (some (secret_of (codes "secret")));
  called_back = false;
  outcome = none;
}

-- Three updates one after the other, of which the second does not reach the parent.
abbrev renames : List Update
renames =
    record { new = codes "a"; is_sent = true }
    ∷ record { new = codes "b"; is_sent = false }
    ∷ record { new = codes "c"; is_sent = true }
    ∷ []

node_steps-one_worker_example :
    let n = node_steps (secrets ∷ serial 0 renames) (new_node (codes "start")) in
    (n.identifier ≡ last_sent (codes "start") renames)
    × (running n.workers ≡ last_sent (codes "start") renames ∷ [])
node_steps-one_worker_example = node_steps-one_worker (codes "start") renames

-- Two updates that overlap leave two workers on one queue.
overlap_test :
    running
      (node_steps
        (secrets
          ∷ actor_update (codes "a")
          ∷ actor_update (codes "b")
          ∷ sent 0
          ∷ sent 1
          ∷ worker_stopped 0
          ∷ worker_stopped 1
          ∷ [])
        (new_node (codes "start"))).workers
    ≡ codes "b" ∷ codes "b" ∷ []
unfolding node_steps node_step
overlap_test = refl

-- When both reports to the parent fail, the process does not go back to the identifier that the parent has.
both_fail_test :
    (node_steps
      (secrets
        ∷ actor_update (codes "a")
        ∷ actor_update (codes "b")
        ∷ send_fails 0
        ∷ send_fails 1
        ∷ [])
      (new_node (codes "start"))).identifier
    ≡ codes "a"
unfolding node_steps node_step
both_fail_test = refl
