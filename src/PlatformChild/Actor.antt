-- ===== src/PlatformChild/Actor.antt =====
-- packages/server/src/platform.ts, `updateActor` and `startQueueListener`: the workers of a process as its actor
-- changes. Each `await` ends in an event of its own, so that updates can overlap.
pub mod Serial
use sockethub.Base.{ℕ, List, [], ◌∷◌, ◌++◌, Option, none, some, Text, length}
use sockethub.PlatformChild.{item_at, put}

-- Where an update is: `sendUpdateActor` is under way, with the identifier to go back to; the worker with this
-- number is being shut down; the update is over.
pub data Progress : Type 0 where
  sending : Text → Progress
  refreshing : ℕ → Progress
  over : Progress

-- `workers` has, for each worker that was made, the queue that it listens on, or nothing when it has stopped;
-- `job_worker` is the number of the one that the variable `jobWorker` holds.
pub record Node : Type 0 where
  pub identifier : Text
  pub workers : List (Option Text)
  pub job_worker : Option ℕ
  pub updates : List Progress

-- The parent's secrets arrive; the platform calls `updateActor`, which gives the identifier; the parent has
-- the new identifier of update `i`, or the channel fails; the worker that update `i` shuts down has stopped.
pub data NodeEvent : Type 0 where
  secrets : NodeEvent
  actor_update : Text → NodeEvent
  sent send_fails worker_stopped : ℕ → NodeEvent

abbrev pub with_update : ℕ → Progress → Node → Node
with_update i s n = record n { updates = put i s n.updates }

-- `new JobWorker(parentId, identifier, …)`.
abbrev pub new_worker : Node → Node
new_worker n = record n {
  workers = n.workers ++ some n.identifier ∷ [];
  job_worker = some (length n.workers);
}

abbrev pub first_listener : Option ℕ → Node → Node
first_listener none n = new_worker n
first_listener (some k) n = n

-- `startQueueListener(true)`, up to its first `await`.
abbrev pub refresh_listener : ℕ → Option ℕ → Node → Node
refresh_listener i none n = new_worker (with_update i over n)
refresh_listener i (some k) n = with_update i (refreshing k) n

abbrev pub on_sent : ℕ → Option Progress → Node → Node
on_sent i none n = n
on_sent i (some (sending previous)) n = refresh_listener i n.job_worker n
on_sent i (some (refreshing k)) n = n
on_sent i (some over) n = n

abbrev pub on_failed : ℕ → Option Progress → Node → Node
on_failed i none n = n
on_failed i (some (sending previous)) n = record (with_update i over n) { identifier = previous }
on_failed i (some (refreshing k)) n = n
on_failed i (some over) n = n

abbrev pub on_stopped : ℕ → Option Progress → Node → Node
on_stopped i none n = n
on_stopped i (some (sending previous)) n = n
on_stopped i (some (refreshing k)) n =
    new_worker (record (with_update i over n) { workers = put k none n.workers })
on_stopped i (some over) n = n

unfoldable pub node_step : NodeEvent → Node → Node
node_step secrets n = first_listener n.job_worker n
node_step (actor_update new) n = record n {
  identifier = new;
  updates = n.updates ++ sending n.identifier ∷ [];
}
node_step (sent i) n = on_sent i (item_at i n.updates) n
node_step (send_fails i) n = on_failed i (item_at i n.updates) n
node_step (worker_stopped i) n = on_stopped i (item_at i n.updates) n

unfoldable pub node_steps : List NodeEvent → Node → Node
node_steps [] n = n
node_steps (e ∷ es) n = node_steps es (node_step e n)

-- A process that was forked with an identifier.
abbrev pub new_node : Text → Node
new_node identifier = record {
  identifier = identifier;
  workers = [];
  job_worker = none;
  updates = [];
}
