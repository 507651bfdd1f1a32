-- ===== src/World.antt =====
-- The shared state of the server process: the objects of packages/server/src/platform-instance.ts,
-- the maps of the modules around it, the sockets of packages/server/src/listener.ts, and what the
-- outside holds: the queues in Redis and the messages sent.
-- An instance is an object with an identity: the maps hold its reference.
pub mod Laws
pub mod Samples
use sockethub.Base.{
  ℕ, suc, Bool, true, false, List, [], ◌∷◌, ◌++◌, Option, none, some, Text, nat_eq, text_eq,
  or_else, if◌then◌else◌,
}
use sockethub.Base.Table.{Table, get, set, delete}
use sockethub.Context.{Activity}
use sockethub.ConnectionScope.{Scopes}

-- What `process.kill(pid, 0)` does.
pub data Signal : Type 0 where
  delivered not_permitted no_such_process : Signal

-- `pid` 0 stands for no process id; `exited` for an exit code that is not null. `killed` says that
-- `process.kill()` was called, `listening` that the instance's listeners are attached.
pub record Process : Type 0 where
  pub pid : ℕ
  pub exited : Bool
  pub signal : Signal
  pub connected : Bool
  pub killed : Bool
  pub listening : Bool

-- What a running teardown does with the queue.
pub data QueueEnd : Type 0 where
  disconnects obliterates : QueueEnd

-- `shutdownResult`: unset, a pending promise, a fulfilled one.
pub data Shutdown : Type 0 where
  idle : Shutdown
  closing : QueueEnd → Shutdown
  finished : Shutdown

-- `queue` is the identifier that the queue was made with, for the Redis name; absent once undefined.
-- A handler of a completed job is a number; `timestamps` says when it was registered.
pub record Instance : Type 0 where
  pub id : Text
  pub name : Text
  pub actor : Option Text
  pub is_global : Bool
  pub flagged_for_termination : Bool
  pub initialized : Bool
  pub replaced : Bool
  pub shutdown_result : Shutdown
  pub queue : Option Text
  pub completed_job_handlers : Table Text ℕ
  pub completed_job_handler_timestamps : Table Text ℕ
  pub sessions : List Text
  pub session_ips : Table Text Text
  pub persist : Bool
  pub require_credentials : List Text
  pub context_url : Option Text
  pub heartbeat_last_seen : ℕ
  pub heartbeat_failure_handled : Bool
  pub process : Process

-- A queue in Redis: its jobs are their titles.
pub record RedisQueue : Type 0 where
  pub paused : Bool
  pub jobs : List Text

-- What leaves the process: a message to a socket, or the call of a completed job's handler.
pub data Emission : Type 0 where
  emit : Text → Activity → Emission
  call : ℕ → Activity → Emission

pub record World : Type 0 where
  pub heap : Table ℕ Instance
  pub next_ref : ℕ
  pub platform_instances : Table Text ℕ
  pub scopes : Scopes
  pub sockets : List Text
  pub http_sessions : Table Text ℕ
  pub queues : Table Text RedisQueue
  pub outbox : List Emission

-- A write through a reference; the reference is one that the heap has.
unfoldable pub modify : ℕ → (Instance → Instance) → World → World
modify ref f w = elim (get ref w.heap) [
  | none ↦ w
  | some i ↦ record w { heap = set ref (f i) w.heap }
]

-- `platformInstances.get(i.id) === i`.
abbrev pub same_ref : ℕ → Option ℕ → Bool
same_ref ref none = false
same_ref ref (some r) = nat_eq.beq r ref

-- The operations of a queue in Redis; a name that was never used is an empty queue.
abbrev pub queue_of : Text → World → RedisQueue
queue_of name w = or_else (get name w.queues) (record { paused = false; jobs = [] })

unfoldable pub set_paused : Bool → Text → World → World
set_paused b name w = record w {
  queues = set name (record (queue_of name w) { paused = b }) w.queues;
}

unfoldable pub obliterate : Text → World → World
obliterate name w = record w {
  queues = set name (record (queue_of name w) { paused = true; jobs = [] }) w.queues;
}

abbrev pub send_all : List Emission → World → World
send_all es w = record w { outbox = w.outbox ++ es }
