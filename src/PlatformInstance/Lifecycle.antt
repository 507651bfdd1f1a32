-- ===== src/PlatformInstance/Lifecycle.antt =====
-- packages/server/src/platform-instance.ts: teardown, re-keying, job results and the messages of the
-- child process, on the server's state. A teardown is in three steps, since it awaits the queue:
-- it begins, the queue is closed or obliterated, it ends.
pub mod Teardown
pub mod Failure
pub mod Jobs
use sockethub.Base.{
  ℕ, ◌-◌, Bool, true, false, ◌&&◌, ◌||◌, not, List, [], ◌∷◌, ◌++◌, Option, none, some, or_else,
  if◌then◌else◌, ltb, Text, codes, nat_eq, text_eq, ◌==◌, is_some,
}
use sockethub.Base.Table.{get, set, delete}
use sockethub.Base.Group.{member}
use sockethub.Identity.{truthy}
use sockethub.Context.{Activity, ContextRegistry}
use sockethub.Validator.{Ajv}
use sockethub.ConnectionScope.{forget_anonymous_scopes, reassign_anonymous_scopes}
use sockethub.PlatformInstance.{
  to_external_payload, take_completed_job_handler, send_to_client, broadcast_to_shared_peers,
  fatal_emissions, send_to_each, deregister_session,
}
use sockethub.World.{
  Instance, World, Emission, call, Shutdown, idle, closing, finished, QueueEnd, disconnects,
  obliterates, modify, same_ref, set_paused, obliterate, send_all,
}

-- The queue's name is taken over, or the map's place is: then only the connections are closed.
abbrev pub queue_end : ℕ → Instance → World → QueueEnd
queue_end ref i w =
    if i.replaced || not (same_ref ref (get i.id w.platform_instances))
    then disconnects
    else obliterates

-- `teardown` up to its first `await`.
unfoldable pub teardown_begin : ℕ → Instance → World → World
teardown_begin ref i w = record w {
  scopes = forget_anonymous_scopes i.id w.scopes;
  heap =
      set ref
        (record i {
          flagged_for_termination = true;
          process = record i.process { killed = true; listening = false };
          shutdown_result = closing (queue_end ref i w);
        })
        w.heap;
}

abbrev pub is_idle : Shutdown → Bool
is_idle idle = true
is_idle (closing e) = false
is_idle finished = false

-- Every caller shares one teardown.
unfoldable pub shutdown : ℕ → World → World
unfolding teardown_begin
shutdown ref w = elim (get ref w.heap) [
  | none ↦ w
  | some i ↦ if is_idle i.shutdown_result then teardown_begin ref i w else w
]

abbrev pub obliterate_named : Option Text → World → World
obliterate_named none w = w
obliterate_named (some name) w = obliterate name w

abbrev pub close_queue : Shutdown → Option Text → World → World
close_queue (closing obliterates) queue w = obliterate_named queue w
close_queue (closing disconnects) queue w = w
close_queue idle queue w = w
close_queue finished queue w = w

-- What the awaited call of the queue does.
unfoldable pub teardown_work : ℕ → World → World
teardown_work ref w = elim (get ref w.heap) [
  | none ↦ w
  | some i ↦ close_queue i.shutdown_result i.queue w
]

abbrev pub is_closing : Shutdown → Bool
is_closing idle = false
is_closing (closing e) = true
is_closing finished = false

-- The rest of `teardown`: the queue is dropped, and so is the map's entry, if it is still this one.
unfoldable pub teardown_end : ℕ → World → World
teardown_end ref w = elim (get ref w.heap) [
  | none ↦ w
  | some i ↦
      if is_closing i.shutdown_result
      then record w {
        heap = set ref (record i { queue = none; shutdown_result = finished }) w.heap;
        platform_instances =
            if same_ref ref (get i.id w.platform_instances)
            then delete i.id w.platform_instances
            else w.platform_instances;
      }
      else w
]

-- `await instance.shutdown()` where nothing else happens meanwhile.
unfoldable pub run_shutdown : ℕ → World → World
unfolding shutdown teardown_work teardown_end
run_shutdown ref w = teardown_end ref (teardown_work ref (shutdown ref w))

-- `updateIdentifier`.
unfoldable pub update_identifier : ℕ → Text → Option Text → World → World
update_identifier ref identifier actor_id w = elim (get ref w.heap) [
  | none ↦ w
  | some i ↦ record w {
    heap = set ref (record i { id = identifier }) w.heap;
    platform_instances = set identifier ref (delete i.id w.platform_instances);
    scopes = reassign_anonymous_scopes i.id identifier i.name actor_id w.scopes;
  }
]

pub data JobState : Type 0 where
  completed failed : JobState

-- What the queue hands over with a job: nothing, a text (a failure's reason), or an activity.
pub data JobResult : Type 0 where
  no_result : JobResult
  text_result : Text → JobResult
  activity_result : Activity → JobResult

pub record JobData : Type 0 where
  pub title : Text
  pub session_id : Text
  pub msg : Activity

abbrev pub failure_reason : JobResult → Text
failure_reason no_result = codes "job failed for unknown reason"
failure_reason (text_result t) = if truthy t then t else codes "job failed for unknown reason"
failure_reason (activity_result a) = codes "[object Object]"

abbrev pub job_payload : JobState → JobData → JobResult → Activity
job_payload failed job result = record job.msg { error = some (failure_reason result) }
job_payload completed job no_result = job.msg
job_payload completed job (text_result t) = job.msg
job_payload completed job (activity_result a) = a

abbrev pub pause_named : Bool → Option Text → World → World
pause_named b none w = w
pause_named b (some name) w = set_paused b name w

-- The part for persistent platforms. Without a queue `this.queue.pause()` throws before the flags
-- are written, and `this.queue.resume()` after it.
credential_job : JobState → ℕ → Instance → World → World
credential_job failed ref i w =
    if i.initialized || not (is_some i.queue)
    then w
    else pause_named true i.queue
        (modify ref (λ j. record j { initialized = false; flagged_for_termination = true }) w)
credential_job completed ref i w =
    pause_named false i.queue
      (modify ref (λ j. record j { initialized = true; flagged_for_termination = false }) w)

module _ (ajv : Ajv) (g : ContextRegistry) where
  -- What goes to the session that asked.
  abbrev pub answer : Instance → World → Option ℕ → Text → Activity → Activity × List Emission
  answer i w none session_id payload = send_to_client ajv g w.sockets i session_id payload
  answer i w (some handler) session_id payload = (payload, call handler payload ∷ [])

  unfoldable pub handle_job_result : JobState → JobData → JobResult → ℕ → World → World
  unfolding credential_job
  handle_job_result state job result ref w = elim (get ref w.heap) [
    | none ↦ w
    | some i ↦
        let payload = to_external_payload i (job_payload state job result) in
        let (i', callback) = take_completed_job_handler job.title i in
        let (payload', es) = answer i w callback job.session_id payload in
        let peers = broadcast_to_shared_peers ajv g w.sockets i job.session_id payload' in
        let w' = send_all (es ++ peers) (modify ref (λ j. i') w) in
        if i.persist && member job.msg.kind i.require_credentials
        then credential_job state ref i' w'
        else w'
  ]

  unfoldable pub broadcast_fatal_error : Text → ℕ → World → World
  unfolding shutdown
  broadcast_fatal_error message ref w = elim (get ref w.heap) [
    | none ↦ w
    | some i ↦ shutdown ref (
        send_all (fatal_emissions ajv g w.sockets i message)
          (modify ref (λ j. record j { sessions = [] }) w))
  ]

  abbrev pub close_message : Text → Text
  close_message e = codes "Error: session thread closed unexpectedly: " ++ e

  unfoldable pub handle_process_close : Text → ℕ → World → World
  unfolding broadcast_fatal_error
  handle_process_close e ref w = elim (get ref w.heap) [
    | none ↦ w
    | some i ↦
        if not i.flagged_for_termination
        then shutdown ref (broadcast_fatal_error (close_message e) ref w)
        else shutdown ref w
  ]

-- A message of the child, `[first, second, third]`. Of `sessionUnauthorized` the second part is
-- present or not, and the third is a string or not; the second of an error is a string, has a
-- `message`, or is anything else, as it is serialized.
pub data ErrorPayload : Type 0 where
  plain with_message serialized : Text → ErrorPayload

pub data MessageFromPlatform : Type 0 where
  update_actor : Option Text → Text → MessageFromPlatform
  session_unauthorized : Bool → Option Text → MessageFromPlatform
  error : ErrorPayload → MessageFromPlatform
  heartbeat : MessageFromPlatform
  deliver : Activity → MessageFromPlatform

abbrev pub error_text : ErrorPayload → Text
error_text (plain t) = t
error_text (with_message t) = t
error_text (serialized t) = t

abbrev pub drop_session : Bool → Option Text → Instance → Instance
drop_session extra none i = i
drop_session extra (some sid) i = if not (truthy sid) || extra then i else deregister_session sid i

module _ (ajv : Ajv) (g : ContextRegistry) where
  unfoldable pub handle_process_message : MessageFromPlatform → ℕ → World → World
  unfolding broadcast_fatal_error update_identifier
  handle_process_message (update_actor actor_id identifier) ref w =
      update_identifier ref identifier actor_id w
  handle_process_message (session_unauthorized extra third) ref w =
      modify ref (drop_session extra third) w
  handle_process_message (error payload) ref w =
      broadcast_fatal_error ajv g (error_text payload) ref w
  handle_process_message heartbeat ref w = w
  handle_process_message (deliver msg) ref w = elim (get ref w.heap) [
    | none ↦ w
    | some i ↦ send_all (send_to_each ajv g w.sockets i i.sessions msg) w
  ]

-- The listener of the heartbeat monitor, and a tick of its interval.
unfoldable pub mark_heartbeat : ℕ → ℕ → World → World
mark_heartbeat now ref w = modify ref (λ i. record i { heartbeat_last_seen = now }) w

abbrev pub is_hung : ℕ → ℕ → Instance → Bool
is_hung timeout_ms now i =
    not (i.flagged_for_termination || i.heartbeat_failure_handled)
    && i.process.connected
    && ltb timeout_ms (now - i.heartbeat_last_seen)

unfoldable pub heartbeat_tick : ℕ → ℕ → ℕ → World → World
unfolding shutdown
heartbeat_tick timeout_ms now ref w = elim (get ref w.heap) [
  | none ↦ w
  | some i ↦
      if is_hung timeout_ms now i
      then shutdown ref (
          modify ref
            (λ j. record j { heartbeat_failure_handled = true; flagged_for_termination = true }) w)
      else w
]
