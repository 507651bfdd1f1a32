-- ===== src/ProcessManager/Tests.antt =====
-- Requests on which the theorems apply.
use sockethub.Base.{
  suc, ◌≤◌, ◌≡◌, refl, true, [], none, some, arith, codes, length, nat_eq, text_eq, text_beq,
  ne_of_beq,
}
use sockethub.Base.Table.{get}
use sockethub.ConnectionScope.{ResumptionRef, forget_anonymous_scopes}
use sockethub.PlatformInstance.{mark_replaced}
use sockethub.PlatformInstance.Lifecycle.{shutdown, teardown_work, teardown_end}
use sockethub.PlatformInstance.Lifecycle.Teardown.{finished_instance}
use sockethub.World.{Instance, disconnects}
use sockethub.World.Samples.{alive, dead, irc, irc_id, world_of}
use sockethub.ProcessManager.{
  EnsureRequest, ensure_begin, ensure_finish, is_process_alive, has_capacity,
}
use sockethub.ProcessManager.Ensure.{ensure_process_now, ensure-dead}
use sockethub.ProcessManager.Capacity.{ensure-length-le}
use sockethub.ProcessManager.Races.{ensure-during_teardown}

abbrev resumption : ResumptionRef
resumption = record { key = codes "k"; ip = codes "::1" }

abbrev request : EnsureRequest
request = record {
  identifier = irc_id;
  platform = codes "irc";
  session_id = some (codes "s1");
  actor = some (codes "jim");
  session_ip = none;
  connection_scope = some (record { scope = codes "s1"; resumption = some resumption });
}

abbrev dead_irc : Instance
dead_irc = record irc { process = dead }

ensure-dead_example :
    let (w', result) = ensure_process_now 5 request 10 alive (world_of dead_irc) in
    (result ≡ some 1)
    × (get irc_id w'.platform_instances ≡ some 1)
    × (w'.queues ≡ (world_of dead_irc).queues)
    × (w'.next_ref ≡ suc 1)
    × (get 0 w'.heap ≡ some (finished_instance disconnects (mark_replaced dead_irc)))
unfolding get text_beq is_process_alive has_capacity
ensure-dead_example =
    ensure-dead 5 10 request alive (world_of dead_irc) 0 dead_irc refl refl refl refl refl
      (omega arith)

ensure-length-le_example :
    length (ensure_process_now 1 request 10 alive (world_of dead_irc)).0.platform_instances ≤ 1
ensure-length-le_example =
    ensure-length-le 1 10 request alive (world_of dead_irc) (ne_of_beq 1 0 refl) (omega arith)

ensure-during_teardown_example :
    let (w', start) = ensure_begin 5 irc_id (shutdown 0 (world_of irc)) in
    let (w'', result) = ensure_finish request start 10 alive w' in
    let v = teardown_end 0 (teardown_work 0 w'') in
    (result ≡ some 0)
    × (get irc_id v.platform_instances ≡ none)
    × (get irc_id v.queues ≡ some (record { paused = true; jobs = [] }))
    × (get resumption.key v.scopes.anonymous_scopes
        ≡ some (record {
          scope = codes "s1";
          instance_id = irc_id;
          session_id = codes "s1";
          ip = resumption.ip;
        }))
unfolding get text_beq is_process_alive forget_anonymous_scopes
ensure-during_teardown_example =
    ensure-during_teardown 5 10 request alive (world_of irc) 0 irc (codes "s1") irc_id (codes "s1")
      resumption refl refl refl refl refl refl refl refl refl refl refl refl
