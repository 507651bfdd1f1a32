-- ===== src/ProcessManager.antt =====
-- packages/server/src/process-manager.ts: which instance serves an action, and packages/server/src/
-- http/session-registry.ts. `ensureProcessNow` waits for the teardown of a dead predecessor, so it
-- is in two parts: up to that `await`, and the rest.
pub mod Ensure
pub mod Capacity
pub mod Races
mod Tests
use sockethub.Base.{
  ℕ, suc, ◌-◌, ◌≤◌, Bool, true, false, ◌&&◌, ◌||◌, not, List, [], ◌∷◌, ◌++◌, Option, none, some,
  or_else, is_some, if◌then◌else◌, ltb, leb, length, Text, codes, nat_eq, text_eq, ◌==◌,
}
use sockethub.Base.Table.{Table, get, set, delete, has}
use sockethub.Identity.{truthy, given, get_platform_id}
use sockethub.ConnectionScope.{ConnectionScope, ResumptionRef, remember_anonymous_scope}
use sockethub.PlatformInstance.{construct, mark_replaced, register_session, PlatformInstanceParams}
use sockethub.PlatformInstance.Lifecycle.{shutdown}
use sockethub.World.{
  Instance, Process, Signal, delivered, not_permitted, no_such_process, World, modify,
}

-- The session registry.
unfoldable pub register_http_session : Text → Table Text ℕ → Table Text ℕ
register_http_session id m = set id (suc (or_else (get id m) 0)) m

abbrev pub unregister_count : Text → Table Text ℕ → Option ℕ → Table Text ℕ
unregister_count id m none = m
unregister_count id m (some current) =
    if current == 0 then m else if leb current 1 then delete id m else set id (current - 1) m

unfoldable pub unregister_http_session : Text → Table Text ℕ → Table Text ℕ
unregister_http_session id m = unregister_count id m (get id m)

abbrev pub has_http_sessions : Text → Table Text ℕ → Bool
has_http_sessions id m = has id m

abbrev pub answers : Signal → Bool
answers delivered = true
answers not_permitted = true
answers no_such_process = false

unfoldable pub is_process_alive : Instance → Bool
is_process_alive i = not (i.process.pid == 0) && not i.process.exited && answers i.process.signal

-- `max` 0 is no limit. The slot of the identifier itself does not count.
abbrev pub occupied : Text → World → ℕ
occupied identifier w =
    if has identifier w.platform_instances
    then length w.platform_instances - 1
    else length w.platform_instances

unfoldable pub has_capacity : ℕ → Text → World → Bool
has_capacity max identifier w = max == 0 || ltb (occupied identifier w) max

-- The instance that the map has under an identifier.
abbrev pub deref : World → Option ℕ → Option (ℕ × Instance)
deref w none = none
deref w (some ref) = elim (get ref w.heap) [ none ↦ none | some i ↦ some (ref, i) ]

abbrev pub instance_at : Text → World → Option (ℕ × Instance)
instance_at identifier w = deref w (get identifier w.platform_instances)

-- How a run goes on: with a live instance, with a new one after the teardown of a dead one, with a
-- new one at once, or not at all.
pub data Start : Type 0 where
  reuse replace : ℕ → Start
  create full : Start

start_from : ℕ → Text → Option (ℕ × Instance) → World → World × Start
start_from max identifier none w = if has_capacity max identifier w then (w, create) else (w, full)
start_from max identifier (some (ref, i)) w =
    if is_process_alive i
    then (w, reuse ref)
    else if has_capacity max identifier w
    then (shutdown ref (modify ref mark_replaced w), replace ref)
    else (w, full)

-- `ensureProcessNow` up to `await existing.shutdown()`.
unfoldable pub ensure_begin : ℕ → Text → World → World × Start
unfolding start_from
ensure_begin max identifier w = start_from max identifier (instance_at identifier w) w

pub record EnsureRequest : Type 0 where
  pub identifier : Text
  pub platform : Text
  pub session_id : Option Text
  pub actor : Option Text
  pub session_ip : Option Text
  pub connection_scope : Option ConnectionScope

-- `createPlatformInstance`, over the process that `fork` gives.
unfoldable pub create_platform_instance : EnsureRequest → ℕ → Process → World → World × ℕ
create_platform_instance q now process w = (
  record w {
    heap =
        set w.next_ref
          (construct (record { identifier = q.identifier; platform = q.platform; actor = q.actor })
            now process)
          w.heap;
    next_ref = suc w.next_ref;
  },
  w.next_ref,
)

abbrev pub remember_from : EnsureRequest → Option ConnectionScope → World → World
remember_from q none w = w
remember_from q (some scope) w = elim scope.resumption [
  | none ↦ w
  | some ref ↦
      if given q.session_id
      then record w {
        scopes =
            remember_anonymous_scope (some w.sockets) ref scope.scope q.identifier
              (or_else q.session_id []) w.scopes;
      }
      else w
]

-- What follows once the instance is known.
unfoldable pub enlist : EnsureRequest → ℕ → World → World
enlist q ref w =
    let w' =
      if given q.session_id
      then modify ref (register_session (or_else q.session_id []) q.session_ip) w
      else w in
    remember_from q q.connection_scope
      (record w' { platform_instances = set q.identifier ref w'.platform_instances })

-- The rest of `ensureProcessNow`. `none` is the error of a full server.
unfoldable pub ensure_finish : EnsureRequest → Start → ℕ → Process → World → World × Option ℕ
unfolding create_platform_instance enlist
ensure_finish q (reuse ref) now process w = (enlist q ref w, some ref)
ensure_finish q (replace ref) now process w =
    let (w', new) = create_platform_instance q now process w in (enlist q new w', some new)
ensure_finish q create now process w =
    let (w', new) = create_platform_instance q now process w in (enlist q new w', some new)
ensure_finish q full now process w = (w, none)
