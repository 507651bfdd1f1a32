-- ===== src/Janitor.antt =====
-- packages/server/src/janitor.ts: the cycle that takes down instances whose sessions are gone.
pub mod Grace
mod Tests
use sockethub.Base.{
  ℕ, suc, ◌+◌, ◌%◌, Bool, true, false, ◌&&◌, ◌||◌, not, List, [], ◌∷◌, Option, none, some,
  if◌then◌else◌, Text, nat_eq, text_eq, ◌==◌, length, ltb,
}
use sockethub.Base.Table.{Table, get, set, delete}
use sockethub.Base.Group.{member, remove}
use sockethub.ProcessManager.{has_http_sessions}
use sockethub.PlatformInstance.Lifecycle.{run_shutdown}
use sockethub.World.{Instance, World, modify}

pub record Janitor : Type 0 where
  pub cycle_count : ℕ
  pub report_count : ℕ
  pub stop_triggered : Bool
  pub cycle_running : Bool

unfoldable pub remove_stale_socket_session : Text → Instance → Instance
remove_stale_socket_session sid i = record i {
  sessions = remove sid i.sessions;
  session_ips = delete sid i.session_ips;
}

unfoldable stale_loop : Bool → List Text → List Text → Instance → Instance
unfolding remove_stale_socket_session
stale_loop stop sockets [] i = i
stale_loop stop sockets (sid ∷ sids) i =
    stale_loop stop sockets sids
      (if stop || not (member sid sockets) then remove_stale_socket_session sid i else i)

unfoldable pub remove_stale_socket_sessions : Bool → List Text → Instance → Instance
unfolding stale_loop
remove_stale_socket_sessions stop sockets i = stale_loop stop sockets i.sessions i

-- The first time an instance is flagged, the next time it is shut down.
unfoldable pub remove_stale_platform_instance : Bool → ℕ → World → World
remove_stale_platform_instance stop ref w = elim (get ref w.heap) [
  | none ↦ w
  | some i ↦
      if i.flagged_for_termination || stop
      then run_shutdown ref w
      else modify ref (λ j. record j { flagged_for_termination = true }) w
]

abbrev pub is_stale : World → Instance → Bool
is_stale w i =
    not i.is_global
    && ((i.persist && not i.initialized)
        || not (ltb 0 (length i.sessions) || has_http_sessions i.id w.http_sessions))

abbrev stale_check_of : Bool → ℕ → Option Instance → World → World
stale_check_of stop ref none w = w
stale_check_of stop ref (some i) w =
    if is_stale w i then remove_stale_platform_instance stop ref w else w

unfoldable pub perform_stale_check : Bool → ℕ → World → World
unfolding remove_stale_socket_sessions remove_stale_platform_instance
perform_stale_check stop ref w =
    let w' = modify ref (remove_stale_socket_sessions stop w.sockets) w in
    stale_check_of stop ref (get ref w'.heap) w'

-- The loop over the map. A `Map` that is iterated shows no entry twice, and the entries that a check
-- deletes are the checked ones.
check_all : Bool → Table Text ℕ → World → World
unfolding perform_stale_check
check_all stop [] w = w
check_all stop ((id, ref) ∷ rest) w = check_all stop rest (perform_stale_check stop ref w)

-- `clean`: absent where it throws because a cycle is running.
unfoldable pub clean : Janitor → World → Option (Janitor × World)
unfolding check_all
clean j w =
    if j.stop_triggered
    then some (record j { cycle_running = false }, w)
    else if j.cycle_running
    then none
    else some (
      record j {
        cycle_count = j.cycle_count + 1;
        report_count = if (j.cycle_count + 1) % 2 == 0 then j.report_count + 1 else j.report_count;
        cycle_running = false;
      },
      check_all false w.platform_instances w,
    )

stop_all : Table Text ℕ → World → World
unfolding remove_stale_socket_sessions remove_stale_platform_instance
stop_all [] w = w
stop_all ((id, ref) ∷ rest) w = stop_all rest (
    run_shutdown ref (
      remove_stale_platform_instance true ref
        (modify ref (remove_stale_socket_sessions true w.sockets) w)))

unfoldable pub stop : Janitor → World → Janitor × World
unfolding stop_all
stop j w = (record j { stop_triggered = true }, stop_all w.platform_instances w)
