-- ===== src/Janitor/Grace.antt =====
-- What a stale check does to an instance: its dead sessions go at once, itself only at the second
-- check in a row that finds it unused.
use sockethub.Base.{
  ℕ, ◌≡◌, refl, Bool, true, false, ◌&&◌, ◌||◌, not, List, [], ◌∷◌, Option, some, arith, Text,
  nat_eq, text_eq, if◌then◌else◌, ◌∙◌, text_beq_iff,
}
use sockethub.Base.Table.{get, set, get-set_self}
use sockethub.Base.Group.{member, member-remove}
use sockethub.Context.{ContextRegistry}
use sockethub.Validator.{Ajv}
use sockethub.PlatformInstance.{register_session}
use sockethub.PlatformInstance.Lifecycle.{run_shutdown, handle_process_close}
use sockethub.PlatformInstance.Lifecycle.Failure.{handle_process_close-outbox}
use sockethub.World.{Instance, World, modify}
use sockethub.World.Laws.{modify-some}
use sockethub.Janitor.{
  remove_stale_socket_session, remove_stale_socket_sessions, stale_loop,
  remove_stale_platform_instance, is_stale, perform_stale_check,
}

stale_loop-sessions :
    (sid : Text) (stop : Bool) (sockets sids : List Text) (i : Instance)
    → member sid (stale_loop stop sockets sids i).sessions
      ≡ (member sid i.sessions && not (member sid sids && (stop || not (member sid sockets))))
unfolding stale_loop remove_stale_socket_session member
stale_loop-sessions sid stop sockets [] i = ground arith
stale_loop-sessions sid stop sockets (s ∷ sids) i = ground (
  arith,
  stale_loop-sessions sid stop sockets sids i,
  stale_loop-sessions sid stop sockets sids (remove_stale_socket_session s i),
  member-remove s sid i.sessions,
  text_beq_iff s sid,
)

-- The sessions that are left are those whose sockets are connected, and none while the server stops.
remove_stale_socket_sessions-sessions :
    (sid : Text) (stop : Bool) (sockets : List Text) (i : Instance)
    → member sid (remove_stale_socket_sessions stop sockets i).sessions
      ≡ (member sid i.sessions && member sid sockets && not stop)
unfolding remove_stale_socket_sessions
remove_stale_socket_sessions-sessions sid stop sockets i =
    ground (arith, stale_loop-sessions sid stop sockets i.sessions i)

stale_loop-rest :
    (stop : Bool) (sockets sids : List Text) (i : Instance)
    → ((stale_loop stop sockets sids i).flagged_for_termination ≡ i.flagged_for_termination)
      × ((stale_loop stop sockets sids i).shutdown_result ≡ i.shutdown_result)
      × ((stale_loop stop sockets sids i).is_global ≡ i.is_global)
      × ((stale_loop stop sockets sids i).id ≡ i.id)
unfolding stale_loop remove_stale_socket_session
stale_loop-rest stop sockets [] i = (refl, refl, refl, refl)
stale_loop-rest stop sockets (s ∷ sids) i =
    let i' = if stop || not (member s sockets) then remove_stale_socket_session s i else i in
    let (f, r, g, d) = stale_loop-rest stop sockets sids i' in
    (f ∙ ground arith, r ∙ ground arith, g ∙ ground arith, d ∙ ground arith)

-- The instance with its dead sessions off.
abbrev pub swept : World → Instance → Instance
swept w i = remove_stale_socket_sessions false w.sockets i

swept-rest :
    (w : World) (i : Instance)
    → ((swept w i).flagged_for_termination ≡ i.flagged_for_termination)
      × ((swept w i).shutdown_result ≡ i.shutdown_result)
      × ((swept w i).id ≡ i.id)
unfolding remove_stale_socket_sessions
swept-rest w i = let (f, r, _, d) = stale_loop-rest false w.sockets i.sessions i in (f, r, d)

module _ (ref : ℕ) (i : Instance) (w : World) (at : get ref w.heap ≡ some i) where
  remove-unflagged :
      i.flagged_for_termination ≡ false
      → remove_stale_platform_instance false ref w
        ≡ record w { heap = set ref (record i { flagged_for_termination = true }) w.heap }
  unfolding remove_stale_platform_instance
  remove-unflagged u =
      rw (at, remove_stale_platform_instance, u)
        (modify-some ref (λ j. record j { flagged_for_termination = true }) w i at)

  remove-flagged :
      i.flagged_for_termination ≡ true
      → remove_stale_platform_instance false ref w ≡ run_shutdown ref w
  unfolding remove_stale_platform_instance
  remove-flagged u = rw (at, remove_stale_platform_instance, u)

abbrev pub with_instance : ℕ → Instance → World → World
with_instance ref i w = record w { heap = set ref i w.heap }

module _ (ref : ℕ) (i : Instance) (w : World) (at : get ref w.heap ≡ some i) where
  -- An instance that is in use, or global, loses its dead sessions and nothing else.
  pub perform_stale_check-used :
      is_stale w (swept w i) ≡ false
      → perform_stale_check false ref w ≡ with_instance ref (swept w i) w
  unfolding perform_stale_check
  perform_stale_check-used used =
      rw
        (
          modify-some ref (remove_stale_socket_sessions false w.sockets) w i at,
          get-set_self ref (swept w i) w.heap,
        )
        (rw used refl)

  check-stale :
      is_stale w (swept w i) ≡ true
      → perform_stale_check false ref w
        ≡ remove_stale_platform_instance false ref (with_instance ref (swept w i) w)
  unfolding perform_stale_check
  check-stale stale =
      rw
        (
          modify-some ref (remove_stale_socket_sessions false w.sockets) w i at,
          get-set_self ref (swept w i) w.heap,
        )
        (rw stale refl)

  -- An unused instance that is not flagged is flagged, and keeps its process, its queue and its
  -- place.
  pub perform_stale_check-first :
      is_stale w (swept w i) ≡ true
      → i.flagged_for_termination ≡ false
      → perform_stale_check false ref w
        ≡ with_instance ref
            (record (swept w i) { flagged_for_termination = true })
            (with_instance ref (swept w i) w)
  perform_stale_check-first stale unflagged =
      let (f, _, _) = swept-rest w i in
      check-stale stale
      ∙ remove-unflagged ref (swept w i) (with_instance ref (swept w i) w)
          (get-set_self ref (swept w i) w.heap) (f ∙ unflagged)

  -- An unused instance that is flagged is shut down.
  pub perform_stale_check-second :
      is_stale w (swept w i) ≡ true
      → i.flagged_for_termination ≡ true
      → perform_stale_check false ref w ≡ run_shutdown ref (with_instance ref (swept w i) w)
  perform_stale_check-second stale flagged =
      let (f, _, _) = swept-rest w i in
      check-stale stale
      ∙ remove-flagged ref (swept w i) (with_instance ref (swept w i) w)
          (get-set_self ref (swept w i) w.heap) (f ∙ flagged)

-- A session that comes back to an instance that a check has flagged does not take the flag away: if
-- the process then crashes, nobody is told.
pub crash_after_grace :
    (ajv : Ajv) (g : ContextRegistry) (ref : ℕ) (i : Instance) (w : World) (session reason : Text)
    (ip : Option Text)
    → get ref w.heap ≡ some i
    → is_stale w (swept w i) ≡ true
    → i.flagged_for_termination ≡ false
    → (handle_process_close ajv g reason ref
        (modify ref (register_session session ip) (perform_stale_check false ref w))).outbox
      ≡ w.outbox
unfolding register_session
crash_after_grace ajv g ref i w session reason ip at stale unflagged =
    let j = record (swept w i) { flagged_for_termination = true } in
    let v = with_instance ref j (with_instance ref (swept w i) w) in
    rw
      (
        perform_stale_check-first ref i w at stale unflagged,
        modify-some ref (register_session session ip) v j
            (get-set_self ref j (with_instance ref (swept w i) w).heap),
      )
      (handle_process_close-outbox ajv g ref (register_session session ip j)
        (with_instance ref (register_session session ip j) v)
        (get-set_self ref (register_session session ip j) v.heap) reason)
