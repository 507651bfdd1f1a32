-- ===== src/ProcessManager/Races.antt =====
-- A run of `ensureProcess` that meets a teardown under way.
use sockethub.Base.{
  ℕ, ◌≡◌, refl, true, false, List, [], Option, none, some, Text, nat_eq, text_eq, eq_refl,
  if◌then◌else◌, or_else, ap,
}
use sockethub.Base.Table.{get, get-set_self, get-delete}
use sockethub.Identity.{truthy, given}
use sockethub.ConnectionScope.{
  ResumptionRef, Scopes, AnonymousRecord, remember_anonymous_scope, held_by_other,
  forget_anonymous_scopes,
}
use sockethub.PlatformInstance.{register_session}
use sockethub.PlatformInstance.Lifecycle.{
  shutdown, teardown_begin, teardown_work, teardown_end, queue_end,
}
use sockethub.PlatformInstance.Lifecycle.Teardown.{
  shutdown-idle, get-teardown_begin, closing_instance, teardown_work-obliterates,
  teardown_end-closing,
}
use sockethub.World.{Instance, World, Process, idle, closing, obliterates, obliterate}
use sockethub.World.Laws.{modify-some}
use sockethub.ProcessManager.{
  EnsureRequest, ensure_begin, ensure_finish, enlist, reuse, is_process_alive, deref,
}
use sockethub.ProcessManager.Ensure.{enlist-fields}

abbrev remembered : Text → Text → Text → ResumptionRef → AnonymousRecord
remembered scope instance_id session res = record {
  scope = scope;
  instance_id = instance_id;
  session_id = session;
  ip = res.ip;
}

get-remember :
    (live : Option (List Text)) (res : ResumptionRef) (scope instance_id session : Text)
    (s : Scopes)
    → truthy scope ≡ true
    → truthy session ≡ true
    → held_by_other live session (get res.key s.anonymous_scopes) ≡ false
    → get res.key (remember_anonymous_scope live res scope instance_id session s).anonymous_scopes
      ≡ some (remembered scope instance_id session res)
unfolding remember_anonymous_scope
get-remember live res scope instance_id session s sc se free =
    rw (sc, se, free)
      (get-set_self res.key (remembered scope instance_id session res) s.anonymous_scopes)

enlist-scopes :
    (q : EnsureRequest) (ref : ℕ) (w : World) (i : Instance) (session scope : Text)
    (res : ResumptionRef)
    → get ref w.heap ≡ some i
    → q.session_id ≡ some session
    → truthy session ≡ true
    → q.connection_scope ≡ some (record { scope = scope; resumption = some res })
    → (enlist q ref w).scopes
      ≡ remember_anonymous_scope (some w.sockets) res scope q.identifier session w.scopes
unfolding enlist
enlist-scopes q ref w i session scope res at e t sc = rw (sc, e, t, modify-some ref _ w i at)

ensure_begin-alive :
    (max : ℕ) (identifier : Text) (w : World) (ref : ℕ) (i : Instance)
    → get identifier w.platform_instances ≡ some ref
    → get ref w.heap ≡ some i
    → is_process_alive i ≡ true
    → ensure_begin max identifier w ≡ (w, reuse ref)
unfolding ensure_begin
ensure_begin-alive max identifier w ref i mapped at alive = rw (mapped, deref, at, alive)

-- The two later steps of a teardown that obliterates, over an instance that the map has.
obliterating_end :
    (ref : ℕ) (i : Instance) (id name : Text) (w : World)
    → get ref w.heap ≡ some i
    → i.shutdown_result ≡ closing obliterates
    → i.queue ≡ some name
    → i.id ≡ id
    → get id w.platform_instances ≡ some ref
    → (get id (teardown_end ref (teardown_work ref w)).platform_instances ≡ none)
      × (get name (teardown_end ref (teardown_work ref w)).queues
          ≡ some (record { paused = true; jobs = [] }))
      × ((teardown_end ref (teardown_work ref w)).scopes ≡ w.scopes)
unfolding obliterate
obliterating_end ref i id name w at c q own mapped =
    rw
      (
        teardown_work-obliterates ref i w at name c q,
        teardown_end-closing ref i (obliterate name w) at obliterates c,
        own,
        mapped,
        eq_refl ref,
      )
      (
        rw (get-delete id id w.platform_instances, eq_refl id),
        get-set_self name (record { paused = true; jobs = [] }) w.queues,
        refl,
      )

module _ (max now : ℕ) (q : EnsureRequest) (process : Process) (w : World) (ref : ℕ) (i : Instance)
    (session name : Text) (scope : Text) (res : ResumptionRef)
    (mapped : get q.identifier w.platform_instances ≡ some ref) (at : get ref w.heap ≡ some i)
    (own : i.id ≡ q.identifier) (fresh : i.shutdown_result ≡ idle) (kept : i.replaced ≡ false)
    (queued : i.queue ≡ some name) (alive : is_process_alive i ≡ true)
    (from_socket : q.session_id ≡ some session) (named : truthy session ≡ true)
    (scoped : q.connection_scope ≡ some (record { scope = scope; resumption = some res }))
    (given_scope : truthy scope ≡ true)
    (free : held_by_other
        (some w.sockets)
        session
        (get res.key (forget_anonymous_scopes i.id w.scopes).anonymous_scopes)
      ≡ false) where
  ends-obliterating : queue_end ref i w ≡ obliterates
  ends-obliterating = rw (kept, own, mapped, eq_refl ref)

  -- The dying instance is taken for a live one.
  ensure-closing :
      ensure_begin max q.identifier (shutdown ref w) ≡ (teardown_begin ref i w, reuse ref)
  unfolding is_process_alive teardown_begin
  ensure-closing = rw (shutdown-idle ref i w at fresh) (
      ensure_begin-alive max q.identifier (teardown_begin ref i w) ref
        (closing_instance (queue_end ref i w) i) mapped (get-teardown_begin ref i w at) alive)

  closing_session : Instance
  closing_session =
      if given q.session_id
      then register_session (or_else q.session_id []) q.session_ip
          (closing_instance (queue_end ref i w) i)
      else closing_instance (queue_end ref i w) i

  closing_session-fields :
      (closing_session.shutdown_result ≡ closing obliterates)
      × (closing_session.queue ≡ some name)
      × (closing_session.id ≡ q.identifier)
  unfolding closing_session register_session
  closing_session-fields = rw (from_socket, named) (ap closing ends-obliterating, queued, own)

  -- A named session, with a scope that can be resumed and whose record no other connected session
  -- holds, asks for an instance that the map has, that has a queue and is not marked replaced, while its
  -- teardown is under way and its process has not exited: it is given that instance; when the teardown
  -- ends the queue is empty, the identifier has no instance, and the scope stays recorded for it.
  pub ensure-during_teardown :
      (let (w', start) = ensure_begin max q.identifier (shutdown ref w) in
        let (w'', result) = ensure_finish q start now process w' in
        let v = teardown_end ref (teardown_work ref w'') in
        (result ≡ some ref)
        × (get q.identifier v.platform_instances ≡ none)
        × (get name v.queues ≡ some (record { paused = true; jobs = [] }))
        × (get res.key v.scopes.anonymous_scopes
            ≡ some (record {
              scope = scope;
              instance_id = q.identifier;
              session_id = session;
              ip = res.ip;
            })))
  unfolding ensure_finish teardown_begin
  ensure-during_teardown =
      let wb = teardown_begin ref i w in
      let begun = get-teardown_begin ref i w at in
      let (m, h, _, _) = enlist-fields q ref wb (closing_instance (queue_end ref i w) i) begun in
      let (c, n, o) = closing_session-fields in
      let (gone, emptied, kept_scopes) =
        obliterating_end ref closing_session q.identifier name (enlist q ref wb)
          (unfold closing_session in h) c n o
          (rw m (get-set_self q.identifier ref wb.platform_instances)) in
      rw ensure-closing (
        refl,
        gone,
        emptied,
        rw (kept_scopes, enlist-scopes q ref wb _ session scope res begun from_socket named scoped)
            (get-remember (some w.sockets) res scope q.identifier session wb.scopes given_scope
              named (unfold teardown_begin in free)),
      )
