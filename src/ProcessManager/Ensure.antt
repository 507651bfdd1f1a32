-- ===== src/ProcessManager/Ensure.antt =====
-- Which instance an uninterrupted run of `ensureProcessNow` ends with.
use sockethub.Base.{
  ℕ, suc, ◌<◌, ◌≡◌, refl, ◌≢◌, true, false, [], Option, some, arith, nat_eq, text_eq, if◌then◌else◌,
  ap, sym, or_else, ◌∙◌, Bool-cases, inl, inr,
}
use sockethub.Base.Table.{get, set, get-set_ne, get-set_self}
use sockethub.Identity.{given}
use sockethub.PlatformInstance.{mark_replaced, register_session}
use sockethub.PlatformInstance.Lifecycle.{teardown_work, teardown_end, run_shutdown}
use sockethub.PlatformInstance.Lifecycle.Teardown.{run_shutdown-disconnects, finished_instance}
use sockethub.World.{Instance, World, Process, idle, modify, disconnects}
use sockethub.World.Laws.{modify-some, get-modify_ne, get-modify_self}
use sockethub.ProcessManager.{
  Start, reuse, replace, create, full, EnsureRequest, ensure_begin, ensure_finish, enlist,
  instance_at, deref, is_process_alive, has_capacity, create_platform_instance, remember_from,
}

-- The teardown that a run waits for.
abbrev pub await_teardown : Start → World → World
await_teardown (replace ref) w = teardown_end ref (teardown_work ref w)
await_teardown (reuse ref) w = w
await_teardown create w = w
await_teardown full w = w

-- `ensureProcessNow` where nothing happens while it waits.
unfoldable pub ensure_process_now : ℕ → EnsureRequest → ℕ → Process → World → World × Option ℕ
unfolding ensure_begin ensure_finish
ensure_process_now max q now process w =
    let (w', start) = ensure_begin max q.identifier w in
    ensure_finish q start now process (await_teardown start w')

remember_from-fields :
    (q : EnsureRequest) (w : World)
    → ((remember_from q q.connection_scope w).platform_instances ≡ w.platform_instances)
      × ((remember_from q q.connection_scope w).heap ≡ w.heap)
      × ((remember_from q q.connection_scope w).queues ≡ w.queues)
      × ((remember_from q q.connection_scope w).next_ref ≡ w.next_ref)
remember_from-fields q w = ground arith

pub enlist-fields :
    (q : EnsureRequest) (ref : ℕ) (w : World) (i : Instance)
    → get ref w.heap ≡ some i
    → ((enlist q ref w).platform_instances ≡ set q.identifier ref w.platform_instances)
      × (get ref (enlist q ref w).heap
          ≡ some (
              if given q.session_id
              then register_session (or_else q.session_id []) q.session_ip i
              else i))
      × ((enlist q ref w).queues ≡ w.queues)
      × ((enlist q ref w).next_ref ≡ w.next_ref)
unfolding enlist
enlist-fields q ref w i at = elim (Bool-cases (given q.session_id)) [
  | inl named ↦
      let f = register_session (or_else q.session_id []) q.session_ip in
      let (m, h, qs, n) = remember_from-fields q (record (modify ref f w) {
        platform_instances = set q.identifier ref (modify ref f w).platform_instances;
      }) in
      rw (named, m, h, qs, n, modify-some ref f w i at)
        (refl, get-set_self ref (f i) w.heap, refl, refl)
  | inr unnamed ↦
      let (m, h, qs, n) =
        remember_from-fields q
          (record w { platform_instances = set q.identifier ref w.platform_instances }) in
      rw (unnamed, m, h, qs, n) (refl, at, refl, refl)
]

pub get-enlist_ne :
    (q : EnsureRequest) (ref r : ℕ) (w : World)
    → r ≢ ref
    → get r (enlist q ref w).heap ≡ get r w.heap
unfolding enlist
get-enlist_ne q ref r w n = elim (Bool-cases (given q.session_id)) [
  | inl named ↦
      let f = register_session (or_else q.session_id []) q.session_ip in
      let (_, h, _, _) = remember_from-fields q (record (modify ref f w) {
        platform_instances = set q.identifier ref (modify ref f w).platform_instances;
      }) in
      rw (named, h) (get-modify_ne ref r f w n)
  | inr unnamed ↦
      let (_, h, _, _) =
        remember_from-fields q
          (record w { platform_instances = set q.identifier ref w.platform_instances }) in
      rw (unnamed, h)
]

-- What a new instance changes.
pub created :
    (q : EnsureRequest) (now : ℕ) (process : Process) (v : World)
    → let (v', new) = create_platform_instance q now process v in
      ((enlist q new v').platform_instances ≡ set q.identifier v.next_ref v.platform_instances)
      × ((enlist q new v').queues ≡ v.queues)
      × ((enlist q new v').next_ref ≡ suc v.next_ref)
unfolding create_platform_instance
created q now process v =
    let (v', new) = create_platform_instance q now process v in
    let (m, _, qs, n) = enlist-fields q new v' _ (get-set_self v.next_ref _ v.heap) in (m, qs, n)

pub created-old :
    (q : EnsureRequest) (now r : ℕ) (process : Process) (v : World)
    → r ≢ v.next_ref
    → let (v', new) = create_platform_instance q now process v in
      get r (enlist q new v').heap ≡ get r v.heap
unfolding create_platform_instance
created-old q now r process v n =
    get-enlist_ne q v.next_ref r (create_platform_instance q now process v).0 n
    ∙ get-set_ne v.next_ref r _ v.heap (λ e. n (sym e))

module _ (max now : ℕ) (q : EnsureRequest) (process : Process) (w : World) (ref : ℕ) (i : Instance)
    (mapped : get q.identifier w.platform_instances ≡ some ref) (at : get ref w.heap ≡ some i) where
  instance_at-mapped : instance_at q.identifier w ≡ some (ref, i)
  instance_at-mapped = rw (mapped, deref, at)

  -- A live process is kept: nothing is forked or torn down, and the session joins it.
  pub ensure-alive :
      is_process_alive i ≡ true
      → let (w', result) = ensure_process_now max q now process w in
        (result ≡ some ref)
        × (get q.identifier w'.platform_instances ≡ some ref)
        × (w'.next_ref ≡ w.next_ref)
        × (w'.queues ≡ w.queues)
        × (get ref w'.heap
            ≡ some (
                if given q.session_id
                then register_session (or_else q.session_id []) q.session_ip i
                else i))
  unfolding ensure_process_now ensure_begin ensure_finish
  ensure-alive alive =
      let (m, h, qs, n) = enlist-fields q ref w i at in
      rw (instance_at-mapped, alive)
        (refl, rw m (get-set_self q.identifier ref w.platform_instances), n, qs, h)

  -- The dead instance is shut down as a replaced one before the new one stands in its place.
  ensure_process_now-dead :
      is_process_alive i ≡ false
      → has_capacity max q.identifier w ≡ true
      → ensure_process_now max q now process w ≡ (
          let v = run_shutdown ref (modify ref mark_replaced w) in
          let (v', new) = create_platform_instance q now process v in (enlist q new v', some new))
  unfolding ensure_process_now ensure_begin ensure_finish create_platform_instance run_shutdown
  ensure_process_now-dead dead room = rw (instance_at-mapped, dead, room)

  buried :
      i.shutdown_result ≡ idle
      → let v = run_shutdown ref (modify ref mark_replaced w) in
        (v.queues ≡ w.queues)
        × (v.next_ref ≡ w.next_ref)
        × (get ref v.heap ≡ some (finished_instance disconnects (mark_replaced i)))
  unfolding mark_replaced
  buried fresh =
      let w0 = modify ref mark_replaced w in
      rw
        (run_shutdown-disconnects ref (mark_replaced i) w0
          (get-modify_self ref mark_replaced w i at) fresh refl)
        (
          rw (modify-some ref mark_replaced w i at),
          rw (modify-some ref mark_replaced w i at),
          get-set_self ref (finished_instance disconnects (mark_replaced i)) _,
        )

  -- A dead process is replaced by a new one with the same identifier. The jobs that wait in the
  -- queue of that identifier are left to the new one.
  pub ensure-dead :
      is_process_alive i ≡ false
      → has_capacity max q.identifier w ≡ true
      → i.shutdown_result ≡ idle
      → ref < w.next_ref
      → let (w', result) = ensure_process_now max q now process w in
        (result ≡ some w.next_ref)
        × (get q.identifier w'.platform_instances ≡ some w.next_ref)
        × (w'.queues ≡ w.queues)
        × (w'.next_ref ≡ suc w.next_ref)
        × (get ref w'.heap ≡ some (finished_instance disconnects (mark_replaced i)))
  ensure-dead dead room fresh old =
      let v = run_shutdown ref (modify ref mark_replaced w) in
      let (qs, n, buried_at) = buried fresh in
      let (m', qs', n') = created q now process v in
      rw (ensure_process_now-dead dead room) (
        unfold create_platform_instance in ap some n,
        rw m' (get-set_self q.identifier v.next_ref v.platform_instances ∙ ap some n),
        qs' ∙ qs,
        n' ∙ ap suc n,
        created-old q now ref process v (omega (arith, n)) ∙ buried_at,
      )
