-- ===== src/PlatformInstance/Lifecycle/Teardown.antt =====
-- What a teardown destroys, and what it leaves alone.
use sockethub.Base.{
  ℕ, ◌≡◌, refl, ◌≢◌, true, false, [], none, some, arith, Text, nat_eq, text_eq, ◌==◌, eq_refl,
  nat_beq_iff, text_beq_iff, if◌then◌else◌, ap, ◌⊎◌, inl, inr, Option-cases,
}
use sockethub.Base.Table.{Table, get, set, delete, get-set, get-set_self, get-delete, Distinct}
use sockethub.ConnectionScope.{forget_anonymous_scopes}
use sockethub.ConnectionScope.Records.{get-forget, unless_of}
use sockethub.World.{
  Instance, World, Shutdown, idle, closing, finished, disconnects, obliterates, QueueEnd, same_ref,
  obliterate,
}
use sockethub.PlatformInstance.Lifecycle.{
  queue_end, is_idle, teardown_begin, shutdown, teardown_work, teardown_end, run_shutdown,
}

-- The instance while its teardown is under way.
abbrev pub closing_instance : QueueEnd → Instance → Instance
closing_instance e i = record i {
  flagged_for_termination = true;
  process = record i.process { killed = true; listening = false };
  shutdown_result = closing e;
}

module _ (ref : ℕ) (i : Instance) (w : World) (at : get ref w.heap ≡ some i) where
  pub shutdown-idle : i.shutdown_result ≡ idle → shutdown ref w ≡ teardown_begin ref i w
  unfolding shutdown
  shutdown-idle e = rw (at, shutdown, e)

  pub get-teardown_begin :
      get ref (teardown_begin ref i w).heap ≡ some (closing_instance (queue_end ref i w) i)
  unfolding teardown_begin
  get-teardown_begin = get-set_self ref (closing_instance (queue_end ref i w) i) w.heap

  pub teardown_work-disconnects : i.shutdown_result ≡ closing disconnects → teardown_work ref w ≡ w
  unfolding teardown_work
  teardown_work-disconnects e = rw (at, teardown_work, e)

  pub teardown_work-obliterates :
      (q : Text)
      → i.shutdown_result ≡ closing obliterates
      → i.queue ≡ some q
      → teardown_work ref w ≡ obliterate q w
  unfolding teardown_work
  teardown_work-obliterates q e eq = rw (at, teardown_work, e, eq)

  pub teardown_end-closing :
      (e : QueueEnd)
      → i.shutdown_result ≡ closing e
      → teardown_end ref w ≡ record w {
        heap = set ref (record i { queue = none; shutdown_result = finished }) w.heap;
        platform_instances =
            if same_ref ref (get i.id w.platform_instances)
            then delete i.id w.platform_instances
            else w.platform_instances;
      }
  unfolding teardown_end
  teardown_end-closing e h = rw (at, teardown_end, h)

pub Shutdown-cases : (s : Shutdown) → (s ≡ idle) ⊎ (is_idle s ≡ false)
Shutdown-cases idle = inl refl
Shutdown-cases (closing e) = inr refl
Shutdown-cases finished = inr refl

-- An instance whose teardown is over.
abbrev pub finished_instance : QueueEnd → Instance → Instance
finished_instance e i = record (closing_instance e i) { queue = none; shutdown_result = finished }

abbrev pub entry_dropped : ℕ → Text → World → Table Text ℕ
entry_dropped ref id w =
    if same_ref ref (get id w.platform_instances)
    then delete id w.platform_instances
    else w.platform_instances

module _ (ref : ℕ) (i : Instance) (w : World) (at : get ref w.heap ≡ some i)
    (fresh : i.shutdown_result ≡ idle) where
  -- The state behind a whole teardown, over the queues that its middle leaves.
  run_shutdown-over :
      (w' : World)
      → teardown_work ref (teardown_begin ref i w) ≡ w'
      → w'.heap ≡ (teardown_begin ref i w).heap
      → run_shutdown ref w ≡ record w' {
        heap = set ref (finished_instance (queue_end ref i w) i) w'.heap;
        platform_instances = entry_dropped ref i.id w';
      }
  unfolding run_shutdown
  run_shutdown-over w' work same =
      rw (shutdown-idle ref i w at fresh, work)
        (teardown_end-closing ref (closing_instance (queue_end ref i w) i) w'
          (rw same (get-teardown_begin ref i w at)) (queue_end ref i w) refl)

  pub run_shutdown-disconnects :
      queue_end ref i w ≡ disconnects
      → run_shutdown ref w ≡ record w {
        scopes = forget_anonymous_scopes i.id w.scopes;
        heap =
            set ref
              (finished_instance (queue_end ref i w) i)
              (set ref (closing_instance (queue_end ref i w) i) w.heap);
        platform_instances = entry_dropped ref i.id w;
      }
  unfolding teardown_begin
  run_shutdown-disconnects e =
      run_shutdown-over (teardown_begin ref i w)
        (teardown_work-disconnects ref (closing_instance (queue_end ref i w) i)
          (teardown_begin ref i w) (get-teardown_begin ref i w at) (ap closing e))
        refl

  pub run_shutdown-obliterates :
      (q : Text)
      → queue_end ref i w ≡ obliterates
      → i.queue ≡ some q
      → run_shutdown ref w ≡ record w {
        scopes = forget_anonymous_scopes i.id w.scopes;
        heap =
            set ref
              (finished_instance (queue_end ref i w) i)
              (set ref (closing_instance (queue_end ref i w) i) w.heap);
        queues = (obliterate q w).queues;
        platform_instances = entry_dropped ref i.id w;
      }
  unfolding teardown_begin obliterate
  run_shutdown-obliterates q e eq =
      run_shutdown-over (obliterate q (teardown_begin ref i w))
        (teardown_work-obliterates ref (closing_instance (queue_end ref i w) i)
          (teardown_begin ref i w) (get-teardown_begin ref i w at) q (ap closing e) eq)
        refl

  -- The teardown of an instance that is replaced, or whose place in the map is taken, touches no
  -- queue in Redis, and no other identifier's entry.
  pub run_shutdown-replaced :
      (j : Text)
      → queue_end ref i w ≡ disconnects
      → j ≢ i.id
      → ((run_shutdown ref w).queues ≡ w.queues)
        × (get j (run_shutdown ref w).platform_instances ≡ get j w.platform_instances)
        × (get ref (run_shutdown ref w).heap ≡ some (finished_instance disconnects i))
  run_shutdown-replaced j e n = rw (run_shutdown-disconnects e) (
    refl,
    ground (arith, get-delete i.id j w.platform_instances, text_beq_iff i.id j),
    rw e (get-set_self ref _ _),
  )

  -- A whole teardown of an instance that the map has, that is not marked replaced, whose teardown had
  -- not begun and that has a queue, no two recorded scopes having one key: it deletes the instance's
  -- entry, empties and pauses its queue and drops its scope records; other entries, queues and records
  -- stay.
  pub run_shutdown-current :
      (q j key : Text)
      → i.replaced ≡ false
      → get i.id w.platform_instances ≡ some ref
      → i.queue ≡ some q
      → Distinct w.scopes.anonymous_scopes
      → let w' = run_shutdown ref w in
        (get ref w'.heap ≡ some (finished_instance obliterates i))
        × (get j w'.platform_instances ≡ (if i.id == j then none else get j w.platform_instances))
        × (get j w'.queues
            ≡ (if q == j then some (record { paused = true; jobs = [] }) else get j w.queues))
        × (get key w'.scopes.anonymous_scopes ≡ unless_of i.id (get key w.scopes.anonymous_scopes))
  unfolding obliterate
  run_shutdown-current q j key r m eq d =
      let e : queue_end ref i w ≡ obliterates = rw (r, m, eq_refl ref) in
      rw (run_shutdown-obliterates q e eq) (
        rw e (get-set_self ref _ _),
        rw (m, eq_refl ref) (get-delete i.id j w.platform_instances),
        get-set q j _ w.queues,
        get-forget i.id key w.scopes d,
      )

-- A teardown that ends late does not put out the instance that took its place.
teardown_end-evicts_none :
    (ref other : ℕ) (i : Instance) (w : World)
    → get ref w.heap ≡ some i
    → get i.id w.platform_instances ≡ some other
    → other ≢ ref
    → (teardown_end ref w).platform_instances ≡ w.platform_instances
unfolding teardown_end
teardown_end-evicts_none ref other i w at m n =
    rw (at, teardown_end) (ground (arith, nat_beq_iff other ref))

pub shutdown-busy :
    (ref : ℕ) (i : Instance) (w : World)
    → get ref w.heap ≡ some i
    → is_idle i.shutdown_result ≡ false
    → shutdown ref w ≡ w
unfolding shutdown
shutdown-busy ref i w at b = rw (at, shutdown, b)

shutdown-none : (ref : ℕ) (w : World) → get ref w.heap ≡ none → shutdown ref w ≡ w
unfolding shutdown
shutdown-none ref w at = rw (at, shutdown)

-- A second call of `shutdown` changes nothing: every caller shares one teardown.
pub shutdown_single_flight : (ref : ℕ) (w : World) → shutdown ref (shutdown ref w) ≡ shutdown ref w
shutdown_single_flight ref w = elim (Option-cases (get ref w.heap)) [
  | inl at ↦ rw (shutdown-none ref w at) (shutdown-none ref w at)
  | inr (i, at) ↦ elim (Shutdown-cases i.shutdown_result) [
    | inl fresh ↦
        rw (shutdown-idle ref i w at fresh)
          (shutdown-busy ref _ (teardown_begin ref i w) (get-teardown_begin ref i w at) refl)
    | inr busy ↦ rw (shutdown-busy ref i w at busy) (shutdown-busy ref i w at busy)
  ]
]
