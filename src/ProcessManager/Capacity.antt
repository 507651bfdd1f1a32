-- ===== src/ProcessManager/Capacity.antt =====
-- `limits.maxPlatformInstances` bounds the map of instances.
use sockethub.Base.{
  ℕ, ◌≤◌, ◌<◌, ◌≡◌, refl, ◌≢◌, ◌⊎◌, true, false, Option, none, some, arith, Text, nat_eq, text_eq,
  if◌then◌else◌, Bool-cases, Option-cases, inl, inr, length, subst, ◌∙◌,
}
use sockethub.Base.Table.{Table, get, set, delete, length-set, length-delete_lt}
use sockethub.PlatformInstance.{mark_replaced}
use sockethub.PlatformInstance.Lifecycle.{
  run_shutdown, shutdown, teardown_work, teardown_end, close_queue, is_closing,
}
use sockethub.World.{
  Instance, World, Process, Shutdown, idle, closing, finished, disconnects, obliterates, modify,
  obliterate, same_ref,
}
use sockethub.World.Laws.{same_ref_iff}
use sockethub.ProcessManager.{
  EnsureRequest, has_capacity, create_platform_instance, enlist, instance_at, deref,
  is_process_alive, ensure_begin, ensure_finish,
}
use sockethub.ProcessManager.Ensure.{ensure_process_now, created, enlist-fields}

-- With the slot of an identifier free or its own, one more entry fits.
length-set_room :
    (max : ℕ) (identifier : Text) (ref : ℕ) (w : World)
    → max ≢ 0
    → length w.platform_instances ≤ max
    → has_capacity max identifier w ≡ true
    → length (set identifier ref w.platform_instances) ≤ max
unfolding has_capacity
length-set_room max identifier ref w n le room =
    ground (arith, length-set identifier ref w.platform_instances)

-- A teardown leaves the map, or makes it shorter.
abbrev Shrunk : Table Text ℕ → Table Text ℕ → Type 0
Shrunk m m' = (m' ≡ m) ⊎ (length m' < length m)

shutdown-map : (ref : ℕ) (w : World) → (shutdown ref w).platform_instances ≡ w.platform_instances
unfolding shutdown
shutdown-map ref w = elim (Option-cases (get ref w.heap)) [
  | inl e ↦ rw (e, shutdown)
  | inr (i, e) ↦ rw (e, shutdown) (ground arith)
]

close_queue-map :
    (s : Shutdown) (q : Option Text) (w : World)
    → (close_queue s q w).platform_instances ≡ w.platform_instances
unfolding obliterate
close_queue-map idle q w = refl
close_queue-map finished q w = refl
close_queue-map (closing disconnects) q w = refl
close_queue-map (closing obliterates) none w = refl
close_queue-map (closing obliterates) (some name) w = refl

teardown_work-map :
    (ref : ℕ) (w : World) → (teardown_work ref w).platform_instances ≡ w.platform_instances
unfolding teardown_work
teardown_work-map ref w = elim (Option-cases (get ref w.heap)) [
  | inl e ↦ rw (e, teardown_work)
  | inr (i, e) ↦ rw (e, teardown_work) (close_queue-map i.shutdown_result i.queue w)
]

entry_dropped-Shrunk :
    (ref : ℕ) (id : Text) (m : Table Text ℕ)
    → Shrunk m (if same_ref ref (get id m) then delete id m else m)
entry_dropped-Shrunk ref id m =
    ground (arith, same_ref_iff ref (get id m), length-delete_lt id ref m)

teardown_end-Shrunk :
    (ref : ℕ) (w : World) → Shrunk w.platform_instances (teardown_end ref w).platform_instances
unfolding teardown_end
teardown_end-Shrunk ref w = elim (Option-cases (get ref w.heap)) [
  | inl e ↦ rw (e, teardown_end) (inl refl)
  | inr (i, e) ↦ elim (Bool-cases (is_closing i.shutdown_result)) [
    | inl c ↦ rw (e, teardown_end, c) (entry_dropped-Shrunk ref i.id w.platform_instances)
    | inr c ↦ rw (e, teardown_end, c) (inl refl)
  ]
]

run_shutdown-Shrunk :
    (ref : ℕ) (w : World) → Shrunk w.platform_instances (run_shutdown ref w).platform_instances
unfolding run_shutdown
run_shutdown-Shrunk ref w =
    rw (teardown_work-map ref (shutdown ref w), shutdown-map ref w) at
      (teardown_end-Shrunk ref (teardown_work ref (shutdown ref w)))

modify-map :
    (ref : ℕ) (f : Instance → Instance) (w : World)
    → (modify ref f w).platform_instances ≡ w.platform_instances
unfolding modify
modify-map ref f w = elim (Option-cases (get ref w.heap)) [
  | inl e ↦ rw (e, modify)
  | inr (i, e) ↦ rw (e, modify)
]

replaced-Shrunk :
    (ref : ℕ) (w : World)
    → Shrunk w.platform_instances (run_shutdown ref (modify ref mark_replaced w)).platform_instances
replaced-Shrunk ref w =
    subst (λ m. Shrunk m (run_shutdown ref (modify ref mark_replaced w)).platform_instances)
      (modify-map ref mark_replaced w) (run_shutdown-Shrunk ref (modify ref mark_replaced w))

length-set-Shrunk :
    (max : ℕ) (identifier : Text) (ref : ℕ) (w : World) (m : Table Text ℕ)
    → max ≢ 0
    → length w.platform_instances ≤ max
    → has_capacity max identifier w ≡ true
    → Shrunk w.platform_instances m
    → length (set identifier ref m) ≤ max
length-set-Shrunk max identifier ref w m n le room (inl same) =
    rw same (length-set_room max identifier ref w n le room)
length-set-Shrunk max identifier ref w m n le room (inr less) =
    ground (arith, length-set identifier ref m)

deref-some :
    (w : World) (o : Option ℕ) (ref : ℕ) (i : Instance)
    → deref w o ≡ some (ref, i)
    → (o ≡ some ref) × (get ref w.heap ≡ some i)
deref-some w none ref i e = cc
deref-some w (some r) ref i e = elim (Option-cases (get r w.heap)) [
  | inl missing ↦ let h = rw (missing, deref) at e in cc
  | inr (j, at) ↦
      let h = rw (at, deref) at e in
      let same : r ≡ ref = ground arith in (cc, rw (← same) (at ∙ ground arith))
]

module _ (max now : ℕ) (q : EnsureRequest) (process : Process) (w : World) (limited : max ≢ 0)
    (le : length w.platform_instances ≤ max) where
  -- A new instance where the check found room, over any map that only shrank since.
  length-created :
      (v : World)
      → has_capacity max q.identifier w ≡ true
      → Shrunk w.platform_instances v.platform_instances
      → (let (v', new) = create_platform_instance q now process v in
          length (enlist q new v').platform_instances ≤ max)
  length-created v room sh =
      let (m, _, _) = created q now process v in
      rw m (length-set-Shrunk max q.identifier v.next_ref w v.platform_instances limited le room sh)

  length-reused :
      (ref : ℕ) (i : Instance)
      → instance_at q.identifier w ≡ some (ref, i)
      → length (enlist q ref w).platform_instances ≤ max
  length-reused ref i e =
      let (mapped, at) = deref-some w (get q.identifier w.platform_instances) ref i e in
      let (m, _, _, _) = enlist-fields q ref w i at in
      rw (m, length-set q.identifier ref w.platform_instances, mapped) le

  -- An uninterrupted run never takes the number of instances past the limit.
  pub ensure-length-le : length (ensure_process_now max q now process w).0.platform_instances ≤ max
  unfolding ensure_process_now ensure_begin ensure_finish
  ensure-length-le = elim (Option-cases (instance_at q.identifier w)) [
    | inl absent ↦ elim (Bool-cases (has_capacity max q.identifier w)) [
      | inl room ↦ rw (absent, room) (length-created w room (inl refl))
      | inr no_room ↦ rw (absent, no_room) le
    ]
    | inr ((ref, i), found) ↦ elim (Bool-cases (is_process_alive i)) [
      | inl alive ↦ rw (found, alive) (length-reused ref i found)
      | inr dead ↦ elim (Bool-cases (has_capacity max q.identifier w)) [
        | inl room ↦
            rw (found, dead, room)
              (length-created _ room (unfold run_shutdown in replaced-Shrunk ref w))
        | inr no_room ↦ rw (found, dead, no_room) le
      ]
    ]
  ]

-- A run that the limit turns away leaves everything as it was.
pub ensure-full :
    (max now : ℕ) (q : EnsureRequest) (process : Process) (w : World)
    → has_capacity max q.identifier w ≡ false
    → instance_at q.identifier w ≡ none
    → ensure_process_now max q now process w ≡ (w, none)
unfolding ensure_process_now ensure_begin ensure_finish
ensure-full max now q process w no_room absent = rw (absent, no_room)
