-- ===== src/PlatformInstance/Handlers.antt =====
-- The handlers of completed jobs: each is called once at most, and forgotten when it is old.
use sockethub.Base.{
  ℕ, ◌-◌, ◌≡◌, refl, Bool, true, false, [], ◌∷◌, Option, none, some, arith, Text, nat_eq, text_eq,
  if◌then◌else◌, ltb, ◌∙◌, text_beq_iff, eq_refl,
}
use sockethub.Base.Table.{Table, get, delete, get-set_self, get-delete, Distinct}
use sockethub.World.{Instance}
use sockethub.PlatformInstance.{
  job_handler_ttl_ms, prune_entries, prune_expired_job_handlers, register_completed_job_handler,
  take_completed_job_handler,
}

-- Whether a handler with this timestamp has outlived its time.
abbrev pub is_old : ℕ → Option ℕ → Bool
is_old cutoff none = false
is_old cutoff (some at) = ltb at cutoff

abbrev without : Text → Instance → Instance
without t i = record i {
  completed_job_handlers = delete t i.completed_job_handlers;
  completed_job_handler_timestamps = delete t i.completed_job_handler_timestamps;
}

get-prune_entries :
    (cutoff : ℕ) (title : Text) (entries : Table Text ℕ) (i : Instance)
    → Distinct entries
    → get title (prune_entries cutoff entries i).completed_job_handlers
      ≡ (if is_old cutoff (get title entries) then none else get title i.completed_job_handlers)
unfolding prune_entries get
get-prune_entries cutoff title [] i d = refl
get-prune_entries cutoff title ((t, at) ∷ entries) i d =
    go (λ j. get-prune_entries cutoff title entries j d.1) (ltb at cutoff) refl
  where
    go :
        ((j : Instance)
          → get title (prune_entries cutoff entries j).completed_job_handlers ≡ (
              if is_old cutoff (get title entries)
              then none
              else get title j.completed_job_handlers))
        → (b : Bool) → ltb at cutoff ≡ b
        → get title
            (prune_entries cutoff entries (if b then without t i else i)).completed_job_handlers
          ≡ (if is_old cutoff (get title ((t, at) ∷ entries))
              then none
              else get title i.completed_job_handlers)
    go rest true old =
        rest (without t i)
        ∙ ground
            (arith, old, d.0, get-delete t title i.completed_job_handlers, text_beq_iff t title)
    go rest false young = rest i ∙ ground (arith, young, d.0, text_beq_iff t title)

-- A handler is gone exactly if it was registered longer ago than its time to live.
pub prune_expired_job_handlers-get :
    (now : ℕ) (title : Text) (i : Instance)
    → Distinct i.completed_job_handler_timestamps
    → get title (prune_expired_job_handlers now i).completed_job_handlers ≡ (
        if is_old (now - job_handler_ttl_ms) (get title i.completed_job_handler_timestamps)
        then none
        else get title i.completed_job_handlers)
unfolding prune_expired_job_handlers
prune_expired_job_handlers-get now title i d =
    get-prune_entries (now - job_handler_ttl_ms) title i.completed_job_handler_timestamps i d

take-some :
    (title : Text) (handler : ℕ) (i : Instance)
    → get title i.completed_job_handlers ≡ some handler
    → take_completed_job_handler title i ≡ (without title i, some handler)
unfolding take_completed_job_handler
take-some title handler i e = rw (e, take_completed_job_handler)

take-none :
    (title : Text) (i : Instance)
    → get title i.completed_job_handlers ≡ none
    → take_completed_job_handler title i ≡ (i, none)
unfolding take_completed_job_handler
take-none title i e = rw (e, take_completed_job_handler)

-- A handler that is registered is taken once: the second time there is none.
take-register :
    (now : ℕ) (title : Text) (handler : ℕ) (i : Instance)
    → let (i', found) =
        take_completed_job_handler title (register_completed_job_handler now title handler i) in
      (found ≡ some handler) × ((take_completed_job_handler title i').1 ≡ none)
unfolding register_completed_job_handler
take-register now title handler i =
    let i' = register_completed_job_handler now title handler i in
    rw (take-some title handler i' (get-set_self title handler _)) (
      refl,
      rw
          (take-none title (without title i')
            (rw (get-delete title title i'.completed_job_handlers, eq_refl title) refl))
          refl,
    )
