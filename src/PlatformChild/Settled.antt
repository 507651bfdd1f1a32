-- ===== src/PlatformChild/Settled.antt =====
-- packages/server/src/platform.ts: a job that has an outcome keeps it.
use sockethub.Base.{
  true, ℕ, zero, suc, ◌≡◌, refl, sym, ap, subst, ◌∙◌, ◌&&◌, not, List, [], ◌∷◌, ◌++◌, Option, none,
  some, or_else, Text, ◌⊎◌, inl, inr, if_both,
}
use sockethub.Stream.{Stream}
use sockethub.CredentialsStore.{Secrets, Credentials}
use sockethub.PlatformChild.{
  Platform, Job, JobOutcome, resolved, rejected, Stage, waiting, calling, called, ended, Run, Child,
  requires_credentials, has_method, settle_job, at_stage, done_callback, item_at, put, put_run,
  report_error, send, session_unauthorized, bind_hash, not_available, error_string, marked,
  callback_outcome,
}
use sockethub.PlatformChild.Steps.{
  ChildEvent, job_arrives, store_answers, store_fails, method_throws, method_returns,
  method_calls_back, initializes, actor_changes, refuse, job_handler, proceed, received,
  wrapped_callback, on_answer, on_failure, on_throw, on_return, on_callback, with_run, child_step,
  child_steps,
}

-- The run of the same job, with its outcome when it had one.
abbrev Later : Run → Run → Type 0
Later q r =
    (r.job ≡ q.job)
    × ((o : JobOutcome) → q.outcome ≡ some o → r.outcome ≡ some o)
    × (q.called_back ≡ true → r.called_back ≡ true)

abbrev Extends : List Run → List Run → Type 0
Extends qs rs =
    (i : ℕ) (q : Run) → item_at i qs ≡ some q → (r : Run) × (item_at i rs ≡ some r) × Later q r

abbrev Ext : Child → Child → Type 0
Ext c d = Extends c.runs d.runs

Later-refl : (q : Run) → Later q q
Later-refl q = (refl, λ o h. h, λ h. h)

Later-settle_job : (o : JobOutcome) (q r : Run) → Later q r → Later q (settle_job o r)
Later-settle_job o q r h = (h.0, λ x e. rw (h.1 x e) refl, h.2)

Extends-refl : (qs : List Run) → Extends qs qs
Extends-refl qs i q h = (q, h, Later-refl q)

item_at-append {ℓ} :
    {A : Type ℓ} (i : ℕ) (xs ys : List A) (x : A)
    → item_at i xs ≡ some x
    → item_at i (xs ++ ys) ≡ some x
item_at-append i [] ys x h = absurd (cc)
item_at-append zero (y ∷ xs) ys x h = h
item_at-append (suc i) (y ∷ xs) ys x h = item_at-append i xs ys x h

Extends-append : (qs rs : List Run) → Extends qs (qs ++ rs)
Extends-append qs rs i q h = (q, item_at-append i qs rs q h, Later-refl q)

Extends-put :
    (j : ℕ) (qs : List Run) (r old : Run)
    → item_at j qs ≡ some old
    → Later old r
    → Extends qs (put j r qs)
Extends-put j [] r old e l i q h = (q, h, Later-refl q)
Extends-put zero (p ∷ qs) r old e l zero q h =
    (r, refl, subst (λ x. Later x r) (ap (λ x. or_else x p) (sym e ∙ h)) l)
Extends-put zero (p ∷ qs) r old e l (suc i) q h = (q, h, Later-refl q)
Extends-put (suc j) (p ∷ qs) r old e l zero q h = (q, h, Later-refl q)
Extends-put (suc j) (p ∷ qs) r old e l (suc i) q h = Extends-put j qs r old e l i q h

Extends-trans : (qs rs ts : List Run) → Extends qs rs → Extends rs ts → Extends qs ts
Extends-trans qs rs ts h k i q e =
    let (r, at, l) = h i q e in
    let (t, there, m) = k i r at in
    (t, there, (m.0 ∙ l.0, λ o x. m.1 o (l.1 o x), λ x. m.2 (l.2 x)))

Ext-report_error : (error : Option Text) (c d : Child) → Ext c d → Ext c (report_error error d)
Ext-report_error none c d h = h
Ext-report_error (some error) c d h = h

Extends-done_callback :
    (i : ℕ) (old run : Run) (error : Option Text) (result : Option Stream) (c : Child)
    → item_at i c.runs ≡ some old
    → Later old run
    → Ext c (done_callback i run error result c)
unfolding done_callback
Extends-done_callback i old run error result c e l =
    if_both (Ext c) run.called_back
      (Extends-put i c.runs (settle_job (resolved none) run) old e
        (Later-settle_job (resolved none) old run l))
      (Ext-report_error error c
        (put_run i (settle_job (callback_outcome error result) (marked run)) c)
        (Extends-put i c.runs (settle_job (callback_outcome error result) (marked run)) old e (
          Later-settle_job (callback_outcome error result) old (marked run) (l.0, l.1, λ _. refl))))

Extends-refuse :
    (i : ℕ) (old run : Run) (error : Text) (c : Child)
    → item_at i c.runs ≡ some old
    → Later old run
    → Ext c (refuse i run error c)
unfolding refuse
Extends-refuse i old run error c e l =
    if_both (Ext c) c.initialized
      (Extends-done_callback i old run (some (error_string error)) none
        (send (session_unauthorized run.job.session_id) c) e l)
      (Extends-put i c.runs (settle_job (rejected error) run) old e
        (Later-settle_job (rejected error) old run l))

module _ (p : Platform) (object_hash : Secrets → Text) where
  Extends-job_handler : (job : Job) (c : Child) → Ext c (job_handler p object_hash job c)
  unfolding job_handler
  Extends-job_handler job c =
      if_both (Ext c) (requires_credentials p job) (Extends-append c.runs _) (
        if_both (Ext c) (p.persist && not c.initialized) (Extends-append c.runs _)
          (if_both (Ext c) (has_method p job) (Extends-append c.runs _) (Extends-append c.runs _)))

  Extends-received :
      (i : ℕ) (run : Run) (found : Text ⊎ Credentials) (c : Child)
      → item_at i c.runs ≡ some run
      → Ext c (received p object_hash i run found c)
  unfolding proceed
  Extends-received i run (inl error) c e =
      Extends-refuse i run (at_stage ended run) error c e (Later-refl run)
  Extends-received i run (inr credentials) c e =
      if_both (Ext c) (has_method p run.job)
        (Extends-put i c.runs (at_stage (calling (some credentials)) run) run e (Later-refl run))
        (Extends-done_callback i run (at_stage ended run)
          (some (error_string (not_available run.job))) none c e (Later-refl run))

  Extends-wrapped_callback :
      (i : ℕ) (run : Run) (given : Option Credentials) (error : Option Text)
      (result : Option Stream) (c : Child)
      → item_at i c.runs ≡ some run
      → Ext c (wrapped_callback p object_hash i run given error result c)
  unfolding wrapped_callback
  Extends-wrapped_callback i run none error result c e =
      Extends-done_callback i run run error result c e (Later-refl run)
  Extends-wrapped_callback i run (some credentials) (some error) result c e =
      Extends-done_callback i run run (some error) result c e (Later-refl run)
  Extends-wrapped_callback i run (some credentials) none result c e =
      if_both {A = Child} (λ d. Ext c (done_callback i run none result d)) p.persist
        (Extends-done_callback i run run none result (bind_hash (object_hash credentials.object) c)
          e (Later-refl run))
        (Extends-done_callback i run run none result c e (Later-refl run))

  Ext-with_run :
      (o : Option Run) (f : Run → Stage → Child → Child) (c : Child)
      → ((run : Run) → o ≡ some run → Ext c (f run run.stage c))
      → Ext c (with_run o f c)
  Ext-with_run none f c h = Extends-refl c.runs
  Ext-with_run (some run) f c h = h run refl

  Extends-child_step : (e : ChildEvent) (c : Child) → Ext c (child_step p object_hash e c)
  unfolding child_step
  Extends-child_step (job_arrives job) c = Extends-job_handler job c
  Extends-child_step (store_answers i found) c =
      Ext-with_run (item_at i c.runs) _ c λ run e. at run e run.stage
    where
      at :
          (run : Run)
          → item_at i c.runs ≡ some run
          → (s : Stage) → Ext c (on_answer p object_hash i found run s c)
      at run e (waiting hash) = Extends-received i run _ c e
      at run e (calling given) = Extends-refl c.runs
      at run e (called given) = Extends-refl c.runs
      at run e ended = Extends-refl c.runs
  Extends-child_step (store_fails i error) c =
      Ext-with_run (item_at i c.runs) _ c λ run e. at run e run.stage
    where
      at :
          (run : Run)
          → item_at i c.runs ≡ some run
          → (s : Stage) → Ext c (on_failure i error run s c)
      at run e (waiting hash) = Extends-refuse i run (at_stage ended run) error c e (Later-refl run)
      at run e (calling given) = Extends-refl c.runs
      at run e (called given) = Extends-refl c.runs
      at run e ended = Extends-refl c.runs
  Extends-child_step (method_throws i error) c =
      Ext-with_run (item_at i c.runs) _ c λ run e. at run e run.stage
    where
      at :
          (run : Run) → item_at i c.runs ≡ some run → (s : Stage) → Ext c (on_throw i error run s c)
      at run e (waiting hash) = Extends-refl c.runs
      at run e (calling none) =
          Extends-put i c.runs (settle_job (rejected error) (at_stage (called none) run)) run e
            (Later-settle_job (rejected error) run run (Later-refl run))
      at run e (calling (some credentials)) =
          Extends-refuse i run (at_stage (called (some credentials)) run) error c e (Later-refl run)
      at run e (called given) = Extends-refl c.runs
      at run e ended = Extends-refl c.runs
  Extends-child_step (method_returns i) c =
      Ext-with_run (item_at i c.runs) _ c λ run e. at run e run.stage
    where
      at : (run : Run) → item_at i c.runs ≡ some run → (s : Stage) → Ext c (on_return i run s c)
      at run e (waiting hash) = Extends-refl c.runs
      at run e (calling given) =
          Extends-put i c.runs (at_stage (called given) run) run e (Later-refl run)
      at run e (called given) = Extends-refl c.runs
      at run e ended = Extends-refl c.runs
  Extends-child_step (method_calls_back i error result) c =
      Ext-with_run (item_at i c.runs) _ c λ run e. at run e run.stage
    where
      at :
          (run : Run)
          → item_at i c.runs ≡ some run
          → (s : Stage) → Ext c (on_callback p object_hash i error result run s c)
      at run e (waiting hash) = Extends-refl c.runs
      at run e (calling given) = Extends-wrapped_callback i run given error result c e
      at run e (called given) = Extends-wrapped_callback i run given error result c e
      at run e ended = Extends-refl c.runs
  Extends-child_step (initializes b) c = Extends-refl c.runs
  Extends-child_step (actor_changes credentials) c =
      if_both (Ext c) p.persist (Extends-refl c.runs) (Extends-refl c.runs)

  pub Extends-child_steps :
      (es : List ChildEvent) (c : Child) → Ext c (child_steps p object_hash es c)
  unfolding child_steps
  Extends-child_steps [] c = Extends-refl c.runs
  Extends-child_steps (e ∷ es) c =
      Extends-trans c.runs (child_step p object_hash e c).runs
        (child_steps p object_hash es (child_step p object_hash e c)).runs (Extends-child_step e c)
        (Extends-child_steps es (child_step p object_hash e c))
