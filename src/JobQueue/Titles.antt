-- ===== src/JobQueue/Titles.antt =====
-- packages/data-layer/src/job-queue.ts: no two jobs of a queue have one title.
use sockethub.Base.{
  ℕ, ◌+◌, ◌≤◌, ◌≡◌, ◌≢◌, refl, sym, ap, ◌∙◌, Bool, true, false, List, [], ◌∷◌, ◌++◌, if◌then◌else◌,
  Text, nat_eq, ◌==◌, All, map, arith, if_both, ◌⊎◌, inr,
}
use mathlib.Core.List.{append_assoc, append-nil}
use sockethub.Context.{Activity, ContextRegistry, resolve_platform_id}
use sockethub.JobQueue.{
  JobDataDecrypted, QueueEvent, new_job_queue, queue_steps, decrypt_job_data, adds, pauses, resumes,
  takes, title_of, platform_or_unknown,
}
use sockethub.JobQueue.Order.{accepted, Deciphers, queue_steps-accepted}

-- What stands behind the last dash.
after_dash : Text → Text → Text
after_dash current [] = current
after_dash current (c ∷ s) =
    let ended = after_dash [] s in
    let longer = after_dash (current ++ c ∷ []) s in if c == b'-' then ended else longer

after_dash-plain :
    (current s : Text) → All (λ c. (c == b'-') ≡ false) s → after_dash current s ≡ current ++ s
unfolding after_dash
after_dash-plain current [] h = sym (append-nil current)
after_dash-plain current (c ∷ s) h =
    rw (h.0) (after_dash-plain (current ++ c ∷ []) s h.1 ∙ append_assoc current (c ∷ []) s)

after_dash-append : (current p s : Text) → after_dash current (p ++ b'-' ∷ s) ≡ after_dash [] s
unfolding after_dash
after_dash-append current [] s = refl
after_dash-append current (c ∷ p) s =
    if_both (λ t. t ≡ after_dash [] s) (c == b'-') (after_dash-append [] p s)
      (after_dash-append (current ++ c ∷ []) p s)

-- Numbers are printed without dashes, and not two of them alike.
abbrev pub PrintsNumbers : (ℕ → Text) → Type 0
PrintsNumbers print =
    ((n : ℕ) → All (λ c. (c == b'-') ≡ false) (print n)) × ((n m : ℕ) → print n ≡ print m → n ≡ m)

-- Every title differs from all later ones.
abbrev pub Unlike : List Text → Type 0
Unlike [] = Unit
Unlike (t ∷ ts) = All (λ u. t ≢ u) ts × Unlike ts

module _ (g : ContextRegistry) (print : ℕ → Text) (prints : PrintsNumbers print) where
  title_of-inj : (a b : Activity) (n m : ℕ) → title_of g print a n ≡ title_of g print b m → n ≡ m
  unfolding title_of
  title_of-inj a b n m e = prints.1 n m (sym (behind a n) ∙ ap (after_dash []) e ∙ behind b m)
    where
      behind :
          (a : Activity) (n : ℕ)
          → after_dash [] (platform_or_unknown (resolve_platform_id g a) ++ b'-' ∷ print n)
            ≡ print n
      behind a n =
          after_dash-append [] (platform_or_unknown (resolve_platform_id g a)) (print n)
          ∙ after_dash-plain [] (print n) (prints.0 n)

  abbrev From : ℕ → JobDataDecrypted → Type 0
  From n job = (a : Activity) × (m : ℕ) × (n ≤ m) × (job.title ≡ title_of g print a m)

  From-weaken : (n : ℕ) (jobs : List JobDataDecrypted) → All (From (n + 1)) jobs → All (From n) jobs
  From-weaken n [] h = tt
  From-weaken n (job ∷ jobs) h =
      let (a, m, le, e) = h.0 in ((a, m, omega (arith, le), e), From-weaken n jobs h.1)

  accepted-From :
      (paused : Bool) (n : ℕ) (es : List QueueEvent) → All (From n) (accepted g print paused n es)
  accepted-From paused n [] = tt
  accepted-From paused n (adds iv session m ∷ es) =
      let later = From-weaken n _ (accepted-From paused (n + 1) es) in
      if_both {A = List JobDataDecrypted} (All (From n)) paused later
        ((m, n, omega arith, refl), later)
  accepted-From paused n (pauses ∷ es) = accepted-From true n es
  accepted-From paused n (resumes ∷ es) = accepted-From false n es
  accepted-From paused n (takes ∷ es) = accepted-From paused n es

  unlike_later :
      (m : Activity) (n : ℕ) (jobs : List JobDataDecrypted)
      → All (From (n + 1)) jobs
      → All (λ u. title_of g print m n ≢ u) (map (λ job. job.title) jobs)
  unlike_later m n [] h = tt
  unlike_later m n (job ∷ jobs) h =
      let (a, k, le, e) = h.0 in
      let differ : title_of g print m n ≢ job.title =
        λ same. absurd (apart k le (title_of-inj m a n k (same ∙ e))) in
      (differ, unlike_later m n jobs h.1)
    where
      apart : (k : ℕ) → n + 1 ≤ k → n ≢ k
      apart k le = omega (arith, le)

  accepted-Unlike :
      (paused : Bool) (n : ℕ) (es : List QueueEvent)
      → Unlike (map (λ job. job.title) (accepted g print paused n es))
  accepted-Unlike paused n [] = tt
  accepted-Unlike paused n (adds iv session m ∷ es) =
      let later = accepted-Unlike paused (n + 1) es in
      if_both {A = List JobDataDecrypted} (λ jobs. Unlike (map (λ job. job.title) jobs)) paused
        later (unlike_later m n _ (accepted-From paused (n + 1) es), later)
  accepted-Unlike paused n (pauses ∷ es) = accepted-Unlike true n es
  accepted-Unlike paused n (resumes ∷ es) = accepted-Unlike false n es
  accepted-Unlike paused n (takes ∷ es) = accepted-Unlike paused n es

  -- If numbers are printed without dashes and not two alike, and the cipher takes back its own work: the
  -- jobs that a queue object, made over an empty queue in Redis, has accepted, whether the worker gave
  -- them to its handler or they are still in the queue, are jobs with pairwise different titles,
  -- whatever messages the clients sent.
  pub queue_steps-Unlike :
      (encrypt : Text → Activity → Text → Text) (secret : Text)
      (decrypt : Text → Text → Text ⊎ Activity) (es : List QueueEvent)
      → All (Deciphers g print encrypt secret decrypt) es
      → (jobs : List JobDataDecrypted) × ((queue_steps g print encrypt secret decrypt es
              new_job_queue).handled
            ++ map
                (decrypt_job_data decrypt secret)
                (queue_steps g print encrypt secret decrypt es new_job_queue).stored
          ≡ map inr jobs)
        × Unlike (map (λ job. job.title) jobs)
  queue_steps-Unlike encrypt secret decrypt es h = (
    accepted g print false 0 es,
    queue_steps-accepted g print encrypt secret decrypt es h,
    accepted-Unlike false 0 es,
  )
