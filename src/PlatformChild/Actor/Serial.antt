-- ===== src/PlatformChild/Actor/Serial.antt =====
-- packages/server/src/platform.ts: a process whose updates of its actor come one after the other.
use sockethub.Base.{
  ℕ, suc, ◌≡◌, refl, sym, ap, subst, Bool, true, false, List, [], ◌∷◌, ◌++◌, Option, none, some,
  Text, length,
}
use sockethub.PlatformChild.{item_at, put}
use sockethub.PlatformChild.Actor.{
  Progress, sending, refreshing, over, Node, NodeEvent, secrets, actor_update, sent, send_fails,
  worker_stopped, node_step, node_steps, new_node,
}

-- An update of the actor, and whether its report reaches the parent.
pub record Update : Type 0 where
  pub new : Text
  pub is_sent : Bool

abbrev ends : ℕ → Bool → List NodeEvent → List NodeEvent
ends k true es = sent k ∷ worker_stopped k ∷ es
ends k false es = send_fails k ∷ es

-- The events of updates of which each ends before the next one begins, the first of them the `k`-th.
abbrev pub serial : ℕ → List Update → List NodeEvent
serial k [] = []
serial k (u ∷ us) = actor_update u.new ∷ ends k u.is_sent (serial (suc k) us)

abbrev chosen : Bool → Text → Text → Text
chosen true new old = new
chosen false new old = old

-- The identifier of the last update that the parent knows of.
abbrev pub last_sent : Text → List Update → Text
last_sent identifier [] = identifier
last_sent identifier (u ∷ us) = last_sent (chosen u.is_sent u.new identifier) us

abbrev running_and : Option Text → List Text → List Text
running_and none qs = qs
running_and (some queue) qs = queue ∷ qs

-- The queues that the running workers listen on.
abbrev pub running : List (Option Text) → List Text
running [] = []
running (w ∷ ws) = running_and w (running ws)

module _ {A : Type 0} where
  item_at-last : (xs : List A) (x : A) → item_at (length xs) (xs ++ x ∷ []) ≡ some x
  item_at-last [] x = refl
  item_at-last (y ∷ xs) x = item_at-last xs x

  put-last : (xs : List A) (x y : A) → put (length xs) y (xs ++ x ∷ []) ≡ xs ++ y ∷ []
  put-last [] x y = refl
  put-last (z ∷ xs) x y = ap (λ l. z ∷ l) (put-last xs x y)

  length-last : (xs : List A) (x : A) → length (xs ++ x ∷ []) ≡ suc (length xs)
  length-last [] x = refl
  length-last (y ∷ xs) x = ap suc (length-last xs x)

running-last :
    (ws : List (Option Text)) (w : Option Text)
    → running ws ≡ []
    → running (ws ++ w ∷ []) ≡ running_and w []
running-last [] w h = refl
running-last (none ∷ ws) w h = running-last ws w h
running-last (some queue ∷ ws) w h = absurd (cc)

-- A process between two updates: one worker runs, the last one that was made.
abbrev settled : Text → List (Option Text) → List Progress → Node
settled identifier ws ss = record {
  identifier = identifier;
  workers = ws ++ some identifier ∷ [];
  job_worker = some (length ws);
  updates = ss;
}

sent_update :
    (identifier new : Text) (ws : List (Option Text)) (ss : List Progress)
    → node_step
        (worker_stopped (length ss))
        (node_step (sent (length ss)) (node_step (actor_update new) (settled identifier ws ss)))
      ≡ settled new (ws ++ none ∷ []) (ss ++ over ∷ [])
unfolding node_step
sent_update identifier new ws ss =
    let s = sending identifier in
    let r = refreshing (length ws) in
    rw
      (
        item_at-last ss s,
        put-last ss s r,
        item_at-last ss r,
        put-last ss r over,
        put-last ws (some identifier) none,
      )
      refl

failed_update :
    (identifier new : Text) (ws : List (Option Text)) (ss : List Progress)
    → node_step (send_fails (length ss)) (node_step (actor_update new) (settled identifier ws ss))
      ≡ settled identifier ws (ss ++ over ∷ [])
unfolding node_step
failed_update identifier new ws ss =
    rw (item_at-last ss (sending identifier), put-last ss (sending identifier) over) refl

abbrev OnlyWorker : Text → Node → Type 0
OnlyWorker identifier n = (n.identifier ≡ identifier) × (running n.workers ≡ identifier ∷ [])

serial_from :
    (us : List Update) (identifier : Text) (ws : List (Option Text)) (ss : List Progress)
    → running ws ≡ []
    → OnlyWorker
        (last_sent identifier us)
        (node_steps (serial (length ss) us) (settled identifier ws ss))
unfolding node_steps
serial_from [] identifier ws ss h = (refl, running-last ws (some identifier) h)
serial_from (u ∷ us) identifier ws ss h =
    update u.is_sent
      (serial_from us u.new (ws ++ none ∷ []) (ss ++ over ∷ []) (running-last ws none h))
      (serial_from us identifier ws (ss ++ over ∷ []) h)
  where
    more : List NodeEvent
    more = serial (suc (length ss)) us

    update :
        (b : Bool)
        → OnlyWorker (last_sent u.new us) (
            node_steps
              (serial (length (ss ++ over ∷ [])) us)
              (settled u.new (ws ++ none ∷ []) (ss ++ over ∷ [])))
        → OnlyWorker (last_sent identifier us) (
            node_steps
              (serial (length (ss ++ over ∷ [])) us)
              (settled identifier ws (ss ++ over ∷ [])))
        → OnlyWorker (last_sent (chosen b u.new identifier) us) (
            node_steps
              (ends (length ss) b more)
              (node_step (actor_update u.new) (settled identifier ws ss)))
    update true a b =
        subst (λ n. OnlyWorker (last_sent u.new us) (node_steps more n))
          (sym (sent_update identifier u.new ws ss))
          (subst
            (λ k.
              OnlyWorker (last_sent u.new us)
                (node_steps (serial k us) (settled u.new (ws ++ none ∷ []) (ss ++ over ∷ []))))
            (length-last ss over) a)
    update false a b =
        subst (λ n. OnlyWorker (last_sent identifier us) (node_steps more n))
          (sym (failed_update identifier u.new ws ss))
          (subst
            (λ k.
              OnlyWorker (last_sent identifier us)
                (node_steps (serial k us) (settled identifier ws (ss ++ over ∷ []))))
            (length-last ss over) b)

-- If each update of the actor ends before the next one begins, whether its report reaches the parent or
-- not: a process that was started has one running worker, on the queue of the identifier that the parent
-- knows, which is its own.
pub node_steps-one_worker :
    (identifier : Text) (us : List Update)
    → let n = node_steps (secrets ∷ serial 0 us) (new_node identifier) in
      (n.identifier ≡ last_sent identifier us) × (running n.workers ≡ last_sent identifier us ∷ [])
unfolding node_steps node_step
node_steps-one_worker identifier us = serial_from us identifier [] [] refl
