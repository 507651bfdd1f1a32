-- ===== src/HttpActions/Cached.antt =====
-- What `GET` with the id of a finished request gives its client.
use sockethub.Base.{
  ℕ, zero, suc, ◌-◌, ◌<◌, ◌≡◌, refl, true, List, [], ◌∷◌, some, arith, Text, if◌then◌else◌, ltb,
  All, Bool-cases, inl, inr, ap, sym, ◌∙◌, length, take, drop, take-drop, take-short, length-drop,
  nat_beq_iff, ne_of_beq, ◌≢◌, text_eq, nat_eq, ◌==◌,
}
use sockethub.Base.Table.{Table, get, set, get-set_self}
use sockethub.ConnectionScope.{Scopes}
use sockethub.HttpActions.{resolved}
use sockethub.HttpActions.Claim.{
  Store, in_progress, complete, status_key, list_key, replay_from, stream_cached_results,
  handle_get, replayed, batch_size, lookup,
}
use sockethub.HttpActions.Request.{RequestState, Event, run, start}
use sockethub.HttpActions.Stream.{append_nil, recorded}
use sockethub.HttpActions.Replay.{Phased}
use sockethub.HttpActions.Exact.{Exact, run-Exact, is_quiet}

lt_of_ltb : (a b : ℕ) → ltb a b ≡ true → a < b
lt_of_ltb a b h = ground arith

nothing_taken : (n : ℕ) (l : List Text) → length (take (suc n) l) ≡ 0 → l ≡ []
nothing_taken n [] e = refl
nothing_taken n (t ∷ l) e = ground (arith, e)

something_taken : (n : ℕ) (l : List Text) → length (take n l) ≢ 0 → 0 < length l
something_taken zero l e = ground (arith, e)
something_taken (suc n) [] e = ground (arith, e)
something_taken (suc n) (t ∷ l) e = omega arith

-- The batches are the whole list, with more fuel than it has lines.
pub replay_from_lem :
    (fuel : ℕ) (list : List Text) → length list < fuel → replay_from fuel list ≡ list
unfolding replay_from
replay_from_lem zero list lt = ground (arith, lt)
replay_from_lem (suc fuel) list lt = elim (Bool-cases (length (take batch_size list) == 0)) [
  | inl empty ↦
      rw empty (sym (nothing_taken 99 list ((nat_beq_iff (length (take 100 list)) 0).0 empty)))
  | inr full ↦ elim (Bool-cases (ltb (length (take batch_size list)) batch_size)) [
    | inl last ↦
        rw (full, last) (take-short batch_size list (lt_of_ltb (length (take 100 list)) 100 last))
    | inr more ↦
        let some_left = something_taken 100 list (ne_of_beq (length (take 100 list)) 0 full) in
        rw
          (
            full,
            more,
            replay_from_lem fuel (drop batch_size list) (
                shorter (length list) (length (drop 100 list)) (length-drop 100 list) some_left lt),
          )
          (take-drop batch_size list)
  ]
]
  where
    shorter : (m k : ℕ) → k ≡ m - 100 → 0 < m → m < suc fuel → k < fuel
    shorter m k e p q = omega (arith, e, p, q)

-- A `GET` for a finished request replays every stored line, in order.
handle_get-complete :
    (id : Text) (s : Store) (lines : List Text)
    → get (status_key id) s.statuses ≡ some complete
    → get (list_key id) s.lists ≡ some lines
    → handle_get (resolved id) (some s) ≡ replayed lines
unfolding handle_get stream_cached_results
handle_get-complete id s lines st li =
    rw (st, lookup, li) (ap replayed (replay_from_lem (suc (length lines)) lines (omega arith)))

-- What Redis has under the request's two keys.
abbrev pub store_of : RequestState → Store
store_of r = record {
  statuses = set (status_key r.request_id) (if r.complete then complete else in_progress) [];
  lists = set (list_key r.request_id) r.stored [];
}

pub handle_get-store_of :
    (r : RequestState)
    → r.complete ≡ true
    → handle_get (resolved r.request_id) (some (store_of r)) ≡ replayed r.stored
handle_get-store_of r c =
    handle_get-complete r.request_id (store_of r) r.stored
      (rw c (get-set_self (status_key r.request_id) complete []))
      (get-set_self (list_key r.request_id) r.stored [])

-- When the mark is written, nothing waits behind it.
pub stored-all : (r : RequestState) → Phased r → r.complete ≡ true → r.stored ≡ recorded r
stored-all r (inl (_, _, n)) c = cc
stored-all r (inr (inl (_, _, n))) c = cc
stored-all r (inr (inr (_, e, _, _))) c = rw e (sym (append_nil r.stored))

module _ (request_id session_id : Text) (payloads request_ms idle_ms : ℕ)
    (http_sessions : Table Text ℕ) (scopes : Scopes) where
  abbrev begun : RequestState
  begun = start request_id session_id true payloads request_ms idle_ms http_sessions scopes

  begun-Phased : Phased begun
  unfolding start
  begun-Phased = ground arith

  begun-Exact : Exact begun
  unfolding start
  begun-Exact = ground arith

  -- A client that stays gets from a replay, once the request is complete in the store, exactly the
  -- lines of its own response, timeouts included, if Redis failed no write.
  pub replay-exact :
      (es : List Event)
      → All (λ e. is_quiet e ≡ true) es
      → (run idle_ms es begun).complete ≡ true
      → handle_get
          (resolved (run idle_ms es begun).request_id)
          (some (store_of (run idle_ms es begun)))
        ≡ replayed (run idle_ms es begun).written
  replay-exact es quiet done =
      let ((_, s, _), p) = run-Exact idle_ms es begun quiet begun-Phased begun-Exact in
      handle_get-store_of (run idle_ms es begun) done
      ∙ ap replayed (stored-all (run idle_ms es begun) p done ∙ s)
