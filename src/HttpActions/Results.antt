-- ===== src/HttpActions/Results.antt =====
-- packages/server/src/http/actions.ts: what is recorded of a request whose timers do not fire.
use sockethub.Base.{
  ℕ, zero, suc, ◌-◌, ◌<◌, ◌≡◌, refl, true, false, List, [], ◌∷◌, ◌++◌, arith, Text, Bool-cases, inl,
  inr, ap, sym, ◌∙◌, All, take, some, nat_eq, length, text_eq,
}
use sockethub.Base.Table.{Table}
use sockethub.ConnectionScope.{Scopes}
use sockethub.HttpActions.{resolved}
use sockethub.HttpActions.Claim.{handle_get, replayed}
use sockethub.HttpActions.Cached.{store_of, handle_get-store_of, stored-all}
use sockethub.HttpActions.Stream.{recorded, append_assoc, append_nil}
use sockethub.HttpActions.Replay.{Phased, step-Phased}
use sockethub.HttpActions.Request.{
  RequestState, Event, result_event, request_timeout_event, idle_timeout_event, close_event,
  platform_event, redis_event, step, run, start, serialized,
}
use sockethub.HttpActions.Adds.{is_plain, line_in, lines_in, remaining, Open, step-Adds, step-over}

take-nil : (n : ℕ) → take {A = Text} n [] ≡ []
take-nil zero = refl
take-nil (suc n) = refl

one_less : (n : ℕ) → n ≡ suc n - 1
one_less n = omega arith

none_less : (n : ℕ) → n ≡ n - 0
none_less n = omega arith

take-line_in :
    (n : ℕ) (id : Text) (e : Event) (ls : List Text)
    → 0 < n
    → take n (line_in id e ++ ls) ≡ line_in id e ++ take (n - length (line_in id e)) ls
take-line_in zero id e ls p = ground (arith, p)
take-line_in (suc n) id (result_event result) ls p =
    ap (λ k. serialized result id ∷ take k ls) (one_less n)
take-line_in (suc n) id request_timeout_event ls p = ap (λ k. take k ls) (none_less (suc n))
take-line_in (suc n) id idle_timeout_event ls p = ap (λ k. take k ls) (none_less (suc n))
take-line_in (suc n) id close_event ls p = ap (λ k. take k ls) (none_less (suc n))
take-line_in (suc n) id (platform_event other) ls p = ap (λ k. take k ls) (none_less (suc n))
take-line_in (suc n) id (redis_event ok) ls p = ap (λ k. take k ls) (none_less (suc n))

none_remaining : (r : RequestState) → r.completion_started ≡ true → remaining r ≡ 0
none_remaining r c = rw c refl

-- A history records the lines of the results that are still waited for.
run-records :
    (idle_ms : ℕ) (es : List Event) (r : RequestState)
    → All (λ e. is_plain e ≡ true) es
    → Open r
    → Phased r
    → (recorded (run idle_ms es r) ≡ recorded r ++ take (remaining r) (lines_in r.request_id es))
      × ((run idle_ms es r).request_id ≡ r.request_id)
      × Phased (run idle_ms es r)
unfolding run
run-records idle_ms [] r ok h p =
    (sym (ap (λ l. recorded r ++ l) (take-nil (remaining r)) ∙ append_nil (recorded r)), refl, p)
run-records idle_ms (e ∷ es) r ok h p =
    let p' = step-Phased idle_ms e r h.0 p in
    elim (Bool-cases r.completion_started) [
      | inl c ↦
          let (a, n, o, i) = step-over idle_ms e r ok.0 c h in
          let (b, j, q) = run-records idle_ms es (step idle_ms e r) ok.1 o p' in
          let none_left : remaining (step idle_ms e r) ≡ 0 =
            n ∙ ap (λ k. k - 0) (none_remaining r c) in
          (
            b
                ∙ ap
                    (λ k.
                      recorded (step idle_ms e r)
                      ++ take k (lines_in (step idle_ms e r).request_id es))
                    none_left
                ∙ append_nil _
                ∙ a
                ∙ ap (λ k. recorded r ++ take k (lines_in r.request_id (e ∷ es)))
                    (sym (none_remaining r c)),
            j ∙ i,
            q,
          )
      | inr c ↦
          let (a, n, o, i) = step-Adds idle_ms e r ok.0 c h in
          let (b, j, q) = run-records idle_ms es (step idle_ms e r) ok.1 o p' in
          (
            b
                ∙ rw (a, n, i) (append_assoc (recorded r) (line_in r.request_id e) _)
                ∙ ap (λ l. recorded r ++ l)
                    (sym (
                      take-line_in (remaining r) r.request_id e (lines_in r.request_id es)
                        (waits r c h))),
            j ∙ i,
            q,
          )
    ]
  where
    waits : (r : RequestState) → r.completion_started ≡ false → Open r → 0 < remaining r
    waits r c (u, inl y) = cc
    waits r c (u, inr p) = rw c p

-- If no timer fires and Redis fails no write, then once the request is complete in the store a GET
-- replays exactly the first results, as many as the request had payloads, in the order in which they
-- came, whether or not its client stayed for them; the request has at least one payload.
pub replay-results :
    (request_id session_id : Text) (payloads request_ms idle_ms : ℕ) (http_sessions : Table Text ℕ)
    (scopes : Scopes) (es : List Event)
    → 0 < payloads
    → All (λ e. is_plain e ≡ true) es
    → (run idle_ms es (
        start request_id session_id true payloads request_ms idle_ms http_sessions scopes)).complete
      ≡ true
    → handle_get (resolved request_id) (
        some (
          store_of (
            run idle_ms es
              (start request_id session_id true payloads request_ms idle_ms http_sessions scopes))))
      ≡ replayed (take payloads (lines_in request_id es))
unfolding start
replay-results request_id session_id payloads request_ms idle_ms http_sessions scopes es
      some_payloads ok done =
    let r = start request_id session_id true payloads request_ms idle_ms http_sessions scopes in
    let (a, i, p) = run-records idle_ms es r ok (begun-Open) begun-Phased in
    ap (λ id. handle_get (resolved id) (some (store_of (run idle_ms es r)))) (sym (i ∙ same_id))
    ∙ handle_get-store_of (run idle_ms es r) done
    ∙ ap replayed (stored-all (run idle_ms es r) p done ∙ a ∙ begins)
  where
    begun : RequestState
    begun = start request_id session_id true payloads request_ms idle_ms http_sessions scopes

    begun-Open : Open begun
    begun-Open = ground (arith, some_payloads)

    begun-Phased : Phased begun
    begun-Phased = ground arith

    same_id : begun.request_id ≡ request_id
    same_id = ground arith

    begins :
        recorded begun ++ take (remaining begun) (lines_in begun.request_id es)
        ≡ take payloads (lines_in request_id es)
    begins = ground arith
