-- ===== src/PlatformInstance/Lifecycle/Jobs.antt =====
-- What the result of a job leads to.
use sockethub.Base.{
  ℕ, ◌≡◌, refl, Bool, true, false, ◌&&◌, ◌||◌, not, List, [], ◌∷◌, ◌++◌, Option, none, some, Text,
  nat_eq, text_eq, if◌then◌else◌, Bool-cases, Option-cases, inl, inr, ap, ◌∙◌, All, is_some,
}
use sockethub.Base.Table.{get}
use sockethub.Base.Group.{member}
use sockethub.Context.{Activity, ContextRegistry}
use sockethub.Validator.{Ajv}
use sockethub.World.{Instance, World, Emission, modify, send_all, set_paused}
use sockethub.PlatformInstance.{
  prepare, send_to_client, broadcast_to_shared_peers, is_dropped, to_external_payload, others,
  take_completed_job_handler,
}
use sockethub.PlatformInstance.Delivery.{
  Clean, send_to_each-Clean, prepare-IsExternal, to_external_payload-IsExternal,
}
use sockethub.PlatformInstance.Lifecycle.{
  JobState, completed, failed, JobResult, JobData, job_payload, credential_job, pause_named, answer,
  handle_job_result,
}

append-All : (xs ys : List Emission) → All Clean xs → All Clean ys → All Clean (xs ++ ys)
append-All [] ys h h' = h'
append-All (x ∷ xs) ys h h' = (h.0, append-All xs ys h.1 h')

pause_named-outbox :
    (b : Bool) (q : Option Text) (w : World) → (pause_named b q w).outbox ≡ w.outbox
unfolding set_paused
pause_named-outbox b none w = refl
pause_named-outbox b (some name) w = refl

modify-outbox : (ref : ℕ) (f : Instance → Instance) (w : World) → (modify ref f w).outbox ≡ w.outbox
unfolding modify
modify-outbox ref f w = elim (Option-cases (get ref w.heap)) [
  | inl e ↦ rw (e, modify)
  | inr (i, e) ↦ rw (e, modify)
]

credential_job-outbox :
    (state : JobState) (ref : ℕ) (i : Instance) (w : World)
    → (credential_job state ref i w).outbox ≡ w.outbox
unfolding credential_job
credential_job-outbox completed ref i w = pause_named-outbox false i.queue _ ∙ modify-outbox ref _ w
credential_job-outbox failed ref i w = elim (Bool-cases (i.initialized || not (is_some i.queue))) [
  | inl skip ↦ rw skip refl
  | inr act ↦ rw act (pause_named-outbox true i.queue _ ∙ modify-outbox ref _ w)
]

module _ (ajv : Ajv) (g : ContextRegistry) where
  answer-Clean :
      (i : Instance) (w : World) (callback : Option ℕ) (session : Text) (payload : Activity)
      → All Clean (answer ajv g i w callback session (to_external_payload i payload)).1
  unfolding send_to_client
  answer-Clean i w none session payload =
      let msg = prepare i (to_external_payload i payload) in
      let x = prepare-IsExternal i (to_external_payload i payload) in
      elim (Bool-cases (member session w.sockets)) [
        | inl connected ↦ elim (Bool-cases (is_dropped ajv g w.sockets i msg)) [
          | inl dropped ↦ rw (connected, dropped) tt
          | inr kept ↦ rw (connected, kept) ((x.no_secret, x.no_old_context), tt)
        ]
        | inr away ↦ rw away tt
      ]
  answer-Clean i w (some handler) session payload =
      let x = to_external_payload-IsExternal i payload in ((x.no_secret, x.no_old_context), tt)

  peers-Clean :
      (i : Instance) (sockets : List Text) (session : Text) (msg : Activity)
      → All Clean (broadcast_to_shared_peers ajv g sockets i session msg)
  unfolding broadcast_to_shared_peers
  peers-Clean i sockets session msg =
      send_to_each-Clean ajv g sockets i (others ajv g sockets i session i.sessions) msg

  module _ (state : JobState) (job : JobData) (result : JobResult) (ref : ℕ) (i : Instance)
      (w : World) (at : get ref w.heap ≡ some i) where
    abbrev payload : Activity
    payload = to_external_payload i (job_payload state job result)

    abbrev callback : Option ℕ
    callback = (take_completed_job_handler job.title i).1

    abbrev taken : Instance
    taken = (take_completed_job_handler job.title i).0

    abbrev answered : Activity × List Emission
    answered = answer ajv g i w callback job.session_id payload

    abbrev sent : List Emission
    sent = answered.1 ++ broadcast_to_shared_peers ajv g w.sockets i job.session_id answered.0

    abbrev delivered : World
    delivered = send_all sent (modify ref (λ j. taken) w)

    handle_job_result-delivered : handle_job_result ajv g state job result ref w ≡ (
        if i.persist && member job.msg.kind i.require_credentials
        then credential_job state ref taken delivered
        else delivered)
    unfolding handle_job_result
    handle_job_result-delivered = rw (at, handle_job_result) refl

    handle_job_result-outbox :
        (handle_job_result ajv g state job result ref w).outbox ≡ w.outbox ++ sent
    handle_job_result-outbox =
        rw handle_job_result-delivered
          (elim (Bool-cases (i.persist && member job.msg.kind i.require_credentials)) [
            | inl needed ↦ rw needed (
                credential_job-outbox state ref taken delivered
                ∙ ap (λ o. o ++ sent) (modify-outbox ref (λ j. taken) w))
            | inr other ↦ rw other (ap (λ o. o ++ sent) (modify-outbox ref (λ j. taken) w))
          ])

    -- A job's result, finished or failed, leaves the server without the session's secret and without
    -- the legacy context field, to the handler, to the session or to its peers.
    pub handle_job_result-Clean :
        (new : List Emission) × ((handle_job_result ajv g state job result ref w).outbox
          ≡ w.outbox ++ new)
        × All Clean new
    handle_job_result-Clean = (
      sent,
      handle_job_result-outbox,
      append-All answered.1 _
          (answer-Clean i w callback job.session_id (job_payload state job result))
          (peers-Clean i w.sockets job.session_id answered.0),
    )
