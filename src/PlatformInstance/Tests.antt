-- ===== src/PlatformInstance/Tests.antt =====
-- Instances on which the theorems apply.
use sockethub.Base.{
  ◌≡◌, refl, true, List, [], ◌∷◌, ◌++◌, none, some, codes, nat_eq, text_eq, text_beq, if◌then◌else◌,
  All, ◌==◌,
}
use sockethub.Base.Table.{get}
use sockethub.Context.{Activity, ContextRegistry}
use sockethub.Validator.{Ajv}
use sockethub.ConnectionScope.Records.{unless_of}
use sockethub.World.{Instance, World, Emission, obliterates}
use sockethub.World.Samples.{irc, irc_id, world_of}
use sockethub.PlatformInstance.Delivery.{Clean}
use sockethub.PlatformInstance.Lifecycle.{
  run_shutdown, handle_job_result, completed, JobData, activity_result,
}
use sockethub.PlatformInstance.Lifecycle.Teardown.{run_shutdown-current, finished_instance}
use sockethub.PlatformInstance.Lifecycle.Jobs.{handle_job_result-Clean}

abbrev any_schema : Ajv
any_schema name = some (λ msg. none)

abbrev registry : ContextRegistry
registry = record { platform_ids = []; schema_ids = []; credentials_schema_ids = [] }

abbrev note : Activity
note = record {
  context = [];
  kind = codes "send";
  actor = none;
  error = none;
  session_secret = some (codes "x");
  old_context = some (codes "irc");
  rest = [];
}

abbrev waiting : Instance
waiting = record irc {
  completed_job_handlers = (codes "old", 1) ∷ (codes "new", 2) ∷ [];
  completed_job_handler_timestamps = (codes "old", 0) ∷ (codes "new", 400000) ∷ [];
}

run_shutdown-current_example :
    let w' = run_shutdown 0 (world_of irc) in
    (get 0 w'.heap ≡ some (finished_instance obliterates irc))
    × (get irc_id w'.platform_instances
        ≡ (if irc_id == irc_id then none else get irc_id (world_of irc).platform_instances))
    × (get irc_id w'.queues ≡ (
        if irc_id == irc_id
        then some (record { paused = true; jobs = [] })
        else get irc_id (world_of irc).queues))
    × (get (codes "k") w'.scopes.anonymous_scopes
        ≡ unless_of irc_id (get (codes "k") (world_of irc).scopes.anonymous_scopes))
unfolding get text_beq
run_shutdown-current_example =
    run_shutdown-current 0 irc (world_of irc) refl refl irc_id irc_id (codes "k") refl refl refl tt

abbrev replaced_irc : Instance
replaced_irc = record irc { replaced = true }

abbrev taken_over : World
taken_over = record (world_of irc) { platform_instances = (irc_id, 1) ∷ [] }

abbrev job : JobData
job = record { title = codes "t"; session_id = codes "s1"; msg = note }

handle_job_result-Clean_example :
    (new : List Emission) × ((handle_job_result any_schema registry completed job
        (activity_result note)
        0
        (world_of irc)).outbox
      ≡ (world_of irc).outbox ++ new)
    × All Clean new
unfolding get
handle_job_result-Clean_example =
    handle_job_result-Clean any_schema registry completed job (activity_result note) 0 irc
      (world_of irc) refl
