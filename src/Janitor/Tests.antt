-- ===== src/Janitor/Tests.antt =====
-- Instances on which the theorems apply.
use sockethub.Base.{◌≡◌, refl, false, [], ◌∷◌, none, some, codes, nat_eq, text_eq, text_beq}
use sockethub.Base.Table.{get}
use sockethub.Base.Group.{member, remove}
use sockethub.Context.{ContextRegistry}
use sockethub.Validator.{Ajv}
use sockethub.PlatformInstance.{register_session}
use sockethub.PlatformInstance.Lifecycle.{handle_process_close}
use sockethub.World.{Instance, modify}
use sockethub.World.Samples.{irc, world_of}
use sockethub.Janitor.{
  remove_stale_socket_sessions, perform_stale_check, remove_stale_socket_session, stale_loop,
}
use sockethub.Janitor.Grace.{crash_after_grace}

abbrev any_schema : Ajv
any_schema name = some (λ msg. none)

abbrev registry : ContextRegistry
registry = record { platform_ids = []; schema_ids = []; credentials_schema_ids = [] }

-- An instance whose sessions are gone.
abbrev unused : Instance
unused = record irc { sessions = codes "s2" ∷ [] }

crash_after_grace_example :
    (handle_process_close any_schema registry (codes "1") 0 (
      modify 0
        (register_session (codes "s1") none)
        (perform_stale_check false 0 (world_of unused)))).outbox
    ≡ []
unfolding get text_beq remove_stale_socket_sessions stale_loop remove_stale_socket_session member
    remove
crash_after_grace_example =
    crash_after_grace any_schema registry 0 unused (world_of unused) (codes "s1") (codes "1") none
      refl refl refl
