-- ===== src/HttpActions/Acknowledge.antt =====
-- What an acknowledgement of credentials lets out.
use sockethub.Base.{◌≡◌, refl, Bool, true, false, if◌then◌else◌}
use sockethub.HttpActions.{
  Json, Outcome, nothing, thrown, value, build_credentials_ack, actor_id, error_of, ack_for,
  refusal,
}

-- A handler that threw, as opposed to one that called back with a value or with nothing.
abbrev pub is_thrown : Outcome → Bool
is_thrown (thrown text) = true
is_thrown nothing = false
is_thrown (value v) = false

of_parts :
    (payload : Json) (result : Outcome)
    → build_credentials_ack payload result ≡ (
        if is_thrown result
        then refusal (error_of result)
        else ack_for (actor_id payload) (error_of result))
unfolding build_credentials_ack
of_parts payload nothing = refl
of_parts payload (thrown text) = refl
of_parts payload (value v) = refl

-- The acknowledgement depends on the actor's id and the message of the error alone: payloads and
-- results that differ in anything else, a password or a token, are acknowledged alike.
pub build_credentials_ack-blind :
    (payload payload' : Json) (result result' : Outcome)
    → actor_id payload ≡ actor_id payload'
    → error_of result ≡ error_of result'
    → is_thrown result ≡ is_thrown result'
    → build_credentials_ack payload result ≡ build_credentials_ack payload' result'
build_credentials_ack-blind payload payload' result result' same_id same_error same_kind =
    rw (of_parts payload result, of_parts payload' result', same_id, same_error, same_kind) refl
