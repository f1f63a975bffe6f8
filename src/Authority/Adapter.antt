-- ===== src/Authority/Adapter.antt =====
-- What the services of core/src/grpc/mod.rs do before they call the actor: the version of the protocol,
-- the identifier and the token; and what `serve` asks of a configuration. The validators are trait
-- objects, so they are arguments.
pub mod Admitted
use elo_ranking_pairing_syst.Base.{
  ℕ, Bool, not, ◌&&◌, Option, none, some, List, is_some, if_some, Result, ok, err, if◌then◌else◌,
}
use elo_ranking_pairing_syst.Base.Text.{Text}
use elo_ranking_pairing_syst.Config.{ErpsConfig, ConfigError, validate}
use elo_ranking_pairing_syst.Profile.{PlayerProfile}
use elo_ranking_pairing_syst.Rating.{Float}
use elo_ranking_pairing_syst.Authority.Messages.{
  Status, unavailable, failed_precondition, invalid_argument, ApiVersion, GameInstance,
  ServerControl, Env,
}
use elo_ranking_pairing_syst.Authority.State.{AuthorityState, Step, check_api}
use elo_ranking_pairing_syst.Authority.Control.{apply_server_control}
use elo_ranking_pairing_syst.Authority.Servers.{
  RegisterServerRequest, register_server, reconcile_instances,
}
use elo_ranking_pairing_syst.Authority.Actor.{open_session}

abbrev pub ServerTokenValidator : Type 0
ServerTokenValidator = Text → ℕ → Result (Unit {0}) Status

abbrev pub TokenValidator : Type 0
TokenValidator = Text → Result ℕ Status

-- The calls of a game server, after their common fields; a call on the control stream is one message.
pub data ServerCall (env : Env) : Type 0 where
  register : RegisterServerRequest → ServerCall env
  control : ℕ → env.Control → Option ServerControl → ServerCall env
  reconcile : ℕ → List GameInstance → ServerCall env

module _ {env : Env} where
  unfoldable pub run_call : ℕ → ℕ → ServerCall env → Step env (Unit {0})
  unfolding register_server apply_server_control reconcile_instances
  run_call now id (ServerCall.register req) = register_server now (record req { server_id = id })
  run_call now id (ServerCall.control generation reply message) =
      apply_server_control now id generation reply message
  run_call now id (ServerCall.reconcile generation reported) =
      reconcile_instances now id generation reported

  -- A malformed identifier is `none`.
  unfoldable pub serve_call :
      ServerTokenValidator
      → ℕ
      → Option ApiVersion
      → Option ℕ
      → Text
      → ServerCall env
      → Step env (Unit {0})
  unfolding check_api run_call
  serve_call validator now api server token call s =
      if not (check_api api)
      then (err failed_precondition, s)
      else if_some server
          (λ id. elim (validator token id) [ err e ↦ (err e, s) | ok _ ↦ run_call now id call s ])
          (err invalid_argument, s)

  -- The profile comes from a `ProfileStore`; a failure of it is `none`. The fresh token and the new
  -- channel are arguments.
  unfoldable pub serve_session :
      TokenValidator
      → (ℕ → Option PlayerProfile)
      → ℕ
      → Option ApiVersion
      → Text
      → Text
      → env.Events
      → Step env (Text × ℕ)
  unfolding check_api open_session
  serve_session validator load now api auth_token fresh channel s =
      if not (check_api api) then (err failed_precondition, s) else elim (validator auth_token) [
        | err e ↦ (err e, s)
        | ok player ↦
            if_some (load player)
              (λ profile. (ok (fresh, player), open_session now player fresh profile channel s))
              (err unavailable, s)
      ]

-- Why the service does not start, before any network.
pub data ServeError : Type 0 where
  needs_identity_validator needs_server_validator plaintext_refused : ServeError
  bad_config : ConfigError → ServeError

module _ {fl : Float} where
  unfoldable pub serve_with_validators : ErpsConfig fl → Bool → Result (Unit {0}) ServeError
  unfolding validate
  serve_with_validators c is_loopback = elim (validate fl c) [
    | err e ↦ err (bad_config e)
    | ok _ ↦
        let tls_pair = is_some c.tls_certificate_path && is_some c.tls_private_key_path in
        if not tls_pair && not (is_loopback && c.allow_development_plaintext)
        then err plaintext_refused
        else ok tt
  ]

  -- With the development validator for the servers.
  unfoldable pub serve_with_validator : ErpsConfig fl → Bool → Result (Unit {0}) ServeError
  unfolding serve_with_validators
  serve_with_validator c is_loopback =
      if is_some c.tls_certificate_path
      then err needs_server_validator
      else serve_with_validators c is_loopback

  -- With the development validators.
  unfoldable pub serve : ErpsConfig fl → Bool → Result (Unit {0}) ServeError
  unfolding serve_with_validator
  serve c is_loopback =
      if is_some c.tls_certificate_path
      then err needs_identity_validator
      else serve_with_validator c is_loopback
