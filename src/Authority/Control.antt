-- ===== src/Authority/Control.antt =====
-- `apply_server_control` of core/src/grpc/mod.rs: the messages of the game servers.
pub mod Once
pub mod Tracked
use elo_ranking_pairing_syst.Base.{
  ℕ, Bool, true, false, not, ◌&&◌, ◌||◌, ◌==◌, Option, none, some, Result, ok, err, if_some,
  if◌then◌else◌,
}
use elo_ranking_pairing_syst.Base.Text.{Text, text, text_eq, to_ascii_lowercase, is_blank}
use elo_ranking_pairing_syst.Base.Map.{lookup, insert, nat_key}
use elo_ranking_pairing_syst.Base.Set as Set
use elo_ranking_pairing_syst.Server.Monitor.{heartbeat}
use elo_ranking_pairing_syst.Server.Types.{
  InstanceState, reserved, accepted, ready, running, finished, server_lost, Instance,
  is_current_generation, is_reachable,
}
use elo_ranking_pairing_syst.Authority.{
  valid_reported_instance_transition, remember_completed_match_result,
}
use elo_ranking_pairing_syst.Authority.Messages.{
  Status, invalid_argument, failed_precondition, not_found, unavailable, match_result_ack,
  GameInstance, MatchResult, ServerControl, Env,
}
use elo_ranking_pairing_syst.Authority.State.{
  AuthorityState, Step, and_then, ◌>>=◌, ◌>>◌, give, get_state, set_state, refuse_if, found,
  map_err,
}
use elo_ranking_pairing_syst.Authority.Outcome.{set_instance, launch_result}
use elo_ranking_pairing_syst.Authority.Finish.{finish_match}

unfoldable pub parse_instance : Text → Option InstanceState
unfolding to_ascii_lowercase
parse_instance v =
    let name = to_ascii_lowercase v in
    if text_eq name (text "reserved")
    then some reserved
    else if text_eq name (text "accepted")
    then some accepted
    else if text_eq name (text "ready")
    then some ready
    else if text_eq name (text "running")
    then some running
    else if text_eq name (text "finished")
    then some finished
    else if text_eq name (text "serverlost") || text_eq name (text "server_lost")
    then some server_lost
    else none

-- The instance with the reported state, and the reported endpoint if players may reach it.
unfoldable pub report_on : InstanceState → Text → Text → Instance → Instance
report_on next endpoint token i =
    if is_reachable next
    then record i { state = next; endpoint = some endpoint; connection_token = some token }
    else record i { state = next }

module _ {env : Env} where
  unfoldable pub apply_instance : ℕ → GameInstance → Step env (Unit {0})
  unfolding parse_instance valid_reported_instance_transition report_on
  apply_instance id value = do
    s ← get_state
    match_id ← found value.match_id invalid_argument
    server ← found (lookup id s.registry) not_found
    i ← found (lookup match_id server.instances) not_found
    refuse_if (not (i.cost == value.reserved_cost)) failed_precondition
    next ← found (parse_instance value.state) invalid_argument
    refuse_if (not (valid_reported_instance_transition i.state next)) failed_precondition
    let missing = is_blank value.endpoint || is_blank value.connection_token
    refuse_if (is_reachable next && missing) invalid_argument
    let report = report_on next value.endpoint value.connection_token
    set_state (record s { registry = set_instance id match_id report s.registry })

  -- The reply stream is the stream of the server, which was stored before.
  unfoldable pub acknowledge : ℕ → ℕ → Step env (Unit {0})
  acknowledge id match_id s =
      if_some (lookup id s.controls)
        (λ control.
          if_some (env.try_send control (match_result_ack match_id))
            (λ control'. (ok tt, record s { controls = insert id control' s.controls }))
            (err unavailable, s))
        (err unavailable, s)

  -- A result counts once.
  unfoldable pub complete : ℕ → ℕ → MatchResult → Step env (Unit {0})
  unfolding finish_match remember_completed_match_result
  complete id match_id result s =
      if Set.member match_id s.completed_match_results.results
      then (ok tt, s)
      else and_then (finish_match id result s) (λ _ s'. (
        ok tt,
        record s' {
          completed_match_results =
              remember_completed_match_result s'.completed_match_results match_id;
        },
      ))

  unfoldable pub apply_match_result : ℕ → MatchResult → Step env (Unit {0})
  unfolding complete acknowledge
  apply_match_result id result = do
    match_id ← found result.match_id invalid_argument
    complete id match_id result
    acknowledge id match_id

  unfoldable pub apply_message : ℕ → ℕ → ℕ → Option ServerControl → Step env (Unit {0})
  unfolding heartbeat launch_result apply_instance apply_match_result
  apply_message now id generation none s = (ok tt, s)
  apply_message now id generation (some (ServerControl.heartbeat used)) s =
      elim (heartbeat s.registry id generation now used) [
        | err e ↦ (err failed_precondition, s)
        | ok registry ↦ (ok tt, record s { registry = registry })
      ]
  apply_message now id generation (some (ServerControl.launch_result result)) s =
      launch_result now id result s
  apply_message now id generation (some (ServerControl.game_instance value)) s =
      apply_instance id value s
  apply_message now id generation (some (ServerControl.match_result result)) s =
      apply_match_result id result s

  unfoldable pub apply_server_control :
      ℕ → ℕ → ℕ → env.Control → Option ServerControl → Step env (Unit {0})
  unfolding is_current_generation apply_message
  apply_server_control now id generation reply_stream message s =
      if is_current_generation s.registry id generation
      then apply_message now id generation message
          (record s { controls = insert id reply_stream s.controls })
      else (ok tt, s)
