-- ===== src/Authority/Servers.antt =====
-- `register` and `reconcile_instances` of core/src/grpc/mod.rs: what a game server says of itself. The
-- token of the server is validated by a component of the host, before.
use elo_ranking_pairing_syst.Base.{
  ℕ, false, not, ◌&&◌, ◌||◌, ◌==◌, Option, none, some, List, [], ◌∷◌, any, leb, is_empty, is_some,
  if_some, ok, err, if◌then◌else◌,
}
use elo_ranking_pairing_syst.Base.Word.{u32_max}
use elo_ranking_pairing_syst.Base.Text.{Text, text, text_eq, to_ascii_lowercase}
use elo_ranking_pairing_syst.Base.Map.{Map, lookup, insert, remove, keys, values, nat_key, text_key}
use elo_ranking_pairing_syst.Components.{
  QueueMode, one_vs_one, five_vs_five, free_for_all, mode_key,
}
use elo_ranking_pairing_syst.Server.Reconciliation.{reconcile}
use elo_ranking_pairing_syst.Server.Registration as Registration
use elo_ranking_pairing_syst.Server.Registration.{costs_eq}
use elo_ranking_pairing_syst.Server.Types.{
  healthy, Instance, GameServer, ServerLimits, is_reachable, live_costs, checked_sum,
}
use elo_ranking_pairing_syst.Authority.Messages.{
  invalid_argument, failed_precondition, permission_denied, GameInstance, LaunchResult, Env,
}
use elo_ranking_pairing_syst.Authority.State.{
  AuthorityState, Step, and_then, ◌>>=◌, ◌>>◌, get_state, set_state, refuse_if, found, map_err,
}
use elo_ranking_pairing_syst.Authority.Requests.{mode}
use elo_ranking_pairing_syst.Authority.Control.{parse_instance}
use elo_ranking_pairing_syst.Authority.Outcome.{launch_result}

pub record RegisterServerRequest : Type 0 where
  pub server_id : ℕ
  pub generation : ℕ
  pub endpoint : Text
  pub region : Text
  pub capacity_total : ℕ
  pub max_instances : ℕ
  pub mode_costs : List (ℕ × ℕ)
  pub instances : List GameInstance
  pub server_class : Text

-- `(!value.is_empty()).then_some(value)`
abbrev pub non_empty : Text → Option Text
non_empty value = if is_empty value then none else some value

-- The costs by mode; an unknown mode is an invalid argument.
unfoldable pub collect_costs : List (ℕ × ℕ) → Map QueueMode ℕ → Option (Map QueueMode ℕ)
unfolding mode
collect_costs [] costs = some costs
collect_costs ((wire, cost) ∷ rest) costs =
    if_some (mode wire) (λ m. collect_costs rest (insert m cost costs)) none

-- The modes of a server class, by their names.
unfoldable pub class_mode : Text → Option QueueMode
unfolding to_ascii_lowercase
class_mode name =
    let n = to_ascii_lowercase name in
    if text_eq n (text "1v1") || text_eq n (text "one_vs_one")
    then some one_vs_one
    else if text_eq n (text "5v5") || text_eq n (text "five_vs_five")
    then some five_vs_five
    else if text_eq n (text "ffa8") || text_eq n (text "free_for_all")
    then some free_for_all
    else none

unfoldable pub trusted_costs : Map Text ℕ → Map QueueMode ℕ → Option (Map QueueMode ℕ)
unfolding class_mode
trusted_costs [] costs = some costs
trusted_costs ((name, cost) ∷ rest) costs =
    if_some (class_mode name) (λ m. trusted_costs rest (insert m cost costs)) none

-- The reported instances by match; a bad one, or a repeated match, spoils them.
unfoldable pub collect_instances : List GameInstance → Map ℕ Instance → Option (Map ℕ Instance)
unfolding parse_instance
collect_instances [] instances = some instances
collect_instances (i ∷ rest) instances =
    if_some i.match_id
      (λ match_id.
        if_some (parse_instance i.state)
          (λ state.
            let reported : Instance = record {
              match_id = match_id;
              cost = i.reserved_cost;
              state = state;
              endpoint = non_empty i.endpoint;
              connection_token = non_empty i.connection_token;
            } in
            let others = collect_instances rest (insert match_id reported instances) in
            if is_some (lookup match_id instances) then none else others)
          none)
      none

-- The reported instances that players may reach, as launches that became ready.
unfoldable pub recoverable : List GameInstance → List LaunchResult
unfolding parse_instance
recoverable [] = []
recoverable (i ∷ rest) =
    let others = recoverable rest in
    let reachable = if_some (parse_instance i.state) is_reachable false in
    if reachable && not (is_empty i.endpoint) && not (is_empty i.connection_token)
    then record {
      match_id = i.match_id;
      state = text "ready";
      endpoint = i.endpoint;
      connection_token = i.connection_token;
    }
      ∷ others
    else others

module _ {env : Env} where
  -- Whether the costs are those of the server's class, if it has one.
  unfoldable pub check_costs : Text → Map QueueMode ℕ → Step env (Unit {0})
  unfolding trusted_costs costs_eq
  check_costs server_class costs s =
      if_some (lookup server_class s.config.server_classes)
        (λ policy.
          if_some (trusted_costs policy.mode_costs [])
            (λ trusted. if costs_eq costs trusted then (ok tt, s) else (err permission_denied, s))
            (err invalid_argument, s))
        (ok tt, s)

  unfoldable pub limits_for : AuthorityState env → Text → Option ServerLimits
  limits_for s server_class =
      if is_empty server_class
      then some (record { max_capacity = u32_max; max_instances = 100 })
      else if_some (lookup server_class s.config.server_classes)
          (λ policy.
            some (record {
              max_capacity = policy.capacity_limit;
              max_instances = policy.max_instances;
            }))
          none

  unfoldable pub register_server : ℕ → RegisterServerRequest → Step env (Unit {0})
  unfolding collect_costs check_costs collect_instances limits_for live_costs checked_sum
      Registration.register
  register_server now req = do
    s ← get_state
    let production = is_some s.config.tls_certificate_path
    refuse_if (production && is_empty req.server_class) permission_denied
    costs ← found (collect_costs req.mode_costs []) invalid_argument
    check_costs req.server_class costs
    instances ← found (collect_instances req.instances []) invalid_argument
    used ← found (checked_sum 0 (live_costs instances)) invalid_argument
    refuse_if (not (leb req.max_instances 65535)) invalid_argument
    let server : GameServer = record {
      id = req.server_id;
      generation = req.generation;
      endpoint = req.endpoint;
      region = req.region;
      modes = keys costs;
      capacity_total = req.capacity_total;
      capacity_used = used;
      max_instances = req.max_instances;
      mode_costs = costs;
      last_heartbeat = now;
      health = healthy;
      failures = 0;
      instances = instances;
    }
    limits ← found (limits_for s req.server_class) permission_denied
    registry ← map_err failed_precondition (Registration.register s.registry server limits)
    set_state (record s { registry = registry; controls = remove req.server_id s.controls })

  -- One recovered launch; the first that fails ends the loop.
  unfoldable pub recover_all : ℕ → ℕ → List LaunchResult → Step env (Unit {0})
  unfolding launch_result
  recover_all now id [] s = (ok tt, s)
  recover_all now id (r ∷ rest) s =
      if_some r.match_id
        (λ match_id.
          let published = any (λ m. m == match_id) (values s.player_match) in
          if is_some (lookup match_id s.launches) && not published
          then and_then (launch_result now id r s) (λ _. recover_all now id rest)
          else recover_all now id rest s)
        (err invalid_argument, s)

  unfoldable pub reconcile_instances : ℕ → ℕ → ℕ → List GameInstance → Step env (Unit {0})
  unfolding collect_instances recoverable recover_all reconcile
  reconcile_instances now id generation reported = do
    s ← get_state
    instances ← found (collect_instances reported []) invalid_argument
    let (registry, outcome) = reconcile s.registry id generation instances
    set_state (record s { registry = registry })
    map_err failed_precondition outcome
    recover_all now id (recoverable reported)
