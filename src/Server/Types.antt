-- ===== src/Server/Types.antt =====
-- The data of core/src/server.rs, and its tests on states and reports.
use elo_ranking_pairing_syst.Base.{
  ℕ, ◌+◌, ◌%◌, Bool, true, false, not, ◌&&◌, ◌||◌, Option, none, some, List, [], ◌∷◌, map, ◌==◌,
  leb, if◌then◌else◌, retain, sum, is_some_and,
}
use elo_ranking_pairing_syst.Base.Word.{u32_max, u32_mod}
use elo_ranking_pairing_syst.Base.Text.{Text, is_blank}
use elo_ranking_pairing_syst.Base.Map.{Map, lookup, values, nat_key}
use elo_ranking_pairing_syst.Components.{QueueMode, mode_key}

pub data Health : Type 0 where
  healthy unhealthy lost : Health

pub data InstanceState : Type 0 where
  reserved accepted ready running finished server_lost : InstanceState

pub record Instance : Type 0 where
  pub match_id : ℕ
  pub cost : ℕ
  pub state : InstanceState
  pub endpoint : Option Text
  pub connection_token : Option Text

pub record GameServer : Type 0 where
  pub id : ℕ
  pub generation : ℕ
  pub endpoint : Text
  pub region : Text
  pub modes : List QueueMode
  pub capacity_total : ℕ
  pub capacity_used : ℕ
  pub max_instances : ℕ
  pub mode_costs : Map QueueMode ℕ
  pub last_heartbeat : ℕ
  pub health : Health
  pub failures : ℕ
  pub instances : Map ℕ Instance

pub data ServerError : Type 0 where
  stale_generation invalid_capacity unknown_instance : ServerError

pub record ServerLimits : Type 0 where
  pub max_capacity : ℕ
  pub max_instances : ℕ

-- `Registry.servers`
abbrev pub Registry : Type 0
Registry = Map ℕ GameServer

abbrev pub is_healthy : Health → Bool
is_healthy healthy = true
is_healthy _ = false

abbrev pub is_lost : Health → Bool
is_lost lost = true
is_lost _ = false

abbrev pub is_finished : InstanceState → Bool
is_finished finished = true
is_finished _ = false

abbrev pub is_server_lost : InstanceState → Bool
is_server_lost server_lost = true
is_server_lost _ = false

-- `Ready` or `Running`.
abbrev pub is_reachable : InstanceState → Bool
is_reachable ready = true
is_reachable running = true
is_reachable _ = false

abbrev pub is_running : InstanceState → Bool
is_running running = true
is_running _ = false

-- Neither `Finished` nor `ServerLost`.
abbrev pub is_live : InstanceState → Bool
is_live finished = false
is_live server_lost = false
is_live _ = true

unfoldable pub state_eq : InstanceState → InstanceState → Bool
state_eq reserved reserved = true
state_eq accepted accepted = true
state_eq ready ready = true
state_eq running running = true
state_eq finished finished = true
state_eq server_lost server_lost = true
state_eq _ _ = false

unfoldable pub instance_state_rank : InstanceState → ℕ
instance_state_rank reserved = 0
instance_state_rank accepted = 1
instance_state_rank ready = 2
instance_state_rank running = 3
instance_state_rank finished = 4
instance_state_rank server_lost = 4

unfoldable pub valid_reconciled_state : InstanceState → InstanceState → Bool
unfolding state_eq instance_state_rank
valid_reconciled_state authoritative reported =
    if state_eq authoritative reported
    then true
    else if not (is_live reported) || is_finished authoritative
    then false
    else if is_server_lost authoritative
    then is_reachable reported
    else leb (instance_state_rank authoritative) (instance_state_rank reported)

-- `is_some_and(|value| !value.trim().is_empty())`
abbrev pub is_filled : Option Text → Bool
is_filled value = is_some_and value (λ v. not (is_blank v))

unfoldable pub valid_instance_payload : Instance → Bool
valid_instance_payload i =
    not (is_reachable i.state) || (is_filled i.endpoint && is_filled i.connection_token)

-- The costs of the instances that are neither finished nor lost.
unfoldable pub live_costs : Map ℕ Instance → List ℕ
live_costs instances = map (λ i. i.cost) (retain (λ i. is_live i.state) (values instances))

-- `sum::<u32>()` wraps.
unfoldable pub authoritative_used : Map ℕ Instance → ℕ
unfolding live_costs
authoritative_used instances = sum (live_costs instances) % u32_mod

-- `try_fold(0_u32, |used, instance| used.checked_add(instance.cost))`
unfoldable pub checked_sum : ℕ → List ℕ → Option ℕ
checked_sum used [] = some used
checked_sum used (cost ∷ costs) =
    let rest = checked_sum (used + cost) costs in if leb (used + cost) u32_max then rest else none

unfoldable pub is_current_generation : Registry → ℕ → ℕ → Bool
is_current_generation servers id generation =
    is_some_and (lookup id servers) (λ s. s.generation == generation)

-- One reported instance in the loops of `register` and `reconcile`: what is written, and what is
-- refused.
unfoldable pub adopt : Instance → Instance → Instance
adopt reported i = record i {
  state = reported.state;
  endpoint = reported.endpoint;
  connection_token = reported.connection_token;
}

unfoldable pub is_inconsistent : Instance → Instance → Bool
is_inconsistent known reported =
    not (known.cost == reported.cost)
    || not (valid_reconciled_state known.state reported.state)
    || not (valid_instance_payload reported)
