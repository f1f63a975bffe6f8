-- ===== src/Placement.antt =====
-- core/src/placement.rs: which server takes a match, and the capacity that it takes.
pub mod BestFit
pub mod Reservation
pub mod Retry
pub mod Tracked
pub mod Moved
use elo_ranking_pairing_syst.Base.{
  ℕ, ◌+◌, ◌-◌, ◌%◌, ◌≡◌, Bool, true, false, not, ◌&&◌, ◌||◌, Option, none, some, List, [], ◌∷◌,
  ◌==◌, ltb, leb, if◌then◌else◌, any, retain, length, is_some_and, Result, ok, err,
}
use elo_ranking_pairing_syst.Base.Word.{u32_max, u32_mod, u64_max, saturating_add, saturating_sub}
use elo_ranking_pairing_syst.Base.Text.{Text, text_eq}
use elo_ranking_pairing_syst.Base.Map.{Map, lookup, insert, modify, remove, values, nat_key}
use elo_ranking_pairing_syst.Base.Set as Set
use elo_ranking_pairing_syst.Components.{QueueMode, mode_key}
use elo_ranking_pairing_syst.Server.Types.{
  InstanceState, reserved, ready, Instance, GameServer, Registry, is_healthy, is_finished, is_live,
}

pub data PlacementError : Type 0 where
  no_capacity unknown_server : PlacementError

-- The instances that are not finished.
unfoldable pub unfinished : GameServer → ℕ
unfinished s = length (retain (λ i. not (is_finished i.state)) (values s.instances))

-- The test of `feasible` on one server.
unfoldable pub is_feasible : QueueMode → Text → GameServer → Bool
is_feasible mode region s =
    is_healthy s.health
    && text_eq s.region region
    && Set.member mode s.modes
    && is_some_and (lookup mode s.mode_costs)
        (λ cost. leb (saturating_add u32_max s.capacity_used cost) s.capacity_total)
    && ltb (unfinished s) s.max_instances

unfoldable pub feasible : Registry → QueueMode → Text → Bool
unfolding is_feasible
feasible servers mode region = any (is_feasible mode region) (values servers)

-- The tuples that `reserve` compares, in the order of their fields.
pub record Choice : Type 0 where
  pub remaining : ℕ
  pub failures : ℕ
  pub server : ℕ
  pub cost : ℕ

unfoldable pub choice_le : Choice → Choice → Bool
choice_le a b =
    if not (a.remaining == b.remaining)
    then ltb a.remaining b.remaining
    else if not (a.failures == b.failures)
    then ltb a.failures b.failures
    else if not (a.server == b.server)
    then ltb a.server b.server
    else leb a.cost b.cost

-- What a server offers; the subtraction wraps.
unfoldable pub offer : QueueMode → Text → GameServer → Option Choice
offer mode region s =
    if is_healthy s.health && text_eq s.region region && Set.member mode s.modes
    then elim (lookup mode s.mode_costs) [
      | none ↦ none
      | some cost ↦
          if ltb s.capacity_total (saturating_add u32_max s.capacity_used cost)
            || leb s.max_instances (unfinished s)
          then none
          else some (record {
            remaining = (s.capacity_total + u32_mod + u32_mod - s.capacity_used - cost) % u32_mod;
            failures = s.failures;
            server = s.id;
            cost = cost;
          })
    ]
    else none

-- `filter_map(..).min()`: the least offer, the first of equals.
unfoldable pub best : QueueMode → Text → List GameServer → Option Choice
unfolding offer choice_le
best mode region [] = none
best mode region (s ∷ servers) =
    let rest = best mode region servers in
    elim (offer mode region s) [
      | none ↦ rest
      | some a ↦ elim rest [ none ↦ some a | some b ↦ some (if choice_le a b then a else b) ]
    ]

abbrev pub reservation : ℕ → ℕ → Instance
reservation match_id cost = record {
  match_id = match_id;
  cost = cost;
  state = reserved;
  endpoint = none;
  connection_token = none;
}

-- The chosen server with the match on it; the addition wraps.
unfoldable pub take_on : ℕ → ℕ → GameServer → GameServer
take_on match_id cost s = record s {
  capacity_used = (s.capacity_used + cost) % u32_mod;
  instances = insert match_id (reservation match_id cost) s.instances;
}

unfoldable pub reserve : Registry → ℕ → QueueMode → Text → Result (Registry × ℕ) PlacementError
unfolding best take_on
reserve servers match_id mode region = elim (best mode region (values servers)) [
  | none ↦ err no_capacity
  | some choice ↦ ok (modify choice.server (take_on match_id choice.cost) servers, choice.server)
]

-- One instance in `transition`.
unfoldable pub enter : InstanceState → Option Text → Option Text → Instance → Instance
enter state endpoint token i = elim state [
  | ready ↦ record i { state = ready; endpoint = endpoint; connection_token = token }
  | other ↦ record i { state = other }
]

unfoldable pub transition :
    Registry → ℕ → ℕ → InstanceState → Option Text → Option Text → Result Registry PlacementError
unfolding enter
transition servers server match_id state endpoint token = elim (lookup server servers) [
  | none ↦ err unknown_server
  | some s ↦ elim (lookup match_id s.instances) [
    | none ↦ err unknown_server
    | some i ↦ ok (
        modify server
          (λ s. record s { instances = modify match_id (enter state endpoint token) s.instances })
          servers)
  ]
]

-- The server without the match, and with the capacity that the match held, if it held any.
unfoldable pub let_go : ℕ → GameServer → GameServer
let_go match_id s = elim (lookup match_id s.instances) [
  | none ↦ s
  | some i ↦ record s {
    instances = remove match_id s.instances;
    capacity_used =
        if is_live i.state then saturating_sub s.capacity_used i.cost else s.capacity_used;
  }
]

unfoldable pub release : Registry → ℕ → ℕ → Result Registry PlacementError
unfolding let_go
release servers server match_id = elim (lookup server servers) [
  | none ↦ err unknown_server
  | some s ↦ ok (modify server (let_go match_id) servers)
]

-- The registry is changed also where no other server is found.
unfoldable pub retry_after_failure :
    Registry → ℕ → ℕ → QueueMode → Text → Registry × Result ℕ PlacementError
retry_after_failure servers failed_server match_id mode region =
    elim (release servers failed_server match_id) [
      | err e ↦ (servers, err e)
      | ok released ↦
          let counted =
            modify failed_server (λ s. record s { failures = saturating_add u32_max s.failures 1 })
              released in
          elim (reserve counted match_id mode region) [
            | err e ↦ (counted, err e)
            | ok (placed, server) ↦ (placed, ok server)
          ]
    ]

pub record PlacementWait : Type 0 where
  pub started_at : ℕ
  pub deadline : ℕ

unfoldable pub new_wait : ℕ → ℕ → PlacementWait
new_wait now timeout = record { started_at = now; deadline = saturating_add u64_max now timeout }

unfoldable pub is_expired : PlacementWait → ℕ → Bool
is_expired w now = ltb w.deadline now
