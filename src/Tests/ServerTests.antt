-- ===== src/Tests/ServerTests.antt =====
-- The registry and placement at concrete inputs.
use elo_ranking_pairing_syst.Base.{ℕ, ◌≡◌, refl, false, none, some, [], ◌∷◌, arith, ok, err}
use elo_ranking_pairing_syst.Base.Text.{text, text_eq, is_blank}
use elo_ranking_pairing_syst.Base.Map.{Map, lookup, insert, modify, put, remove, nat_key}
use elo_ranking_pairing_syst.Base.Set as Set
use elo_ranking_pairing_syst.Components.{one_vs_one, mode_eq, mode_key}
use elo_ranking_pairing_syst.Server.Types.{
  healthy, Instance, InstanceState, running, reserved, accepted, server_lost, finished, GameServer,
  Registry, valid_instance_payload, is_inconsistent, valid_reconciled_state,
}
use elo_ranking_pairing_syst.Server.Registration.{keys_eq, costs_eq, reconnect, register}
use elo_ranking_pairing_syst.Server.Reconciliation.{reconcile, reconcile_server}
use elo_ranking_pairing_syst.Server.Ledger.{IsLedger, IsRegistry}
use elo_ranking_pairing_syst.Server.Ledger.Reports.{matches_at, reconcile-IsRegistry}
use elo_ranking_pairing_syst.Server.Ledger.Revival.{reconcile_server_uncharged}
use elo_ranking_pairing_syst.Server.Ledger.Registered.{Continues, register_known}
use elo_ranking_pairing_syst.Placement.{
  feasible, unfinished, reserve, no_capacity, release, transition,
}
use elo_ranking_pairing_syst.Placement.BestFit.{reserve-feasible}
use elo_ranking_pairing_syst.Placement.Reservation.{IsNew, reserve-IsRegistry}
use elo_ranking_pairing_syst.Placement.Retry.{IsOnlyOn}

abbrev pub game : InstanceState → Instance
game state = record {
  match_id = 70;
  cost = 2;
  state = state;
  endpoint = some (text "g");
  connection_token = some (text "t");
}

abbrev pub host : ℕ → GameServer
host id = record {
  id = id;
  generation = 1;
  endpoint = text "x";
  region = text "tw";
  modes = one_vs_one ∷ [];
  capacity_total = 10;
  capacity_used = 2;
  max_instances = 3;
  mode_costs = (one_vs_one, 2) ∷ [];
  last_heartbeat = 0;
  health = healthy;
  failures = 0;
  instances = (70, game running) ∷ [];
}

abbrev pub hosts : Registry
hosts = (1, host 1) ∷ (2, record (host 2) { capacity_used = 0; instances = [] }) ∷ []

pub hosts-IsRegistry : IsRegistry hosts
unfolding lookup
hosts-IsRegistry = (
  refl,
  refl,
  record { distinct = (refl, tt); balanced = refl; fits = omega arith; bounded = omega arith },
  (
    refl,
    refl,
    record { distinct = tt; balanced = refl; fits = omega arith; bounded = omega arith },
    tt,
  ),
)

abbrev hosts_with : ℕ → Registry
hosts_with match_id =
    (
      1,
      record (host 1) {
        capacity_used = 4;
        instances =
            (70, game running)
            ∷ (
              match_id,
              record {
                match_id = match_id;
                cost = 2;
                state = reserved;
                endpoint = none;
                connection_token = none;
              },
            )
            ∷ [];
      },
    )
    ∷ (2, record (host 2) { capacity_used = 0; instances = [] })
    ∷ []

-- The fuller server is the better fit.
reserved_80 : reserve hosts 80 one_vs_one (text "tw") ≡ ok (hosts_with 80, 1)
unfolding reserve unfinished text_eq Set.member mode_eq lookup modify insert put
reserved_80 = refl

IsNew-80 : IsNew 80 hosts
unfolding lookup
IsNew-80 id s h = ground arith

infeasible_jp : feasible hosts one_vs_one (text "jp") ≡ false
unfolding feasible text_eq
infeasible_jp = refl

reserve-feasible_example : reserve hosts 80 one_vs_one (text "jp") ≡ err no_capacity
reserve-feasible_example = (reserve-feasible hosts 80 one_vs_one (text "jp")).1.0 infeasible_jp

reserve-IsRegistry_example : IsRegistry (hosts_with 80)
reserve-IsRegistry_example =
    reserve-IsRegistry hosts (hosts_with 80) 80 one_vs_one (text "tw") 1 hosts-IsRegistry IsNew-80
      reserved_80

released_80 : release (hosts_with 80) 1 80 ≡ ok hosts
unfolding release lookup modify remove
released_80 = refl

abbrev pub hosts_at : InstanceState → Registry
hosts_at state =
    (1, record (host 1) { instances = (70, game state) ∷ [] })
    ∷ (2, record (host 2) { capacity_used = 0; instances = [] })
    ∷ []

pub transition_70 : transition hosts 1 70 accepted none none ≡ ok (hosts_at accepted)
unfolding transition lookup modify
transition_70 = refl

only_70 : IsOnlyOn 1 70 hosts
unfolding lookup
only_70 id s ne h = ground arith

reconcile-IsRegistry_example :
    let after = (reconcile hosts 1 1 ((70, game running) ∷ (71, game running) ∷ [])).0 in
    IsRegistry after × ((j : ℕ) → matches_at after j ≡ matches_at hosts j)
unfolding lookup
reconcile-IsRegistry_example =
    reconcile-IsRegistry hosts 1 1 ((70, game running) ∷ (71, game running) ∷ []) hosts-IsRegistry
      (λ s h. ground arith)

abbrev lossy : GameServer
lossy = record (host 1) {
  instances = (70, game server_lost) ∷ (71, record (game accepted) { match_id = 71 }) ∷ [];
}

abbrev report : Map ℕ Instance
report = (70, game running) ∷ (71, record (game finished) { match_id = 71 }) ∷ []

reconcile_server_uncharged_example : ¬ IsLedger (reconcile_server lossy report).0
unfolding lookup is_inconsistent valid_reconciled_state valid_instance_payload is_blank
reconcile_server_uncharged_example =
    (reconcile_server_uncharged lossy 70 71 (game server_lost)
      (record (game accepted) { match_id = 71 }) (game running)
      (record (game finished) { match_id = 71 })
      (record {
        distinct = (refl, (refl, tt));
        balanced = refl;
        fits = omega arith;
        bounded = omega arith;
      })
      (omega arith) refl refl refl (omega arith) refl refl refl).4

-- A reconnection under the same generation.
abbrev reconnected : Registry
reconnected =
    (1, record (host 1) { endpoint = text "y" })
    ∷ (2, record (host 2) { capacity_used = 0; instances = [] })
    ∷ []

register_1 :
    register hosts
      (record (host 1) { endpoint = text "y"; instances = [] })
      (record { max_capacity = 10; max_instances = 3 })
    ≡ ok reconnected
unfolding register reconnect lookup modify is_blank keys_eq costs_eq mode_eq text_eq
    valid_instance_payload
register_1 = refl

register_known_example : (t : GameServer) × (lookup 1 reconnected ≡ some t) × Continues (host 1) t
unfolding lookup
register_known_example =
    (register_known hosts reconnected (record (host 1) { endpoint = text "y"; instances = [] })
      (host 1) (record { max_capacity = 10; max_instances = 3 }) hosts-IsRegistry refl (omega arith)
      register_1).1
