-- ===== src/Authority.antt =====
-- Parts of the authority, the actor of core/src/grpc/mod.rs that owns the whole state: the match
-- results that it has applied, and the tests that it makes.
pub mod Results
pub mod Messages
pub mod State
pub mod Requests
pub mod Cancel
pub mod Launch
pub mod Respond
pub mod Outcome
pub mod Finish
pub mod Control
pub mod Commit
pub mod Tick
pub mod Rebuild
pub mod Actor
pub mod Client
pub mod Servers
pub mod Tokens
pub mod Adapter
pub mod Admin
use elo_ranking_pairing_syst.Base.{
  ℕ, suc, ◌≡◌, Bool, true, false, not, ◌&&◌, ◌||◌, ◌==◌, Option, List, [], ◌∷◌, ◌++◌, length, map,
  sum, leb, ltb, is_some_and, if◌then◌else◌,
}
use elo_ranking_pairing_syst.Base.Map.{nat_key}
use elo_ranking_pairing_syst.Base.Set as Set
use elo_ranking_pairing_syst.Components.{QueueMode, one_vs_one, five_vs_five, free_for_all}
use elo_ranking_pairing_syst.Proposal.{Proposal}
use elo_ranking_pairing_syst.Server.Types.{
  InstanceState, reserved, accepted, ready, running, finished, server_lost,
}

-- `completed_match_results` and `completed_match_result_order`
pub record Completed : Type 0 where
  pub results : List ℕ
  pub order : List ℕ

abbrev pub result_limit : ℕ
result_limit = 4096

-- `pop_front`, and the removal of what was popped, for the results and their order.
unfoldable pub forget_oldest : List ℕ → List ℕ → Completed
forget_oldest results [] = record { results = results; order = [] }
forget_oldest results (expired ∷ rest) = record {
  results = Set.remove expired results;
  order = rest;
}

unfoldable pub remember_completed_match_result : Completed → ℕ → Completed
remember_completed_match_result c match_id =
    let grown =
      if Set.member match_id c.results
      then c
      else record { results = Set.insert match_id c.results; order = c.order ++ match_id ∷ [] } in
    if ltb result_limit (length grown.order) then forget_oldest grown.results grown.order else grown

-- Results that are applied one after the other.
abbrev pub remember_all : Completed → List ℕ → Completed
remember_all c [] = c
remember_all c (m ∷ ms) = remember_all (remember_completed_match_result c m) ms

unfoldable pub proposal_mode : Proposal → QueueMode
proposal_mode p =
    if length p.teams == 8
    then free_for_all
    else if sum (map length p.teams) == 10
    then five_vs_five
    else one_vs_one

unfoldable pub credit_suspension_active : ℕ → ℕ → Option ℕ → ℕ → Bool
credit_suspension_active score minimum suspended_until_ms now_ms =
    ltb score minimum && is_some_and suspended_until_ms (λ deadline. leb now_ms deadline)

unfoldable pub valid_reported_instance_transition : InstanceState → InstanceState → Bool
valid_reported_instance_transition reserved reserved = true
valid_reported_instance_transition accepted accepted = true
valid_reported_instance_transition ready ready = true
valid_reported_instance_transition running running = true
valid_reported_instance_transition finished finished = true
valid_reported_instance_transition server_lost server_lost = true
valid_reported_instance_transition reserved accepted = true
valid_reported_instance_transition accepted ready = true
valid_reported_instance_transition ready running = true
valid_reported_instance_transition _ _ = false
