-- ===== src/Tests/MatchTests.antt =====
-- Proposals, launches and results at concrete inputs.
use elo_ranking_pairing_syst.Base.{
  ℕ, ◌≡◌, ◌==◌, refl, true, false, not, ◌&&◌, none, some, List, [], ◌∷◌, ok, err, contains, arith,
  if◌then◌else◌, if_some,
}
use elo_ranking_pairing_syst.Base.Int.{pos}
use elo_ranking_pairing_syst.Base.Text.{Text, text, text_eq, is_blank}
use elo_ranking_pairing_syst.Base.Map.{lookup, modify, insert, put, nat_key, text_key}
use elo_ranking_pairing_syst.Base.Set as Set
use elo_ranking_pairing_syst.Components.{one_vs_one, PartyState, mode_key, mode_eq}
use elo_ranking_pairing_syst.Matching.{PartyTicket, Candidate}
use elo_ranking_pairing_syst.Party.{Party}
use elo_ranking_pairing_syst.Placement as Placement
use elo_ranking_pairing_syst.Placement.{take_on, is_feasible}
use elo_ranking_pairing_syst.Placement.Reservation.{IsNew}
use elo_ranking_pairing_syst.Placement.Retry.{transition-IsRegistry}
use elo_ranking_pairing_syst.Server.Types.{GameServer, accepted, running}
use elo_ranking_pairing_syst.Server.Ledger.{IsRegistry}
use elo_ranking_pairing_syst.Authority.{proposal_mode}
use elo_ranking_pairing_syst.Authority.Messages.{
  invalid_argument, not_found, LaunchResult, ServerControl,
}
use elo_ranking_pairing_syst.Authority.State.{AuthorityState, next_uuid, bit_or}
use elo_ranking_pairing_syst.Authority.Cancel.{cancel_proposal}
use elo_ranking_pairing_syst.Authority.Cancel.Effects.{cancel_proposal-freed}
use elo_ranking_pairing_syst.Authority.Cancel.Tickets.{has_let_down, cancel_proposal-requeued}
use elo_ranking_pairing_syst.Authority.Commit.{selected_parties, commit_candidate}
use elo_ranking_pairing_syst.Authority.Commit.RoundTrip.{commit_candidate-cancel_proposal}
use elo_ranking_pairing_syst.Authority.Control.{
  acknowledge, complete, apply_match_result, apply_server_control,
}
use elo_ranking_pairing_syst.Authority.Control.Tracked.{apply_server_control-IsTracked}
use elo_ranking_pairing_syst.Authority.Control.Once.{repeated_result}
use elo_ranking_pairing_syst.Authority.Finish.{finish_match}
use elo_ranking_pairing_syst.Authority.Finish.Whole.{finish_match-refused, finish_match-release}
use elo_ranking_pairing_syst.Authority.Launch.{common_regions, start_launch}
use elo_ranking_pairing_syst.Authority.Launch.Placed.{start_launch-is_feasible}
use elo_ranking_pairing_syst.Authority.Launch.Tracked.{start_launch-IsTracked}
use elo_ranking_pairing_syst.Authority.Tick.{
  drop_players, cancel_overdue, check_servers, time_out_launches,
}
use elo_ranking_pairing_syst.Authority.Tick.Tracked.{tick-IsTracked}
use elo_ranking_pairing_syst.Authority.Outcome.{launch_result}
use elo_ranking_pairing_syst.Authority.Outcome.Tracked.{HasTracked}
use elo_ranking_pairing_syst.Authority.Outcome.Published.{launch_result-launch_result}
use elo_ranking_pairing_syst.Tests.ServerTests.{
  hosts, hosts-IsRegistry, hosts_at, host, game, transition_70,
}
use elo_ranking_pairing_syst.Tests.AuthorityTests.{
  town, party, ticket, start, agreed, proposed_state, running_state, result_of,
}

cancel_proposal-freed_example :
    ((k : ℕ)
      → lookup k (cancel_proposal 950 30 false proposed_state).player_proposal
        ≡ (if contains k (1 ∷ 2 ∷ []) then none else lookup k proposed_state.player_proposal))
    × ((j : ℕ)
        → Set.member j (cancel_proposal 950 30 false proposed_state).claims
          ≡ not (Set.member j (51 ∷ 52 ∷ [])) && Set.member j (51 ∷ 52 ∷ []))
unfolding lookup
cancel_proposal-freed_example =
    cancel_proposal-freed 950 30 false agreed proposed_state refl (refl, (refl, tt))

abbrev waiting_party : Party
waiting_party = party 10 1 PartyState.awaiting_accept

cancel_proposal-requeued_example :
    let failed = has_let_down agreed.responses (1 ∷ []) && false in
    (lookup 10 (cancel_proposal 950 30 true proposed_state).parties
      ≡ some (record waiting_party {
        state = if failed then PartyState.not_ready else PartyState.queued;
        revision = 2;
      }))
    × (lookup 10 (cancel_proposal 950 30 true proposed_state).tickets
        ≡ (if failed then none else some (ticket 51)))
unfolding lookup
cancel_proposal-requeued_example =
    cancel_proposal-requeued 950 30 10 true agreed ((10, ticket 51) ∷ (20, ticket 52) ∷ [])
      (ticket 51) waiting_party proposed_state refl refl (refl, (refl, tt)) refl refl

another_match : (70 == (next_uuid proposed_state 4).0) ≡ false
unfolding next_uuid bit_or
another_match = refl

proposed_state-IsNew : IsNew (next_uuid proposed_state 4).0 hosts
unfolding lookup
proposed_state-IsNew id s h = ground (arith, another_match, h)

proposed_state-HasTracked : HasTracked proposed_state
unfolding lookup
proposed_state-HasTracked = record {
  order = hosts-IsRegistry;
  distinct = tt;
  once = λ m server id other e off. ground (arith, e);
}

start_launch-IsTracked_example : HasTracked (start_launch 940 30 proposed_state).1
unfolding lookup
start_launch-IsTracked_example =
    start_launch-IsTracked 940 30 proposed_state proposed_state-HasTracked proposed_state-IsNew refl

abbrev match_of : AuthorityState town → ℕ
match_of s = (next_uuid s 4).0

abbrev launched : AuthorityState town
launched = (start_launch 940 30 proposed_state).1

launched_ok : (start_launch 940 30 proposed_state).0 ≡ ok (match_of proposed_state)
unfolding start_launch lookup Set.member Set.intersection Set.extend Set.insert text_eq mode_eq
launched_ok = refl

start_launch-is_feasible_example :
    (g : GameServer) × (cost : ℕ) × (lookup g.id hosts ≡ some g)
    × (Set.member g.region (if_some (lookup 30 proposed_state.proposal_tickets) common_regions [])
        ≡ true)
    × (is_feasible (proposal_mode agreed) g.region g ≡ true)
    × (lookup (proposal_mode agreed) g.mode_costs ≡ some cost)
    × (launched.registry ≡ modify g.id (take_on (match_of proposed_state) cost) hosts)
    × (lookup (match_of proposed_state) launched.launches ≡ some (g.id, 30))
unfolding lookup
start_launch-is_feasible_example =
    start_launch-is_feasible 940 30 (match_of proposed_state) agreed proposed_state hosts-IsRegistry
      refl launched_ok

abbrev queue_ticket : ℕ → ℕ → ℕ → PartyTicket
queue_ticket id party member = record {
  id = id;
  party = party;
  members = member ∷ [];
  ratings = [];
  effective_rating = pos 1000;
  enqueued_at = 5;
  revision = 1;
  region = text "tw";
  mode = one_vs_one;
  search_delta = pos 100;
  wait_seconds = 0;
}

abbrev duel : Candidate
duel = record {
  tickets = 51 ∷ 52 ∷ [];
  teams = (1 ∷ []) ∷ (2 ∷ []) ∷ [];
  oldest_enqueued_at = 5;
  quality_key = (pos 0, pos 0, pos 0);
  owner_shard = 0;
}

abbrev snapshot_tickets : List PartyTicket
snapshot_tickets = queue_ticket 51 10 1 ∷ queue_ticket 52 20 2 ∷ []

abbrev made_and_cancelled : AuthorityState town
made_and_cancelled =
    cancel_proposal 950 (next_uuid start 3).0 true
      (commit_candidate 100 duel snapshot_tickets start)

commit_candidate-cancel_proposal_example :
    (lookup 20 made_and_cancelled.tickets ≡ some (ticket 52))
    × ((revision : ℕ) × (lookup 20 made_and_cancelled.parties
          ≡ some (record (party 20 2 PartyState.queued) { revision = revision })))
unfolding lookup selected_parties
commit_candidate-cancel_proposal_example =
    commit_candidate-cancel_proposal 100 950 duel snapshot_tickets 20 (ticket 52)
      (party 20 2 PartyState.queued) start (refl, (refl, tt)) refl refl refl

finish_match-refused_example : (finish_match 1 (result_of 1 9) running_state).1 ≡ running_state
unfolding finish_match lookup insert put text_eq Set.extend Set.insert Set.member
finish_match-refused_example =
    finish_match-refused 1 (result_of 1 9) running_state invalid_argument refl

abbrev ended : AuthorityState town
ended = (finish_match 1 (result_of 1 2) running_state).1

finish_match-release_example :
    IsRegistry ended.registry
    × (Placement.release hosts 1 70 ≡ ok ended.registry)
    × (lookup 70 ended.launches ≡ none)
    × ((finish_match 1 (result_of 1 2) ended).0 ≡ err not_found)
unfolding finish_match lookup insert put text_eq Set.extend Set.insert Set.member mode_eq modify
finish_match-release_example =
    finish_match-release 1 70 (result_of 1 2) running_state refl hosts-IsRegistry (refl, tt) refl

abbrev acknowledged : AuthorityState town
acknowledged = (apply_match_result 1 (result_of 1 2) running_state).1

-- The server reports the other winner.
repeated_result_example :
    (apply_match_result 1 (result_of 2 1) acknowledged ≡ acknowledge 1 70 acknowledged)
    × (record (apply_match_result 1 (result_of 2 1) acknowledged).1 {
      controls = acknowledged.controls;
    }
        ≡ acknowledged)
unfolding complete lookup insert put text_eq Set.extend Set.insert Set.member mode_eq modify
repeated_result_example =
    repeated_result running_state acknowledged 1 1 70 (result_of 1 2) (result_of 2 1)
      ((λ j. refl), tt) (omega arith) refl refl refl refl

-- The server reports that the match 70, of which nobody has heard, is ready.
abbrev unpublished : AuthorityState town
unpublished = record running_state { player_match = []; player_proposal = (1, 30) ∷ (2, 30) ∷ [] }

abbrev ready_at : Text → LaunchResult
ready_at endpoint = record {
  match_id = some 70;
  state = text "Ready";
  endpoint = endpoint;
  connection_token = text "t";
}

launch_result-launch_result_example :
    let first = (launch_result 950 1 (ready_at (text "e")) unpublished).1 in
    let second = (launch_result 960 1 (ready_at (text "f")) first).1 in
    (second.events ≡ first.events)
    × (second.player_match ≡ first.player_match)
    × (second.player_proposal ≡ first.player_proposal)
    × (second.parties ≡ first.parties)
unfolding launch_result lookup is_blank
launch_result-launch_result_example =
    launch_result-launch_result 950 960 1 70 (ready_at (text "e")) (ready_at (text "f")) unpublished
      refl refl refl refl refl

-- Both players are told, and are in the match.
published_match :
    (launch_result 950 1 (ready_at (text "e")) unpublished).1.player_match ≡ (1, 70) ∷ (2, 70) ∷ []
unfolding launch_result lookup is_blank modify insert put
published_match = refl

-- The server 1 has accepted the match 70, and the match is launched.
abbrev accepted_state : AuthorityState town
accepted_state = record running_state {
  registry = hosts_at accepted;
  player_proposal = (1, 30) ∷ (2, 30) ∷ [];
  player_match = [];
}

accepted_state-HasTracked : HasTracked accepted_state
unfolding lookup
accepted_state-HasTracked = record {
  order =
      transition-IsRegistry hosts (hosts_at accepted) 1 70 accepted none none (host 1)
        (game running) hosts-IsRegistry refl refl refl transition_70;
  distinct = (refl, tt);
  once = λ m server id other e off. ground (arith, e, off);
}

-- The server gives the match back.
abbrev rejected_launch : ServerControl
rejected_launch = ServerControl.launch_result (record {
  match_id = some 70;
  state = text "Rejected";
  endpoint = text "";
  connection_token = text "";
})

abbrev after_rejection : AuthorityState town
after_rejection = (apply_server_control 950 1 1 [] (some rejected_launch) accepted_state).1

apply_server_control-IsTracked_example : HasTracked after_rejection
apply_server_control-IsTracked_example =
    apply_server_control-IsTracked 950 1 1 [] (some rejected_launch) accepted_state
      accepted_state-HasTracked

-- Both servers are lost, and the match 70 with them.
tick-IsTracked_example :
    HasTracked (drop_players 900000 accepted_state)
    × HasTracked (cancel_overdue 900000 accepted_state)
    × HasTracked (check_servers 900000 accepted_state)
    × HasTracked (time_out_launches 900000 accepted_state)
tick-IsTracked_example = tick-IsTracked 900000 accepted_state accepted_state-HasTracked
