-- ===== src/Tests/ProposalTests.antt =====
-- Ready checks at concrete inputs.
use elo_ranking_pairing_syst.Base.{ℕ, ◌≡◌, refl, ◌≢◌, true, false, [], ◌∷◌}
use elo_ranking_pairing_syst.Base.Int.{pos}
use elo_ranking_pairing_syst.Base.Map.{Map, lookup, insert, modify, put, nat_key}
use elo_ranking_pairing_syst.Components.{pending, accepted}
use elo_ranking_pairing_syst.Matching.{Candidate}
use elo_ranking_pairing_syst.Proposal.{
  Proposal, awaiting_accept, awaiting_placement, flatten, collect_pending, from_candidate,
  cancellation_decisions, answer, settle, respond,
}
use elo_ranking_pairing_syst.Proposal.Events.{
  answered, clock, step, run, IsValid, from_candidate-run-IsValid,
}
use elo_ranking_pairing_syst.Proposal.Agreement.{accepts, run-accepts-from_candidate}
use elo_ranking_pairing_syst.Proposal.Decisions.{
  players, AllRight, cancellation_decisions-players, cancellation_decisions-AllRight,
}

abbrev duel : Candidate
duel = record {
  tickets = 5 ∷ 6 ∷ [];
  teams = (1 ∷ []) ∷ (2 ∷ []) ∷ [];
  oldest_enqueued_at = 0;
  quality_key = (pos 0, pos 0, pos 0);
  owner_shard = 0;
}

abbrev parties : Map ℕ ℕ
parties = (1, 50) ∷ (2, 60) ∷ []

abbrev waiting : Proposal
waiting = record {
  id = 9;
  tickets = 5 ∷ 6 ∷ [];
  teams = (1 ∷ []) ∷ (2 ∷ []) ∷ [];
  parties = parties;
  responses = (1, accepted) ∷ (2, pending) ∷ [];
  deadline = 15;
  state = awaiting_accept;
}

roster_shows : collect_pending (flatten duel.teams) ≢ []
unfolding collect_pending flatten insert lookup modify put
roster_shows e = cc

-- The test `all_accept_before_placement` of core/src/proposal.rs.
places : (run (from_candidate 9 duel [] 10 15) (accepts 9 (1 ∷ 2 ∷ []))).state ≡ awaiting_placement
unfolding run step respond settle answer from_candidate insert lookup modify put
places = refl

from_candidate-run-IsValid_example :
    IsValid (run (from_candidate 9 duel parties 0 15) (answered 9 1 true ∷ clock 16 ∷ []))
from_candidate-run-IsValid_example =
    from_candidate-run-IsValid 9 duel parties 0 15 (answered 9 1 true ∷ clock 16 ∷ []) roster_shows

run-accepts-from_candidate_example :
    (run (from_candidate 9 duel parties 0 15) (accepts 9 (2 ∷ 2 ∷ 1 ∷ []))).state
    ≡ awaiting_placement
unfolding flatten
run-accepts-from_candidate_example =
    run-accepts-from_candidate 9 duel parties 0 15 (2 ∷ 2 ∷ 1 ∷ []) roster_shows (refl, (refl, tt))

cancellation_decisions-players_example : players (cancellation_decisions waiting false) ≡ 1 ∷ 2 ∷ []
cancellation_decisions-players_example = cancellation_decisions-players waiting false

cancellation_decisions-AllRight_example :
    AllRight waiting true waiting.responses (cancellation_decisions waiting true)
cancellation_decisions-AllRight_example = cancellation_decisions-AllRight waiting true
