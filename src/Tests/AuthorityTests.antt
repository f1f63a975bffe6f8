-- ===== src/Tests/AuthorityTests.antt =====
-- The authority at concrete inputs: three players, two parties in the queue, two game servers.
use elo_ranking_pairing_syst.Base.{
  ℕ, Option, none, some, List, [], ◌∷◌, ◌++◌, ltb, length, if◌then◌else◌,
}
use elo_ranking_pairing_syst.Base.Text.{Text, text}
use elo_ranking_pairing_syst.Base.Map.{nat_key, text_key}
use elo_ranking_pairing_syst.Components.{one_vs_one, PartyState, accepted}
use elo_ranking_pairing_syst.Config.{default_config}
use elo_ranking_pairing_syst.Party.{Party}
use elo_ranking_pairing_syst.Proposal.{Proposal, awaiting_placement}
use elo_ranking_pairing_syst.Authority.Messages.{
  Env, ClientEvent, ErpsControl, MutationMeta, MatchResult,
}
use elo_ranking_pairing_syst.Authority.State.{AuthorityState, TicketRecord}
use elo_ranking_pairing_syst.Tests.PartyTests.{ascii}
use elo_ranking_pairing_syst.Tests.ServerTests.{hosts}
use elo_ranking_pairing_syst.Tests.ServiceTests.{integers}

abbrev pub town : Env
town = record {
  fl = integers;
  unicode = ascii;
  Events = List ClientEvent;
  send = λ tx event. tx ++ event ∷ [];
  Control = List ErpsControl;
  try_send = λ tx command. if ltb (length tx) 2 then some (tx ++ command ∷ []) else none;
}

abbrev pub party : ℕ → ℕ → PartyState → Party
party id leader state = record {
  id = id;
  name = text "P";
  leader = leader;
  members = leader ∷ [];
  revision = 1;
  state = state;
}

abbrev pub ticket : ℕ → TicketRecord
ticket id = record {
  id = id;
  mode = one_vs_one;
  regions = text "tw" ∷ [];
  enqueued_at = 5;
  queued_since_ms = 100;
}

-- Two parties in the queue, a third player without a party, two servers of which one is connected.
abbrev pub start : AuthorityState town
start = record {
  config = default_config integers;
  next_domain_id = 0;
  logical_clock = 7;
  sessions = (text "a", 1) ∷ (text "b", 2) ∷ (text "c", 3) ∷ [];
  current_session = (1, text "a") ∷ (2, text "b") ∷ (3, text "c") ∷ [];
  disconnect_deadlines = [];
  offline = [];
  parties = (10, party 10 1 PartyState.queued) ∷ (20, party 20 2 PartyState.queued) ∷ [];
  player_party = (1, 10) ∷ (2, 20) ∷ [];
  invites = [];
  tickets = (10, ticket 51) ∷ (20, ticket 52) ∷ [];
  request_cache = [];
  events = (1, []) ∷ (2, []) ∷ [];
  registry = hosts;
  proposals = [];
  player_proposal = [];
  controls = (1, []) ∷ [];
  launches = [];
  launch_deadlines = [];
  placement_waiting = [];
  proposal_tickets = [];
  credit = [];
  recent_credit_violations = [];
  credit_suspended_until = [];
  completed_since_credit_recovery = [];
  ratings = [];
  completed_games = [];
  pending_profile_saves = [];
  player_match = [];
  completed_match_results = record { results = []; order = [] };
  claims = [];
}

-- Both parties are in a proposal that both players accepted.
abbrev pub agreed : Proposal
agreed = record {
  id = 30;
  tickets = 51 ∷ 52 ∷ [];
  teams = (1 ∷ []) ∷ (2 ∷ []) ∷ [];
  parties = (1, 10) ∷ (2, 20) ∷ [];
  responses = (1, accepted) ∷ (2, accepted) ∷ [];
  deadline = 900;
  state = awaiting_placement;
}

abbrev pub proposed_state : AuthorityState town
proposed_state = record start {
  parties =
      (10, party 10 1 PartyState.awaiting_accept)
      ∷ (20, party 20 2 PartyState.awaiting_accept)
      ∷ [];
  tickets = [];
  proposals = (30, agreed) ∷ [];
  player_proposal = (1, 30) ∷ (2, 30) ∷ [];
  proposal_tickets = (30, (10, ticket 51) ∷ (20, ticket 52) ∷ []) ∷ [];
  claims = 51 ∷ 52 ∷ [];
}

-- The match 70 of that proposal runs on server 1.
abbrev pub running_state : AuthorityState town
running_state = record proposed_state {
  parties = (10, party 10 1 PartyState.matched) ∷ (20, party 20 2 PartyState.matched) ∷ [];
  player_proposal = [];
  player_match = (1, 70) ∷ (2, 70) ∷ [];
  launches = (70, (1, 30)) ∷ [];
}

abbrev pub result_of : ℕ → ℕ → MatchResult
result_of first second = record {
  match_id = some 70;
  placements =
      record { player_id = some 1; rank = first }
      ∷ record { player_id = some 2; rank = second }
      ∷ [];
}

abbrev pub sender : Text → Option MutationMeta
sender token = some (record {
  api = some (record { major = 1; minor = 0 });
  request_id = text "r1";
  session_token = token;
})
