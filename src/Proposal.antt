-- ===== src/Proposal.antt =====
-- core/src/proposal.rs: the ready check of a proposed match.
pub mod Check
pub mod Events
pub mod Agreement
pub mod Decisions
use elo_ranking_pairing_syst.Base.{
  ℕ, ◌+◌, ◌≡◌, Bool, true, false, not, ◌&&◌, ◌||◌, Option, none, some, List, [], ◌∷◌, ◌++◌, map,
  ◌==◌, leb, if◌then◌else◌, any, all, retain, contains, is_some_and, Result, ok, err,
}
use elo_ranking_pairing_syst.Base.Word.{u64_max, saturating_add}
use elo_ranking_pairing_syst.Base.Map.{Map, lookup, insert, modify, values, map_values, nat_key}
use elo_ranking_pairing_syst.Components.{
  AcceptState, pending, accepted, rejected, timed_out, is_pending, is_accepted, is_rejected,
  is_failed,
}
use elo_ranking_pairing_syst.Credit.{CreditCause, infrastructure_failure}
use elo_ranking_pairing_syst.Matching.{Candidate}

pub data ProposalState : Type 0 where
  awaiting_accept awaiting_placement cancelled : ProposalState

pub record Proposal : Type 0 where
  pub id : ℕ
  pub tickets : List ℕ
  pub teams : List (List ℕ)
  pub parties : Map ℕ ℕ
  pub responses : Map ℕ AcceptState
  pub deadline : ℕ
  pub state : ProposalState

pub data ProposalError : Type 0 where
  stale unknown_player : ProposalError

abbrev pub is_awaiting_accept : ProposalState → Bool
is_awaiting_accept awaiting_accept = true
is_awaiting_accept _ = false

unfoldable pub flatten : List (List ℕ) → List ℕ
flatten [] = []
flatten (team ∷ teams) = team ++ flatten teams

-- `.map(|p| (*p, AcceptState::Pending)).collect()`
unfoldable pub collect_pending : List ℕ → Map ℕ AcceptState
collect_pending [] = []
collect_pending (p ∷ ps) = insert p pending (collect_pending ps)

-- `id` is the fresh identifier.
unfoldable pub from_candidate : ℕ → Candidate → Map ℕ ℕ → ℕ → ℕ → Proposal
unfolding flatten collect_pending
from_candidate id c parties now timeout = record {
  id = id;
  tickets = c.tickets;
  teams = c.teams;
  parties = parties;
  responses = collect_pending (flatten c.teams);
  deadline = saturating_add u64_max now timeout;
  state = awaiting_accept;
}

-- The first answer of a player counts.
unfoldable pub answer : Bool → AcceptState → AcceptState
answer accept state = if is_pending state then (if accept then accepted else rejected) else state

-- The end of `respond`: what the answers amount to.
unfoldable pub settle : Proposal → Proposal
settle p =
    if any is_rejected (values p.responses)
    then record p { state = cancelled }
    else if all is_accepted (values p.responses)
    then record p { state = awaiting_placement }
    else p

-- The proposal afterwards, and its state.
unfoldable pub respond : Proposal → ℕ → ℕ → Bool → Result (Proposal × ProposalState) ProposalError
respond p id player accept =
    if not (id == p.id) || not (is_awaiting_accept p.state)
    then err stale
    else elim (lookup player p.responses) [
      | none ↦ err unknown_player
      | some state ↦
          let p' = settle (record p { responses = modify player (answer accept) p.responses }) in
          ok (p', p'.state)
    ]

abbrev pub time_out : AcceptState → AcceptState
time_out pending = timed_out
time_out other = other

unfoldable pub expire : Proposal → ℕ → Proposal × Bool
expire p now =
    if not (is_awaiting_accept p.state) || leb now p.deadline
    then (p, false)
    else (record p { responses = map_values time_out p.responses; state = cancelled }, true)

pub record RequeueDecision : Type 0 where
  pub player : ℕ
  pub requeue : Bool
  pub party_not_ready : Bool
  pub credit_cause : Option CreditCause

-- The parties of the players that rejected or timed out.
unfoldable pub failed_parties : Map ℕ ℕ → Map ℕ AcceptState → List ℕ
failed_parties parties [] = []
failed_parties parties ((player, state) ∷ rest) =
    let others = failed_parties parties rest in
    if is_failed state
    then elim (lookup player parties) [ none ↦ others | some party ↦ party ∷ others ]
    else others

unfoldable pub credit_cause : Bool → AcceptState → Option CreditCause
credit_cause infra state = if infra then some infrastructure_failure else elim state [
  | rejected ↦ some CreditCause.rejected
  | timed_out ↦ some CreditCause.timed_out
  | _ ↦ none
]

unfoldable pub decide : Map ℕ ℕ → List ℕ → Bool → ℕ × AcceptState → RequeueDecision
unfolding credit_cause
decide parties failed infra (player, state) =
    let affected = is_some_and (lookup player parties) (λ party. contains party failed) in
    record {
      player = player;
      requeue = not affected && not (is_failed state);
      party_not_ready = affected;
      credit_cause = credit_cause infra state;
    }

unfoldable pub cancellation_decisions : Proposal → Bool → List RequeueDecision
unfolding decide failed_parties
cancellation_decisions p infra =
    map (decide p.parties (failed_parties p.parties p.responses) infra) p.responses
