-- ===== src/Authority/Client.antt =====
-- `client_state` of core/src/grpc/mod.rs, what a player is shown, behind `get_state`.
use elo_ranking_pairing_syst.Base.{ℕ, Option, none, some, List, [], if_some, if◌then◌else◌, ok, err}
use elo_ranking_pairing_syst.Base.Text.{Text}
use elo_ranking_pairing_syst.Base.Map.{lookup, nat_key, text_key}
use elo_ranking_pairing_syst.Components.{QueueMode}
use elo_ranking_pairing_syst.Proposal.{Proposal}
use elo_ranking_pairing_syst.Authority.{proposal_mode, credit_suspension_active}
use elo_ranking_pairing_syst.Authority.Messages.{
  unauthenticated, failed_precondition, ApiVersion, PlayerView, PartyView, Env,
}
use elo_ranking_pairing_syst.Authority.State.{
  AuthorityState, TicketRecord, Step, credit_of, player_view, party_view, check_api,
}
use elo_ranking_pairing_syst.Authority.Launch.{common_regions}

pub record ClientState : Type 0 where
  pub player_id : ℕ
  pub party : Option PartyView
  pub ticket_id : Option ℕ
  pub proposal_id : Option ℕ
  pub match_id : Option ℕ
  pub profile : PlayerView
  pub credit_suspended_until_ms : ℕ
  pub queue_mode : Option QueueMode
  pub allowed_regions : List Text
  pub proposal_deadline_ms : ℕ

module _ {env : Env} where
  -- The party that the player is in, and its ticket; the proposal.
  unfoldable pub ticket_of : AuthorityState env → ℕ → Option TicketRecord
  ticket_of s player =
      if_some (lookup player s.player_party)
        (λ id. if_some (lookup id s.parties) (λ p. lookup p.id s.tickets) none) none

  unfoldable pub proposal_of : AuthorityState env → ℕ → Option Proposal
  proposal_of s player =
      if_some (lookup player s.player_proposal) (λ id. lookup id s.proposals) none

  unfoldable pub proposal_regions : AuthorityState env → ℕ → List Text
  unfolding common_regions
  proposal_regions s player =
      if_some (lookup player s.player_proposal)
        (λ id. if_some (lookup id s.proposal_tickets) common_regions []) []

  unfoldable pub suspended_until : AuthorityState env → ℕ → ℕ → ℕ
  unfolding credit_suspension_active
  suspended_until s now player =
      if_some (lookup player s.credit_suspended_until)
        (λ deadline.
          if credit_suspension_active (credit_of s player) s.config.minimum_credit (some deadline)
            now
          then deadline
          else 0)
        0

  unfoldable pub client_state : AuthorityState env → ℕ → ℕ → ClientState
  unfolding ticket_of proposal_of proposal_regions suspended_until party_view player_view
      proposal_mode
  client_state s now player =
      let ticket = ticket_of s player in
      let proposal = proposal_of s player in
      record {
        player_id = player;
        party =
            if_some (lookup player s.player_party)
              (λ id. if_some (lookup id s.parties) (λ p. some (party_view s p)) none) none;
        ticket_id = if_some ticket (λ t. some t.id) none;
        proposal_id = lookup player s.player_proposal;
        match_id = lookup player s.player_match;
        profile = player_view s player;
        credit_suspended_until_ms = suspended_until s now player;
        queue_mode =
            if_some ticket (λ t. some t.mode) (if_some proposal (λ p. some (proposal_mode p)) none);
        allowed_regions = if_some ticket (λ t. t.regions) (proposal_regions s player);
        proposal_deadline_ms = if_some proposal (λ p. p.deadline) 0;
      }

  unfoldable pub show_state : Option ApiVersion → Text → ℕ → Step env ClientState
  unfolding check_api client_state
  show_state api token now s =
      if check_api api
      then if_some (lookup token s.sessions) (λ player. (ok (client_state s now player), s))
          (err unauthenticated, s)
      else (err failed_precondition, s)
