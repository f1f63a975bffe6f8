-- ===== src/Authority/Respond.antt =====
-- `proposal_response` of core/src/grpc/mod.rs, behind `accept_match` and `reject_match`.
use elo_ranking_pairing_syst.Base.{
  ℕ, Bool, true, false, not, ◌==◌, Option, is_some_and, Result, ok, err, if◌then◌else◌,
}
use elo_ranking_pairing_syst.Base.Text.{text}
use elo_ranking_pairing_syst.Base.Map.{lookup, insert, nat_key}
use elo_ranking_pairing_syst.Proposal as Proposal
use elo_ranking_pairing_syst.Proposal.{
  ProposalState, awaiting_accept, awaiting_placement, cancelled,
}
use elo_ranking_pairing_syst.Authority.Messages.{
  Status, invalid_argument, failed_precondition, not_found, unavailable, OperationResult, Env,
}
use elo_ranking_pairing_syst.Authority.State.{
  AuthorityState, Step, ◌>>=◌, ◌>>◌, give, get_state, set_state, refuse_if, found, map_err,
}
use elo_ranking_pairing_syst.Authority.Cancel.{cancel_proposal}
use elo_ranking_pairing_syst.Authority.Launch.{start_launch, placement_deadline}

module _ {env : Env} where
  -- What becomes of the launch that the last acceptance starts.
  unfoldable pub await_placement :
      ℕ → ℕ → Result ℕ Status × AuthorityState env → Result (Unit {0}) Status × AuthorityState env
  await_placement now proposal_id (ok match_id, s) = (ok tt, s)
  await_placement now proposal_id (err unavailable, s) = (
    ok tt,
    record s {
      placement_waiting = insert proposal_id (placement_deadline s now) s.placement_waiting;
    },
  )
  await_placement now proposal_id (err e, s) = (err e, s)

  -- What follows from the state of the proposal.
  unfoldable pub follow_up : ℕ → ℕ → ProposalState → Step env (Unit {0})
  unfolding cancel_proposal start_launch await_placement
  follow_up now proposal_id awaiting_accept s = (ok tt, s)
  follow_up now proposal_id cancelled s = (ok tt, cancel_proposal now proposal_id false s)
  follow_up now proposal_id awaiting_placement s =
      await_placement now proposal_id (start_launch now proposal_id s)

  unfoldable pub proposal_response : Option ℕ → Bool → ℕ → ℕ → Step env OperationResult
  unfolding Proposal.respond follow_up
  proposal_response id accept now player = do
    s ← get_state
    proposal_id ← found id invalid_argument
    let current = lookup player s.player_proposal
    refuse_if (not (is_some_and current (λ p. p == proposal_id))) failed_precondition
    proposal ← found (lookup proposal_id s.proposals) not_found
    (proposal', state) ←
        map_err failed_precondition (Proposal.respond proposal proposal_id player accept)
    set_state (record s { proposals = insert proposal_id proposal' s.proposals })
    follow_up now proposal_id state
    give (record {
      accepted = true;
      code = if accept then text "ACCEPTED" else text "REJECTED";
      entity_id = proposal_id;
      revision = 0;
    })
