-- ===== src/Authority/Cancel.antt =====
-- `cancel_proposal` of core/src/grpc/mod.rs: what a cancelled match costs its players, and how their
-- parties go back to the queue.
pub mod Keeps
pub mod Effects
pub mod Tickets
use elo_ranking_pairing_syst.Base.{
  ℕ, ◌+◌, ◌*◌, Bool, true, false, not, ◌&&◌, ◌||◌, Option, none, some, List, [], ◌∷◌, ◌++◌, map,
  any, is_some_and, unwrap_or, if_some, for_each, if◌then◌else◌,
}
use elo_ranking_pairing_syst.Base.Word.{u64_max, saturating_add, saturating_mul}
use elo_ranking_pairing_syst.Base.Map.{Map, lookup, insert, modify, remove, nat_key}
use elo_ranking_pairing_syst.Base.Set as Set
use elo_ranking_pairing_syst.Components.{PartyState, AcceptState, is_failed}
use elo_ranking_pairing_syst.Credit as Credit
use elo_ranking_pairing_syst.Credit.{CreditCause, CreditPolicy, default_policy, is_violation}
use elo_ranking_pairing_syst.Matching.Claims as Claims
use elo_ranking_pairing_syst.Party.{Party}
use elo_ranking_pairing_syst.Proposal.{Proposal, RequeueDecision, cancellation_decisions}
use elo_ranking_pairing_syst.Authority.{credit_suspension_active}
use elo_ranking_pairing_syst.Authority.Messages.{CancelReason, proposal_cancelled, Env}
use elo_ranking_pairing_syst.Authority.State.{
  AuthorityState, TicketRecord, credit_of, send_to, emit_party, current_profile,
}

abbrev pub reason_of : RequeueDecision → CancelReason
reason_of d = elim d.credit_cause [
  | some CreditCause.rejected ↦ CancelReason.rejected
  | some CreditCause.timed_out ↦ CancelReason.timed_out
  | some CreditCause.infrastructure_failure ↦ CancelReason.infrastructure_failure
  | some CreditCause.completed_match ↦ CancelReason.completed
  | none ↦
      if d.party_not_ready
      then CancelReason.party_member_failed
      else CancelReason.other_player_failed
]

-- Whether a member of the party rejected or timed out.
unfoldable pub party_failed : Map ℕ AcceptState → Party → Bool
party_failed responses p = any (λ player. is_some_and (lookup player responses) is_failed) p.members

-- What one party's state becomes.
unfoldable pub put_back : Bool → Party → Party
put_back failed p = record p {
  state = if failed then PartyState.not_ready else PartyState.queued;
  revision = saturating_add u64_max p.revision 1;
}

module _ {env : Env} where
  abbrev pub cancel_policy : AuthorityState env → CreditPolicy
  cancel_policy s = record default_policy {
    reject_penalty = s.config.reject_credit_penalty;
    timeout_penalty = s.config.timeout_credit_penalty;
    minimum = s.config.minimum_credit;
  }

  -- A player who rejected or timed out pays.
  unfoldable pub charge : ℕ → ℕ → CreditCause → AuthorityState env → AuthorityState env
  unfolding Credit.apply
  charge now player cause s =
      let violations = unwrap_or 0 (lookup player s.recent_credit_violations) in
      let outcome = Credit.apply (credit_of s player) violations 0 cause (cancel_policy s) in
      let base = s.config.credit_suspension_base_seconds in
      let length =
        saturating_mul u64_max (saturating_mul u64_max base outcome.suspension_steps) 1000 in
      record s {
        recent_credit_violations =
            insert player outcome.suspension_steps s.recent_credit_violations;
        credit = insert player outcome.score s.credit;
        completed_since_credit_recovery = insert player 0 s.completed_since_credit_recovery;
        credit_suspended_until =
            if outcome.eligible
            then s.credit_suspended_until
            else insert player (saturating_add u64_max now length) s.credit_suspended_until;
      }

  unfoldable pub notify_cancelled :
      ℕ → ℕ → RequeueDecision → AuthorityState env → AuthorityState env
  unfolding credit_suspension_active
  notify_cancelled now proposal_id d s =
      let suspended_until = unwrap_or 0 (lookup d.player s.credit_suspended_until) in
      let credit = credit_of s d.player in
      let minimum = s.config.minimum_credit in
      let event = proposal_cancelled (record {
        proposal_id = proposal_id;
        reason = reason_of d;
        credit = credit;
        eligible = not (credit_suspension_active credit minimum (some suspended_until) now);
        credit_suspended_until_ms = suspended_until;
      }) in
      record s { events = send_to env event d.player s.events }

  -- One turn of the loop over the decisions.
  unfoldable pub dismiss : ℕ → ℕ → Bool → RequeueDecision → AuthorityState env → AuthorityState env
  unfolding charge notify_cancelled
  dismiss now proposal_id infrastructure d s =
      let freed = record s { player_proposal = remove d.player s.player_proposal } in
      let charged =
        if_some d.credit_cause
          (λ cause.
            if not infrastructure && is_violation cause
            then charge now d.player cause freed
            else freed)
          freed in
      notify_cancelled now proposal_id d charged

  -- One turn of the loop over the tickets that were saved.
  unfoldable pub return_ticket :
      Map ℕ AcceptState → Bool → ℕ × TicketRecord → AuthorityState env → AuthorityState env
  unfolding party_failed put_back
  return_ticket responses infrastructure (party_id, ticket) s =
      if_some (lookup party_id s.parties)
        (λ p.
          let failed = party_failed responses p && not infrastructure in
          record s {
            parties = modify party_id (put_back failed) s.parties;
            tickets = if failed then s.tickets else insert party_id ticket s.tickets;
          })
        s

  -- The parties of the players.
  unfoldable pub parties_of : AuthorityState env → List ℕ → List ℕ
  parties_of s [] = []
  parties_of s (player ∷ players) =
      let rest = parties_of s players in
      if_some (lookup player s.player_party) (λ id. Set.insert id rest) rest

  unfoldable pub emit_one : ℕ → AuthorityState env → AuthorityState env
  unfolding emit_party
  emit_one id s = if_some (lookup id s.parties) (emit_party s) s

  unfoldable pub save_profile : ℕ → AuthorityState env → AuthorityState env
  unfolding current_profile
  save_profile player s = record s {
    pending_profile_saves = s.pending_profile_saves ++ (player, current_profile s player) ∷ [];
  }

  -- The proposal's tickets are free, and it waits for nothing.
  unfoldable pub clear_proposal : ℕ → Proposal → AuthorityState env → AuthorityState env
  unfolding Claims.release
  clear_proposal proposal_id proposal s = record s {
    proposal_tickets = remove proposal_id s.proposal_tickets;
    claims = Claims.release s.claims proposal.tickets;
    placement_waiting = remove proposal_id s.placement_waiting;
  }

  -- The players are let go, and their parties go back.
  unfoldable pub dissolve : ℕ → ℕ → Bool → Proposal → AuthorityState env → AuthorityState env
  unfolding cancellation_decisions clear_proposal dismiss return_ticket
  dissolve now proposal_id infrastructure p s =
      let saved = unwrap_or [] (lookup proposal_id s.proposal_tickets) in
      for_each (return_ticket p.responses infrastructure) saved (
        for_each (dismiss now proposal_id infrastructure) (cancellation_decisions p infrastructure)
          (clear_proposal proposal_id p s))

  -- The parties and the profiles of the players, as they are then.
  unfoldable pub announce : List ℕ → AuthorityState env → AuthorityState env
  unfolding parties_of emit_one save_profile
  announce players s = for_each save_profile players (for_each emit_one (parties_of s players) s)

  unfoldable pub cancel_proposal : ℕ → ℕ → Bool → AuthorityState env → AuthorityState env
  unfolding cancellation_decisions dissolve announce
  cancel_proposal now proposal_id infrastructure s =
      if_some (lookup proposal_id s.proposals)
        (λ p.
          announce (map (λ d. d.player) (cancellation_decisions p infrastructure))
            (dissolve now proposal_id infrastructure p s))
        s
