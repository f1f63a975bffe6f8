-- ===== src/Authority/Cancel/Effects.antt =====
-- What `cancel_proposal` of core/src/grpc/mod.rs does to players, parties, tickets and credit.
use elo_ranking_pairing_syst.Base.{
  ℕ, ◌≡◌, refl, ◌∙◌, Bool, true, not, ◌&&◌, ==_iff, none, some, List, [], ◌∷◌, map, contains, arith,
  for_each, if◌then◌else◌,
}
use elo_ranking_pairing_syst.Base.Map.{Map, lookup, remove, keys, nat_key, IsMap}
use elo_ranking_pairing_syst.Base.Map.Laws.{lookup-remove_self, lookup-remove_ne, remove-IsMap}
use elo_ranking_pairing_syst.Base.Set as Set
use elo_ranking_pairing_syst.Components.{AcceptState}
use elo_ranking_pairing_syst.Matching.Claims as Claims
use elo_ranking_pairing_syst.Proposal.{
  Proposal, RequeueDecision, cancellation_decisions, decide, failed_parties,
}
use elo_ranking_pairing_syst.Authority.Messages.{Env}
use elo_ranking_pairing_syst.Authority.State.{AuthorityState, TicketRecord, emit_party}
use elo_ranking_pairing_syst.Authority.Cancel.{
  charge, notify_cancelled, dismiss, return_ticket, emit_one, save_profile, clear_proposal,
  cancel_proposal,
}
use elo_ranking_pairing_syst.Authority.Cancel.Keeps.{
  cancel_proposal_keeps, cancel_proposal_dismisses,
}

contains-decided :
    (k : ℕ) (parties : Map ℕ ℕ) (failed : List ℕ) (infrastructure : Bool)
    (responses : Map ℕ AcceptState)
    → contains k (
        map
          (λ (d : RequeueDecision). d.player)
          (map (decide parties failed infrastructure) responses))
      ≡ contains k (keys responses)
unfolding decide
contains-decided k parties failed infrastructure [] = refl
contains-decided k parties failed infrastructure ((j, a) ∷ responses) =
    ground (arith, contains-decided k parties failed infrastructure responses)

module _ {env : Env} where
  abbrev pub charged : AuthorityState env → Map ℕ ℕ × Map ℕ ℕ × Map ℕ ℕ × Map ℕ ℕ
  charged s = (
    s.credit, s.recent_credit_violations, s.credit_suspended_until,
    s.completed_since_credit_recovery,
  )

  charged-dismiss :
      (now id : ℕ) (d : RequeueDecision) (s : AuthorityState env)
      → charged (dismiss now id true d s) ≡ charged s
  unfolding dismiss notify_cancelled
  charged-dismiss now id d s = ground arith

  charged-return_ticket :
      (responses : Map ℕ AcceptState) (infrastructure : Bool) (t : ℕ × TicketRecord)
      (s : AuthorityState env)
      → charged (return_ticket responses infrastructure t s) ≡ charged s
  unfolding return_ticket
  charged-return_ticket responses infrastructure (id, t) s = ground arith

  charged-emit_one : (id : ℕ) (s : AuthorityState env) → charged (emit_one id s) ≡ charged s
  unfolding emit_one emit_party
  charged-emit_one id s = ground arith

  -- A match that is cancelled for want of a server costs no player anything.
  pub cancel_proposal-charged :
      (now id : ℕ) (s : AuthorityState env) → charged (cancel_proposal now id true s) ≡ charged s
  cancel_proposal-charged now id s =
      cancel_proposal_keeps charged now id true (λ p t. unfold clear_proposal in refl)
        (charged-dismiss now id) (λ r. charged-return_ticket r true) charged-emit_one
        (λ k t. unfold save_profile in refl) s

  -- The players' proposals and the claims, through the parts.
  freed-dismiss :
      (now id : ℕ) (infrastructure : Bool) (d : RequeueDecision) (s : AuthorityState env)
      → ((dismiss now id infrastructure d s).player_proposal ≡ remove d.player s.player_proposal)
        × ((dismiss now id infrastructure d s).claims ≡ s.claims)
  unfolding dismiss charge notify_cancelled
  freed-dismiss now id infrastructure d s = ground arith

  abbrev freed : AuthorityState env → Map ℕ ℕ × Claims.Claims
  freed s = (s.player_proposal, s.claims)

  freed-return_ticket :
      (responses : Map ℕ AcceptState) (infrastructure : Bool) (t : ℕ × TicketRecord)
      (s : AuthorityState env)
      → freed (return_ticket responses infrastructure t s) ≡ freed s
  unfolding return_ticket
  freed-return_ticket responses infrastructure (id, t) s = ground arith

  freed-emit_one : (id : ℕ) (s : AuthorityState env) → freed (emit_one id s) ≡ freed s
  unfolding emit_one emit_party
  freed-emit_one id s = ground arith

  -- After the loop over the decisions their players are free and all others are as they were.
  freed-dismiss_all :
      (now id : ℕ) (infrastructure : Bool) (k : ℕ) (ds : List RequeueDecision)
      (s : AuthorityState env)
      → IsMap s.player_proposal
      → let after = for_each (dismiss now id infrastructure) ds s in
        (lookup k after.player_proposal ≡ (
          if contains k (map (λ (d : RequeueDecision). d.player) ds)
          then none
          else lookup k s.player_proposal))
        × (after.claims ≡ s.claims)
  freed-dismiss_all now id infrastructure k [] s w = (refl, refl)
  freed-dismiss_all now id infrastructure k (d ∷ ds) s w =
      let next = dismiss now id infrastructure d s in
      let step = freed-dismiss now id infrastructure d s in
      let rest =
        freed-dismiss_all now id infrastructure k ds next
          (rw (step.0) (remove-IsMap d.player s.player_proposal w)) in
      (
        ground (
          arith,
          rest.0,
          step.0,
          lookup-remove_self d.player s.player_proposal w,
          lookup-remove_ne d.player k s.player_proposal,
          ==_iff d.player k,
        ),
        rest.1 ∙ step.1,
      )

  -- A proposal that is cancelled lets its players go and no others, and gives back its tickets and no
  -- others, whether it failed for a player or for want of a server.
  pub cancel_proposal-freed :
      (now id : ℕ) (infrastructure : Bool) (p : Proposal) (s : AuthorityState env)
      → lookup id s.proposals ≡ some p
      → IsMap s.player_proposal
      → let after = cancel_proposal now id infrastructure s in
        ((k : ℕ)
          → lookup k after.player_proposal
            ≡ (if contains k (keys p.responses) then none else lookup k s.player_proposal))
        × ((j : ℕ)
            → Set.member j after.claims ≡ not (Set.member j p.tickets) && Set.member j s.claims)
  unfolding clear_proposal cancellation_decisions Claims.release
  cancel_proposal-freed now id infrastructure p s e w =
      let ds = cancellation_decisions p infrastructure in
      let cleared = clear_proposal id p s in
      let rest =
        cancel_proposal_dismisses freed freed-emit_one (λ k t. unfold save_profile in refl) now id
          infrastructure (λ r. freed-return_ticket r infrastructure) p s e in
      (
        λ k. ground (
          arith,
          rest,
          (freed-dismiss_all now id infrastructure k ds cleared w).0,
          contains-decided k p.parties (failed_parties p.parties p.responses) infrastructure
              p.responses,
        ),
        λ j. ground (
          arith,
          rest,
          (freed-dismiss_all now id infrastructure j ds cleared w).1,
          Set.member-remove_all j s.claims p.tickets,
        ),
      )
