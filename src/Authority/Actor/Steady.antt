-- ===== src/Authority/Actor/Steady.antt =====
-- What leaves the memberships as they are: the end and the launch of a proposal (`cancel_proposal`,
-- `launch`, `proposal_response` of core/src/grpc/mod.rs).
use elo_ranking_pairing_syst.Base.{ℕ, ◌≡◌, refl, Bool, true, false, Option, arith}
use elo_ranking_pairing_syst.Base.Map.{Map, nat_key}
use elo_ranking_pairing_syst.Components.{AcceptState}
use elo_ranking_pairing_syst.Party.{Party}
use elo_ranking_pairing_syst.Proposal.{
  Proposal, ProposalState, RequeueDecision, awaiting_accept, awaiting_placement, cancelled,
}
use elo_ranking_pairing_syst.Authority.Messages.{Env}
use elo_ranking_pairing_syst.Authority.State.{AuthorityState, TicketRecord, emit_party, next_uuid}
use elo_ranking_pairing_syst.Authority.Requests.Membership.{
  Members, members_of, members_of-modify, IsConsistent,
}
use elo_ranking_pairing_syst.Authority.Cancel.{
  charge, notify_cancelled, dismiss, put_back, return_ticket, emit_one, save_profile,
  clear_proposal, cancel_proposal,
}
use elo_ranking_pairing_syst.Authority.Cancel.Keeps.{cancel_proposal_keeps}
use elo_ranking_pairing_syst.Authority.Launch.{start_launch, place_launch, send_launch, released}
use elo_ranking_pairing_syst.Authority.Respond.{await_placement, follow_up, proposal_response}

put_back_members : (failed : Bool) (p : Party) → (put_back failed p).members ≡ p.members
unfolding put_back
put_back_members failed p = refl

module _ {env : Env} where
  abbrev pub HasConsistent : AuthorityState env → Type 0
  HasConsistent s = IsConsistent (members_of s.parties) s.player_party

  abbrev pub belonging : AuthorityState env → Members × Map ℕ ℕ
  belonging s = (members_of s.parties, s.player_party)

  belonging-dismiss :
      (now id : ℕ) (infrastructure : Bool) (d : RequeueDecision) (s : AuthorityState env)
      → belonging (dismiss now id infrastructure d s) ≡ belonging s
  unfolding dismiss charge notify_cancelled
  belonging-dismiss now id infrastructure d s = ground arith

  belonging-return_ticket :
      (responses : Map ℕ AcceptState) (infrastructure : Bool) (t : ℕ × TicketRecord)
      (s : AuthorityState env)
      → belonging (return_ticket responses infrastructure t s) ≡ belonging s
  unfolding return_ticket
  belonging-return_ticket responses infrastructure (id, t) s = ground (
    arith,
    members_of-modify id (put_back true) s.parties (put_back_members true),
    members_of-modify id (put_back false) s.parties (put_back_members false),
  )

  belonging-emit_one : (id : ℕ) (s : AuthorityState env) → belonging (emit_one id s) ≡ belonging s
  unfolding emit_one emit_party
  belonging-emit_one id s = ground arith

  belonging-save_profile :
      (player : ℕ) (s : AuthorityState env) → belonging (save_profile player s) ≡ belonging s
  unfolding save_profile
  belonging-save_profile player s = refl

  belonging-clear_proposal :
      (id : ℕ) (p : Proposal) (s : AuthorityState env)
      → belonging (clear_proposal id p s) ≡ belonging s
  unfolding clear_proposal
  belonging-clear_proposal id p s = refl

  pub belonging-cancel_proposal :
      (now id : ℕ) (infrastructure : Bool) (s : AuthorityState env)
      → belonging (cancel_proposal now id infrastructure s) ≡ belonging s
  belonging-cancel_proposal now id infrastructure s =
      cancel_proposal_keeps belonging now id infrastructure (belonging-clear_proposal id)
        (belonging-dismiss now id infrastructure)
        (λ responses. belonging-return_ticket responses infrastructure) belonging-emit_one
        belonging-save_profile s

  belonging-start_launch :
      (now id : ℕ) (s : AuthorityState env) → belonging (start_launch now id s).1 ≡ belonging s
  unfolding start_launch place_launch send_launch released next_uuid
  belonging-start_launch now id s = ground arith

  belonging-follow_up :
      (now id : ℕ) (state : ProposalState) (s : AuthorityState env)
      → belonging (follow_up now id state s).1 ≡ belonging s
  unfolding follow_up await_placement
  belonging-follow_up now id awaiting_accept s = refl
  belonging-follow_up now id cancelled s = belonging-cancel_proposal now id false s
  belonging-follow_up now id awaiting_placement s = ground (arith, belonging-start_launch now id s)

  pub belonging-proposal_response :
      (id : Option ℕ) (accept : Bool) (now player : ℕ) (s : AuthorityState env)
      → belonging (proposal_response id accept now player s).1 ≡ belonging s
  unfolding proposal_response
  belonging-proposal_response id accept now player s = grind (arith, belonging-follow_up)
