-- ===== src/Authority/Actor/Frame.antt =====
-- What no request but the log of answers changes: the sessions, the configuration and, but for the
-- request itself, the answers remembered (core/src/grpc/mod.rs).
use elo_ranking_pairing_syst.Base.{ℕ, ◌≡◌, refl, Bool, false, Option, List, arith}
use elo_ranking_pairing_syst.Base.Text.{Text}
use elo_ranking_pairing_syst.Base.Map.{Map, nat_key}
use elo_ranking_pairing_syst.Config.{ErpsConfig}
use elo_ranking_pairing_syst.Components.{AcceptState}
use elo_ranking_pairing_syst.Proposal.{
  Proposal, ProposalState, RequeueDecision, awaiting_accept, awaiting_placement, cancelled,
}
use elo_ranking_pairing_syst.Authority.Messages.{OperationResult, Env}
use elo_ranking_pairing_syst.Authority.State.{AuthorityState, TicketRecord, emit_party, next_uuid}
use elo_ranking_pairing_syst.Authority.Cancel.{
  charge, notify_cancelled, dismiss, return_ticket, emit_one, save_profile, clear_proposal,
  cancel_proposal,
}
use elo_ranking_pairing_syst.Authority.Cancel.Keeps.{cancel_proposal_keeps}
use elo_ranking_pairing_syst.Authority.Launch.{start_launch, place_launch, send_launch, released}
use elo_ranking_pairing_syst.Authority.Requests as Requests
use elo_ranking_pairing_syst.Authority.Respond.{await_placement, follow_up, proposal_response}
use elo_ranking_pairing_syst.Authority.Actor.{Action, perform}

module _ {env : Env} where
  abbrev pub frame :
      AuthorityState env → Map Text ℕ × ErpsConfig env.fl × Map (ℕ × Text) OperationResult
  frame s = (s.sessions, s.config, s.request_cache)

  frame-dismiss :
      (now id : ℕ) (infrastructure : Bool) (d : RequeueDecision) (s : AuthorityState env)
      → frame (dismiss now id infrastructure d s) ≡ frame s
  unfolding dismiss charge notify_cancelled
  frame-dismiss now id infrastructure d s = ground arith

  frame-return_ticket :
      (responses : Map ℕ AcceptState) (infrastructure : Bool) (t : ℕ × TicketRecord)
      (s : AuthorityState env)
      → frame (return_ticket responses infrastructure t s) ≡ frame s
  unfolding return_ticket
  frame-return_ticket responses infrastructure (id, t) s = ground arith

  frame-emit_one : (id : ℕ) (s : AuthorityState env) → frame (emit_one id s) ≡ frame s
  unfolding emit_one emit_party
  frame-emit_one id s = ground arith

  frame-save_profile :
      (player : ℕ) (s : AuthorityState env) → frame (save_profile player s) ≡ frame s
  unfolding save_profile
  frame-save_profile player s = refl

  frame-clear_proposal :
      (id : ℕ) (p : Proposal) (s : AuthorityState env) → frame (clear_proposal id p s) ≡ frame s
  unfolding clear_proposal
  frame-clear_proposal id p s = refl

  pub frame-cancel_proposal :
      (now id : ℕ) (infrastructure : Bool) (s : AuthorityState env)
      → frame (cancel_proposal now id infrastructure s) ≡ frame s
  frame-cancel_proposal now id infrastructure s =
      cancel_proposal_keeps frame now id infrastructure (frame-clear_proposal id)
        (frame-dismiss now id infrastructure)
        (λ responses. frame-return_ticket responses infrastructure) frame-emit_one
        frame-save_profile s

  frame-start_launch :
      (now id : ℕ) (s : AuthorityState env) → frame (start_launch now id s).1 ≡ frame s
  unfolding start_launch place_launch send_launch released next_uuid
  frame-start_launch now id s = ground arith

  frame-follow_up :
      (now id : ℕ) (state : ProposalState) (s : AuthorityState env)
      → frame (follow_up now id state s).1 ≡ frame s
  unfolding follow_up await_placement
  frame-follow_up now id awaiting_accept s = refl
  frame-follow_up now id cancelled s = frame-cancel_proposal now id false s
  frame-follow_up now id awaiting_placement s = ground (arith, frame-start_launch now id s)

  frame-create_party :
      (name : Text) (player : ℕ) (s : AuthorityState env)
      → frame (Requests.create_party name player s).1 ≡ frame s
  unfolding Requests.create_party emit_party next_uuid
  frame-create_party name player s = ground arith

  frame-join_party :
      (token : Text) (now : ℕ) (player : ℕ) (s : AuthorityState env)
      → frame (Requests.join_party token now player s).1 ≡ frame s
  unfolding Requests.join_party emit_party
  frame-join_party token now player s = ground arith

  frame-leave_party :
      (id : Option ℕ) (revision : ℕ) (player : ℕ) (s : AuthorityState env)
      → frame (Requests.leave_party id revision player s).1 ≡ frame s
  unfolding Requests.leave_party emit_party
  frame-leave_party id revision player s = ground arith

  frame-kick_member :
      (id target : Option ℕ) (revision : ℕ) (player : ℕ) (s : AuthorityState env)
      → frame (Requests.kick_member id target revision player s).1 ≡ frame s
  unfolding Requests.kick_member emit_party
  frame-kick_member id target revision player s = ground arith

  frame-rename_party :
      (id : Option ℕ) (revision : ℕ) (name : Text) (player : ℕ) (s : AuthorityState env)
      → frame (Requests.rename_party id revision name player s).1 ≡ frame s
  unfolding Requests.rename_party emit_party
  frame-rename_party id revision name player s = ground arith

  frame-enqueue :
      (id : Option ℕ) (m revision : ℕ) (regions : List Text) (now : ℕ) (player : ℕ)
      (s : AuthorityState env)
      → frame (Requests.enqueue id m revision regions now player s).1 ≡ frame s
  unfolding Requests.enqueue emit_party next_uuid
  frame-enqueue id m revision regions now player s = ground arith

  frame-cancel_queue :
      (id : Option ℕ) (revision : ℕ) (player : ℕ) (s : AuthorityState env)
      → frame (Requests.cancel_queue id revision player s).1 ≡ frame s
  unfolding Requests.cancel_queue emit_party
  frame-cancel_queue id revision player s = ground arith

  frame-proposal_response :
      (id : Option ℕ) (accept : Bool) (now player : ℕ) (s : AuthorityState env)
      → frame (proposal_response id accept now player s).1 ≡ frame s
  unfolding proposal_response
  frame-proposal_response id accept now player s = grind (arith, frame-follow_up)

  -- No action, whether it succeeds or fails, changes the sessions, the configuration or the answers.
  pub frame-perform :
      (now : ℕ) (a : Action) (player : ℕ) (s : AuthorityState env)
      → frame (perform now a player s).1 ≡ frame s
  unfolding perform
  frame-perform now (Action.create_party name) player s = frame-create_party name player s
  frame-perform now (Action.join_party token) player s = frame-join_party token now player s
  frame-perform now (Action.leave_party id revision) player s =
      frame-leave_party id revision player s
  frame-perform now (Action.kick_member id target revision) player s =
      frame-kick_member id target revision player s
  frame-perform now (Action.rename_party id revision name) player s =
      frame-rename_party id revision name player s
  frame-perform now (Action.enqueue id m revision regions) player s =
      frame-enqueue id m revision regions now player s
  frame-perform now (Action.cancel_queue id revision) player s =
      frame-cancel_queue id revision player s
  frame-perform now (Action.respond id accept) player s =
      frame-proposal_response id accept now player s
