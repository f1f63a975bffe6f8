-- ===== src/Authority/Cancel/Keeps.antt =====
-- What every part of `cancel_proposal` (core/src/grpc/mod.rs) keeps, the whole keeps.
use elo_ranking_pairing_syst.Base.{
  ℕ, ◌≡◌, refl, ◌∙◌, Bool, some, List, [], map, inl, inr, Option-cases, unwrap_or, for_each,
  for_each_keeps,
}
use elo_ranking_pairing_syst.Base.Map.{Map, lookup, nat_key}
use elo_ranking_pairing_syst.Components.{AcceptState}
use elo_ranking_pairing_syst.Proposal.{Proposal, RequeueDecision, cancellation_decisions}
use elo_ranking_pairing_syst.Authority.Messages.{Env}
use elo_ranking_pairing_syst.Authority.State.{AuthorityState, TicketRecord}
use elo_ranking_pairing_syst.Authority.Cancel.{
  dismiss, return_ticket, emit_one, save_profile, clear_proposal, dissolve, announce,
  cancel_proposal, parties_of,
}

module _ {ℓ} {env : Env} {P : Type ℓ} (view : AuthorityState env → P) where
  pub announce_keeps :
      ((id : ℕ) (s : AuthorityState env) → view (emit_one id s) ≡ view s)
      → ((player : ℕ) (s : AuthorityState env) → view (save_profile player s) ≡ view s)
      → (players : List ℕ) (s : AuthorityState env) → view (announce players s) ≡ view s
  unfolding announce
  announce_keeps e f players s =
      let parties = parties_of s players in
      for_each_keeps view save_profile f players (for_each emit_one parties s)
      ∙ for_each_keeps view emit_one e parties s

  -- What telling of it keeps: what is left is what `dissolve` did.
  pub cancel_proposal_dissolves :
      ((id : ℕ) (s : AuthorityState env) → view (emit_one id s) ≡ view s)
      → ((player : ℕ) (s : AuthorityState env) → view (save_profile player s) ≡ view s)
      → (now id : ℕ) (infrastructure : Bool) (p : Proposal) (s : AuthorityState env)
      → lookup id s.proposals ≡ some p
      → view (cancel_proposal now id infrastructure s) ≡ view (dissolve now id infrastructure p s)
  unfolding cancel_proposal
  cancel_proposal_dissolves e f now id infrastructure p s n =
      let decisions = cancellation_decisions p infrastructure in
      let players = map (λ (x : RequeueDecision). x.player) decisions in
      rw n (announce_keeps e f players (dissolve now id infrastructure p s))

  -- What the return of the tickets keeps, too: what is left is the loop over the players.
  pub cancel_proposal_dismisses :
      ((id : ℕ) (s : AuthorityState env) → view (emit_one id s) ≡ view s)
      → ((player : ℕ) (s : AuthorityState env) → view (save_profile player s) ≡ view s)
      → (now id : ℕ) (infrastructure : Bool)
      → ((responses : Map ℕ AcceptState) (t : ℕ × TicketRecord) (s : AuthorityState env)
          → view (return_ticket responses infrastructure t s) ≡ view s)
      → (p : Proposal) (s : AuthorityState env) → lookup id s.proposals ≡ some p
      → view (cancel_proposal now id infrastructure s)
        ≡ view (
            for_each
              (dismiss now id infrastructure)
              (cancellation_decisions p infrastructure)
              (clear_proposal id p s))
  unfolding dissolve
  cancel_proposal_dismisses e f now id infrastructure r p s n =
      cancel_proposal_dissolves e f now id infrastructure p s n
      ∙ for_each_keeps view (return_ticket p.responses infrastructure) (r p.responses)
          (unwrap_or [] (lookup id s.proposal_tickets))
          (for_each (dismiss now id infrastructure) (cancellation_decisions p infrastructure)
            (clear_proposal id p s))

  pub cancel_proposal_keeps :
      (now id : ℕ) (infrastructure : Bool)
      → ((p : Proposal) (s : AuthorityState env) → view (clear_proposal id p s) ≡ view s)
      → ((d : RequeueDecision) (s : AuthorityState env)
          → view (dismiss now id infrastructure d s) ≡ view s)
      → ((responses : Map ℕ AcceptState) (t : ℕ × TicketRecord) (s : AuthorityState env)
          → view (return_ticket responses infrastructure t s) ≡ view s)
      → ((id : ℕ) (s : AuthorityState env) → view (emit_one id s) ≡ view s)
      → ((player : ℕ) (s : AuthorityState env) → view (save_profile player s) ≡ view s)
      → (s : AuthorityState env) → view (cancel_proposal now id infrastructure s) ≡ view s
  unfolding cancel_proposal
  cancel_proposal_keeps now id infrastructure c d r e f s =
      elim (Option-cases (lookup id s.proposals)) [
        | inl n ↦ rw n refl
        | inr (p, n) ↦
            cancel_proposal_dismisses e f now id infrastructure r p s n
            ∙ for_each_keeps view (dismiss now id infrastructure) d
                (cancellation_decisions p infrastructure) (clear_proposal id p s)
            ∙ c p s
      ]
