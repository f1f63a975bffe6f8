-- ===== src/Authority/Cancel/Tickets.antt =====
-- How the parties of a cancelled proposal go back to the queue (`cancel_proposal` of
-- core/src/grpc/mod.rs).
use elo_ranking_pairing_syst.Base.{
  List, ◌||◌, any, if_some, is_some_and, ℕ, ◌≡◌, refl, ◌∙◌, Bool, true, false, not, ◌&&◌, ◌==◌,
  ==_iff, none, some, [], ◌∷◌, arith, for_each, for_each_keeps, if◌then◌else◌, inl, inr, Bool-cases,
}
use elo_ranking_pairing_syst.Base.Word.{u64_max, saturating_add}
use elo_ranking_pairing_syst.Base.Map.{Map, lookup, nat_key, IsMap}
use elo_ranking_pairing_syst.Base.Map.Laws.{lookup-insert, lookup-modify}
use elo_ranking_pairing_syst.Components.{AcceptState, PartyState, is_failed}
use elo_ranking_pairing_syst.Party.{Party}
use elo_ranking_pairing_syst.Proposal.{Proposal, RequeueDecision, cancellation_decisions}
use elo_ranking_pairing_syst.Authority.Messages.{Env}
use elo_ranking_pairing_syst.Authority.State.{AuthorityState, TicketRecord, emit_party}
use elo_ranking_pairing_syst.Authority.Cancel.{
  charge, notify_cancelled, dismiss, put_back, party_failed, return_ticket, emit_one, save_profile,
  clear_proposal, dissolve, cancel_proposal,
}
use elo_ranking_pairing_syst.Authority.Cancel.Keeps.{cancel_proposal_dissolves}

-- Whether one of the players rejected or did not answer in time.
abbrev pub has_let_down : Map ℕ AcceptState → List ℕ → Bool
has_let_down responses [] = false
has_let_down responses (player ∷ players) =
    if_some (lookup player responses)
      (λ answer. elim answer [
        | AcceptState.rejected ↦ true
        | AcceptState.timed_out ↦ true
        | _ ↦ false
      ])
      false
    || has_let_down responses players

party_failed-has_let_down :
    (responses : Map ℕ AcceptState) (q : Party)
    → party_failed responses q ≡ has_let_down responses q.members
unfolding party_failed is_failed
party_failed-has_let_down responses q = go q.members
  where
    go :
        (players : List ℕ)
        → any (λ player. is_some_and (lookup player responses) is_failed) players
          ≡ has_let_down responses players
    go [] = refl
    go (player ∷ players) = ground (arith, go players)

-- What becomes of the party.
put_back_lem :
    (failed : Bool) (q : Party)
    → put_back failed q ≡ record q {
      state = if failed then PartyState.not_ready else PartyState.queued;
      revision = saturating_add u64_max q.revision 1;
    }
unfolding put_back
put_back_lem failed q = refl

module _ {env : Env} where
  abbrev queue : AuthorityState env → Map ℕ Party × Map ℕ TicketRecord
  queue s = (s.parties, s.tickets)

  queue-dismiss :
      (now id : ℕ) (infrastructure : Bool) (d : RequeueDecision) (s : AuthorityState env)
      → queue (dismiss now id infrastructure d s) ≡ queue s
  unfolding dismiss charge notify_cancelled
  queue-dismiss now id infrastructure d s = ground arith

  queue-emit_one : (id : ℕ) (s : AuthorityState env) → queue (emit_one id s) ≡ queue s
  unfolding emit_one emit_party
  queue-emit_one id s = ground arith

  -- A turn of the loop touches its own party and ticket.
  return_others :
      (responses : Map ℕ AcceptState) (infrastructure : Bool) (id party : ℕ) (t : TicketRecord)
      (s : AuthorityState env)
      → (id == party) ≡ false
      → let after = return_ticket responses infrastructure (id, t) s in
        (lookup party after.parties ≡ lookup party s.parties)
        × (lookup party after.tickets ≡ lookup party s.tickets)
  unfolding return_ticket
  return_others responses infrastructure id party t s ne = ground (
    arith,
    ne,
    lookup-modify id party (put_back true) s.parties,
    lookup-modify id party (put_back false) s.parties,
    lookup-insert id party t s.tickets,
  )

  return_all_others :
      (responses : Map ℕ AcceptState) (infrastructure : Bool) (party : ℕ)
      (saved : Map ℕ TicketRecord) (s : AuthorityState env)
      → lookup party saved ≡ none
      → let after = for_each (return_ticket responses infrastructure) saved s in
        (lookup party after.parties ≡ lookup party s.parties)
        × (lookup party after.tickets ≡ lookup party s.tickets)
  unfolding lookup
  return_all_others responses infrastructure party [] s n = (refl, refl)
  return_all_others responses infrastructure party ((id, t) ∷ saved) s n =
      let next = return_ticket responses infrastructure (id, t) s in
      let apart : (id == party) ≡ false = ground arith in
      let rest =
        return_all_others responses infrastructure party saved next (ground (arith, apart)) in
      let step = return_others responses infrastructure id party t s apart in
      (rest.0 ∙ step.0, rest.1 ∙ step.1)

  return_own :
      (responses : Map ℕ AcceptState) (infrastructure : Bool) (party : ℕ) (t : TicketRecord)
      (q : Party) (s : AuthorityState env)
      → lookup party s.parties ≡ some q
      → let failed = party_failed responses q && not infrastructure in
        let after = return_ticket responses infrastructure (party, t) s in
        (lookup party after.parties ≡ some (put_back failed q))
        × (lookup party after.tickets ≡ (if failed then lookup party s.tickets else some t))
  unfolding return_ticket
  return_own responses infrastructure party t q s e = ground (
    arith,
    e,
    lookup-modify party party (put_back true) s.parties,
    lookup-modify party party (put_back false) s.parties,
    lookup-insert party party t s.tickets,
    ==_iff party party,
  )

  return_all :
      (responses : Map ℕ AcceptState) (infrastructure : Bool) (party : ℕ) (t : TicketRecord)
      (q : Party) (saved : Map ℕ TicketRecord) (s : AuthorityState env)
      → IsMap saved
      → lookup party saved ≡ some t
      → lookup party s.parties ≡ some q
      → let failed = party_failed responses q && not infrastructure in
        let after = for_each (return_ticket responses infrastructure) saved s in
        (lookup party after.parties ≡ some (put_back failed q))
        × (lookup party after.tickets ≡ (if failed then lookup party s.tickets else some t))
  unfolding lookup
  return_all responses infrastructure party t q [] s w h e = cc
  return_all responses infrastructure party t q ((id, u) ∷ saved) s (fresh, w) h e =
      let next = return_ticket responses infrastructure (id, u) s in
      elim (Bool-cases (id == party)) [
        | inl own ↦
            let rest =
              return_all_others responses infrastructure party saved next
                (ground (arith, fresh, own, ==_iff id party)) in
            let step = return_own responses infrastructure party t q s e in
            ground (arith, rest.0, rest.1, step.0, step.1, own, ==_iff id party, h)
        | inr apart ↦
            let step = return_others responses infrastructure id party u s apart in
            let rest =
              return_all responses infrastructure party t q saved next w (ground (arith, apart))
                (step.0 ∙ e) in
            ground (arith, rest.0, rest.1, step.1)
      ]

  -- When a proposal is cancelled, every party that it took from the queue is queued again with its
  -- ticket as it was, except where a member rejected or did not answer: that party is set to not ready
  -- and its ticket is not put back. For want of a server every party is queued again. Each counts one
  -- revision more and is otherwise as it was.
  pub cancel_proposal-requeued :
      (now id party : ℕ) (infrastructure : Bool) (p : Proposal) (saved : Map ℕ TicketRecord)
      (t : TicketRecord) (q : Party) (s : AuthorityState env)
      → lookup id s.proposals ≡ some p
      → lookup id s.proposal_tickets ≡ some saved
      → IsMap saved
      → lookup party saved ≡ some t
      → lookup party s.parties ≡ some q
      → let failed = has_let_down p.responses q.members && not infrastructure in
        let after = cancel_proposal now id infrastructure s in
        (lookup party after.parties
          ≡ some (record q {
            state = if failed then PartyState.not_ready else PartyState.queued;
            revision = saturating_add u64_max q.revision 1;
          }))
        × (lookup party after.tickets ≡ (if failed then lookup party s.tickets else some t))
  unfolding dissolve clear_proposal
  cancel_proposal-requeued now id party infrastructure p saved t q s e u w h f =
      let cleared = clear_proposal id p s in
      let decisions = cancellation_decisions p infrastructure in
      let dismissed = for_each (dismiss now id infrastructure) decisions cleared in
      let same =
        for_each_keeps queue (dismiss now id infrastructure) (queue-dismiss now id infrastructure)
          decisions cleared in
      let rest =
        cancel_proposal_dissolves queue queue-emit_one (λ k v. unfold save_profile in refl) now id
          infrastructure p s e in
      let back =
        return_all p.responses infrastructure party t q saved dismissed w h
          (ground (arith, same, f)) in
      let failed = party_failed p.responses q && not infrastructure in
      rw (← party_failed-has_let_down p.responses q, ← put_back_lem failed q)
        (ground (arith, rest, same, back.0, back.1, u))
