-- ===== src/Authority/Commit/RoundTrip.antt =====
-- A proposal that is made and given up again (`commit_candidate` and `cancel_proposal` of
-- core/src/grpc/mod.rs).
use elo_ranking_pairing_syst.Base.{
  ℕ, ◌*◌, ◌%◌, ◌≡◌, refl, true, ◌==◌, ==_iff, none, some, List, [], ◌∷◌, inl, inr, arith, contains,
  Option-cases, Bool-cases, for_each, for_each_keeps,
}
use elo_ranking_pairing_syst.Base.Word.{u64_mod, u64_max, saturating_add}
use elo_ranking_pairing_syst.Base.Map.{Map, lookup, insert, remove, keys, nat_key, IsMap}
use elo_ranking_pairing_syst.Base.Map.Laws.{
  lookup-insert, lookup-modify, lookup-remove_self, lookup-remove_ne, remove-IsMap,
}
use elo_ranking_pairing_syst.Components.{PartyState}
use elo_ranking_pairing_syst.Matching.{PartyTicket, Candidate}
use elo_ranking_pairing_syst.Party.{Party, bump}
use elo_ranking_pairing_syst.Proposal.{Proposal, from_candidate}
use elo_ranking_pairing_syst.Authority.Messages.{Env}
use elo_ranking_pairing_syst.Authority.State.{AuthorityState, TicketRecord, next_uuid}
use elo_ranking_pairing_syst.Authority.Cancel.{cancel_proposal}
use elo_ranking_pairing_syst.Authority.Cancel.Tickets.{cancel_proposal-requeued}
use elo_ranking_pairing_syst.Authority.Commit.{
  selected_parties, collect_owners, saved_tickets, await_accept, propose, commit_candidate,
}

saved_absent :
    (party : ℕ) (ids : List ℕ) (tickets : Map ℕ TicketRecord)
    → IsMap tickets
    → lookup party tickets ≡ none
    → lookup party (saved_tickets tickets ids) ≡ none
unfolding saved_tickets lookup
saved_absent party [] tickets w h = refl
saved_absent party (id ∷ ids) tickets w h =
    let rest = saved_absent party ids (remove id tickets) (remove-IsMap id tickets w) in
    ground (
      arith,
      h,
      rest,
      lookup-remove_ne id party tickets,
      lookup-remove_self id tickets w,
      ==_iff id party,
    )

saved-IsMap :
    (ids : List ℕ) (tickets : Map ℕ TicketRecord)
    → IsMap tickets
    → IsMap (saved_tickets tickets ids)
unfolding saved_tickets
saved-IsMap [] tickets w = tt
saved-IsMap (id ∷ ids) tickets w =
    let left = remove id tickets in
    let distinct = remove-IsMap id tickets w in
    let rest = saved-IsMap ids left distinct in
    let gone = saved_absent id ids left distinct (lookup-remove_self id tickets w) in
    elim (Option-cases (lookup id tickets)) [ inl e ↦ rw e rest | inr (t, e) ↦ rw e (gone, rest) ]

-- Every ticket of a selected party is saved as it was.
saved_present :
    (party : ℕ) (t : TicketRecord) (ids : List ℕ) (tickets : Map ℕ TicketRecord)
    → IsMap tickets
    → contains party ids ≡ true
    → lookup party tickets ≡ some t
    → lookup party (saved_tickets tickets ids) ≡ some t
unfolding saved_tickets lookup
saved_present party t [] tickets w c h = cc
saved_present party t (id ∷ ids) tickets w c h =
    let rest = saved_present party t ids (remove id tickets) (remove-IsMap id tickets w) in
    ground (arith, c, h, rest, lookup-remove_ne id party tickets, ==_iff id party)

-- The same party, with the same name, leader and members.
abbrev IsKept : Party → Party → Type 0
IsKept q r = (r.id ≡ q.id) × (r.name ≡ q.name) × (r.leader ≡ q.leader) × (r.members ≡ q.members)

module _ {env : Env} where
  await_all :
      (party : ℕ) (q : Party) (ids : List ℕ) (s : AuthorityState env)
      → lookup party s.parties ≡ some q
      → (r : Party) × (lookup party (for_each await_accept ids s).parties ≡ some r) × IsKept q r
  unfolding await_accept
  await_all party q [] s h = (q, h, (refl, refl, refl, refl))
  await_all party q (id ∷ ids) s h =
      let f : Party → Party =
        λ p. record p { state = PartyState.awaiting_accept; revision = bump p.revision } in
      let next = await_accept id s in
      elim (Bool-cases (id == party)) [
        | inl e ↦
            let (r, at, same) =
              await_all party (f q) ids next
                (ground (arith, h, e, lookup-modify id party f s.parties, ==_iff id party)) in
            (r, at, same)
        | inr e ↦
            await_all party q ids next (ground (arith, h, e, lookup-modify id party f s.parties))
      ]

  abbrev kept : AuthorityState env → Map ℕ Party × Map ℕ (List (ℕ × TicketRecord))
  kept s = (s.parties, s.proposal_tickets)

  kept-propose :
      (id deadline player : ℕ) (s : AuthorityState env)
      → kept (propose id deadline player s) ≡ kept s
  unfolding propose
  kept-propose id deadline player s = refl

  abbrev proposal_id : AuthorityState env → ℕ
  proposal_id s = (next_uuid s 3).0

  -- What is known of a proposal right after it is made.
  committed :
      (now : ℕ) (c : Candidate) (tickets : List PartyTicket) (party : ℕ) (t : TicketRecord)
      (q : Party) (s : AuthorityState env)
      → IsMap s.tickets
      → contains party (selected_parties tickets c.tickets) ≡ true
      → lookup party s.tickets ≡ some t
      → lookup party s.parties ≡ some q
      → let after = commit_candidate now c tickets s in
        (p : Proposal) × (saved : Map ℕ TicketRecord) × (r : Party) × (lookup
            (proposal_id s)
            after.proposals
          ≡ some p)
        × (lookup (proposal_id s) after.proposal_tickets ≡ some saved)
        × IsMap saved
        × (lookup party saved ≡ some t)
        × (lookup party after.parties ≡ some r)
        × IsKept q r
  unfolding commit_candidate
  committed now c tickets party t q s w chosen h e =
      let id = proposal_id s in
      let counted = (next_uuid s 3).1 in
      let selected = selected_parties tickets c.tickets in
      let owners = collect_owners s.parties selected [] in
      let timeout = s.config.ready_timeout_seconds * 1000 % u64_mod in
      let p = from_candidate id c owners now timeout in
      let saved = saved_tickets s.tickets selected in
      let waiting = for_each await_accept selected counted in
      let stored = record waiting { proposal_tickets = insert id saved waiting.proposal_tickets } in
      let told = for_each (propose id p.deadline) (keys p.responses) stored in
      let same =
        for_each_keeps kept (propose id p.deadline) (kept-propose id p.deadline) (keys p.responses)
          stored in
      let (r, at, members) = await_all party q selected counted e in
      (
        p,
        saved,
        r,
        ground (arith, lookup-insert id id p told.proposals, ==_iff id id),
        ground (arith, same, lookup-insert id id saved waiting.proposal_tickets, ==_iff id id),
        saved-IsMap selected s.tickets w,
        saved_present party t selected s.tickets w chosen h,
        ground (arith, same, at),
        members,
      )

  -- A proposal that is made and then cancelled for want of a server leaves each of its parties queued,
  -- and otherwise, but for the revision, as it was: with the same name, leader and members, and with the
  -- same ticket, which keeps its identifier, its regions and the time since when it waits.
  pub commit_candidate-cancel_proposal :
      (now later : ℕ) (c : Candidate) (tickets : List PartyTicket) (party : ℕ) (t : TicketRecord)
      (q : Party) (s : AuthorityState env)
      → IsMap s.tickets
      → contains party (selected_parties tickets c.tickets) ≡ true
      → lookup party s.tickets ≡ some t
      → lookup party s.parties ≡ some q
      → let after = cancel_proposal later (proposal_id s) true (commit_candidate now c tickets s) in
        (lookup party after.tickets ≡ some t)
        × ((revision : ℕ) × (lookup party after.parties
              ≡ some (record q { state = PartyState.queued; revision = revision })))
  commit_candidate-cancel_proposal now later c tickets party t q s w chosen h e =
      let after = commit_candidate now c tickets s in
      let (p, saved, r, known, stored, distinct, at, found, kept_same) =
        committed now c tickets party t q s w chosen h e in
      let back =
        cancel_proposal-requeued later (proposal_id s) party true p saved t r after known stored
          distinct at found in
      (
        ground (arith, back.1),
        (saturating_add u64_max r.revision 1, ground (arith, back.0, kept_same)),
      )
