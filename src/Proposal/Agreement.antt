-- ===== src/Proposal/Agreement.antt =====
-- A ready check in which everybody accepts.
use elo_ranking_pairing_syst.Base.{
  ℕ, ◌≡◌, refl, ◌≢◌, ◌⊎◌, inl, inr, Bool, true, false, List, [], ◌∷◌, arith, any, all, contains,
  All, Option-cases,
}
use elo_ranking_pairing_syst.Base.Map.{Map, lookup, modify, values, nat_key, IsMap}
use elo_ranking_pairing_syst.Base.Map.Laws.{modify-IsMap}
use elo_ranking_pairing_syst.Components.{AcceptState, is_accepted, is_rejected}
use elo_ranking_pairing_syst.Matching.{Candidate}
use elo_ranking_pairing_syst.Proposal.Check.{
  Covered, Covered-collect_pending, Covered-skip, Covered-accept, Covered-done,
  collect_pending-AllPending, collect_pending-IsMap, not_all_accepted,
}
use elo_ranking_pairing_syst.Proposal.Events.{Event, answered, step, run, run_final}
use elo_ranking_pairing_syst.Proposal.{
  Proposal, awaiting_accept, awaiting_placement, flatten, collect_pending, from_candidate, answer,
  settle, respond,
}

-- The acceptances of these players, in this order.
abbrev pub accepts : ℕ → List ℕ → List Event
accepts id [] = []
accepts id (p ∷ ps) = answered id p true ∷ accepts id ps

Covered-none_rejected :
    (todo : List ℕ) (m : Map ℕ AcceptState) → Covered todo m → any is_rejected (values m) ≡ false
Covered-none_rejected todo [] h = refl
Covered-none_rejected todo ((k, s) ∷ m) h = ground (arith, Covered-none_rejected todo m h.1)

-- All have accepted, or those who have not are still to come.
record Under (todo : List ℕ) (p : Proposal) : Type 0 where
  distinct : IsMap p.responses
  covered : Covered todo p.responses
  progress :
      (p.state ≡ awaiting_placement)
      ⊎ ((p.state ≡ awaiting_accept) × (all is_accepted (values p.responses) ≡ false))

step-id :
    (p : Proposal) (player : ℕ) (accept : Bool) → (step p (answered p.id player accept)).id ≡ p.id
unfolding step respond settle
step-id p player accept = ground arith

step-Under :
    (todo : List ℕ) (p : Proposal) (player : ℕ)
    → (p.state ≡ awaiting_accept)
    → Under (player ∷ todo) p
    → (Under todo (step p (answered p.id player true)))
unfolding step respond settle
step-Under todo p player waiting u = elim (Option-cases (lookup player p.responses)) [
  | inl e ↦ record {
    distinct = ground arith;
    covered = ground (arith, Covered-skip player todo p.responses e u.covered);
    progress = ground (arith, u.progress);
  }
  | inr (s, e) ↦
      let next = modify player (answer true) p.responses in
      let covered = Covered-accept player todo p.responses u.distinct u.covered in
      let calm = Covered-none_rejected todo next covered in
      record {
        distinct = ground (arith, modify-IsMap player (answer true) p.responses u.distinct);
        covered = ground arith;
        progress = ground arith;
      }
]

run-accepts :
    (todo : List ℕ) (p : Proposal)
    → Under todo p
    → (run p (accepts p.id todo)).state ≡ awaiting_placement
unfolding run step
run-accepts [] p u = ground (arith, Covered-done p.responses u.covered)
run-accepts (player ∷ todo) p u = elim u.progress [
  | inl done ↦ rw (run_final p (accepts p.id (player ∷ todo)) (rw done)) done
  | inr (waiting, _) ↦
      let q = step p (answered p.id player true) in
      rw (step-id p player true) at (run-accepts todo q (step-Under todo p player waiting u))
]

-- If every player of the roster accepts, in whatever order and however often, the match goes on to
-- placement: no order of the acceptances leaves it waiting.
pub run-accepts-from_candidate :
    (id : ℕ) (c : Candidate) (parties : Map ℕ ℕ) (now timeout : ℕ) (order : List ℕ)
    → collect_pending (flatten c.teams) ≢ []
    → All (λ player. contains player order ≡ true) (flatten c.teams)
    → (run (from_candidate id c parties now timeout) (accepts id order)).state ≡ awaiting_placement
unfolding from_candidate
run-accepts-from_candidate id c parties now timeout order ne h =
    let roster = flatten c.teams in
    run-accepts order (from_candidate id c parties now timeout) (record {
      distinct = collect_pending-IsMap roster;
      covered = Covered-collect_pending order roster h;
      progress =
          inr (
            refl,
            not_all_accepted (collect_pending roster) ne (collect_pending-AllPending roster),
          );
    })
