-- ===== src/Matching/Dispatcher/Budget.antt =====
-- The loop of a shard ends within its fuel (core/src/matching/dispatcher.rs).
use elo_ranking_pairing_syst.Base.{
  ℕ, zero, suc, ◌+◌, ◌≤◌, ◌≡◌, refl, List, [], ◌∷◌, ◌++◌, arith, length, retain, not, length-append,
}
use elo_ranking_pairing_syst.Base.Map.{nat_key}
use elo_ranking_pairing_syst.Base.Set as Set
use elo_ranking_pairing_syst.Matching.{PartyTicket, Candidate}
use elo_ranking_pairing_syst.Matching.Dispatcher.{select, proposals, search_shard}

-- What a round selects, it adds, within the budget.
pub select-length :
    (budget : ℕ) (cs : List Candidate) (claimed : List ℕ) (local : List Candidate) (selected : ℕ)
    → suc (length local) ≤ budget
    → (length (select budget cs claimed local selected).1 + selected
        ≡ length local + (select budget cs claimed local selected).2)
      × (length (select budget cs claimed local selected).1 ≤ budget)
unfolding select
select-length budget [] claimed local selected h = ground arith
select-length budget (c ∷ cs) claimed local selected h =
    let grown = length-append local (c ∷ []) in
    ground (
      arith,
      grown,
      select-length budget cs claimed local selected h,
      λ (r : suc (suc (length local)) ≤ budget).
          select-length budget cs (Set.extend claimed c.tickets) (local ++ c ∷ []) (suc selected)
            (omega (arith, grown, r)),
    )

-- A shard's search yields at most its budget, and it ends of itself within that many rounds: more
-- fuel changes nothing.
pub search_shard_enough :
    (fuel more budget shard : ℕ) (builder : List PartyTicket → List Candidate)
    (remaining : List PartyTicket) (local : List Candidate)
    → fuel ≤ more
    → length local ≤ budget
    → budget ≤ length local + fuel
    → (search_shard more builder budget shard remaining local
        ≡ search_shard fuel builder budget shard remaining local)
      × (length (search_shard fuel builder budget shard remaining local) ≤ budget)
unfolding search_shard
search_shard_enough zero zero budget shard builder remaining local l h k = (refl, h)
search_shard_enough zero (suc more) budget shard builder remaining local l h k = ground arith
search_shard_enough (suc fuel) zero budget shard builder remaining local l h k = ground arith
search_shard_enough (suc fuel) (suc more) budget shard builder remaining local l h k =
    let cs = proposals builder shard remaining in
    let (claimed, local', selected) = select budget cs [] local 0 in
    let remaining' = retain (λ t. not (Set.member t.id claimed)) remaining in
    let added = select-length budget cs [] local 0 in
    ground (
      arith,
      added,
      λ (a : length local' ≤ budget) (b : budget ≤ length local' + fuel).
          search_shard_enough fuel more budget shard builder remaining' local' (omega (arith, l)) a
            b,
    )
