-- ===== src/Matching/Dispatcher/Whole.antt =====
-- The candidates of all shards (`generate` of core/src/matching/dispatcher.rs).
use elo_ranking_pairing_syst.Base.{
  ℕ, suc, ◌≡◌, Bool, true, ◌&&◌, List, [], ◌∷◌, map, All, arith, retain,
}
use elo_ranking_pairing_syst.Base.Every.{every_mono, All-append, All-sort_by}
use elo_ranking_pairing_syst.Base.Text.{text_eq}
use elo_ranking_pairing_syst.Base.Map.{nat_key}
use elo_ranking_pairing_syst.Base.Set as Set
use elo_ranking_pairing_syst.Base.Sort.{IsSorted, sort_by-IsSorted}
use elo_ranking_pairing_syst.Components.{mode_eq}
use elo_ranking_pairing_syst.Matching.{PartyTicket, Candidate}
use elo_ranking_pairing_syst.Matching.Sorted.{candidate_order, sort_candidates}
use elo_ranking_pairing_syst.Matching.Dispatcher.{
  Owner, part_of, partitions, search_shard, search_all, generate, is_near, owner_of, owner_key,
}
use elo_ranking_pairing_syst.Matching.Dispatcher.Shard.{
  ids, DrawsOn, IsBuilder, search_shard-AllApart,
}

ids-retain :
    (p : PartyTicket → Bool) (ts : List PartyTicket) (j : ℕ)
    → Set.member j (ids (retain p ts)) ≡ true
    → Set.member j (ids ts) ≡ true
unfolding Set.member
ids-retain p [] j h = h
ids-retain p (t ∷ ts) j h = ground (arith, ids-retain p ts j)

ids-part_of :
    (ts : List PartyTicket) (o : Owner) (j : ℕ)
    → Set.member j (ids (part_of ts o)) ≡ true
    → Set.member j (ids ts) ≡ true
unfolding part_of
ids-part_of ts o j h =
    let here = λ (t : PartyTicket). text_eq t.region o.region && mode_eq t.mode o.mode in
    ids-retain here ts j (ids-retain (is_near o) (retain here ts) j h)

search_all-DrawsOn :
    (builder : List PartyTicket → List Candidate) (budget shard : ℕ) (owners : List Owner)
    (ts : List PartyTicket)
    → IsBuilder builder
    → All (DrawsOn (ids ts)) (search_all builder budget (partitions shard owners ts))
unfolding search_all partitions
search_all-DrawsOn builder budget shard [] ts h = tt
search_all-DrawsOn builder budget shard (o ∷ owners) ts h =
    let found = search_shard budget builder budget shard (part_of ts o) [] in
    All-append (DrawsOn (ids ts)) found _
      (every_mono (DrawsOn (ids (part_of ts o))) (DrawsOn (ids ts))
        (λ c d j m. ids-part_of ts o j (d j m)) found
        (search_shard-AllApart budget budget shard builder (part_of ts o) h).1)
      (search_all-DrawsOn builder budget (suc shard) owners ts h)

-- The candidates of a snapshot are in their order, and all their tickets are the snapshot's.
pub generate-DrawsOn :
    (snapshot : List PartyTicket) (budget : ℕ) (builder : List PartyTicket → List Candidate)
    → IsBuilder builder
    → IsSorted candidate_order.le (generate snapshot budget builder)
      × All (DrawsOn (ids snapshot)) (generate snapshot budget builder)
unfolding generate sort_candidates
generate-DrawsOn snapshot budget builder h =
    let owners = Set.extend [] (map owner_of snapshot) in
    let found = search_all builder budget (partitions 0 owners snapshot) in
    (
      sort_by-IsSorted candidate_order.le candidate_order.total found,
      All-sort_by (DrawsOn (ids snapshot)) candidate_order.le found
          (search_all-DrawsOn builder budget 0 owners snapshot h),
    )
