-- ===== src/Matching/Sorted.antt =====
-- The orders in which tickets and candidates are taken (core/src/matching/snapshot.rs, and
-- `sort_candidates` of core/src/matching/dispatcher.rs).
use mathlib.Core.List.{Perm, Permᴰ}
use elo_ranking_pairing_syst.Base.{◌≡◌, List}
use elo_ranking_pairing_syst.Base.Order.{Order, nat_order, int_order, text_order, lex, on}
use elo_ranking_pairing_syst.Base.Sort.{
  sort_by, sort_by-perm, sort_by-IsSorted, sort_by-eq_of_perm, IsSorted, HasNoTies,
}
use elo_ranking_pairing_syst.Components.{mode_rank}
use elo_ranking_pairing_syst.Matching.{PartyTicket, Candidate, stable_ticket_ids}

abbrev pub candidate_order : Order Candidate
candidate_order =
    on
      (λ c. (
        c.oldest_enqueued_at,
        (
          c.quality_key.0,
          (c.quality_key.1, (c.quality_key.2, (c.owner_shard, stable_ticket_ids c))),
        ),
      ))
      (lex nat_order (lex int_order (lex int_order (lex int_order (lex nat_order text_order)))))

unfoldable pub sort_candidates : List Candidate → List Candidate
sort_candidates items = sort_by candidate_order.le items

abbrev pub ticket_order : Order PartyTicket
ticket_order =
    on (λ t. (t.region, (mode_rank t.mode, (t.effective_rating, (t.enqueued_at, t.id)))))
      (lex text_order (lex nat_order (lex int_order (lex nat_order nat_order))))

-- `CandidateSnapshot::new`; a snapshot is its tickets.
unfoldable pub snapshot : List PartyTicket → List PartyTicket
snapshot tickets = sort_by ticket_order.le tickets

-- The candidates are put in order and none is lost or made up; where no two have the same key, the
-- outcome depends on the candidates alone, not on the order in which the workers delivered them.
pub sort_candidates-deterministic :
    (items other : List Candidate)
    → HasNoTies candidate_order.le candidate_order.total items
    → Permᴰ items other
    → IsSorted candidate_order.le (sort_candidates items)
      × Perm (sort_candidates items) items
      × (sort_candidates items ≡ sort_candidates other)
unfolding sort_candidates
sort_candidates-deterministic items other h p = (
  sort_by-IsSorted candidate_order.le candidate_order.total items,
  sort_by-perm candidate_order.le items,
  sort_by-eq_of_perm candidate_order.le candidate_order.total candidate_order.trans h p,
)
