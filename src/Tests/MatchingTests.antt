-- ===== src/Tests/MatchingTests.antt =====
-- The matching at concrete tickets.

use elo_ranking_pairing_syst.Base.{
  ℕ, ◌≤◌, ◌≡◌, refl, true, false, List, [], ◌∷◌, All, arith, length,
}
use elo_ranking_pairing_syst.Base.Int.{ℤ, pos, ◌-ℤ◌, min_ℤ}
use elo_ranking_pairing_syst.Base.Word.{wrap_i32, of_u32}
use elo_ranking_pairing_syst.Base.Text.{text, text_eq}
use elo_ranking_pairing_syst.Base.Map.{nat_key}
use elo_ranking_pairing_syst.Base.Set as Set
use elo_ranking_pairing_syst.Base.Sort.{sort_by}
use elo_ranking_pairing_syst.Components.{QueueMode, one_vs_one, five_vs_five, free_for_all}
use elo_ranking_pairing_syst.Matching.{PartyTicket, Candidate, stable_ticket_ids}
use elo_ranking_pairing_syst.Matching.Claims.{commit, release, commit-commit}
use elo_ranking_pairing_syst.Matching.Sorted.{sort_candidates}
use elo_ranking_pairing_syst.Matching.OneVOne as OneVOne
use elo_ranking_pairing_syst.Matching.OneVOne.{pair_windows, pair, difference, IsDuel, build-IsDuel}
use elo_ranking_pairing_syst.Matching.FiveVFive as FiveVFive
use elo_ranking_pairing_syst.Matching.Groups.Laws.{StandsIn}
use elo_ranking_pairing_syst.Matching.FiveVFive.Teams.{IsGame, build-IsGame}
use elo_ranking_pairing_syst.Matching.FreeForAll as FreeForAll
use elo_ranking_pairing_syst.Matching.FreeForAll.Games.{IsFairMelee, build-IsFairMelee}
use elo_ranking_pairing_syst.Matching.Dispatcher.{search_shard}
use elo_ranking_pairing_syst.Matching.Dispatcher.Budget.{search_shard_enough}
use elo_ranking_pairing_syst.Matching.Dispatcher.Shard.{
  ids, AllApart, DrawsOn, search_shard-AllApart,
}
use elo_ranking_pairing_syst.Matching.Builders.{build-IsBuilder}

abbrev ticket : ℕ → List ℕ → List ℤ → ℤ → QueueMode → PartyTicket
ticket id members ratings rating mode = record {
  id = id;
  party = id;
  members = members;
  ratings = ratings;
  effective_rating = rating;
  enqueued_at = id;
  revision = 1;
  region = text "tw";
  mode = mode;
  search_delta = pos 100;
  wait_seconds = 0;
}

-- Three single players, of whom the first two are within reach of each other.
abbrev singles : List PartyTicket
singles =
    ticket 1 (11 ∷ []) (pos 1000 ∷ []) (pos 1000) one_vs_one
    ∷ ticket 2 (12 ∷ []) (pos 1060 ∷ []) (pos 1060) one_vs_one
    ∷ ticket 3 (13 ∷ []) (pos 1500 ∷ []) (pos 1500) one_vs_one
    ∷ []

-- Two parties of five.
abbrev full_parties : List PartyTicket
full_parties =
    ticket 1 (11 ∷ 12 ∷ 13 ∷ 14 ∷ 15 ∷ []) [] (pos 1000) five_vs_five
    ∷ ticket 2 (21 ∷ 22 ∷ 23 ∷ 24 ∷ 25 ∷ []) [] (pos 1050) five_vs_five
    ∷ []

-- Two parties of four.
abbrev fours : List PartyTicket
fours =
    ticket 1 (11 ∷ 12 ∷ 13 ∷ 14 ∷ []) [] (pos 1000) free_for_all
    ∷ ticket 2 (21 ∷ 22 ∷ 23 ∷ 24 ∷ []) [] (pos 1050) free_for_all
    ∷ []

abbrev candidate : List ℕ → ℕ → Candidate
candidate tickets oldest = record {
  tickets = tickets;
  teams = [];
  oldest_enqueued_at = oldest;
  quality_key = (pos 0, pos 0, pos 0);
  owner_shard = 0;
}

abbrev older : Candidate
older = candidate (1 ∷ []) 1

abbrev newer : Candidate
newer = candidate (2 ∷ []) 2

-- The tests of core/src/matching/claim.rs and dispatcher.rs.
claimed_once : (commit (commit [] older (λ _. true)).0 older (λ _. true)).1 ≡ false
unfolding commit stable_ticket_ids sort_by Set.member Set.extend Set.insert Set.put
claimed_once = refl

older_first : sort_candidates (newer ∷ older ∷ []) ≡ older ∷ newer ∷ []
unfolding sort_candidates stable_ticket_ids sort_by
older_first = refl

commit-commit_example :
    ((commit (commit (5 ∷ []) older (λ _. true)).0 (candidate (3 ∷ 1 ∷ []) 4) (λ _. true)).1
      ≡ false)
    × ((k : ℕ)
        → Set.member k (release (commit (5 ∷ []) older (λ _. true)).0 older.tickets)
          ≡ Set.member k (5 ∷ []))
unfolding commit stable_ticket_ids sort_by Set.member
commit-commit_example =
    commit-commit (5 ∷ []) older (candidate (3 ∷ 1 ∷ []) 4) (λ _. true) 1 refl refl refl

build-IsDuel_example : All (IsDuel singles) (OneVOne.build singles)
build-IsDuel_example = build-IsDuel singles (ground arith, (ground arith, (ground arith, tt)))

build-IsGame_example :
    All (IsGame (StandsIn full_parties)) (FiveVFive.build full_parties 8)
    × (length (FiveVFive.build full_parties 8) ≤ 8)
build-IsGame_example = build-IsGame full_parties 8

build-IsFairMelee_example :
    All (IsFairMelee fours) (FreeForAll.build fours 8) × (length (FreeForAll.build fours 8) ≤ 8)
build-IsFairMelee_example = build-IsFairMelee fours 8 (ground arith, (ground arith, tt))

search_shard-AllApart_example :
    AllApart (search_shard 8 OneVOne.build 8 0 singles [])
    × All (DrawsOn (ids singles)) (search_shard 8 OneVOne.build 8 0 singles [])
search_shard-AllApart_example =
    search_shard-AllApart 8 8 0 OneVOne.build singles (build-IsBuilder 8).0

search_shard_enough_example :
    (search_shard 9 OneVOne.build 2 0 singles [] ≡ search_shard 2 OneVOne.build 2 0 singles [])
    × (length (search_shard 2 OneVOne.build 2 0 singles []) ≤ 2)
search_shard_enough_example =
    search_shard_enough 2 9 2 0 OneVOne.build singles [] (omega arith) (omega arith) (omega arith)

one_duel : length (OneVOne.build singles) ≡ 1
unfolding OneVOne.build pair_windows pair difference sort_by text_eq min_ℤ wrap_i32 of_u32 ◌-ℤ◌
one_duel = refl
