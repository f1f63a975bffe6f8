-- ===== src/Matching/FreeForAll.antt =====
-- core/src/matching/free_for_all.rs: games of eight single players. The 64-bit sums are of at most
-- eight 32-bit numbers times four, and do not wrap.
pub mod Games
use mathlib.Core.List.{Mem}
use elo_ranking_pairing_syst.Base.Every.{every_mono, All-append, every_with_mem}
use elo_ranking_pairing_syst.Matching.Groups.Laws.{
  IsGroup, head_count, length-players, groups-All, groups-length,
}
use elo_ranking_pairing_syst.Matching.Groups.Range.{
  IsWithinRange, in_range_of_extremes, least_of_keeps, greatest_of_keeps,
}
use elo_ranking_pairing_syst.Matching.OneVOne.{HasModestRating}
use elo_ranking_pairing_syst.Base.{
  ℕ, zero, suc, ◌≡◌, ◌≤◌, refl, Bool, true, false, ◌&&◌, List, [], ◌∷◌, ◌++◌, map, length, leb,
  if◌then◌else◌, All, arith, Bool-cases, inl, inr, length-append, length-map,
}
use elo_ranking_pairing_syst.Base.Int.{ℤ, pos, ◌-ℤ◌, ◌*ℤ◌, ltb_ℤ, min_ℤ, magnitude, div_trunc}
use elo_ranking_pairing_syst.Base.Word.{i32_max, wrap_i32, wrap_i32_id}
use elo_ranking_pairing_syst.Matching.{PartyTicket, Candidate}
use elo_ranking_pairing_syst.Matching.Groups.{
  Group, size, total, weighted_rating, players, least_of, greatest_of, earliest, groups,
}

-- `n <= left && n <= 4`
unfoldable pub fits : ℕ → ℕ → Bool
fits n left = leb n left && leb n 4

-- `max - min`
unfoldable pub spread : Group → ℤ
spread c =
    wrap_i32 (greatest_of (λ t. t.effective_rating) c -ℤ least_of (λ t. t.effective_rating) c)

unfoldable pub make_candidate : Group → Candidate
make_candidate c =
    let mean = div_trunc (weighted_rating c) 8 in
    let dispersion = total (λ t. pos (magnitude (t.effective_rating -ℤ mean)) *ℤ pos (size t)) c in
    record {
      tickets = map (λ (p : ℕ × PartyTicket). p.1.id) c;
      teams = map (λ player. player ∷ []) (players c);
      oldest_enqueued_at = earliest c;
      quality_key = (spread c, min_ℤ dispersion i32_max, pos 0);
      owner_shard = 0;
    }

-- What `go` does when no player is missing.
unfoldable pub finish : Group → List Candidate → List Candidate
finish c out =
    if ltb_ℤ (least_of (λ t. t.search_delta) c) (spread c)
    then out
    else out ++ make_candidate c ∷ []

unfoldable pub build : List PartyTicket → ℕ → List Candidate
unfolding fits groups
build ts budget = groups fits finish budget ts 8
