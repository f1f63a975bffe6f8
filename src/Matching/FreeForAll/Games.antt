-- ===== src/Matching/FreeForAll/Games.antt =====
-- The games of eight that `build` of core/src/matching/free_for_all.rs proposes.
use elo_ranking_pairing_syst.Base.{
  ℕ, suc, ◌≤◌, ◌<◌, ◌≡◌, refl, subst, List, [], ◌∷◌, map, length, All, arith, Bool-cases, inl, inr,
  length-append, length-map,
}
use elo_ranking_pairing_syst.Base.Every.{every_mono, All-append}
use elo_ranking_pairing_syst.Base.Int.{ℤ, magnitude, ◌-ℤ◌, ◌≤ℤ◌, ltb_ℤ}
use elo_ranking_pairing_syst.Base.Word.{wrap_i32_id}
use elo_ranking_pairing_syst.Matching.{PartyTicket, Candidate}
use elo_ranking_pairing_syst.Matching.Groups.{Group, players, least_of, greatest_of}
use elo_ranking_pairing_syst.Matching.Groups.Laws.{
  IsGroup, EachFrom, EachFrom-All, StandsIn, each-StandsIn, each_both, length-players, groups-All,
  groups-length,
}
use elo_ranking_pairing_syst.Matching.Groups.Range.{
  IsWithinRange, in_range_of_extremes, least_of_keeps, greatest_of_keeps,
}
use elo_ranking_pairing_syst.Matching.OneVOne.{HasModestRating}
use elo_ranking_pairing_syst.Matching.FreeForAll.{fits, spread, make_candidate, finish, build}

-- A group of labelled tickets of a kind, of eight players, each in a team of one.
abbrev pub IsMelee : (ℕ × PartyTicket → Type 0) → Group → Candidate → Type 0
IsMelee Q g c =
    IsGroup Q 8 g
    × (c.tickets ≡ map (λ (p : ℕ × PartyTicket). p.1.id) g)
    × (c.teams ≡ map (λ player. player ∷ []) (players g))
    × (length c.teams ≡ 8)

make_candidate-IsMelee :
    (Q : ℕ × PartyTicket → Type 0) (g : Group) → IsGroup Q 8 g → IsMelee Q g (make_candidate g)
unfolding make_candidate
make_candidate-IsMelee Q g h = (
  h,
  refl,
  refl,
  omega (arith, length-map (λ (p : ℕ). p ∷ []) (players g), length-players g, h.0),
)

finish-length : (g : Group) (out : List Candidate) → length (finish g out) ≤ suc (length out)
unfolding finish
finish-length g out = ground (arith, length-append out (make_candidate g ∷ []))

pub build_drawn :
    (Q : ℕ × PartyTicket → Type 0) (ts : List PartyTicket) (budget : ℕ)
    → EachFrom Q 0 ts
    → All (λ c. (g : Group) × IsMelee Q g c) (build ts budget)
unfolding build finish fits
build_drawn Q ts budget m =
    groups-All fits finish budget (λ c. (g : Group) × IsMelee Q g c) Q 8 (λ n left h. ground arith)
      (λ g out p h. elim (Bool-cases (ltb_ℤ (least_of (λ t. t.search_delta) g) (spread g))) [
        | inl e ↦ rw e h
        | inr e ↦ rw e (
            All-append (λ c. (g : Group) × IsMelee Q g c) out (make_candidate g ∷ []) h
              ((g, make_candidate-IsMelee Q g p), tt))
      ])
      ts m

-- The difference of the extremes is exact.
spread_lem :
    (g : Group)
    → All (λ (p : ℕ × PartyTicket). HasModestRating p.1) g
    → spread g ≡ greatest_of (λ t. t.effective_rating) g -ℤ least_of (λ t. t.effective_rating) g
unfolding spread ◌-ℤ◌
spread_lem g h =
    let IsModest = λ (x : ℤ). magnitude x < 1073741824 in
    let high = greatest_of_keeps (λ t. t.effective_rating) IsModest g (omega arith) h in
    let low = least_of_keeps (λ t. t.effective_rating) IsModest g (omega arith) h in
    wrap_i32_id _ (ground (arith, high, low))

-- A sound game: its ratings also differ by no more than any of its tickets accepts.
abbrev pub IsFairMelee : List PartyTicket → Candidate → Type 0
IsFairMelee ts c =
    (g : Group) × (IsMelee (λ p. StandsIn ts p × HasModestRating p.1) g c × IsWithinRange g)

-- Every proposed game has eight players, each alone in a team, of tickets that stand at distinct
-- positions of the list and whose ratings differ by no more than any of them accepts; there are no
-- more games than the budget. The ratings are at most 2^30 - 1 either way, so that the 32-bit difference is exact.
pub build-IsFairMelee :
    (ts : List PartyTicket) (budget : ℕ)
    → All HasModestRating ts
    → All (IsFairMelee ts) (build ts budget) × (length (build ts budget) ≤ budget)
unfolding build finish fits
build-IsFairMelee ts budget m =
    let Q = λ (p : ℕ × PartyTicket). StandsIn ts p × HasModestRating p.1 in
    (
      groups-All fits finish budget (IsFairMelee ts) Q 8 (λ n left h. ground arith)
          (λ g out p h. elim (Bool-cases (ltb_ℤ (least_of (λ t. t.search_delta) g) (spread g))) [
            | inl e ↦ rw e h
            | inr e ↦
                let exact = spread_lem g (
                  every_mono Q (λ (p : ℕ × PartyTicket). HasModestRating p.1) (λ p q. q.1) g
                    p.1.1) in
                rw e (
                  All-append (IsFairMelee ts) out (make_candidate g ∷ []) h (
                    (
                      g,
                      (
                        make_candidate-IsMelee Q g p,
                        in_range_of_extremes g (
                            subst (λ d. d ≤ℤ least_of (λ t. t.search_delta) g) exact
                              (ground (arith, e))),
                      ),
                    ),
                    tt,
                  ))
          ])
          ts
          (each_both (StandsIn ts) (λ p. HasModestRating p.1) 0 ts (each-StandsIn ts)
            (EachFrom-All HasModestRating 0 ts m)),
      groups-length fits finish budget finish-length ts 8,
    )
