-- ===== src/Rating/Bounds.antt =====
-- How far a game moves a rating (core/src/rating.rs).
use elo_ranking_pairing_syst.Base.{
  ℕ, suc, ◌-◌, ◌<◌, ◌≡◌, List, [], ◌∷◌, map, length, max, arith, All,
}
use elo_ranking_pairing_syst.Base.Int.{
  ℤ, pos, neg, magnitude, ◌+ℤ◌, ◌-ℤ◌, ◌≤ℤ◌, +ℤ_parts, -ℤ_parts, neg_parts,
}
use elo_ranking_pairing_syst.Base.Word.{wrap_i32, wrap_i32_id, clamp, clamp_bounds, IsI32}
use elo_ranking_pairing_syst.Rating.{
  Float, RatingPolicy, delta, mean, update_team, team_update_with_completed, sum_scores,
  update_each, free_for_all,
}

-- Each new rating differs from the old one by at most the bound, and there is one for each.
abbrev pub AreWithin : ℤ → List ℤ → List ℤ → Type 0
AreWithin bound [] [] = Unit
AreWithin bound (r ∷ rs) (n ∷ ns) =
    ((neg bound ≤ℤ n -ℤ r) × (n -ℤ r ≤ℤ bound)) × AreWithin bound rs ns
AreWithin bound _ _ = ⊥

-- Sums of two such numbers are 32-bit values.
abbrev pub IsModest : ℤ → Type 0
IsModest r = magnitude r < 1073741824

-- Clamping to a symmetric range and converting to an integer stays in the range; this holds of what
-- is not a number as well, which is converted to 0.
abbrev pub ClampLaw : Float → Type 0
ClampLaw fl =
    (bound : ℤ) (x : fl.F)
    → pos 0 ≤ℤ bound
    → IsI32 bound
    → (neg bound ≤ℤ fl.to_int (fl.clamp_f (fl.of_int (neg bound)) (fl.of_int bound) x))
      × (fl.to_int (fl.clamp_f (fl.of_int (neg bound)) (fl.of_int bound) x) ≤ℤ bound)

moved :
    (bound r d : ℤ)
    → IsModest r
    → IsModest bound
    → neg bound ≤ℤ d
    → d ≤ℤ bound
    → (neg bound ≤ℤ wrap_i32 (r +ℤ d) -ℤ r) × (wrap_i32 (r +ℤ d) -ℤ r ≤ℤ bound)
moved bound r d h k l u =
    let exact = wrap_i32_id (r +ℤ d) (ground (arith, +ℤ_parts r d, neg_parts bound)) in
    rw exact (ground (arith, +ℤ_parts r d, neg_parts bound, -ℤ_parts (r +ℤ d) r))

module _ (fl : Float) where
  update_each-AreWithin :
      (i : ℕ) (ps players : List (ℤ × ℕ)) (p : RatingPolicy fl)
      → pos 0 ≤ℤ p.maximum_delta
      → IsModest p.maximum_delta
      → All (λ (q : ℤ × ℕ). IsModest q.0) ps
      → AreWithin p.maximum_delta (map (λ (q : ℤ × ℕ). q.0) ps) (update_each fl i ps players p)
  unfolding update_each
  update_each-AreWithin i [] players p z m h = tt
  update_each-AreWithin i ((rating, rank) ∷ ps) players p z m (r, h) =
      let sum = sum_scores fl i rating rank 0 players fl.zero_f in
      let among = fl.of_int (pos (max (length players - 1) 1)) in
      let raw = fl.to_int (fl.round (fl.div (fl.mul p.established_k sum) among)) in
      let near =
        clamp_bounds (neg p.maximum_delta) p.maximum_delta raw
          (ground (arith, neg_parts p.maximum_delta, z)) in
      (
        moved p.maximum_delta rating (clamp (neg p.maximum_delta) p.maximum_delta raw) r m near.0
            near.1,
        update_each-AreWithin (suc i) ps players p z m h,
      )

  -- A free-for-all gives every player a new rating, which differs from the old one by at most the
  -- greatest change of the policy, whatever the floating point operations yield; the ratings and that
  -- change are at most 2^30 - 1 either way, and the change is not negative.
  pub free_for_all-AreWithin :
      (players : List (ℤ × ℕ)) (p : RatingPolicy fl)
      → pos 0 ≤ℤ p.maximum_delta
      → IsModest p.maximum_delta
      → All (λ (q : ℤ × ℕ). IsModest q.0) players
      → AreWithin p.maximum_delta (map (λ (q : ℤ × ℕ). q.0) players) (free_for_all fl players p)
  unfolding free_for_all
  free_for_all-AreWithin players p z m h = update_each-AreWithin 0 players players p z m h

  module _ (law : ClampLaw fl) where
    delta_bounds :
        (current opponent : ℤ) (actual : fl.F) (completed : ℕ) (p : RatingPolicy fl)
        → pos 0 ≤ℤ p.maximum_delta
        → IsModest p.maximum_delta
        → (neg p.maximum_delta ≤ℤ delta fl current opponent actual completed p)
          × (delta fl current opponent actual completed p ≤ℤ p.maximum_delta)
    unfolding delta
    delta_bounds current opponent actual completed p z m =
        law p.maximum_delta _ z (ground (arith, m))

    update_team-AreWithin :
        (opponent : ℤ) (actual : fl.F) (rs : List ℤ) (cs : List ℕ) (p : RatingPolicy fl)
        → length rs ≡ length cs
        → pos 0 ≤ℤ p.maximum_delta
        → IsModest p.maximum_delta
        → All IsModest rs
        → AreWithin p.maximum_delta rs (update_team fl opponent actual rs cs p)
    unfolding update_team
    update_team-AreWithin opponent actual [] [] p e z m h = tt
    update_team-AreWithin opponent actual [] (c ∷ cs) p e z m h = ground (arith, e)
    update_team-AreWithin opponent actual (r ∷ rs) [] p e z m h = ground (arith, e)
    update_team-AreWithin opponent actual (r ∷ rs) (c ∷ cs) p e z m (hr, h) =
        let near = delta_bounds r opponent actual c p z m in
        (
          moved p.maximum_delta r (delta fl r opponent actual c p) hr m near.0 near.1,
          update_team-AreWithin opponent actual rs cs p (omega (arith, e)) z m h,
        )

    -- A game of two teams gives each player of both a new rating, which differs from the old one by at
    -- most the greatest change of the policy, given that clamping a floating point number to a range
    -- about 0 and converting it to an integer stays in the range. There is a number of games for each
    -- player; ratings and change are as in a free-for-all.
    pub team_update_with_completed-AreWithin :
        (winners losers : List ℤ) (winner_completed loser_completed : List ℕ) (p : RatingPolicy fl)
        → length winners ≡ length winner_completed
        → length losers ≡ length loser_completed
        → pos 0 ≤ℤ p.maximum_delta
        → IsModest p.maximum_delta
        → All IsModest winners
        → All IsModest losers
        → AreWithin p.maximum_delta winners
            (team_update_with_completed fl winners losers winner_completed loser_completed p).0
          × AreWithin p.maximum_delta losers
              (team_update_with_completed fl winners losers winner_completed loser_completed p).1
    unfolding team_update_with_completed
    team_update_with_completed-AreWithin winners losers wc lc p e f z m hw hl = (
      update_team-AreWithin (mean fl losers) fl.one_f winners wc p e z m hw,
      update_team-AreWithin (mean fl winners) fl.zero_f losers lc p f z m hl,
    )
