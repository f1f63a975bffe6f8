-- ===== src/Rating.antt =====
-- core/src/rating.rs: the Elo rating. The 64-bit floating point operations are the interface Float.
pub mod Bounds
use elo_ranking_pairing_syst.Base.{
  ℕ, suc, zero, ◌+◌, ◌-◌, ◌≤◌, ◌≡◌, refl, ◌==◌, Bool, true, false, List, [], ◌∷◌, map, length, max,
  ltb, arith, if◌then◌else◌,
}
use elo_ranking_pairing_syst.Base.Int.{ℤ, pos, neg, ◌+ℤ◌, ◌-ℤ◌, ◌≤ℤ◌, sum_ℤ, div_trunc}
use elo_ranking_pairing_syst.Base.Word.{wrap_i32, clamp, clamp_bounds}
use elo_ranking_pairing_syst.Components.{QueueMode}

-- What the source uses of `f64`.
pub record Float : Type 1 where
  pub F : Type 0
  -- `x as f64` of an `i32`, and `x as i32`, which saturates
  pub of_int : ℤ → F
  pub to_int : F → ℤ
  pub zero_f : F
  pub half_f : F
  pub one_f : F
  pub add : F → F → F
  pub sub : F → F → F
  pub mul : F → F → F
  pub div : F → F → F
  pub pow : F → F → F
  pub round : F → F
  pub clamp_f : F → F → F → F
  pub is_finite : F → Bool
  pub le_f : F → F → Bool

module _ (fl : Float) where
  pub record RatingPolicy : Type 0 where
    pub established_k : fl.F
    pub provisional_k : fl.F
    pub provisional_matches : ℕ
    pub maximum_delta : ℤ

  -- `1.0 / (1.0 + 10f64.powf((b - a) as f64 / 400.0))`
  unfoldable pub expected : ℤ → ℤ → fl.F
  expected a b = fl.div fl.one_f (
      fl.add fl.one_f (
        fl.pow (fl.of_int (pos 10)) (fl.div (fl.of_int (wrap_i32 (b -ℤ a))) (fl.of_int (pos 400)))))

  unfoldable pub delta : ℤ → ℤ → fl.F → ℕ → RatingPolicy → ℤ
  delta current opponent actual completed policy =
      let k =
        if ltb completed policy.provisional_matches
        then policy.provisional_k
        else policy.established_k in
      let raw = fl.round (fl.mul k (fl.sub actual (expected current opponent))) in
      fl.to_int
        (fl.clamp_f (fl.of_int (neg policy.maximum_delta)) (fl.of_int policy.maximum_delta) raw)

  unfoldable pub one_vs_one : ℤ → ℤ → fl.F → ℕ → ℕ → RatingPolicy → ℤ × ℤ
  one_vs_one a b a_score a_completed b_completed p = (
    wrap_i32 (a +ℤ delta a b a_score a_completed p),
    wrap_i32 (b +ℤ delta b a (fl.sub fl.one_f a_score) b_completed p),
  )

  -- The sum, as an `i32`, over the number.
  unfoldable pub mean : List ℤ → ℤ
  mean [] = pos 0
  mean (x ∷ xs) = div_trunc (wrap_i32 (sum_ℤ (x ∷ xs))) (length (x ∷ xs))

  -- One team of `team_update_with_completed`, against the other's mean.
  unfoldable pub update_team : ℤ → fl.F → List ℤ → List ℕ → RatingPolicy → List ℤ
  update_team opponent actual (r ∷ rs) (c ∷ cs) p =
      wrap_i32 (r +ℤ delta r opponent actual c p) ∷ update_team opponent actual rs cs p
  update_team opponent actual _ _ p = []

  unfoldable pub team_update_with_completed :
      List ℤ → List ℤ → List ℕ → List ℕ → RatingPolicy → List ℤ × List ℤ
  team_update_with_completed winners losers winner_completed loser_completed p = (
    update_team (mean losers) fl.one_f winners winner_completed p,
    update_team (mean winners) fl.zero_f losers loser_completed p,
  )

  unfoldable pub team_update : List ℤ → List ℤ → RatingPolicy → List ℤ × List ℤ
  team_update winners losers p =
      team_update_with_completed winners losers (map (λ _. p.provisional_matches) winners)
        (map (λ _. p.provisional_matches) losers) p

  -- The score of rank `rank` against `other`.
  unfoldable pub actual_score : ℕ → ℕ → fl.F
  actual_score rank other =
      if ltb rank other then fl.one_f else if rank == other then fl.half_f else fl.zero_f

  -- `for (j, opponent)`, from the player `j` on, for the player `i`.
  unfoldable pub sum_scores : ℕ → ℤ → ℕ → ℕ → List (ℤ × ℕ) → fl.F → fl.F
  sum_scores i rating rank j [] sum = sum
  sum_scores i rating rank j ((opponent, other) ∷ ps) sum =
      let sum' = fl.add sum (fl.sub (actual_score rank other) (expected rating opponent)) in
      sum_scores i rating rank (suc j) ps (if i == j then sum else sum')

  unfoldable pub update_each : ℕ → List (ℤ × ℕ) → List (ℤ × ℕ) → RatingPolicy → List ℤ
  update_each i [] players p = []
  update_each i ((rating, rank) ∷ ps) players p =
      let sum = sum_scores i rating rank 0 players fl.zero_f in
      let among = fl.of_int (pos (max (length players - 1) 1)) in
      let raw = fl.to_int (fl.round (fl.div (fl.mul p.established_k sum) among)) in
      wrap_i32 (rating +ℤ clamp (neg p.maximum_delta) p.maximum_delta raw)
      ∷ update_each (suc i) ps players p

  -- The players with their ranks.
  unfoldable pub free_for_all : List (ℤ × ℕ) → RatingPolicy → List ℤ
  free_for_all players p = update_each 0 players players p
