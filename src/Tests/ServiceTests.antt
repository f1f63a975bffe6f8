-- ===== src/Tests/ServiceTests.antt =====
-- Sessions, profiles, identifiers, samples and ratings at concrete inputs.
use elo_ranking_pairing_syst.Base.{
  ℕ, length, ◌≤◌, ◌≡◌, ◌≢◌, refl, true, none, List, [], ◌∷◌, ok, arith,
}
use elo_ranking_pairing_syst.Base.Int.{
  ℤ, pos, neg, ◌+ℤ◌, ◌-ℤ◌, ◌*ℤ◌, magnitude, leb_ℤ, div_trunc, neg_parts,
}
use elo_ranking_pairing_syst.Base.Word.{clamp, clamp_bounds}
use elo_ranking_pairing_syst.Base.Map.{lookup, nat_key}
use elo_ranking_pairing_syst.Base.Sort.{sort_by}
use elo_ranking_pairing_syst.Base.Set as Set
use elo_ranking_pairing_syst.Authority.{Completed, remember_completed_match_result, remember_all}
use elo_ranking_pairing_syst.Authority.Results.{IsAligned, remember_all-IsAligned}
use elo_ranking_pairing_syst.Session.{Session}
use elo_ranking_pairing_syst.Profile.{PlayerProfile, default_profile, load}
use elo_ranking_pairing_syst.Metrics.{summary, percentile}
use elo_ranking_pairing_syst.Rating.{Float, RatingPolicy, free_for_all}
use elo_ranking_pairing_syst.Config.{
  default_config, validate, bad_elo_range, bad_k, bad_credit, check_positive, check_classes,
}
use elo_ranking_pairing_syst.Rating.Bounds.{AreWithin, ClampLaw, free_for_all-AreWithin}

abbrev session : Session
session = record { id = 5; player = 7; disconnected_at = none }

abbrev punished : PlayerProfile
punished = record default_profile { credit = 98 }

punished_differs : punished ≢ load [] 3
unfolding load lookup
punished_differs e = ground (arith, e)

-- The test `histogram_summary_is_stable_and_handles_empty_input` of core/src/metrics.rs.
percentiles : (summary (100 ∷ 10 ∷ 50 ∷ 90 ∷ 30 ∷ [])).p95 ≡ 100
unfolding summary percentile sort_by
percentiles = refl

-- Integers in place of floating point numbers: the operations are rounded.
abbrev pub integers : Float
integers = record {
  F = ℤ;
  of_int = λ z. z;
  to_int = λ z. z;
  zero_f = pos 0;
  half_f = pos 0;
  one_f = pos 1;
  add = ◌+ℤ◌;
  sub = ◌-ℤ◌;
  mul = ◌*ℤ◌;
  div = λ a b. div_trunc a (magnitude b);
  pow = λ a b. a;
  round = λ z. z;
  clamp_f = clamp;
  is_finite = λ z. true;
  le_f = leb_ℤ;
}

integers_law : ClampLaw integers
integers_law bound x z h = clamp_bounds (neg bound) bound x (ground (arith, neg_parts bound, z))

-- The test `defaults_are_valid` of core/src/config.rs.
defaults_are_valid : validate integers (default_config integers) ≡ ok tt
unfolding validate bad_elo_range bad_k bad_credit check_positive check_classes
defaults_are_valid = refl

abbrev policy : RatingPolicy integers
policy = record {
  established_k = pos 20;
  provisional_k = pos 40;
  provisional_matches = 10;
  maximum_delta = pos 40;
}

abbrev ranked : List (ℤ × ℕ)
ranked = (pos 1000, 1) ∷ (pos 1100, 2) ∷ (pos 900, 2) ∷ []

free_for_all-AreWithin_example :
    AreWithin (pos 40) (pos 1000 ∷ pos 1100 ∷ pos 900 ∷ []) (free_for_all integers ranked policy)
free_for_all-AreWithin_example =
    free_for_all-AreWithin integers ranked policy (omega arith) (omega arith)
      (omega arith, (omega arith, (omega arith, tt)))

abbrev applied : Completed
applied = record { results = 4 ∷ 7 ∷ []; order = 7 ∷ 4 ∷ [] }

applied-IsAligned : IsAligned applied
unfolding Set.member
applied-IsAligned = ((λ j. ground arith), (refl, (refl, tt)))

remember_all-IsAligned_example :
    IsAligned (remember_all applied (4 ∷ 9 ∷ []))
    × (length (remember_all applied (4 ∷ 9 ∷ [])).order ≤ 4096)
    × (Set.member 2 (remember_completed_match_result (remember_all applied (4 ∷ 9 ∷ [])) 2).results
        ≡ true)
remember_all-IsAligned_example =
    remember_all-IsAligned (4 ∷ 9 ∷ []) 2 applied applied-IsAligned (omega arith)
