-- ===== src/Credit/Score.antt =====
-- Bounds and directions of the credit score.
use elo_ranking_pairing_syst.Base.{ℕ, ◌+◌, ◌-◌, ◌≤◌, ◌≡◌, ◌↔◌, true, false, arith, min}
use elo_ranking_pairing_syst.Base.Word.{u32_max}
use elo_ranking_pairing_syst.Credit.{
  CreditPolicy, CreditCause, rejected, timed_out, infrastructure_failure, completed_match, apply,
  is_violation,
}

-- A score in range stays in range and moves by what its cause says: down by the penalty and no
-- further than 0 for a violation, not at all for a failure of the infrastructure, up by at most
-- one for a completed match. The player is eligible exactly from the policy's minimum on, and the
-- steps of suspension count the violations and end at the greatest `u32`.
pub apply_bounds :
    (score violations completed : ℕ) (cause : CreditCause) (p : CreditPolicy)
    → score ≤ 100
    → violations ≤ u32_max
    → let o = apply score violations completed cause p in
      (o.score ≤ 100)
      × ((cause ≡ rejected) → o.score ≡ score - p.reject_penalty)
      × ((cause ≡ timed_out) → o.score ≡ score - p.timeout_penalty)
      × ((cause ≡ infrastructure_failure) → o.score ≡ score)
      × ((cause ≡ completed_match) → (score ≤ o.score) × (o.score ≤ score + 1))
      × ((o.eligible ≡ true) ↔ (p.minimum ≤ o.score))
      × (is_violation cause ≡ true → o.suspension_steps ≡ min (violations + 1) u32_max)
      × (is_violation cause ≡ false → o.suspension_steps ≡ 0)
unfolding apply
apply_bounds score violations completed rejected p h k = ground arith
apply_bounds score violations completed timed_out p h k = ground arith
apply_bounds score violations completed infrastructure_failure p h k = ground arith
apply_bounds score violations completed completed_match p h k = ground arith
