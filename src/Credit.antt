-- ===== src/Credit.antt =====
-- core/src/credit.rs: how a player's credit score moves.
pub mod Score
use elo_ranking_pairing_syst.Base.{
  ℕ, ◌+◌, ◌-◌, ◌%◌, ◌≤◌, Bool, true, false, leb, if◌then◌else◌, min,
}
use elo_ranking_pairing_syst.Base.Word.{u8_max, u32_max, u32_mod, saturating_add, saturating_sub}

pub record CreditPolicy : Type 0 where
  pub reject_penalty : ℕ
  pub timeout_penalty : ℕ
  pub minimum : ℕ
  pub recovery_matches : ℕ

abbrev pub default_policy : CreditPolicy
default_policy = record {
  reject_penalty = 2;
  timeout_penalty = 5;
  minimum = 60;
  recovery_matches = 3;
}

pub data CreditCause : Type 0 where
  rejected timed_out infrastructure_failure completed_match : CreditCause

pub record CreditOutcome : Type 0 where
  pub score : ℕ
  pub eligible : Bool
  pub suspension_steps : ℕ

abbrev pub is_violation : CreditCause → Bool
is_violation rejected = true
is_violation timed_out = true
is_violation _ = false

-- The score after the cause, from a score that is at most 100; `completed + 1` wraps.
unfoldable pub next_score : CreditPolicy → ℕ → ℕ → CreditCause → ℕ
next_score p completed score rejected = saturating_sub score p.reject_penalty
next_score p completed score timed_out = saturating_sub score p.timeout_penalty
next_score p completed score infrastructure_failure = score
next_score p completed score completed_match =
    if leb p.recovery_matches ((completed + 1) % u32_mod)
    then min (saturating_add u8_max score 1) 100
    else score

unfoldable pub apply : ℕ → ℕ → ℕ → CreditCause → CreditPolicy → CreditOutcome
unfolding next_score
apply score recent_violations completed cause p =
    let next = next_score p completed (min score 100) cause in
    record {
      score = next;
      eligible = leb p.minimum next;
      suspension_steps =
          if is_violation cause then saturating_add u32_max recent_violations 1 else 0;
    }
