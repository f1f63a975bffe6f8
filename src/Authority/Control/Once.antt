-- ===== src/Authority/Control/Once.antt =====
-- Results that are reported again, and messages of a replaced process (`apply_server_control` of
-- core/src/grpc/mod.rs).
use elo_ranking_pairing_syst.Base.{
  length, ◌≤◌, inl, inr, Bool-cases, Result-cases, ℕ, ◌≡◌, refl, true, false, Option, some, ok,
  arith,
}
use elo_ranking_pairing_syst.Base.Map.{nat_key}
use elo_ranking_pairing_syst.Base.Set as Set
use elo_ranking_pairing_syst.Server.Types.{is_current_generation}
use elo_ranking_pairing_syst.Authority.Messages.{Env, MatchResult, ServerControl}
use elo_ranking_pairing_syst.Authority.State.{AuthorityState, and_then}
use elo_ranking_pairing_syst.Authority.{result_limit}
use elo_ranking_pairing_syst.Authority.Results.{IsAligned, remember-IsAligned}
use elo_ranking_pairing_syst.Authority.Finish.{finish_match}
use elo_ranking_pairing_syst.Authority.Finish.Whole.{finish_match-completed}
use elo_ranking_pairing_syst.Authority.Control.{
  acknowledge, complete, apply_match_result, apply_server_control,
}

module _ {env : Env} where
  -- A message of another generation than the server's changes nothing.
  pub stale_control :
      (s : AuthorityState env) (now id generation : ℕ) (reply : env.Control)
      (message : Option ServerControl)
      → is_current_generation s.registry id generation ≡ false
      → apply_server_control now id generation reply message s ≡ (ok tt, s)
  unfolding apply_server_control
  stale_control s now id generation reply message h = rw (h, apply_server_control) refl

  acknowledge_only :
      (s : AuthorityState env) (id match_id : ℕ)
      → record (acknowledge id match_id s).1 { controls = s.controls } ≡ s
  unfolding acknowledge
  acknowledge_only s id match_id = ground arith

  complete_known :
      (s : AuthorityState env) (id match_id : ℕ) (result : MatchResult)
      → Set.member match_id s.completed_match_results.results ≡ true
      → complete id match_id result s ≡ (ok tt, s)
  unfolding complete
  complete_known s id match_id result h = rw (h, complete) refl

  known_result :
      (s : AuthorityState env) (id match_id : ℕ) (result : MatchResult)
      → result.match_id ≡ some match_id
      → Set.member match_id s.completed_match_results.results ≡ true
      → (apply_match_result id result s ≡ acknowledge id match_id s)
        × (record (apply_match_result id result s).1 { controls = s.controls } ≡ s)
  unfolding apply_match_result
  known_result s id match_id result e h =
      let known = record result { match_id = some match_id } in
      let same : apply_match_result id result s ≡ acknowledge id match_id s =
        rw (e, complete_known s id match_id known h, apply_match_result) refl in
      (same, rw same (acknowledge_only s id match_id))

  complete_remembers :
      (s : AuthorityState env) (id match_id : ℕ) (result : MatchResult)
      → IsAligned s.completed_match_results
      → length s.completed_match_results.order ≤ result_limit
      → (complete id match_id result s).0 ≡ ok tt
      → Set.member match_id (complete id match_id result s).1.completed_match_results.results ≡ true
  unfolding complete
  complete_remembers s id match_id result aligned room h =
      let seen = s.completed_match_results in
      elim (Bool-cases (Set.member match_id seen.results)) [
        | inl e ↦ rw e e
        | inr e ↦ elim (Result-cases (finish_match id result s).0) [
          | inl (x, f) ↦ absurd (ground (arith, e, f, h))
          | inr (tt, f) ↦
              let (_, _, kept) = remember-IsAligned seen match_id aligned room in
              rw (e, and_then, f, finish_match-completed id result s) kept
        ]
      ]

  completed-acknowledge :
      (s : AuthorityState env) (id match_id : ℕ)
      → (acknowledge id match_id s).1.completed_match_results ≡ s.completed_match_results
  unfolding acknowledge
  completed-acknowledge s id match_id = ground arith

  apply_remembers :
      (s : AuthorityState env) (id match_id : ℕ) (result : MatchResult)
      → result.match_id ≡ some match_id
      → (complete id match_id result s).0 ≡ ok tt
      → (apply_match_result id result s).1.completed_match_results
        ≡ (complete id match_id result s).1.completed_match_results
  unfolding apply_match_result
  apply_remembers s id match_id result e h =
      let after = (complete id match_id result s).1 in
      ground (arith, e, h, completed-acknowledge after id match_id)

  -- A result that was applied, acknowledged or not, is applied once: from any server and whatever it says
  -- of the same match, it is acknowledged again and changes nothing besides the control streams, in any
  -- later state that remembers the same results; if the memory was aligned and within its limit before.
  pub repeated_result :
      (s later : AuthorityState env) (id other match_id : ℕ) (result again : MatchResult)
      → IsAligned s.completed_match_results
      → length s.completed_match_results.order ≤ result_limit
      → result.match_id ≡ some match_id
      → again.match_id ≡ some match_id
      → (complete id match_id result s).0 ≡ ok tt
      → later.completed_match_results ≡ (apply_match_result id result s).1.completed_match_results
      → (apply_match_result other again later ≡ acknowledge other match_id later)
        × (record (apply_match_result other again later).1 { controls = later.controls } ≡ later)
  repeated_result s later id other match_id result again aligned room e f applied same =
      known_result later other match_id again f (
        rw (same, apply_remembers s id match_id result e applied)
          (complete_remembers s id match_id result aligned room applied))
