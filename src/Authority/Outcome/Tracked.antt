-- ===== src/Authority/Outcome/Tracked.antt =====
-- What a server answers to a launch leaves every match on its own server (`launch_result` of
-- core/src/grpc/mod.rs).
use elo_ranking_pairing_syst.Base.{
  ℕ, ◌≡◌, refl, ◌∙◌, true, ==_iff, some, [], map, unwrap_or, ◌==◌, ◌||◌, first, if_some, for_each,
  for_each_keeps, inl, inr, ok, arith, Bool-cases, Option-cases,
}
use elo_ranking_pairing_syst.Base.Text.{Text, text, eq_ignore_ascii_case}
use elo_ranking_pairing_syst.Base.Map.{Map, lookup, insert, keys, nat_key}
use elo_ranking_pairing_syst.Placement as Placement
use elo_ranking_pairing_syst.Placement.Retry.{IsOnlyOn}
use elo_ranking_pairing_syst.Placement.Tracked.{IsTracked, tracked-IsOnlyOn, change-IsTracked}
use elo_ranking_pairing_syst.Placement.Moved.{retry_after_failure-IsTracked}
use elo_ranking_pairing_syst.Proposal.{Proposal}
use elo_ranking_pairing_syst.Server.Types.{
  InstanceState, reserved, accepted, ready, running, finished, server_lost, Instance, GameServer,
  Registry, is_live,
}
use elo_ranking_pairing_syst.Authority.{proposal_mode}
use elo_ranking_pairing_syst.Authority.Messages.{
  ClientEvent, matched, ErpsControl, LaunchResult, Env,
}
use elo_ranking_pairing_syst.Authority.State.{AuthorityState, emit_party}
use elo_ranking_pairing_syst.Authority.Cancel.{emit_one}
use elo_ranking_pairing_syst.Authority.Launch.{
  common_regions, released, launch_message, instance_cost, deliver, send_launch, retry_launch,
}
use elo_ranking_pairing_syst.Authority.Outcome.{
  may_be_ready, run_at, admit, set_matched, publish, accept_launch, ready_launch, reject_launch,
  dispatch, launch_result, mark_running,
}

ready_live : (state : InstanceState) → may_be_ready state ≡ true → is_live state ≡ true
ready_live state h = ground arith

module _ {env : Env} where
  -- The servers in order, and each match that was launched on its own server.
  abbrev pub HasTracked : AuthorityState env → Type 0
  HasTracked s = IsTracked s.registry s.launches

  -- What it is about.
  abbrev pub placed_of : AuthorityState env → Registry × Map ℕ (ℕ × ℕ)
  placed_of s = (s.registry, s.launches)

  placed-admit :
      (m : ℕ) (event : ClientEvent) (player : ℕ) (s : AuthorityState env)
      → placed_of (admit m event player s) ≡ placed_of s
  unfolding admit
  placed-admit m event player s = refl

  placed-set_matched :
      (id : ℕ) (s : AuthorityState env) → placed_of (set_matched id s) ≡ placed_of s
  unfolding set_matched
  placed-set_matched id s = refl

  pub placed-emit_one : (id : ℕ) (s : AuthorityState env) → placed_of (emit_one id s) ≡ placed_of s
  unfolding emit_one emit_party
  placed-emit_one id s = ground arith

  placed-publish :
      (m id : ℕ) (p : Proposal) (endpoint token : Text) (s : AuthorityState env)
      → placed_of (publish m id p endpoint token s) ≡ placed_of s
  unfolding publish
  placed-publish m id p endpoint token s =
      let event = matched (record {
        match_id = m;
        mode = proposal_mode p;
        teams = p.teams;
        endpoint = endpoint;
        connection_token = token;
      }) in
      let inside = for_each (admit m event) (keys p.responses) s in
      let parties = map (λ t. t.0) (unwrap_or [] (lookup id s.proposal_tickets)) in
      for_each_keeps placed_of emit_one placed-emit_one parties
        (for_each set_matched parties inside)
      ∙ for_each_keeps placed_of set_matched placed-set_matched parties inside
      ∙ for_each_keeps placed_of (admit m event) (placed-admit m event) (keys p.responses) s

  accept_launch-IsTracked :
      (server m : ℕ) (state : InstanceState) (g : GameServer) (i : Instance)
      (s : AuthorityState env)
      → HasTracked s
      → lookup server s.registry ≡ some g
      → lookup m g.instances ≡ some i
      → i.state ≡ state
      → HasTracked (accept_launch server m state s).1
  unfolding accept_launch
  accept_launch-IsTracked server m reserved g i s r e f same =
      change-IsTracked s.registry s.launches server m _ g i r e f (ground (arith, same))
  accept_launch-IsTracked server m accepted g i s r e f same = r
  accept_launch-IsTracked server m ready g i s r e f same = r
  accept_launch-IsTracked server m running g i s r e f same = r
  accept_launch-IsTracked server m finished g i s r e f same = r
  accept_launch-IsTracked server m server_lost g i s r e f same = r

  ready_launch-IsTracked :
      (server m id : ℕ) (p : Proposal) (endpoint token : Text) (g : GameServer) (i : Instance)
      (s : AuthorityState env)
      → HasTracked s
      → lookup server s.registry ≡ some g
      → lookup m g.instances ≡ some i
      → HasTracked (ready_launch server m id p i.state endpoint token s).1
  unfolding ready_launch
  ready_launch-IsTracked server m id p endpoint token g i s r e f =
      elim (Bool-cases (may_be_ready i.state)) [
        | inr n ↦ ground (arith, n, r)
        | inl live ↦
            let next = mark_running server m endpoint token s in
            let order : HasTracked next =
              change-IsTracked s.registry s.launches server m (run_at endpoint token) g i r e f
                (ground (arith, ready_live i.state live)) in
            ground (arith, r, order, placed-publish m id p endpoint token next)
      ]

  delivered :
      (now m server id : ℕ) (message : ErpsControl) (s done : AuthorityState env)
      → deliver now m server id message s ≡ some done
      → (done.registry ≡ s.registry) × (done.launches ≡ insert m (server, id) s.launches)
  unfolding send_launch
  delivered now m server id message s done h = (ground arith, ground arith)

  pub given_back :
      (server m : ℕ) (left : Registry) (s : AuthorityState env)
      → Placement.release s.registry server m ≡ ok left
      → placed_of (released s server m) ≡ (left, s.launches)
  unfolding released
  given_back server m left s h = rw (h, released) refl

  -- A launch that is tried again leaves the matches tracked, whatever it comes to.
  pub retry_launch-IsTracked :
      (now m failed id : ℕ) (s : AuthorityState env)
      → HasTracked s
      → IsOnlyOn failed m s.registry
      → HasTracked (retry_launch now m failed id s).1
  unfolding retry_launch
  retry_launch-IsTracked now m failed id s r only = elim (Option-cases (lookup id s.proposals)) [
    | inl e ↦ rw e r
    | inr (p, e) ↦
        let regions = if_some (lookup id s.proposal_tickets) common_regions [] in
        elim (Option-cases (first regions)) [
          | inl f ↦ rw (e, f) r
          | inr (region, f) ↦
              let mode = proposal_mode p in
              let tried = Placement.retry_after_failure s.registry failed m mode region in
              let s' = record s { registry = tried.0 } in
              elim (retry_after_failure-IsTracked s.registry failed m mode region s.launches r
                only) [
                  | inl (x, k, order) ↦ ground (arith, e, f, k, order)
                  | inr (server, k, at, left, back, order) ↦
                      let message = launch_message p m (instance_cost tried.0 server m) in
                      elim (Option-cases (deliver now m server id message s')) [
                        | inl d ↦
                            ground (arith, e, f, k, d, given_back server m left s' back, order)
                        | inr (done, d) ↦
                            let same = delivered now m server id message s' done d in
                            ground (arith, e, f, k, d, same, at id)
                      ]
                ]
        ]
  ]

  reject_launch-IsTracked :
      (now server m id : ℕ) (state : InstanceState) (s : AuthorityState env)
      → HasTracked s
      → IsOnlyOn server m s.registry
      → HasTracked (reject_launch now server m id state s).1
  unfolding reject_launch
  reject_launch-IsTracked now server m id state s r only =
      ground (arith, r, retry_launch-IsTracked now m server id s r only)

  dispatch-IsTracked :
      (now server m id : ℕ) (p : Proposal) (result : LaunchResult) (g : GameServer) (i : Instance)
      (s : AuthorityState env)
      → HasTracked s
      → IsOnlyOn server m s.registry
      → lookup server s.registry ≡ some g
      → lookup m g.instances ≡ some i
      → HasTracked (dispatch now server m id p i.state result s).1
  unfolding dispatch
  dispatch-IsTracked now server m id p result g i s r only e f =
      let is = eq_ignore_ascii_case result.state in
      elim (Bool-cases (is (text "accepted"))) [
        | inr a ↦ elim (Bool-cases (is (text "ready"))) [
          | inr b ↦ elim (Bool-cases (is (text "rejected") || is (text "failed"))) [
            | inr c ↦ rw (a, b, c) r
            | inl c ↦ rw (a, b, c) (reject_launch-IsTracked now server m id i.state s r only)
          ]
          | inl b ↦
              rw (a, b)
                (ready_launch-IsTracked server m id p result.endpoint result.connection_token g i s
                  r e f)
        ]
        | inl a ↦ rw a (accept_launch-IsTracked server m i.state g i s r e f refl)
      ]

  -- An answer to a launch, whatever it says, leaves the matches tracked.
  pub launch_result-IsTracked :
      (now server : ℕ) (result : LaunchResult) (s : AuthorityState env)
      → HasTracked s
      → HasTracked (launch_result now server result s).1
  unfolding launch_result
  launch_result-IsTracked now server result s r = elim (Option-cases result.match_id) [
    | inl e ↦ rw e r
    | inr (m, e) ↦ elim (Option-cases (lookup m s.launches)) [
      | inl f ↦ rw (e, f) r
      | inr ((owner, id), f) ↦ elim (Bool-cases (owner == server)) [
        | inr other ↦ rw (e, f, other) r
        | inl own ↦ elim (Option-cases (lookup id s.proposals)) [
          | inl n ↦ rw (e, f, own, n) r
          | inr (p, n) ↦ elim (Option-cases (lookup server s.registry)) [
            | inl k ↦ rw (e, f, own, n, k) r
            | inr (g, k) ↦ elim (Option-cases (lookup m g.instances)) [
              | inl l ↦ rw (e, f, own, n, k, l) r
              | inr (i, l) ↦
                  let only =
                    tracked-IsOnlyOn s.registry s.launches m server id r
                      (ground (arith, f, ==_iff owner server)) in
                  rw (e, f, own, n, k, l)
                    (dispatch-IsTracked now server m id p result g i s r only k l)
            ]
          ]
        ]
      ]
    ]
  ]
