-- ===== src/Authority/Control/Tracked.antt =====
-- The messages of a game server leave every match on its own server and every server in order
-- (`apply_server_control` of core/src/grpc/mod.rs).
use elo_ranking_pairing_syst.Base.{
  ℕ, ◌≡◌, refl, true, Option, none, some, ◌==◌, inl, inr, ok, arith, Bool-cases, Option-cases,
  Result-cases,
}
use elo_ranking_pairing_syst.Base.Text.{Text}
use elo_ranking_pairing_syst.Base.Map.{modify, lookup, insert, nat_key}
use elo_ranking_pairing_syst.Placement.Tracked.{
  AddsNothing-IsTracked, remove-IsTracked, modify-AddsNothing, change-IsTracked,
  release-AddsNothing, AddsNothing,
}
use elo_ranking_pairing_syst.Server.Types.{InstanceState, Instance, Registry, is_live}
use elo_ranking_pairing_syst.Server.Monitor.{beat, heartbeat}
use elo_ranking_pairing_syst.Server.Ledger.{live_cost}
use elo_ranking_pairing_syst.Server.Ledger.Health.{heartbeat_lem}
use elo_ranking_pairing_syst.Authority.{valid_reported_instance_transition}
use elo_ranking_pairing_syst.Authority.Messages.{GameInstance, MatchResult, ServerControl, Env}
use elo_ranking_pairing_syst.Authority.State.{◌>>◌, AuthorityState}
use elo_ranking_pairing_syst.Authority.Outcome.Tracked.{HasTracked, launch_result-IsTracked}
use elo_ranking_pairing_syst.Authority.Finish.{finish_match}
use elo_ranking_pairing_syst.Authority.Finish.Whole.{
  finish_match-release, finish_match-refused, finish_match-remove,
}
use elo_ranking_pairing_syst.Authority.Control.{
  parse_instance, report_on, apply_instance, acknowledge, complete, apply_match_result,
  apply_message, apply_server_control,
}

-- A transition that a server may report neither ends an instance nor revives it.
reported_live :
    (state next : InstanceState)
    → valid_reported_instance_transition state next ≡ true
    → is_live next ≡ is_live state
unfolding valid_reported_instance_transition
reported_live state next h = ground arith

report_live :
    (next : InstanceState) (endpoint token : Text) (i : Instance)
    → valid_reported_instance_transition i.state next ≡ true
    → live_cost (report_on next endpoint token i) ≡ live_cost i
unfolding report_on
report_live next endpoint token i h = ground (arith, reported_live i.state next h)

beats :
    (now server generation used : ℕ) (servers after : Registry)
    → heartbeat servers server generation now used ≡ ok after
    → AddsNothing servers after
unfolding heartbeat
beats now server generation used servers after h = elim (Option-cases (lookup server servers)) [
  | inl e ↦ absurd (ground arith)
  | inr (s, e) ↦ elim (Bool-cases (s.generation == generation)) [
    | inr other ↦ absurd (ground arith)
    | inl current ↦
        let same : modify server (beat now used) servers ≡ after = ground arith in
        rw same at (modify-AddsNothing server (beat now used) servers (λ m g _ k. unfold beat in k))
  ]
]

module _ {env : Env} where
  apply_instance-IsTracked :
      (server : ℕ) (value : GameInstance) (s : AuthorityState env)
      → HasTracked s
      → HasTracked (apply_instance server value s).1
  unfolding apply_instance
  apply_instance-IsTracked server value s r = elim (Option-cases value.match_id) [
    | inl e ↦ rw e r
    | inr (m, e) ↦ elim (Option-cases (lookup server s.registry)) [
      | inl f ↦ rw (e, f) r
      | inr (g, f) ↦ elim (Option-cases (lookup m g.instances)) [
        | inl k ↦ rw (e, f, k) r
        | inr (i, k) ↦ elim (Option-cases (parse_instance value.state)) [
          | inl n ↦ ground (arith, e, f, k, n, r)
          | inr (next, n) ↦ elim (Bool-cases (valid_reported_instance_transition i.state next)) [
            | inr v ↦ ground (arith, e, f, k, n, v, r)
            | inl v ↦
                let report = report_on next value.endpoint value.connection_token in
                let same = report_live next value.endpoint value.connection_token i v in
                let order = change-IsTracked s.registry s.launches server m report g i r f k same in
                ground (arith, e, f, k, n, v, r, order)
          ]
        ]
      ]
    ]
  ]

  finish_match-IsTracked :
      (server m : ℕ) (result : MatchResult) (s : AuthorityState env)
      → result.match_id ≡ some m
      → HasTracked s
      → HasTracked (finish_match server result s).1
  finish_match-IsTracked server m result s same r =
      elim (Result-cases (finish_match server result s).0) [
        | inl (x, e) ↦ rw (finish_match-refused server result s x e) r
        | inr (tt, e) ↦
            let after = (finish_match server result s).1 in
            let (order, gone, _, _) =
              finish_match-release server m result s same r.order r.distinct e in
            let adds = release-AddsNothing s.registry after.registry server m r.order gone in
            rw (finish_match-remove server m result s same e) (
              remove-IsTracked after.registry s.launches m
                (AddsNothing-IsTracked s.registry after.registry s.launches r order adds))
      ]

  complete-IsTracked :
      (server m : ℕ) (result : MatchResult) (s : AuthorityState env)
      → result.match_id ≡ some m
      → HasTracked s
      → HasTracked (complete server m result s).1
  unfolding complete
  complete-IsTracked server m result s same r =
      ground (arith, r, finish_match-IsTracked server m result s same r)

  acknowledge-IsTracked :
      (server m : ℕ) (s : AuthorityState env) → HasTracked s → HasTracked (acknowledge server m s).1
  unfolding acknowledge
  acknowledge-IsTracked server m s r = ground (arith, r)

  answer-IsTracked :
      (server m : ℕ) (result : MatchResult) (s : AuthorityState env)
      → result.match_id ≡ some m
      → HasTracked s
      → HasTracked ((complete server m result >> acknowledge server m) s).1
  answer-IsTracked server m result s e r =
      let order = complete-IsTracked server m result s e r in
      elim (Result-cases (complete server m result s).0) [
        | inl (x, c) ↦ rw (◌>>◌, c) order
        | inr (tt, c) ↦
            rw (◌>>◌, c) (acknowledge-IsTracked server m (complete server m result s).1 order)
      ]

  apply_match_result-IsTracked :
      (server : ℕ) (result : MatchResult) (s : AuthorityState env)
      → HasTracked s
      → HasTracked (apply_match_result server result s).1
  unfolding apply_match_result
  apply_match_result-IsTracked server result s r = elim (Option-cases result.match_id) [
    | inl e ↦ rw e r
    | inr (m, e) ↦ rw e (answer-IsTracked server m (record result { match_id = some m }) s refl r)
  ]

  heartbeat-IsTracked :
      (now server generation used : ℕ) (s : AuthorityState env)
      → HasTracked s
      → HasTracked (apply_message now server generation (some (ServerControl.heartbeat used)) s).1
  unfolding apply_message
  heartbeat-IsTracked now server generation used s r =
      elim (heartbeat_lem s.registry server generation now used r.order) [
        | inr e ↦ ground (arith, e, r)
        | inl (g, _, _, after, e, order, _) ↦
            let adds = beats now server generation used s.registry after e in
            ground (arith, e, AddsNothing-IsTracked s.registry after s.launches r order adds)
      ]

  apply_message-IsTracked :
      (now server generation : ℕ) (message : Option ServerControl) (s : AuthorityState env)
      → HasTracked s
      → HasTracked (apply_message now server generation message s).1
  unfolding apply_message
  apply_message-IsTracked now server generation none s r = r
  apply_message-IsTracked now server generation (some (ServerControl.heartbeat used)) s r =
      heartbeat-IsTracked now server generation used s r
  apply_message-IsTracked now server generation (some (ServerControl.launch_result result)) s r =
      launch_result-IsTracked now server result s r
  apply_message-IsTracked now server generation (some (ServerControl.game_instance value)) s r =
      apply_instance-IsTracked server value s r
  apply_message-IsTracked now server generation (some (ServerControl.match_result result)) s r =
      apply_match_result-IsTracked server result s r

  -- Whatever a game server sends (a heartbeat, an answer to a launch, one that is tried elsewhere
  -- included, the state of an instance, or a result), taken or refused, leaves every server's ledger in
  -- order and each match that was launched on its own server at most, if it was so before.
  pub apply_server_control-IsTracked :
      (now server generation : ℕ) (reply : env.Control) (message : Option ServerControl)
      (s : AuthorityState env)
      → HasTracked s
      → HasTracked (apply_server_control now server generation reply message s).1
  unfolding apply_server_control
  apply_server_control-IsTracked now server generation reply message s r = ground (
    arith,
    r,
    apply_message-IsTracked now server generation message
        (record s { controls = insert server reply s.controls }) r,
  )
