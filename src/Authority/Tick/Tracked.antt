-- ===== src/Authority/Tick/Tracked.antt =====
-- What the clock brings about leaves every match on its own server (`tick` of core/src/grpc/mod.rs).
use elo_ranking_pairing_syst.Base.{
  ℕ, ◌≡◌, refl, Bool, true, false, [], ◌∷◌, none, is_some, inl, inr, ok, err, arith, ◌==◌,
  Bool-cases, Option-cases, for_each_preserves, Result,
}
use elo_ranking_pairing_syst.Base.Word.{u64_max, saturating_mul}
use elo_ranking_pairing_syst.Base.Map.{Map, lookup, modify, remove, nat_key}
use elo_ranking_pairing_syst.Base.Map.Laws.{lookup-map_values}
use elo_ranking_pairing_syst.Components.{AcceptState}
use elo_ranking_pairing_syst.Proposal.{RequeueDecision}
use elo_ranking_pairing_syst.Placement.Tracked.{
  instance_at, AddsNothing-IsTracked, remove-IsTracked, tracked-IsOnlyOn,
}
use elo_ranking_pairing_syst.Server.Types.{GameServer, Registry}
use elo_ranking_pairing_syst.Server.Monitor.{lose, examine, update_health}
use elo_ranking_pairing_syst.Server.Ledger.Health.{update_health-IsRegistry}
use elo_ranking_pairing_syst.Authority.Messages.{Status, Env}
use elo_ranking_pairing_syst.Authority.State.{AuthorityState, TicketRecord}
use elo_ranking_pairing_syst.Authority.Cancel.{
  charge, notify_cancelled, dismiss, return_ticket, save_profile, clear_proposal, cancel_proposal,
}
use elo_ranking_pairing_syst.Authority.Cancel.Keeps.{cancel_proposal_keeps}
use elo_ranking_pairing_syst.Authority.Launch.{retry_launch}
use elo_ranking_pairing_syst.Authority.Outcome.Tracked.{
  HasTracked, placed_of, placed-emit_one, retry_launch-IsTracked,
}
use elo_ranking_pairing_syst.Authority.Tick.{
  overdue, miss, drop_player, drop_players, expire_all, cancel_expired, cancel_overdue, give_up,
  abandon, handle_lost, check_servers, unhealthy_after, time_out_launch, time_out_launches,
}

examine_absent :
    (now unhealthy_after lost_after m : ℕ) (s : GameServer)
    → lookup m s.instances ≡ none
    → lookup m (examine now unhealthy_after lost_after s).instances ≡ none
unfolding examine
examine_absent now unhealthy_after lost_after m s h =
    ground (arith, h, lookup-map_values m lose s.instances)

examined_absent :
    (now unhealthy_after lost_after : ℕ) (servers : Registry) (id m : ℕ)
    → instance_at servers id m ≡ none
    → instance_at (update_health servers now unhealthy_after lost_after).0 id m ≡ none
unfolding lookup update_health
examined_absent now unhealthy_after lost_after [] id m h = refl
examined_absent now unhealthy_after lost_after ((j, s) ∷ servers) id m h =
    elim (Bool-cases (j == id)) [
      | inl e ↦ rw e (examine_absent now unhealthy_after lost_after m s (ground (arith, e, h)))
      | inr e ↦
          rw e (examined_absent now unhealthy_after lost_after servers id m (ground (arith, e, h)))
    ]

module _ {env : Env} where
  placed-dismiss :
      (now id : ℕ) (infrastructure : Bool) (d : RequeueDecision) (s : AuthorityState env)
      → placed_of (dismiss now id infrastructure d s) ≡ placed_of s
  unfolding dismiss charge notify_cancelled
  placed-dismiss now id infrastructure d s = ground arith

  placed-return_ticket :
      (responses : Map ℕ AcceptState) (infrastructure : Bool) (t : ℕ × TicketRecord)
      (s : AuthorityState env)
      → placed_of (return_ticket responses infrastructure t s) ≡ placed_of s
  unfolding return_ticket
  placed-return_ticket responses infrastructure (id, t) s = ground arith

  placed-cancel_proposal :
      (now id : ℕ) (infrastructure : Bool) (s : AuthorityState env)
      → placed_of (cancel_proposal now id infrastructure s) ≡ placed_of s
  placed-cancel_proposal now id infrastructure s =
      cancel_proposal_keeps {env = env} placed_of now id infrastructure
        (λ p t. unfold clear_proposal in refl) (placed-dismiss now id infrastructure)
        (λ responses. placed-return_ticket responses infrastructure) placed-emit_one
        (λ player t. unfold save_profile in refl) s

  -- Where the servers and the launches are the same.
  as_before :
      (before after : AuthorityState env)
      → placed_of after ≡ placed_of before
      → HasTracked before
      → HasTracked after
  as_before before after e t = ground (arith, e, t)

  placed-drop_player :
      (now player : ℕ) (s : AuthorityState env) → placed_of (drop_player now player s) ≡ placed_of s
  unfolding drop_player
  placed-drop_player now player s =
      let gone = record s { disconnect_deadlines = remove player s.disconnect_deadlines } in
      elim (Option-cases (lookup player s.player_party)) [
        | inl e ↦ rw e refl
        | inr (party, e) ↦ elim (Option-cases (lookup player s.player_proposal)) [
          | inr (id, f) ↦
              rw (e, f)
                (placed-cancel_proposal now id false
                  (record gone { proposals = modify id (miss player) s.proposals }))
          | inl f ↦ elim (Bool-cases (is_some (lookup party s.tickets))) [
            | inl k ↦ rw (e, f, k) refl
            | inr k ↦ rw (e, f, k) refl
          ]
        ]
      ]

  give_up-IsTracked :
      (now m id : ℕ) (outcome : Result (Unit {0}) Status) (s : AuthorityState env)
      → HasTracked s
      → HasTracked (give_up now m id (outcome, s))
  unfolding give_up
  give_up-IsTracked now m id (ok x) s t = t
  give_up-IsTracked now m id (err e) s t =
      let ended =
        as_before s (cancel_proposal now id true s) (placed-cancel_proposal now id true s) t in
      remove-IsTracked _ _ m ended

  abandon-IsTracked :
      (now m id : ℕ) (outcome : Result (Unit {0}) Status) (s : AuthorityState env)
      → HasTracked s
      → HasTracked (abandon now m id (outcome, s))
  unfolding abandon
  abandon-IsTracked now m id (ok x) s t = t
  abandon-IsTracked now m id (err e) s t = give_up-IsTracked now m id (err e) s t

  handle_lost-IsTracked :
      (now : ℕ) (lost : ℕ × Bool) (s : AuthorityState env)
      → HasTracked s
      → HasTracked (handle_lost now lost s)
  unfolding handle_lost
  handle_lost-IsTracked now (m, was_running) s t = elim (Option-cases (lookup m s.launches)) [
    | inl e ↦ rw e t
    | inr ((server, id), e) ↦ elim (Bool-cases was_running) [
      | inl w ↦ elim (Option-cases (lookup id s.proposals)) [
        | inl f ↦ rw (e, w, f) t
        | inr (p, f) ↦ rw (e, w, f) t
      ]
      | inr w ↦
          let only = tracked-IsOnlyOn s.registry s.launches m server id t e in
          let (outcome, after) = retry_launch now m server id s in
          rw (e, w)
            (abandon-IsTracked now m id outcome after
              (retry_launch-IsTracked now m server id s t only))
    ]
  ]

  time_out_launch-IsTracked :
      (now m : ℕ) (s : AuthorityState env) → HasTracked s → HasTracked (time_out_launch now m s)
  unfolding time_out_launch
  time_out_launch-IsTracked now m s t = elim (Option-cases (lookup m s.launches)) [
    | inl e ↦ rw e t
    | inr ((server, id), e) ↦
        let only = tracked-IsOnlyOn s.registry s.launches m server id t e in
        let (outcome, after) = retry_launch now m server id s in
        rw e (
          give_up-IsTracked now m id outcome after
            (retry_launch-IsTracked now m server id s t only))
  ]

  check_servers-IsTracked :
      (now : ℕ) (s : AuthorityState env) → HasTracked s → HasTracked (check_servers now s)
  unfolding check_servers
  check_servers-IsTracked now s t =
      let late = unhealthy_after s in
      let lost = saturating_mul u64_max s.config.lost_after_seconds 1000 in
      let (registry, matches) = update_health s.registry now late lost in
      for_each_preserves HasTracked (handle_lost now) (handle_lost-IsTracked now) matches
        (record s { registry = registry })
        (AddsNothing-IsTracked s.registry registry s.launches t
          (update_health-IsRegistry s.registry now late lost t.order)
          (record { absent = λ id m h. examined_absent now late lost s.registry id m h }))

  -- The parts of a tick that place nothing new leave every server's ledger in order and each match that
  -- was launched on its own server at most, if it was so before: where players that stayed away are
  -- dropped, proposals expire, lost servers are found and their matches moved or given up, and launches
  -- time out.
  pub tick-IsTracked :
      (now : ℕ) (s : AuthorityState env)
      → HasTracked s
      → HasTracked (drop_players now s)
        × HasTracked (cancel_overdue now s)
        × HasTracked (check_servers now s)
        × HasTracked (time_out_launches now s)
  unfolding drop_players cancel_overdue time_out_launches
  tick-IsTracked now s t = (
    for_each_preserves HasTracked (drop_player now)
        (λ player before.
          as_before before (drop_player now player before) (placed-drop_player now player before))
        (overdue now s.disconnect_deadlines) s t,
    for_each_preserves HasTracked (cancel_expired now)
        (λ id before.
          as_before before (cancel_expired now id before)
            (placed-cancel_proposal now id false before))
        (expire_all now s.proposals).1 (record s { proposals = (expire_all now s.proposals).0 }) t,
    check_servers-IsTracked now s t,
    for_each_preserves HasTracked (time_out_launch now) (time_out_launch-IsTracked now)
        (overdue now s.launch_deadlines) s t,
  )
