-- ===== src/Authority/Launch/Tracked.antt =====
-- A launch leaves every match on its own server (`launch` of core/src/grpc/mod.rs).
use elo_ranking_pairing_syst.Base.{
  ℕ, ◌≡◌, ◌≤◌, ◌+◌, refl, Bool, none, some, [], is_some, if_some, inl, inr, Option-cases,
  Result-cases,
}
use elo_ranking_pairing_syst.Base.Map.{lookup, values, nat_key}
use elo_ranking_pairing_syst.Components.{mode_key}
use elo_ranking_pairing_syst.Placement as Placement
use elo_ranking_pairing_syst.Placement.{take_on}
use elo_ranking_pairing_syst.Placement.Moved.{charged, take_on-IsTracked, charged-IsTracked}
use elo_ranking_pairing_syst.Placement.Reservation.{IsNew, take_on-IsLedger, release-IsRegistry}
use elo_ranking_pairing_syst.Placement.Tracked.{
  IsTracked, AddsNothing-IsTracked, release-AddsNothing,
}
use elo_ranking_pairing_syst.Proposal.{Proposal}
use elo_ranking_pairing_syst.Server.Types.{GameServer}
use elo_ranking_pairing_syst.Server.Ledger.{IsRegistry, lookup-IsLedger, modify-IsRegistry}
use elo_ranking_pairing_syst.Authority.{proposal_mode}
use elo_ranking_pairing_syst.Authority.Messages.{Env}
use elo_ranking_pairing_syst.Authority.State.{AuthorityState, next_uuid}
use elo_ranking_pairing_syst.Authority.Launch.{
  best_launch, common_regions, cost_of, send_launch, released, place_launch, start_launch,
  launch_message,
}
use elo_ranking_pairing_syst.Authority.Launch.Placed.{chosen}
use elo_ranking_pairing_syst.Authority.Outcome.Tracked.{HasTracked}

module _ {env : Env} where
  -- Taking a match back leaves the others tracked, also where there is nothing to take back.
  released-IsTracked :
      (server m : ℕ) (s : AuthorityState env) → HasTracked s → HasTracked (released s server m)
  unfolding released
  released-IsTracked server m s t = elim (Result-cases (Placement.release s.registry server m)) [
    | inl (x, k) ↦ rw (k, released) t
    | inr (left, k) ↦
        rw (k, released)
          (AddsNothing-IsTracked s.registry left s.launches t
            (release-IsRegistry s.registry left server m t.order k)
            (release-AddsNothing s.registry left server m t.order k))
  ]

  place_launch-IsTracked :
      (now id server : ℕ) (p : Proposal) (g : GameServer) (s : AuthorityState env)
      → HasTracked s
      → IsNew (next_uuid s 4).0 s.registry
      → lookup (next_uuid s 4).0 s.launches ≡ none
      → lookup server s.registry ≡ some g
      → g.capacity_used + cost_of s.registry server (proposal_mode p) ≤ g.capacity_total
      → HasTracked (place_launch now p id server s).1
  unfolding place_launch send_launch
  place_launch-IsTracked now id server p g s t new unknown at fits =
      let m = (next_uuid s 4).0 in
      let cost = cost_of s.registry server (proposal_mode p) in
      let after = charged s.registry server m cost in
      let order : IsRegistry after =
        modify-IsRegistry server (take_on m cost) g s.registry t.order at
          (take_on-IsLedger m cost g (lookup-IsLedger server g s.registry t.order at).0
            (new server g at) fits)
          (unfold take_on in refl) in
      let waiting : IsTracked after s.launches =
        charged-IsTracked s.registry m cost server s.launches t new order unknown in
      elim (Option-cases (lookup server s.controls)) [
        | inl e ↦ rw e waiting
        | inr (control, e) ↦ elim (Option-cases (env.try_send control (launch_message p m cost))) [
          | inr (sent, f) ↦
              rw (e, f) (take_on-IsTracked s.registry m cost server s.launches t new order id)
          | inl f ↦
              let before = record (next_uuid s 4).1 { registry = after } in
              rw (e, f) (released-IsTracked server m before waiting)
        ]
      ]

  -- A launch, whether it succeeds, finds no server, or finds the control stream full, leaves every
  -- server's ledger in order and each match that was launched on its own server at most, if it was so
  -- before and the new identifier is on no server and of no launch.
  pub start_launch-IsTracked :
      (now id : ℕ) (s : AuthorityState env)
      → HasTracked s
      → IsNew (next_uuid s 4).0 s.registry
      → lookup (next_uuid s 4).0 s.launches ≡ none
      → HasTracked (start_launch now id s).1
  unfolding start_launch
  start_launch-IsTracked now id s t new unknown = elim (Option-cases (lookup id s.proposals)) [
    | inl e ↦ rw e t
    | inr (p, e) ↦
        let mode = proposal_mode p in
        let regions = if_some (lookup id s.proposal_tickets) common_regions [] in
        let connected : ℕ → Bool = λ i. is_some (lookup i s.controls) in
        elim (Option-cases (best_launch mode regions connected (values s.registry))) [
          | inl f ↦ rw (e, f) t
          | inr (c, f) ↦
              let (g, at, _, _, _, _, fits, _) =
                chosen mode regions connected c s.registry t.order f in
              rw (e, f) (place_launch-IsTracked now id c.server p g s t new unknown at fits)
        ]
  ]
