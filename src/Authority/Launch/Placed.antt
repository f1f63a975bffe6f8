-- ===== src/Authority/Launch/Placed.antt =====
-- A launch takes a server that can run the match (`launch` of core/src/grpc/mod.rs).
use elo_ranking_pairing_syst.Base.{
  ℕ, ◌+◌, ◌≤◌, ◌≡◌, refl, Bool, true, not, some, List, [], ◌∷◌, length, length-retain-le, inl, inr,
  arith, ◌⊎◌, sym, ==_iff, Option-cases, Bool-cases, Result-cases, ok, is_some, if_some,
}
use elo_ranking_pairing_syst.Base.Text.{Text, text_eq_iff}
use elo_ranking_pairing_syst.Base.Map.{Map, lookup, modify, values, nat_key, text_key}
use elo_ranking_pairing_syst.Base.Map.Laws.{lookup-insert}
use elo_ranking_pairing_syst.Base.Set as Set
use elo_ranking_pairing_syst.Components.{QueueMode, mode_key}
use elo_ranking_pairing_syst.Placement as Placement
use elo_ranking_pairing_syst.Placement.{take_on, unfinished, is_feasible}
use elo_ranking_pairing_syst.Placement.Reservation.{take_on-IsLedger, release-IsRegistry, IsNew}
use elo_ranking_pairing_syst.Proposal.{Proposal}
use elo_ranking_pairing_syst.Server.Types.{GameServer, Registry, Instance, is_finished}
use elo_ranking_pairing_syst.Server.Ledger.{
  IsLedger, IsRegistry, lookup-IsLedger, modify-IsRegistry,
}
use elo_ranking_pairing_syst.Authority.{proposal_mode}
use elo_ranking_pairing_syst.Authority.Messages.{Env}
use elo_ranking_pairing_syst.Authority.State.{AuthorityState, next_uuid}
use elo_ranking_pairing_syst.Authority.Launch.{
  LaunchChoice, launch_choice_le, launch_offer, may_launch, best_launch, common_regions, cost_of,
  send_launch, released, place_launch, start_launch, launch_message,
}

length-values : (m : Map ℕ Instance) → length (values m) ≡ length m
length-values [] = refl
length-values ((k, i) ∷ m) = ground (arith, length-values m)

unfinished_le : (g : GameServer) → unfinished g ≤ length g.instances
unfolding unfinished
unfinished_le g = ground (
  arith,
  length-values g.instances,
  length-retain-le (λ (i : Instance). not (is_finished i.state)) (values g.instances),
)

module _ (mode : QueueMode) (regions : List Text) (connected : ℕ → Bool) where
  -- What an offer promises of its server.
  offer_of :
      (g : GameServer) (c : LaunchChoice)
      → launch_offer mode regions connected g ≡ some c
      → (c.server ≡ g.id)
        × (Set.member g.region regions ≡ true)
        × (is_feasible mode g.region g ≡ true)
        × ((cost : ℕ)
            → lookup mode g.mode_costs ≡ some cost
            → g.capacity_used + cost ≤ g.capacity_total)
        × (is_some (lookup mode g.mode_costs) ≡ true)
  unfolding launch_offer is_feasible may_launch
  offer_of g c h = (
    ground arith,
    ground arith,
    ground (arith, unfinished_le g, text_eq_iff g.region g.region),
    λ cost e. ground (arith, e),
    ground arith,
  )

  best_cases :
      (c : LaunchChoice) (g : GameServer) (servers : List GameServer)
      → best_launch mode regions connected (g ∷ servers) ≡ some c
      → (launch_offer mode regions connected g ≡ some c)
        ⊎ (best_launch mode regions connected servers ≡ some c)
  unfolding best_launch
  best_cases c g servers h = elim (Option-cases (launch_offer mode regions connected g)) [
    | inl e ↦ inr (ground (arith, e))
    | inr (a, e) ↦ elim (Option-cases (best_launch mode regions connected servers)) [
      | inl f ↦ inl (ground (arith, e, f))
      | inr (b, f) ↦ elim (Bool-cases (launch_choice_le a b)) [
        | inl l ↦ inl (ground (arith, e, f, l))
        | inr l ↦ inr (ground (arith, e, f, l))
      ]
    ]
  ]

  best_of :
      (c : LaunchChoice) (servers : Registry)
      → IsRegistry servers
      → best_launch mode regions connected (values servers) ≡ some c
      → (g : GameServer) × (lookup c.server servers ≡ some g)
        × (launch_offer mode regions connected g ≡ some c)
  unfolding lookup
  best_of c [] r h = absurd (unfold best_launch in ground arith)
  best_of c ((id, g) ∷ servers) r h = elim (best_cases c g (values servers) h) [
    | inl e ↦ (g, ground (arith, (offer_of g c e).0, r.0, ==_iff id c.server), e)
    | inr e ↦
        let (t, at, offered) = best_of c servers r.3 e in
        (t, ground (arith, r.1, at, ==_iff id c.server), offered)
  ]

  -- The server of the best offer, and the cost of a match on it.
  pub chosen :
      (c : LaunchChoice) (servers : Registry)
      → IsRegistry servers
      → best_launch mode regions connected (values servers) ≡ some c
      → (g : GameServer) × (lookup c.server servers ≡ some g)
        × (g.id ≡ c.server)
        × (Set.member g.region regions ≡ true)
        × (is_feasible mode g.region g ≡ true)
        × (lookup mode g.mode_costs ≡ some (cost_of servers c.server mode))
        × (g.capacity_used + cost_of servers c.server mode ≤ g.capacity_total)
        × IsLedger g
  chosen c servers r h =
      let (g, at, offered) = best_of c servers r h in
      let (id, region, may, fits, costs) = offer_of g c offered in
      let cost : lookup mode g.mode_costs ≡ some (cost_of servers c.server mode) =
        ground (arith, at, costs) in
      (
        g,
        at,
        sym id,
        region,
        may,
        cost,
        fits (cost_of servers c.server mode) cost,
        (lookup-IsLedger c.server g servers r at).0,
      )

module _ {env : Env} where
  released-IsRegistry :
      (server m : ℕ) (s : AuthorityState env)
      → IsRegistry s.registry
      → IsRegistry (released s server m).registry
  unfolding released
  released-IsRegistry server m s r = elim (Result-cases (Placement.release s.registry server m)) [
    | inl (x, k) ↦ rw (k, released) r
    | inr (left, k) ↦ rw (k, released) (release-IsRegistry s.registry left server m r k)
  ]

  -- A launch on a server with room keeps the registry in order, also where the message is lost.
  place_launch-IsRegistry :
      (now id server : ℕ) (p : Proposal) (g : GameServer) (s : AuthorityState env)
      → IsRegistry s.registry
      → IsNew (next_uuid s 4).0 s.registry
      → lookup server s.registry ≡ some g
      → g.capacity_used + cost_of s.registry server (proposal_mode p) ≤ g.capacity_total
      → IsRegistry (place_launch now p id server s).1.registry
  unfolding place_launch released send_launch
  place_launch-IsRegistry now id server p g s r new at fits =
      let m = (next_uuid s 4).0 in
      let cost = cost_of s.registry server (proposal_mode p) in
      let charged = modify server (take_on m cost) s.registry in
      let order : IsRegistry charged =
        modify-IsRegistry server (take_on m cost) g s.registry r at
          (take_on-IsLedger m cost g (lookup-IsLedger server g s.registry r at).0 (new server g at)
            fits)
          (unfold take_on in refl) in
      elim (Option-cases (lookup server s.controls)) [
        | inl e ↦ rw e order
        | inr (control, e) ↦ elim (Option-cases (env.try_send control (launch_message p m cost))) [
          | inr (sent, f) ↦ rw (e, f) order
          | inl f ↦
              let before = record (next_uuid s 4).1 { registry = charged } in
              rw (e, f) (released-IsRegistry server m before order)
        ]
      ]

  -- A launch keeps every server's ledger, whether it succeeds, finds no server, or finds the control
  -- stream full, if the new identifier is on no server.
  pub start_launch-IsRegistry :
      (now id : ℕ) (s : AuthorityState env)
      → IsRegistry s.registry
      → IsNew (next_uuid s 4).0 s.registry
      → IsRegistry (start_launch now id s).1.registry
  unfolding start_launch
  start_launch-IsRegistry now id s r new = elim (Option-cases (lookup id s.proposals)) [
    | inl e ↦ rw e r
    | inr (p, e) ↦
        let mode = proposal_mode p in
        let regions = if_some (lookup id s.proposal_tickets) common_regions [] in
        let connected : ℕ → Bool = λ i. is_some (lookup i s.controls) in
        elim (Option-cases (best_launch mode regions connected (values s.registry))) [
          | inl f ↦ rw (e, f) r
          | inr (c, f) ↦
              let (g, at, _, _, _, _, fits, _) = chosen mode regions connected c s.registry r f in
              rw (e, f) (place_launch-IsRegistry now id c.server p g s r new at fits)
        ]
  ]

  placed :
      (now id server m : ℕ) (p : Proposal) (s : AuthorityState env)
      → (place_launch now p id server s).0 ≡ ok m
      → (m ≡ (next_uuid s 4).0)
        × ((place_launch now p id server s).1.registry
            ≡ modify server (take_on m (cost_of s.registry server (proposal_mode p))) s.registry)
        × (lookup m (place_launch now p id server s).1.launches ≡ some (server, id))
  unfolding place_launch send_launch
  placed now id server m p s h =
      ground (arith, lookup-insert m m (server, id) s.launches, ==_iff m m)

  -- A launch that succeeds implements the placement: its server is one on which the match is feasible
  -- in a region that all its parties allow, that server alone takes on the match at the cost of its
  -- mode, and the launch is written down for it.
  pub start_launch-is_feasible :
      (now id m : ℕ) (p : Proposal) (s : AuthorityState env)
      → IsRegistry s.registry
      → lookup id s.proposals ≡ some p
      → (start_launch now id s).0 ≡ ok m
      → let after = (start_launch now id s).1 in
        (g : GameServer) × (cost : ℕ) × (lookup g.id s.registry ≡ some g)
        × (Set.member g.region (if_some (lookup id s.proposal_tickets) common_regions []) ≡ true)
        × (is_feasible (proposal_mode p) g.region g ≡ true)
        × (lookup (proposal_mode p) g.mode_costs ≡ some cost)
        × (after.registry ≡ modify g.id (take_on m cost) s.registry)
        × (lookup m after.launches ≡ some (g.id, id))
  unfolding start_launch
  start_launch-is_feasible now id m p s r e h =
      let mode = proposal_mode p in
      let regions = if_some (lookup id s.proposal_tickets) common_regions [] in
      let connected : ℕ → Bool = λ i. is_some (lookup i s.controls) in
      elim (Option-cases (best_launch mode regions connected (values s.registry))) [
        | inl f ↦ absurd (ground (arith, e, f))
        | inr (c, f) ↦
            let (g, at, same, region, may, cost, _, _) =
              chosen mode regions connected c s.registry r f in
            let (_, taken, written) = placed now id c.server m p s (ground (arith, e, f, h)) in
            (
              g,
              cost_of s.registry c.server mode,
              rw same at,
              region,
              may,
              cost,
              rw (same, e, f) taken,
              rw (same, e, f) written,
            )
      ]
