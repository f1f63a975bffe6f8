-- ===== src/Authority/Launch.antt =====
-- `launch` and `retry_launch` of core/src/grpc/mod.rs: a server for a match that everybody accepted.
pub mod Placed
pub mod Tracked
use elo_ranking_pairing_syst.Base.{
  ℕ, ◌+◌, ◌-◌, ◌*◌, ◌/◌, ◌%◌, Bool, not, ◌&&◌, ◌||◌, ◌==◌, Option, none, some, List, [], ◌∷◌, max,
  ltb, leb, first, length, unwrap_or, if_some, is_some, Result, ok, err, if◌then◌else◌,
}
use elo_ranking_pairing_syst.Base.Word.{u32_max, u32_mod, u64_mod, u64_max, saturating_add}
use elo_ranking_pairing_syst.Base.Text.{Text}
use elo_ranking_pairing_syst.Base.Map.{
  Map, lookup, insert, modify, values, contains_key, nat_key, text_key,
}
use elo_ranking_pairing_syst.Base.Set as Set
use elo_ranking_pairing_syst.Components.{QueueMode, mode_key}
use elo_ranking_pairing_syst.Placement as Placement
use elo_ranking_pairing_syst.Placement.{take_on}
use elo_ranking_pairing_syst.Proposal.{Proposal}
use elo_ranking_pairing_syst.Server.Types.{GameServer, Registry, is_healthy}
use elo_ranking_pairing_syst.Authority.{proposal_mode}
use elo_ranking_pairing_syst.Authority.Messages.{
  Status, not_found, unavailable, failed_precondition, resource_exhausted, ErpsControl, launch, Env,
}
use elo_ranking_pairing_syst.Authority.State.{AuthorityState, TicketRecord, Step, next_uuid}

-- `regions.iter().cloned().collect::<BTreeSet<_>>()`, and the intersection of the sets.
abbrev pub region_set : List Text → List Text
region_set regions = Set.extend [] regions

unfoldable pub meet_all : List Text → List (ℕ × TicketRecord) → List Text
meet_all left [] = left
meet_all left ((_, ticket) ∷ rest) =
    meet_all (Set.intersection left (region_set ticket.regions)) rest

unfoldable pub common_regions : List (ℕ × TicketRecord) → List Text
unfolding meet_all
common_regions [] = []
common_regions ((_, ticket) ∷ rest) = meet_all (region_set ticket.regions) rest

-- The tuples that `launch` compares.
pub record LaunchChoice : Type 0 where
  pub remaining : ℕ
  pub load_ppm : ℕ
  pub failures : ℕ
  pub instances : ℕ
  pub server : ℕ

unfoldable pub launch_choice_le : LaunchChoice → LaunchChoice → Bool
launch_choice_le a b =
    if not (a.remaining == b.remaining)
    then ltb a.remaining b.remaining
    else if not (a.load_ppm == b.load_ppm)
    then ltb a.load_ppm b.load_ppm
    else if not (a.failures == b.failures)
    then ltb a.failures b.failures
    else if not (a.instances == b.instances)
    then ltb a.instances b.instances
    else leb a.server b.server

-- The filters on one server.
unfoldable pub may_launch : QueueMode → List Text → (ℕ → Bool) → GameServer → Bool
may_launch mode regions connected s =
    is_healthy s.health
    && Set.member s.region regions
    && Set.member mode s.modes
    && connected s.id
    && ltb (length s.instances) s.max_instances

-- `checked_add` and `checked_sub` of 32-bit words.
unfoldable pub launch_offer : QueueMode → List Text → (ℕ → Bool) → GameServer → Option LaunchChoice
unfolding may_launch
launch_offer mode regions connected s =
    if may_launch mode regions connected s
    then elim (lookup mode s.mode_costs) [
      | none ↦ none
      | some cost ↦
          if ltb u32_max (s.capacity_used + cost) || ltb s.capacity_total (s.capacity_used + cost)
          then none
          else some (record {
            remaining = s.capacity_total - (s.capacity_used + cost);
            load_ppm = s.capacity_used * 1000000 / max s.capacity_total 1;
            failures = s.failures;
            instances = length s.instances;
            server = s.id;
          })
    ]
    else none

unfoldable pub best_launch :
    QueueMode → List Text → (ℕ → Bool) → List GameServer → Option LaunchChoice
unfolding launch_offer launch_choice_le
best_launch mode regions connected [] = none
best_launch mode regions connected (s ∷ servers) =
    let rest = best_launch mode regions connected servers in
    elim (launch_offer mode regions connected s) [
      | none ↦ rest
      | some a ↦ elim rest [ none ↦ some a | some b ↦ some (if launch_choice_le a b then a else b) ]
    ]

abbrev pub launch_message : Proposal → ℕ → ℕ → ErpsControl
launch_message p match_id cost =
    launch (record {
      match_id = match_id;
      mode = proposal_mode p;
      teams = p.teams;
      reserved_cost = cost;
    })

-- `server.mode_costs[&mode]` of the server that was chosen, which has a cost.
abbrev pub cost_of : Registry → ℕ → QueueMode → ℕ
cost_of registry server mode =
    if_some (lookup server registry) (λ s. unwrap_or 0 (lookup mode s.mode_costs)) 0

-- `servers[&server_id].instances[&match_id].cost`
abbrev pub instance_cost : Registry → ℕ → ℕ → ℕ
instance_cost registry server match_id =
    if_some (lookup server registry) (λ s. if_some (lookup match_id s.instances) (λ i. i.cost) 0) 0

module _ {env : Env} where
  abbrev pub placement_deadline : AuthorityState env → ℕ → ℕ
  placement_deadline s now =
      saturating_add u64_max now (s.config.placement_timeout_seconds * 1000 % u64_mod)

  -- The message goes to the server, and the launch is written down.
  unfoldable pub send_launch :
      ℕ → ℕ → ℕ → ℕ → ErpsControl → env.Control → AuthorityState env → Option (AuthorityState env)
  send_launch now match_id server proposal_id message control s =
      if_some (env.try_send control message)
        (λ control'. some (record s {
          controls = insert server control' s.controls;
          launches = insert match_id (server, proposal_id) s.launches;
          launch_deadlines = insert match_id (placement_deadline s now) s.launch_deadlines;
        }))
        none

  unfoldable pub released : AuthorityState env → ℕ → ℕ → AuthorityState env
  unfolding Placement.release
  released s server match_id = elim (Placement.release s.registry server match_id) [
    | err e ↦ s
    | ok registry ↦ record s { registry = registry }
  ]

  unfoldable pub place_launch :
      ℕ → Proposal → ℕ → ℕ → AuthorityState env → Result ℕ Status × AuthorityState env
  unfolding proposal_mode next_uuid take_on send_launch released
  place_launch now proposal proposal_id server s =
      let (match_id, s') = next_uuid s 4 in
      let cost = cost_of s.registry server (proposal_mode proposal) in
      let charged = record s' { registry = modify server (take_on match_id cost) s.registry } in
      let message = launch_message proposal match_id cost in
      if_some (lookup server s.controls)
        (λ control.
          if_some (send_launch now match_id server proposal_id message control charged)
            (λ done. (ok match_id, done))
            (err resource_exhausted, released charged server match_id))
        (err unavailable, charged)

  unfoldable pub start_launch : ℕ → ℕ → Step env ℕ
  unfolding proposal_mode common_regions best_launch place_launch
  start_launch now proposal_id s =
      if_some (lookup proposal_id s.proposals)
        (λ proposal.
          let mode = proposal_mode proposal in
          let regions = if_some (lookup proposal_id s.proposal_tickets) common_regions [] in
          let connected : ℕ → Bool = λ id. is_some (lookup id s.controls) in
          if_some (best_launch mode regions connected (values s.registry))
            (λ choice. place_launch now proposal proposal_id choice.server s) (err unavailable, s))
        (err not_found, s)

  abbrev pub deliver :
      ℕ → ℕ → ℕ → ℕ → ErpsControl → AuthorityState env → Option (AuthorityState env)
  deliver now match_id server proposal_id message s =
      if_some (lookup server s.controls)
        (λ control. send_launch now match_id server proposal_id message control s) none

  unfoldable pub retry_launch : ℕ → ℕ → ℕ → ℕ → Step env (Unit {0})
  unfolding proposal_mode common_regions Placement.retry_after_failure send_launch released
  retry_launch now match_id failed_server proposal_id s =
      if_some (lookup proposal_id s.proposals)
        (λ proposal.
          let regions = if_some (lookup proposal_id s.proposal_tickets) common_regions [] in
          if_some (first regions)
            (λ region.
              let mode = proposal_mode proposal in
              let (registry, moved) =
                Placement.retry_after_failure s.registry failed_server match_id mode region in
              let s' = record s { registry = registry } in
              elim moved [
                | err e ↦ (err unavailable, s')
                | ok server ↦
                    let message =
                      launch_message proposal match_id (instance_cost registry server match_id) in
                    if_some (deliver now match_id server proposal_id message s')
                      (λ done. (ok tt, done)) (err unavailable, released s' server match_id)
              ])
            (err failed_precondition, s))
        (err not_found, s)
