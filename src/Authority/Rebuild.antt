-- ===== src/Authority/Rebuild.antt =====
-- `rebuild_ecs` and `ecs_tickets` of core/src/grpc/mod.rs: the world that is made from the state, the
-- queue that is read back from it, and the figures of the metrics.
pub mod Joins
pub mod Known
pub mod ReadBack
use elo_ranking_pairing_syst.Base.{
  ℕ, ◌+◌, ◌/◌, ◌%◌, Bool, true, false, ◌==◌, ◌&&◌, Option, none, some, List, [], ◌∷◌, ◌++◌, map,
  any, length, first, leb, retain, is_some, if_some, unwrap_or, for_each, if◌then◌else◌,
}
use elo_ranking_pairing_syst.Base.Int.{ℤ, pos, ◌-ℤ◌, ◌+ℤ◌, div_euclid}
use elo_ranking_pairing_syst.Base.Word.{u64_mod, saturating_sub, saturate_i32}
use elo_ranking_pairing_syst.Base.Text.{Text, text_eq}
use elo_ranking_pairing_syst.Base.Map.{Map, lookup, insert, values, nat_key}
use elo_ranking_pairing_syst.Base.Sort.{sort_by}
use elo_ranking_pairing_syst.Components.{
  QueueMode, one_vs_one, five_vs_five, free_for_all, mode_eq, mode_key, PlayerState, PartyState,
}
use elo_ranking_pairing_syst.Matching.{PartyTicket, effective_rating_for_mode}
use elo_ranking_pairing_syst.Matching.Bucket.{search_delta}
use elo_ranking_pairing_syst.Metrics.{MetricSnapshot}
use elo_ranking_pairing_syst.Party.{Party}
use elo_ranking_pairing_syst.Proposal.{Proposal}
use elo_ranking_pairing_syst.Server.Types.{
  GameServer, Instance, InstanceState, reserved, is_running, Registry,
}
use elo_ranking_pairing_syst.World.{Entity, TicketState, create_entity}
use elo_ranking_pairing_syst.Authority.Messages.{Env}
use elo_ranking_pairing_syst.Authority.State.{
  AuthorityState, TicketRecord, rating_of, credit_of, rated_key,
}
use elo_ranking_pairing_syst.Authority.Commit.{queue_key}

-- `Vec::dedup`
unfoldable pub dedup : List ℕ → List ℕ
dedup [] = []
dedup (x ∷ []) = x ∷ []
dedup (x ∷ y ∷ ys) = let rest = dedup (y ∷ ys) in if x == y then rest else x ∷ rest

-- `state == InstanceState::Reserved`
abbrev pub is_reserved : InstanceState → Bool
is_reserved reserved = true
is_reserved _ = false

-- `filter(..).count() as u16`
abbrev pub count_by : (InstanceState → Bool) → Map ℕ Instance → ℕ
count_by p instances = length (retain (λ i. p i.state) (values instances))

unfoldable pub proposal_entity : Proposal → Entity
proposal_entity p = record create_entity {
  proposal_identity = some p.id;
  proposal_roster = some p.teams;
  accept_deadline = some p.deadline;
  player_accept_states = some p.responses;
}

unfoldable pub server_entity : GameServer → Entity
server_entity g = record create_entity {
  server_identity = some g.id;
  server_generation = some g.generation;
  server_endpoint = some g.endpoint;
  server_region = some g.region;
  supported_modes = some g.modes;
  server_capacity = some (record { total = g.capacity_total; used = g.capacity_used });
  server_mode_costs = some g.mode_costs;
  instance_capacity = some (record {
    maximum = g.max_instances;
    running = count_by is_running g.instances % 65536;
    reserved = count_by is_reserved g.instances % 65536;
  });
  server_heartbeat = some g.last_heartbeat;
  server_health = some g.health;
  recent_launch_failures = some g.failures;
}

unfoldable pub party_entity : Party → Entity
party_entity p = record create_entity {
  party_identity = some p.id;
  party_name = some p.name;
  party_members = some p.members;
  party_leader = some p.leader;
  party_revision = some p.revision;
  party_state = some p.state;
}

-- `or_default() += players`, on a word of 64 bits.
unfoldable pub add_players :
    QueueMode → ℕ → List Text → Map (QueueMode × Text) ℕ → Map (QueueMode × Text) ℕ
add_players mode players [] counted = counted
add_players mode players (region ∷ regions) counted = add_players mode players regions (
    insert (mode, region) ((unwrap_or 0 (lookup (mode, region) counted) + players) % u64_mod)
      counted)

-- `sum` of words of 64 bits.
unfoldable pub sum_u64 : List ℕ → ℕ
sum_u64 [] = 0
sum_u64 (x ∷ xs) = (x + sum_u64 xs) % u64_mod

-- `flat_map(|server| server.instances.values()).filter(..).count()`
unfoldable pub count_instances : (InstanceState → Bool) → List GameServer → ℕ
count_instances p [] = 0
count_instances p (g ∷ servers) = count_by p g.instances + count_instances p servers

-- The join of components with `collect` into a map, and with `filter_map` into a vector; the entities
-- come in an order that the library chooses.
unfoldable pub collect_by :
    {V : Type 0} → (Entity → Option (ℕ × V)) → List Entity → Map ℕ V → Map ℕ V
collect_by read [] collected = collected
collect_by read (e ∷ es) collected =
    collect_by read es (if_some (read e) (λ x. insert x.0 x.1 collected) collected)

unfoldable pub filter_map : {A B : Type 0} → (A → Option B) → List A → List B
filter_map f [] = []
filter_map f (x ∷ xs) = let rest = filter_map f xs in if_some (f x) (λ y. y ∷ rest) rest

abbrev pub read_player : Entity → Option (ℕ × Map QueueMode ℤ)
read_player e =
    if_some e.player_identity (λ id. if_some e.elo_rating (λ ratings. some (id, ratings)) none) none

-- An entity of a party, which is not one of a ticket.
abbrev pub read_party : Entity → Option (ℕ × (List ℕ × ℕ))
read_party e =
    if_some e.party_identity
      (λ id.
        if_some e.party_members
          (λ members.
            if_some e.party_revision
              (λ revision.
                if is_some e.ticket_identity then none else some (id, (members, revision)))
              none)
          none)
      none

module _ {env : Env} where
  unfoldable pub player_state : AuthorityState env → ℕ → PlayerState
  player_state s player =
      if is_some (lookup player s.player_match)
      then PlayerState.matched
      else if is_some (lookup player s.player_proposal)
      then PlayerState.proposed
      else if if_some (lookup player s.player_party) (λ party. is_some (lookup party s.tickets))
          false
      then PlayerState.queued
      else PlayerState.idle

  -- `EloRating` of a player.
  unfoldable pub elo_rating : AuthorityState env → ℕ → Map QueueMode ℤ
  elo_rating s player =
      map (λ mode. (mode, rating_of s mode player)) (one_vs_one ∷ five_vs_five ∷ free_for_all ∷ [])

  unfoldable pub player_entity : AuthorityState env → ℕ → Entity
  unfolding player_state elo_rating
  player_entity s player = record create_entity {
    player_identity = some player;
    credit_score = some (credit_of s player);
    elo_rating = some (elo_rating s player);
    player_state = some (player_state s player);
  }

  -- The rating about which a ticket searches.
  unfoldable pub ticket_rating : AuthorityState env → ℕ → TicketRecord → ℤ
  unfolding effective_rating_for_mode
  ticket_rating s party_id t = unwrap_or (pos 1000) (
      if_some (lookup party_id s.parties)
        (λ p.
          effective_rating_for_mode t.mode (map (rating_of s t.mode) p.members)
            s.config.party_size_rating_adjustment s.config.party_spread_rating_adjustment
            s.config.max_party_rating_spread)
        none)

  unfoldable pub ticket_entity : AuthorityState env → ℕ → ℕ × TicketRecord → Entity
  unfolding ticket_rating search_delta
  ticket_entity s now (party_id, t) =
      let rating = ticket_rating s party_id t in
      let delta =
        search_delta s.config.initial_elo_delta s.config.elo_step s.config.elo_step_seconds
          s.config.maximum_elo_delta 0 (saturating_sub now t.queued_since_ms / 1000) in
      record create_entity {
        ticket_identity = some t.id;
        ticket_mode = some t.mode;
        ticket_regions = some t.regions;
        enqueued_at = some t.enqueued_at;
        search_range = some (record {
          minimum = saturate_i32 (rating -ℤ delta);
          maximum = saturate_i32 (rating +ℤ delta);
        });
        bucket_owner =
            some
              (record { region = unwrap_or [] (first t.regions); bucket = div_euclid rating 100 });
        ticket_state = some TicketState.queued;
        party_identity = some party_id;
      }

  abbrev pub session_players : AuthorityState env → List ℕ
  session_players s = dedup (sort_by leb (values s.sessions))

  -- The entities in the order in which they are created, after all former ones were deleted.
  unfoldable pub rebuilt : AuthorityState env → ℕ → List Entity
  unfolding player_entity party_entity ticket_entity proposal_entity server_entity dedup
  rebuilt s now =
      map (player_entity s) (session_players s)
      ++ (map party_entity (values s.parties)
          ++ (map (ticket_entity s now) s.tickets
              ++ (map proposal_entity (values s.proposals)
                  ++ map server_entity (values s.registry))))

  unfoldable pub count_players :
      AuthorityState env → Map ℕ TicketRecord → Map (QueueMode × Text) ℕ → Map (QueueMode × Text) ℕ
  unfolding add_players
  count_players s [] counted = counted
  count_players s ((party_id, t) ∷ tickets) counted =
      let players = if_some (lookup party_id s.parties) (λ p. length p.members) 0 in
      count_players s tickets (add_players t.mode players t.regions counted)

  -- The figures after a rebuild; the two sums are kept from the ones before.
  unfoldable pub lifecycle : AuthorityState env → MetricSnapshot → MetricSnapshot
  unfolding count_players sum_u64 count_instances
  lifecycle s before =
      let servers = values s.registry in
      record {
        queue_players = count_players s s.tickets [];
        capacity_total = sum_u64 (map (λ g. g.capacity_total) servers);
        capacity_used = sum_u64 (map (λ g. g.capacity_used) servers);
        reservations = count_instances is_reserved servers;
        running_instances = count_instances is_running servers;
        party_structure_difference_sum = before.party_structure_difference_sum;
        elo_quality_sum = before.elo_quality_sum;
        match_latency_us = [];
      }

  -- One ticket of the join, for a mode and a region.
  unfoldable pub read_ticket :
      AuthorityState env
      → ℕ
      → QueueMode
      → Text
      → Map ℕ (Map QueueMode ℤ)
      → Map ℕ (List ℕ × ℕ)
      → ℕ
      → ℕ
      → QueueMode
      → List Text
      → ℕ
      → Option PartyTicket
  unfolding effective_rating_for_mode search_delta
  read_ticket s now mode region player_ratings parties party ticket ticket_mode regions enqueued =
      if_some (lookup party parties)
        (λ found.
          let rating_in : ℕ → ℤ = λ player.
            unwrap_or (pos 1000)
              (if_some (lookup player player_ratings) (λ values. lookup mode values) none) in
          let ratings = map rating_in found.0 in
          let since = if_some (lookup party s.tickets) (λ t. t.queued_since_ms) 0 in
          let wait_seconds = saturating_sub now since / 1000 in
          let rating =
            effective_rating_for_mode mode ratings s.config.party_size_rating_adjustment
              s.config.party_spread_rating_adjustment s.config.max_party_rating_spread in
          if mode_eq ticket_mode mode && any (λ candidate. text_eq candidate region) regions
          then if_some rating
              (λ effective. some (record {
                id = ticket;
                party = party;
                members = found.0;
                ratings = ratings;
                effective_rating = effective;
                enqueued_at = enqueued;
                revision = found.1;
                region = region;
                mode = mode;
                search_delta =
                    search_delta s.config.initial_elo_delta s.config.elo_step
                      s.config.elo_step_seconds s.config.maximum_elo_delta 0 wait_seconds;
                wait_seconds = wait_seconds;
              }))
              none
          else none)
        none

  -- An entity with the five components that are joined.
  unfoldable pub read_entity :
      AuthorityState env
      → ℕ
      → QueueMode
      → Text
      → Map ℕ (Map QueueMode ℤ)
      → Map ℕ (List ℕ × ℕ)
      → Entity
      → Option PartyTicket
  unfolding read_ticket
  read_entity s now mode region player_ratings parties e =
      if_some e.party_identity
        (λ party.
          if_some e.ticket_identity
            (λ ticket.
              if_some e.ticket_mode
                (λ ticket_mode.
                  if_some e.ticket_regions
                    (λ regions.
                      if_some e.enqueued_at
                        (read_ticket s now mode region player_ratings parties party ticket
                          ticket_mode regions)
                        none)
                    none)
                none)
            none)
        none

  -- What `ecs_tickets` reads from a world.
  unfoldable pub world_tickets :
      List Entity → AuthorityState env → ℕ → QueueMode → Text → List PartyTicket
  unfolding collect_by filter_map read_entity
  world_tickets world s now mode region =
      let player_ratings = collect_by read_player world [] in
      let parties = collect_by read_party world [] in
      filter_map (read_entity s now mode region player_ratings parties) world
