-- ===== src/World.antt =====
-- core/src/world.rs and the components of core/src/components/mod.rs: the entities of the `specs`
-- world. An entity has some of the components; the storages and the joins of `specs` are the library's.
use elo_ranking_pairing_syst.Base.{ℕ, Option, none, List}
use elo_ranking_pairing_syst.Base.Int.{ℤ}
use elo_ranking_pairing_syst.Base.Text.{Text}
use elo_ranking_pairing_syst.Base.Map.{Map}
use elo_ranking_pairing_syst.Components.{QueueMode, PlayerState, PartyState, AcceptState}
use elo_ranking_pairing_syst.Server.Types.{Health}

pub record SearchRange : Type 0 where
  pub minimum : ℤ
  pub maximum : ℤ

pub record BucketOwner : Type 0 where
  pub region : Text
  pub bucket : ℤ

pub data TicketState : Type 0 where
  queued claimed proposed cancelled : TicketState

pub record Capacity : Type 0 where
  pub total : ℕ
  pub used : ℕ

pub record InstanceCapacity : Type 0 where
  pub maximum : ℕ
  pub running : ℕ
  pub reserved : ℕ

-- The components that the program attaches to entities; a component with one field is that field, and
-- `ServerHealth` has the values of `Health`.
pub record Entity : Type 0 where
  pub player_identity : Option ℕ
  pub elo_rating : Option (Map QueueMode ℤ)
  pub credit_score : Option ℕ
  pub player_state : Option PlayerState
  pub party_identity : Option ℕ
  pub party_name : Option Text
  pub party_members : Option (List ℕ)
  pub party_leader : Option ℕ
  pub party_revision : Option ℕ
  pub party_state : Option PartyState
  pub ticket_identity : Option ℕ
  pub ticket_mode : Option QueueMode
  pub ticket_regions : Option (List Text)
  pub enqueued_at : Option ℕ
  pub search_range : Option SearchRange
  pub bucket_owner : Option BucketOwner
  pub ticket_state : Option TicketState
  pub proposal_identity : Option ℕ
  pub proposal_roster : Option (List (List ℕ))
  pub accept_deadline : Option ℕ
  pub player_accept_states : Option (Map ℕ AcceptState)
  pub server_identity : Option ℕ
  pub server_generation : Option ℕ
  pub server_endpoint : Option Text
  pub server_region : Option Text
  pub supported_modes : Option (List QueueMode)
  pub server_capacity : Option Capacity
  pub server_mode_costs : Option (Map QueueMode ℕ)
  pub instance_capacity : Option InstanceCapacity
  pub server_heartbeat : Option ℕ
  pub server_health : Option Health
  pub recent_launch_failures : Option ℕ

-- `create_entity()`
abbrev pub create_entity : Entity
create_entity = record {
  player_identity = none;
  elo_rating = none;
  credit_score = none;
  player_state = none;
  party_identity = none;
  party_name = none;
  party_members = none;
  party_leader = none;
  party_revision = none;
  party_state = none;
  ticket_identity = none;
  ticket_mode = none;
  ticket_regions = none;
  enqueued_at = none;
  search_range = none;
  bucket_owner = none;
  ticket_state = none;
  proposal_identity = none;
  proposal_roster = none;
  accept_deadline = none;
  player_accept_states = none;
  server_identity = none;
  server_generation = none;
  server_endpoint = none;
  server_region = none;
  supported_modes = none;
  server_capacity = none;
  server_mode_costs = none;
  instance_capacity = none;
  server_heartbeat = none;
  server_health = none;
  recent_launch_failures = none;
}
