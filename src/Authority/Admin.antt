-- ===== src/Authority/Admin.antt =====
-- `snapshot` of the administration, with `latency_summary` and `admin_metrics` (core/src/grpc/mod.rs).
pub mod Figures
use elo_ranking_pairing_syst.Base.{
  ℕ, ◌+◌, ◌%◌, Bool, true, false, Option, List, [], ◌∷◌, map, length, if_some, unwrap_or, ok, err,
  if◌then◌else◌,
}
use elo_ranking_pairing_syst.Base.Word.{u32_mod, u64_mod}
use elo_ranking_pairing_syst.Base.Text.{Text, text}
use elo_ranking_pairing_syst.Base.Map.{Map, lookup, insert, values, nat_key}
use elo_ranking_pairing_syst.Components.{QueueMode}
use elo_ranking_pairing_syst.Metrics.{Metrics, Histogram, summary}
use elo_ranking_pairing_syst.Server.Types.{
  Health, healthy, unhealthy, lost, InstanceState, reserved, accepted, is_running, GameServer,
}
use elo_ranking_pairing_syst.Authority.Messages.{Status, failed_precondition, ApiVersion, Env}
use elo_ranking_pairing_syst.Authority.State.{AuthorityState, TicketRecord, Step, check_api}
use elo_ranking_pairing_syst.Authority.Commit.{queue_key}
use elo_ranking_pairing_syst.Authority.Rebuild.{count_by, count_instances}

pub record LatencySummary : Type 0 where
  pub stage : Text
  pub samples : ℕ
  pub p50_us : ℕ
  pub p95_us : ℕ
  pub p99_us : ℕ

unfoldable pub latency_summary : Text → Histogram → LatencySummary
unfolding summary
latency_summary stage histogram =
    let s = summary histogram in
    record { stage = stage; samples = s.samples; p50_us = s.p50; p95_us = s.p95; p99_us = s.p99 }

pub record MetricSummary : Type 0 where
  pub commands : ℕ
  pub proposals : ℕ
  pub ready_accepts : ℕ
  pub ready_rejects : ℕ
  pub ready_timeouts : ℕ
  pub credit_penalties : ℕ
  pub launch_failures : ℕ
  pub reconnects : ℕ
  pub invariant_failures : ℕ
  pub command_queue_high : ℕ
  pub event_queue_high : ℕ
  pub control_queue_high : ℕ
  pub elo_quality_sum : ℕ
  pub party_structure_difference_sum : ℕ
  pub latencies : List LatencySummary

unfoldable pub admin_metrics : Metrics → MetricSummary
unfolding latency_summary
admin_metrics m = record {
  commands = m.commands;
  proposals = m.matches;
  ready_accepts = m.ready_accepts;
  ready_rejects = m.ready_rejects;
  ready_timeouts = m.ready_timeouts;
  credit_penalties = m.credit_penalties;
  launch_failures = m.launch_failures;
  reconnects = m.reconnects;
  invariant_failures = m.invariant_failures;
  command_queue_high = m.command_queue_high;
  event_queue_high = m.event_queue_high;
  control_queue_high = m.control_queue_high;
  elo_quality_sum = m.lifecycle.elo_quality_sum;
  party_structure_difference_sum = m.lifecycle.party_structure_difference_sum;
  latencies =
      map (λ (x : Text × Histogram). latency_summary x.0 x.1)
        ((text "queue_wait", m.queue_wait_us)
          ∷ (text "candidate_compute", m.candidate_compute_us)
          ∷ (text "commit", m.commit_us)
          ∷ (text "ready_check", m.ready_check_us)
          ∷ (text "placement", m.placement_us)
          ∷ (text "launch", m.launch_us)
          ∷ []);
}

-- The mode stands for its number `pb_mode`, and the server for the text of its identifier.
pub record QueueSummary : Type 0 where
  pub mode : QueueMode
  pub region : Text
  pub tickets : ℕ
  pub players : ℕ

pub record ServerSummary : Type 0 where
  pub server_id : ℕ
  pub health : Health
  pub capacity_total : ℕ
  pub capacity_used : ℕ
  pub max_instances : ℕ
  pub running_instances : ℕ

pub record AdminSnapshot : Type 0 where
  pub queues : List QueueSummary
  pub servers : List ServerSummary
  pub matches : ℕ
  pub reservations : ℕ
  pub metrics : MetricSummary

abbrev pub Grouped : Type 0
Grouped = Map (QueueMode × Text) (ℕ × ℕ)

-- `let e = grouped.entry(..).or_default(); e.0 += 1; e.1 += players`, for each region.
unfoldable pub group_regions : QueueMode → ℕ → List Text → Grouped → Grouped
group_regions mode players [] grouped = grouped
group_regions mode players (region ∷ regions) grouped =
    let e = unwrap_or (0, 0) (lookup (mode, region) grouped) in
    group_regions mode players regions
      (insert (mode, region) ((e.0 + 1) % u64_mod, (e.1 + players) % u64_mod) grouped)

unfoldable pub summarize_queue : (QueueMode × Text) × (ℕ × ℕ) → QueueSummary
summarize_queue x = record { mode = x.0.0; region = x.0.1; tickets = x.1.0; players = x.1.1 }

unfoldable pub summarize_server : GameServer → ServerSummary
summarize_server v = record {
  server_id = v.id;
  health = v.health;
  capacity_total = v.capacity_total;
  capacity_used = v.capacity_used;
  max_instances = v.max_instances;
  running_instances = count_by is_running v.instances % u32_mod;
}

-- `InstanceState::Reserved | InstanceState::Accepted`
abbrev pub is_waiting : InstanceState → Bool
is_waiting reserved = true
is_waiting accepted = true
is_waiting _ = false

module _ {env : Env} where
  unfoldable pub group_tickets : AuthorityState env → Map ℕ TicketRecord → Grouped → Grouped
  unfolding group_regions
  group_tickets s [] grouped = grouped
  group_tickets s ((party_id, t) ∷ tickets) grouped =
      let players = if_some (lookup party_id s.parties) (λ p. length p.members) 0 in
      group_tickets s tickets (group_regions t.mode players t.regions grouped)

  unfoldable pub admin_snapshot : AuthorityState env → Metrics → AdminSnapshot
  unfolding group_tickets summarize_queue summarize_server count_instances admin_metrics
  admin_snapshot s metrics =
      let servers = values s.registry in
      record {
        queues = map summarize_queue (group_tickets s s.tickets []);
        servers = map summarize_server servers;
        matches = length s.launches;
        reservations = count_instances is_waiting servers;
        metrics = admin_metrics metrics;
      }

  unfoldable pub show_snapshot : Option ApiVersion → Metrics → Step env AdminSnapshot
  unfolding check_api admin_snapshot
  show_snapshot api metrics s =
      if check_api api then (ok (admin_snapshot s metrics), s) else (err failed_precondition, s)
