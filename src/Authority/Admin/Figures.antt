-- ===== src/Authority/Admin/Figures.antt =====
-- The two counts of the queues, that of `rebuild_ecs` and that of the administration, and the capacity
-- of the servers (core/src/grpc/mod.rs).
use elo_ranking_pairing_syst.Base.{
  ℕ, ◌+◌, ◌*◌, ◌%◌, ◌≤◌, ◌≡◌, refl, none, some, List, [], ◌∷◌, map, length, unwrap_or, if_some,
  arith,
}
use elo_ranking_pairing_syst.Base.Word.{u64_mod}
use elo_ranking_pairing_syst.Base.Text.{Text}
use elo_ranking_pairing_syst.Base.Map.{Map, lookup, insert, modify, put, values, nat_key}
use elo_ranking_pairing_syst.Components.{QueueMode}
use elo_ranking_pairing_syst.Metrics.{Metrics, MetricSnapshot}
use elo_ranking_pairing_syst.Server.Ledger.{IsRegistry}
use elo_ranking_pairing_syst.Server.Types.{Registry}
use elo_ranking_pairing_syst.Authority.Messages.{Env}
use elo_ranking_pairing_syst.Authority.State.{AuthorityState, TicketRecord}
use elo_ranking_pairing_syst.Authority.Commit.{queue_key}
use elo_ranking_pairing_syst.Authority.Rebuild.{add_players, count_players, lifecycle, sum_u64}
use elo_ranking_pairing_syst.Authority.Admin.{
  QueueSummary, Grouped, group_regions, group_tickets, summarize_queue, admin_snapshot,
}

-- The players of the groups.
abbrev players_of : Grouped → Map (QueueMode × Text) ℕ
players_of [] = []
players_of ((k, v) ∷ grouped) = (k, v.1) ∷ players_of grouped

lookup-players_of :
    (k : QueueMode × Text) (grouped : Grouped)
    → lookup k (players_of grouped) ≡ if_some (lookup k grouped) (λ v. some v.1) none
unfolding lookup
lookup-players_of k [] = refl
lookup-players_of k ((j, v) ∷ grouped) = ground (arith, lookup-players_of k grouped)

modify-players_of :
    (k : QueueMode × Text) (v : ℕ × ℕ) (grouped : Grouped)
    → players_of (modify k (λ _. v) grouped) ≡ modify k (λ _. v.1) (players_of grouped)
unfolding modify
modify-players_of k v [] = refl
modify-players_of k v ((j, w) ∷ grouped) = ground (arith, modify-players_of k v grouped)

put-players_of :
    (k : QueueMode × Text) (v : ℕ × ℕ) (grouped : Grouped)
    → players_of (put k v grouped) ≡ put k v.1 (players_of grouped)
unfolding put
put-players_of k v [] = refl
put-players_of k v ((j, w) ∷ grouped) = ground (arith, put-players_of k v grouped)

insert-players_of :
    (k : QueueMode × Text) (v : ℕ × ℕ) (grouped : Grouped)
    → players_of (insert k v grouped) ≡ insert k v.1 (players_of grouped)
unfolding insert
insert-players_of k v grouped =
    ground (
      arith,
      lookup-players_of k grouped,
      modify-players_of k v grouped,
      put-players_of k v grouped,
    )

group_regions-players_of :
    (mode : QueueMode) (players : ℕ) (regions : List Text) (grouped : Grouped)
    → players_of (group_regions mode players regions grouped)
      ≡ add_players mode players regions (players_of grouped)
unfolding group_regions add_players
group_regions-players_of mode players [] grouped = refl
group_regions-players_of mode players (region ∷ regions) grouped =
    let k : QueueMode × Text = (mode, region) in
    let e : ℕ × ℕ = unwrap_or (0, 0) (lookup k grouped) in
    let v : ℕ × ℕ = ((e.0 + 1) % u64_mod, (e.1 + players) % u64_mod) in
    let same : unwrap_or 0 (lookup k (players_of grouped)) ≡ e.1 =
      ground (arith, lookup-players_of k grouped) in
    let rest = group_regions-players_of mode players regions (insert k v grouped) in
    rw (same, rest, insert-players_of k v grouped) refl

abbrev pub entry_of : QueueSummary → (QueueMode × Text) × ℕ
entry_of q = ((q.mode, q.region), q.players)

entries-summarize_queue :
    (grouped : Grouped) → map entry_of (map summarize_queue grouped) ≡ players_of grouped
unfolding summarize_queue
entries-summarize_queue [] = refl
entries-summarize_queue (x ∷ grouped) = ground (arith, entries-summarize_queue grouped)

-- The sums do not wrap for servers in order, of which there are at most 2^32.
capacity_sums :
    (servers : Registry)
    → IsRegistry servers
    → length servers ≤ 4294967296
    → let used = sum_u64 (map (λ g. g.capacity_used) (values servers)) in
      let total = sum_u64 (map (λ g. g.capacity_total) (values servers)) in
      (used ≤ total) × (total ≤ length servers * 4294967295)
unfolding sum_u64
capacity_sums [] r l = ground arith
capacity_sums ((id, g) ∷ servers) (_, _, ledger, r) l =
    ground (arith, capacity_sums servers r (ground (arith, l)), ledger.fits, ledger.bounded)

module _ {env : Env} where
  group_tickets-players_of :
      (s : AuthorityState env) (tickets : Map ℕ TicketRecord) (grouped : Grouped)
      → players_of (group_tickets s tickets grouped) ≡ count_players s tickets (players_of grouped)
  unfolding group_tickets count_players
  group_tickets-players_of s [] grouped = refl
  group_tickets-players_of s ((party_id, t) ∷ tickets) grouped =
      let players = if_some (lookup party_id s.parties) (λ p. length p.members) 0 in
      rw
        (
          group_tickets-players_of s tickets (group_regions t.mode players t.regions grouped),
          group_regions-players_of t.mode players t.regions grouped,
        )
        refl

  -- The two counts of the queues agree: the administration is shown, queue by queue and in the same order,
  -- the players that the metrics count after a rebuild.
  pub admin_snapshot-lifecycle :
      (s : AuthorityState env) (metrics : Metrics) (before : MetricSnapshot)
      → map entry_of (admin_snapshot s metrics).queues ≡ (lifecycle s before).queue_players
  unfolding admin_snapshot lifecycle
  admin_snapshot-lifecycle s metrics before =
      rw
        (
          entries-summarize_queue (group_tickets s s.tickets []),
          group_tickets-players_of s s.tickets [],
        )
        refl

  -- With the servers in order, of which there are at most 2^32, no more capacity is in use than there is.
  pub lifecycle_capacity :
      (s : AuthorityState env) (before : MetricSnapshot)
      → IsRegistry s.registry
      → length s.registry ≤ 4294967296
      → (lifecycle s before).capacity_used ≤ (lifecycle s before).capacity_total
  unfolding lifecycle
  lifecycle_capacity s before r l = (capacity_sums s.registry r l).0
