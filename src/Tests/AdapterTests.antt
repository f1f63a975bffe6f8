-- ===== src/Tests/AdapterTests.antt =====
-- The services, the world and the administration at concrete inputs.
use mathlib.Core.Logic.{∥∥₁_elim}
use mathlib.Core.List.{Mem, Permᴰ, eq-or-mem_of_mem-cons, not-mem-nil}
use elo_ranking_pairing_syst.Base.{
  ℕ, ◌≡◌, ◌≢◌, Option, refl, sym, ◌∙◌, some, List, [], ◌∷◌, map, ok, inl, inr,
}
use elo_ranking_pairing_syst.Base.Int.{◌-ℤ◌, ◌+ℤ◌, ◌*ℤ◌, min_ℤ, div_trunc, sum_ℤ}
use elo_ranking_pairing_syst.Base.Word.{clamp, saturating_add_i32, saturating_mul_i32}
use elo_ranking_pairing_syst.Base.Text.{Text, text, text_eq}
use elo_ranking_pairing_syst.Base.Map.{Map, lookup, insert, put, modify, nat_key, text_key}
use elo_ranking_pairing_syst.Base.Sort.{HasNoTies, sort_by}
use elo_ranking_pairing_syst.Components.{one_vs_one, mode_eq}
use elo_ranking_pairing_syst.Matching.{PartyTicket, effective_rating, greatest, least}
use elo_ranking_pairing_syst.Matching.Sorted.{ticket_order, snapshot}
use elo_ranking_pairing_syst.Metrics.{Metrics, MetricSnapshot, redact_field}
use elo_ranking_pairing_syst.Profile.{default_profile}
use elo_ranking_pairing_syst.World.{Entity}
use elo_ranking_pairing_syst.Authority.Messages.{ApiVersion}
use elo_ranking_pairing_syst.Authority.State.{AuthorityState}
use elo_ranking_pairing_syst.Authority.Commit.{ecs_tickets, queue_eq}
use elo_ranking_pairing_syst.Authority.Rebuild.{rebuilt, world_tickets, dedup, lifecycle}
use elo_ranking_pairing_syst.Authority.Rebuild.ReadBack.{snapshot-world_tickets}
use elo_ranking_pairing_syst.Authority.Tokens.{validate_static, validate_static_server}
use elo_ranking_pairing_syst.Authority.Adapter.{ServerCall, serve_call, serve_session}
use elo_ranking_pairing_syst.Authority.Adapter.Admitted.{serve_call_stranger, serve_session_owner}
use elo_ranking_pairing_syst.Authority.Admin.{admin_snapshot}
use elo_ranking_pairing_syst.Authority.Admin.Figures.{entry_of, admin_snapshot-lifecycle}
use elo_ranking_pairing_syst.Tests.AuthorityTests.{town, start, ticket}

-- The world of the state, with its first two entities in the other order.
abbrev swap_first : List Entity → List Entity
swap_first (a ∷ b ∷ world) = b ∷ a ∷ world
swap_first world = world

-- One party waits, the other does nothing.
abbrev one_waits : AuthorityState town
one_waits = record start { tickets = (10, ticket 51) ∷ [] }

abbrev waiting : List PartyTicket
waiting = ecs_tickets one_waits 200 one_vs_one (text "tw") one_waits.tickets

PartyTicket-IsSet : IsSet PartyTicket
PartyTicket-IsSet = hlevel

-- A ticket that waits alone ties with no other.
alone : (a : PartyTicket) → HasNoTies ticket_order.le ticket_order.total (a ∷ [])
alone a x y mx my h k =
    let only : (z : PartyTicket) → Mem z (a ∷ []) → z ≡ a = λ z m.
      ∥∥₁_elim (eq-or-mem_of_mem-cons m) (PartyTicket-IsSet z a)
        (λ w. elim w [ inl e ↦ e | inr n ↦ absurd (not-mem-nil n) ]) in
    only x mx ∙ sym (only y my)

abbrev world_of : List Entity
world_of = swap_first (rebuilt one_waits 200)

snapshot-world_tickets_example :
    Permᴰ (world_tickets world_of one_waits 200 one_vs_one (text "tw")) waiting
    × (snapshot (world_tickets world_of one_waits 200 one_vs_one (text "tw")) ≡ snapshot waiting)
unfolding rebuilt dedup ecs_tickets lookup sort_by mode_eq text_eq effective_rating ◌-ℤ◌ greatest
    least clamp min_ℤ ◌+ℤ◌ saturating_add_i32 div_trunc saturating_mul_i32 sum_ℤ ◌*ℤ◌
snapshot-world_tickets_example =
    snapshot-world_tickets one_waits 200 one_vs_one (text "tw") world_of (refl, (refl, tt))
      (refl, (refl, tt)) (refl, tt) (Permᴰ.swap refl refl) (alone _)

abbrev api_version : Option ApiVersion
api_version = some (record { major = 1; minor = 0 })

abbrev keys_of_servers : Map Text ℕ
keys_of_servers = (text "k1", 1) ∷ (text "k2", 2) ∷ []

-- Server 2 speaks in the name of server 1.
serve_call_stranger_example :
    let call : ServerCall town = ServerCall.reconcile 3 [] in
    let v = validate_static_server keys_of_servers in
    ((serve_call v 5 api_version (some 1) (text "k2") call start).0 ≢ ok tt)
    × ((serve_call v 5 api_version (some 1) (text "k2") call start).1 ≡ start)
unfolding lookup text_eq
serve_call_stranger_example =
    serve_call_stranger keys_of_servers 5 api_version (some 1) (text "k2")
      (ServerCall.reconcile 3 []) start (λ id h k. cc)

serve_session_owner_example :
    let v = validate_static keys_of_servers in
    let load = λ (player : ℕ). some default_profile in
    let after = (serve_session v load 5 api_version (text "k2") (text "fresh") [] start).1 in
    (lookup (text "k2") keys_of_servers ≡ some 2)
    × (lookup (text "fresh") after.sessions ≡ some 2)
    × (lookup 2 after.current_session ≡ some (text "fresh"))
    × ((t : Text) → t ≢ text "fresh" → lookup t after.sessions ≡ lookup t start.sessions)
unfolding serve_session lookup text_eq validate_static
serve_session_owner_example =
    serve_session_owner keys_of_servers (λ player. some default_profile) 5 api_version (text "k2")
      (text "fresh") [] start 2 refl

abbrev no_figures : MetricSnapshot
no_figures = record {
  queue_players = [];
  capacity_total = 0;
  capacity_used = 0;
  reservations = 0;
  running_instances = 0;
  party_structure_difference_sum = 0;
  elo_quality_sum = 0;
  match_latency_us = [];
}

abbrev no_metrics : Metrics
no_metrics = record {
  commands = 0;
  matches = 0;
  ready_accepts = 0;
  ready_rejects = 0;
  ready_timeouts = 0;
  credit_penalties = 0;
  launch_failures = 0;
  reconnects = 0;
  invariant_failures = 0;
  command_queue_high = 0;
  event_queue_high = 0;
  control_queue_high = 0;
  queue_wait_us = [];
  candidate_compute_us = [];
  commit_us = [];
  ready_check_us = [];
  placement_us = [];
  launch_us = [];
  lifecycle = no_figures;
}

admin_snapshot-lifecycle_example :
    map entry_of (admin_snapshot start no_metrics).queues
    ≡ (lifecycle start no_figures).queue_players
admin_snapshot-lifecycle_example = admin_snapshot-lifecycle start no_metrics no_figures

-- Two players wait for a duel.
two_wait : (lifecycle start no_figures).queue_players ≡ ((one_vs_one, text "tw"), 2) ∷ []
unfolding lifecycle lookup insert put queue_eq mode_eq text_eq modify
two_wait = refl

token_hidden : redact_field (text "Session_Token") (text "x") ≡ text "[REDACTED]"
unfolding redact_field
token_hidden = refl
