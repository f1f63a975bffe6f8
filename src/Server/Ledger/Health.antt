-- ===== src/Server/Ledger/Health.antt =====
-- Heartbeats and the loss of servers (core/src/server.rs, `heartbeat` and `update_health`).
use elo_ranking_pairing_syst.Base.{
  ℕ, ◌≡◌, refl, ◌⊎◌, inl, inr, none, some, [], ◌∷◌, arith, ◌==◌, if◌then◌else◌, ok, err,
  Option-cases, Bool-cases,
}
use elo_ranking_pairing_syst.Base.Word.{u32_max, saturating_add}
use elo_ranking_pairing_syst.Base.Map.{Map, lookup, modify, map_values, total, nat_key}
use elo_ranking_pairing_syst.Base.Map.Laws.{lookup-modify, map_values-IsMap}
use elo_ranking_pairing_syst.Server.Types.{
  healthy, Instance, GameServer, stale_generation, Registry, authoritative_used,
}
use elo_ranking_pairing_syst.Server.Monitor.{
  beat, heartbeat, lose, lost_matches, health_at, examine, update_health,
}
use elo_ranking_pairing_syst.Server.Ledger.{
  live_cost, IsLedger, IsRegistry, authoritative_used-total, lookup-IsLedger, modify-IsRegistry,
}

-- The live cost of a server in order does not wrap, and is what the ledger says.
ledger-authoritative :
    (s : GameServer) → IsLedger s → authoritative_used s.instances ≡ s.capacity_used
ledger-authoritative s l =
    omega (arith, authoritative_used-total s.instances, l.balanced, l.fits, l.bounded)

beat_ledger :
    (now used : ℕ) (s : GameServer)
    → IsLedger s
    → beat now used s ≡ record s {
      last_heartbeat = now;
      health = healthy;
      failures =
          if used == s.capacity_used then s.failures else saturating_add u32_max s.failures 1;
    }
unfolding beat
beat_ledger now used s l = ground (arith, ledger-authoritative s l, l.fits)

-- A heartbeat of the current generation makes a server in order healthy at that time and changes
-- nothing else, but that it counts a failure exactly if the server reports another capacity in use
-- than the ledger has; the registry stays in order. Of any other generation, or of an unknown
-- server, it is refused.
pub heartbeat_lem :
    (servers : Registry) (id generation now used : ℕ)
    → IsRegistry servers
    → ((s : GameServer) × (lookup id servers ≡ some s)
        × (s.generation ≡ generation)
        × (after : Registry) × (heartbeat servers id generation now used ≡ ok after)
        × IsRegistry after
        × (lookup id after
            ≡ some (record s {
              last_heartbeat = now;
              health = healthy;
              failures =
                  if used == s.capacity_used
                  then s.failures
                  else saturating_add u32_max s.failures 1;
            })))
      ⊎ (heartbeat servers id generation now used ≡ err stale_generation)
unfolding heartbeat
heartbeat_lem servers id generation now used r = elim (Option-cases (lookup id servers)) [
  | inl e ↦ inr (ground arith)
  | inr (s, e) ↦ elim (Bool-cases (s.generation == generation)) [
    | inr other ↦ inr (ground arith)
    | inl current ↦
        let l = (lookup-IsLedger id s servers r e).0 in
        inl (
          s,
          e,
          ground arith,
          modify id (beat now used) servers,
          ground arith,
          modify-IsRegistry id (beat now used) s servers r e
              (rw (beat_ledger now used s l) (record {
                distinct = l.distinct;
                balanced = l.balanced;
                fits = l.fits;
                bounded = l.bounded;
              }))
              (unfold beat in refl),
          ground (arith, lookup-modify id id (beat now used) servers, beat_ledger now used s l),
        )
  ]
]

lose-none : (m : Map ℕ Instance) → total live_cost (map_values lose m) ≡ 0
unfolding lose
lose-none [] = refl
lose-none ((k, i) ∷ m) = ground (arith, lose-none m)

examine-IsLedger :
    (now unhealthy_after lost_after : ℕ) (s : GameServer)
    → IsLedger s
    → IsLedger (examine now unhealthy_after lost_after s)
unfolding examine
examine-IsLedger now unhealthy_after lost_after s l =
    ground (arith, lose-none s.instances, map_values-IsMap lose s.instances l.distinct)

lost_matches-lose : (m : Map ℕ Instance) → lost_matches (map_values lose m) ≡ []
unfolding lost_matches lose
lost_matches-lose [] = refl
lost_matches-lose ((k, i) ∷ m) = ground (arith, lost_matches-lose m)

lookup-update_health :
    (id now unhealthy_after lost_after : ℕ) (servers : Registry)
    → lookup id servers ≡ none
    → lookup id (update_health servers now unhealthy_after lost_after).0 ≡ none
unfolding lookup update_health
lookup-update_health id now unhealthy_after lost_after [] h = refl
lookup-update_health id now unhealthy_after lost_after ((j, s) ∷ servers) h =
    ground (arith, lookup-update_health id now unhealthy_after lost_after servers)

-- An examination keeps the registry in order: a lost server ends with nothing in use.
pub update_health-IsRegistry :
    (servers : Registry) (now unhealthy_after lost_after : ℕ)
    → IsRegistry servers
    → IsRegistry (update_health servers now unhealthy_after lost_after).0
unfolding update_health
update_health-IsRegistry [] now unhealthy_after lost_after r = tt
update_health-IsRegistry ((j, s) ∷ servers) now unhealthy_after lost_after r = (
  unfold examine in ground (arith, r.0),
  lookup-update_health j now unhealthy_after lost_after servers r.1,
  examine-IsLedger now unhealthy_after lost_after s r.2,
  update_health-IsRegistry servers now unhealthy_after lost_after r.3,
)

-- A lost match is reported once: examined again at the same time, no server has one to report.
pub update_health_once :
    (servers : Registry) (now unhealthy_after lost_after : ℕ)
    → let (after, _) = update_health servers now unhealthy_after lost_after in
      (update_health after now unhealthy_after lost_after).1 ≡ []
unfolding update_health examine health_at
update_health_once [] now unhealthy_after lost_after = refl
update_health_once ((j, s) ∷ servers) now unhealthy_after lost_after = ground (
  arith,
  lost_matches-lose s.instances,
  update_health_once servers now unhealthy_after lost_after,
)
