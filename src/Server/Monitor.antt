-- ===== src/Server/Monitor.antt =====
-- `Registry::heartbeat` and `Registry::update_health` of core/src/server.rs.
use elo_ranking_pairing_syst.Base.{
  ℕ, Bool, not, List, [], ◌∷◌, ◌++◌, ◌==◌, ltb, if◌then◌else◌, min, Result, ok, ◌>>=◌, ◌>>◌,
  fail_if, ok_or,
}
use elo_ranking_pairing_syst.Base.Word.{u32_max, saturating_add, saturating_sub}
use elo_ranking_pairing_syst.Base.Map.{Map, lookup, modify, map_values, nat_key}
use elo_ranking_pairing_syst.Components.{mode_key}
use elo_ranking_pairing_syst.Server.Types.{
  Health, healthy, unhealthy, lost, server_lost, Instance, GameServer, ServerError,
  stale_generation, Registry, is_lost, is_live, is_running, authoritative_used,
}

-- The server after a heartbeat.
unfoldable pub beat : ℕ → ℕ → GameServer → GameServer
beat now used s = record s {
  last_heartbeat = now;
  failures =
      if not (used == authoritative_used s.instances)
      then saturating_add u32_max s.failures 1
      else s.failures;
  capacity_used = min (authoritative_used s.instances) s.capacity_total;
  health = healthy;
}

unfoldable pub heartbeat : Registry → ℕ → ℕ → ℕ → ℕ → Result Registry ServerError
unfolding beat
heartbeat servers id generation now used = do
  s ← ok_or (lookup id servers) stale_generation
  fail_if (not (s.generation == generation)) stale_generation
  ok (modify id (beat now used) servers)

unfoldable pub lose : Instance → Instance
lose i = if is_live i.state then record i { state = server_lost } else i

-- What `update_health` reports of the instances of a lost server.
unfoldable pub lost_matches : Map ℕ Instance → List (ℕ × Bool)
lost_matches [] = []
lost_matches ((k, i) ∷ rest) =
    let others = lost_matches rest in
    if is_live i.state then (i.match_id, is_running i.state) ∷ others else others

unfoldable pub health_at : ℕ → ℕ → ℕ → GameServer → Health
health_at now unhealthy_after lost_after s =
    let age = saturating_sub now s.last_heartbeat in
    if ltb lost_after age then lost else if ltb unhealthy_after age then unhealthy else healthy

unfoldable pub examine : ℕ → ℕ → ℕ → GameServer → GameServer
unfolding health_at
examine now unhealthy_after lost_after s =
    let health' = health_at now unhealthy_after lost_after s in
    if is_lost health'
    then record s { health = health'; instances = map_values lose s.instances; capacity_used = 0 }
    else record s { health = health' }

unfoldable pub update_health : Registry → ℕ → ℕ → ℕ → Registry × List (ℕ × Bool)
update_health [] now unhealthy_after lost_after = ([], [])
update_health ((id, s) ∷ servers) now unhealthy_after lost_after =
    let (servers', others) = update_health servers now unhealthy_after lost_after in
    (
      (id, examine now unhealthy_after lost_after s) ∷ servers',
      (if is_lost (health_at now unhealthy_after lost_after s)
          then lost_matches s.instances ++ others
          else others),
    )
