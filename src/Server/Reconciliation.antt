-- ===== src/Server/Reconciliation.antt =====
-- `Registry::reconcile` of core/src/server.rs.
use elo_ranking_pairing_syst.Base.{
  ℕ, not, none, some, [], ◌∷◌, ◌==◌, if◌then◌else◌, any, min, Result, ok, err,
}
use elo_ranking_pairing_syst.Base.Map.{Map, lookup, modify, keys, contains_key, nat_key}
use elo_ranking_pairing_syst.Components.{mode_key}
use elo_ranking_pairing_syst.Server.Types.{
  Instance, GameServer, ServerError, stale_generation, invalid_capacity, unknown_instance, Registry,
  authoritative_used, adopt, is_inconsistent,
}

-- The loop of `reconcile`: it stops at the first bad report and keeps what it has written.
unfoldable pub reconcile_all :
    Map ℕ Instance → Map ℕ Instance → Map ℕ Instance × Result (Unit {0}) ServerError
reconcile_all known [] = (known, ok tt)
reconcile_all known ((match_id, reported) ∷ rest) =
    let later = reconcile_all (modify match_id (adopt reported) known) rest in
    elim (lookup match_id known) [
      | none ↦ (known, err unknown_instance)
      | some i ↦ if is_inconsistent i reported then (known, err invalid_capacity) else later
    ]

-- `reconcile` of the server itself.
unfoldable pub reconcile_server :
    GameServer → Map ℕ Instance → GameServer × Result (Unit {0}) ServerError
reconcile_server s reports =
    if any (λ match_id. not (contains_key match_id s.instances)) (keys reports)
    then (s, err unknown_instance)
    else let (instances', result) = reconcile_all s.instances reports in
      let written = record s { instances = instances' } in
      elim result [
        | ok _ ↦ (
          record written { capacity_used = min (authoritative_used instances') s.capacity_total },
          ok tt,
        )
        | err e ↦ (written, err e)
      ]

-- The registry changes also where the call fails half way.
unfoldable pub reconcile :
    Registry → ℕ → ℕ → Map ℕ Instance → Registry × Result (Unit {0}) ServerError
reconcile servers id generation reports = elim (lookup id servers) [
  | none ↦ (servers, err stale_generation)
  | some s ↦
      if not (s.generation == generation)
      then (servers, err stale_generation)
      else let (s', result) = reconcile_server s reports in (modify id (λ _. s') servers, result)
]
