-- ===== src/Server/Registration.antt =====
-- `Registry::register` of core/src/server.rs.
use elo_ranking_pairing_syst.Base.{
  ℕ, Bool, true, false, not, ◌&&◌, ◌||◌, none, some, List, [], ◌∷◌, ◌==◌, ltb, if◌then◌else◌, any,
  retain, length, is_empty, min, Result, ok, err, ◌>>=◌, ◌>>◌, fail_if, ok_or,
}
use elo_ranking_pairing_syst.Base.Text.{text_eq, is_blank}
use elo_ranking_pairing_syst.Base.Map.{Key, Map, lookup, insert, modify, values, keys, nat_key}
use elo_ranking_pairing_syst.Components.{mode_key}
use elo_ranking_pairing_syst.Server.Types.{
  healthy, Instance, GameServer, ServerError, stale_generation, invalid_capacity, unknown_instance,
  ServerLimits, Registry, is_live, valid_instance_payload, live_costs, checked_sum, adopt,
  is_inconsistent,
}

-- Equality of sets and of maps, whose lists are in key order.
module _ {ℓ} {K : Type ℓ} ⦃e : Key K⦄ where
  unfoldable pub keys_eq : List K → List K → Bool
  keys_eq [] [] = true
  keys_eq (a ∷ s) (b ∷ t) = e.beq a b && keys_eq s t
  keys_eq _ _ = false

  unfoldable pub costs_eq : Map K ℕ → Map K ℕ → Bool
  costs_eq [] [] = true
  costs_eq ((a, x) ∷ s) ((b, y) ∷ t) = e.beq a b && (x == y) && costs_eq s t
  costs_eq _ _ = false

-- The guard at the head of `register`.
unfoldable pub is_refused : GameServer → ServerLimits → Bool
is_refused s limits =
    is_blank s.endpoint
    || is_blank s.region
    || is_empty s.modes
    || is_empty s.mode_costs
    || not (keys_eq s.modes (keys s.mode_costs))
    || (s.capacity_total == 0)
    || ltb limits.max_capacity s.capacity_total
    || (s.max_instances == 0)
    || ltb (min limits.max_instances 100) s.max_instances
    || any (λ cost. cost == 0) (values s.mode_costs)
    || any (λ i. not (valid_instance_payload i)) (values s.instances)
    || ltb s.capacity_total s.capacity_used
    || ltb s.max_instances (length s.instances)

-- `register`: the reported instances on top of the known ones.
unfoldable pub merge : Map ℕ Instance → Map ℕ Instance → Result (Map ℕ Instance) ServerError
merge merged [] = ok merged
merge merged ((match_id, reported) ∷ rest) =
    let later = merge (modify match_id (adopt reported) merged) rest in
    elim (lookup match_id merged) [
      | none ↦ err unknown_instance
      | some known ↦ if is_inconsistent known reported then err invalid_capacity else later
    ]

-- `register` of a server that is known under the same generation.
unfoldable pub reconnect : Registry → GameServer → GameServer → Result Registry ServerError
reconnect servers old s =
    if not (text_eq old.region s.region)
      || not (keys_eq old.modes s.modes)
      || not (old.capacity_total == s.capacity_total)
      || not (old.max_instances == s.max_instances)
      || not (costs_eq old.mode_costs s.mode_costs)
    then err invalid_capacity
    else ok (
        modify s.id
          (λ o. record o {
            endpoint = s.endpoint;
            last_heartbeat = s.last_heartbeat;
            health = healthy;
          })
          servers)

-- `register` of a server that is known under an older generation.
unfoldable pub replace : Registry → GameServer → GameServer → Result Registry ServerError
replace servers old s = do
  merged ← merge old.instances s.instances
  used ← ok_or (checked_sum 0 (live_costs merged)) invalid_capacity
  fail_if
      (ltb s.capacity_total used
        || ltb s.max_instances (length (retain (λ i. is_live i.state) (values merged))))
      invalid_capacity
  ok (
      insert s.id (record s { instances = merged; capacity_used = used; failures = old.failures })
        servers)

unfoldable pub register : Registry → GameServer → ServerLimits → Result Registry ServerError
unfolding is_refused
register servers s limits = do
  fail_if (is_refused s limits) invalid_capacity
  elim (lookup s.id servers) [
    | none ↦ ok (insert s.id s servers)
    | some old ↦
        if ltb s.generation old.generation
        then err stale_generation
        else if old.generation == s.generation
        then reconnect servers old s
        else replace servers old s
  ]
