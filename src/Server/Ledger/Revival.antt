-- ===== src/Server/Ledger/Revival.antt =====
-- A report that brings a lost instance back and is then refused (core/src/server.rs, `reconcile`).
use elo_ranking_pairing_syst.Base.{ℕ, ◌+◌, ◌<◌, ◌≡◌, ◌≢◌, true, false, some, [], ◌∷◌, arith, err}
use elo_ranking_pairing_syst.Base.Map.{lookup, total, nat_key}
use elo_ranking_pairing_syst.Base.Map.Laws.{lookup-modify, total-modify}
use elo_ranking_pairing_syst.Server.Types.{
  Instance, GameServer, server_lost, invalid_capacity, is_reachable, adopt, is_inconsistent,
}
use elo_ranking_pairing_syst.Server.Reconciliation.{reconcile_all, reconcile_server}
use elo_ranking_pairing_syst.Server.Ledger.{live_cost, IsLedger}

revived_cost :
    (i r : Instance)
    → i.state ≡ server_lost
    → is_reachable r.state ≡ true
    → live_cost (adopt r i) ≡ live_cost i + i.cost
unfolding adopt
revived_cost i r lost back = ground arith

-- A refused report is not undone, and the ledger does not follow it: where the report first brings
-- back a lost instance that costs something, and then is refused for another instance, the server
-- keeps the instance as revived while the capacity in use stays as it was, so its ledger is out of
-- balance by the cost of the instance.
pub reconcile_server_uncharged :
    (s : GameServer) (m n : ℕ) (i j r q : Instance)
    → IsLedger s
    → m ≢ n
    → lookup m s.instances ≡ some i
    → lookup n s.instances ≡ some j
    → i.state ≡ server_lost
    → 0 < i.cost
    → is_inconsistent i r ≡ false
    → is_reachable r.state ≡ true
    → is_inconsistent j q ≡ true
    → let (after, result) = reconcile_server s ((m, r) ∷ (n, q) ∷ []) in
      (result ≡ err invalid_capacity)
      × (lookup m after.instances ≡ some (adopt r i))
      × (after.capacity_used ≡ s.capacity_used)
      × (total live_cost after.instances ≡ s.capacity_used + i.cost)
      × ¬ IsLedger after
unfolding reconcile_server reconcile_all
reconcile_server_uncharged s m n i j r q l ne e f lost costs good back bad =
    let cost = total-modify live_cost m (adopt r) i s.instances e in
    let revived = revived_cost i r lost back in
    let here = lookup-modify m m (adopt r) s.instances in
    let there = lookup-modify m n (adopt r) s.instances in
    (
      ground (arith, here, there),
      ground (arith, here, there),
      ground (arith, here, there),
      ground (arith, here, there, cost, revived, l.balanced),
      λ after. ground (arith, here, there, cost, revived, l.balanced, after.balanced),
    )
