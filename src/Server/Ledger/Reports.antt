-- ===== src/Server/Ledger/Reports.antt =====
-- What a server may report of its instances (core/src/server.rs, `valid_reconciled_state` and
-- `reconcile`).
use mathlib.Core.Option
use elo_ranking_pairing_syst.Base.{
  List, Option, ==_iff, ℕ, ◌≤◌, ◌≡◌, refl, ◌⊎◌, ◌↔◌, inl, inr, true, false, some, [], ◌∷◌, arith,
  ◌==◌, Option-cases, Bool-cases, ◌∙◌,
}
use elo_ranking_pairing_syst.Base.Map.{Map, lookup, modify, keys, total, nat_key, IsMap}
use elo_ranking_pairing_syst.Base.Map.Laws.{modify-IsMap, total-modify, keys-modify, lookup-modify}
use elo_ranking_pairing_syst.Server.Types.{
  InstanceState, server_lost, Instance, GameServer, Registry, is_live, is_server_lost, is_reachable,
  instance_state_rank, valid_reconciled_state, adopt, is_inconsistent,
}
use elo_ranking_pairing_syst.Server.Reconciliation.{reconcile_all, reconcile_server, reconcile}
use elo_ranking_pairing_syst.Server.Ledger.{
  live_cost, IsLedger, IsRegistry, authoritative_used-total, lookup-IsLedger, modify-IsRegistry,
}

-- A report is taken exactly if it repeats the known state, moves a live instance forward to a live
-- state, or brings a lost one back as ready or running: it never ends an instance, never moves one
-- back, and never changes a finished one.
pub valid_reconciled_state_lem :
    (known reported : InstanceState)
    → (valid_reconciled_state known reported ≡ true) ↔ (
        (known ≡ reported)
        ⊎ ((is_live known ≡ true)
            × (is_live reported ≡ true)
            × (instance_state_rank known ≤ instance_state_rank reported))
        ⊎ ((known ≡ server_lost) × (is_reachable reported ≡ true)))
unfolding valid_reconciled_state
valid_reconciled_state_lem known reported = (λ h. ground arith, λ h. ground arith)

-- No instance has been given up as lost.
abbrev pub NoneLost : Map ℕ Instance → Type 0
NoneLost [] = Unit
NoneLost ((k, i) ∷ m) = (is_server_lost i.state ≡ false) × NoneLost m

lookup-NoneLost :
    (k : ℕ) (i : Instance) (m : Map ℕ Instance)
    → NoneLost m
    → lookup k m ≡ some i
    → is_server_lost i.state ≡ false
unfolding lookup
lookup-NoneLost k i [] n h = cc
lookup-NoneLost k i ((j, x) ∷ m) n h = ground (arith, lookup-NoneLost k i m n.1)

adopt_live :
    (known reported : Instance)
    → is_server_lost known.state ≡ false
    → is_inconsistent known reported ≡ false
    → (live_cost (adopt reported known) ≡ live_cost known)
      × (is_server_lost (adopt reported known).state ≡ false)
unfolding adopt is_inconsistent valid_reconciled_state
adopt_live known reported n h = ground arith

modify-NoneLost :
    (k : ℕ) (f : Instance → Instance) (i : Instance) (m : Map ℕ Instance)
    → NoneLost m
    → lookup k m ≡ some i
    → is_server_lost (f i).state ≡ false
    → NoneLost (modify k f m)
unfolding lookup modify
modify-NoneLost k f i [] n h p = tt
modify-NoneLost k f i ((j, x) ∷ m) n h p = elim (Bool-cases (j == k)) [
  | inl at ↦ let same : i ≡ x = ground arith in rw at (rw same at p, n.1)
  | inr off ↦ rw off (n.0, modify-NoneLost k f i m n.1 (ground arith) p)
]

-- What the loop keeps, whether it runs to its end or stops at a bad report.
record Keeps (before after : Map ℕ Instance) : Type 0 where
  matches : keys after ≡ keys before
  distinct : IsMap after
  cost : total live_cost after ≡ total live_cost before
  none_lost : NoneLost after

reconcile_all-Keeps :
    (known reports : Map ℕ Instance)
    → IsMap known
    → NoneLost known
    → Keeps known (reconcile_all known reports).0
unfolding reconcile_all
reconcile_all-Keeps known [] w n = record {
  matches = refl;
  distinct = w;
  cost = refl;
  none_lost = n;
}
reconcile_all-Keeps known ((k, reported) ∷ rest) w n = elim (Option-cases (lookup k known)) [
  | inl e ↦
      rw (e, reconcile_all) (record { matches = refl; distinct = w; cost = refl; none_lost = n })
  | inr (i, e) ↦ elim (Bool-cases (is_inconsistent i reported)) [
    | inl bad ↦
        rw (e, bad, reconcile_all)
          (record { matches = refl; distinct = w; cost = refl; none_lost = n })
    | inr good ↦
        let (same, alive) = adopt_live i reported (lookup-NoneLost k i known n e) good in
        let changed = modify k (adopt reported) known in
        let ih =
          reconcile_all-Keeps changed rest (modify-IsMap k (adopt reported) known w)
            (modify-NoneLost k (adopt reported) i known n e alive) in
        rw (e, good, reconcile_all)
          (record {
            matches = ih.matches ∙ keys-modify k (adopt reported) known;
            distinct = ih.distinct;
            cost =
                omega (arith, ih.cost, same, total-modify live_cost k (adopt reported) i known e);
            none_lost = ih.none_lost;
          })
  ]
]

reconcile_server-IsLedger :
    (s : GameServer) (reports : Map ℕ Instance)
    → IsLedger s
    → NoneLost s.instances
    → IsLedger (reconcile_server s reports).0
unfolding reconcile_server
reconcile_server-IsLedger s reports l n =
    let after = reconcile_all s.instances reports in
    let k = reconcile_all-Keeps s.instances reports l.distinct n in
    ground (
      arith,
      l.balanced,
      l.fits,
      l.bounded,
      l.distinct,
      k.cost,
      k.distinct,
      authoritative_used-total after.0,
    )

reconcile_order :
    (servers : Registry) (id generation : ℕ) (reports : Map ℕ Instance)
    → IsRegistry servers
    → ((s : GameServer) → lookup id servers ≡ some s → NoneLost s.instances)
    → IsRegistry (reconcile servers id generation reports).0
unfolding reconcile
reconcile_order servers id generation reports r n = elim (Option-cases (lookup id servers)) [
  | inl e ↦ rw (e, reconcile) r
  | inr (s, e) ↦ elim (Bool-cases (s.generation == generation)) [
    | inr other ↦ rw (e, other, reconcile) r
    | inl current ↦
        rw (e, current, reconcile)
          (modify-IsRegistry id (λ _. (reconcile_server s reports).0) s servers r e
            (reconcile_server-IsLedger s reports (lookup-IsLedger id s servers r e).0 (n s e))
            (unfold reconcile_server in ground arith))
  ]
]

reconcile_all-keys :
    (known reports : Map ℕ Instance) → keys (reconcile_all known reports).0 ≡ keys known
unfolding reconcile_all
reconcile_all-keys known [] = refl
reconcile_all-keys known ((k, reported) ∷ rest) = elim (Option-cases (lookup k known)) [
  | inl e ↦ rw (e, reconcile_all) refl
  | inr (i, e) ↦ elim (Bool-cases (is_inconsistent i reported)) [
    | inl bad ↦ rw (e, bad, reconcile_all) refl
    | inr good ↦
        rw (e, good, reconcile_all)
          (reconcile_all-keys (modify k (adopt reported) known) rest
            ∙ keys-modify k (adopt reported) known)
  ]
]

-- The matches of a server.
abbrev pub matches_at : Registry → ℕ → Option (List ℕ)
matches_at servers id = Option.map (λ (s : GameServer). keys s.instances) (lookup id servers)

reconcile_server-keys :
    (s : GameServer) (reports : Map ℕ Instance)
    → keys (reconcile_server s reports).0.instances ≡ keys s.instances
unfolding reconcile_server
reconcile_server-keys s reports = ground (arith, reconcile_all-keys s.instances reports)

matches_modified :
    (servers : Registry) (id j : ℕ) (s t : GameServer)
    → lookup id servers ≡ some s
    → keys t.instances ≡ keys s.instances
    → matches_at (modify id (λ _. t) servers) j ≡ matches_at servers j
matches_modified servers id j s t e same = elim (Option-cases (lookup j servers)) [
  | inl n ↦ ground (arith, n, lookup-modify id j (λ (_ : GameServer). t) servers)
  | inr (g, n) ↦
      ground (arith, n, e, same, ==_iff id j, lookup-modify id j (λ (_ : GameServer). t) servers)
]

reconcile-matches :
    (servers : Registry) (id generation : ℕ) (reports : Map ℕ Instance) (j : ℕ)
    → matches_at (reconcile servers id generation reports).0 j ≡ matches_at servers j
unfolding reconcile
reconcile-matches servers id generation reports j = elim (Option-cases (lookup id servers)) [
  | inl e ↦ rw (e, reconcile) refl
  | inr (s, e) ↦ elim (Bool-cases (s.generation == generation)) [
    | inr other ↦ rw (e, other, reconcile) refl
    | inl current ↦
        rw (e, current, reconcile)
          (matches_modified servers id j s (reconcile_server s reports).0 e
            (reconcile_server-keys s reports))
  ]
]

-- While no instance of the server is lost, its report keeps the registry in order, also where the
-- report is refused half way; and every server has the same matches as before, in the same order.
pub reconcile-IsRegistry :
    (servers : Registry) (id generation : ℕ) (reports : Map ℕ Instance)
    → IsRegistry servers
    → ((s : GameServer) → lookup id servers ≡ some s → NoneLost s.instances)
    → let after = (reconcile servers id generation reports).0 in
      IsRegistry after × ((j : ℕ) → matches_at after j ≡ matches_at servers j)
reconcile-IsRegistry servers id generation reports r n = (
  reconcile_order servers id generation reports r n,
  reconcile-matches servers id generation reports,
)
