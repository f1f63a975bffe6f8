-- ===== src/Server/Ledger.antt =====
-- The ledger of a server: the capacity that it has in use is the cost of its live instances.
pub mod Health
pub mod Reports
pub mod Revival
pub mod Registered
use elo_ranking_pairing_syst.Base.{
  ℕ, ◌+◌, ◌%◌, ◌≤◌, ◌<◌, ◌≡◌, refl, Bool, true, false, Option, none, some, List, [], ◌∷◌, map,
  arith, ◌==◌, if◌then◌else◌, retain, sum, Bool-cases, inl, inr, ==_iff, ◌∙◌,
}
use elo_ranking_pairing_syst.Base.Word.{u32_max, u32_mod}
use elo_ranking_pairing_syst.Base.Map.{Map, lookup, modify, insert, values, total, nat_key, IsMap}
use elo_ranking_pairing_syst.Base.Map.Laws.{lookup-modify}
use elo_ranking_pairing_syst.Server.Types.{
  Instance, GameServer, Registry, is_live, live_costs, authoritative_used,
}

abbrev pub live_cost : Instance → ℕ
live_cost i = if is_live i.state then i.cost else 0

-- A server in order: distinct matches, each under its own identifier, the capacity in use is what
-- the live ones cost, and fits.
pub record IsLedger (s : GameServer) : Type 0 where
  pub distinct : IsMap s.instances
  pub balanced : s.capacity_used ≡ total live_cost s.instances
  pub fits : s.capacity_used ≤ s.capacity_total
  pub bounded : s.capacity_total < u32_max

-- Each server stands once, under its own identifier, and is in order.
abbrev pub IsRegistry : Registry → Type 0
IsRegistry [] = Unit
IsRegistry ((id, s) ∷ servers) =
    (s.id ≡ id) × (lookup id servers ≡ none) × IsLedger s × IsRegistry servers

pub sum-live_costs : (m : Map ℕ Instance) → sum (live_costs m) ≡ total live_cost m
unfolding live_costs
sum-live_costs [] = refl
sum-live_costs ((k, i) ∷ m) = ground (arith, sum-live_costs m)

pub authoritative_used-total :
    (m : Map ℕ Instance) → authoritative_used m ≡ total live_cost m % u32_mod
unfolding authoritative_used
authoritative_used-total m = rw (sum-live_costs m)

pub lookup-IsLedger :
    (id : ℕ) (s : GameServer) (servers : Registry)
    → IsRegistry servers
    → lookup id servers ≡ some s
    → IsLedger s × (s.id ≡ id)
unfolding lookup
lookup-IsLedger id s [] r h = cc
lookup-IsLedger id s ((j, t) ∷ servers) r h = elim (Bool-cases (j == id)) [
  | inl e ↦ let same : t ≡ s = ground arith in rw (← same) (r.2, ground arith)
  | inr e ↦ lookup-IsLedger id s servers r.3 (ground arith)
]

-- A change of one server keeps the registry in order, if it keeps that server in order.
pub modify-IsRegistry :
    (id : ℕ) (f : GameServer → GameServer) (s : GameServer) (servers : Registry)
    → IsRegistry servers
    → lookup id servers ≡ some s
    → IsLedger (f s)
    → (f s).id ≡ s.id
    → IsRegistry (modify id f servers)
unfolding lookup modify
modify-IsRegistry id f s [] r h l e = tt
modify-IsRegistry id f s ((j, t) ∷ servers) r h l e = elim (Bool-cases (j == id)) [
  | inl at ↦
      let same : t ≡ s = ground arith in
      let order : IsLedger (f t) = rw same l in
      let name : (f t).id ≡ j = ground (arith, r.0) in rw at (name, r.1, order, r.3)
  | inr off ↦
      let kept = modify-IsRegistry id f s servers r.3 (ground arith) l e in
      let absent : lookup j (modify id f servers) ≡ none =
        ground (arith, lookup-modify id j f servers, ==_iff j id) in
      rw off (r.0, absent, r.2, kept)
]

-- The same where every server may stand at the identifier.
pub modify-IsRegistry_all :
    (id : ℕ) (f : GameServer → GameServer) (servers : Registry)
    → ((s : GameServer) → IsLedger s → IsLedger (f s) × ((f s).id ≡ s.id))
    → IsRegistry servers
    → IsRegistry (modify id f servers)
unfolding modify
modify-IsRegistry_all id f [] keeps r = tt
modify-IsRegistry_all id f ((j, t) ∷ servers) keeps r = elim (Bool-cases (j == id)) [
  | inl at ↦ rw at ((keeps t r.2).1 ∙ r.0, r.1, (keeps t r.2).0, r.3)
  | inr off ↦
      let absent : lookup j (modify id f servers) ≡ none =
        ground (arith, lookup-modify id j f servers, ==_iff j id) in
      rw off (r.0, absent, r.2, modify-IsRegistry_all id f servers keeps r.3)
]
