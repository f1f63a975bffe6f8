-- ===== src/Server/Ledger/Registered.antt =====
-- Registration of a server that the registry knows (core/src/server.rs, `register`).
use mathlib.Core.Option
use elo_ranking_pairing_syst.Base.{
  ℕ, ◌+◌, ◌≤◌, ◌<◌, ◌≡◌, refl, inl, inr, some, List, [], ◌∷◌, arith, ◌==◌, ltb, sum, ok,
  Option-cases, Result-cases, Bool-cases, ◌∙◌, sym,
}
use elo_ranking_pairing_syst.Base.Word.{u32_max}
use elo_ranking_pairing_syst.Base.Map.{Map, lookup, insert, modify, keys, nat_key, IsMap}
use elo_ranking_pairing_syst.Base.Map.Laws.{lookup-modify, lookup-insert, modify-IsMap, keys-modify}
use elo_ranking_pairing_syst.Server.Types.{
  healthy, Instance, GameServer, ServerLimits, Registry, live_costs, checked_sum, adopt,
}
use elo_ranking_pairing_syst.Server.Registration.{merge, reconnect, replace, register}
use elo_ranking_pairing_syst.Server.Ledger.{
  IsRegistry, sum-live_costs, lookup-IsLedger, modify-IsRegistry,
}

checked_sum-eq :
    (used u : ℕ) (costs : List ℕ) → checked_sum used costs ≡ some u → u ≡ used + sum costs
unfolding checked_sum
checked_sum-eq used u [] h = ground arith
checked_sum-eq used u (c ∷ costs) h = ground (arith, checked_sum-eq (used + c) u costs)

-- The matches and their costs are those of the ledger, whatever is reported.
pub record SameMatches (before after : Map ℕ Instance) : Type 0 where
  pub matches : keys after ≡ keys before
  pub distinct : IsMap after
  pub costs :
      (k : ℕ)
      → Option.map (λ (i : Instance). i.cost) (lookup k after)
        ≡ Option.map (λ (i : Instance). i.cost) (lookup k before)

adopt_cost :
    (k j : ℕ) (r : Instance) (m : Map ℕ Instance)
    → Option.map (λ (i : Instance). i.cost) (lookup j (modify k (adopt r) m))
      ≡ Option.map (λ (i : Instance). i.cost) (lookup j m)
adopt_cost k j r m = elim (Option-cases (lookup j m)) [
  | inl e ↦ ground (arith, lookup-modify k j (adopt r) m)
  | inr (i, e) ↦ unfold adopt in ground (arith, lookup-modify k j (adopt r) m)
]

merge-SameMatches :
    (known reports merged : Map ℕ Instance)
    → IsMap known
    → merge known reports ≡ ok merged
    → SameMatches known merged
unfolding merge
merge-SameMatches known [] merged w h =
    let same : known ≡ merged = ground arith in
    let kept : SameMatches known known = record {
      matches = refl;
      distinct = w;
      costs = λ k. refl;
    } in
    rw (← same) kept
merge-SameMatches known ((k, r) ∷ rest) merged w h = elim (Option-cases (lookup k known)) [
  | inl e ↦ absurd (ground arith)
  | inr (i, e) ↦
      let ih =
        merge-SameMatches (modify k (adopt r) known) rest merged (modify-IsMap k (adopt r) known w)
          (ground arith) in
      record {
        matches = ih.matches ∙ keys-modify k (adopt r) known;
        distinct = ih.distinct;
        costs = λ j. ih.costs j ∙ adopt_cost k j r known;
      }
]

-- What a registration keeps of a known server: its matches and their costs, its failures, and its
-- generation or an earlier one.
pub record Continues (old t : GameServer) : Type 0 where
  pub same : SameMatches old.instances t.instances
  pub failures : t.failures ≡ old.failures
  pub newer : old.generation ≤ t.generation

reconnect-Continued :
    (servers after : Registry) (old s : GameServer)
    → IsRegistry servers
    → lookup s.id servers ≡ some old
    → old.generation ≡ s.generation
    → reconnect servers old s ≡ ok after
    → IsRegistry after × ((t : GameServer) × (lookup s.id after ≡ some t) × Continues old t)
unfolding reconnect
reconnect-Continued servers after old s r e g h =
    let refresh = λ (o : GameServer). record o {
      endpoint = s.endpoint;
      last_heartbeat = s.last_heartbeat;
      health = healthy;
    } in
    let l = (lookup-IsLedger s.id old servers r e).0 in
    let same : modify s.id refresh servers ≡ after = ground arith in
    let order : IsRegistry (modify s.id refresh servers) =
      modify-IsRegistry s.id refresh old servers r e
        (record {
          distinct = l.distinct;
          balanced = l.balanced;
          fits = l.fits;
          bounded = l.bounded;
        })
        refl in
    (
      rw same at order,
      (
        refresh old,
        ground (arith, lookup-modify s.id s.id refresh servers),
        record {
          same = record { matches = refl; distinct = l.distinct; costs = λ k. refl };
          failures = refl;
          newer = omega arith;
        },
      ),
    )

insert_known :
    (k : ℕ) (v w : GameServer) (m : Registry)
    → lookup k m ≡ some w
    → insert k v m ≡ modify k (λ _. v) m
unfolding insert
insert_known k v w m e = rw (e, insert)

replace-Continued :
    (servers after : Registry) (old s : GameServer)
    → IsRegistry servers
    → lookup s.id servers ≡ some old
    → s.capacity_total < u32_max
    → old.generation ≤ s.generation
    → replace servers old s ≡ ok after
    → IsRegistry after × ((t : GameServer) × (lookup s.id after ≡ some t) × Continues old t)
unfolding replace
replace-Continued servers after old s r e bound newer h =
    elim (Result-cases (merge old.instances s.instances)) [
      | inl (x, m) ↦ absurd (ground arith)
      | inr (merged, m) ↦ elim (Option-cases (checked_sum 0 (live_costs merged))) [
        | inl n ↦ absurd (ground arith)
        | inr (used, n) ↦
            let l = (lookup-IsLedger s.id old servers r e).0 in
            let kept = merge-SameMatches old.instances s.instances merged l.distinct m in
            let t : GameServer = record s {
              instances = merged;
              capacity_used = used;
              failures = old.failures;
            } in
            let put : insert s.id t servers ≡ after = ground arith in
            let at = insert_known s.id t old servers e in
            let order : IsRegistry (modify s.id (λ _. t) servers) =
              modify-IsRegistry s.id (λ _. t) old servers r e
                (record {
                  distinct = kept.distinct;
                  balanced =
                      omega
                        (arith, checked_sum-eq 0 used (live_costs merged) n, sum-live_costs merged);
                  fits = ground arith;
                  bounded = bound;
                })
                (ground (arith, (lookup-IsLedger s.id old servers r e).1)) in
            (
              rw (sym at ∙ put) at order,
              (
                t,
                ground (arith, lookup-insert s.id s.id t servers),
                record { same = kept; failures = refl; newer = newer },
              ),
            )
      ]
    ]

-- Whatever a known server reports when it registers again, under the same generation or a newer
-- one, with a capacity below the greatest 32-bit number: if it is let in, the registry stays in order,
-- and the server keeps its matches with their costs, and its count of failures; no match is discarded
-- or made up.
pub register_known :
    (servers after : Registry) (s old : GameServer) (limits : ServerLimits)
    → IsRegistry servers
    → lookup s.id servers ≡ some old
    → s.capacity_total < u32_max
    → register servers s limits ≡ ok after
    → IsRegistry after × ((t : GameServer) × (lookup s.id after ≡ some t) × Continues old t)
unfolding register
register_known servers after s old limits r e bound h =
    elim (Bool-cases (ltb s.generation old.generation)) [
      | inl older ↦ absurd (ground arith)
      | inr newer ↦ elim (Bool-cases (old.generation == s.generation)) [
        | inl same ↦ reconnect-Continued servers after old s r e (ground arith) (ground arith)
        | inr other ↦ replace-Continued servers after old s r e bound (ground arith) (ground arith)
      ]
    ]
