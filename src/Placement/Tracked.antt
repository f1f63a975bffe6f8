-- ===== src/Placement/Tracked.antt =====
-- Which match stands on which server, and which server each launched match belongs to.
use elo_ranking_pairing_syst.Base.{
  ℕ, ◌≡◌, ◌≢◌, inl, inr, Option, none, some, ==_iff, if_some, arith, ok, Option-cases,
}
use elo_ranking_pairing_syst.Base.Map.{Map, lookup, modify, remove, nat_key, IsMap}
use elo_ranking_pairing_syst.Base.Map.Laws.{
  lookup-modify, lookup-remove_self, lookup-remove_ne, remove-IsMap,
}
use elo_ranking_pairing_syst.Server.Types.{Instance, GameServer, Registry}
use elo_ranking_pairing_syst.Server.Ledger.{live_cost, IsRegistry, lookup-IsLedger}
use elo_ranking_pairing_syst.Placement.{let_go, release}
use elo_ranking_pairing_syst.Placement.Reservation.{IsNew}
use elo_ranking_pairing_syst.Placement.Retry.{IsOnlyOn, change-IsRegistry}

abbrev pub instance_at : Registry → ℕ → ℕ → Option Instance
instance_at servers id match_id =
    if_some (lookup id servers) (λ s. lookup match_id s.instances) none

-- No match is on a server where it was not before.
pub record AddsNothing (before after : Registry) : Type 0 where
  pub absent :
      (id match_id : ℕ)
      → instance_at before id match_id ≡ none
      → instance_at after id match_id ≡ none

-- Servers in order and the matches that were launched on them, each once, with its server, on which
-- alone it may stand.
pub record IsTracked (servers : Registry) (launches : Map ℕ (ℕ × ℕ)) : Type 0 where
  pub order : IsRegistry servers
  pub distinct : IsMap launches
  pub once :
      (match_id server id other : ℕ)
      → lookup match_id launches ≡ some (server, id)
      → other ≢ server
      → instance_at servers other match_id ≡ none

-- A change of one server that adds no match to it.
pub modify-AddsNothing :
    (id : ℕ) (f : GameServer → GameServer) (servers : Registry)
    → ((m : ℕ) (s : GameServer)
        → lookup id servers ≡ some s
        → lookup m s.instances ≡ none
        → lookup m (f s).instances ≡ none)
    → AddsNothing servers (modify id f servers)
modify-AddsNothing id f servers keeps = record {
  absent = λ j m e. elim (Option-cases (lookup j servers)) [
    | inl n ↦ ground (arith, lookup-modify id j f servers, n)
    | inr (s, n) ↦ ground (arith, lookup-modify id j f servers, n, e, keeps m s, ==_iff id j)
  ];
}

let_go_absent :
    (match_id m : ℕ) (s : GameServer)
    → IsMap s.instances
    → lookup m s.instances ≡ none
    → lookup m (let_go match_id s).instances ≡ none
unfolding let_go
let_go_absent match_id m s w h = ground (
  arith,
  h,
  lookup-remove_self match_id s.instances w,
  lookup-remove_ne match_id m s.instances,
  ==_iff match_id m,
)

pub new_at :
    (servers : Registry) (match_id id : ℕ)
    → IsNew match_id servers
    → instance_at servers id match_id ≡ none
new_at servers match_id id new = elim (Option-cases (lookup id servers)) [
  | inl n ↦ ground (arith, n)
  | inr (s, n) ↦ ground (arith, n, new id s n)
]

-- To give a match back adds none.
pub let_go-AddsNothing :
    (servers : Registry) (server match_id : ℕ)
    → IsRegistry servers
    → AddsNothing servers (modify server (let_go match_id) servers)
let_go-AddsNothing servers server match_id r =
    modify-AddsNothing server (let_go match_id) servers
      (λ m s e h. let_go_absent match_id m s (lookup-IsLedger server s servers r e).0.distinct h)

pub release-AddsNothing :
    (servers left : Registry) (server match_id : ℕ)
    → IsRegistry servers
    → release servers server match_id ≡ ok left
    → AddsNothing servers left
unfolding release
release-AddsNothing servers left server match_id r h = elim (Option-cases (lookup server servers)) [
  | inl e ↦ absurd (ground arith)
  | inr (s, e) ↦
      let same : modify server (let_go match_id) servers ≡ left = ground arith in
      rw same at (let_go-AddsNothing servers server match_id r)
]

-- A match that was launched is on no server but its own.
pub tracked-IsOnlyOn :
    (servers : Registry) (launches : Map ℕ (ℕ × ℕ)) (match_id server id : ℕ)
    → IsTracked servers launches
    → lookup match_id launches ≡ some (server, id)
    → IsOnlyOn server match_id servers
tracked-IsOnlyOn servers launches match_id server id t e other s off n =
    ground (arith, n, t.once match_id server id other e off)

-- What neither moves nor adds a match leaves the matches tracked.
pub AddsNothing-IsTracked :
    (servers after : Registry) (launches : Map ℕ (ℕ × ℕ))
    → IsTracked servers launches
    → IsRegistry after
    → AddsNothing servers after
    → IsTracked after launches
AddsNothing-IsTracked servers after launches t order adds = record {
  order = order;
  distinct = t.distinct;
  once = λ m server id other e off. adds.absent other m (t.once m server id other e off);
}

-- A change of one instance that neither ends it nor revives it leaves the matches tracked.
pub change-IsTracked :
    (servers : Registry) (launches : Map ℕ (ℕ × ℕ)) (server match_id : ℕ)
    (change : Instance → Instance) (s : GameServer) (i : Instance)
    → IsTracked servers launches
    → lookup server servers ≡ some s
    → lookup match_id s.instances ≡ some i
    → live_cost (change i) ≡ live_cost i
    → IsTracked
        (modify server (λ t. record t { instances = modify match_id change t.instances }) servers)
        launches
change-IsTracked servers launches server match_id change s i t e f same =
    AddsNothing-IsTracked servers _ launches t
      (change-IsRegistry servers server match_id change s i t.order e f same)
      (modify-AddsNothing server _ servers
        (λ m g _ h. ground (arith, h, lookup-modify match_id m change g.instances)))

-- A match may be forgotten.
pub remove-IsTracked :
    (servers : Registry) (launches : Map ℕ (ℕ × ℕ)) (match_id : ℕ)
    → IsTracked servers launches
    → IsTracked servers (remove match_id launches)
remove-IsTracked servers launches match_id t = record {
  order = t.order;
  distinct = remove-IsMap match_id launches t.distinct;
  once = λ m server id other e off.
      t.once m server id other
        (ground (
          arith,
          e,
          lookup-remove_self match_id launches t.distinct,
          lookup-remove_ne match_id m launches,
          ==_iff match_id m,
        ))
        off;
}
