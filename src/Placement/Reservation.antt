-- ===== src/Placement/Reservation.antt =====
-- Reservations keep every server's ledger, and a release takes a reservation back.
use elo_ranking_pairing_syst.Base.{
  ℕ, ◌+◌, ◌≤◌, ◌≡◌, refl, inl, inr, none, some, arith, ok, Option-cases, ap, ◌∙◌,
}
use elo_ranking_pairing_syst.Base.Text.{Text}
use elo_ranking_pairing_syst.Base.Map.{lookup, modify, values, nat_key}
use elo_ranking_pairing_syst.Base.Map.Laws.{
  insert-IsMap, remove-IsMap, total-insert_new, total-remove, remove-insert_new, lookup-insert,
  lookup-modify, modify-modify, modify_id,
}
use elo_ranking_pairing_syst.Components.{QueueMode}
use elo_ranking_pairing_syst.Server.Types.{GameServer, Registry}
use elo_ranking_pairing_syst.Server.Ledger.{
  live_cost, IsLedger, IsRegistry, lookup-IsLedger, modify-IsRegistry,
}
use elo_ranking_pairing_syst.Placement.BestFit.{best-offer}
use elo_ranking_pairing_syst.Placement.{
  Choice, offer, best, reservation, take_on, reserve, let_go, release,
}

-- What an offer promises of a server in order: the cost fits, without a wrap.
pub offer_fits :
    (mode : QueueMode) (region : Text) (c : Choice) (s : GameServer)
    → IsLedger s
    → offer mode region s ≡ some c
    → s.capacity_used + c.cost ≤ s.capacity_total
unfolding offer
offer_fits mode region c s l h = ground arith

pub take_on-IsLedger :
    (match_id cost : ℕ) (s : GameServer)
    → IsLedger s
    → lookup match_id s.instances ≡ none
    → s.capacity_used + cost ≤ s.capacity_total
    → IsLedger (take_on match_id cost s)
unfolding take_on
take_on-IsLedger match_id cost s l fresh fits =
    let r = reservation match_id cost in
    record {
      distinct = insert-IsMap match_id r s.instances l.distinct;
      balanced = omega (
        arith,
        l.balanced,
        l.fits,
        l.bounded,
        total-insert_new live_cost match_id r s.instances fresh,
      );
      fits = omega (arith, l.bounded);
      bounded = l.bounded;
    }

pub let_go-IsLedger : (match_id : ℕ) (s : GameServer) → IsLedger s → IsLedger (let_go match_id s)
unfolding let_go
let_go-IsLedger match_id s l = elim (Option-cases (lookup match_id s.instances)) [
  | inl e ↦ rw (e, let_go) l
  | inr (i, e) ↦
      rw (e, let_go)
        (record {
          distinct = remove-IsMap match_id s.instances l.distinct;
          balanced = ground (arith, l.balanced, total-remove live_cost match_id i s.instances e);
          fits = ground (arith, l.fits);
          bounded = l.bounded;
        })
]

let_go-take_on :
    (match_id cost : ℕ) (s : GameServer)
    → IsLedger s
    → lookup match_id s.instances ≡ none
    → s.capacity_used + cost ≤ s.capacity_total
    → let_go match_id (take_on match_id cost s) ≡ s
unfolding let_go take_on
let_go-take_on match_id cost s l fresh fits =
    let r = reservation match_id cost in
    ground (
      arith,
      lookup-insert match_id match_id r s.instances,
      remove-insert_new match_id r s.instances fresh,
      l.bounded,
    )

-- The match is on no server.
abbrev pub IsNew : ℕ → Registry → Type 0
IsNew match_id servers =
    (id : ℕ) (s : GameServer) → lookup id servers ≡ some s → lookup match_id s.instances ≡ none

-- A reservation of a new match keeps the registry in order: no server's capacity is exceeded, and
-- what each has in use is what its live matches cost.
pub reserve-IsRegistry :
    (servers placed : Registry) (match_id : ℕ) (mode : QueueMode) (region : Text) (server : ℕ)
    → IsRegistry servers
    → IsNew match_id servers
    → reserve servers match_id mode region ≡ ok (placed, server)
    → IsRegistry placed
unfolding reserve
reserve-IsRegistry servers placed match_id mode region server r new h =
    elim (Option-cases (best mode region (values servers))) [
      | inl e ↦ absurd (ground arith)
      | inr (c, e) ↦
          let (s, found, offered) = best-offer mode region c servers r e in
          let l = (lookup-IsLedger c.server s servers r found).0 in
          let fits = offer_fits mode region c s l offered in
          let same : modify c.server (take_on match_id c.cost) servers ≡ placed = ground arith in
          rw same at (
            modify-IsRegistry c.server (take_on match_id c.cost) s servers r found
              (take_on-IsLedger match_id c.cost s l (new c.server s found) fits)
              (unfold take_on in refl))
    ]

release_modified :
    (id match_id : ℕ) (f : GameServer → GameServer) (s : GameServer) (servers : Registry)
    → lookup id servers ≡ some s
    → let_go match_id (f s) ≡ s
    → release (modify id f servers) id match_id ≡ ok servers
unfolding release
release_modified id match_id f s servers found undone =
    let e : lookup id (modify id f servers) ≡ some (f s) =
      ground (arith, lookup-modify id id f servers) in
    rw (e, release)
      (ap ok (
        modify-modify id f (let_go match_id) servers
        ∙ modify_id id (λ v. let_go match_id (f v)) s servers found undone))

-- To release a reservation of a new match is to undo it: the registry is as it was.
pub release-reserve :
    (servers placed : Registry) (match_id : ℕ) (mode : QueueMode) (region : Text) (server : ℕ)
    → IsRegistry servers
    → IsNew match_id servers
    → reserve servers match_id mode region ≡ ok (placed, server)
    → release placed server match_id ≡ ok servers
unfolding reserve
release-reserve servers placed match_id mode region server r new h =
    elim (Option-cases (best mode region (values servers))) [
      | inl e ↦ absurd (ground arith)
      | inr (c, e) ↦
          let (s, found, offered) = best-offer mode region c servers r e in
          let l = (lookup-IsLedger c.server s servers r found).0 in
          let after : modify c.server (take_on match_id c.cost) servers ≡ placed = ground arith in
          let at : c.server ≡ server = ground arith in
          rw (← after, ← at)
            (release_modified c.server match_id (take_on match_id c.cost) s servers found (
              let_go-take_on match_id c.cost s l (new c.server s found)
                (offer_fits mode region c s l offered)))
    ]

-- A release keeps the registry in order, whatever the match and the server are.
pub release-IsRegistry :
    (servers left : Registry) (server match_id : ℕ)
    → IsRegistry servers
    → release servers server match_id ≡ ok left
    → IsRegistry left
unfolding release
release-IsRegistry servers left server match_id r h = elim (Option-cases (lookup server servers)) [
  | inl e ↦ absurd (ground arith)
  | inr (s, e) ↦
      let l = (lookup-IsLedger server s servers r e).0 in
      let same : modify server (let_go match_id) servers ≡ left = ground arith in
      rw same at (
        modify-IsRegistry server (let_go match_id) s servers r e (let_go-IsLedger match_id s l)
          (unfold let_go in ground arith))
]
