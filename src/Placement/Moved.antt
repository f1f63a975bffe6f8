-- ===== src/Placement/Moved.antt =====
-- `retry_after_failure` of core/src/placement.rs moves a match: it stands on one server at most.
use elo_ranking_pairing_syst.Base.{
  ◌≢◌, ◌∙◌, sym, none, ◌==◌, ==_iff, arith, Bool-cases, ℕ, ◌≡◌, refl, ◌⊎◌, some, inl, inr,
  Option-cases, Result-cases, ok, err,
}
use elo_ranking_pairing_syst.Base.Text.{Text}
use elo_ranking_pairing_syst.Base.Map.{Map, lookup, modify, insert, values, nat_key}
use elo_ranking_pairing_syst.Base.Map.Laws.{lookup-modify, lookup-insert, insert-IsMap}
use elo_ranking_pairing_syst.Components.{QueueMode}
use elo_ranking_pairing_syst.Server.Types.{GameServer, Registry}
use elo_ranking_pairing_syst.Server.Ledger.{IsRegistry}
use elo_ranking_pairing_syst.Placement.{
  PlacementError, best, reservation, take_on, let_go, reserve, release, retry_after_failure,
}
use elo_ranking_pairing_syst.Placement.Reservation.{
  IsNew, reserve-IsRegistry, release-IsRegistry, release-reserve,
}
use elo_ranking_pairing_syst.Placement.Retry.{
  IsOnlyOn, count_failure, count_failure-IsRegistry, released-IsNew, release_found, release_missing,
}
use elo_ranking_pairing_syst.Placement.Tracked.{
  IsTracked, AddsNothing-IsTracked, instance_at, new_at, modify-AddsNothing, let_go-AddsNothing,
}

take_on_at :
    (match_id cost server id m : ℕ) (servers : Registry)
    → (id ≢ server) ⊎ (m ≢ match_id)
    → instance_at (modify server (take_on match_id cost) servers) id m ≡ instance_at servers id m
unfolding take_on
take_on_at match_id cost server id m servers apart = elim (Option-cases (lookup id servers)) [
  | inl n ↦ ground (arith, lookup-modify server id (take_on match_id cost) servers, n)
  | inr (s, n) ↦ ground (
    arith,
    lookup-modify server id (take_on match_id cost) servers,
    n,
    apart,
    ==_iff server id,
    ==_iff match_id m,
    lookup-insert match_id m (reservation match_id cost) s.instances,
  )
]

-- The servers after one of them takes a match.
abbrev pub charged : Registry → ℕ → ℕ → ℕ → Registry
charged servers server match_id cost = modify server (take_on match_id cost) servers

module _ (servers : Registry) (match_id cost server : ℕ) (launches : Map ℕ (ℕ × ℕ))
    (t : IsTracked servers launches) (new : IsNew match_id servers)
    (order : IsRegistry (charged servers server match_id cost)) where
  -- A new match that a server takes, and that is written down for it, is tracked.
  pub take_on-IsTracked :
      (proposal_id : ℕ)
      → IsTracked
          (charged servers server match_id cost)
          (insert match_id (server, proposal_id) launches)
  take_on-IsTracked proposal_id =
      let entry : ℕ × ℕ = (server, proposal_id) in
      record {
        order = order;
        distinct = insert-IsMap match_id entry launches t.distinct;
        once = λ m at id other e off. elim (Bool-cases (match_id == m)) [
          | inl same ↦
              let here : at ≡ server =
                ground (arith, e, same, lookup-insert match_id m entry launches) in
              take_on_at match_id cost server other m servers (inl (λ p. off (p ∙ sym here)))
              ∙ ground (arith, same, ==_iff match_id m, new_at servers match_id other new)
          | inr differ ↦
              let before : lookup m launches ≡ some (at, id) =
                ground (arith, e, differ, lookup-insert match_id m entry launches) in
              take_on_at match_id cost server other m servers
                (inr (λ p. ground (arith, differ, p, ==_iff match_id m)))
              ∙ t.once m at id other before off
        ];
      }

  -- A match that nobody has written down may be anywhere.
  pub charged-IsTracked :
      lookup match_id launches ≡ none → IsTracked (charged servers server match_id cost) launches
  charged-IsTracked unknown = record {
    order = order;
    distinct = t.distinct;
    once = λ m at id other e off.
        take_on_at match_id cost server other m servers (inr (λ p. ground (arith, p, e, unknown)))
        ∙ t.once m at id other e off;
  }

reserved_at :
    (servers placed : Registry) (match_id : ℕ) (mode : QueueMode) (region : Text) (server : ℕ)
    → reserve servers match_id mode region ≡ ok (placed, server)
    → (cost : ℕ) × (charged servers server match_id cost ≡ placed)
unfolding reserve
reserved_at servers placed match_id mode region server h =
    elim (Option-cases (best mode region (values servers))) [
      | inl e ↦ absurd (ground arith)
      | inr (c, e) ↦ (c.cost, ground arith)
    ]

-- A new match that is reserved, and written down for its server, is tracked.
reserve-IsTracked :
    (servers placed : Registry) (match_id : ℕ) (mode : QueueMode) (region : Text)
    (server proposal_id : ℕ) (launches : Map ℕ (ℕ × ℕ))
    → IsTracked servers launches
    → IsNew match_id servers
    → reserve servers match_id mode region ≡ ok (placed, server)
    → IsTracked placed (insert match_id (server, proposal_id) launches)
reserve-IsTracked servers placed match_id mode region server proposal_id launches t new h =
    let (cost, same) = reserved_at servers placed match_id mode region server h in
    let order : IsRegistry (charged servers server match_id cost) =
      rw same (reserve-IsRegistry servers placed match_id mode region server t.order new h) in
    rw same at (take_on-IsTracked servers match_id cost server launches t new order proposal_id)

-- The registry in which another server is looked for.
abbrev counted : Registry → ℕ → ℕ → Registry
counted servers failed match_id =
    modify failed count_failure (modify failed (let_go match_id) servers)

counted-IsTracked :
    (servers : Registry) (failed match_id : ℕ) (s : GameServer) (launches : Map ℕ (ℕ × ℕ))
    → IsTracked servers launches
    → lookup failed servers ≡ some s
    → IsTracked (counted servers failed match_id) launches
counted-IsTracked servers failed match_id s launches t e =
    let left = modify failed (let_go match_id) servers in
    let order =
      release-IsRegistry servers left failed match_id t.order
        (release_found servers failed match_id s e) in
    let given =
      AddsNothing-IsTracked servers left launches t order
        (let_go-AddsNothing servers failed match_id t.order) in
    AddsNothing-IsTracked left (counted servers failed match_id) launches given
      (count_failure-IsRegistry left failed order)
      (modify-AddsNothing failed count_failure left (λ m g f h. h))

-- A launch that failed either is at an end, or is on another server: written down for that server it
-- is tracked, and also where that server gives it back.
pub retry_after_failure-IsTracked :
    (servers : Registry) (failed match_id : ℕ) (mode : QueueMode) (region : Text)
    (launches : Map ℕ (ℕ × ℕ))
    → IsTracked servers launches
    → IsOnlyOn failed match_id servers
    → let (after, moved) = retry_after_failure servers failed match_id mode region in
      ((e : PlacementError) × (moved ≡ err e) × IsTracked after launches)
      ⊎ ((server : ℕ) × (moved ≡ ok server)
          × ((id : ℕ) → IsTracked after (insert match_id (server, id) launches))
          × (left : Registry) × (release after server match_id ≡ ok left)
          × IsTracked left launches)
unfolding retry_after_failure
retry_after_failure-IsTracked servers failed match_id mode region launches t only =
    elim (Option-cases (lookup failed servers)) [
      | inl e ↦
          rw (release_missing servers failed match_id e, retry_after_failure) (inl (_, refl, t))
      | inr (s, e) ↦
          let between = counted servers failed match_id in
          let ready = counted-IsTracked servers failed match_id s launches t e in
          let new = released-IsNew servers failed match_id s t.order e only in
          elim (Result-cases (reserve between match_id mode region)) [
            | inl (p, f) ↦
                rw (release_found servers failed match_id s e, f, retry_after_failure)
                  (inl (p, refl, ready))
            | inr ((placed, server), f) ↦
                rw (release_found servers failed match_id s e, f, retry_after_failure)
                  (inr (
                    server,
                    refl,
                    λ id.
                        reserve-IsTracked between placed match_id mode region server id launches
                          ready new f,
                    between,
                    release-reserve between placed match_id mode region server ready.order new f,
                    ready,
                  ))
          ]
    ]
