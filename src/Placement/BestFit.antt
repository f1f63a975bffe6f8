-- ===== src/Placement/BestFit.antt =====
-- `reserve` finds a server exactly if `feasible` says so, and takes the one with the best fit.
use elo_ranking_pairing_syst.Base.{
  ℕ, ◌≡◌, refl, ◌⊎◌, ◌↔◌, inl, inr, true, false, Option, none, some, List, [], ◌∷◌, arith, any,
  is_some, ok, err, Option-cases, ==_iff,
}
use elo_ranking_pairing_syst.Base.Text.{Text}
use elo_ranking_pairing_syst.Base.Map.{lookup, modify, values, nat_key}
use elo_ranking_pairing_syst.Components.{QueueMode, mode_key}
use elo_ranking_pairing_syst.Server.Types.{GameServer, Registry}
use elo_ranking_pairing_syst.Server.Ledger.{IsRegistry}
use elo_ranking_pairing_syst.Placement.{
  no_capacity, Choice, is_feasible, feasible, choice_le, offer, best, reserve, take_on,
}

offer-feasible :
    (mode : QueueMode) (region : Text) (s : GameServer)
    → is_some (offer mode region s) ≡ is_feasible mode region s
unfolding offer is_feasible
offer-feasible mode region s = ground arith

best-any :
    (mode : QueueMode) (region : Text) (servers : List GameServer)
    → is_some (best mode region servers) ≡ any (is_feasible mode region) servers
unfolding best
best-any mode region [] = refl
best-any mode region (s ∷ servers) =
    ground (arith, offer-feasible mode region s, best-any mode region servers)

-- The test before matching and the reservation after it agree: while the registry does not change,
-- a mode and a region are feasible exactly if a reservation succeeds, and a refused one says that
-- there is no capacity.
pub reserve-feasible :
    (servers : Registry) (match_id : ℕ) (mode : QueueMode) (region : Text)
    → ((feasible servers mode region ≡ true)
        ↔ ((placed : Registry × ℕ) × (reserve servers match_id mode region ≡ ok placed)))
      × ((feasible servers mode region ≡ false)
          ↔ (reserve servers match_id mode region ≡ err no_capacity))
unfolding feasible reserve
reserve-feasible servers match_id mode region =
    let agree = best-any mode region (values servers) in
    (
      (λ h. found (best mode region (values servers)) refl h, λ p. ground (arith, p.1)),
      (λ h. ground arith, λ h. ground arith),
    )
  where
    found :
        (o : Option Choice)
        → best mode region (values servers) ≡ o
        → feasible servers mode region ≡ true
        → (placed : Registry × ℕ) × (reserve servers match_id mode region ≡ ok placed)
    found none e h = absurd (ground (arith, best-any mode region (values servers)))
    found (some c) e h =
        ((modify c.server (take_on match_id c.cost) servers, c.server), ground arith)

choice_le_total : (a b : Choice) → (choice_le a b ≡ true) ⊎ (choice_le b a ≡ true)
unfolding choice_le
choice_le_total a b = ground arith

choice_le_trans :
    (a b c : Choice) → choice_le a b ≡ true → choice_le b c ≡ true → choice_le a c ≡ true
unfolding choice_le
choice_le_trans a b c h k = ground arith

-- At most every offer in the list.
abbrev pub Least : QueueMode → Text → Choice → List GameServer → Type 0
Least mode region c [] = Unit
Least mode region c (s ∷ servers) =
    ((a : Choice) → offer mode region s ≡ some a → choice_le c a ≡ true)
    × Least mode region c servers

Least-mono :
    (mode : QueueMode) (region : Text) (c d : Choice) (servers : List GameServer)
    → choice_le c d ≡ true
    → Least mode region d servers
    → Least mode region c servers
Least-mono mode region c d [] h l = tt
Least-mono mode region c d (s ∷ servers) h l =
    (λ a e. choice_le_trans c d a h (l.0 a e), Least-mono mode region c d servers h l.1)

None-Least :
    (mode : QueueMode) (region : Text) (c : Choice) (servers : List GameServer)
    → best mode region servers ≡ none
    → Least mode region c servers
unfolding best
None-Least mode region c [] h = tt
None-Least mode region c (s ∷ servers) h =
    (λ a e. ground arith, None-Least mode region c servers (ground arith))

best-Least :
    (mode : QueueMode) (region : Text) (c : Choice) (servers : List GameServer)
    → best mode region servers ≡ some c
    → Least mode region c servers
unfolding best
best-Least mode region c [] h = tt
best-Least mode region c (s ∷ servers) h = elim (Option-cases (offer mode region s)) [
  | inl e ↦ (λ a f. ground arith, best-Least mode region c servers (ground arith))
  | inr (a, e) ↦ elim (Option-cases (best mode region servers)) [
    | inl n ↦ (λ b f. ground (arith, choice_le_total c c), None-Least mode region c servers n)
    | inr (b, n) ↦
        let below : choice_le c b ≡ true =
          ground (arith, choice_le_total a b, choice_le_total b b) in
        (
          λ d f. ground (arith, choice_le_total a b, choice_le_total a a),
          Least-mono mode region c b servers below (best-Least mode region b servers n),
        )
  ]
]

best_cases :
    (mode : QueueMode) (region : Text) (c : Choice) (s : GameServer) (servers : List GameServer)
    → best mode region (s ∷ servers) ≡ some c
    → (offer mode region s ≡ some c) ⊎ (best mode region servers ≡ some c)
unfolding best
best_cases mode region c s servers h = ground arith

offer-server :
    (mode : QueueMode) (region : Text) (c : Choice) (s : GameServer)
    → offer mode region s ≡ some c
    → c.server ≡ s.id
unfolding offer
offer-server mode region c s h = ground arith

-- The best offer is made by a server of the registry that stands under its own identifier.
pub best-offer :
    (mode : QueueMode) (region : Text) (c : Choice) (servers : Registry)
    → IsRegistry servers
    → best mode region (values servers) ≡ some c
    → (s : GameServer) × (lookup c.server servers ≡ some s) × (offer mode region s ≡ some c)
unfolding lookup
best-offer mode region c [] r h = absurd (unfold best in ground arith)
best-offer mode region c ((id, s) ∷ servers) r h =
    elim (best_cases mode region c s (values servers) h) [
      | inl e ↦ (s, ground (arith, offer-server mode region c s e, r.0), e)
      | inr e ↦
          let (t, found, offered) = best-offer mode region c servers r.3 e in
          (t, ground (arith, r.1, ==_iff id c.server), offered)
    ]

-- A reservation takes the server that is left with the least capacity, then with the fewest
-- failures, then with the least identifier, among all that could take the match; and nothing but
-- that server changes.
pub reserve_best :
    (servers placed : Registry) (match_id : ℕ) (mode : QueueMode) (region : Text) (server : ℕ)
    → IsRegistry servers
    → reserve servers match_id mode region ≡ ok (placed, server)
    → (s : GameServer) × (c : Choice) × (lookup server servers ≡ some s)
      × (offer mode region s ≡ some c)
      × (is_feasible mode region s ≡ true)
      × Least mode region c (values servers)
      × (placed ≡ modify server (take_on match_id c.cost) servers)
unfolding reserve
reserve_best servers placed match_id mode region server r h =
    elim (Option-cases (best mode region (values servers))) [
      | inl e ↦ absurd (ground arith)
      | inr (c, e) ↦
          let (s, found, offered) = best-offer mode region c servers r e in
          let same : c.server ≡ server = ground arith in
          (
            s,
            c,
            rw same at found,
            offered,
            ground (arith, offer-feasible mode region s),
            best-Least mode region c (values servers) e,
            ground arith,
          )
    ]
