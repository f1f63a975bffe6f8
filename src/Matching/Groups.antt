-- ===== src/Matching/Groups.antt =====
-- The search for groups of tickets of a given number of players: the function `go` of
-- core/src/matching/five_v_five.rs and of core/src/matching/free_for_all.rs, which differ in what a
-- group is made into and in the sizes that fit.
pub mod Laws
pub mod Range
use elo_ranking_pairing_syst.Base.{
  ℕ, suc, ◌+◌, ◌-◌, Bool, List, [], ◌∷◌, ◌++◌, map, length, leb, ◌==◌, if◌then◌else◌,
}
use elo_ranking_pairing_syst.Base.Int.{ℤ, pos, ◌*ℤ◌, sum_ℤ}
use elo_ranking_pairing_syst.Matching.{PartyTicket, least, greatest}

-- Tickets with their index in the snapshot, `(i, t[i])`.
abbrev pub Group : Type 0
Group = List (ℕ × PartyTicket)

abbrev pub size : PartyTicket → ℕ
size t = length t.members

-- The sum of `f` over the tickets of a group.
unfoldable pub total : (PartyTicket → ℤ) → Group → ℤ
total f g = sum_ℤ (map (λ (p : ℕ × PartyTicket). f p.1) g)

unfoldable pub weighted_rating : Group → ℤ
weighted_rating g = total (λ t. t.effective_rating *ℤ pos (size t)) g

-- `flat_map` of the members.
unfoldable pub players : Group → List ℕ
players [] = []
players ((i, t) ∷ g) = t.members ++ players g

-- `min().unwrap_or_default()` and `max().unwrap_or_default()`
unfoldable pub least_of : (PartyTicket → ℤ) → Group → ℤ
least_of f [] = pos 0
least_of f ((i, t) ∷ g) = least (f t) (map (λ (p : ℕ × PartyTicket). f p.1) g)

unfoldable pub greatest_of : (PartyTicket → ℤ) → Group → ℤ
greatest_of f [] = pos 0
greatest_of f ((i, t) ∷ g) = greatest (f t) (map (λ (p : ℕ × PartyTicket). f p.1) g)

-- `min().unwrap_or(0)` of the times.
unfoldable pub earliest : Group → ℕ
earliest [] = 0
earliest ((i, t) ∷ []) = t.enqueued_at
earliest ((i, t) ∷ p ∷ g) =
    let rest = earliest (p ∷ g) in if leb t.enqueued_at rest then t.enqueued_at else rest

module _ {A : Type 0} (fits : ℕ → ℕ → Bool) (finish : Group → List A → List A) (budget : ℕ) where
  -- The returns at the head of `go`; `search` is the result of its loop.
  unfoldable pub go : ℕ → Group → List A → List A → List A
  go left c out search =
      if leb budget (length out) then out else if left == 0 then finish c out else search

  -- `for i in at..t.len()`, over the tickets from `at` on; the body calls `go`.
  unfoldable pub search : ℕ → List PartyTicket → ℕ → Group → List A → List A
  unfolding go
  search at [] left c out = out
  search at (t ∷ ts) left c out =
      let c' = c ++ (at, t) ∷ [] in
      let left' = left - size t in
      let deeper = search (suc at) ts left' c' out in
      let out' = if fits (size t) left then go left' c' out deeper else out in
      search (suc at) ts left c out'

  -- `go(t, 0, target, [], [], budget)`
  unfoldable pub groups : List PartyTicket → ℕ → List A
  unfolding go search
  groups ts target = go target [] [] (search 0 ts target [] [])
