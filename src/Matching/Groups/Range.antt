-- ===== src/Matching/Groups/Range.antt =====
-- Least and greatest values of a group, and groups within the range of each ticket's search.
use elo_ranking_pairing_syst.Base.{ℕ, List, [], ◌∷◌, map, All, arith, Bool-cases, inl, inr}
use elo_ranking_pairing_syst.Base.Every.{every_mono}
use elo_ranking_pairing_syst.Base.Int.{
  ℤ, pos, ◌-ℤ◌, ◌≤ℤ◌, leb_ℤ, min_ℤ, max_ℤ, min_ℤ-le, max_ℤ-ge, -ℤ_parts,
}
use elo_ranking_pairing_syst.Matching.{PartyTicket, least, greatest}
use elo_ranking_pairing_syst.Matching.Groups.{Group, least_of, greatest_of}

least-le : (a : ℤ) (xs : List ℤ) → (least a xs ≤ℤ a) × All (λ x. least a xs ≤ℤ x) xs
unfolding least
least-le a [] = (omega arith, tt)
least-le a (x ∷ xs) =
    let (h, hs) = least-le (min_ℤ a x) xs in
    let near = min_ℤ-le a x in (omega (arith, h, near.0), (omega (arith, h, near.1), hs))

greatest-ge : (a : ℤ) (xs : List ℤ) → (a ≤ℤ greatest a xs) × All (λ x. x ≤ℤ greatest a xs) xs
unfolding greatest
greatest-ge a [] = (omega arith, tt)
greatest-ge a (x ∷ xs) =
    let (h, hs) = greatest-ge (max_ℤ a x) xs in
    let near = max_ℤ-ge a x in (omega (arith, h, near.0), (omega (arith, h, near.1), hs))

module _ (P : ℤ → Type 0) where
  least_keeps : (a : ℤ) (xs : List ℤ) → P a → All P xs → P (least a xs)
  unfolding least min_ℤ
  least_keeps a [] p h = p
  least_keeps a (x ∷ xs) p (q, h) = elim (Bool-cases (leb_ℤ a x)) [
    | inl e ↦ rw e (least_keeps a xs p h)
    | inr e ↦ rw e (least_keeps x xs q h)
  ]

  greatest_keeps : (a : ℤ) (xs : List ℤ) → P a → All P xs → P (greatest a xs)
  unfolding greatest max_ℤ
  greatest_keeps a [] p h = p
  greatest_keeps a (x ∷ xs) p (q, h) = elim (Bool-cases (leb_ℤ a x)) [
    | inl e ↦ rw e (greatest_keeps x xs q h)
    | inr e ↦ rw e (greatest_keeps a xs p h)
  ]

module _ (f : PartyTicket → ℤ) where
  each_value :
      (P : ℤ → Type 0) (g : Group)
      → All P (map (λ (p : ℕ × PartyTicket). f p.1) g)
      → All (λ (p : ℕ × PartyTicket). P (f p.1)) g
  each_value P [] h = tt
  each_value P (p ∷ g) (x, h) = (x, each_value P g h)

  each_of_values :
      (P : ℤ → Type 0) (g : Group)
      → All (λ (p : ℕ × PartyTicket). P (f p.1)) g
      → All P (map (λ (p : ℕ × PartyTicket). f p.1) g)
  each_of_values P [] h = tt
  each_of_values P (p ∷ g) (x, h) = (x, each_of_values P g h)

  pub least_of-le : (g : Group) → All (λ (p : ℕ × PartyTicket). least_of f g ≤ℤ f p.1) g
  unfolding least_of
  least_of-le [] = tt
  least_of-le ((i, t) ∷ g) =
      let (h, hs) = least-le (f t) (map (λ (p : ℕ × PartyTicket). f p.1) g) in
      (h, each_value (λ x. least_of f ((i, t) ∷ g) ≤ℤ x) g hs)

  pub greatest_of-ge : (g : Group) → All (λ (p : ℕ × PartyTicket). f p.1 ≤ℤ greatest_of f g) g
  unfolding greatest_of
  greatest_of-ge [] = tt
  greatest_of-ge ((i, t) ∷ g) =
      let (h, hs) = greatest-ge (f t) (map (λ (p : ℕ × PartyTicket). f p.1) g) in
      (h, each_value (λ x. x ≤ℤ greatest_of f ((i, t) ∷ g)) g hs)

  pub least_of_keeps :
      (P : ℤ → Type 0) (g : Group)
      → P (pos 0)
      → All (λ (p : ℕ × PartyTicket). P (f p.1)) g
      → P (least_of f g)
  unfolding least_of
  least_of_keeps P [] z h = z
  least_of_keeps P ((i, t) ∷ g) z (p, h) =
      least_keeps P (f t) (map (λ (p : ℕ × PartyTicket). f p.1) g) p (each_of_values P g h)

  pub greatest_of_keeps :
      (P : ℤ → Type 0) (g : Group)
      → P (pos 0)
      → All (λ (p : ℕ × PartyTicket). P (f p.1)) g
      → P (greatest_of f g)
  unfolding greatest_of
  greatest_of_keeps P [] z h = z
  greatest_of_keeps P ((i, t) ∷ g) z (p, h) =
      greatest_keeps P (f t) (map (λ (p : ℕ × PartyTicket). f p.1) g) p (each_of_values P g h)

-- Any two of the group differ by no more than any of its tickets accepts.
abbrev pub IsWithinRange : Group → Type 0
IsWithinRange g =
    All
      (λ (p : ℕ × PartyTicket).
        All
          (λ (q : ℕ × PartyTicket).
            All
              (λ (r : ℕ × PartyTicket).
                (p.1.effective_rating -ℤ q.1.effective_rating) ≤ℤ r.1.search_delta)
              g)
          g)
      g

-- The extremes decide it.
pub in_range_of_extremes :
    (g : Group)
    → ((greatest_of (λ t. t.effective_rating) g -ℤ least_of (λ t. t.effective_rating) g)
        ≤ℤ least_of (λ t. t.search_delta) g)
    → IsWithinRange g
in_range_of_extremes g h =
    let rating = λ (t : PartyTicket). t.effective_rating in
    let high = greatest_of rating g in
    let low = least_of rating g in
    let reach = least_of (λ t. t.search_delta) g in
    every_mono (λ (p : ℕ × PartyTicket). p.1.effective_rating ≤ℤ high) _
      (λ p hp.
        every_mono (λ (q : ℕ × PartyTicket). low ≤ℤ q.1.effective_rating) _
          (λ q hq.
            every_mono (λ (r : ℕ × PartyTicket). reach ≤ℤ r.1.search_delta) _
              (λ r hr. omega (
                arith,
                h,
                hp,
                hq,
                hr,
                -ℤ_parts high low,
                -ℤ_parts p.1.effective_rating q.1.effective_rating,
              ))
              g (least_of-le (λ t. t.search_delta) g))
          g (least_of-le rating g))
      g (greatest_of-ge rating g)
