-- ===== src/Matching/Builders.antt =====
-- The three builders in the dispatcher: what they and `generate` use of the snapshot
-- (core/src/matching).
use elo_ranking_pairing_syst.Base.{
  ℕ, ◌≡◌, ◌==◌, ==_iff, true, not, ◌||◌, List, [], ◌∷◌, ◌++◌, map, All, arith, retain, length,
  subst, Bool-cases, inl, inr,
}
use elo_ranking_pairing_syst.Base.Every.{every_mono, All-append, All-retain, All-sort_by}
use elo_ranking_pairing_syst.Base.Int.{ltb_ℤ, min_ℤ}
use elo_ranking_pairing_syst.Base.Text.{text_eq}
use elo_ranking_pairing_syst.Base.Map.{nat_key}
use elo_ranking_pairing_syst.Base.Set as Set
use elo_ranking_pairing_syst.Matching.{PartyTicket, Candidate}
use elo_ranking_pairing_syst.Matching.OneVOne as OneVOne
use elo_ranking_pairing_syst.Matching.OneVOne.{pair, push, pair_windows, rating_order, difference}
use elo_ranking_pairing_syst.Matching.Groups.{Group}
use elo_ranking_pairing_syst.Matching.Groups.Laws.{EachFrom-All}
use elo_ranking_pairing_syst.Matching.FiveVFive as FiveVFive
use elo_ranking_pairing_syst.Matching.FiveVFive.Teams as Teams
use elo_ranking_pairing_syst.Matching.FreeForAll as FreeForAll
use elo_ranking_pairing_syst.Matching.FreeForAll.Games as Games
use elo_ranking_pairing_syst.Matching.Dispatcher.{owner_key}
use elo_ranking_pairing_syst.Matching.Dispatcher.Shard.{ids, DrawsOn, IsBuilder}

-- A ticket whose identifier is one of these.
abbrev IsListed : List ℕ → PartyTicket → Type 0
IsListed js t = Set.member t.id js ≡ true

ids-IsListed : (ts : List PartyTicket) → All (IsListed (ids ts)) ts
unfolding Set.member
ids-IsListed [] = tt
ids-IsListed (t ∷ ts) = (
  ground (arith, ==_iff t.id t.id),
  every_mono (IsListed (ids ts)) (IsListed (ids (t ∷ ts))) (λ u h. ground arith) ts
      (ids-IsListed ts),
)

listed_group :
    (js : List ℕ) (g : Group) (j : ℕ)
    → All (λ (p : ℕ × PartyTicket). IsListed js p.1) g
    → Set.member j (map (λ (p : ℕ × PartyTicket). p.1.id) g) ≡ true
    → Set.member j js ≡ true
unfolding Set.member
listed_group js [] j h m = cc
listed_group js ((i, t) ∷ g) j (k, h) m = elim (Bool-cases (t.id == j)) [
  | inl e ↦ subst (λ n. Set.member n js ≡ true) ((==_iff t.id j).0 e) k
  | inr e ↦ listed_group js g j h (ground arith)
]

five_v_five-IsBuilder : (budget : ℕ) → IsBuilder (λ ts. FiveVFive.build ts budget)
five_v_five-IsBuilder budget ts =
    every_mono (Teams.IsGame (λ p. IsListed (ids ts) p.1)) (DrawsOn (ids ts)) drawn
      (FiveVFive.build ts budget)
      (Teams.build_drawn (λ p. IsListed (ids ts) p.1) ts budget
        (EachFrom-All (IsListed (ids ts)) 0 ts (ids-IsListed ts)))
  where
    drawn : (c : Candidate) → Teams.IsGame (λ p. IsListed (ids ts) p.1) c → DrawsOn (ids ts) c
    drawn c (a, b, ga, gb, s, m, r, la, lb, e, f) j h =
        listed_group (ids ts) (a ++ b) j
          (All-append (λ (p : ℕ × PartyTicket). IsListed (ids ts) p.1) a b ga.1.1 gb.1.1)
          (subst (λ l. Set.member j l ≡ true) e h)

free_for_all-IsBuilder : (budget : ℕ) → IsBuilder (λ ts. FreeForAll.build ts budget)
free_for_all-IsBuilder budget ts =
    every_mono (λ c. (g : Group) × Games.IsMelee (λ p. IsListed (ids ts) p.1) g c)
      (DrawsOn (ids ts)) drawn (FreeForAll.build ts budget)
      (Games.build_drawn (λ p. IsListed (ids ts) p.1) ts budget
        (EachFrom-All (IsListed (ids ts)) 0 ts (ids-IsListed ts)))
  where
    drawn :
        (c : Candidate)
        → (g : Group) × Games.IsMelee (λ p. IsListed (ids ts) p.1) g c
        → DrawsOn (ids ts) c
    drawn c (g, (h, e, f, l)) j m =
        listed_group (ids ts) g j h.1.1 (subst (λ l. Set.member j l ≡ true) e m)

module _ (js : List ℕ) where
  pair-DrawsOn :
      (a b : PartyTicket) (cs : List Candidate)
      → IsListed js a
      → IsListed js b
      → All (DrawsOn js) cs
      → All (DrawsOn js) (push (pair a b) cs)
  unfolding pair Set.member
  pair-DrawsOn a b cs ha hb h =
      let apart = not (text_eq a.region b.region) in
      let far = ltb_ℤ (min_ℤ a.search_delta b.search_delta) (difference a b) in
      elim (Bool-cases (apart || far)) [
        | inl e ↦ rw e h
        | inr e ↦ rw e ((λ j m. ground (arith, ==_iff a.id j, ==_iff b.id j)), h)
      ]

  pair_windows-DrawsOn :
      (us : List PartyTicket) → All (IsListed js) us → All (DrawsOn js) (pair_windows us)
  unfolding pair_windows
  pair_windows-DrawsOn [] h = tt
  pair_windows-DrawsOn (a ∷ []) h = tt
  pair_windows-DrawsOn (a ∷ b ∷ us) (ha, (hb, h)) =
      pair-DrawsOn a b (pair_windows (b ∷ us)) ha hb (pair_windows-DrawsOn (b ∷ us) (hb, h))

one_v_one-IsBuilder : IsBuilder OneVOne.build
unfolding OneVOne.build
one_v_one-IsBuilder ts =
    let single = λ (t : PartyTicket). length t.members == 1 in
    pair_windows-DrawsOn (ids ts) _ (
      All-sort_by (IsListed (ids ts)) rating_order.le (retain single ts) (
        every_mono _ (IsListed (ids ts)) (λ t p. p.1) (retain single ts)
          (All-retain (IsListed (ids ts)) single ts (ids-IsListed ts))))

-- Each builder of the three modes uses the tickets it is given and no others.
pub build-IsBuilder :
    (budget : ℕ)
    → IsBuilder OneVOne.build
      × IsBuilder (λ ts. FiveVFive.build ts budget)
      × IsBuilder (λ ts. FreeForAll.build ts budget)
build-IsBuilder budget =
    (one_v_one-IsBuilder, five_v_five-IsBuilder budget, free_for_all-IsBuilder budget)
