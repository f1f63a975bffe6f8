-- ===== src/Matching/FiveVFive/Teams.antt =====
-- The games of five against five that `build` of core/src/matching/five_v_five.rs proposes.
use elo_ranking_pairing_syst.Base.{
  ◌≢◌, ◌==◌, ==_iff, any, ℕ, zero, suc, subst, ◌≤◌, ◌≡◌, refl, true, false, some, List, [], ◌∷◌,
  ◌++◌, map, length, leb, All, arith, Bool-cases, Option-cases, inl, inr, length-append,
}
use elo_ranking_pairing_syst.Base.Every.{All-append}
use elo_ranking_pairing_syst.Matching.{PartyTicket, Candidate}
use elo_ranking_pairing_syst.Matching.Groups.{Group, players, groups, go}
use elo_ranking_pairing_syst.Matching.Groups.Laws.{
  IsGroup, EachFrom, StandsIn, each-StandsIn, length-players, groups-All,
}
use elo_ranking_pairing_syst.Matching.Groups.Range.{IsWithinRange, in_range_of_extremes}
use elo_ranking_pairing_syst.Matching.FiveVFive.{
  fits, keep, subsets, share_ticket, may_meet, in_range, make_candidate, pair_teams, oppose,
  all_pairs, build,
}

subsets-IsGroup :
    (Q : ℕ × PartyTicket → Type 0) (ts : List PartyTicket) (target budget : ℕ)
    → EachFrom Q 0 ts
    → All (IsGroup Q target) (subsets ts target budget)
unfolding subsets fits
subsets-IsGroup Q ts target budget m =
    groups-All fits keep budget (IsGroup Q target) Q target (λ n left h. ground arith)
      (λ g out p h. All-append (IsGroup Q target) out (g ∷ []) h (p, tt)) ts m

-- No label of the one group is one of the other.
abbrev pub AreApart : Group → Group → Type 0
AreApart a b = All (λ (p : ℕ × PartyTicket). All (λ (q : ℕ × PartyTicket). p.0 ≢ q.0) b) a

-- Two groups of labelled tickets of a kind, of five players each, without a label in common, which may
-- meet as to their parties, with all ratings within the range of every ticket.
abbrev pub IsGame : (ℕ × PartyTicket → Type 0) → Candidate → Type 0
IsGame Q c =
    (a : Group) × (b : Group) × IsGroup Q 5 a
    × IsGroup Q 5 b
    × AreApart a b
    × (may_meet a b ≡ true)
    × IsWithinRange (a ++ b)
    × (length (players a) ≡ 5)
    × (length (players b) ≡ 5)
    × (c.tickets ≡ map (λ (p : ℕ × PartyTicket). p.1.id) (a ++ b))
    × (c.teams ≡ players a ∷ players b ∷ [])

in_range_lem : (g : Group) → in_range g ≡ true → IsWithinRange g
unfolding in_range
in_range_lem g h = in_range_of_extremes g (ground arith)

pair_teams_lem :
    (a b : Group) (c : Candidate)
    → pair_teams a b ≡ some c
    → (share_ticket a b ≡ false)
      × (may_meet a b ≡ true)
      × (in_range (a ++ b) ≡ true)
      × (make_candidate a b ≡ c)
unfolding pair_teams
pair_teams_lem a b c h = ground arith

unshared :
    (i : ℕ) (b : Group)
    → any (λ (q : ℕ × PartyTicket). q.0 == i) b ≡ false
    → All (λ (q : ℕ × PartyTicket). i ≢ q.0) b
unshared i [] h = tt
unshared i ((j, u) ∷ b) h =
    ((λ e. ground (arith, e, h, ==_iff j i)), unshared i b (ground (arith, h)))

unshared-AreApart : (a b : Group) → share_ticket a b ≡ false → AreApart a b
unshared-AreApart [] b h = tt
unshared-AreApart ((i, t) ∷ a) b h =
    (unshared i b (ground (arith, h)), unshared-AreApart a b (ground (arith, h)))

module _ (Q : ℕ × PartyTicket → Type 0) where
  make_candidate-IsGame :
      (a b : Group)
      → IsGroup Q 5 a
      → IsGroup Q 5 b
      → share_ticket a b ≡ false
      → may_meet a b ≡ true
      → in_range (a ++ b) ≡ true
      → IsGame Q (make_candidate a b)
  unfolding make_candidate
  make_candidate-IsGame a b ga gb e f r = (
    a,
    b,
    ga,
    gb,
    unshared-AreApart a b e,
    f,
    in_range_lem (a ++ b) r,
    omega (arith, length-players a, ga.0),
    omega (arith, length-players b, gb.0),
    refl,
    refl,
  )

  oppose-IsGame :
      (budget : ℕ) (a : Group) (bs : List Group) (out : List Candidate)
      → IsGroup Q 5 a
      → All (IsGroup Q 5) bs
      → All (IsGame Q) out
      → All (IsGame Q) (oppose budget a bs out).0
  unfolding oppose
  oppose-IsGame budget a [] out ga gs h = h
  oppose-IsGame budget a (b ∷ bs) out ga (gb, gs) h = elim (Option-cases (pair_teams a b)) [
    | inl e ↦ rw e (oppose-IsGame budget a bs out ga gs h)
    | inr (c, e) ↦
        let (s, m, r, k) = pair_teams_lem a b c e in
        let game = subst (IsGame Q) k (make_candidate-IsGame a b ga gb s m r) in
        let grown = All-append (IsGame Q) out (c ∷ []) h (game, tt) in
        rw e (elim (Bool-cases (leb budget (length (out ++ c ∷ [])))) [
          | inl f ↦ rw f grown
          | inr f ↦ rw f (oppose-IsGame budget a bs (out ++ c ∷ []) ga gs grown)
        ])
  ]

  all_pairs-IsGame :
      (budget : ℕ) (others bs : List Group) (out : List Candidate)
      → All (IsGroup Q 5) others
      → All (IsGroup Q 5) bs
      → All (IsGame Q) out
      → All (IsGame Q) (all_pairs budget others bs out)
  unfolding all_pairs
  all_pairs-IsGame budget [] bs out ga gb h = h
  all_pairs-IsGame budget (a ∷ others) bs out (ga, gs) gb h =
      let (out', full) = oppose budget a bs out in
      let grown = oppose-IsGame budget a bs out ga gb h in
      elim (Bool-cases full) [
        | inl e ↦ rw e grown
        | inr e ↦ rw e (all_pairs-IsGame budget others bs out' gs gb grown)
      ]

-- Until the flag is up there is room for one more.
oppose-length :
    (budget : ℕ) (a : Group) (bs : List Group) (out : List Candidate)
    → suc (length out) ≤ budget
    → (length (oppose budget a bs out).0 ≤ budget)
      × ((oppose budget a bs out).1 ≡ false → suc (length (oppose budget a bs out).0) ≤ budget)
unfolding oppose
oppose-length budget a [] out h = (omega (arith, h), λ e. h)
oppose-length budget a (b ∷ bs) out h = elim (Option-cases (pair_teams a b)) [
  | inl e ↦ rw e (oppose-length budget a bs out h)
  | inr (c, e) ↦
      let grown = length-append out (c ∷ []) in
      rw e (elim (Bool-cases (leb budget (length (out ++ c ∷ [])))) [
        | inl f ↦ rw f (omega (arith, grown, h), λ r. cc)
        | inr f ↦ rw f (oppose-length budget a bs (out ++ c ∷ []) (ground arith))
      ])
]

all_pairs-length :
    (budget : ℕ) (others bs : List Group) (out : List Candidate)
    → suc (length out) ≤ budget
    → length (all_pairs budget others bs out) ≤ budget
unfolding all_pairs
all_pairs-length budget [] bs out h = omega (arith, h)
all_pairs-length budget (a ∷ others) bs out h =
    let (fits_in, room) = oppose-length budget a bs out h in
    elim (Bool-cases (oppose budget a bs out).1) [
      | inl e ↦ rw e fits_in
      | inr e ↦ rw e (all_pairs-length budget others bs (oppose budget a bs out).0 (room e))
    ]

build-length : (ts : List PartyTicket) (budget : ℕ) → length (build ts budget) ≤ budget
unfolding build subsets groups go all_pairs
build-length ts zero = omega arith
build-length ts (suc budget) =
    all_pairs-length (suc budget) (subsets ts 5 (suc budget)) (subsets ts 5 (suc budget)) []
      (omega arith)

pub build_drawn :
    (Q : ℕ × PartyTicket → Type 0) (ts : List PartyTicket) (budget : ℕ)
    → EachFrom Q 0 ts
    → All (IsGame Q) (build ts budget)
unfolding build
build_drawn Q ts budget m =
    let teams = subsets ts 5 budget in
    let sound = subsets-IsGroup Q ts 5 budget m in
    all_pairs-IsGame Q budget teams teams [] sound sound tt

-- Every proposed game is sound: two groups of the tickets that stand at distinct positions of the list,
-- within a group and between the groups, five players a side, that may meet as to their parties, all of
-- whose ratings differ by no more than any of their tickets accepts; and there are no more games than
-- the budget.
pub build-IsGame :
    (ts : List PartyTicket) (budget : ℕ)
    → All (IsGame (StandsIn ts)) (build ts budget) × (length (build ts budget) ≤ budget)
build-IsGame ts budget =
    (build_drawn (StandsIn ts) ts budget (each-StandsIn ts), build-length ts budget)
