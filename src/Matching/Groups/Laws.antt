-- ===== src/Matching/Groups/Laws.antt =====
-- What the search for groups finds (`go` of core/src/matching/five_v_five.rs and free_for_all.rs).
use elo_ranking_pairing_syst.Base.{
  some, subst, get_elem?, ℕ, suc, ◌+◌, ◌-◌, ◌≤◌, ◌<◌, ◌≡◌, refl, Bool, true, List, [], ◌∷◌, ◌++◌,
  length, leb, ◌==◌, ==_iff, All, arith, Bool-cases, inl, inr, length-append,
}
use elo_ranking_pairing_syst.Base.Every.{every_mono, All-append}
use elo_ranking_pairing_syst.Matching.{PartyTicket}
use elo_ranking_pairing_syst.Matching.Groups.{Group, size, players, go, search, groups}

-- The number of players of a group.
abbrev pub head_count : Group → ℕ
head_count [] = 0
head_count ((i, t) ∷ g) = size t + head_count g

-- The indices ascend from `at`.
abbrev pub AscendFrom : ℕ → Group → Type 0
AscendFrom at [] = Unit
AscendFrom at ((i, t) ∷ g) = (at ≤ i) × AscendFrom (suc i) g

-- Labelled tickets of a kind, with ascending labels and this number of players.
abbrev pub IsGroup : (ℕ × PartyTicket → Type 0) → ℕ → Group → Type 0
IsGroup Q target g = (head_count g ≡ target) × (AscendFrom 0 g × All Q g)

-- What holds of every ticket of the list with its position, counted from `at`.
abbrev pub EachFrom : (ℕ × PartyTicket → Type 0) → ℕ → List PartyTicket → Type 0
EachFrom Q at [] = Unit
EachFrom Q at (t ∷ ts) = Q (at, t) × EachFrom Q (suc at) ts

each_from :
    (Q : ℕ × PartyTicket → Type 0) (at : ℕ) (ts : List PartyTicket)
    → ((i : ℕ) (t : PartyTicket) → get_elem? ts i ≡ some t → Q (at + i, t))
    → EachFrom Q at ts
each_from Q at [] h = tt
each_from Q at (t ∷ ts) h = (
  subst (λ n. Q (n, t)) (omega arith) (h 0 t refl),
  each_from Q (suc at) ts (λ i u e. subst (λ n. Q (n, u)) (omega arith) (h (suc i) u e)),
)

-- The label is the position in the list.
abbrev pub StandsIn : List PartyTicket → ℕ × PartyTicket → Type 0
StandsIn ts p = get_elem? ts p.0 ≡ some p.1

pub each-StandsIn : (ts : List PartyTicket) → EachFrom (StandsIn ts) 0 ts
each-StandsIn ts =
    each_from (StandsIn ts) 0 ts (λ i t e. subst (λ n. get_elem? ts n ≡ some t) (omega arith) e)

pub each_both :
    (Q R : ℕ × PartyTicket → Type 0) (at : ℕ) (ts : List PartyTicket)
    → EachFrom Q at ts
    → EachFrom R at ts
    → EachFrom (λ p. Q p × R p) at ts
each_both Q R at [] h k = tt
each_both Q R at (t ∷ ts) (q, h) (r, k) = ((q, r), each_both Q R (suc at) ts h k)

-- What holds of the tickets alone.
pub EachFrom-All :
    (Q : PartyTicket → Type 0) (at : ℕ) (ts : List PartyTicket)
    → All Q ts
    → EachFrom (λ p. Q p.1) at ts
EachFrom-All Q at [] h = tt
EachFrom-All Q at (t ∷ ts) (q, h) = (q, EachFrom-All Q (suc at) ts h)

-- A group that is being built: its indices are below `at`, and `left` players are missing.
abbrev IsBegun : (ℕ × PartyTicket → Type 0) → ℕ → ℕ → ℕ → Group → Type 0
IsBegun Q target at left g =
    (head_count g + left ≡ target)
    × (AscendFrom 0 g × (All (λ (p : ℕ × PartyTicket). p.0 < at) g × All Q g))

head_count-append :
    (g : Group) (i : ℕ) (t : PartyTicket) → head_count (g ++ (i, t) ∷ []) ≡ head_count g + size t
head_count-append [] i t = omega arith
head_count-append ((j, u) ∷ g) i t = omega (arith, head_count-append g i t)

AscendFrom-append :
    (at : ℕ) (g : Group) (i : ℕ) (t : PartyTicket)
    → at ≤ i
    → AscendFrom at g
    → All (λ (p : ℕ × PartyTicket). p.0 < i) g
    → AscendFrom at (g ++ (i, t) ∷ [])
AscendFrom-append at [] i t l h k = (l, tt)
AscendFrom-append at ((j, u) ∷ g) i t l (m, h) (n, k) = (m, AscendFrom-append (suc j) g i t n h k)

pub length-players : (g : Group) → length (players g) ≡ head_count g
unfolding players
length-players [] = refl
length-players ((i, t) ∷ g) = omega (arith, length-append t.members (players g), length-players g)

IsBegun-later :
    (Q : ℕ × PartyTicket → Type 0) (target at left : ℕ) (g : Group)
    → IsBegun Q target at left g
    → IsBegun Q target (suc at) left g
IsBegun-later Q target at left g (e, (a, (b, m))) = (
  e,
  (
    a,
    (
      every_mono (λ (p : ℕ × PartyTicket). p.0 < at) (λ (p : ℕ × PartyTicket). p.0 < suc at)
          (λ p l. omega (arith, l)) g b,
      m,
    ),
  ),
)

IsBegun-more :
    (Q : ℕ × PartyTicket → Type 0) (target at left : ℕ) (g : Group) (t : PartyTicket)
    → IsBegun Q target at left g
    → Q (at, t)
    → size t ≤ left
    → IsBegun Q target (suc at) (left - size t) (g ++ (at, t) ∷ [])
IsBegun-more Q target at left g t (e, (a, (b, m))) mt l = (
  omega (arith, head_count-append g at t, e, l),
  (
    AscendFrom-append 0 g at t (omega arith) a b,
    (
      All-append (λ (p : ℕ × PartyTicket). p.0 < suc at) g ((at, t) ∷ [])
          (every_mono (λ (p : ℕ × PartyTicket). p.0 < at) (λ (p : ℕ × PartyTicket). p.0 < suc at)
            (λ p k. omega (arith, k)) g b)
          (omega arith, tt),
      All-append Q g ((at, t) ∷ []) m (mt, tt),
    ),
  ),
)

module _ {A : Type 0} (fits : ℕ → ℕ → Bool) (finish : Group → List A → List A) (budget : ℕ) where
  -- A budget holds if the end of a group adds at most one.
  module _ (one : (g : Group) (out : List A) → length (finish g out) ≤ suc (length out)) where
    go-length :
        (left : ℕ) (c : Group) (out found : List A)
        → length out ≤ budget
        → length found ≤ budget
        → length (go fits finish budget left c out found) ≤ budget
    unfolding go
    go-length left c out found h k = ground (arith, one c out)

    search-length :
        (at : ℕ) (ts : List PartyTicket) (left : ℕ) (c : Group) (out : List A)
        → length out ≤ budget
        → length (search fits finish budget at ts left c out) ≤ budget
    unfolding search
    search-length at [] left c out h = h
    search-length at (t ∷ ts) left c out h =
        let left' = left - size t in
        let c' = c ++ (at, t) ∷ [] in
        let deeper = search fits finish budget (suc at) ts left' c' out in
        let inner = search-length (suc at) ts left' c' out h in
        let entered = go-length left' c' out deeper h inner in
        elim (Bool-cases (fits (size t) left)) [
          | inl e ↦
              rw e (
                search-length (suc at) ts left c (go fits finish budget left' c' out deeper)
                  entered)
          | inr e ↦ rw e (search-length (suc at) ts left c out h)
        ]

    pub groups-length :
        (ts : List PartyTicket) (target : ℕ) → length (groups fits finish budget ts target) ≤ budget
    unfolding groups
    groups-length ts target =
        go-length target [] [] (search fits finish budget 0 ts target [] []) (omega arith)
          (search-length 0 ts target [] [] (omega arith))

  -- What holds of the end of each full group holds of all that is found.
  module _ (P : A → Type 0) (Q : ℕ × PartyTicket → Type 0) (target : ℕ)
      (fit : (n left : ℕ) → fits n left ≡ true → n ≤ left)
      (each : (g : Group) (out : List A)
        → IsGroup Q target g
        → All P out
        → All P (finish g out)) where
    go-All :
        (at left : ℕ) (c : Group) (out found : List A)
        → IsBegun Q target at left c
        → All P out
        → All P found
        → All P (go fits finish budget left c out found)
    unfolding go
    go-All at left c out found (e, (a, (b, m))) h k = elim (Bool-cases (leb budget (length out))) [
      | inl f ↦ rw f h
      | inr f ↦ rw f (elim (Bool-cases (left == 0)) [
        | inl z ↦ rw z (each c out (omega (arith, e, (==_iff left 0).0 z), (a, m)) h)
        | inr z ↦ rw z k
      ])
    ]

    search-All :
        (at : ℕ) (ts : List PartyTicket) (left : ℕ) (c : Group) (out : List A)
        → EachFrom Q at ts
        → IsBegun Q target at left c
        → All P out
        → All P (search fits finish budget at ts left c out)
    unfolding search
    search-All at [] left c out m b h = h
    search-All at (t ∷ ts) left c out (mt, m) b h =
        let left' = left - size t in
        let c' = c ++ (at, t) ∷ [] in
        let deeper = search fits finish budget (suc at) ts left' c' out in
        let later = IsBegun-later Q target at left c b in
        elim (Bool-cases (fits (size t) left)) [
          | inl e ↦
              let b' = IsBegun-more Q target at left c t b mt (fit (size t) left e) in
              let inner = search-All (suc at) ts left' c' out m b' h in
              rw e (
                search-All (suc at) ts left c (go fits finish budget left' c' out deeper) m later
                  (go-All (suc at) left' c' out deeper b' h inner))
          | inr e ↦ rw e (search-All (suc at) ts left c out m later h)
        ]

    pub groups-All :
        (ts : List PartyTicket) → EachFrom Q 0 ts → All P (groups fits finish budget ts target)
    unfolding groups
    groups-All ts m =
        go-All 0 target [] [] (search fits finish budget 0 ts target [] [])
          (omega arith, (tt, (tt, tt))) tt
          (search-All 0 ts target [] [] m (omega arith, (tt, (tt, tt))) tt)
