-- ===== src/Matching/OneVOne.antt =====
-- core/src/matching/one_v_one.rs: pairs of neighbours by rating.
use mathlib.Core.List.{Perm, perm_middle}
use mathlib.Core.List.Perm
use elo_ranking_pairing_syst.Base.{
  Bool, ◌++◌, ◌≡◌, refl, min, true, not, ◌||◌, Option, none, some, List, [], ◌∷◌, arith, length,
  All, ◌<◌, retain, if◌then◌else◌, Bool-cases, ◌==◌, ==_iff, inl, inr,
}
use elo_ranking_pairing_syst.Base.Int.{ℤ, pos, magnitude, ◌-ℤ◌, ◌≤ℤ◌, min_ℤ, ltb_ℤ, min_ℤ-le}
use elo_ranking_pairing_syst.Base.Word.{wrap_i32, wrap_i32_id}
use elo_ranking_pairing_syst.Base.Every.{All-retain, All-sort_by}
use elo_ranking_pairing_syst.Base.Text.{text_eq, text_eq_iff}
use elo_ranking_pairing_syst.Base.Order.{Order, nat_order, int_order, lex, on}
use elo_ranking_pairing_syst.Base.Sort.{sort_by, sort_by-perm}
use elo_ranking_pairing_syst.Matching.{PartyTicket, Candidate}

abbrev pub rating_order : Order PartyTicket
rating_order =
    on (λ t. (t.effective_rating, (t.enqueued_at, t.id))) (lex int_order (lex nat_order nat_order))

-- `(a.effective_rating - b.effective_rating).abs()`
unfoldable pub difference : PartyTicket → PartyTicket → ℤ
difference a b = wrap_i32 (pos (magnitude (wrap_i32 (a.effective_rating -ℤ b.effective_rating))))

-- The body of the loop, for one window.
unfoldable pub pair : PartyTicket → PartyTicket → Option Candidate
pair a b =
    if not (text_eq a.region b.region)
      || ltb_ℤ (min_ℤ a.search_delta b.search_delta) (difference a b)
    then none
    else some record {
      tickets = a.id ∷ b.id ∷ [];
      teams = a.members ∷ b.members ∷ [];
      oldest_enqueued_at = min a.enqueued_at b.enqueued_at;
      quality_key = (difference a b, pos 0, pos 0);
      owner_shard = 0;
    }

abbrev pub push : Option Candidate → List Candidate → List Candidate
push none cs = cs
push (some c) cs = c ∷ cs

-- `for pair in ordered.windows(2)`
unfoldable pub pair_windows : List PartyTicket → List Candidate
pair_windows [] = []
pair_windows (a ∷ []) = []
pair_windows (a ∷ b ∷ ts) = push (pair a b) (pair_windows (b ∷ ts))

unfoldable pub build : List PartyTicket → List Candidate
build ts = pair_windows (sort_by rating_order.le (retain (λ t. length t.members == 1) ts))

-- Two entries of the list: it is a rearrangement of the two and others.
abbrev pub AreTwoOf : List PartyTicket → PartyTicket → PartyTicket → Type 0
AreTwoOf ts a b = (rest : List PartyTicket) × Perm (a ∷ b ∷ rest) ts

-- A game of two of the tickets, each of one player, in one region, whose ratings differ by no more
-- than either of them accepts.
abbrev pub IsDuel : List PartyTicket → Candidate → Type 0
IsDuel ts c =
    (a : PartyTicket) × (b : PartyTicket) × AreTwoOf ts a b
    × (length a.members ≡ 1)
    × (length b.members ≡ 1)
    × (a.region ≡ b.region)
    × (pos (magnitude (a.effective_rating -ℤ b.effective_rating)) ≤ℤ a.search_delta)
    × (pos (magnitude (a.effective_rating -ℤ b.effective_rating)) ≤ℤ b.search_delta)
    × (c.tickets ≡ a.id ∷ b.id ∷ [])
    × (c.teams ≡ a.members ∷ b.members ∷ [])

-- Ratings whose differences are 32-bit values: of at most 2^30 - 1 either way.
abbrev pub HasModestRating : PartyTicket → Type 0
HasModestRating t = magnitude t.effective_rating < 1073741824

difference_lem :
    (a b : PartyTicket)
    → HasModestRating a
    → HasModestRating b
    → difference a b ≡ pos (magnitude (a.effective_rating -ℤ b.effective_rating))
unfolding difference ◌-ℤ◌
difference_lem a b h k =
    rw (wrap_i32_id (a.effective_rating -ℤ b.effective_rating) (ground arith))
      (wrap_i32_id (pos (magnitude (a.effective_rating -ℤ b.effective_rating))) (ground arith))

two_further :
    (t a b : PartyTicket) (us : List PartyTicket) → AreTwoOf us a b → AreTwoOf (t ∷ us) a b
two_further t a b us (rest, p) = (
  t ∷ rest,
  Perm.trans (Perm.trans (Perm.cons a (Perm.swap t b rest)) (Perm.swap t a (b ∷ rest)))
      (Perm.cons t p),
)

-- The elements that are left out, behind the others.
retain-perm :
    (p : PartyTicket → Bool) (ts : List PartyTicket)
    → (out : List PartyTicket) × Perm (retain p ts ++ out) ts
retain-perm p [] = ([], Perm.refl _)
retain-perm p (t ∷ ts) =
    let (out, q) = retain-perm p ts in
    elim (Bool-cases (p t)) [
      | inl e ↦ rw e (out, Perm.cons t q)
      | inr e ↦ rw e (t ∷ out, Perm.trans (perm_middle (retain p ts) out) (Perm.cons t q))
    ]

module _ (ts : List PartyTicket) where
  abbrev IsEntrant : PartyTicket → Type 0
  IsEntrant t = ((length t.members == 1) ≡ true) × HasModestRating t

  pair-IsDuel :
      (a b : PartyTicket) (cs : List Candidate)
      → IsEntrant a
      → IsEntrant b
      → AreTwoOf ts a b
      → All (IsDuel ts) cs
      → All (IsDuel ts) (push (pair a b) cs)
  unfolding pair
  pair-IsDuel a b cs ha hb two h =
      let d = pos (magnitude (a.effective_rating -ℤ b.effective_rating)) in
      let far = ltb_ℤ (min_ℤ a.search_delta b.search_delta) d in
      let same = text_eq a.region b.region in
      let (na, ra) = ha in
      let (nb, rb) = hb in
      rw (difference_lem a b ra rb) (elim (Bool-cases (not same || far)) [
        | inl e ↦ rw e h
        | inr e ↦
            let near = min_ℤ-le a.search_delta b.search_delta in
            rw e (
              (
                (
                  a,
                  b,
                  two,
                  ground (arith, ==_iff (length a.members) 1),
                  ground (arith, ==_iff (length b.members) 1),
                  (text_eq_iff a.region b.region).0 (ground arith),
                  ground (arith, near),
                  ground (arith, near),
                  refl,
                  refl,
                ),
                h,
              ))
      ])

  pair_windows-IsDuel :
      (us : List PartyTicket)
      → ((a b : PartyTicket) → AreTwoOf us a b → AreTwoOf ts a b)
      → All IsEntrant us
      → All (IsDuel ts) (pair_windows us)
  unfolding pair_windows
  pair_windows-IsDuel [] into h = tt
  pair_windows-IsDuel (a ∷ []) into h = tt
  pair_windows-IsDuel (a ∷ b ∷ us) into (ha, (hb, h)) =
      pair-IsDuel a b (pair_windows (b ∷ us)) ha hb (into a b (us, Perm.refl _)) (
        pair_windows-IsDuel (b ∷ us) (λ c d two. into c d (two_further a c d (b ∷ us) two)) (hb, h))

two_sorted :
    (ts : List PartyTicket) (a b : PartyTicket)
    → let single = λ (t : PartyTicket). length t.members == 1 in
      AreTwoOf (sort_by rating_order.le (retain single ts)) a b → AreTwoOf ts a b
two_sorted ts a b (rest, p) =
    let single = λ (t : PartyTicket). length t.members == 1 in
    let sorted = Perm.trans p (sort_by-perm rating_order.le (retain single ts)) in
    let (out, q) = retain-perm single ts in
    (rest ++ out, Perm.trans (Perm.append_right out sorted) q)

-- Every proposed duel is fair: two entries of the list, of one player each, in one region, whose
-- ratings differ by at most the range that either accepts. The ratings are at most 2^30 - 1 either way,
-- so that the 32-bit difference is exact.
pub build-IsDuel : (ts : List PartyTicket) → All HasModestRating ts → All (IsDuel ts) (build ts)
unfolding build
build-IsDuel ts h =
    let single = λ (t : PartyTicket). length t.members == 1 in
    pair_windows-IsDuel ts (sort_by rating_order.le (retain single ts)) (two_sorted ts) (
      All-sort_by (IsEntrant ts) rating_order.le (retain single ts)
        (All-retain HasModestRating single ts h))
