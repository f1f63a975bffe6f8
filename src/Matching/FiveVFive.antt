-- ===== src/Matching/FiveVFive.antt =====
-- core/src/matching/five_v_five.rs: two teams of five, made of whole parties. The sums are of at
-- most ten 32-bit numbers times five, so a 64-bit word holds them.
pub mod Teams
use elo_ranking_pairing_syst.Base.{
  ℕ, zero, suc, ◌-◌, ◌≡◌, Bool, true, false, not, ◌&&◌, ◌||◌, Option, none, some, List, [], ◌∷◌,
  ◌++◌, map, length, leb, ◌==◌, any, if_some, if◌then◌else◌,
}
use elo_ranking_pairing_syst.Base.Int.{
  ℤ, pos, ◌+ℤ◌, ◌-ℤ◌, ◌*ℤ◌, ltb_ℤ, min_ℤ, neg, magnitude, div_trunc, sum_ℤ,
}
use elo_ranking_pairing_syst.Base.Word.{i32_max}
use elo_ranking_pairing_syst.Matching.{
  PartyTicket, Candidate, five_v_five_party_bonus, five_v_five_mirror_seconds,
}
use elo_ranking_pairing_syst.Matching.Groups.{
  Group, size, total, weighted_rating, players, least_of, greatest_of, earliest, groups,
}

-- `counts[k] += 1`
unfoldable pub count_at : ℕ → List ℕ → List ℕ
count_at k [] = []
count_at zero (n ∷ counts) = suc n ∷ counts
count_at (suc k) (n ∷ counts) = n ∷ count_at k counts

unfoldable pub count_sizes : List ℕ → Group → List ℕ
unfolding count_at
count_sizes counts [] = counts
count_sizes counts ((i, t) ∷ g) = count_sizes (count_at (size t - 1) counts) g

-- How many parties of each size from 1 to 5.
unfoldable pub structure : Group → List ℕ
unfolding count_sizes
structure g = count_sizes (0 ∷ 0 ∷ 0 ∷ 0 ∷ 0 ∷ []) g

unfoldable pub raw_rating_total : Group → ℤ
raw_rating_total g = total (λ t. sum_ℤ t.ratings) g

unfoldable pub advantage_total : Group → ℤ
advantage_total g = total (λ t. five_v_five_party_bonus (size t) *ℤ pos (size t)) g

-- The sizes that `go` tries: `(1..=5).contains(&n) && n <= left`.
unfoldable pub fits : ℕ → ℕ → Bool
fits n left = leb 1 n && leb n 5 && leb n left

-- `out.push(c.clone())`
abbrev pub keep : Group → List Group → List Group
keep g out = out ++ g ∷ []

unfoldable pub subsets : List PartyTicket → ℕ → ℕ → List Group
unfolding fits groups
subsets ts target budget = groups fits keep budget ts target

unfoldable pub counts_eq : List ℕ → List ℕ → Bool
counts_eq [] [] = true
counts_eq (m ∷ ms) (n ∷ ns) = (m == n) && counts_eq ms ns
counts_eq _ _ = false

-- The sum of the differences of the counts.
unfoldable pub structure_gap : List ℕ → List ℕ → ℤ
structure_gap (m ∷ ms) (n ∷ ns) = pos (magnitude (pos m -ℤ pos n)) +ℤ structure_gap ms ns
structure_gap _ _ = pos 0

abbrev pub share_ticket : Group → Group → Bool
share_ticket a b = any (λ (p : ℕ × PartyTicket). any (λ (q : ℕ × PartyTicket). q.0 == p.0) b) a

-- Whether the teams may meet as to their parties: of the same sizes, or one has waited for a minute
-- and the side with the larger bonus for its parties is weaker by that much.
unfoldable pub may_meet : Group → Group → Bool
may_meet a b =
    let waited =
      any (λ (p : ℕ × PartyTicket). leb five_v_five_mirror_seconds p.1.wait_seconds) (a ++ b) in
    let raw_difference = raw_rating_total a -ℤ raw_rating_total b in
    let advantage_difference = advantage_total a -ℤ advantage_total b in
    let unfair =
      (ltb_ℤ (pos 0) advantage_difference && ltb_ℤ (neg raw_difference) advantage_difference)
      || (ltb_ℤ advantage_difference (pos 0) && ltb_ℤ raw_difference (neg advantage_difference)) in
    counts_eq (structure a) (structure b) || (waited && not unfair)

-- Whether the ratings lie within every ticket's range.
unfoldable pub in_range : Group → Bool
in_range g = not (
    ltb_ℤ (least_of (λ t. t.search_delta) g)
      (greatest_of (λ t. t.effective_rating) g -ℤ least_of (λ t. t.effective_rating) g))

unfoldable pub dispersion : Group → ℤ
dispersion g =
    min_ℤ
      (total (λ t. sum_ℤ (map (λ rating. pos (magnitude (rating -ℤ t.effective_rating))) t.ratings))
        g)
      i32_max

unfoldable pub make_candidate : Group → Group → Candidate
make_candidate a b =
    let ar = div_trunc (weighted_rating a) 5 in
    let br = div_trunc (weighted_rating b) 5 in
    record {
      tickets = map (λ (p : ℕ × PartyTicket). p.1.id) (a ++ b);
      teams = players a ∷ players b ∷ [];
      oldest_enqueued_at = earliest (a ++ b);
      quality_key = (
        min_ℤ (pos (magnitude (ar -ℤ br))) i32_max,
        dispersion (a ++ b),
        structure_gap (structure a) (structure b),
      );
      owner_shard = 0;
    }

-- The body of the two loops; none is `continue`.
unfoldable pub pair_teams : Group → Group → Option Candidate
pair_teams a b =
    if share_ticket a b
    then none
    else if not (may_meet a b)
    then none
    else if not (in_range (a ++ b))
    then none
    else some (make_candidate a b)

-- `for b in &groups`; the flag says that the budget is reached, which ends both loops.
unfoldable pub oppose : ℕ → Group → List Group → List Candidate → List Candidate × Bool
oppose budget a [] out = (out, false)
oppose budget a (b ∷ bs) out =
    let rest = oppose budget a bs out in
    if_some (pair_teams a b)
      (λ c.
        let out' = out ++ c ∷ [] in
        let further = oppose budget a bs out' in
        if leb budget (length out') then (out', true) else further)
      rest

-- `for a in &groups`
unfoldable pub all_pairs : ℕ → List Group → List Group → List Candidate → List Candidate
all_pairs budget [] bs out = out
all_pairs budget (a ∷ others) bs out =
    let (out', full) = oppose budget a bs out in
    let rest = all_pairs budget others bs out' in if full then out' else rest

unfoldable pub build : List PartyTicket → ℕ → List Candidate
build ts budget = let teams = subsets ts 5 budget in all_pairs budget teams teams []
