-- ===== src/Profile.antt =====
-- core/src/profile.rs: profiles in memory, saved by compare and swap.
use elo_ranking_pairing_syst.Base.{
  ℕ, ◌≡◌, ◌≢◌, ◌↔◌, ◌==◌, ==_iff, Bool, true, false, not, ◌&&◌, Option, some, [], ◌∷◌, Result, ok,
  err, unwrap_or, is_some_and, arith, if◌then◌else◌,
}
use elo_ranking_pairing_syst.Base.Int.{ℤ, pos, leb_ℤ}
use elo_ranking_pairing_syst.Base.Text.{Text}
use elo_ranking_pairing_syst.Base.Map.{Map, lookup, insert, nat_key}
use elo_ranking_pairing_syst.Base.Map.Laws.{lookup-insert}
use elo_ranking_pairing_syst.Components.{
  QueueMode, one_vs_one, five_vs_five, free_for_all, mode_eq, mode_eq_iff,
}

pub record PlayerProfile : Type 0 where
  pub ratings : Map QueueMode ℤ
  pub completed_matches : Map QueueMode ℕ
  pub credit : ℕ
  pub recent_credit_violations : ℕ

abbrev pub default_profile : PlayerProfile
default_profile = record {
  ratings = (one_vs_one, pos 1000) ∷ (five_vs_five, pos 1000) ∷ (free_for_all, pos 1000) ∷ [];
  completed_matches = [];
  credit = 100;
  recent_credit_violations = 0;
}

pub data ProfileError : Type 0 where
  unavailable : Text → ProfileError
  conflict : ProfileError

-- The derived `PartialEq` of the profile, by its fields.
unfoldable pub ratings_eq : Map QueueMode ℤ → Map QueueMode ℤ → Bool
ratings_eq [] [] = true
ratings_eq ((k, v) ∷ m) ((j, w) ∷ n) = mode_eq k j && leb_ℤ v w && leb_ℤ w v && ratings_eq m n
ratings_eq _ _ = false

unfoldable pub counts_eq : Map QueueMode ℕ → Map QueueMode ℕ → Bool
counts_eq [] [] = true
counts_eq ((k, v) ∷ m) ((j, w) ∷ n) = mode_eq k j && (v == w) && counts_eq m n
counts_eq _ _ = false

unfoldable pub profile_eq : PlayerProfile → PlayerProfile → Bool
profile_eq p q =
    ratings_eq p.ratings q.ratings
    && counts_eq p.completed_matches q.completed_matches
    && (p.credit == q.credit)
    && (p.recent_credit_violations == q.recent_credit_violations)

abbrev pub Profiles : Type 0
Profiles = Map ℕ PlayerProfile

unfoldable pub load : Profiles → ℕ → PlayerProfile
load profiles player = unwrap_or default_profile (lookup player profiles)

unfoldable pub save :
    Profiles → ℕ → Option PlayerProfile → PlayerProfile → Result Profiles ProfileError
save profiles player expected updated =
    if is_some_and expected (λ e. not (profile_eq (load profiles player) e))
    then err conflict
    else ok (insert player updated profiles)

ratings_eq_iff : (m n : Map QueueMode ℤ) → (ratings_eq m n ≡ true) ↔ (m ≡ n)
unfolding ratings_eq
ratings_eq_iff [] [] = ground arith
ratings_eq_iff [] (y ∷ n) = ground arith
ratings_eq_iff (x ∷ m) [] = ground arith
ratings_eq_iff ((k, v) ∷ m) ((j, w) ∷ n) = ground (arith, mode_eq_iff k j, ratings_eq_iff m n)

counts_eq_iff : (m n : Map QueueMode ℕ) → (counts_eq m n ≡ true) ↔ (m ≡ n)
unfolding counts_eq
counts_eq_iff [] [] = ground arith
counts_eq_iff [] (y ∷ n) = ground arith
counts_eq_iff (x ∷ m) [] = ground arith
counts_eq_iff ((k, v) ∷ m) ((j, w) ∷ n) = ground (arith, mode_eq_iff k j, counts_eq_iff m n)

profile_eq_iff : (p q : PlayerProfile) → (profile_eq p q ≡ true) ↔ (p ≡ q)
unfolding profile_eq
profile_eq_iff p q = ground (
  arith,
  ratings_eq_iff p.ratings q.ratings,
  counts_eq_iff p.completed_matches q.completed_matches,
)

-- Of two writers that start from the same profile, the second is refused if the first has changed
-- it: a save on the profile that was read succeeds, the next reader gets what was saved, everyone
-- else's profile stays, and a save that still expects the former profile is a conflict.
pub save-save :
    (profiles : Profiles) (player other : ℕ) (updated late : PlayerProfile)
    → updated ≢ load profiles player
    → player ≢ other
    → (after : Profiles) × (save profiles player (some (load profiles player)) updated ≡ ok after)
      × (load after player ≡ updated)
      × (load after other ≡ load profiles other)
      × (save after player (some (load profiles player)) late ≡ err conflict)
unfolding save load
save-save profiles player other updated late change ne =
    let before = load profiles player in
    let same = profile_eq_iff before before in
    let stale = profile_eq_iff updated before in
    let own = lookup-insert player player updated profiles in
    let others = lookup-insert player other updated profiles in
    let self = ==_iff player player in
    let apart = ==_iff player other in
    (
      insert player updated profiles,
      ground (arith, same),
      ground (arith, own, self),
      ground (arith, others, apart),
      ground (arith, own, self, stale, change),
    )
