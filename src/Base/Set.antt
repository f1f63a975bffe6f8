-- ===== src/Base/Set.antt =====
-- `BTreeSet` as a list in key order with distinct members.
use elo_ranking_pairing_syst.Base.Tests.{if◌then◌else◌}
use elo_ranking_pairing_syst.Base.Lists.{retain}
use elo_ranking_pairing_syst.Base.Map.{Key}
use mathlib.Core.Path.{◌≡◌, refl}
use mathlib.Core.Bool.{Bool, false, not, ◌&&◌, ◌||◌}
use mathlib.Core.List.{List, [], ◌∷◌}
use native.Mathlib.Omega.{arith}

module _ {ℓ} {K : Type ℓ} ⦃e : Key K⦄ where
  unfoldable pub member : K → List K → Bool
  member k [] = false
  member k (j ∷ s) = e.beq j k || member k s

  unfoldable pub put : K → List K → List K
  put k [] = k ∷ []
  put k (j ∷ s) = if e.lt k j then k ∷ j ∷ s else j ∷ put k s

  -- `BTreeSet::insert`
  unfoldable pub insert : K → List K → List K
  unfolding put
  insert k s = if member k s then s else put k s

  -- `BTreeSet::remove`
  unfoldable pub remove : K → List K → List K
  remove k s = retain (λ j. not (e.beq j k)) s

  -- `extend`
  unfoldable pub extend : List K → List K → List K
  extend s [] = s
  extend s (k ∷ ks) = extend (insert k s) ks

  unfoldable pub remove_all : List K → List K → List K
  remove_all s [] = s
  remove_all s (k ∷ ks) = remove_all (remove k s) ks

  unfoldable pub intersection : List K → List K → List K
  intersection s t = retain (λ k. member k t) s

  pub member-put : (k j : K) (s : List K) → member j (put k s) ≡ e.beq k j || member j s
  unfolding member put
  member-put k j [] = refl
  member-put k j (i ∷ s) = ground (arith, member-put k j s)

  pub member-insert : (k j : K) (s : List K) → member j (insert k s) ≡ e.beq k j || member j s
  unfolding insert
  member-insert k j s = ground (arith, e.beq_iff k j, member-put k j s)

  pub member-remove : (k j : K) (s : List K) → member j (remove k s) ≡ not (e.beq k j) && member j s
  unfolding remove member
  member-remove k j [] = ground arith
  member-remove k j (i ∷ s) =
      ground (arith, e.beq_iff k j, e.beq_iff i j, e.beq_iff i k, member-remove k j s)

  pub member-intersection :
      (k : K) (s t : List K) → member k (intersection s t) ≡ member k s && member k t
  unfolding intersection member
  member-intersection k [] t = refl
  member-intersection k (i ∷ s) t = ground (arith, e.beq_iff i k, member-intersection k s t)

  pub member-extend : (j : K) (s ks : List K) → member j (extend s ks) ≡ member j s || member j ks
  unfolding extend member
  member-extend j s [] = ground arith
  member-extend j s (k ∷ ks) = ground (arith, member-insert k j s, member-extend j (insert k s) ks)

  pub member-remove_all :
      (j : K) (s ks : List K) → member j (remove_all s ks) ≡ member j s && not (member j ks)
  unfolding remove_all member
  member-remove_all j s [] = ground arith
  member-remove_all j s (k ∷ ks) =
      ground (arith, member-remove k j s, member-remove_all j (remove k s) ks)
