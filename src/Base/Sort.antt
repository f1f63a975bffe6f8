-- ===== src/Base/Sort.antt =====
-- `sort`, `sort_by` and `sort_by_key`: a stable sort by a comparison.
use elo_ranking_pairing_syst.Base.Tests.{if◌then◌else◌, Bool-cases}
use elo_ranking_pairing_syst.Base.Lists.{length, any}
use Prim.Native.Nat.{suc}
use mathlib.Core.Path.{◌≡◌, refl, ◌∙◌}
use mathlib.Core.Logic.{◌⊎◌, inl, inr}
use mathlib.Core.Bool.{Bool, true, ◌||◌}
use mathlib.Core.List.{List, [], ◌∷◌, Perm, Permᴰ, Mem, mem-cons_of_mem, mem-cons_self}
use mathlib.Core.List.Permᴰ
use mathlib.Core.List.Perm
use native.Mathlib.Omega.{arith}

module _ {ℓ} {A : Type ℓ} (le : A → A → Bool) where
  -- Before the first element that it does not follow.
  unfoldable pub place : A → List A → List A
  place x [] = x ∷ []
  place x (y ∷ ys) = if le x y then x ∷ y ∷ ys else y ∷ place x ys

  unfoldable pub sort_by : List A → List A
  unfolding place
  sort_by [] = []
  sort_by (x ∷ xs) = place x (sort_by xs)

  -- Each element is at most the next.
  abbrev pub IsSorted : List A → Type 0
  IsSorted [] = Unit
  IsSorted (x ∷ []) = Unit
  IsSorted (x ∷ y ∷ ys) = (le x y ≡ true) × IsSorted (y ∷ ys)

  pub place-perm : (x : A) (ys : List A) → Perm (place x ys) (x ∷ ys)
  unfolding place
  place-perm x [] = Perm.refl _
  place-perm x (y ∷ ys) = elim (Bool-cases (le x y)) [
    | inl e ↦ rw e (Perm.refl _)
    | inr e ↦ rw e (Perm.trans (Perm.cons y (place-perm x ys)) (Perm.swap x y ys))
  ]

  pub sort_by-perm : (xs : List A) → Perm (sort_by xs) xs
  unfolding sort_by
  sort_by-perm [] = Perm.refl _
  sort_by-perm (x ∷ xs) = Perm.trans (place-perm x (sort_by xs)) (Perm.cons x (sort_by-perm xs))

  any-place : (p : A → Bool) (x : A) (ys : List A) → any p (place x ys) ≡ p x || any p ys
  unfolding place
  any-place p x [] = refl
  any-place p x (y ∷ ys) = ground (arith, any-place p x ys)

  pub any-sort_by : (p : A → Bool) (xs : List A) → any p (sort_by xs) ≡ any p xs
  unfolding sort_by
  any-sort_by p [] = refl
  any-sort_by p (x ∷ xs) = ground (arith, any-place p x (sort_by xs), any-sort_by p xs)

  length-place : (x : A) (ys : List A) → length (place x ys) ≡ suc (length ys)
  unfolding place
  length-place x [] = refl
  length-place x (y ∷ ys) = ground (arith, length-place x ys)

  pub length-sort_by : (xs : List A) → length (sort_by xs) ≡ length xs
  unfolding sort_by
  length-sort_by [] = refl
  length-sort_by (x ∷ xs) = ground (arith, length-place x (sort_by xs), length-sort_by xs)

  module _ (total : (x y : A) → (le x y ≡ true) ⊎ (le y x ≡ true)) where
    place-IsSorted : (x : A) (ys : List A) → IsSorted ys → IsSorted (place x ys)
    unfolding place
    place-IsSorted x [] h = tt
    place-IsSorted x (y ∷ []) h = ground (arith, total x y)
    place-IsSorted x (y ∷ z ∷ zs) h =
        ground (arith, total x y, total x z, place-IsSorted x (z ∷ zs) h.1)

    pub sort_by-IsSorted : (xs : List A) → IsSorted (sort_by xs)
    unfolding sort_by
    sort_by-IsSorted [] = tt
    sort_by-IsSorted (x ∷ xs) = place-IsSorted x (sort_by xs) (sort_by-IsSorted xs)

    -- Elements that compare both ways are one: no ties.
    abbrev pub HasNoTies : List A → Type ℓ
    HasNoTies xs = (x y : A) → Mem x xs → Mem y xs → le x y ≡ true → le y x ≡ true → x ≡ y

    module _ (trans : (x y z : A) → le x y ≡ true → le y z ≡ true → le x z ≡ true) where
      place_comm :
          (x y : A) (zs : List A)
          → (le x y ≡ true → le y x ≡ true → x ≡ y)
          → place x (place y zs) ≡ place y (place x zs)
      unfolding place
      place_comm x y [] anti = ground (arith, total x y, anti)
      place_comm x y (z ∷ zs) anti = ground (
        arith,
        total x y,
        anti,
        trans x y z,
        trans y x z,
        total x z,
        total y z,
        place_comm x y zs anti,
      )

      -- Without ties the result depends on the elements alone, not on the order of arrival.
      pub sort_by-eq_of_perm :
          {xs ys : List A} → HasNoTies xs → Permᴰ xs ys → sort_by xs ≡ sort_by ys
      unfolding sort_by
      sort_by-eq_of_perm h Permᴰ.nil = refl
      sort_by-eq_of_perm h (Permᴰ.cons {a = a} {b = b} {l₁ = xs} e p) =
          let rest =
            sort_by-eq_of_perm {xs = xs}
              (λ x y mx my. h x y (mem-cons_of_mem a mx) (mem-cons_of_mem a my)) p in
          rw (e, rest)
      sort_by-eq_of_perm h (Permᴰ.swap {a = a} {b = b} {l = l} e f) =
          rw (← e, ← f)
            (place_comm a b (sort_by l) (h a b mem-cons_self (mem-cons_of_mem a mem-cons_self)))
      sort_by-eq_of_perm h (Permᴰ.trans p q) =
          sort_by-eq_of_perm h p
          ∙ sort_by-eq_of_perm
              (λ x y mx my. h x y (Permᴰ.mem (Permᴰ.symm p) mx) (Permᴰ.mem (Permᴰ.symm p) my)) q
