-- ===== src/Base/Every.antt =====
-- What holds of every element of a list, under the operations on lists.
use mathlib.Core.Path.{◌≡◌}
use mathlib.Core.Bool.{Bool, true}
use mathlib.Core.List.{List, [], ◌∷◌, ◌++◌, map, Mem, mem-cons_self, mem-cons_of_mem}
use mathlib.Core.Logic.{inl, inr}
use elo_ranking_pairing_syst.Base.Tests.{Bool-cases}
use elo_ranking_pairing_syst.Base.Lists.{All, retain}
use elo_ranking_pairing_syst.Base.Sort.{place, sort_by}

module _ {ℓ κ} {A : Type ℓ} (P : A → Type κ) where
  pub every_mono {ι} :
      (Q : A → Type ι) → ((x : A) → P x → Q x) → (xs : List A) → All P xs → All Q xs
  every_mono Q f [] h = tt
  every_mono Q f (x ∷ xs) (p, h) = (f x p, every_mono Q f xs h)

  pub All-retain :
      (p : A → Bool) (xs : List A) → All P xs → All (λ x. (p x ≡ true) × P x) (retain p xs)
  All-retain p [] h = tt
  All-retain p (x ∷ xs) (px, h) = elim (Bool-cases (p x)) [
    | inl e ↦ rw e ((e, px), All-retain p xs h)
    | inr e ↦ rw e (All-retain p xs h)
  ]

  pub All-append : (xs ys : List A) → All P xs → All P ys → All P (xs ++ ys)
  All-append [] ys h k = k
  All-append (x ∷ xs) ys (p, h) k = (p, All-append xs ys h k)

  All-place : (le : A → A → Bool) (x : A) (ys : List A) → P x → All P ys → All P (place le x ys)
  unfolding place
  All-place le x [] p h = (p, tt)
  All-place le x (y ∷ ys) p (q, h) = elim (Bool-cases (le x y)) [
    | inl e ↦ rw e (p, (q, h))
    | inr e ↦ rw e (q, All-place le x ys p h)
  ]

  pub All-sort_by : (le : A → A → Bool) (xs : List A) → All P xs → All P (sort_by le xs)
  unfolding sort_by
  All-sort_by le [] h = tt
  All-sort_by le (x ∷ xs) (p, h) = All-place le x (sort_by le xs) p (All-sort_by le xs h)

  pub every_of_mem : (xs : List A) → ((x : A) → Mem x xs → P x) → All P xs
  every_of_mem [] f = tt
  every_of_mem (x ∷ xs) f = (f x mem-cons_self, every_of_mem xs (λ y m. f y (mem-cons_of_mem x m)))

-- With membership as a second fact.
pub every_with_mem {ℓ κ} :
    {A : Type ℓ} (P : A → Type κ) (xs : List A) → All P xs → All (λ x. Mem x xs × P x) xs
every_with_mem P [] h = tt
every_with_mem P (x ∷ xs) (p, h) = (
  (mem-cons_self, p),
  every_mono (λ y. Mem y xs × P y) (λ y. Mem y (x ∷ xs) × P y) (λ y q. (mem-cons_of_mem x q.0, q.1))
      xs (every_with_mem P xs h),
)

pub All-map {ℓ κ ι} :
    {A : Type ℓ} {B : Type κ} (P : B → Type ι) (f : A → B) (xs : List A)
    → All (λ x. P (f x)) xs
    → All P (map f xs)
All-map P f [] h = tt
All-map P f (x ∷ xs) (p, h) = (p, All-map P f xs h)
