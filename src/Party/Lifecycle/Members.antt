-- ===== src/Party/Lifecycle/Members.antt =====
-- The member list: sorted insertion, removal, and the first member.
use elo_ranking_pairing_syst.Base.{
  ℕ, ◌≤◌, ◌<◌, ◌≡◌, refl, ◌≢◌, ◌⊎◌, inl, inr, Bool, true, false, not, ◌||◌, List, [], ◌∷◌, arith,
  ◌==◌, leb, contains, retain, All, first, unwrap_or,
}
use elo_ranking_pairing_syst.Base.Sort.{place, sort_by}

abbrev pub Ascending : List ℕ → Type 0
Ascending [] = Unit
Ascending (x ∷ xs) = All (λ y. x < y) xs × Ascending xs

All-place :
    (x y : ℕ) (ys : List ℕ) → x < y → All (λ z. x < z) ys → All (λ z. x < z) (place leb y ys)
unfolding place
All-place x y [] h a = (h, tt)
All-place x y (z ∷ zs) h a = ground (arith, All-place x y zs h a.1)

All-mono : (x y : ℕ) (ys : List ℕ) → x < y → All (λ z. y < z) ys → All (λ z. x < z) ys
All-mono x y [] h a = tt
All-mono x y (z ∷ zs) h a = (omega arith, All-mono x y zs h a.1)

Ascending-place :
    (x : ℕ) (ys : List ℕ) → contains x ys ≡ false → Ascending ys → Ascending (place leb x ys)
unfolding place
Ascending-place x [] h a = (tt, tt)
Ascending-place x (y ∷ ys) h a =
    ground (arith, Ascending-place x ys, All-place y x ys, All-mono x y ys)

place-front : (x : ℕ) (ys : List ℕ) → All (λ z. x < z) ys → place leb x ys ≡ x ∷ ys
unfolding place
place-front x [] a = refl
place-front x (y ∷ ys) a = ground arith

sort_by_id : (xs : List ℕ) → Ascending xs → sort_by leb xs ≡ xs
unfolding sort_by
sort_by_id [] a = refl
sort_by_id (x ∷ xs) a = rw (sort_by_id xs a.1) (place-front x xs a.0)

pub Ascending-join :
    (x : ℕ) (xs : List ℕ) → contains x xs ≡ false → Ascending xs → Ascending (sort_by leb (x ∷ xs))
unfolding sort_by
Ascending-join x xs h a = rw (sort_by_id xs a) (Ascending-place x xs h a)

contains-place : (y x : ℕ) (xs : List ℕ) → contains y (place leb x xs) ≡ (x == y) || contains y xs
unfolding place
contains-place y x [] = ground arith
contains-place y x (z ∷ zs) = ground (arith, contains-place y x zs)

contains-sort : (y : ℕ) (xs : List ℕ) → contains y (sort_by leb xs) ≡ contains y xs
unfolding sort_by
contains-sort y [] = refl
contains-sort y (x ∷ xs) = rw (contains-place y x (sort_by leb xs), contains-sort y xs)

pub contains-join :
    (y x : ℕ) (xs : List ℕ) → contains y (sort_by leb (x ∷ xs)) ≡ (x == y) || contains y xs
contains-join y x xs = contains-sort y (x ∷ xs)

All-retain :
    (x : ℕ) (q : ℕ → Bool) (xs : List ℕ) → All (λ z. x < z) xs → All (λ z. x < z) (retain q xs)
All-retain x q [] a = tt
All-retain x q (y ∷ ys) a = ground (arith, All-retain x q ys a.1)

pub Ascending-retain :
    (player : ℕ) (xs : List ℕ) → Ascending xs → Ascending (retain (λ id. not (id == player)) xs)
Ascending-retain player [] a = tt
Ascending-retain player (x ∷ xs) a =
    ground
      (arith, Ascending-retain player xs a.1, All-retain x (λ (id : ℕ). not (id == player)) xs a.0)

pub contains-retain :
    (y player : ℕ) (xs : List ℕ)
    → y ≢ player
    → contains y (retain (λ id. not (id == player)) xs) ≡ contains y xs
contains-retain y player [] h = refl
contains-retain y player (x ∷ xs) h = ground (arith, contains-retain y player xs h)

pub first-contains :
    (d : ℕ) (xs : List ℕ) → (xs ≡ []) ⊎ (contains (unwrap_or d (first xs)) xs ≡ true)
first-contains d [] = inl refl
first-contains d (x ∷ xs) = inr (ground arith)

All-le : (x : ℕ) (xs : List ℕ) → All (λ y. x < y) xs → All (λ y. x ≤ y) xs
All-le x [] a = tt
All-le x (y ∷ ys) a = (omega arith, All-le x ys a.1)

pub first_least : (d : ℕ) (xs : List ℕ) → Ascending xs → All (λ m. unwrap_or d (first xs) ≤ m) xs
first_least d [] a = tt
first_least d (x ∷ xs) a = (omega arith, All-le x xs a.0)
