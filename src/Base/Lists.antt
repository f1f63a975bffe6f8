-- ===== src/Base/Lists.antt =====
-- Lists measured by native numbers, and the Boolean iterators of the source.
use Prim.Native.Nat.{ℕ, zero, suc, ◌+◌, ◌≤◌}
use mathlib.Core.Path.{◌≡◌, refl, ap, ◌∙◌}
use mathlib.Core.Bool.{Bool, true, false, ◌&&◌, ◌||◌}
use mathlib.Core.List.{List, [], ◌∷◌, ◌++◌, map}
use mathlib.Core.Option.{Option, none, some}
use native.Mathlib.Omega.{arith}
use elo_ranking_pairing_syst.Base.Tests.{if◌then◌else◌, ◌==◌}

module _ {ℓ} {A : Type ℓ} where
  abbrev pub length : List A → ℕ
  length [] = 0
  length (x ∷ xs) = suc (length xs)

  abbrev pub get_elem? : List A → ℕ → Option A
  get_elem? [] i = none
  get_elem? (x ∷ xs) zero = some x
  get_elem? (x ∷ xs) (suc i) = get_elem? xs i

  -- `Iterator::any`, `Iterator::all`
  abbrev pub any : (A → Bool) → List A → Bool
  any p [] = false
  any p (x ∷ xs) = p x || any p xs

  abbrev pub all : (A → Bool) → List A → Bool
  all p [] = true
  all p (x ∷ xs) = p x && all p xs

  -- `Vec::retain` and `Iterator::filter`
  abbrev pub retain : (A → Bool) → List A → List A
  retain p [] = []
  retain p (x ∷ xs) = if p x then x ∷ retain p xs else retain p xs

  abbrev pub is_empty : List A → Bool
  is_empty [] = true
  is_empty (x ∷ xs) = false

  -- `slice::first`
  abbrev pub first : List A → Option A
  first [] = none
  first (x ∷ xs) = some x

  -- A predicate that holds of every element.
  abbrev pub All {κ} : (A → Type κ) → List A → Type κ
  All P [] = Unit
  All P (x ∷ xs) = P x × All P xs

  pub length-append : (xs ys : List A) → length (xs ++ ys) ≡ length xs + length ys
  length-append [] ys = omega arith
  length-append (x ∷ xs) ys = omega (arith, length-append xs ys)

  pub length-retain-le : (p : A → Bool) (xs : List A) → length (retain p xs) ≤ length xs
  length-retain-le p [] = omega arith
  length-retain-le p (x ∷ xs) = ground (arith, length-retain-le p xs)

abbrev pub sum : List ℕ → ℕ
sum [] = 0
sum (x ∷ xs) = x + sum xs

-- `contains` on a vector of identifiers.
abbrev pub contains : ℕ → List ℕ → Bool
contains a [] = false
contains a (x ∷ xs) = (x == a) || contains a xs

pub length-map {ℓ κ} :
    {A : Type ℓ} {B : Type κ} (f : A → B) (xs : List A) → length (map f xs) ≡ length xs
length-map f [] = refl
length-map f (x ∷ xs) = ap suc (length-map f xs)

-- `for x in xs { f(x) }`, with the state passed on.
abbrev pub for_each {ℓ κ} : {A : Type ℓ} {S : Type κ} → (A → S → S) → List A → S → S
for_each f [] s = s
for_each f (x ∷ xs) s = for_each f xs (f x s)

-- What one turn of a loop keeps, the loop keeps.
pub for_each_keeps {ℓ κ ι} :
    {A : Type ℓ} {S : Type κ} {P : Type ι} (view : S → P) (f : A → S → S)
    → ((x : A) (s : S) → view (f x s) ≡ view s)
    → (xs : List A) (s : S) → view (for_each f xs s) ≡ view s
for_each_keeps view f h [] s = refl
for_each_keeps view f h (x ∷ xs) s = for_each_keeps view f h xs (f x s) ∙ h x s

-- What one turn of a loop preserves, the loop preserves.
pub for_each_preserves {ℓ κ ι} :
    {A : Type ℓ} {S : Type κ} (P : S → Type ι) (f : A → S → S)
    → ((x : A) (s : S) → P s → P (f x s))
    → (xs : List A) (s : S) → P s
    → P (for_each f xs s)
for_each_preserves P f h [] s p = p
for_each_preserves P f h (x ∷ xs) s p = for_each_preserves P f h xs (f x s) (h x s p)
