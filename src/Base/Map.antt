-- ===== src/Base/Map.antt =====
-- `BTreeMap` as an association list in key order with distinct keys.
pub mod Laws
use Prim.Native.Nat.{ℕ, suc, ◌+◌}
use mathlib.Core.Path.{◌≡◌, refl}
use mathlib.Core.Logic.{◌↔◌, ◌≢◌}
use mathlib.Core.Bool.{Bool, true, false, ◌&&◌, ◌||◌}
use mathlib.Core.Option.{Option, none, some}
use mathlib.Core.List.{List, [], ◌∷◌, map}
use native.Mathlib.Omega.{arith}
use elo_ranking_pairing_syst.Base.Tests.{if◌then◌else◌, ◌==◌, ==_iff, ltb, is_some}
use elo_ranking_pairing_syst.Base.Lists.{length}
use elo_ranking_pairing_syst.Base.Text.{Text, text_eq, text_lt, text_eq_iff}

-- Keys: a decidable equality, and the order in which entries are kept.
pub record Key {ℓ} (K : Type ℓ) : Type ℓ where
  pub beq : K → K → Bool
  pub lt : K → K → Bool
  pub beq_iff : (a b : K) → (beq a b ≡ true) ↔ (a ≡ b)

instance abbrev pub nat_key : Key ℕ
nat_key = record { beq = ◌==◌; lt = ltb; beq_iff = ==_iff }

instance abbrev pub text_key : Key Text
text_key = record { beq = text_eq; lt = text_lt; beq_iff = text_eq_iff }

abbrev pub Map {ℓ κ} : Type ℓ → Type κ → Type (ℓ ⊔ κ)
Map K V = List (K × V)

module _ {ℓ κ} {K : Type ℓ} {V : Type κ} where
  abbrev pub values : Map K V → List V
  values [] = []
  values ((k, v) ∷ m) = v ∷ values m

  abbrev pub keys : Map K V → List K
  keys [] = []
  keys ((k, v) ∷ m) = k ∷ keys m

  -- `for v in values_mut()`
  abbrev pub map_values : (V → V) → Map K V → Map K V
  map_values f [] = []
  map_values f ((k, v) ∷ m) = (k, f v) ∷ map_values f m

  -- The sum of a measure of the values.
  abbrev pub total : (V → ℕ) → Map K V → ℕ
  total f [] = 0
  total f ((k, v) ∷ m) = f v + total f m

module _ {ℓ κ} {K : Type ℓ} {V : Type κ} ⦃e : Key K⦄ where
  unfoldable pub lookup : K → Map K V → Option V
  lookup k [] = none
  lookup k ((j, v) ∷ m) = if e.beq j k then some v else lookup k m

  -- `if let Some(v) = m.get_mut(k) { *v = f(v) }`
  unfoldable pub modify : K → (V → V) → Map K V → Map K V
  modify k f [] = []
  modify k f ((j, v) ∷ m) = if e.beq j k then (j, f v) ∷ m else (j, v) ∷ modify k f m

  -- A new key, in its place.
  unfoldable pub put : K → V → Map K V → Map K V
  put k v [] = (k, v) ∷ []
  put k v ((j, w) ∷ m) = if e.lt k j then (k, v) ∷ (j, w) ∷ m else (j, w) ∷ put k v m

  unfoldable pub insert : K → V → Map K V → Map K V
  insert k v m = if is_some (lookup k m) then modify k (λ _. v) m else put k v m

  unfoldable pub remove : K → Map K V → Map K V
  remove k [] = []
  remove k ((j, v) ∷ m) = if e.beq j k then m else (j, v) ∷ remove k m

  abbrev pub contains_key : K → Map K V → Bool
  contains_key k m = is_some (lookup k m)

  -- Distinct keys.
  abbrev pub IsMap : Map K V → Type κ
  IsMap [] = Unit
  IsMap ((k, v) ∷ m) = (lookup k m ≡ none) × IsMap m
