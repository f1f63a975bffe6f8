-- ===== src/Base/Order.antt =====
-- The derived order of tuples and lists, as comparisons for the sorts.
use elo_ranking_pairing_syst.Base.Tests.{leb, if◌then◌else◌}
use elo_ranking_pairing_syst.Base.Int.{ℤ, leb_ℤ}
use elo_ranking_pairing_syst.Base.Text.{Text}
use Prim.Native.Nat.{ℕ}
use mathlib.Core.Path.{◌≡◌, refl}
use mathlib.Core.Logic.{◌⊎◌, inl, inr}
use mathlib.Core.Bool.{Bool, true, false}
use mathlib.Core.List.{[], ◌∷◌}
use native.Mathlib.Omega.{arith}

-- A total preorder that is decided.
pub record Order {ℓ} (A : Type ℓ) : Type ℓ where
  pub le : A → A → Bool
  pub total : (x y : A) → (le x y ≡ true) ⊎ (le y x ≡ true)
  pub trans : (x y z : A) → le x y ≡ true → le y z ≡ true → le x z ≡ true

pub leb_total : (x y : ℕ) → (leb x y ≡ true) ⊎ (leb y x ≡ true)
leb_total x y = ground arith

pub leb_trans : (x y z : ℕ) → leb x y ≡ true → leb y z ≡ true → leb x z ≡ true
leb_trans x y z h k = ground arith

abbrev pub nat_order : Order ℕ
nat_order = record { le = leb; total = leb_total; trans = leb_trans }

pub leb_ℤ_total : (x y : ℤ) → (leb_ℤ x y ≡ true) ⊎ (leb_ℤ y x ≡ true)
leb_ℤ_total x y = ground arith

pub leb_ℤ_trans : (x y z : ℤ) → leb_ℤ x y ≡ true → leb_ℤ y z ≡ true → leb_ℤ x z ≡ true
leb_ℤ_trans x y z h k = ground arith

abbrev pub int_order : Order ℤ
int_order = record { le = leb_ℤ; total = leb_ℤ_total; trans = leb_ℤ_trans }

unfoldable pub text_le : Text → Text → Bool
text_le [] t = true
text_le (a ∷ s) [] = false
text_le (a ∷ s) (b ∷ t) =
    let rest = text_le s t in if leb a b then (if leb b a then rest else true) else false

pub text_le_total : (s t : Text) → (text_le s t ≡ true) ⊎ (text_le t s ≡ true)
unfolding text_le
text_le_total [] t = inl refl
text_le_total (a ∷ s) [] = inr refl
text_le_total (a ∷ s) (b ∷ t) = ground (arith, text_le_total s t)

pub text_le_trans : (s t u : Text) → text_le s t ≡ true → text_le t u ≡ true → text_le s u ≡ true
unfolding text_le
text_le_trans [] t u h k = refl
text_le_trans (a ∷ s) [] u h k = cc
text_le_trans (a ∷ s) (b ∷ t) [] h k = cc
text_le_trans (a ∷ s) (b ∷ t) (c ∷ u) h k = ground (arith, text_le_trans s t u)

-- Texts, and vectors of identifiers.
abbrev pub text_order : Order Text
text_order = record { le = text_le; total = text_le_total; trans = text_le_trans }

module _ {ℓ κ} {A : Type ℓ} {B : Type κ} (o : Order A) (p : Order B) where
  abbrev pub lex_le : A × B → A × B → Bool
  lex_le (a, b) (c, d) = if o.le a c then (if o.le c a then p.le b d else true) else false

  pub lex_total : (x y : A × B) → (lex_le x y ≡ true) ⊎ (lex_le y x ≡ true)
  lex_total (a, b) (c, d) = ground (arith, o.total a c, p.total b d)

  pub lex_trans : (x y z : A × B) → lex_le x y ≡ true → lex_le y z ≡ true → lex_le x z ≡ true
  lex_trans (a, b) (c, d) (e, f) h k =
      ground (arith, o.trans a c e, o.trans e a c, o.trans c e a, p.trans b d f)

  -- First by the one, then by the other.
  abbrev pub lex : Order (A × B)
  lex = record { le = lex_le; total = lex_total; trans = lex_trans }

-- By a key.
abbrev pub on {ℓ κ} : {A : Type ℓ} {B : Type κ} → (B → A) → Order A → Order B
on key o = record {
  le = λ x y. o.le (key x) (key y);
  total = λ x y. o.total (key x) (key y);
  trans = λ x y z. o.trans (key x) (key y) (key z);
}
