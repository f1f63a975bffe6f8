-- ===== src/Authority/Rebuild/Joins.antt =====
-- What joins of a world give, whatever the order of its entities (core/src/grpc/mod.rs).
use mathlib.Core.List.{Permᴰ}
use mathlib.Core.List.Permᴰ
use elo_ranking_pairing_syst.Base.{
  ℕ, ◌≡◌, refl, subst, Bool, ◌==◌, ==_iff, ◌||◌, Option, none, some, List, [], ◌∷◌, ◌++◌, map, any,
  All, false, if_some, if◌then◌else◌, arith, Option-cases, inl, inr,
}
use elo_ranking_pairing_syst.Base.Map.{Map, lookup, insert, nat_key}
use elo_ranking_pairing_syst.Base.Map.Laws.{lookup-insert}
use elo_ranking_pairing_syst.World.{Entity}
use elo_ranking_pairing_syst.Authority.Rebuild.{dedup, filter_map, collect_by}

module _ {ℓ} {A : Type ℓ} where
  pub append_nil : (xs : List A) → xs ++ [] ≡ xs
  append_nil [] = refl
  append_nil (x ∷ xs) = ground (arith, append_nil xs)

  pub any-append : (p : A → Bool) (xs ys : List A) → any p (xs ++ ys) ≡ any p xs || any p ys
  any-append p [] ys = refl
  any-append p (x ∷ xs) ys = ground (arith, any-append p xs ys)

  pub any-perm : (p : A → Bool) {xs ys : List A} → Permᴰ xs ys → any p xs ≡ any p ys
  any-perm p Permᴰ.nil = refl
  any-perm p (Permᴰ.cons e d) = ground (arith, any-perm p d, e)
  any-perm p (Permᴰ.swap e f) = ground (arith, e, f)
  any-perm p (Permᴰ.trans c d) = ground (arith, any-perm p c, any-perm p d)

  pub All-append {κ} : (P : A → Type κ) (xs ys : List A) → All P xs → All P ys → All P (xs ++ ys)
  All-append P [] ys h k = k
  All-append P (x ∷ xs) ys (h, hs) k = (h, All-append P xs ys hs k)

  pub All-perm {κ} : (P : A → Type κ) {xs ys : List A} → Permᴰ xs ys → All P xs → All P ys
  All-perm P Permᴰ.nil h = tt
  All-perm P (Permᴰ.cons e d) (h, hs) = (subst P e h, All-perm P d hs)
  All-perm P (Permᴰ.swap e f) (h, (k, hs)) = (subst P f k, (subst P e h, hs))
  All-perm P (Permᴰ.trans c d) h = All-perm P d (All-perm P c h)

pub filter_map-perm :
    {A B : Type 0} (f : A → Option B) {xs ys : List A}
    → Permᴰ xs ys
    → Permᴰ (filter_map f xs) (filter_map f ys)
unfolding filter_map
filter_map-perm f Permᴰ.nil = Permᴰ.nil
filter_map-perm f (Permᴰ.cons {b = b} e d) = elim (Option-cases (f b)) [
  | inl n ↦ rw (e, n) (filter_map-perm f d)
  | inr (v, n) ↦ rw (e, n) (Permᴰ.cons refl (filter_map-perm f d))
]
filter_map-perm f (Permᴰ.swap {a' = a} {b' = b} {l = l} e g) = elim (Option-cases (f a)) [
  | inl n ↦ elim (Option-cases (f b)) [
    | inl k ↦ rw (e, g, n, k) (Permᴰ.refl (filter_map f l))
    | inr (w, k) ↦ rw (e, g, n, k) (Permᴰ.refl (w ∷ filter_map f l))
  ]
  | inr (v, n) ↦ elim (Option-cases (f b)) [
    | inl k ↦ rw (e, g, n, k) (Permᴰ.refl (v ∷ filter_map f l))
    | inr (w, k) ↦ rw (e, g, n, k) (Permᴰ.swap refl refl)
  ]
]
filter_map-perm f (Permᴰ.trans c d) = Permᴰ.trans (filter_map-perm f c) (filter_map-perm f d)

pub filter_map-append :
    {A B : Type 0} (f : A → Option B) (xs ys : List A)
    → filter_map f (xs ++ ys) ≡ filter_map f xs ++ filter_map f ys
unfolding filter_map
filter_map-append f [] ys = refl
filter_map-append f (x ∷ xs) ys = ground (arith, filter_map-append f xs ys)

-- Entities of another kind are not in the join.
pub filter_map-none :
    {A B C : Type 0} (f : A → Option B) (g : C → A) (xs : List C)
    → ((x : C) → f (g x) ≡ none)
    → filter_map f (map g xs) ≡ []
unfolding filter_map
filter_map-none f g [] h = refl
filter_map-none f g (x ∷ xs) h = ground (arith, h x, filter_map-none f g xs h)

pub any-map :
    {A C : Type 0} (p : A → Bool) (g : C → A) (q : C → Bool) (xs : List C)
    → ((x : C) → p (g x) ≡ q x)
    → any p (map g xs) ≡ any q xs
any-map p g q [] h = refl
any-map p g q (x ∷ xs) h = ground (arith, h x, any-map p g q xs h)

pub any-none :
    {A C : Type 0} (p : A → Bool) (g : C → A) (xs : List C)
    → ((x : C) → p (g x) ≡ false)
    → any p (map g xs) ≡ false
any-none p g [] h = refl
any-none p g (x ∷ xs) h = ground (arith, h x, any-none p g xs h)

pub All-map :
    {A C : Type 0} (P : A → Type 0) (g : C → A) (xs : List C)
    → ((x : C) → P (g x))
    → All P (map g xs)
All-map P g [] h = tt
All-map P g (x ∷ xs) h = (h x, All-map P g xs h)

pub map_agree :
    {A B : Type 0} (f g : A → B) (xs : List A) → ((x : A) → f x ≡ g x) → map f xs ≡ map g xs
map_agree f g [] h = refl
map_agree f g (x ∷ xs) h = ground (arith, h x, map_agree f g xs h)

-- Whether an entity has a key in a join, and that the value is what the key has.
abbrev pub names : {V : Type 0} → (Entity → Option (ℕ × V)) → ℕ → Entity → Bool
names read k e = if_some (read e) (λ x. x.0 == k) false

abbrev pub IsOf : {V : Type 0} → (Entity → Option (ℕ × V)) → (ℕ → V) → Entity → Type 0
IsOf read value e = if_some (read e) (λ x. x.1 ≡ value x.0) Unit

-- What is collected of a key, if entities of one key have one value.
pub lookup-collect_by :
    {V : Type 0} (read : Entity → Option (ℕ × V)) (value : ℕ → V) (k : ℕ) (es : List Entity)
    (collected : Map ℕ V)
    → All (IsOf read value) es
    → lookup k (collect_by read es collected)
      ≡ (if any (names read k) es then some (value k) else lookup k collected)
unfolding collect_by
lookup-collect_by read value k [] collected h = refl
lookup-collect_by read value k (e ∷ es) collected (h, hs) = elim (Option-cases (read e)) [
  | inl n ↦ rw n (lookup-collect_by read value k es collected hs)
  | inr ((j, v), n) ↦
      let next = insert j v collected in
      ground (
        arith,
        n,
        h,
        lookup-collect_by read value k es next hs,
        lookup-insert j k v collected,
        ==_iff j k,
      )
]

pub any-dedup : (k : ℕ) (xs : List ℕ) → any (λ x. x == k) (dedup xs) ≡ any (λ x. x == k) xs
unfolding dedup
any-dedup k [] = refl
any-dedup k (x ∷ []) = refl
any-dedup k (x ∷ y ∷ ys) = ground (arith, any-dedup k (y ∷ ys), ==_iff x y)
