-- ===== src/Base/Map/Laws.antt =====
-- What the operations of a map do to lookups, to sums over the values, and to distinctness.
use mathlib.Core.Option
use elo_ranking_pairing_syst.Base.{
  ℕ, ◌+◌, ◌≡◌, refl, ◌≢◌, none, some, [], ◌∷◌, arith, if◌then◌else◌,
}
use elo_ranking_pairing_syst.Base.Map.{
  Key, Map, keys, map_values, total, lookup, modify, put, insert, remove, IsMap,
}

module _ {ℓ κ} {K : Type ℓ} {V : Type κ} ⦃e : Key K⦄ where
  pub lookup-put :
      (k j : K) (v : V) (m : Map K V)
      → lookup k m ≡ none
      → lookup j (put k v m) ≡ (if e.beq k j then some v else lookup j m)
  unfolding lookup put
  lookup-put k j v [] h = refl
  lookup-put k j v ((i, w) ∷ m) h =
      ground (arith, e.beq_iff k j, e.beq_iff i j, e.beq_iff i k, lookup-put k j v m)

  pub lookup-modify :
      (k j : K) (f : V → V) (m : Map K V)
      → lookup j (modify k f m) ≡ (if e.beq k j then Option.map f (lookup j m) else lookup j m)
  unfolding lookup modify
  lookup-modify k j f [] = ground arith
  lookup-modify k j f ((i, w) ∷ m) =
      ground (arith, e.beq_iff k j, e.beq_iff i j, e.beq_iff i k, lookup-modify k j f m)

  pub lookup-insert :
      (k j : K) (v : V) (m : Map K V)
      → lookup j (insert k v m) ≡ (if e.beq k j then some v else lookup j m)
  unfolding insert
  lookup-insert k j v m =
      ground (arith, e.beq_iff k j, lookup-put k j v m, lookup-modify k j (λ (_ : V). v) m)

  pub lookup-remove_ne : (k j : K) (m : Map K V) → k ≢ j → lookup j (remove k m) ≡ lookup j m
  unfolding lookup remove
  lookup-remove_ne k j [] h = refl
  lookup-remove_ne k j ((i, w) ∷ m) h =
      ground (arith, e.beq_iff i j, e.beq_iff i k, lookup-remove_ne k j m h)

  pub lookup-remove_self : (k : K) (m : Map K V) → IsMap m → lookup k (remove k m) ≡ none
  unfolding lookup remove
  lookup-remove_self k [] h = refl
  lookup-remove_self k ((i, w) ∷ m) h = ground (arith, e.beq_iff i k, lookup-remove_self k m h.1)

  pub put-IsMap : (k : K) (v : V) (m : Map K V) → lookup k m ≡ none → IsMap m → IsMap (put k v m)
  unfolding lookup put
  put-IsMap k v [] h w = (refl, tt)
  put-IsMap k v ((i, x) ∷ m) h w =
      ground (arith, e.beq_iff i k, e.beq_iff k i, put-IsMap k v m, lookup-put k i v m)

  pub modify-IsMap : (k : K) (f : V → V) (m : Map K V) → IsMap m → IsMap (modify k f m)
  unfolding lookup modify
  modify-IsMap k f [] w = tt
  modify-IsMap k f ((i, x) ∷ m) w =
      ground (arith, e.beq_iff i k, e.beq_iff k i, modify-IsMap k f m, lookup-modify k i f m)

  pub remove-IsMap : (k : K) (m : Map K V) → IsMap m → IsMap (remove k m)
  unfolding lookup remove
  remove-IsMap k [] w = tt
  remove-IsMap k ((i, x) ∷ m) w =
      ground (arith, e.beq_iff i k, e.beq_iff k i, remove-IsMap k m, lookup-remove_ne k i m)

  pub insert-IsMap : (k : K) (v : V) (m : Map K V) → IsMap m → IsMap (insert k v m)
  unfolding insert
  insert-IsMap k v m w = ground (arith, put-IsMap k v m, modify-IsMap k (λ (_ : V). v) m w)

  pub total-put : (g : V → ℕ) (k : K) (v : V) (m : Map K V) → total g (put k v m) ≡ g v + total g m
  unfolding put
  total-put g k v [] = refl
  total-put g k v ((i, x) ∷ m) = ground (arith, total-put g k v m)

  pub total-modify :
      (g : V → ℕ) (k : K) (f : V → V) (v : V) (m : Map K V)
      → lookup k m ≡ some v
      → total g (modify k f m) + g v ≡ total g m + g (f v)
  unfolding lookup modify
  total-modify g k f v [] h = cc
  total-modify g k f v ((i, x) ∷ m) h = ground (arith, total-modify g k f v m)

  pub total-insert_new :
      (g : V → ℕ) (k : K) (v : V) (m : Map K V)
      → lookup k m ≡ none
      → total g (insert k v m) ≡ g v + total g m
  unfolding insert
  total-insert_new g k v m h = ground (arith, total-put g k v m)

  pub total-remove :
      (g : V → ℕ) (k : K) (v : V) (m : Map K V)
      → lookup k m ≡ some v
      → total g (remove k m) + g v ≡ total g m
  unfolding lookup remove
  total-remove g k v [] h = cc
  total-remove g k v ((i, x) ∷ m) h = ground (arith, total-remove g k v m)

  pub remove_absent : (k : K) (m : Map K V) → lookup k m ≡ none → remove k m ≡ m
  unfolding lookup remove
  remove_absent k [] h = refl
  remove_absent k ((i, x) ∷ m) h = ground (arith, remove_absent k m)

  pub lookup-map_values :
      (k : K) (f : V → V) (m : Map K V) → lookup k (map_values f m) ≡ Option.map f (lookup k m)
  unfolding lookup
  lookup-map_values k f [] = refl
  lookup-map_values k f ((i, x) ∷ m) = ground (arith, lookup-map_values k f m)

  pub map_values-IsMap : (f : V → V) (m : Map K V) → IsMap m → IsMap (map_values f m)
  map_values-IsMap f [] w = tt
  map_values-IsMap f ((i, x) ∷ m) w =
      ground (arith, lookup-map_values i f m, map_values-IsMap f m w.1)

  pub keys-modify : (k : K) (f : V → V) (m : Map K V) → keys (modify k f m) ≡ keys m
  unfolding modify
  keys-modify k f [] = refl
  keys-modify k f ((i, x) ∷ m) = ground (arith, keys-modify k f m)

  pub remove-put : (k : K) (v : V) (m : Map K V) → lookup k m ≡ none → remove k (put k v m) ≡ m
  unfolding lookup put remove
  remove-put k v [] h = ground (arith, e.beq_iff k k)
  remove-put k v ((i, x) ∷ m) h = ground (arith, e.beq_iff k k, remove-put k v m)

  -- What was inserted under a new key is taken out again.
  pub remove-insert_new :
      (k : K) (v : V) (m : Map K V) → lookup k m ≡ none → remove k (insert k v m) ≡ m
  unfolding insert
  remove-insert_new k v m h = ground (arith, remove-put k v m)

  pub modify-modify :
      (k : K) (f g : V → V) (m : Map K V) → modify k g (modify k f m) ≡ modify k (λ v. g (f v)) m
  unfolding modify
  modify-modify k f g [] = refl
  modify-modify k f g ((i, x) ∷ m) = ground (arith, modify-modify k f g m)

  -- A change that is none at the value in place changes nothing.
  pub modify_id :
      (k : K) (f : V → V) (v : V) (m : Map K V) → lookup k m ≡ some v → f v ≡ v → modify k f m ≡ m
  unfolding lookup modify
  modify_id k f v [] h p = refl
  modify_id k f v ((i, x) ∷ m) h p = ground (arith, modify_id k f v m)
