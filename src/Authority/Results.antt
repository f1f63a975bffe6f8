-- ===== src/Authority/Results.antt =====
-- The memory of applied results (`remember_completed_match_result` of core/src/grpc/mod.rs).
use elo_ranking_pairing_syst.Base.{
  ℕ, ◌≤◌, ◌<◌, ◌≡◌, refl, true, false, ◌||◌, ◌==◌, ==_iff, List, [], ◌∷◌, ◌++◌, length,
  length-append, ltb, arith, Bool-cases, inl, inr,
}
use elo_ranking_pairing_syst.Base.Map.{nat_key}
use elo_ranking_pairing_syst.Base.Set as Set
use elo_ranking_pairing_syst.Authority.{
  Completed, result_limit, forget_oldest, remember_completed_match_result, remember_all,
}

-- Each once.
abbrev pub IsDistinct : List ℕ → Type 0
IsDistinct [] = Unit
IsDistinct (x ∷ xs) = (Set.member x xs ≡ false) × IsDistinct xs

-- The set and the queue hold the same results, each once in the queue.
abbrev pub IsAligned : Completed → Type 0
IsAligned c = ((j : ℕ) → Set.member j c.results ≡ Set.member j c.order) × IsDistinct c.order

member-append : (j k : ℕ) (xs : List ℕ) → Set.member j (xs ++ k ∷ []) ≡ Set.member j xs || (k == j)
unfolding Set.member
member-append j k [] = ground arith
member-append j k (x ∷ xs) = ground (arith, member-append j k xs)

append-IsDistinct :
    (xs : List ℕ) (k : ℕ) → IsDistinct xs → Set.member k xs ≡ false → IsDistinct (xs ++ k ∷ [])
unfolding Set.member
append-IsDistinct [] k h n = (refl, tt)
append-IsDistinct (x ∷ xs) k (m, h) n = (
  ground (arith, member-append x k xs, ==_iff x k, ==_iff k x),
  append-IsDistinct xs k h (ground arith),
)

forget_oldest-IsAligned :
    (s o : List ℕ)
    → ((j : ℕ) → Set.member j s ≡ Set.member j o)
    → IsDistinct o
    → IsAligned (forget_oldest s o)
unfolding forget_oldest Set.member
forget_oldest-IsAligned s [] same d = (same, d)
forget_oldest-IsAligned s (x ∷ rest) same (new, d) =
    ((λ j. ground (arith, Set.member-remove x j s, same j, ==_iff x j, new)), d)

kept_newest :
    (s o : List ℕ) (m : ℕ)
    → Set.member m s ≡ true
    → Set.member m o ≡ false
    → 0 < length o
    → (Set.member m (forget_oldest s (o ++ m ∷ [])).results ≡ true)
      × (length (forget_oldest s (o ++ m ∷ [])).order ≡ length o)
unfolding forget_oldest Set.member
kept_newest s [] m h n l = ground (arith, l)
kept_newest s (x ∷ o) m h n l =
    (ground (arith, Set.member-remove x m s, ==_iff x m), ground (arith, length-append o (m ∷ [])))

-- One result, in the three cases.
pub remember-IsAligned :
    (c : Completed) (m : ℕ)
    → IsAligned c
    → length c.order ≤ result_limit
    → IsAligned (remember_completed_match_result c m)
      × (length (remember_completed_match_result c m).order ≤ result_limit)
      × (Set.member m (remember_completed_match_result c m).results ≡ true)
unfolding remember_completed_match_result
remember-IsAligned c m (same, d) l = elim (Bool-cases (Set.member m c.results)) [
  | inl e ↦ rw e (elim (Bool-cases (ltb result_limit (length c.order))) [
    | inl f ↦ ground (arith, f, l)
    | inr f ↦ rw f ((same, d), l, e)
  ])
  | inr e ↦
      let s = Set.insert m c.results in
      let o = c.order ++ m ∷ [] in
      let grown = length-append c.order (m ∷ []) in
      let joint : (j : ℕ) → Set.member j s ≡ Set.member j o =
        λ j. ground (arith, Set.member-insert m j c.results, member-append j m c.order, same j) in
      let once = append-IsDistinct c.order m d (ground (arith, same m)) in
      rw e (elim (Bool-cases (ltb result_limit (length o))) [
        | inl f ↦
            let kept =
              kept_newest s c.order m (ground (arith, Set.member-insert m m c.results, ==_iff m m))
                (ground (arith, same m)) (ground (arith, f, grown)) in
            rw f (forget_oldest-IsAligned s o joint once, ground (arith, kept.1, l), kept.0)
        | inr f ↦ rw f (
          (joint, once),
          ground (arith, f),
          ground (arith, Set.member-insert m m c.results, ==_iff m m),
        )
      ])
]

-- Of the results that were applied, the set and the queue hold the same, each once, at most 4096 of
-- them, whatever results come, repeated ones included; and the last one is always remembered.
pub remember_all-IsAligned :
    (ms : List ℕ) (m : ℕ) (c : Completed)
    → IsAligned c
    → length c.order ≤ result_limit
    → IsAligned (remember_all c ms)
      × (length (remember_all c ms).order ≤ result_limit)
      × (Set.member m (remember_completed_match_result (remember_all c ms) m).results ≡ true)
remember_all-IsAligned [] m c h l = (h, l, (remember-IsAligned c m h l).2)
remember_all-IsAligned (n ∷ ms) m c h l =
    let next = remember-IsAligned c n h l in
    remember_all-IsAligned ms m (remember_completed_match_result c n) next.0 next.1
