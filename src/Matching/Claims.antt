-- ===== src/Matching/Claims.antt =====
-- core/src/matching/claim.rs: which tickets are taken by a proposal.
use elo_ranking_pairing_syst.Base.{
  ℕ, ◌≡◌, refl, inl, inr, Bool, true, false, not, ◌||◌, List, [], ◌∷◌, arith, leb, if◌then◌else◌,
  any, Bool-cases, ◌==◌, ==_iff,
}
use elo_ranking_pairing_syst.Base.Map.{nat_key}
use elo_ranking_pairing_syst.Base.Set as Set
use elo_ranking_pairing_syst.Base.Sort.{place, sort_by}
use elo_ranking_pairing_syst.Matching.{Candidate, stable_ticket_ids}

-- `Claims.active`
abbrev pub Claims : Type 0
Claims = List ℕ

unfoldable pub commit : Claims → Candidate → (ℕ → Bool) → Claims × Bool
commit active c valid =
    let ids = stable_ticket_ids c in
    if any (λ id. Set.member id active || not (valid id)) ids
    then (active, false)
    else (Set.extend active ids, true)

unfoldable pub release : Claims → List ℕ → Claims
release active ids = Set.remove_all active ids

member-place : (j k : ℕ) (ks : List ℕ) → Set.member j (place leb k ks) ≡ (k == j) || Set.member j ks
unfolding place Set.member
member-place j k [] = refl
member-place j k (i ∷ ks) = ground (arith, member-place j k ks)

member-sort_by : (j : ℕ) (ks : List ℕ) → Set.member j (sort_by leb ks) ≡ Set.member j ks
unfolding sort_by
member-sort_by j [] = refl
member-sort_by j (k ∷ ks) =
    ground (arith, member-place j k (sort_by leb ks), member-sort_by j ks, step)
  where
    step : Set.member j (k ∷ ks) ≡ (k == j) || Set.member j ks
    step = unfold Set.member in refl

none_such :
    (p : ℕ → Bool) (ks : List ℕ) (j : ℕ) → any p ks ≡ false → Set.member j ks ≡ true → p j ≡ false
unfolding Set.member
none_such p [] j h k = cc
none_such p (i ∷ ks) j h k = ground (arith, none_such p ks j, ==_iff i j)

one_such :
    (p : ℕ → Bool) (ks : List ℕ)
    → any p ks ≡ true
    → (j : ℕ) × (Set.member j ks ≡ true) × (p j ≡ true)
unfolding Set.member
one_such p [] h = cc
one_such p (i ∷ ks) h = elim (Bool-cases (p i)) [
  | inl e ↦ (i, ground arith, e)
  | inr e ↦ let (j, m, q) = one_such p ks (ground arith) in (j, ground arith, q)
]

-- A claim is all or nothing. If it succeeds, no ticket of the candidate was taken and each was
-- valid, and exactly the candidate's tickets are taken besides the former ones. If it fails,
-- nothing changes, and some ticket of the candidate was taken or invalid.
pub commit_lem :
    (active : Claims) (c : Candidate) (valid : ℕ → Bool)
    → ((commit active c valid).1 ≡ true
        → ((j : ℕ)
            → Set.member j c.tickets ≡ true
            → (Set.member j active ≡ false) × (valid j ≡ true))
          × ((j : ℕ)
              → Set.member j (commit active c valid).0
                ≡ Set.member j active || Set.member j c.tickets))
      × ((commit active c valid).1 ≡ false
          → ((commit active c valid).0 ≡ active)
            × ((j : ℕ) × (Set.member j c.tickets ≡ true)
                × ((Set.member j active || not (valid j)) ≡ true)))
unfolding commit stable_ticket_ids
commit_lem active c valid =
    let p = λ (id : ℕ). Set.member id active || not (valid id) in
    let ids = sort_by leb c.tickets in
    elim (Bool-cases (any p ids)) [
      | inl e ↦
          let (j, m, q) = one_such p ids e in
          (rw e (λ r. cc), rw e (λ r. (refl, (j, rw (← member-sort_by j c.tickets) m, q))))
      | inr e ↦ (
        rw e (λ r. (
          λ j m. ground (arith, none_such p ids j e, member-sort_by j c.tickets),
          λ j. ground (arith, Set.member-extend j active ids, member-sort_by j c.tickets),
        )),
        rw e (λ r. cc),
      )
    ]

-- No ticket is in two proposals: after a claim succeeds, a candidate that shares a ticket with it
-- fails, until the tickets are released, which restores the former claims.
pub commit-commit :
    (active : Claims) (c d : Candidate) (valid : ℕ → Bool) (j : ℕ)
    → (commit active c valid).1 ≡ true
    → Set.member j c.tickets ≡ true
    → Set.member j d.tickets ≡ true
    → ((commit (commit active c valid).0 d valid).1 ≡ false)
      × ((k : ℕ) → Set.member k (release (commit active c valid).0 c.tickets) ≡ Set.member k active)
unfolding release
commit-commit active c d valid j h m n =
    let (free, grown) = (commit_lem active c valid).0 h in
    let taken = (commit active c valid).0 in
    (
      ground (
        arith,
        λ (r : (commit taken d valid).1 ≡ true). (((commit_lem taken d valid).0 r).0 j n).0,
        grown j,
      ),
      λ k. ground (
        arith,
        Set.member-remove_all k taken c.tickets,
        grown k,
        λ (r : Set.member k c.tickets ≡ true). (free k r).0,
      ),
    )
