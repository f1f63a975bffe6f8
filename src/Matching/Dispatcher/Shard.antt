-- ===== src/Matching/Dispatcher/Shard.antt =====
-- Within a shard no ticket is proposed twice (core/src/matching/dispatcher.rs).
use elo_ranking_pairing_syst.Base.{
  ℕ, zero, suc, ◌≡◌, Bool, true, false, not, ◌||◌, ◌&&◌, List, [], ◌∷◌, ◌++◌, map, arith, All,
  length, retain, any, ◌==◌, ==_iff, ltb, Bool-cases, inl, inr,
}
use elo_ranking_pairing_syst.Base.Every.{every_mono, All-append, All-map, All-sort_by}
use elo_ranking_pairing_syst.Base.Map.{nat_key}
use elo_ranking_pairing_syst.Base.Set as Set
use elo_ranking_pairing_syst.Matching.{PartyTicket, Candidate}
use elo_ranking_pairing_syst.Matching.Sorted.{candidate_order, sort_candidates}
use elo_ranking_pairing_syst.Matching.Dispatcher.{select, proposals, search_shard, owned}

abbrev pub ids : List PartyTicket → List ℕ
ids ts = map (λ t. t.id) ts

-- The candidate is made of these tickets.
abbrev pub DrawsOn : List ℕ → Candidate → Type 0
DrawsOn js c = (j : ℕ) → Set.member j c.tickets ≡ true → Set.member j js ≡ true

-- No ticket is in both.
abbrev pub AreApart : Candidate → Candidate → Type 0
AreApart c d = (j : ℕ) → Set.member j c.tickets ≡ true → Set.member j d.tickets ≡ false

abbrev pub AllApart : List Candidate → Type 0
AllApart [] = Unit
AllApart (c ∷ cs) = All (λ d. AreApart d c) cs × AllApart cs

-- A builder of candidates uses the tickets that it is given.
abbrev pub IsBuilder : (List PartyTicket → List Candidate) → Type 0
IsBuilder builder = (ts : List PartyTicket) → All (DrawsOn (ids ts)) (builder ts)

AllApart-append :
    (cs : List Candidate) (c : Candidate)
    → AllApart cs
    → All (λ d. AreApart c d) cs
    → AllApart (cs ++ c ∷ [])
AllApart-append [] c h k = (tt, tt)
AllApart-append (d ∷ cs) c (h, hs) (k, ks) =
    (All-append (λ e. AreApart e d) cs (c ∷ []) h (k, tt), AllApart-append cs c hs ks)

proposals-DrawsOn :
    (builder : List PartyTicket → List Candidate) (shard : ℕ) (remaining : List PartyTicket)
    → IsBuilder builder
    → All (DrawsOn (ids remaining)) (proposals builder shard remaining)
unfolding proposals sort_candidates
proposals-DrawsOn builder shard remaining h =
    All-sort_by (DrawsOn (ids remaining)) candidate_order.le (map (owned shard) (builder remaining))
      (All-map (DrawsOn (ids remaining)) (owned shard) (builder remaining) (h remaining))

any_not_member :
    (claimed ks : List ℕ) (j : ℕ)
    → any (λ k. Set.member k claimed) ks ≡ false
    → Set.member j ks ≡ true
    → Set.member j claimed ≡ false
unfolding Set.member
any_not_member claimed [] j h m = cc
any_not_member claimed (k ∷ ks) j h m = ground (arith, any_not_member claimed ks j, ==_iff k j)

-- Taken by a candidate of this round, or of a former one.
abbrev is_taken : List ℕ → List ℕ → ℕ → Bool
is_taken free claimed j = Set.member j claimed || not (Set.member j free)

-- The candidates so far: apart, made of taken tickets, which are the shard's.
module _ (all free : List ℕ) where
  abbrev IsRound : List ℕ → List Candidate → Type 0
  IsRound claimed local =
      AllApart local
      × (All (λ d. (j : ℕ) → Set.member j d.tickets ≡ true → is_taken free claimed j ≡ true) local
          × All (DrawsOn all) local)

  take-IsRound :
      (c : Candidate) (claimed : List ℕ) (local : List Candidate)
      → IsRound claimed local
      → any (λ k. Set.member k claimed) c.tickets ≡ false
      → DrawsOn free c
      → DrawsOn all c
      → IsRound (Set.extend claimed c.tickets) (local ++ c ∷ [])
  take-IsRound c claimed local (apart, (taken, drawn)) fresh f a = (
    AllApart-append local c apart (
        every_mono (λ d. (j : ℕ) → Set.member j d.tickets ≡ true → is_taken free claimed j ≡ true)
          (λ d. AreApart c d)
          (λ d t j m. ground (arith, any_not_member claimed c.tickets j fresh m, f j m, t j)) local
          taken),
    (
      All-append
          (λ d.
            (j : ℕ)
            → Set.member j d.tickets ≡ true
            → is_taken free (Set.extend claimed c.tickets) j ≡ true)
          local (c ∷ [])
          (every_mono
            (λ d. (j : ℕ) → Set.member j d.tickets ≡ true → is_taken free claimed j ≡ true)
            (λ d.
              (j : ℕ)
              → Set.member j d.tickets ≡ true
              → is_taken free (Set.extend claimed c.tickets) j ≡ true)
            (λ d t j m. ground (arith, t j m, Set.member-extend j claimed c.tickets)) local taken)
          ((λ j m. ground (arith, Set.member-extend j claimed c.tickets)), tt),
      All-append (DrawsOn all) local (c ∷ []) drawn (a, tt),
    ),
  )

  select-IsRound :
      (budget : ℕ) (cs : List Candidate) (claimed : List ℕ) (local : List Candidate) (selected : ℕ)
      → All (DrawsOn free) cs
      → ((j : ℕ) → Set.member j free ≡ true → Set.member j all ≡ true)
      → IsRound claimed local
      → IsRound
          (select budget cs claimed local selected).0
          (select budget cs claimed local selected).1
  unfolding select
  select-IsRound budget [] claimed local selected h sub r = r
  select-IsRound budget (c ∷ cs) claimed local selected (hc, h) sub r =
      elim (Bool-cases (any (λ k. Set.member k claimed) c.tickets)) [
        | inl e ↦ rw e (select-IsRound budget cs claimed local selected h sub r)
        | inr e ↦
            let next = take-IsRound c claimed local r e hc (λ j m. sub j (hc j m)) in
            rw e (elim (Bool-cases (length (local ++ c ∷ []) == budget)) [
              | inl f ↦ rw f next
              | inr f ↦ rw f (
                  select-IsRound budget cs (Set.extend claimed c.tickets) (local ++ c ∷ [])
                    (suc selected) h sub next)
            ])
      ]

member-retain :
    (claimed : List ℕ) (ts : List PartyTicket) (j : ℕ)
    → Set.member j (ids (retain (λ t. not (Set.member t.id claimed)) ts))
      ≡ Set.member j (ids ts) && not (Set.member j claimed)
unfolding Set.member
member-retain claimed [] j = ground arith
member-retain claimed (t ∷ ts) j = ground (arith, member-retain claimed ts j, ==_iff t.id j)

taken_later :
    (claimed : List ℕ) (ts : List PartyTicket) (j : ℕ)
    → is_taken (ids ts) claimed j ≡ true
    → is_taken (ids (retain (λ t. not (Set.member t.id claimed)) ts)) [] j ≡ true
unfolding Set.member
taken_later claimed ts j h = ground (arith, member-retain claimed ts j)

-- With a builder that uses the tickets it is given, the candidates of a shard share no ticket with
-- each other, and all their tickets are the shard's.
pub search_shard-AllApart :
    (fuel budget shard : ℕ) (builder : List PartyTicket → List Candidate) (part : List PartyTicket)
    → IsBuilder builder
    → AllApart (search_shard fuel builder budget shard part [])
      × All (DrawsOn (ids part)) (search_shard fuel builder budget shard part [])
unfolding search_shard
search_shard-AllApart fuel budget shard builder part h = go fuel part [] (λ j m. m) (tt, (tt, tt))
  where
    go :
        (fuel : ℕ) (remaining : List PartyTicket) (local : List Candidate)
        → ((j : ℕ) → Set.member j (ids remaining) ≡ true → Set.member j (ids part) ≡ true)
        → IsRound (ids part) (ids remaining) [] local
        → AllApart (search_shard fuel builder budget shard remaining local)
          × All (DrawsOn (ids part)) (search_shard fuel builder budget shard remaining local)
    go zero remaining local sub (apart, (taken, drawn)) = (apart, drawn)
    go (suc fuel) remaining local sub r =
        let cs = proposals builder shard remaining in
        let (claimed, local', selected) = select budget cs [] local 0 in
        let done =
          select-IsRound (ids part) (ids remaining) budget cs [] local 0
            (proposals-DrawsOn builder shard remaining h) sub r in
        let rest =
          go fuel (retain (λ t. not (Set.member t.id claimed)) remaining) local'
            (λ j m. sub j (ground (arith, member-retain claimed remaining j)))
            (
              done.0,
              (
                every_mono
                    (λ d.
                      (j : ℕ)
                      → Set.member j d.tickets ≡ true
                      → is_taken (ids remaining) claimed j ≡ true)
                    (λ d.
                      (j : ℕ)
                      → Set.member j d.tickets ≡ true
                      → is_taken (ids (retain (λ t. not (Set.member t.id claimed)) remaining)) [] j
                        ≡ true)
                    (λ d t j m. taken_later claimed remaining j (t j m)) local' done.1.0,
                done.1.1,
              ),
            ) in
        elim (Bool-cases (ltb (length local) budget)) [
          | inl e ↦ rw e (elim (Bool-cases (selected == 0)) [
            | inl f ↦ rw f (done.0, done.1.1)
            | inr f ↦ rw f rest
          ])
          | inr e ↦ rw e (r.0, r.1.1)
        ]
