-- ===== src/Proposal/Check.antt =====
-- The responses of a ready check: pending at first, then answered one by one.
use elo_ranking_pairing_syst.Base.{
  ℕ, ◌≡◌, refl, ◌≢◌, ◌⊎◌, inr, Bool, true, false, none, some, List, [], ◌∷◌, arith, if◌then◌else◌,
  any, all, contains, All,
}
use elo_ranking_pairing_syst.Base.Map.{
  Map, lookup, insert, modify, put, values, map_values, nat_key, IsMap,
}
use elo_ranking_pairing_syst.Base.Map.Laws.{lookup-insert, insert-IsMap}
use elo_ranking_pairing_syst.Components.{
  AcceptState, pending, accepted, is_accepted, is_rejected, is_failed,
}
use elo_ranking_pairing_syst.Proposal.{collect_pending, answer, time_out}

abbrev pub Responses : Type 0
Responses = Map ℕ AcceptState

-- Everybody is still to answer.
abbrev pub AllPending : Responses → Type 0
AllPending [] = Unit
AllPending ((k, s) ∷ m) = (s ≡ pending) × AllPending m

put-AllPending : (k : ℕ) (m : Responses) → AllPending m → AllPending (put k pending m)
unfolding put
put-AllPending k [] h = (refl, tt)
put-AllPending k ((j, s) ∷ m) h = ground (arith, put-AllPending k m h.1)

modify-AllPending : (k : ℕ) (m : Responses) → AllPending m → AllPending (modify k (λ _. pending) m)
unfolding modify
modify-AllPending k [] h = tt
modify-AllPending k ((j, s) ∷ m) h = ground (arith, modify-AllPending k m h.1)

pub collect_pending-AllPending : (ps : List ℕ) → AllPending (collect_pending ps)
unfolding collect_pending insert
collect_pending-AllPending [] = tt
collect_pending-AllPending (p ∷ ps) =
    let rest = collect_pending-AllPending ps in
    ground (
      arith,
      put-AllPending p (collect_pending ps) rest,
      modify-AllPending p (collect_pending ps) rest,
    )

pub collect_pending-IsMap : (ps : List ℕ) → IsMap (collect_pending ps)
unfolding collect_pending
collect_pending-IsMap [] = tt
collect_pending-IsMap (p ∷ ps) =
    insert-IsMap p pending (collect_pending ps) (collect_pending-IsMap ps)

-- The responses hold exactly the players of the roster.
pub lookup-collect_pending :
    (q : ℕ) (ps : List ℕ)
    → lookup q (collect_pending ps) ≡ (if contains q ps then some pending else none)
unfolding collect_pending
lookup-collect_pending q [] = unfold lookup in refl
lookup-collect_pending q (p ∷ ps) =
    ground (arith, lookup-insert p q pending (collect_pending ps), lookup-collect_pending q ps)

pub none_failed : (m : Responses) → AllPending m → any is_failed (values m) ≡ false
none_failed [] h = refl
none_failed ((k, s) ∷ m) h = ground (arith, none_failed m h.1)

pub not_all_accepted : (m : Responses) → m ≢ [] → AllPending m → all is_accepted (values m) ≡ false
not_all_accepted [] ne h = absurd (ne refl)
not_all_accepted ((k, s) ∷ m) ne h = ground arith

-- An answer makes nobody time out.
pub answer_not_failed :
    (k : ℕ) (accept : Bool) (m : Responses)
    → any is_failed (values m) ≡ false
    → any is_rejected (values (modify k (answer accept) m)) ≡ false
    → any is_failed (values (modify k (answer accept) m)) ≡ false
unfolding modify answer
answer_not_failed k accept [] h r = refl
answer_not_failed k accept ((j, s) ∷ m) h r =
    ground (arith, not_rejected m, answer_not_failed k accept m)
  where
    not_rejected :
        (m : Responses) → any is_failed (values m) ≡ false → any is_rejected (values m) ≡ false
    not_rejected [] h = refl
    not_rejected ((j, s) ∷ m) h = ground (arith, not_rejected m)

pub rejected-failed :
    (m : Responses) → any is_rejected (values m) ≡ true → any is_failed (values m) ≡ true
rejected-failed [] h = cc
rejected-failed ((k, s) ∷ m) h = ground (arith, rejected-failed m)

-- A rejection of a player whose answer is open shows.
pub reject_shows :
    (k : ℕ) (m : Responses)
    → lookup k m ≡ some pending
    → any is_rejected (values (modify k (answer false) m)) ≡ true
unfolding lookup modify answer
reject_shows k [] h = cc
reject_shows k ((j, s) ∷ m) h = ground (arith, reject_shows k m)

-- A deadline that passes before all have accepted is somebody's failure.
pub time_out-failed :
    (m : Responses)
    → all is_accepted (values m) ≡ false
    → any is_failed (values (map_values time_out m)) ≡ true
time_out-failed [] h = cc
time_out-failed ((k, s) ∷ m) h = ground (arith, time_out-failed m)

-- Every answer is an acceptance, or is open and among those still to come.
abbrev pub Covered : List ℕ → Responses → Type 0
Covered todo [] = Unit
Covered todo ((k, s) ∷ m) =
    ((s ≡ accepted) ⊎ ((s ≡ pending) × (contains k todo ≡ true))) × Covered todo m

Covered-put :
    (k : ℕ) (todo : List ℕ) (m : Responses)
    → contains k todo ≡ true
    → Covered todo m
    → Covered todo (put k pending m)
unfolding put
Covered-put k todo [] c h = (inr (refl, c), tt)
Covered-put k todo ((j, s) ∷ m) c h = ground (arith, Covered-put k todo m c h.1)

Covered-modify :
    (k : ℕ) (todo : List ℕ) (m : Responses)
    → contains k todo ≡ true
    → Covered todo m
    → Covered todo (modify k (λ _. pending) m)
unfolding modify
Covered-modify k todo [] c h = tt
Covered-modify k todo ((j, s) ∷ m) c h = ground (arith, Covered-modify k todo m c h.1)

pub Covered-collect_pending :
    (todo ps : List ℕ) → All (λ q. contains q todo ≡ true) ps → Covered todo (collect_pending ps)
unfolding collect_pending insert
Covered-collect_pending todo [] h = tt
Covered-collect_pending todo (p ∷ ps) h =
    let rest = Covered-collect_pending todo ps h.1 in
    ground (
      arith,
      Covered-put p todo (collect_pending ps) h.0 rest,
      Covered-modify p todo (collect_pending ps) h.0 rest,
    )

pub Covered-skip :
    (k : ℕ) (todo : List ℕ) (m : Responses)
    → lookup k m ≡ none
    → Covered (k ∷ todo) m
    → Covered todo m
unfolding lookup
Covered-skip k todo [] e h = tt
Covered-skip k todo ((j, s) ∷ m) e h = ground (arith, Covered-skip k todo m)

pub Covered-accept :
    (k : ℕ) (todo : List ℕ) (m : Responses)
    → IsMap m
    → Covered (k ∷ todo) m
    → Covered todo (modify k (answer true) m)
unfolding modify answer
Covered-accept k todo [] w h = tt
Covered-accept k todo ((j, s) ∷ m) w h =
    ground (arith, Covered-skip k todo m, Covered-accept k todo m w.1)

pub Covered-done : (m : Responses) → Covered [] m → all is_accepted (values m) ≡ true
Covered-done [] h = refl
Covered-done ((k, s) ∷ m) h = ground (arith, Covered-done m h.1)
