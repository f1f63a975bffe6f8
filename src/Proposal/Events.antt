-- ===== src/Proposal/Events.antt =====
-- A ready check under any sequence of answers and clock readings.
use elo_ranking_pairing_syst.Base.{
  ℕ, ◌≡◌, refl, ◌≢◌, Bool, true, false, some, List, [], ◌∷◌, arith, any, all, Result, ok, err,
}
use elo_ranking_pairing_syst.Base.Map.{Map, lookup, modify, values, nat_key, IsMap}
use elo_ranking_pairing_syst.Base.Map.Laws.{
  modify-IsMap, map_values-IsMap, lookup-modify, lookup-map_values,
}
use elo_ranking_pairing_syst.Components.{AcceptState, pending, rejected, is_accepted, is_failed}
use elo_ranking_pairing_syst.Matching.{Candidate}
use elo_ranking_pairing_syst.Proposal.Check.{
  collect_pending-AllPending, collect_pending-IsMap, none_failed, not_all_accepted,
  answer_not_failed, rejected-failed, reject_shows, time_out-failed,
}
use elo_ranking_pairing_syst.Proposal.{
  Proposal, ProposalState, awaiting_accept, awaiting_placement, cancelled, ProposalError,
  is_awaiting_accept, flatten, collect_pending, from_candidate, answer, settle, respond, time_out,
  expire,
}

pub data Event : Type 0 where
  -- `respond` with a proposal's identifier, a player and the answer
  answered : ℕ → ℕ → Bool → Event
  -- `expire` at a time
  clock : ℕ → Event

-- A refused answer changes nothing.
abbrev pub after : Proposal → Result (Proposal × ProposalState) ProposalError → Proposal
after p (ok (q, state)) = q
after p (err e) = p

unfoldable pub step : Proposal → Event → Proposal
step p (answered id player accept) = after p (respond p id player accept)
step p (clock now) = (expire p now).0

unfoldable pub run : Proposal → List Event → Proposal
run p [] = p
run p (e ∷ es) = run (step p e) es

-- What the state says about the answers.
abbrev pub Agrees : ProposalState → Map ℕ AcceptState → Type 0
Agrees awaiting_accept m = (any is_failed (values m) ≡ false) × (all is_accepted (values m) ≡ false)
Agrees awaiting_placement m = all is_accepted (values m) ≡ true
Agrees cancelled m = any is_failed (values m) ≡ true

pub record IsValid (p : Proposal) : Type 0 where
  pub distinct : IsMap p.responses
  pub agrees : Agrees p.state p.responses

from_candidate-IsValid :
    (id : ℕ) (c : Candidate) (parties : Map ℕ ℕ) (now timeout : ℕ)
    → collect_pending (flatten c.teams) ≢ []
    → IsValid (from_candidate id c parties now timeout)
unfolding from_candidate
from_candidate-IsValid id c parties now timeout ne =
    let roster = flatten c.teams in
    let open_answers = collect_pending-AllPending roster in
    record {
      distinct = collect_pending-IsMap roster;
      agrees = (
        none_failed (collect_pending roster) open_answers,
        not_all_accepted (collect_pending roster) ne open_answers,
      );
    }

respond-IsValid :
    (p : Proposal) (id player : ℕ) (accept : Bool)
    → IsValid p
    → IsValid (after p (respond p id player accept))
unfolding respond settle
respond-IsValid p id player accept v = ground (
  arith,
  modify-IsMap player (answer accept) p.responses v.distinct,
  answer_not_failed player accept p.responses,
  rejected-failed (modify player (answer accept) p.responses),
)

expire-IsValid : (p : Proposal) (now : ℕ) → IsValid p → IsValid (expire p now).0
unfolding expire
expire-IsValid p now v =
    ground (arith, map_values-IsMap time_out p.responses v.distinct, time_out-failed p.responses)

step-IsValid : (p : Proposal) (e : Event) → IsValid p → IsValid (step p e)
unfolding step
step-IsValid p (answered id player accept) v = respond-IsValid p id player accept v
step-IsValid p (clock now) v = expire-IsValid p now v

run-IsValid : (p : Proposal) (es : List Event) → IsValid p → IsValid (run p es)
unfolding run
run-IsValid p [] v = v
run-IsValid p (e ∷ es) v = run-IsValid (step p e) es (step-IsValid p e v)

-- At every moment of a check with a player in it, whatever answers came and whenever the clock was
-- read: the match waits for placement only if everybody accepted, it is cancelled only if somebody
-- rejected or timed out, and while it waits for answers neither holds.
pub from_candidate-run-IsValid :
    (id : ℕ) (c : Candidate) (parties : Map ℕ ℕ) (now timeout : ℕ) (es : List Event)
    → collect_pending (flatten c.teams) ≢ []
    → IsValid (run (from_candidate id c parties now timeout) es)
from_candidate-run-IsValid id c parties now timeout es ne =
    run-IsValid _ es (from_candidate-IsValid id c parties now timeout ne)

step_final : (p : Proposal) (e : Event) → is_awaiting_accept p.state ≡ false → step p e ≡ p
unfolding step respond expire
step_final p (answered id player accept) h = ground arith
step_final p (clock now) h = ground arith

-- A check that is over stays as it is.
pub run_final : (p : Proposal) (es : List Event) → is_awaiting_accept p.state ≡ false → run p es ≡ p
unfolding run
run_final p [] h = refl
run_final p (e ∷ es) h = rw (step_final p e h) (run_final p es h)

-- One rejection by a player who has not answered cancels the match at once, is recorded, and leaves
-- the answers of the others.
pub reject_cancels :
    (p : Proposal) (player : ℕ)
    → p.state ≡ awaiting_accept
    → lookup player p.responses ≡ some pending
    → let q = step p (answered p.id player false) in
      (q.state ≡ cancelled)
      × (lookup player q.responses ≡ some rejected)
      × ((other : ℕ) → other ≢ player → lookup other q.responses ≡ lookup other p.responses)
unfolding step respond settle answer
reject_cancels p player h e = (
  ground (arith, reject_shows player p.responses),
  ground (
    arith,
    reject_shows player p.responses,
    lookup-modify player player (answer false) p.responses,
  ),
  λ other ne. ground (
    arith,
    reject_shows player p.responses,
    lookup-modify player other (answer false) p.responses,
  ),
)

step_keeps :
    (p : Proposal) (e : Event) (player : ℕ) (s : AcceptState)
    → s ≢ pending
    → lookup player p.responses ≡ some s
    → lookup player (step p e).responses ≡ some s
unfolding step respond expire settle answer
step_keeps p (answered id other accept) player s ne h =
    ground (arith, lookup-modify other player (answer accept) p.responses)
step_keeps p (clock now) player s ne h =
    ground (arith, lookup-map_values player time_out p.responses)

-- An answer that has been given is never changed, by whatever follows.
pub run_keeps :
    (p : Proposal) (es : List Event) (player : ℕ) (s : AcceptState)
    → s ≢ pending
    → lookup player p.responses ≡ some s
    → lookup player (run p es).responses ≡ some s
unfolding run
run_keeps p [] player s ne h = h
run_keeps p (e ∷ es) player s ne h =
    run_keeps (step p e) es player s ne (step_keeps p e player s ne h)
