-- ===== src/Proposal/Decisions.antt =====
-- Who is queued again after a cancelled check, and who is charged.
use elo_ranking_pairing_syst.Base.{
  ℕ, ◌≡◌, refl, ◌↔◌, Bool, true, false, not, ◌&&◌, ◌||◌, Option, none, some, List, [], ◌∷◌, map,
  arith, ◌==◌, contains, is_some_and, ap,
}
use elo_ranking_pairing_syst.Base.Map.{Map, lookup, keys, nat_key}
use elo_ranking_pairing_syst.Components.{AcceptState, rejected, timed_out, is_failed}
use elo_ranking_pairing_syst.Credit.{CreditCause, infrastructure_failure}
use elo_ranking_pairing_syst.Proposal.{
  Proposal, RequeueDecision, failed_parties, decide, cancellation_decisions,
}

-- Some player of the party rejected or timed out.
abbrev pub has_failure : Map ℕ ℕ → ℕ → Map ℕ AcceptState → Bool
has_failure parties party [] = false
has_failure parties party ((player, state) ∷ rest) =
    (is_failed state && is_some_and (lookup player parties) (λ q. q == party))
    || has_failure parties party rest

failed_parties-has_failure :
    (parties : Map ℕ ℕ) (party : ℕ) (m : Map ℕ AcceptState)
    → contains party (failed_parties parties m) ≡ has_failure parties party m
unfolding failed_parties
failed_parties-has_failure parties party [] = refl
failed_parties-has_failure parties party ((player, state) ∷ m) =
    ground (arith, failed_parties-has_failure parties party m)

abbrev pub players : List RequeueDecision → List ℕ
players [] = []
players (d ∷ ds) = d.player ∷ players ds

players-decide :
    (parties : Map ℕ ℕ) (failed : List ℕ) (infra : Bool) (m : Map ℕ AcceptState)
    → players (map (decide parties failed infra) m) ≡ keys m
unfolding decide
players-decide parties failed infra [] = refl
players-decide parties failed infra ((k, s) ∷ m) =
    ap (◌∷◌ k) (players-decide parties failed infra m)

-- Every player of the check gets exactly one decision.
pub cancellation_decisions-players :
    (p : Proposal) (infra : Bool) → players (cancellation_decisions p infra) ≡ keys p.responses
unfolding cancellation_decisions
cancellation_decisions-players p infra = players-decide p.parties _ infra p.responses

-- What is right for a player with this answer.
pub record IsRight (p : Proposal) (infra : Bool) (state : AcceptState) (d : RequeueDecision)
    : Type 0 where
  pub not_ready :
      d.party_not_ready
      ≡ is_some_and (lookup d.player p.parties) (λ party. has_failure p.parties party p.responses)
  pub requeued : d.requeue ≡ not d.party_not_ready && not (is_failed state)
  pub spared : infra ≡ true → d.credit_cause ≡ some infrastructure_failure
  pub charged :
      infra ≡ false
      → ((d.credit_cause ≡ some CreditCause.rejected) ↔ (state ≡ rejected))
        × ((d.credit_cause ≡ some CreditCause.timed_out) ↔ (state ≡ timed_out))
        × ((d.credit_cause ≡ none) ↔ (is_failed state ≡ false))

abbrev pub AllRight : Proposal → Bool → Map ℕ AcceptState → List RequeueDecision → Type 0
AllRight p infra [] [] = Unit
AllRight p infra ((k, s) ∷ m) (d ∷ ds) =
    (d.player ≡ k) × IsRight p infra s d × AllRight p infra m ds
AllRight p infra _ _ = ⊥

decided-AllRight :
    (p : Proposal) (infra : Bool) (m : Map ℕ AcceptState)
    → AllRight p infra m (map (decide p.parties (failed_parties p.parties p.responses) infra) m)
unfolding decide
decided-AllRight p infra [] = tt
decided-AllRight p infra ((k, s) ∷ m) = (
  refl,
  record {
    not_ready = failure_known (lookup k p.parties);
    requeued = refl;
    spared = λ h. ground arith;
    charged = λ h. (
      (λ e. ground arith, λ e. ground arith),
      (λ e. ground arith, λ e. ground arith),
      (λ e. ground arith, λ e. ground arith),
    );
  },
  decided-AllRight p infra m,
)
  where
    failure_known :
        (o : Option ℕ)
        → is_some_and o (λ q. contains q (failed_parties p.parties p.responses))
          ≡ is_some_and o (λ q. has_failure p.parties q p.responses)
    failure_known none = refl
    failure_known (some q) = failed_parties-has_failure p.parties q p.responses

-- The decisions stand in the order of the players, and each is right: a party is not ready exactly
-- if one of its players rejected or timed out; a player is queued again exactly if neither the
-- player nor the party failed; after a failure of the infrastructure nobody is charged, and
-- otherwise exactly those who rejected or timed out are, each for what they did.
pub cancellation_decisions-AllRight :
    (p : Proposal) (infra : Bool) → AllRight p infra p.responses (cancellation_decisions p infra)
unfolding cancellation_decisions
cancellation_decisions-AllRight p infra = decided-AllRight p infra p.responses
