-- ===== src/Party/Lifecycle.antt =====
-- The lifecycle of a party: its invariant, and what each operation of core/src/party.rs does.
pub mod Members
use elo_ranking_pairing_syst.Base.{
  ℕ, suc, ◌+◌, ◌%◌, ◌≤◌, ◌<◌, ◌≡◌, refl, ◌≢◌, ◌⊎◌, inl, inr, Bool, true, false, not, ◌&&◌, List, [],
  ◌∷◌, arith, if◌then◌else◌, ◌==◌, leb, contains, retain, Result, ok, err, Bool-cases, All, first,
  unwrap_or, some, none, Option, ◌↔◌,
}
use elo_ranking_pairing_syst.Base.Word.{u64_mod}
use elo_ranking_pairing_syst.Base.Text.{Text}
use elo_ranking_pairing_syst.Components.{PartyState, is_idle}
use elo_ranking_pairing_syst.Party.Lifecycle.Members.{
  Ascending, Ascending-join, Ascending-retain, contains-join, contains-retain, first_least,
  first-contains,
}
use elo_ranking_pairing_syst.Party.{
  Party, Unicode, PartyError, leader_required, revision_conflict, frozen, bump, new, rename, join,
  kick, leave, editable, normalize_name,
}

-- The members ascend, so none is listed twice, and the leader is one of them.
pub record IsValid (p : Party) : Type 0 where
  pub ascending : Ascending p.members
  pub led : contains p.leader p.members ≡ true

pub data PartyOp : Type 0 where
  rename_to : ℕ → ℕ → Text → PartyOp
  joined : ℕ → PartyOp
  kicked : ℕ → ℕ → ℕ → PartyOp
  left : ℕ → PartyOp
  -- The queue and the matches move the party from state to state.
  moved : PartyState → PartyOp

-- A refused operation leaves the party as it was.
abbrev pub or_same : Party → Result Party PartyError → Option Party
or_same p (ok q) = some q
or_same p (err e) = some p

-- `leave` says when nobody remains; the caller then drops the party.
abbrev pub or_dropped : Party → Result (Party × Bool) PartyError → Option Party
or_dropped p (ok (q, gone)) = if gone then none else some q
or_dropped p (err e) = some p

-- Holds of the party, if it still exists.
abbrev pub OfAny : (Party → Type 0) → Option Party → Type 0
OfAny P none = Unit
OfAny P (some p) = P p

module _ (u : Unicode) where
  pub apply : Party → PartyOp → Option Party
  apply p (rename_to actor revision name) = or_same p (rename u p actor revision name)
  apply p (joined player) = or_same p (join p player)
  apply p (kicked actor revision player) = or_same p (kick p actor revision player)
  apply p (left player) = or_dropped p (leave p player)
  apply p (moved state) = some (record p { state = state })

  pub run : Option Party → List PartyOp → Option Party
  run none ops = none
  run (some p) [] = some p
  run (some p) (op ∷ ops) = run (apply p op) ops

  new-IsValid : (id leader : ℕ) (name : Text) {p : Party} → new u id leader name ≡ ok p → IsValid p
  unfolding new
  new-IsValid id leader name h = ground arith

  rename-IsValid :
      (p : Party) (actor revision : ℕ) (name : Text)
      → IsValid p
      → OfAny IsValid (or_same p (rename u p actor revision name))
  unfolding rename
  rename-IsValid p actor revision name v = ground arith

join-IsValid : (p : Party) (player : ℕ) → IsValid p → OfAny IsValid (or_same p (join p player))
unfolding join
join-IsValid p player v =
    ground (arith, Ascending-join player p.members, contains-join p.leader player p.members)

kick-IsValid :
    (p : Party) (actor revision player : ℕ)
    → IsValid p
    → OfAny IsValid (or_same p (kick p actor revision player))
unfolding kick
kick-IsValid p actor revision player v = ground (
  arith,
  Ascending-retain player p.members v.ascending,
  contains-retain p.leader player p.members,
)

leave-IsValid : (p : Party) (player : ℕ) → IsValid p → OfAny IsValid (or_dropped p (leave p player))
unfolding leave
leave-IsValid p player v = ground (
  arith,
  Ascending-retain player p.members v.ascending,
  contains-retain p.leader player p.members,
  first-contains p.leader (retain (λ (id : ℕ). not (id == player)) p.members),
)

module _ (u : Unicode) where
  apply-IsValid : (p : Party) (op : PartyOp) → IsValid p → OfAny IsValid (apply u p op)
  unfolding apply
  apply-IsValid p (rename_to a r n) v = rename-IsValid u p a r n v
  apply-IsValid p (joined a) v = join-IsValid p a v
  apply-IsValid p (kicked a r b) v = kick-IsValid p a r b v
  apply-IsValid p (left a) v = leave-IsValid p a v
  apply-IsValid p (moved s) v = record { ascending = v.ascending; led = v.led }

  run-IsValid :
      (o : Option Party) (ops : List PartyOp) → OfAny IsValid o → OfAny IsValid (run u o ops)
  unfolding run
  run-IsValid none ops v = tt
  run-IsValid (some p) [] v = v
  run-IsValid (some p) (op ∷ ops) v = run-IsValid (apply u p op) ops (apply-IsValid p op v)

  -- Whatever is done to a party after its creation, in any order and with any refusals, as long as
  -- it exists its members ascend without repetition and its leader is one of them.
  pub new-run-IsValid :
      (id leader : ℕ) (name : Text) (ops : List PartyOp) {p : Party}
      → new u id leader name ≡ ok p
      → OfAny IsValid (run u (some p) ops)
  new-run-IsValid id leader name ops {p} h =
      run-IsValid (some p) ops (new-IsValid u id leader name h)

  -- Outside the idle state no operation of a player has an effect.
  pub apply_frozen :
      (p : Party) (op : PartyOp)
      → is_idle p.state ≡ false
      → ((s : PartyState) → op ≢ moved s)
      → apply u p op ≡ some p
  unfolding apply rename join kick leave
  apply_frozen p (rename_to a r n) h k = ground arith
  apply_frozen p (joined a) h k = ground arith
  apply_frozen p (kicked a r b) h k = ground arith
  apply_frozen p (left a) h k = ground arith
  apply_frozen p (moved s) h k = absurd (k s refl)

-- When the leader leaves a valid party and somebody remains, the new leader is the remaining member
-- with the least identifier; when another player leaves, the leader stays. The caller is told
-- exactly whether nobody remains, and nobody but the one who left is dropped.
pub leave-leader :
    (p q : Party) (player : ℕ) (gone : Bool)
    → IsValid p
    → leave p player ≡ ok (q, gone)
    → ((gone ≡ true) ↔ (q.members ≡ []))
      × (player ≢ p.leader → q.leader ≡ p.leader)
      × (player ≡ p.leader → All (λ m. q.leader ≤ m) q.members)
      × ((m : ℕ) → m ≢ player → contains m q.members ≡ contains m p.members)
unfolding leave
leave-leader p q player gone v h =
    let kept = retain (λ (id : ℕ). not (id == player)) p.members in
    let sorted = Ascending-retain player p.members v.ascending in
    (
      (λ e. ground arith, λ e. ground arith),
      λ e. ground arith,
      λ e.
          let members : q.members ≡ kept = ground arith in
          let leader : q.leader ≡ unwrap_or p.leader (first kept) = ground arith in
          rw (members, leader) (first_least p.leader kept sorted),
      λ m ne. ground (arith, contains-retain m player p.members ne),
    )
