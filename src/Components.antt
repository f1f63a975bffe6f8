-- ===== src/Components.antt =====
-- The shared enumerations of core/src/components/mod.rs. Identifiers are 128-bit values of which
-- the program uses equality and order alone, so they are natural numbers.
use elo_ranking_pairing_syst.Base.{ℕ, Bool, true, false, ◌≡◌, ◌↔◌, arith}
use elo_ranking_pairing_syst.Base.Map.{Key}

pub data QueueMode : Type 0 where
  one_vs_one five_vs_five free_for_all : QueueMode

pub data PlayerState : Type 0 where
  idle queued proposed matched suspended disconnected : PlayerState

pub data PartyState : Type 0 where
  idle queued awaiting_accept not_ready matched : PartyState

pub data AcceptState : Type 0 where
  pending accepted rejected timed_out : AcceptState

-- The derived `PartialEq` and `Ord` of `QueueMode`.
unfoldable pub mode_eq : QueueMode → QueueMode → Bool
mode_eq one_vs_one one_vs_one = true
mode_eq five_vs_five five_vs_five = true
mode_eq free_for_all free_for_all = true
mode_eq _ _ = false

unfoldable pub mode_lt : QueueMode → QueueMode → Bool
mode_lt one_vs_one five_vs_five = true
mode_lt one_vs_one free_for_all = true
mode_lt five_vs_five free_for_all = true
mode_lt _ _ = false

pub mode_eq_iff : (a b : QueueMode) → (mode_eq a b ≡ true) ↔ (a ≡ b)
unfolding mode_eq
mode_eq_iff a b = ground arith

instance abbrev pub mode_key : Key QueueMode
mode_key = record { beq = mode_eq; lt = mode_lt; beq_iff = mode_eq_iff }

-- `state == PartyState::Idle`, and so on for the states that the code compares with.
abbrev pub is_idle : PartyState → Bool
is_idle PartyState.idle = true
is_idle _ = false

abbrev pub is_not_ready : PartyState → Bool
is_not_ready PartyState.not_ready = true
is_not_ready _ = false

abbrev pub is_pending : AcceptState → Bool
is_pending pending = true
is_pending _ = false

abbrev pub is_accepted : AcceptState → Bool
is_accepted accepted = true
is_accepted _ = false

abbrev pub is_rejected : AcceptState → Bool
is_rejected rejected = true
is_rejected _ = false

-- `matches!(state, AcceptState::Rejected | AcceptState::TimedOut)`
abbrev pub is_failed : AcceptState → Bool
is_failed rejected = true
is_failed timed_out = true
is_failed _ = false

-- The derived order of `QueueMode`, by the position of the constructor.
unfoldable pub mode_rank : QueueMode → ℕ
mode_rank one_vs_one = 0
mode_rank five_vs_five = 1
mode_rank free_for_all = 2
