-- ===== src/Command.antt =====
-- core/src/command.rs and the allocator of core/src/resources/mod.rs: the order of commands, results
-- that are remembered by request, and identifiers by kind.
use mathlib.Core.List.{Perm, Permᴰ}
use elo_ranking_pairing_syst.Base.{
  ℕ, ◌+◌, ◌<◌, ◌%◌, ◌≡◌, ◌≢◌, ◌↔◌, ◌==◌, ==_iff, Bool, true, false, ◌&&◌, ◌||◌, Option, some, List,
  ltb, unwrap_or, arith,
}
use elo_ranking_pairing_syst.Base.Text.{Text, text_eq, text_lt, text_eq_iff}
use elo_ranking_pairing_syst.Base.Word.{u64_mod}
use elo_ranking_pairing_syst.Base.Map.{Key, Map, lookup, insert, text_key}
use elo_ranking_pairing_syst.Base.Map.Laws.{lookup-insert}
use elo_ranking_pairing_syst.Base.Order.{Order, nat_order, text_order, lex, on}
use elo_ranking_pairing_syst.Base.Sort.{
  sort_by, sort_by-perm, sort_by-IsSorted, sort_by-eq_of_perm, IsSorted, HasNoTies,
}

pub record CommandEnvelope (T : Type 0) : Type 0 where
  pub sequence : ℕ
  pub request_id : Text
  pub session : ℕ
  pub player : ℕ
  pub command : T

-- `(SessionId, String)`
abbrev pub Request : Type 0
Request = ℕ × Text

unfoldable pub request_eq : Request → Request → Bool
request_eq a b = (a.0 == b.0) && text_eq a.1 b.1

pub request_eq_iff : (a b : Request) → (request_eq a b ≡ true) ↔ (a ≡ b)
unfolding request_eq
request_eq_iff a b = ground (arith, ==_iff a.0 b.0, text_eq_iff a.1 b.1)

instance abbrev pub request_key : Key Request
request_key = record {
  beq = request_eq;
  lt = λ a b. ltb a.0 b.0 || ((a.0 == b.0) && text_lt a.1 b.1);
  beq_iff = request_eq_iff;
}

abbrev pub RequestCache : Type 0 → Type 0
RequestCache R = Map Request R

module _ {R : Type 0} where
  unfoldable pub get : RequestCache R → ℕ → Text → Option R
  get results s r = lookup (s, r) results

  unfoldable pub record_result : RequestCache R → ℕ → Text → R → RequestCache R × R
  record_result results s r v = (insert (s, r) v results, v)

  -- A remembered result is found under its session and request, and no other entry changes.
  pub get-record_result :
      (results : RequestCache R) (s t : ℕ) (r q : Text) (v : R)
      → (get (record_result results s r v).0 s r ≡ some v)
        × (request_eq (s, r) (t, q) ≡ false
            → get (record_result results s r v).0 t q ≡ get results t q)
  unfolding get record_result request_eq
  get-record_result results s t r q v = ground (
    arith,
    lookup-insert (s, r) (s, r) v results,
    lookup-insert (s, r) (t, q) v results,
    ==_iff s s,
    text_eq_iff r r,
  )

module _ {T : Type 0} where
  abbrev pub command_order : Order (CommandEnvelope T)
  command_order =
      on (λ c. (c.sequence, (c.player, c.request_id))) (lex nat_order (lex nat_order text_order))

  unfoldable pub sort_commands : List (CommandEnvelope T) → List (CommandEnvelope T)
  sort_commands commands = sort_by command_order.le commands

-- `IdAllocator`, with the counters by kind; the addition wraps.
abbrev pub IdAllocator : Type 0
IdAllocator = Map Text ℕ

unfoldable pub next : IdAllocator → Text → IdAllocator × ℕ
next counters kind =
    let n = (unwrap_or 0 (lookup kind counters) + 1) % u64_mod in (insert kind n counters, n)

-- Numbers of one kind are handed out one after the other, and those of another kind are not touched,
-- as long as a counter is below the greatest 64-bit word.
pub next-next :
    (counters : IdAllocator) (kind other : Text)
    → unwrap_or 0 (lookup kind counters) + 2 < u64_mod
    → kind ≢ other
    → ((next (next counters kind).0 kind).1 ≡ (next counters kind).1 + 1)
      × ((next (next counters kind).0 other).1 ≡ (next counters other).1)
unfolding next
next-next counters kind other h ne =
    let n = (unwrap_or 0 (lookup kind counters) + 1) % u64_mod in
    ground (
      arith,
      h,
      lookup-insert kind kind n counters,
      lookup-insert kind other n counters,
      text_eq_iff kind kind,
      text_eq_iff kind other,
    )

-- The commands are put in the order of their sequence, player and request, whatever the order of
-- their arrival, if no two have the same key.
pub sort_commands-deterministic :
    {T : Type 0} (commands other : List (CommandEnvelope T))
    → HasNoTies command_order.le command_order.total commands
    → Permᴰ commands other
    → IsSorted command_order.le (sort_commands commands)
      × Perm (sort_commands commands) commands
      × (sort_commands commands ≡ sort_commands other)
unfolding sort_commands
sort_commands-deterministic commands other h p = (
  sort_by-IsSorted command_order.le command_order.total commands,
  sort_by-perm command_order.le commands,
  sort_by-eq_of_perm command_order.le command_order.total command_order.trans h p,
)
