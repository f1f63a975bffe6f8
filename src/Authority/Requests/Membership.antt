-- ===== src/Authority/Requests/Membership.antt =====
-- Parties and the players that belong to them: `parties` and `player_party` of core/src/grpc/mod.rs.
use mathlib.Core.Option
use elo_ranking_pairing_syst.Base.{
  ℕ, ◌≡◌, ◌↔◌, refl, Bool, true, not, ◌&&◌, ◌||◌, ◌==◌, ==_iff, Option, none, some, List, [], ◌∷◌,
  contains, retain, arith, is_some_and,
}
use elo_ranking_pairing_syst.Base.Map.{Map, lookup, insert, modify, put, remove, nat_key, IsMap}
use elo_ranking_pairing_syst.Base.Map.Laws.{
  lookup-insert, lookup-remove_self, lookup-remove_ne, insert-IsMap, remove-IsMap,
}
use elo_ranking_pairing_syst.Party.{Party}

pub contains_without :
    (j player : ℕ) (xs : List ℕ)
    → contains j (retain (λ id. not (id == player)) xs) ≡ not (j == player) && contains j xs
contains_without j player [] = ground arith
contains_without j player (x ∷ xs) = ground (arith, contains_without j player xs)

-- The members of each party.
abbrev pub Members : Type 0
Members = Map ℕ (List ℕ)

unfoldable pub members_of : Map ℕ Party → Members
members_of [] = []
members_of ((id, p) ∷ parties) = (id, p.members) ∷ members_of parties

pub lookup-members_of :
    (id : ℕ) (parties : Map ℕ Party)
    → lookup id (members_of parties) ≡ Option.map (λ p. p.members) (lookup id parties)
unfolding lookup members_of
lookup-members_of id [] = refl
lookup-members_of id ((j, p) ∷ parties) = ground (arith, lookup-members_of id parties)

members_of-put :
    (id : ℕ) (p : Party) (parties : Map ℕ Party)
    → members_of (put id p parties) ≡ put id p.members (members_of parties)
unfolding put members_of
members_of-put id p [] = refl
members_of-put id p ((j, q) ∷ parties) = ground (arith, members_of-put id p parties)

-- A change of a party that keeps its members.
pub members_of-modify :
    (id : ℕ) (f : Party → Party) (parties : Map ℕ Party)
    → ((p : Party) → (f p).members ≡ p.members)
    → members_of (modify id f parties) ≡ members_of parties
unfolding modify members_of
members_of-modify id f [] h = refl
members_of-modify id f ((j, q) ∷ parties) h = ground (arith, members_of-modify id f parties h, h q)

members_of-replace :
    (id : ℕ) (p : Party) (parties : Map ℕ Party)
    → members_of (modify id (λ _. p) parties) ≡ modify id (λ _. p.members) (members_of parties)
unfolding modify members_of
members_of-replace id p [] = refl
members_of-replace id p ((j, q) ∷ parties) = ground (arith, members_of-replace id p parties)

pub members_of-insert :
    (id : ℕ) (p : Party) (parties : Map ℕ Party)
    → members_of (insert id p parties) ≡ insert id p.members (members_of parties)
unfolding insert
members_of-insert id p parties = ground (
  arith,
  members_of-put id p parties,
  members_of-replace id p parties,
  lookup-members_of id parties,
)

pub members_of-remove :
    (id : ℕ) (parties : Map ℕ Party)
    → members_of (remove id parties) ≡ remove id (members_of parties)
unfolding remove members_of
members_of-remove id [] = refl
members_of-remove id ((j, q) ∷ parties) = ground (arith, members_of-remove id parties)

-- Whether a party lists a player.
abbrev pub lists : ℕ → Option (List ℕ) → Bool
lists player o = is_some_and o (λ members. contains player members)

-- A player belongs to a party exactly if the party lists the player.
pub record IsConsistent (members : Members) (player_party : Map ℕ ℕ) : Type 0 where
  pub parties_distinct : IsMap members
  pub players_distinct : IsMap player_party
  pub agree :
      (player id : ℕ)
      → (lookup player player_party ≡ some id) ↔ (lists player (lookup id members) ≡ true)

module _ (members : Members) (player_party : Map ℕ ℕ) (c : IsConsistent members player_party) where
  -- A new party of one player without a party.
  pub created-IsConsistent :
      (id player : ℕ)
      → lookup id members ≡ none
      → lookup player player_party ≡ none
      → IsConsistent (insert id (player ∷ []) members) (insert player id player_party)
  created-IsConsistent id player fresh alone = record {
    parties_distinct = insert-IsMap id (player ∷ []) members c.parties_distinct;
    players_distinct = insert-IsMap player id player_party c.players_distinct;
    agree = λ k j. ground (
      arith,
      fresh,
      alone,
      lookup-insert id j (player ∷ []) members,
      lookup-insert player k id player_party,
      c.agree k j,
      c.agree player j,
      ==_iff id j,
      ==_iff player k,
    );
  }

  -- A player without a party joins one.
  pub joined-IsConsistent :
      (id player : ℕ) (before after : List ℕ)
      → lookup id members ≡ some before
      → lookup player player_party ≡ none
      → ((k : ℕ) → contains k after ≡ (player == k) || contains k before)
      → IsConsistent (insert id after members) (insert player id player_party)
  joined-IsConsistent id player before after e alone grown = record {
    parties_distinct = insert-IsMap id after members c.parties_distinct;
    players_distinct = insert-IsMap player id player_party c.players_distinct;
    agree = λ k j. ground (
      arith,
      e,
      alone,
      grown k,
      lookup-insert id j after members,
      lookup-insert player k id player_party,
      c.agree k j,
      c.agree player j,
      ==_iff id j,
      ==_iff player k,
    );
  }

  -- A player leaves the party.
  pub left-IsConsistent :
      (id player : ℕ) (before after : List ℕ)
      → lookup id members ≡ some before
      → lookup player player_party ≡ some id
      → ((k : ℕ) → contains k after ≡ not (k == player) && contains k before)
      → IsConsistent (insert id after members) (remove player player_party)
  left-IsConsistent id player before after e own less = record {
    parties_distinct = insert-IsMap id after members c.parties_distinct;
    players_distinct = remove-IsMap player player_party c.players_distinct;
    agree = λ k j. ground (
      arith,
      e,
      own,
      less k,
      lookup-insert id j after members,
      lookup-remove_ne player k player_party,
      lookup-remove_self player player_party c.players_distinct,
      c.agree k j,
      c.agree player j,
      ==_iff id j,
      ==_iff player k,
      ==_iff k player,
    );
  }

  -- A party without members is dropped.
  pub dropped-IsConsistent :
      (id : ℕ) → lookup id members ≡ some [] → IsConsistent (remove id members) player_party
  dropped-IsConsistent id e = record {
    parties_distinct = remove-IsMap id members c.parties_distinct;
    players_distinct = c.players_distinct;
    agree = λ k j. ground (
      arith,
      e,
      lookup-remove_ne id j members,
      lookup-remove_self id members c.parties_distinct,
      c.agree k j,
      ==_iff id j,
    );
  }
