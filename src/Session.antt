-- ===== src/Session.antt =====
-- core/src/session.rs: sessions, which a player may take up again within a time of grace.
use elo_ranking_pairing_syst.Base.{
  ℕ, ◌≡◌, Bool, true, false, not, Option, none, some, List, [], ◌∷◌, leb, ltb, is_some_and, if_some,
  if◌then◌else◌, arith, ==_iff,
}
use elo_ranking_pairing_syst.Base.Word.{saturating_sub}
use elo_ranking_pairing_syst.Base.Map.{Map, lookup, insert, modify, values, nat_key}
use elo_ranking_pairing_syst.Base.Map.Laws.{lookup-modify}

pub record Session : Type 0 where
  pub id : ℕ
  pub player : ℕ
  pub disconnected_at : Option ℕ

abbrev pub Sessions : Type 0
Sessions = Map ℕ Session

-- The fresh identifier is an argument.
unfoldable pub connect : Sessions → ℕ → ℕ → Sessions
connect items id player =
    insert id (record { id = id; player = player; disconnected_at = none }) items

unfoldable pub disconnect : Sessions → ℕ → ℕ → Sessions
disconnect items id now = modify id (λ s. record s { disconnected_at = some now }) items

abbrev pub is_in_grace : ℕ → ℕ → Session → Bool
is_in_grace now grace s = is_some_and s.disconnected_at (λ at. leb (saturating_sub now at) grace)

unfoldable pub reconnect : Sessions → ℕ → ℕ → ℕ → Sessions × Bool
reconnect items id now grace =
    if_some (lookup id items)
      (λ s.
        if is_in_grace now grace s
        then (modify id (λ s. record s { disconnected_at = none }) items, true)
        else (items, false))
      (items, false)

abbrev pub is_expired : ℕ → ℕ → Session → Bool
is_expired now grace s = is_some_and s.disconnected_at (λ at. ltb grace (saturating_sub now at))

unfoldable pub expired_of : ℕ → ℕ → List Session → List ℕ
expired_of now grace [] = []
expired_of now grace (s ∷ ss) =
    let rest = expired_of now grace ss in if is_expired now grace s then s.player ∷ rest else rest

unfoldable pub expired_players : Sessions → ℕ → ℕ → List ℕ
expired_players items now grace = expired_of now grace (values items)

-- A session that was lost at a time can be taken up exactly within the grace, once, and is then as
-- before; at any time exactly one holds, that it can be taken up or that it counts as expired.
pub reconnect-disconnect :
    (items : Sessions) (id at now grace : ℕ) (s : Session)
    → lookup id items ≡ some s
    → ((reconnect (disconnect items id at) id now grace).1 ≡ leb (saturating_sub now at) grace)
      × (is_expired now grace (record s { disconnected_at = some at })
          ≡ not (reconnect (disconnect items id at) id now grace).1)
      × ((reconnect (disconnect items id at) id now grace).1 ≡ true
          → (lookup id (reconnect (disconnect items id at) id now grace).0
              ≡ some (record s { disconnected_at = none }))
            × ((reconnect (reconnect (disconnect items id at) id now grace).0 id now grace).1
                ≡ false))
unfolding reconnect disconnect
reconnect-disconnect items id at now grace s h =
    let cut = λ (s : Session). record s { disconnected_at = some at } in
    let cleared = λ (s : Session). record s { disconnected_at = none } in
    let lost = modify id cut items in
    ground (arith, h, lookup-modify id id cut items, lookup-modify id id cleared lost, ==_iff id id)
