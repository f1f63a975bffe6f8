-- ===== src/Matching.antt =====
-- core/src/matching/mod.rs: tickets, candidates, and the rating of a party.
pub mod Bucket
pub mod Claims
pub mod Sorted
pub mod OneVOne
pub mod Groups
pub mod FiveVFive
pub mod FreeForAll
pub mod Dispatcher
pub mod Builders
use mathlib.Core.Option
use elo_ranking_pairing_syst.Base.{
  ◌==◌, ℕ, ◌-◌, Option, none, some, List, [], ◌∷◌, leb, length, if◌then◌else◌,
}
use elo_ranking_pairing_syst.Base.Int.{
  ℤ, pos, ◌+ℤ◌, ◌-ℤ◌, ◌*ℤ◌, ltb_ℤ, min_ℤ, max_ℤ, div_trunc, sum_ℤ,
}
use elo_ranking_pairing_syst.Base.Word.{saturate_i32, saturating_add_i32}
use elo_ranking_pairing_syst.Base.Text.{Text}
use elo_ranking_pairing_syst.Base.Sort.{sort_by}
use elo_ranking_pairing_syst.Components.{QueueMode, five_vs_five, mode_eq}

pub record PartyTicket : Type 0 where
  pub id : ℕ
  pub party : ℕ
  pub members : List ℕ
  pub ratings : List ℤ
  pub effective_rating : ℤ
  pub enqueued_at : ℕ
  pub revision : ℕ
  pub region : Text
  pub mode : QueueMode
  pub search_delta : ℤ
  pub wait_seconds : ℕ

pub record Candidate : Type 0 where
  pub tickets : List ℕ
  pub teams : List (List ℕ)
  pub oldest_enqueued_at : ℕ
  pub quality_key : ℤ × ℤ × ℤ
  pub owner_shard : ℕ

unfoldable pub stable_ticket_ids : Candidate → List ℕ
stable_ticket_ids c = sort_by leb c.tickets

-- `FIVE_V_FIVE_MIRROR_SECONDS`
abbrev pub five_v_five_mirror_seconds : ℕ
five_v_five_mirror_seconds = 60

-- `iter().min()` and `max()` of a list with a first element.
unfoldable pub least : ℤ → List ℤ → ℤ
least a [] = a
least a (x ∷ xs) = least (min_ℤ a x) xs

unfoldable pub greatest : ℤ → List ℤ → ℤ
greatest a [] = a
greatest a (x ∷ xs) = greatest (max_ℤ a x) xs

unfoldable pub effective_rating : List ℤ → ℤ → ℤ → ℤ → Option ℤ
effective_rating [] size_adjustment spread_adjustment max_spread = none
effective_rating (r ∷ rs) size_adjustment spread_adjustment max_spread =
    let ratings = r ∷ rs in
    let spread = greatest r rs -ℤ least r rs in
    let average = div_trunc (sum_ℤ ratings) (length ratings) in
    let adjusted =
      average
      +ℤ size_adjustment *ℤ pos (length ratings - 1)
      +ℤ div_trunc (spread_adjustment *ℤ spread) 100 in
    if ltb_ℤ max_spread spread then none else some (saturate_i32 adjusted)

-- `FIVE_V_FIVE_PARTY_BONUSES`, by the party's size.
unfoldable pub five_v_five_party_bonus : ℕ → ℤ
five_v_five_party_bonus size =
    if size == 2
    then pos 5
    else if size == 3
    then pos 10
    else if size == 4
    then pos 20
    else if size == 5
    then pos 30
    else pos 0

unfoldable pub effective_rating_for_mode : QueueMode → List ℤ → ℤ → ℤ → ℤ → Option ℤ
effective_rating_for_mode mode ratings size_adjustment spread_adjustment max_spread =
    let team = mode_eq mode five_vs_five in
    let size_adjustment' = if team then pos 0 else size_adjustment in
    Option.map
      (λ rating.
        if team
        then saturating_add_i32 rating (five_v_five_party_bonus (length ratings))
        else rating)
      (effective_rating ratings size_adjustment' spread_adjustment max_spread)
