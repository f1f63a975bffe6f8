-- ===== src/Matching/Dispatcher.antt =====
-- `generate` of core/src/matching/dispatcher.rs: the tickets are split into shards by region, mode
-- and bucket, and each shard is searched on its own.
pub mod Shard
pub mod Budget
pub mod Whole
use elo_ranking_pairing_syst.Base.{
  ℕ, zero, suc, ◌≡◌, ◌↔◌, Bool, true, false, not, ◌&&◌, List, [], ◌∷◌, ◌++◌, map, arith, length,
  retain, any, ◌==◌, ltb, if◌then◌else◌,
}
use elo_ranking_pairing_syst.Base.Int.{ℤ, pos, ◌+ℤ◌, ◌-ℤ◌, max_ℤ, leb_ℤ, div_euclid, div_trunc}
use elo_ranking_pairing_syst.Base.Word.{wrap_i32, abs_i32}
use elo_ranking_pairing_syst.Base.Text.{Text, text_eq, text_eq_iff}
use elo_ranking_pairing_syst.Base.Map.{Key, nat_key}
use elo_ranking_pairing_syst.Base.Set as Set
use elo_ranking_pairing_syst.Base.Order.{Order, nat_order, int_order, text_order, lex, on}
use elo_ranking_pairing_syst.Components.{QueueMode, mode_eq, mode_eq_iff, mode_rank}
use elo_ranking_pairing_syst.Matching.{PartyTicket, Candidate}
use elo_ranking_pairing_syst.Matching.Sorted.{sort_candidates}

-- What owns a shard: a region, a mode and a bucket of 100 points.
pub record Owner : Type 0 where
  pub region : Text
  pub mode : QueueMode
  pub bucket : ℤ

abbrev pub owner_order : Order Owner
owner_order =
    on (λ o. (o.region, (mode_rank o.mode, o.bucket))) (lex text_order (lex nat_order int_order))

unfoldable pub owner_eq : Owner → Owner → Bool
owner_eq a b =
    text_eq a.region b.region
    && mode_eq a.mode b.mode
    && leb_ℤ a.bucket b.bucket
    && leb_ℤ b.bucket a.bucket

pub owner_eq_iff : (a b : Owner) → (owner_eq a b ≡ true) ↔ (a ≡ b)
unfolding owner_eq
owner_eq_iff a b = ground (arith, text_eq_iff a.region b.region, mode_eq_iff a.mode b.mode)

instance abbrev pub owner_key : Key Owner
owner_key = record { beq = owner_eq; lt = λ a b. not (owner_order.le b a); beq_iff = owner_eq_iff }

unfoldable pub owner_of : PartyTicket → Owner
owner_of t = record { region = t.region; mode = t.mode; bucket = div_euclid t.effective_rating 100 }

-- Whether the ticket's search reaches the owner's bucket.
unfoldable pub is_near : Owner → PartyTicket → Bool
is_near o t =
    let halo = div_trunc (wrap_i32 (max_ℤ t.search_delta (pos 0) +ℤ pos 99)) 100 in
    leb_ℤ (abs_i32 (wrap_i32 (div_euclid t.effective_rating 100 -ℤ o.bucket))) halo

unfoldable pub part_of : List PartyTicket → Owner → List PartyTicket
part_of tickets o =
    retain (is_near o) (retain (λ t. text_eq t.region o.region && mode_eq t.mode o.mode) tickets)

-- The shards in the order of their owners, numbered from `shard`.
unfoldable pub partitions : ℕ → List Owner → List PartyTicket → List (ℕ × List PartyTicket)
partitions shard [] tickets = []
partitions shard (o ∷ os) tickets = (shard, part_of tickets o) ∷ partitions (suc shard) os tickets

-- `for candidate in candidates`: what is claimed, the candidates so far, and how many were selected.
unfoldable pub select :
    ℕ → List Candidate → List ℕ → List Candidate → ℕ → List ℕ × List Candidate × ℕ
select budget [] claimed local selected = (claimed, local, selected)
select budget (c ∷ cs) claimed local selected =
    let skip = select budget cs claimed local selected in
    let claimed' = Set.extend claimed c.tickets in
    let local' = local ++ c ∷ [] in
    let rest = select budget cs claimed' local' (suc selected) in
    if any (λ ticket. Set.member ticket claimed) c.tickets
    then skip
    else if length local' == budget
    then (claimed', local', suc selected)
    else rest

-- `candidate.owner_shard = owner_shard`
abbrev pub owned : ℕ → Candidate → Candidate
owned shard c = record c { owner_shard = shard }

-- The builder's candidates for the tickets that remain, in order.
unfoldable pub proposals :
    (List PartyTicket → List Candidate) → ℕ → List PartyTicket → List Candidate
proposals builder shard remaining = sort_candidates (map (owned shard) (builder remaining))

-- `while local.len() < budget`, on fuel.
unfoldable pub search_shard :
    ℕ
    → (List PartyTicket → List Candidate)
    → ℕ
    → ℕ
    → List PartyTicket
    → List Candidate
    → List Candidate
search_shard zero builder budget shard remaining local = local
search_shard (suc fuel) builder budget shard remaining local =
    let (claimed, local', selected) =
      select budget (proposals builder shard remaining) [] local 0 in
    let remaining' = retain (λ t. not (Set.member t.id claimed)) remaining in
    let rest = search_shard fuel builder budget shard remaining' local' in
    if ltb (length local) budget then (if selected == 0 then local' else rest) else local

-- `flat_map` over the shards; a shard has `budget` as its fuel.
unfoldable pub search_all :
    (List PartyTicket → List Candidate) → ℕ → List (ℕ × List PartyTicket) → List Candidate
search_all builder budget [] = []
search_all builder budget ((shard, part) ∷ parts) =
    search_shard budget builder budget shard part [] ++ search_all builder budget parts

-- `generate`; the pool of workers, a library, keeps the order of the shards.
unfoldable pub generate :
    List PartyTicket → ℕ → (List PartyTicket → List Candidate) → List Candidate
generate snapshot budget builder =
    let owners = Set.extend [] (map owner_of snapshot) in
    sort_candidates (search_all builder budget (partitions 0 owners snapshot))
