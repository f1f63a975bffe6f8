-- ===== src/Party/Enqueue.antt =====
-- Which parties may queue, and in which regions (`validate_party_enqueue` of core/src/party.rs).
use elo_ranking_pairing_syst.Base.{
  ℕ, ◌≤◌, ◌≡◌, refl, ◌≢◌, ◌⊎◌, Bool, true, false, ◌&&◌, Option, none, some, List, [], ◌∷◌, map,
  arith, length, any, is_empty, ok, All, ◌∙◌, sym,
}
use elo_ranking_pairing_syst.Base.Text.{Text, text_eq_iff}
use elo_ranking_pairing_syst.Base.Map.{Map, lookup, nat_key, text_key}
use elo_ranking_pairing_syst.Base.Set as Set
use elo_ranking_pairing_syst.Components.{QueueMode, PartyState}
use elo_ranking_pairing_syst.Party.{
  Party, MemberEligibility, intersect_all, region_intersection, is_ineligible, valid_size,
  validate_party_enqueue, regions_of,
}

abbrev pub in_every : Text → List (List Text) → Bool
in_every r [] = true
in_every r (s ∷ rest) = Set.member r s && in_every r rest

intersect_all-member :
    (r : Text) (acc : List Text) (sets : List (List Text))
    → Set.member r (intersect_all acc sets) ≡ Set.member r acc && in_every r sets
unfolding intersect_all
intersect_all-member r acc [] = ground arith
intersect_all-member r acc (s ∷ rest) =
    ground
      (arith, Set.member-intersection r acc s, intersect_all-member r (Set.intersection acc s) rest)

-- The common regions are those in every set, and there is at least one.
pub region_intersection-member :
    (sets : List (List Text)) (common : List Text) (r : Text)
    → region_intersection sets ≡ ok common
    → (Set.member r common ≡ in_every r sets) × (common ≢ [])
unfolding region_intersection
region_intersection-member [] common r h = cc
region_intersection-member (s ∷ rest) common r h =
    (ground (arith, intersect_all-member r s rest), λ e. ground arith)

-- The member is known, online, not active, and has the credit.
abbrev pub IsEligible : ℕ → Option MemberEligibility → Type 0
IsEligible minimum none = ⊥
IsEligible minimum (some v) = (v.online ≡ true) × (minimum ≤ v.credit) × (v.active ≡ false)

abbrev pub allows : Text → Option MemberEligibility → Bool
allows r none = false
allows r (some v) = Set.member r v.regions

module _ (members : Map ℕ MemberEligibility) where
  -- Every member of the party allows the region.
  abbrev pub allowed : Text → List ℕ → Bool
  allowed r [] = true
  allowed r (id ∷ ids) = allows r (lookup id members) && allowed r ids

  abbrev pub Eligible : ℕ → List ℕ → Type 0
  Eligible minimum = All (λ id. IsEligible minimum (lookup id members))

member-not_empty : (r : Text) (s : List Text) → Set.member r s ≡ true → is_empty s ≡ false
unfolding Set.member
member-not_empty r [] h = cc
member-not_empty r (t ∷ s) h = refl

-- A region that is in every set is found.
region_intersection_total :
    (sets : List (List Text)) (r : Text)
    → sets ≢ []
    → in_every r sets ≡ true
    → (found : List Text) × (region_intersection sets ≡ ok found)
unfolding region_intersection
region_intersection_total [] r ne h = absurd (ne refl)
region_intersection_total (s ∷ rest) r ne h = (
  intersect_all s rest,
  ground (arith, intersect_all-member r s rest, member-not_empty r (intersect_all s rest)),
)

-- A party that is let into a queue is idle or not ready, has a size that the mode takes, each of
-- its members is known, online, outside a match and of enough credit, and the regions that it
-- queues in are exactly those that every member allows, of which there is one.
pub record MayQueue (p : Party) (mode : QueueMode) (members : Map ℕ MemberEligibility) (minimum : ℕ)
    (regions : List Text) : Type 0 where
  pub settled : (p.state ≡ PartyState.idle) ⊎ (p.state ≡ PartyState.not_ready)
  pub sized : valid_size mode (length p.members) ≡ true
  pub eligible : Eligible members minimum p.members
  pub common : (r : Text) → Set.member r regions ≡ allowed members r p.members
  pub somewhere : regions ≢ []

module _ (members : Map ℕ MemberEligibility) where
  abbrev states : List ℕ → List (Option MemberEligibility)
  states ids = map (λ id. lookup id members) ids

  none_ineligible :
      (minimum : ℕ) (ids : List ℕ)
      → any (is_ineligible minimum) (states ids) ≡ false
      → Eligible members minimum ids
  unfolding is_ineligible
  none_ineligible minimum [] h = tt
  none_ineligible minimum (id ∷ ids) h = ground (arith, none_ineligible minimum ids)

  no_ineligible :
      (minimum : ℕ) (ids : List ℕ)
      → Eligible members minimum ids
      → any (is_ineligible minimum) (states ids) ≡ false
  unfolding is_ineligible
  no_ineligible minimum [] h = refl
  no_ineligible minimum (id ∷ ids) h = ground (arith, no_ineligible minimum ids h.1)

  sized-states :
      (mode : QueueMode) (ids : List ℕ)
      → valid_size mode (length ids) ≡ true
      → map regions_of (states ids) ≢ []
  unfolding valid_size
  sized-states mode [] h e = ground arith
  sized-states mode (id ∷ ids) h e = cc

  in_every-allowed :
      (r : Text) (ids : List ℕ) → in_every r (map regions_of (states ids)) ≡ allowed members r ids
  unfolding Set.member
  in_every-allowed r [] = refl
  in_every-allowed r (id ∷ ids) = ground (arith, in_every-allowed r ids)

some_member : (s : List Text) → s ≢ [] → (r : Text) × (Set.member r s ≡ true)
unfolding Set.member
some_member [] ne = absurd (ne refl)
some_member (r ∷ s) ne = (r, ground (arith, text_eq_iff r r))

-- Whoever is let into a queue may queue: the checks suffice.
pub validate_party_enqueue_sound :
    (p : Party) (mode : QueueMode) (members : Map ℕ MemberEligibility) (minimum : ℕ)
    (regions : List Text)
    → validate_party_enqueue p mode members minimum ≡ ok regions
    → MayQueue p mode members minimum regions
unfolding validate_party_enqueue
validate_party_enqueue_sound p mode members minimum regions h =
    let sets = map regions_of (states members p.members) in
    let r : region_intersection sets ≡ ok regions = ground arith in
    record {
      settled = ground arith;
      sized = ground arith;
      eligible = none_ineligible members minimum p.members (ground arith);
      common = λ t.
          (region_intersection-member sets regions t r).0 ∙ in_every-allowed members t p.members;
      somewhere = (region_intersection-member sets regions [] r).1;
    }

-- And whoever may queue is let in: with some member, no check refuses more than it must.
pub validate_party_enqueue_complete :
    (p : Party) (mode : QueueMode) (members : Map ℕ MemberEligibility) (minimum : ℕ)
    (regions : List Text)
    → MayQueue p mode members minimum regions
    → (found : List Text) × (validate_party_enqueue p mode members minimum ≡ ok found)
unfolding validate_party_enqueue
validate_party_enqueue_complete p mode members minimum regions w =
    let sets = map regions_of (states members p.members) in
    let (r, found) = some_member regions w.somewhere in
    let (common, e) =
      region_intersection_total sets r (sized-states members mode p.members w.sized)
        (in_every-allowed members r p.members ∙ sym (w.common r) ∙ found) in
    (common, ground (arith, no_ineligible members minimum p.members w.eligible))
