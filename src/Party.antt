-- ===== src/Party.antt =====
-- core/src/party.rs: names, the party's lifecycle, the test before enqueueing, and regions.
pub mod Names
pub mod Invites
pub mod Lifecycle
pub mod Enqueue
use elo_ranking_pairing_syst.Base.{
  ℕ, ◌+◌, ◌%◌, ◌≡◌, Bool, true, false, not, ◌&&◌, ◌||◌, Option, none, some, List, [], ◌∷◌, map,
  if◌then◌else◌, ltb, leb, ◌==◌, length, any, all, retain, is_empty, contains, first, Result, ok,
  err, ◌>>=◌, ◌>>◌, fail_if, unwrap_or,
}
use elo_ranking_pairing_syst.Base.Word.{u64_mod}
use elo_ranking_pairing_syst.Base.Text.{Text}
use elo_ranking_pairing_syst.Base.Map.{Map, lookup, nat_key, text_key}
use elo_ranking_pairing_syst.Base.Set as Set
use elo_ranking_pairing_syst.Base.Sort.{sort_by}
use elo_ranking_pairing_syst.Components.{
  QueueMode, one_vs_one, five_vs_five, free_for_all, PartyState, is_idle, is_not_ready,
}

pub data PartyError : Type 0 where
  invalid_name leader_required revision_conflict frozen invalid_size no_common_region : PartyError

-- What the code takes from Unicode tables: the crate `unicode_normalization`'s NFC, and
-- `char::is_alphanumeric`. NFC is idempotent.
pub record Unicode : Type 0 where
  pub nfc : Text → Text
  pub is_alphanumeric : ℕ → Bool
  pub nfc_idem : (s : Text) → nfc (nfc s) ≡ nfc s

unfoldable pub normalize_name : Unicode → Text → Result Text PartyError
normalize_name u input =
    let normalized = u.nfc input in
    let count = length normalized in
    if not (leb 1 count && leb count 24) || not (all u.is_alphanumeric normalized)
    then err invalid_name
    else ok normalized

pub record Party : Type 0 where
  pub id : ℕ
  pub name : Text
  pub leader : ℕ
  pub members : List ℕ
  pub revision : ℕ
  pub state : PartyState

-- `Party::new`; `id` is the fresh identifier.
unfoldable pub new : Unicode → ℕ → ℕ → Text → Result Party PartyError
new u id leader name = do
  name' ← normalize_name u name
  ok (record {
    id = id;
    name = name';
    leader = leader;
    members = leader ∷ [];
    revision = 0;
    state = PartyState.idle;
  })

-- `self.revision += 1`
abbrev pub bump : ℕ → ℕ
bump r = (r + 1) % u64_mod

unfoldable pub editable : Party → ℕ → ℕ → Result (Unit {0}) PartyError
editable p actor revision = do
  fail_if (not (actor == p.leader)) leader_required
  fail_if (not (revision == p.revision)) revision_conflict
  fail_if (not (is_idle p.state)) frozen
  ok tt

unfoldable pub rename : Unicode → Party → ℕ → ℕ → Text → Result Party PartyError
unfolding editable
rename u p actor revision name = do
  editable p actor revision
  name' ← normalize_name u name
  ok (record p { name = name'; revision = bump p.revision })

unfoldable pub join : Party → ℕ → Result Party PartyError
join p player = do
  fail_if (not (is_idle p.state)) frozen
  ok (
      if not (contains player p.members)
      then record p { members = sort_by leb (player ∷ p.members); revision = bump p.revision }
      else p)

unfoldable pub kick : Party → ℕ → ℕ → ℕ → Result Party PartyError
unfolding editable
kick p actor revision player = do
  editable p actor revision
  fail_if (player == p.leader) leader_required
  ok (record p {
    members = retain (λ id. not (id == player)) p.members;
    revision = bump p.revision;
  })

-- The party is empty afterwards, or not.
unfoldable pub leave : Party → ℕ → Result (Party × Bool) PartyError
leave p player = do
  fail_if (not (is_idle p.state)) frozen
  let members = retain (λ id. not (id == player)) p.members
  ok (
    record p {
      members = members;
      revision = bump p.revision;
      leader = if player == p.leader then unwrap_or p.leader (first members) else p.leader;
    },
    is_empty members,
  )

-- The sizes that a mode takes.
unfoldable pub valid_size : QueueMode → ℕ → Bool
valid_size one_vs_one n = n == 1
valid_size five_vs_five n = leb 1 n && leb n 5
valid_size free_for_all n = leb 1 n && leb n 4

unfoldable pub validate_enqueue : Party → QueueMode → Result (Unit {0}) PartyError
unfolding valid_size
validate_enqueue p mode = do
  fail_if (not (is_idle p.state || is_not_ready p.state)) frozen
  if valid_size mode (length p.members) then ok tt else err invalid_size

pub record MemberEligibility : Type 0 where
  pub online : Bool
  pub credit : ℕ
  pub active : Bool
  pub regions : List Text

-- `state.is_none_or(|v| !v.online || v.credit < minimum_credit || v.active)`
unfoldable pub is_ineligible : ℕ → Option MemberEligibility → Bool
is_ineligible minimum none = true
is_ineligible minimum (some v) = not v.online || ltb v.credit minimum || v.active

-- `first.clone()` folded with the intersection.
unfoldable pub intersect_all : List Text → List (List Text) → List Text
intersect_all acc [] = acc
intersect_all acc (s ∷ rest) = intersect_all (Set.intersection acc s) rest

unfoldable pub region_intersection : List (List Text) → Result (List Text) PartyError
unfolding intersect_all
region_intersection [] = err no_common_region
region_intersection (s ∷ rest) =
    let result = intersect_all s rest in if is_empty result then err no_common_region else ok result

-- `state.unwrap().regions`; no state is `None` where this is called.
abbrev regions_of : Option MemberEligibility → List Text
regions_of none = []
regions_of (some v) = v.regions

unfoldable pub validate_party_enqueue :
    Party → QueueMode → Map ℕ MemberEligibility → ℕ → Result (List Text) PartyError
unfolding validate_enqueue is_ineligible region_intersection
validate_party_enqueue p mode members minimum = do
  validate_enqueue p mode
  let states = map (λ id. lookup id members) p.members
  fail_if (any (is_ineligible minimum) states) frozen
  region_intersection (map regions_of states)
