-- ===== src/Authority/Commit.antt =====
-- `ecs_tickets`, `attempt_all_matches`, `attempt_match_batch` and `commit_candidate` of
-- core/src/grpc/mod.rs: from the queues to proposals.
pub mod RoundTrip
use elo_ranking_pairing_syst.Base.{
  ℕ, ◌+◌, ◌*◌, ◌/◌, ◌%◌, ◌≡◌, ◌↔◌, Bool, true, false, not, ◌&&◌, ◌||◌, ◌==◌, Option, none, some,
  List, [], ◌∷◌, ◌++◌, map, any, all, contains, is_some, if_some, unwrap_or, for_each,
  if◌then◌else◌, arith,
}
use elo_ranking_pairing_syst.Base.Int.{ℤ, pos}
use elo_ranking_pairing_syst.Base.Word.{u64_mod, saturating_sub}
use elo_ranking_pairing_syst.Base.Text.{Text, text_eq, text_lt, text_eq_iff}
use elo_ranking_pairing_syst.Base.Map.{
  Key, Map, lookup, insert, modify, remove, keys, values, nat_key,
}
use elo_ranking_pairing_syst.Base.Set as Set
use elo_ranking_pairing_syst.Components.{
  QueueMode, one_vs_one, five_vs_five, free_for_all, mode_eq, mode_lt, mode_eq_iff, PartyState,
}
use elo_ranking_pairing_syst.Matching.{PartyTicket, Candidate, effective_rating_for_mode}
use elo_ranking_pairing_syst.Matching.Bucket.{search_delta}
use elo_ranking_pairing_syst.Matching.Claims as Claims
use elo_ranking_pairing_syst.Matching.Dispatcher.{generate}
use elo_ranking_pairing_syst.Matching.FiveVFive as FiveVFive
use elo_ranking_pairing_syst.Matching.FreeForAll as FreeForAll
use elo_ranking_pairing_syst.Matching.OneVOne as OneVOne
use elo_ranking_pairing_syst.Matching.Sorted.{snapshot}
use elo_ranking_pairing_syst.Party.{Party, bump}
use elo_ranking_pairing_syst.Placement.{feasible}
use elo_ranking_pairing_syst.Proposal.{Proposal, from_candidate}
use elo_ranking_pairing_syst.Authority.Messages.{proposed, Env}
use elo_ranking_pairing_syst.Authority.State.{
  AuthorityState, TicketRecord, rating_of, next_uuid, send_to,
}

-- `(QueueMode, String)`, with the derived order.
unfoldable pub queue_eq : QueueMode × Text → QueueMode × Text → Bool
queue_eq a b = mode_eq a.0 b.0 && text_eq a.1 b.1

pub queue_eq_iff : (a b : QueueMode × Text) → (queue_eq a b ≡ true) ↔ (a ≡ b)
unfolding queue_eq
queue_eq_iff a b = ground (arith, mode_eq_iff a.0 b.0, text_eq_iff a.1 b.1)

instance abbrev pub queue_key : Key (QueueMode × Text)
queue_key = record {
  beq = queue_eq;
  lt = λ a b. mode_lt a.0 b.0 || (mode_eq a.0 b.0 && text_lt a.1 b.1);
  beq_iff = queue_eq_iff;
}

abbrev pub is_queued : PartyState → Bool
is_queued PartyState.queued = true
is_queued _ = false

-- The builder of a mode, with the limit of its search.
abbrev pub builder_of : QueueMode → List PartyTicket → List Candidate
builder_of one_vs_one items = OneVOne.build items
builder_of five_vs_five items = FiveVFive.build items 1024
builder_of free_for_all items = FreeForAll.build items 1024

-- `tickets.iter().find(|t| t.id == *id).map(|t| t.party)`, for each identifier.
unfoldable pub find_party : List PartyTicket → ℕ → Option ℕ
find_party [] id = none
find_party (t ∷ ts) id = if t.id == id then some t.party else find_party ts id

unfoldable pub selected_parties : List PartyTicket → List ℕ → List ℕ
unfolding find_party
selected_parties tickets [] = []
selected_parties tickets (id ∷ ids) =
    let rest = selected_parties tickets ids in
    if_some (find_party tickets id) (λ party. party ∷ rest) rest

-- `flat_map(|(id, p)| p.members.iter().map(|v| (*v, *id)))`, collected.
unfoldable pub own_all : ℕ → List ℕ → Map ℕ ℕ → Map ℕ ℕ
own_all id [] owners = owners
own_all id (member ∷ members) owners = own_all id members (insert member id owners)

unfoldable pub collect_owners : Map ℕ Party → List ℕ → Map ℕ ℕ → Map ℕ ℕ
unfolding own_all
collect_owners parties [] owners = owners
collect_owners parties (id ∷ ids) owners =
    collect_owners parties ids
      (if_some (lookup id parties) (λ p. own_all id p.members owners) owners)

-- The pairs of a mode and a region of a ticket.
abbrev pub queues_of : TicketRecord → List (QueueMode × Text)
queues_of t = map (λ region. (t.mode, region)) t.regions

unfoldable pub all_queues : List TicketRecord → List (QueueMode × Text)
all_queues [] = []
all_queues (t ∷ ts) = Set.extend (all_queues ts) (queues_of t)

-- The tickets that a proposal takes out of the queue.
unfoldable pub saved_tickets : Map ℕ TicketRecord → List ℕ → List (ℕ × TicketRecord)
saved_tickets tickets [] = []
saved_tickets tickets (id ∷ ids) =
    let rest = saved_tickets (remove id tickets) ids in
    if_some (lookup id tickets) (λ ticket. (id, ticket) ∷ rest) rest

module _ {env : Env} where
  -- A member's rating in the snapshot, which knows the players with a session.
  unfoldable pub snapshot_rating : AuthorityState env → QueueMode → ℕ → ℤ
  snapshot_rating s mode player =
      if contains player (values s.sessions) then rating_of s mode player else pos 1000

  -- One ticket in the snapshot, for a region.
  unfoldable pub ecs_ticket :
      AuthorityState env → ℕ → QueueMode → Text → ℕ → TicketRecord → Option PartyTicket
  unfolding snapshot_rating effective_rating_for_mode search_delta
  ecs_ticket s now mode region party_id ticket =
      if_some (lookup party_id s.parties)
        (λ p.
          let ratings = map (snapshot_rating s mode) p.members in
          let wait_seconds = saturating_sub now ticket.queued_since_ms / 1000 in
          let rating =
            effective_rating_for_mode mode ratings s.config.party_size_rating_adjustment
              s.config.party_spread_rating_adjustment s.config.max_party_rating_spread in
          if mode_eq ticket.mode mode && any (λ candidate. text_eq candidate region) ticket.regions
          then if_some rating
              (λ effective. some (record {
                id = ticket.id;
                party = party_id;
                members = p.members;
                ratings = ratings;
                effective_rating = effective;
                enqueued_at = ticket.enqueued_at;
                revision = p.revision;
                region = region;
                mode = mode;
                search_delta =
                    search_delta s.config.initial_elo_delta s.config.elo_step
                      s.config.elo_step_seconds s.config.maximum_elo_delta 0 wait_seconds;
                wait_seconds = wait_seconds;
              }))
              none
          else none)
        none

  -- The snapshot is taken right after the ECS world is rebuilt, so it is read from the maps of which
  -- that is made; Authority.Rebuild reads it from the world.
  unfoldable pub ecs_tickets :
      AuthorityState env → ℕ → QueueMode → Text → Map ℕ TicketRecord → List PartyTicket
  unfolding ecs_ticket
  ecs_tickets s now mode region [] = []
  ecs_tickets s now mode region ((party_id, ticket) ∷ tickets) =
      let rest = ecs_tickets s now mode region tickets in
      if_some (ecs_ticket s now mode region party_id ticket) (λ t. t ∷ rest) rest

  abbrev pub is_free : AuthorityState env → ℕ → Bool
  is_free s player =
      not (Set.member player s.offline)
      && not (is_some (lookup player s.player_proposal))
      && not (is_some (lookup player s.player_match))

  -- Whether a ticket of the snapshot still stands.
  unfoldable pub is_current : AuthorityState env → PartyTicket → Bool
  is_current s t =
      if_some (lookup t.party s.parties)
        (λ p. (p.revision == t.revision) && is_queued p.state && all (is_free s) p.members) false
      && is_some (lookup t.party s.tickets)

  unfoldable pub is_valid : AuthorityState env → List PartyTicket → ℕ → Bool
  unfolding is_current
  is_valid s tickets id = any (λ t. (t.id == id) && is_current s t) tickets

  -- A party leaves the queue for the ready check.
  unfoldable pub await_accept : ℕ → AuthorityState env → AuthorityState env
  await_accept party_id s = record s {
    tickets = remove party_id s.tickets;
    parties =
        modify party_id
          (λ p. record p { state = PartyState.awaiting_accept; revision = bump p.revision })
          s.parties;
  }

  unfoldable pub propose : ℕ → ℕ → ℕ → AuthorityState env → AuthorityState env
  propose proposal_id deadline player s = record s {
    player_proposal = insert player proposal_id s.player_proposal;
    events = send_to env (proposed proposal_id deadline) player s.events;
  }

  unfoldable pub commit_candidate :
      ℕ → Candidate → List PartyTicket → AuthorityState env → AuthorityState env
  unfolding selected_parties collect_owners from_candidate next_uuid saved_tickets await_accept
      propose
  commit_candidate now c tickets s =
      let selected = selected_parties tickets c.tickets in
      let owners = collect_owners s.parties selected [] in
      let timeout = s.config.ready_timeout_seconds * 1000 % u64_mod in
      let (id, counted) = next_uuid s 3 in
      let proposal = from_candidate id c owners now timeout in
      let saved = saved_tickets s.tickets selected in
      let waiting = for_each await_accept selected counted in
      let stored = record waiting { proposal_tickets = insert id saved waiting.proposal_tickets } in
      let told = for_each (propose id proposal.deadline) (keys proposal.responses) stored in
      record told { proposals = insert id proposal told.proposals }

  -- One turn of the loop over the candidates.
  unfoldable pub try_candidate :
      ℕ → List PartyTicket → Candidate → AuthorityState env → AuthorityState env
  unfolding Claims.commit is_valid commit_candidate
  try_candidate now tickets c s =
      let (claims, taken) = Claims.commit s.claims c (is_valid s tickets) in
      if taken then commit_candidate now c tickets (record s { claims = claims }) else s

  unfoldable pub attempt_match_batch :
      ℕ → QueueMode × Text → AuthorityState env → AuthorityState env
  unfolding feasible ecs_tickets snapshot generate try_candidate
  attempt_match_batch now (mode, region) s =
      let tickets = ecs_tickets s now mode region s.tickets in
      let candidates = generate (snapshot tickets) 1024 (builder_of mode) in
      if feasible s.registry mode region
      then for_each (try_candidate now tickets) candidates s
      else s

  unfoldable pub attempt_all_matches : ℕ → AuthorityState env → AuthorityState env
  unfolding all_queues attempt_match_batch
  attempt_all_matches now s = for_each (attempt_match_batch now) (all_queues (values s.tickets)) s
