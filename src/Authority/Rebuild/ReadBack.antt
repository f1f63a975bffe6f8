-- ===== src/Authority/Rebuild/ReadBack.antt =====
-- The queue that is read from a rebuilt world is that of the state (core/src/grpc/mod.rs).
use mathlib.Core.List.{Permᴰ}
use mathlib.Core.List.Permᴰ
use elo_ranking_pairing_syst.Base.{
  ℕ, ◌≡◌, refl, sym, subst, ◌∙◌, Option, none, some, List, [], ◌∷◌, ◌++◌, map, All, contains,
  is_some, if_some, unwrap_or, if◌then◌else◌, arith, Option-cases, inl, inr,
}
use elo_ranking_pairing_syst.Base.Int.{ℤ, pos}
use elo_ranking_pairing_syst.Base.Text.{Text}
use elo_ranking_pairing_syst.Base.Map.{Map, lookup, values, nat_key, IsMap}
use elo_ranking_pairing_syst.Base.Sort.{HasNoTies, sort_by-eq_of_perm}
use elo_ranking_pairing_syst.Components.{
  QueueMode, one_vs_one, five_vs_five, free_for_all, mode_key, mode_eq,
}
use elo_ranking_pairing_syst.World.{Entity}
use elo_ranking_pairing_syst.Matching.{PartyTicket}
use elo_ranking_pairing_syst.Matching.Sorted.{ticket_order, snapshot}
use elo_ranking_pairing_syst.Authority.Messages.{Env}
use elo_ranking_pairing_syst.Authority.State.{AuthorityState, TicketRecord, rating_of, rated_key}
use elo_ranking_pairing_syst.Authority.Commit.{ecs_ticket, ecs_tickets, snapshot_rating}
use elo_ranking_pairing_syst.Authority.Rebuild.{
  dedup, filter_map, collect_by, read_player, read_party, rebuilt, world_tickets, read_entity,
  read_ticket, player_entity, party_entity, ticket_entity, proposal_entity, server_entity,
  elo_rating, session_players,
}
use elo_ranking_pairing_syst.Authority.Rebuild.Joins.{
  append_nil, any-perm, All-perm, filter_map-perm, filter_map-append, filter_map-none, map_agree,
  names, lookup-collect_by,
}
use elo_ranking_pairing_syst.Authority.Rebuild.Known.{
  All-imp, entries_found, IsKeyed, party_value, known_players, rated, known_parties, listed,
}

module _ {env : Env} where
  lookup-elo_rating :
      (s : AuthorityState env) (mode : QueueMode) (k : ℕ)
      → lookup mode (elo_rating s k) ≡ some (rating_of s mode k)
  unfolding elo_rating lookup mode_eq
  lookup-elo_rating s one_vs_one k = refl
  lookup-elo_rating s five_vs_five k = refl
  lookup-elo_rating s free_for_all k = refl

  -- A ticket, with what is collected of the players and the parties.
  read_entity-ticket_entity :
      (s : AuthorityState env) (now : ℕ) (mode : QueueMode) (region : Text)
      (ratings : Map ℕ (Map QueueMode ℤ)) (parties : Map ℕ (List ℕ × ℕ)) (k : ℕ) (t : TicketRecord)
      → ((j : ℕ)
          → lookup j ratings
            ≡ (if contains j (values s.sessions) then some (elo_rating s j) else none))
      → ((j : ℕ)
          → lookup j parties
            ≡ (if is_some (lookup j s.parties) then some (party_value s j) else none))
      → lookup k s.tickets ≡ some t
      → read_entity s now mode region ratings parties (ticket_entity s now (k, t))
        ≡ ecs_ticket s now mode region k t
  unfolding read_entity read_ticket ticket_entity ecs_ticket
  read_entity-ticket_entity s now mode region ratings parties k t rs ps found =
      elim (Option-cases (lookup k s.parties)) [
        | inl e ↦ rw (ps k, e) refl
        | inr (p, e) ↦
            let rating_in : ℕ → ℤ = λ player.
              unwrap_or (pos 1000)
                (if_some (lookup player ratings) (λ values. lookup mode values) none) in
            let same : map rating_in p.members ≡ map (snapshot_rating s mode) p.members =
              map_agree rating_in (snapshot_rating s mode) p.members
                (λ j. unfold snapshot_rating in ground (arith, rs j, lookup-elo_rating s mode j)) in
            rw (ps k, e, found, same) refl
      ]

  tickets_of_queue :
      (s : AuthorityState env) (now : ℕ) (mode : QueueMode) (region : Text)
      (read : Entity → Option PartyTicket) (tickets : Map ℕ TicketRecord)
      → All
          (λ (x : ℕ × TicketRecord).
            read (ticket_entity s now x) ≡ ecs_ticket s now mode region x.0 x.1)
          tickets
      → filter_map read (map (ticket_entity s now) tickets) ≡ ecs_tickets s now mode region tickets
  unfolding filter_map ecs_tickets
  tickets_of_queue s now mode region read [] h = refl
  tickets_of_queue s now mode region read ((k, t) ∷ tickets) (h, hs) =
      rw (h, tickets_of_queue s now mode region read tickets hs) refl

  rebuilt-filter_map :
      (s : AuthorityState env) (now : ℕ) (mode : QueueMode) (region : Text)
      (ratings : Map ℕ (Map QueueMode ℤ)) (parties : Map ℕ (List ℕ × ℕ))
      → let read = read_entity s now mode region ratings parties in
        filter_map read (rebuilt s now) ≡ filter_map read (map (ticket_entity s now) s.tickets)
  unfolding rebuilt dedup read_entity player_entity party_entity proposal_entity server_entity
  rebuilt-filter_map s now mode region ratings parties =
      let read = read_entity s now mode region ratings parties in
      let players = map (player_entity s) (session_players s) in
      let teams = map party_entity (values s.parties) in
      let queue = map (ticket_entity s now) s.tickets in
      let checks = map proposal_entity (values s.proposals) in
      let fleet = map server_entity (values s.registry) in
      let none_first = filter_map-none read (player_entity s) (session_players s) (λ x. refl) in
      let none_second = filter_map-none read party_entity (values s.parties) (λ x. refl) in
      let none_third = filter_map-none read proposal_entity (values s.proposals) (λ x. refl) in
      let none_last = filter_map-none read server_entity (values s.registry) (λ x. refl) in
      rw
        (
          filter_map-append read players (teams ++ (queue ++ (checks ++ fleet))),
          filter_map-append read teams (queue ++ (checks ++ fleet)),
          filter_map-append read queue (checks ++ fleet),
          filter_map-append read checks fleet,
          none_first,
          none_second,
          none_third,
          none_last,
        )
        (append_nil (filter_map read queue))

  -- The world that the matching reads shows the queue of the state: whatever order the library gives to
  -- its entities, the tickets that are read are those of the state, in some order, with the same ratings,
  -- members and waiting times, and the snapshot is the same, if no two tickets tie. Parties are stored
  -- under their identifiers, each once, and so are tickets under their parties.
  pub snapshot-world_tickets :
      (s : AuthorityState env) (now : ℕ) (mode : QueueMode) (region : Text) (world : List Entity)
      → IsMap s.parties
      → IsKeyed s.parties
      → IsMap s.tickets
      → Permᴰ world (rebuilt s now)
      → HasNoTies ticket_order.le ticket_order.total (ecs_tickets s now mode region s.tickets)
      → Permᴰ (world_tickets world s now mode region) (ecs_tickets s now mode region s.tickets)
        × (snapshot (world_tickets world s now mode region)
            ≡ snapshot (ecs_tickets s now mode region s.tickets))
  unfolding world_tickets snapshot lookup
  snapshot-world_tickets s now mode region world mp keyed mt perm ties =
      let ratings = collect_by read_player world [] in
      let parties = collect_by read_party world [] in
      let back = Permᴰ.symm perm in
      let rs : (j : ℕ)
          → lookup j ratings
            ≡ (if contains j (values s.sessions) then some (elo_rating s j) else none) =
        λ j. ground (
          arith,
          lookup-collect_by read_player (elo_rating s) j world [] (All-perm _ back (rated s now)),
          any-perm (names read_player j) perm,
          known_players s now j,
        ) in
      let ps : (j : ℕ)
          → lookup j parties
            ≡ (if is_some (lookup j s.parties) then some (party_value s j) else none) =
        λ j. ground (
          arith,
          lookup-collect_by read_party (party_value s) j world []
              (All-perm _ back (listed s now mp keyed)),
          any-perm (names read_party j) perm,
          known_parties s now j keyed,
        ) in
      let read = read_entity s now mode region ratings parties in
      let queue = tickets_of_queue s now mode region read s.tickets (
        All-imp _ _ s.tickets
          (λ x found.
            read_entity-ticket_entity s now mode region ratings parties x.0 x.1 rs ps found)
          (entries_found s.tickets mt)) in
      let same =
        subst (λ q. Permᴰ (filter_map read world) q)
          (rebuilt-filter_map s now mode region ratings parties ∙ queue)
          (filter_map-perm read perm) in
      (
        same,
        sym (
            sort_by-eq_of_perm ticket_order.le ticket_order.total ticket_order.trans ties
              (Permᴰ.symm same)),
      )
