-- ===== src/Client/Seen.antt =====
-- What a player's client reads is what the authority showed (client/src/lib.rs and `client_state` of
-- core/src/grpc/mod.rs).
use elo_ranking_pairing_syst.Base.{
  ◌∙◌, ap, leb, inl, inr, Option-cases, ℕ, ◌≡◌, refl, false, ◌&&◌, Option, none, some, List, [],
  ◌∷◌, map, ltb, is_empty, if_some, ok, if◌then◌else◌, arith,
}
use elo_ranking_pairing_syst.Base.Int.{pos}
use elo_ranking_pairing_syst.Base.Text.{Text}
use elo_ranking_pairing_syst.Base.Map.{lookup, nat_key}
use elo_ranking_pairing_syst.Components.{one_vs_one, five_vs_five, free_for_all}
use elo_ranking_pairing_syst.Authority.Messages.{Env, PlayerView, ClientEvent}
use elo_ranking_pairing_syst.Authority.State.{
  AuthorityState, TicketRecord, rating_of, credit_of, player_view, party_view,
}
use elo_ranking_pairing_syst.Authority.{proposal_mode, credit_suspension_active}
use elo_ranking_pairing_syst.Authority.Launch.{common_regions}
use elo_ranking_pairing_syst.Party.{Party}
use elo_ranking_pairing_syst.Proposal.{Proposal}
use elo_ranking_pairing_syst.Authority.Client.{
  ticket_of, proposal_of, proposal_regions, suspended_until, client_state,
}
use elo_ranking_pairing_syst.Client.{nonempty, player, party, state, read_payload, event}
use elo_ranking_pairing_syst.Client.Encode.{
  as_i64, debug, reason_text, encode_id, encode_player, encode_party, encode_state, encode_teams,
  encode_payload, deadline_of, encode_event,
}
use elo_ranking_pairing_syst.Client.Wire.{EncodedTeam}
use elo_ranking_pairing_syst.Client.Types.{SdkPlayer, SdkParty, SdkState, SdkMatch, SdkEvent}
use elo_ranking_pairing_syst.Client.Shown.{
  if_signed, if_signed-as_i64, in_time, positive-as_i64, from_wire-pb_mode, from_wire_optional,
  party-encode_party, rosters, nonempty-encode_id, shown_player, shown_party,
}

module _ (to_string : ℕ → Text) where
  -- What the client must make of an event.
  abbrev pub Told : ClientEvent → SdkEvent → Type 0
  Told (ClientEvent.party_changed p) (SdkEvent.party q) = q ≡ shown_party to_string p
  Told (ClientEvent.proposed id deadline) (SdkEvent.proposal j d) =
      (j ≡ to_string id)
      × (d ≡ as_i64 deadline)
      × (if_signed deadline d ≡ if_signed deadline (pos deadline))
  Told (ClientEvent.proposal_cancelled c) (SdkEvent.proposal_cancelled d) =
      (d.proposal_id ≡ to_string c.proposal_id)
      × (d.reason ≡ reason_text c.reason)
      × (d.credit ≡ c.credit)
      × (d.eligible ≡ c.eligible)
      × (d.credit_suspended_until_ms ≡ in_time c.credit_suspended_until_ms)
  Told (ClientEvent.matched m) (SdkEvent.matched n) =
      (n.match_id ≡ to_string m.match_id)
      × (n.mode ≡ m.mode)
      × (n.teams ≡ map (map to_string) m.teams)
      × (n.endpoint ≡ m.endpoint)
      × (n.connection_token ≡ m.connection_token)
  Told (ClientEvent.server_lost_match_id id) (SdkEvent.server_lost j) = j ≡ to_string id
  Told _ _ = ⊥

  -- The client reads every event of the authority without an error, as the event of the same kind, with
  -- the same identifiers, mode, rosters in the same order, endpoint, token, credit and deadline, and a
  -- party with its name, leader, revision, state and members, each with the same credit and the same
  -- rating of every mode.
  pub event-encode_event :
      (e : ClientEvent) → (x : SdkEvent) × (event (encode_event to_string e) ≡ ok x) × Told e x
  unfolding event read_payload party encode_event encode_payload encode_party deadline_of
  event-encode_event (ClientEvent.party_changed p) = (_, refl, party-encode_party to_string p)
  event-encode_event (ClientEvent.proposed id deadline) =
      (_, refl, (refl, refl, if_signed-as_i64 deadline))
  event-encode_event (ClientEvent.proposal_cancelled c) =
      (_, refl, (refl, refl, refl, refl, positive-as_i64 c.credit_suspended_until_ms))
  event-encode_event (ClientEvent.matched m) =
      let seen : SdkMatch = record {
        match_id = to_string m.match_id;
        mode = m.mode;
        teams = map (λ (t : EncodedTeam). t.player_ids) (encode_teams to_string 0 m.teams);
        endpoint = m.endpoint;
        connection_token = m.connection_token;
      } in
      (
        SdkEvent.matched seen,
        rw (from_wire-pb_mode m.mode) refl,
        (refl, refl, rosters to_string 0 m.teams, refl, refl),
      )
  event-encode_event (ClientEvent.server_lost_match_id id) = (_, refl, refl)

  module _ {env : Env} where
    -- The party that the player is in, its ticket, and the player's proposal.
    abbrev pub own_party : AuthorityState env → ℕ → Option Party
    own_party s id = if_some (lookup id s.player_party) (λ i. lookup i s.parties) none

    abbrev pub own_ticket : AuthorityState env → ℕ → Option TicketRecord
    own_ticket s id = if_some (own_party s id) (λ p. lookup p.id s.tickets) none

    abbrev pub own_proposal : AuthorityState env → ℕ → Option Proposal
    own_proposal s id = if_some (lookup id s.player_proposal) (λ i. lookup i s.proposals) none

    abbrev pub rated_player : AuthorityState env → ℕ → SdkPlayer
    rated_player s id = record {
      id = to_string id;
      rating = rating_of s one_vs_one id;
      rating_one_v_one = rating_of s one_vs_one id;
      rating_five_v_five = rating_of s five_vs_five id;
      rating_free_for_all = rating_of s free_for_all id;
      credit = credit_of s id;
    }

    abbrev pub rated_party : AuthorityState env → Party → SdkParty
    rated_party s p = record {
      id = to_string p.id;
      name = p.name;
      leader_id = to_string p.leader;
      members = map to_string p.members;
      player_details = map (rated_player s) p.members;
      revision = p.revision;
      state = debug p.state;
    }

    -- The end of a suspension that is on, or zero.
    abbrev pub barred_until : AuthorityState env → ℕ → ℕ → ℕ
    barred_until s now id =
        if_some (lookup id s.credit_suspended_until)
          (λ until.
            if ltb (credit_of s id) s.config.minimum_credit && leb now until then until else 0)
          0

    -- What the authority's maps say of a player.
    abbrev pub known_state : AuthorityState env → ℕ → ℕ → SdkState
    known_state s now id = record {
      player_id = to_string id;
      profile = some (rated_player s id);
      credit_suspended_until_ms = in_time (barred_until s now id);
      queue_mode =
          if_some (own_ticket s id) (λ t. some t.mode)
            (if_some (own_proposal s id) (λ p. some (proposal_mode p)) none);
      allowed_regions =
          if_some (own_ticket s id) (λ t. t.regions)
            (if_some (lookup id s.player_proposal)
              (λ i. if_some (lookup i s.proposal_tickets) common_regions []) []);
      proposal_deadline_ms = in_time (if_some (own_proposal s id) (λ p. p.deadline) 0);
      party = if_some (own_party s id) (λ p. some (rated_party s p)) none;
      ticket_id = if_some (own_ticket s id) (λ t. some (to_string t.id)) none;
      proposal_id = if_some (lookup id s.player_proposal) (λ i. some (to_string i)) none;
      match_id = if_some (lookup id s.player_match) (λ i. some (to_string i)) none;
    }

    shown_views :
        (s : AuthorityState env) (ids : List ℕ)
        → let views = map (player_view s) ids in
          (map (λ (v : PlayerView). to_string v.player_id) views ≡ map to_string ids)
          × (map (shown_player to_string) views ≡ map (rated_player s) ids)
    unfolding player_view
    shown_views s [] = (refl, refl)
    shown_views s (i ∷ ids) = (ground (arith, shown_views s ids), ground (arith, shown_views s ids))

    seen_party :
        (s : AuthorityState env) (p : Party)
        → party (encode_party to_string (party_view s p)) ≡ rated_party s p
    unfolding party_view
    seen_party s p = ground (
      arith,
      party-encode_party to_string (party_view s p),
      (shown_views s p.members).0,
      (shown_views s p.members).1,
    )

    seen_own_party :
        (s : AuthorityState env) (now id : ℕ)
        → (state (encode_state to_string (client_state s now id))).party
          ≡ (known_state s now id).party
    unfolding state encode_state client_state
    seen_own_party s now id = elim (Option-cases (lookup id s.player_party)) [
      | inl e ↦ rw e refl
      | inr (i, e) ↦ elim (Option-cases (lookup i s.parties)) [
        | inl f ↦ rw (e, f) refl
        | inr (p, f) ↦ rw (e, f) (ap some (seen_party s p))
      ]
    ]

    ticket_of_lem : (s : AuthorityState env) (id : ℕ) → ticket_of s id ≡ own_ticket s id
    unfolding ticket_of
    ticket_of_lem s id = ground arith

    proposal_of_lem : (s : AuthorityState env) (id : ℕ) → proposal_of s id ≡ own_proposal s id
    unfolding proposal_of
    proposal_of_lem s id = refl

    suspended_until_lem :
        (s : AuthorityState env) (now id : ℕ) → suspended_until s now id ≡ barred_until s now id
    unfolding suspended_until credit_suspension_active
    suspended_until_lem s now id = ground arith

    -- A client that asks for its state reads what the authority knows of the player, in all fields: the
    -- player's ratings and credit, the party with the same figures of its members in order, the ticket of
    -- the party, the proposal and the match exactly if there is one, the mode and the regions of the
    -- ticket or else of the proposal; a time is absent exactly if it is zero or past the greatest 64-bit
    -- signed number. Identifiers are written as texts that are not empty.
    pub state-client_state :
        ((n : ℕ) → is_empty (to_string n) ≡ false)
        → (s : AuthorityState env) (now id : ℕ)
        → state (encode_state to_string (client_state s now id)) ≡ known_state s now id
    unfolding state encode_state client_state player encode_player player_view proposal_regions
    state-client_state written s now id =
        let shown = client_state s now id in
        let ticket = ticket_of_lem s id in
        let proposal = proposal_of_lem s id in
        let regions : shown.allowed_regions ≡ (known_state s now id).allowed_regions =
          ground (arith, ticket) in
        let mode : shown.queue_mode ≡ (known_state s now id).queue_mode =
          ground (arith, ticket, proposal) in
        let due : shown.proposal_deadline_ms ≡ if_some (own_proposal s id) (λ p. p.deadline) 0 =
          ground (arith, proposal) in
        let barred : shown.credit_suspended_until_ms ≡ barred_until s now id =
          suspended_until_lem s now id in
        let own : nonempty (encode_id to_string shown.ticket_id)
            ≡ (known_state s now id).ticket_id =
          ground (arith, nonempty-encode_id to_string written shown.ticket_id, ticket) in
        let until = positive-as_i64 shown.credit_suspended_until_ms ∙ ap in_time barred in
        let end = positive-as_i64 shown.proposal_deadline_ms ∙ ap in_time due in
        let read_mode = from_wire_optional shown.queue_mode ∙ mode in
        let own_seen = seen_own_party s now id in
        let proposed = nonempty-encode_id to_string written shown.proposal_id in
        let matched = nonempty-encode_id to_string written shown.match_id in
        λ k. record {
          player_id = to_string id;
          profile = some (rated_player s id);
          credit_suspended_until_ms = until k;
          queue_mode = read_mode k;
          allowed_regions = regions k;
          proposal_deadline_ms = end k;
          party = own_seen k;
          ticket_id = own k;
          proposal_id = proposed k;
          match_id = matched k;
        }
