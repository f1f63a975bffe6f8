-- ===== src/Client/Encode.antt =====
-- How core/src/grpc/mod.rs writes what its authority shows into messages: `pb_mode`, `to_string` of
-- identifiers, `{:?}` of a party's state, `as i64` of times.
use elo_ranking_pairing_syst.Base.{
  ℕ, ◌+◌, ◌-◌, ◌%◌, Option, none, some, List, [], ◌∷◌, map, ltb, if_some, if◌then◌else◌,
}
use elo_ranking_pairing_syst.Base.Int.{ℤ, pos, negsuc}
use elo_ranking_pairing_syst.Base.Word.{u32_mod}
use elo_ranking_pairing_syst.Base.Text.{Text, text}
use elo_ranking_pairing_syst.Components.{
  QueueMode, one_vs_one, five_vs_five, free_for_all, PartyState,
}
use elo_ranking_pairing_syst.Authority.Messages.{PlayerView, PartyView, CancelReason, ClientEvent}
use elo_ranking_pairing_syst.Authority.Client.{ClientState}
use elo_ranking_pairing_syst.Client.Wire.{
  EncodedPlayer, EncodedParty, EncodedState, EncodedTeam, EncodedEvent, Payload,
}

-- `value as i64`, of a word of 64 bits.
unfoldable pub as_i64 : ℕ → ℤ
as_i64 value =
    if ltb value 9223372036854775808 then pos value else negsuc (18446744073709551615 - value)

unfoldable pub pb_mode : QueueMode → ℕ
pb_mode one_vs_one = 1
pb_mode five_vs_five = 2
pb_mode free_for_all = 3

-- `format!("{:?}", party.state)`
unfoldable pub debug : PartyState → Text
debug PartyState.idle = text "Idle"
debug PartyState.queued = text "Queued"
debug PartyState.awaiting_accept = text "AwaitingAccept"
debug PartyState.not_ready = text "NotReady"
debug PartyState.matched = text "Matched"

unfoldable pub reason_text : CancelReason → Text
reason_text CancelReason.rejected = text "rejected"
reason_text CancelReason.timed_out = text "timed_out"
reason_text CancelReason.infrastructure_failure = text "infrastructure_failure"
reason_text CancelReason.completed = text "completed"
reason_text CancelReason.party_member_failed = text "party_member_failed"
reason_text CancelReason.other_player_failed = text "other_player_failed"

-- `to_string` of an identifier is `Display` of the crate `uuid`.
module _ (to_string : ℕ → Text) where
  -- `unwrap_or_default` of an optional identifier.
  unfoldable pub encode_id : Option ℕ → Text
  encode_id id = if_some id to_string []

  unfoldable pub encode_player : PlayerView → EncodedPlayer
  encode_player p = record {
    player_id = to_string p.player_id;
    rating = p.rating;
    credit = p.credit;
    rating_one_v_one = p.rating_one_v_one;
    rating_five_v_five = p.rating_five_v_five;
    rating_free_for_all = p.rating_free_for_all;
  }

  unfoldable pub encode_party : PartyView → EncodedParty
  unfolding encode_player debug
  encode_party p = record {
    party_id = to_string p.party_id;
    name = p.name;
    leader_id = to_string p.leader_id;
    members = map encode_player p.members;
    revision = p.revision;
    state = debug p.state;
  }

  unfoldable pub encode_state : ClientState → EncodedState
  unfolding encode_id encode_player encode_party as_i64 pb_mode
  encode_state s = record {
    player_id = to_string s.player_id;
    party = if_some s.party (λ p. some (encode_party p)) none;
    ticket_id = encode_id s.ticket_id;
    proposal_id = encode_id s.proposal_id;
    match_id = encode_id s.match_id;
    profile = some (encode_player s.profile);
    credit_suspended_until_ms = as_i64 s.credit_suspended_until_ms;
    queue_mode = if_some s.queue_mode pb_mode 0;
    allowed_regions = s.allowed_regions;
    proposal_deadline_ms = as_i64 s.proposal_deadline_ms;
  }

  -- `enumerate`, from `i`.
  unfoldable pub encode_teams : ℕ → List (List ℕ) → List EncodedTeam
  encode_teams i [] = []
  encode_teams i (players ∷ teams) =
      record { team_index = i % u32_mod; player_ids = map to_string players }
      ∷ encode_teams (i + 1) teams

  unfoldable pub encode_payload : ClientEvent → Payload
  unfolding encode_party encode_teams pb_mode reason_text as_i64
  encode_payload (ClientEvent.party_changed p) = Payload.party (encode_party p)
  encode_payload (ClientEvent.proposed id deadline) = Payload.proposal_id (to_string id)
  encode_payload (ClientEvent.proposal_cancelled c) = Payload.proposal_cancelled (record {
    proposal_id = to_string c.proposal_id;
    reason = reason_text c.reason;
    credit = c.credit;
    eligible = c.eligible;
    credit_suspended_until_ms = as_i64 c.credit_suspended_until_ms;
  })
  encode_payload (ClientEvent.matched m) = Payload.matched (record {
    match_id = to_string m.match_id;
    mode = pb_mode m.mode;
    teams = encode_teams 0 m.teams;
    endpoint = m.endpoint;
    connection_token = m.connection_token;
  })
  encode_payload (ClientEvent.server_lost_match_id id) = Payload.server_lost_match_id (to_string id)

  unfoldable pub deadline_of : ClientEvent → ℤ
  unfolding as_i64
  deadline_of (ClientEvent.proposed id deadline) = as_i64 deadline
  deadline_of _ = pos 0

  unfoldable pub encode_event : ClientEvent → EncodedEvent
  unfolding encode_payload deadline_of
  encode_event e = record { event = some (encode_payload e); deadline_ms = deadline_of e }
