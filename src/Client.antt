-- ===== src/Client.antt =====
-- client/src/lib.rs, the typed client: what it reads from the messages of the authority, its session,
-- and the loop that watches events. The calls themselves, `tonic` and TLS are outside.
pub mod Wire
pub mod Types
pub mod Encode
pub mod Shown
pub mod Seen
pub mod Watch
use elo_ranking_pairing_syst.Base.{
  ℕ, Bool, Option, none, some, List, map, is_empty, if_some, ◌==◌, Result, ok, err, if◌then◌else◌,
}
use elo_ranking_pairing_syst.Base.Int.{ℤ, pos, ltb_ℤ}
use elo_ranking_pairing_syst.Base.Text.{Text, text}
use elo_ranking_pairing_syst.Components.{QueueMode, one_vs_one, five_vs_five, free_for_all}
use elo_ranking_pairing_syst.Client.Wire.{
  EncodedPlayer, EncodedParty, EncodedState, EncodedResult, EncodedEvent, Payload,
}
use elo_ranking_pairing_syst.Client.Types.{
  SdkError, rejected, protocol, Operation, SdkPlayer, SdkParty, SdkState, SdkEvent,
}

-- The enumeration `QueueMode` of the client has the constructors of the authority's.
unfoldable pub wire : QueueMode → ℕ
wire one_vs_one = 1
wire five_vs_five = 2
wire free_for_all = 3

unfoldable pub from_wire : ℕ → Option QueueMode
from_wire value =
    if value == 1
    then some one_vs_one
    else if value == 2
    then some five_vs_five
    else if value == 3
    then some free_for_all
    else none

unfoldable pub operation : EncodedResult → Result Operation SdkError
operation v =
    if v.accepted
    then ok (record { entity_id = v.entity_id; revision = v.revision })
    else err (rejected v.code v.message)

unfoldable pub player : EncodedPlayer → SdkPlayer
player p = record {
  id = p.player_id;
  rating = p.rating;
  rating_one_v_one = p.rating_one_v_one;
  rating_five_v_five = p.rating_five_v_five;
  rating_free_for_all = p.rating_free_for_all;
  credit = p.credit;
}

-- The source writes the fields of `player` out once more.
unfoldable pub party : EncodedParty → SdkParty
unfolding player
party v =
    let player_details = map player v.members in
    record {
      id = v.party_id;
      name = v.name;
      leader_id = v.leader_id;
      members = map (λ p. p.id) player_details;
      player_details = player_details;
      revision = v.revision;
      state = v.state;
    }

unfoldable pub nonempty : Text → Option Text
nonempty v = if is_empty v then none else some v

-- `(v > 0).then_some(v)`
unfoldable pub positive : ℤ → Option ℤ
positive v = if ltb_ℤ (pos 0) v then some v else none

unfoldable pub state : EncodedState → SdkState
unfolding player party nonempty positive from_wire
state v = record {
  player_id = v.player_id;
  profile = if_some v.profile (λ p. some (player p)) none;
  credit_suspended_until_ms = positive v.credit_suspended_until_ms;
  queue_mode = from_wire v.queue_mode;
  allowed_regions = v.allowed_regions;
  proposal_deadline_ms = positive v.proposal_deadline_ms;
  party = if_some v.party (λ p. some (party p)) none;
  ticket_id = nonempty v.ticket_id;
  proposal_id = nonempty v.proposal_id;
  match_id = nonempty v.match_id;
}

unfoldable pub read_payload : Payload → ℤ → Result SdkEvent SdkError
unfolding party state positive from_wire
read_payload (Payload.party p) deadline_ms = ok (SdkEvent.party (party p))
read_payload (Payload.proposal_id id) deadline_ms = ok (SdkEvent.proposal id deadline_ms)
read_payload (Payload.matched m) deadline_ms =
    if_some (from_wire m.mode)
      (λ mode. ok (
        SdkEvent.matched (record {
          match_id = m.match_id;
          mode = mode;
          teams = map (λ team. team.player_ids) m.teams;
          endpoint = m.endpoint;
          connection_token = m.connection_token;
        })))
      (err (protocol (text "matched event queue mode missing")))
read_payload (Payload.server_lost_match_id id) deadline_ms = ok (SdkEvent.server_lost id)
read_payload (Payload.state s) deadline_ms = ok (SdkEvent.state (state s))
read_payload (Payload.proposal_cancelled c) deadline_ms = ok (
    SdkEvent.proposal_cancelled (record {
      proposal_id = c.proposal_id;
      reason = c.reason;
      credit = c.credit;
      eligible = c.eligible;
      credit_suspended_until_ms = positive c.credit_suspended_until_ms;
    }))

unfoldable pub event : EncodedEvent → Result SdkEvent SdkError
unfolding read_payload
event v =
    if_some v.event (λ payload. read_payload payload v.deadline_ms)
      (err (protocol (text "event payload missing")))
