-- ===== src/Authority/Messages.antt =====
-- The messages of proto/proto/erps.proto that the authority of core/src/grpc/mod.rs takes and sends,
-- and what stands for the crates `tonic` and `tokio`. Identifiers in requests are parsed already: a
-- malformed one is `none`.
use elo_ranking_pairing_syst.Base.{ℕ, Bool, Option, List}
use elo_ranking_pairing_syst.Base.Int.{ℤ}
use elo_ranking_pairing_syst.Base.Text.{Text}
use elo_ranking_pairing_syst.Components.{QueueMode, PartyState}
use elo_ranking_pairing_syst.Party.{Unicode}
use elo_ranking_pairing_syst.Rating.{Float}

-- `tonic::Status`, by its code.
pub data Status : Type 0 where
  unauthenticated unavailable invalid_argument failed_precondition not_found permission_denied
        aborted already_exists resource_exhausted :
      Status

pub record ApiVersion : Type 0 where
  pub major : ℕ
  pub minor : ℕ

pub record MutationMeta : Type 0 where
  pub api : Option ApiVersion
  pub request_id : Text
  pub session_token : Text

pub record OperationResult : Type 0 where
  pub accepted : Bool
  pub code : Text
  pub entity_id : ℕ
  pub revision : ℕ

pub record PlayerView : Type 0 where
  pub player_id : ℕ
  pub rating : ℤ
  pub credit : ℕ
  pub rating_one_v_one : ℤ
  pub rating_five_v_five : ℤ
  pub rating_free_for_all : ℤ

pub record PartyView : Type 0 where
  pub party_id : ℕ
  pub name : Text
  pub leader_id : ℕ
  pub members : List PlayerView
  pub revision : ℕ
  pub state : PartyState

pub data CancelReason : Type 0 where
  rejected timed_out infrastructure_failure completed party_member_failed other_player_failed :
      CancelReason

pub record ProposalCancelledEvent : Type 0 where
  pub proposal_id : ℕ
  pub reason : CancelReason
  pub credit : ℕ
  pub eligible : Bool
  pub credit_suspended_until_ms : ℕ

pub record MatchEvent : Type 0 where
  pub match_id : ℕ
  pub mode : QueueMode
  pub teams : List (List ℕ)
  pub endpoint : Text
  pub connection_token : Text

-- `proposed` carries the deadline.
pub data ClientEvent : Type 0 where
  party_changed : PartyView → ClientEvent
  proposed : ℕ → ℕ → ClientEvent
  proposal_cancelled : ProposalCancelledEvent → ClientEvent
  matched : MatchEvent → ClientEvent
  server_lost_match_id : ℕ → ClientEvent

pub record LaunchMatch : Type 0 where
  pub match_id : ℕ
  pub mode : QueueMode
  pub teams : List (List ℕ)
  pub reserved_cost : ℕ

pub data ErpsControl : Type 0 where
  launch : LaunchMatch → ErpsControl
  match_result_ack : ℕ → ErpsControl

pub record LaunchResult : Type 0 where
  pub match_id : Option ℕ
  pub state : Text
  pub endpoint : Text
  pub connection_token : Text

pub record GameInstance : Type 0 where
  pub match_id : Option ℕ
  pub reserved_cost : ℕ
  pub state : Text
  pub endpoint : Text
  pub connection_token : Text

pub record Placement : Type 0 where
  pub player_id : Option ℕ
  pub rank : ℕ

pub record MatchResult : Type 0 where
  pub match_id : Option ℕ
  pub placements : List Placement

pub data ServerControl : Type 0 where
  heartbeat : ℕ → ServerControl
  launch_result : LaunchResult → ServerControl
  game_instance : GameInstance → ServerControl
  match_result : MatchResult → ServerControl

-- What the authority takes from elsewhere: floating-point numbers, Unicode tables, the broadcast
-- channels to the clients, whose `send` never fails the caller, and the bounded control streams to the
-- servers, whose `try_send` gives nothing if the stream is full or closed.
pub record Env : Type 1 where
  pub fl : Float
  pub unicode : Unicode
  pub Events : Type 0
  pub send : Events → ClientEvent → Events
  pub Control : Type 0
  pub try_send : Control → ErpsControl → Option Control
