-- ===== src/Client/Wire.antt =====
-- The messages of proto/proto/erps.proto as the generated code of `erps_proto` gives them to the client:
-- identifiers and states are strings, an absent message is `none`, enumerations are numbers.
use elo_ranking_pairing_syst.Base.{ℕ, Bool, Option, List}
use elo_ranking_pairing_syst.Base.Int.{ℤ}
use elo_ranking_pairing_syst.Base.Text.{Text}

pub record EncodedResult : Type 0 where
  pub accepted : Bool
  pub code : Text
  pub message : Text
  pub entity_id : Text
  pub revision : ℕ

pub record EncodedPlayer : Type 0 where
  pub player_id : Text
  pub rating : ℤ
  pub credit : ℕ
  pub rating_one_v_one : ℤ
  pub rating_five_v_five : ℤ
  pub rating_free_for_all : ℤ

pub record EncodedParty : Type 0 where
  pub party_id : Text
  pub name : Text
  pub leader_id : Text
  pub members : List EncodedPlayer
  pub revision : ℕ
  pub state : Text

pub record EncodedState : Type 0 where
  pub player_id : Text
  pub party : Option EncodedParty
  pub ticket_id : Text
  pub proposal_id : Text
  pub match_id : Text
  pub profile : Option EncodedPlayer
  pub credit_suspended_until_ms : ℤ
  pub queue_mode : ℕ
  pub allowed_regions : List Text
  pub proposal_deadline_ms : ℤ

pub record EncodedTeam : Type 0 where
  pub team_index : ℕ
  pub player_ids : List Text

pub record EncodedMatch : Type 0 where
  pub match_id : Text
  pub mode : ℕ
  pub teams : List EncodedTeam
  pub endpoint : Text
  pub connection_token : Text

pub record EncodedCancelled : Type 0 where
  pub proposal_id : Text
  pub reason : Text
  pub credit : ℕ
  pub eligible : Bool
  pub credit_suspended_until_ms : ℤ

pub data Payload : Type 0 where
  party : EncodedParty → Payload
  proposal_id : Text → Payload
  matched : EncodedMatch → Payload
  server_lost_match_id : Text → Payload
  state : EncodedState → Payload
  proposal_cancelled : EncodedCancelled → Payload

pub record EncodedEvent : Type 0 where
  pub event : Option Payload
  pub deadline_ms : ℤ
