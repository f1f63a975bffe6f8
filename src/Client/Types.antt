-- ===== src/Client/Types.antt =====
-- The types of client/src/lib.rs that its callers see.
use elo_ranking_pairing_syst.Base.{ℕ, Bool, Option, List}
use elo_ranking_pairing_syst.Base.Int.{ℤ}
use elo_ranking_pairing_syst.Base.Text.{Text}
use elo_ranking_pairing_syst.Components.{QueueMode}

-- `transport` and `rpc` carry what `tonic` reports; here only that it does.
pub data SdkError : Type 0 where
  transport rpc not_connected : SdkError
  rejected : Text → Text → SdkError
  protocol : Text → SdkError

pub record Operation : Type 0 where
  pub entity_id : Text
  pub revision : ℕ

pub record SdkPlayer : Type 0 where
  pub id : Text
  pub rating : ℤ
  pub rating_one_v_one : ℤ
  pub rating_five_v_five : ℤ
  pub rating_free_for_all : ℤ
  pub credit : ℕ

pub record SdkParty : Type 0 where
  pub id : Text
  pub name : Text
  pub leader_id : Text
  pub members : List Text
  pub player_details : List SdkPlayer
  pub revision : ℕ
  pub state : Text

pub record SdkState : Type 0 where
  pub player_id : Text
  pub profile : Option SdkPlayer
  pub credit_suspended_until_ms : Option ℤ
  pub queue_mode : Option QueueMode
  pub allowed_regions : List Text
  pub proposal_deadline_ms : Option ℤ
  pub party : Option SdkParty
  pub ticket_id : Option Text
  pub proposal_id : Option Text
  pub match_id : Option Text

pub record SdkMatch : Type 0 where
  pub match_id : Text
  pub mode : QueueMode
  pub teams : List (List Text)
  pub endpoint : Text
  pub connection_token : Text

pub record SdkCancelled : Type 0 where
  pub proposal_id : Text
  pub reason : Text
  pub credit : ℕ
  pub eligible : Bool
  pub credit_suspended_until_ms : Option ℤ

-- The variants with named fields carry a record; `proposal` has the identifier and the deadline.
pub data SdkEvent : Type 0 where
  party : SdkParty → SdkEvent
  proposal : Text → ℤ → SdkEvent
  matched : SdkMatch → SdkEvent
  server_lost : Text → SdkEvent
  proposal_cancelled : SdkCancelled → SdkEvent
  state : SdkState → SdkEvent
