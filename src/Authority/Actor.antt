-- ===== src/Authority/Actor.antt =====
-- The actor of core/src/grpc/mod.rs that owns the state: the requests that it takes one after the
-- other, the connections of players (`open_session`, `disconnected`), and `begin_drain`.
pub mod Frame
pub mod Repeat
pub mod Reconnect
pub mod Steady
pub mod Belonging
use elo_ranking_pairing_syst.Base.{
  ℕ, ◌+◌, ◌≡◌, Bool, true, List, [], ◌∷◌, Option, none, some, max, ltb, if_some, is_some,
  is_some_and, for_each, unwrap_or, if◌then◌else◌,
}
use elo_ranking_pairing_syst.Base.Int.{ℤ}
use elo_ranking_pairing_syst.Base.Word.{u64_max, saturating_add, saturating_mul}
use elo_ranking_pairing_syst.Base.Text.{Text, text_eq}
use elo_ranking_pairing_syst.Base.Map.{Map, lookup, insert, remove, nat_key, text_key}
use elo_ranking_pairing_syst.Base.Set as Set
use elo_ranking_pairing_syst.Components.{QueueMode}
use elo_ranking_pairing_syst.Profile.{PlayerProfile}
use elo_ranking_pairing_syst.Authority.Messages.{MutationMeta, OperationResult, Env}
use elo_ranking_pairing_syst.Authority.State.{AuthorityState, Step, rated_key}
use elo_ranking_pairing_syst.Authority.Requests as Requests
use elo_ranking_pairing_syst.Authority.Requests.{mutation}
use elo_ranking_pairing_syst.Authority.Commit.{attempt_all_matches}
use elo_ranking_pairing_syst.Authority.Respond.{proposal_response}

-- The requests that change the state and are remembered: what each carries besides its `meta`.
pub data Action : Type 0 where
  create_party : Text → Action
  join_party : Text → Action
  leave_party : Option ℕ → ℕ → Action
  kick_member : Option ℕ → Option ℕ → ℕ → Action
  rename_party : Option ℕ → ℕ → Text → Action
  enqueue : Option ℕ → ℕ → ℕ → List Text → Action
  cancel_queue : Option ℕ → ℕ → Action
  respond : Option ℕ → Bool → Action

pub record ClientRequest : Type 0 where
  pub sender : Option MutationMeta
  pub action : Action
  pub now : ℕ

-- `for (mode, rating) in profile.ratings`, and the same for the counts.
unfoldable pub load_all :
    {V : Type 0} → ℕ → Map QueueMode V → Map (ℕ × QueueMode) V → Map (ℕ × QueueMode) V
load_all player [] stored = stored
load_all player ((mode, v) ∷ rest) stored = load_all player rest (insert (player, mode) v stored)

module _ {env : Env} where
  unfoldable pub perform : ℕ → Action → ℕ → Step env OperationResult
  unfolding Requests.create_party Requests.join_party Requests.leave_party Requests.kick_member
      Requests.rename_party Requests.enqueue Requests.cancel_queue proposal_response
  perform now (Action.create_party name) = Requests.create_party name
  perform now (Action.join_party token) = Requests.join_party token now
  perform now (Action.leave_party party revision) = Requests.leave_party party revision
  perform now (Action.kick_member party player revision) =
      Requests.kick_member party player revision
  perform now (Action.rename_party party revision name) = Requests.rename_party party revision name
  perform now (Action.enqueue party mode revision regions) =
      Requests.enqueue party mode revision regions now
  perform now (Action.cancel_queue party revision) = Requests.cancel_queue party revision
  perform now (Action.respond proposal accept) = proposal_response proposal accept now

  unfoldable pub handle : ClientRequest → Step env OperationResult
  unfolding mutation perform
  handle r = mutation r.sender (perform r.now r.action)

  -- One job of the actor: the clock counts it, and its answer goes back.
  unfoldable pub run_job : ClientRequest → AuthorityState env → AuthorityState env
  unfolding handle
  run_job r s = (handle r (record s { logical_clock = saturating_add u64_max s.logical_clock 1 })).1

  -- A batch, in the order of its sequence; then the queues are tried. What is to be saved goes to the
  -- profiles and is forgotten.
  unfoldable pub run_batch :
      ℕ → List ClientRequest → AuthorityState env → AuthorityState env × List (ℕ × PlayerProfile)
  unfolding run_job attempt_all_matches
  run_batch now requests s =
      let after = attempt_all_matches now (for_each run_job requests s) in
      (record after { pending_profile_saves = [] }, after.pending_profile_saves)

  unfoldable pub begin_drain : AuthorityState env → AuthorityState env
  begin_drain s = record s { config = record s.config { drain_mode = true } }

  -- Only the stream of the player's current session counts.
  unfoldable pub disconnected : ℕ → ℕ → Text → AuthorityState env → AuthorityState env
  disconnected now player token s =
      let grace = saturating_mul u64_max s.config.disconnect_grace_seconds 1000 in
      if is_some_and (lookup player s.current_session) (λ current. text_eq current token)
      then record s {
        offline = Set.insert player s.offline;
        disconnect_deadlines =
            insert player (saturating_add u64_max now grace) s.disconnect_deadlines;
      }
      else s

  -- `entry(player).or_insert(deadline)`, for a player with too little credit.
  unfoldable pub suspend_again : ℕ → ℕ → PlayerProfile → AuthorityState env → Map ℕ ℕ
  suspend_again now player profile s =
      let steps = max profile.recent_credit_violations 1 in
      let base = s.config.credit_suspension_base_seconds in
      let wait = saturating_mul u64_max (saturating_mul u64_max base steps) 1000 in
      if ltb profile.credit s.config.minimum_credit
      then insert player
          (unwrap_or (saturating_add u64_max now wait) (lookup player s.credit_suspended_until))
          s.credit_suspended_until
      else s.credit_suspended_until

  -- The player's own request, with the fresh token, the saved profile and the new event channel. The
  -- second test of the source's `||` only runs if the player was not offline.
  unfoldable pub open_session :
      ℕ → ℕ → Text → PlayerProfile → env.Events → AuthorityState env → AuthorityState env
  unfolding suspend_again load_all
  open_session now player token profile channel s = record s {
    sessions = insert token player s.sessions;
    offline = Set.remove player s.offline;
    disconnect_deadlines =
        if Set.member player s.offline
        then s.disconnect_deadlines
        else remove player s.disconnect_deadlines;
    current_session = insert player token s.current_session;
    credit = insert player profile.credit s.credit;
    recent_credit_violations =
        insert player profile.recent_credit_violations s.recent_credit_violations;
    credit_suspended_until = suspend_again now player profile s;
    ratings = load_all player profile.ratings s.ratings;
    completed_games = load_all player profile.completed_matches s.completed_games;
    events = insert player channel s.events;
  }
