-- ===== src/Authority/Outcome.antt =====
-- `launch_result` of core/src/grpc/mod.rs: what a server answers to a launch.
pub mod Published
pub mod Tracked
use elo_ranking_pairing_syst.Base.{
  ℕ, Bool, true, false, not, ◌||◌, ◌==◌, some, [], map, all, unwrap_or, is_some_and, for_each, ok,
  err, if◌then◌else◌,
}
use elo_ranking_pairing_syst.Base.Text.{Text, text, is_blank, eq_ignore_ascii_case}
use elo_ranking_pairing_syst.Base.Map.{lookup, insert, modify, remove, keys, nat_key}
use elo_ranking_pairing_syst.Components.{PartyState}
use elo_ranking_pairing_syst.Proposal.{Proposal}
use elo_ranking_pairing_syst.Server.Types.{
  InstanceState, reserved, accepted, running, Instance, Registry, is_reachable,
}
use elo_ranking_pairing_syst.Authority.{proposal_mode}
use elo_ranking_pairing_syst.Authority.Messages.{
  invalid_argument, failed_precondition, not_found, permission_denied, ClientEvent, matched,
  LaunchResult, Env,
}
use elo_ranking_pairing_syst.Authority.State.{
  AuthorityState, Step, ◌>>=◌, ◌>>◌, get_state, set_state, refuse_if, found, send_to,
}
use elo_ranking_pairing_syst.Authority.Cancel.{emit_one}
use elo_ranking_pairing_syst.Authority.Launch.{retry_launch}

-- The change of one instance.
abbrev pub set_instance : ℕ → ℕ → (Instance → Instance) → Registry → Registry
set_instance server match_id f registry =
    modify server (λ s. record s { instances = modify match_id f s.instances }) registry

-- An instance that runs, where players reach it.
abbrev pub run_at : Text → Text → Instance → Instance
run_at endpoint token i = record i {
  state = running;
  endpoint = some endpoint;
  connection_token = some token;
}

-- Accepted, ready or running.
abbrev pub may_be_ready : InstanceState → Bool
may_be_ready accepted = true
may_be_ready state = is_reachable state

-- Reserved or accepted.
abbrev pub may_be_rejected : InstanceState → Bool
may_be_rejected reserved = true
may_be_rejected accepted = true
may_be_rejected _ = false

module _ {env : Env} where
  unfoldable pub accept_launch : ℕ → ℕ → InstanceState → Step env (Unit {0})
  accept_launch server match_id reserved s = (
    ok tt,
    record s {
      registry = set_instance server match_id (λ i. record i { state = accepted }) s.registry;
    },
  )
  accept_launch server match_id accepted s = (ok tt, s)
  accept_launch server match_id _ s = (err failed_precondition, s)

  -- One turn of the loop over the players of a match that is published.
  unfoldable pub admit : ℕ → ClientEvent → ℕ → AuthorityState env → AuthorityState env
  admit match_id event player s = record s {
    player_match = insert player match_id s.player_match;
    player_proposal = remove player s.player_proposal;
    events = send_to env event player s.events;
  }

  unfoldable pub set_matched : ℕ → AuthorityState env → AuthorityState env
  set_matched id s = record s {
    parties = modify id (λ p. record p { state = PartyState.matched }) s.parties;
  }

  -- Whether every player of the proposal is in the match already.
  unfoldable pub is_published : AuthorityState env → ℕ → Proposal → Bool
  is_published s match_id p =
      all (λ player. is_some_and (lookup player s.player_match) (λ m. m == match_id))
        (keys p.responses)

  -- The instance runs, and the launch is no longer waited for.
  abbrev pub mark_running : ℕ → ℕ → Text → Text → AuthorityState env → AuthorityState env
  mark_running server match_id endpoint token s = record s {
    registry = set_instance server match_id (run_at endpoint token) s.registry;
    launch_deadlines = remove match_id s.launch_deadlines;
  }

  unfoldable pub publish : ℕ → ℕ → Proposal → Text → Text → AuthorityState env → AuthorityState env
  unfolding proposal_mode admit set_matched emit_one
  publish match_id proposal_id p endpoint token s =
      let event = matched (record {
        match_id = match_id;
        mode = proposal_mode p;
        teams = p.teams;
        endpoint = endpoint;
        connection_token = token;
      }) in
      let admitted = for_each (admit match_id event) (keys p.responses) s in
      let parties = map (λ t. t.0) (unwrap_or [] (lookup proposal_id s.proposal_tickets)) in
      for_each emit_one parties (for_each set_matched parties admitted)

  unfoldable pub ready_launch :
      ℕ → ℕ → ℕ → Proposal → InstanceState → Text → Text → Step env (Unit {0})
  unfolding is_published publish
  ready_launch server match_id proposal_id p state endpoint token = do
    refuse_if (is_blank endpoint || is_blank token) invalid_argument
    refuse_if (not (may_be_ready state)) failed_precondition
    s ← get_state
    let s' = mark_running server match_id endpoint token s
    set_state
        (if is_published s match_id p then s' else publish match_id proposal_id p endpoint token s')

  unfoldable pub reject_launch : ℕ → ℕ → ℕ → ℕ → InstanceState → Step env (Unit {0})
  unfolding retry_launch
  reject_launch now server match_id proposal_id state = do
    refuse_if (not (may_be_rejected state)) failed_precondition
    retry_launch now match_id server proposal_id

  -- By what the server says of the launch.
  unfoldable pub dispatch :
      ℕ → ℕ → ℕ → ℕ → Proposal → InstanceState → LaunchResult → Step env (Unit {0})
  unfolding accept_launch ready_launch reject_launch eq_ignore_ascii_case
  dispatch now server match_id proposal_id p state result =
      if eq_ignore_ascii_case result.state (text "accepted")
      then accept_launch server match_id state
      else if eq_ignore_ascii_case result.state (text "ready")
      then ready_launch server match_id proposal_id p state result.endpoint result.connection_token
      else if eq_ignore_ascii_case result.state (text "rejected")
          || eq_ignore_ascii_case result.state (text "failed")
      then reject_launch now server match_id proposal_id state
      else refuse_if true invalid_argument

  unfoldable pub launch_result : ℕ → ℕ → LaunchResult → Step env (Unit {0})
  unfolding dispatch
  launch_result now server result = do
    s ← get_state
    match_id ← found result.match_id invalid_argument
    (owner, proposal_id) ← found (lookup match_id s.launches) not_found
    refuse_if (not (owner == server)) permission_denied
    p ← found (lookup proposal_id s.proposals) not_found
    game_server ← found (lookup server s.registry) not_found
    i ← found (lookup match_id game_server.instances) not_found
    dispatch now server match_id proposal_id p i.state result
