-- ===== src/Authority/State.antt =====
-- `AuthorityState` of core/src/grpc/mod.rs, the state that the actor owns, and what its handlers
-- share: identifiers, the sender of a request, views, events and saved profiles.
use elo_ranking_pairing_syst.Base.{
  ℕ, zero, suc, ◌+◌, ◌*◌, ◌/◌, ◌%◌, ◌^◌, ◌≡◌, ◌↔◌, Bool, true, false, not, ◌&&◌, ◌||◌, ◌==◌, ==_iff,
  Option, none, some, List, [], ◌∷◌, map, max, ltb, unwrap_or, is_some_and, is_empty, Result, ok,
  err, if◌then◌else◌, arith,
}
use elo_ranking_pairing_syst.Base.Int.{ℤ, pos}
use elo_ranking_pairing_syst.Base.Word.{u64_max, saturating_add}
use elo_ranking_pairing_syst.Base.Text.{Text, text}
use elo_ranking_pairing_syst.Base.Map.{Key, Map, lookup, insert, modify, nat_key, text_key}
use elo_ranking_pairing_syst.Command.{request_key}
use elo_ranking_pairing_syst.Components.{
  QueueMode, one_vs_one, five_vs_five, free_for_all, mode_eq, mode_lt, mode_eq_iff,
}
use elo_ranking_pairing_syst.Config.{ErpsConfig}
use elo_ranking_pairing_syst.Party.{Party}
use elo_ranking_pairing_syst.Party.Invites.{InviteStore}
use elo_ranking_pairing_syst.Profile.{PlayerProfile}
use elo_ranking_pairing_syst.Proposal.{Proposal}
use elo_ranking_pairing_syst.Matching.Claims.{Claims}
use elo_ranking_pairing_syst.Server.Types.{Registry}
use elo_ranking_pairing_syst.Authority.Messages.{
  Status, unauthenticated, unavailable, invalid_argument, failed_precondition, ApiVersion,
  MutationMeta, OperationResult, PlayerView, PartyView, ClientEvent, party_changed, Env,
}
use elo_ranking_pairing_syst.Authority.{Completed}

pub record TicketRecord : Type 0 where
  pub id : ℕ
  pub mode : QueueMode
  pub regions : List Text
  pub enqueued_at : ℕ
  pub queued_since_ms : ℕ

-- `(PlayerId, QueueMode)`, with the derived order.
unfoldable pub rated_eq : ℕ × QueueMode → ℕ × QueueMode → Bool
rated_eq a b = (a.0 == b.0) && mode_eq a.1 b.1

pub rated_eq_iff : (a b : ℕ × QueueMode) → (rated_eq a b ≡ true) ↔ (a ≡ b)
unfolding rated_eq
rated_eq_iff a b = ground (arith, ==_iff a.0 b.0, mode_eq_iff a.1 b.1)

instance abbrev pub rated_key : Key (ℕ × QueueMode)
rated_key = record {
  beq = rated_eq;
  lt = λ a b. ltb a.0 b.0 || ((a.0 == b.0) && mode_lt a.1 b.1);
  beq_iff = rated_eq_iff;
}

-- The fields of the source, but for the ECS world, which is rebuilt from the others before it is
-- read, and the metrics, which no handler of the actor reads.
pub record AuthorityState (env : Env) : Type 0 where
  pub config : ErpsConfig env.fl
  pub next_domain_id : ℕ
  pub logical_clock : ℕ
  pub sessions : Map Text ℕ
  pub current_session : Map ℕ Text
  pub disconnect_deadlines : Map ℕ ℕ
  pub offline : List ℕ
  pub parties : Map ℕ Party
  pub player_party : Map ℕ ℕ
  pub invites : InviteStore
  pub tickets : Map ℕ TicketRecord
  pub request_cache : Map (ℕ × Text) OperationResult
  pub events : Map ℕ env.Events
  pub registry : Registry
  pub proposals : Map ℕ Proposal
  pub player_proposal : Map ℕ ℕ
  pub controls : Map ℕ env.Control
  pub launches : Map ℕ (ℕ × ℕ)
  pub launch_deadlines : Map ℕ ℕ
  pub placement_waiting : Map ℕ ℕ
  pub proposal_tickets : Map ℕ (List (ℕ × TicketRecord))
  pub credit : Map ℕ ℕ
  pub recent_credit_violations : Map ℕ ℕ
  pub credit_suspended_until : Map ℕ ℕ
  pub completed_since_credit_recovery : Map ℕ ℕ
  pub ratings : Map (ℕ × QueueMode) ℤ
  pub completed_games : Map (ℕ × QueueMode) ℕ
  pub pending_profile_saves : List (ℕ × PlayerProfile)
  pub player_match : Map ℕ ℕ
  pub completed_match_results : Completed
  pub claims : Claims

-- `|` of words of `w` bits.
unfoldable pub bit_or : ℕ → ℕ → ℕ → ℕ
bit_or zero a b = 0
bit_or (suc w) a b = max (a % 2) (b % 2) + 2 * bit_or w (a / 2) (b / 2)

-- A handler: it changes the state also where it fails.
abbrev pub Step : Env → Type 0 → Type 0
Step env A = AuthorityState env → Result A Status × AuthorityState env

abbrev pub and_then :
    {env : Env} {A B : Type 0}
    → Result A Status × AuthorityState env
    → (A → Step env B)
    → Result B Status × AuthorityState env
and_then (err e, s) f = (err e, s)
and_then (ok a, s) f = f a s

infixl 5 ◌>>=◌ ◌>>◌
abbrev pub ◌>>=◌ : {env : Env} {A B : Type 0} → Step env A → (A → Step env B) → Step env B
(m >>= f) s = and_then (m s) f

abbrev pub ◌>>◌ : {env : Env} {B : Type 0} → Step env (Unit {0}) → Step env B → Step env B
(m >> k) s = and_then (m s) (λ _. k)

abbrev pub give : {env : Env} {A : Type 0} → A → Step env A
give a s = (ok a, s)

abbrev pub get_state : {env : Env} → Step env (AuthorityState env)
get_state s = (ok s, s)

abbrev pub set_state : {env : Env} → AuthorityState env → Step env (Unit {0})
set_state s' s = (ok tt, s')

abbrev pub refuse_if : {env : Env} → Bool → Status → Step env (Unit {0})
refuse_if true e s = (err e, s)
refuse_if false e s = (ok tt, s)

abbrev pub found : {env : Env} {A : Type 0} → Option A → Status → Step env A
found none e s = (err e, s)
found (some a) e s = (ok a, s)

-- `map_err(|_| Status::...)`
abbrev pub map_err : {env : Env} {A E : Type 0} → Status → Result A E → Step env A
map_err e (err x) s = (err e, s)
map_err e (ok a) s = (ok a, s)

abbrev pub party_status : {env : Env} {A E : Type 0} → Result A E → Step env A
party_status = map_err failed_precondition

unfoldable pub check_api : Option ApiVersion → Bool
check_api api = is_some_and api (λ v. v.major == 1)

-- `if let Some(tx) = self.events.get(player) { let _ = tx.send(event); }`
abbrev pub send_to : (env : Env) → ClientEvent → ℕ → Map ℕ env.Events → Map ℕ env.Events
send_to env event player events = modify player (λ tx. env.send tx event) events

unfoldable pub send_all : (env : Env) → ClientEvent → List ℕ → Map ℕ env.Events → Map ℕ env.Events
send_all env event [] events = events
send_all env event (player ∷ players) events =
    send_all env event players (send_to env event player events)

module _ {env : Env} where
  -- The identifier, and the state with the number used up.
  unfoldable pub next_uuid : AuthorityState env → ℕ → ℕ × AuthorityState env
  next_uuid s kind =
      let n = saturating_add u64_max s.next_domain_id 1 in
      let seed = s.config.deterministic_seed * 2 ^ 64 in
      (bit_or 128 (bit_or 128 seed (kind * 2 ^ 56)) n, record s { next_domain_id = n })

  unfoldable pub meta : AuthorityState env → Option MutationMeta → Result (ℕ × Text) Status
  unfolding check_api
  meta s none = if s.config.drain_mode then err unavailable else err invalid_argument
  meta s (some m) =
      if s.config.drain_mode
      then err unavailable
      else if not (check_api m.api)
      then err failed_precondition
      else if is_empty m.request_id
      then err invalid_argument
      else elim (lookup m.session_token s.sessions) [
        | none ↦ err unauthenticated
        | some player ↦ ok (player, m.request_id)
      ]

  unfoldable pub remember : ℕ → Text → OperationResult → Step env OperationResult
  remember p r v s = (ok v, record s { request_cache = insert (p, r) v s.request_cache })

  abbrev pub rating_of : AuthorityState env → QueueMode → ℕ → ℤ
  rating_of s mode player = unwrap_or (pos 1000) (lookup (player, mode) s.ratings)

  abbrev pub credit_of : AuthorityState env → ℕ → ℕ
  credit_of s player = unwrap_or 100 (lookup player s.credit)

  unfoldable pub player_view : AuthorityState env → ℕ → PlayerView
  player_view s player = record {
    player_id = player;
    rating = rating_of s one_vs_one player;
    credit = credit_of s player;
    rating_one_v_one = rating_of s one_vs_one player;
    rating_five_v_five = rating_of s five_vs_five player;
    rating_free_for_all = rating_of s free_for_all player;
  }

  unfoldable pub party_view : AuthorityState env → Party → PartyView
  unfolding player_view
  party_view s p = record {
    party_id = p.id;
    name = p.name;
    leader_id = p.leader;
    members = map (player_view s) p.members;
    revision = p.revision;
    state = p.state;
  }

  unfoldable pub emit_party : AuthorityState env → Party → AuthorityState env
  unfolding party_view send_all
  emit_party s p = record s {
    events = send_all env (party_changed (party_view s p)) p.members s.events;
  }

  unfoldable pub current_profile : AuthorityState env → ℕ → PlayerProfile
  current_profile s player = record {
    ratings =
        map (λ mode. (mode, rating_of s mode player))
          (one_vs_one ∷ five_vs_five ∷ free_for_all ∷ []);
    completed_matches =
        map (λ mode. (mode, unwrap_or 0 (lookup (player, mode) s.completed_games)))
          (one_vs_one ∷ five_vs_five ∷ free_for_all ∷ []);
    credit = credit_of s player;
    recent_credit_violations = unwrap_or 0 (lookup player s.recent_credit_violations);
  }

-- `AuthorityState::new`: nobody and nothing is known.
unfoldable pub new_state : (env : Env) → ErpsConfig env.fl → AuthorityState env
new_state env config = record {
  config = config;
  next_domain_id = 0;
  logical_clock = 0;
  sessions = [];
  current_session = [];
  disconnect_deadlines = [];
  offline = [];
  parties = [];
  player_party = [];
  invites = [];
  tickets = [];
  request_cache = [];
  events = [];
  registry = [];
  proposals = [];
  player_proposal = [];
  controls = [];
  launches = [];
  launch_deadlines = [];
  placement_waiting = [];
  proposal_tickets = [];
  credit = [];
  recent_credit_violations = [];
  credit_suspended_until = [];
  completed_since_credit_recovery = [];
  ratings = [];
  completed_games = [];
  pending_profile_saves = [];
  player_match = [];
  completed_match_results = record { results = []; order = [] };
  claims = [];
}

abbrev pub ok_result : ℕ → ℕ → OperationResult
ok_result id revision = record {
  accepted = true;
  code = text "OK";
  entity_id = id;
  revision = revision;
}
