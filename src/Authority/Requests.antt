-- ===== src/Authority/Requests.antt =====
-- The requests of the players on parties and the queue: `create_party`, `create_invite`, `join_party`,
-- `leave_party`, `kick_member`, `rename_party`, `enqueue` and `cancel_queue` of core/src/grpc/mod.rs.
-- `now` is the time that a request reads.
pub mod Membership
pub mod Granted
use elo_ranking_pairing_syst.Base.{
  ℕ, ◌+◌, ◌*◌, ◌%◌, Bool, true, false, not, ◌&&◌, ◌||◌, ◌==◌, Option, none, some, List, [], ◌∷◌,
  map, min, max, any, ltb, contains, is_empty, is_some, unwrap_or, Result, ok, err, if◌then◌else◌,
}
use elo_ranking_pairing_syst.Base.Int.{ℤ, pos, ◌-ℤ◌, ltb_ℤ}
use elo_ranking_pairing_syst.Base.Word.{u64_mod}
use elo_ranking_pairing_syst.Base.Text.{Text, is_blank}
use elo_ranking_pairing_syst.Base.Map.{lookup, insert, remove, values, nat_key}
use elo_ranking_pairing_syst.Base.Set as Set
use elo_ranking_pairing_syst.Command.{request_key}
use elo_ranking_pairing_syst.Components.{
  QueueMode, one_vs_one, five_vs_five, free_for_all, PartyState, is_idle,
}
use elo_ranking_pairing_syst.Matching.{least, greatest}
use elo_ranking_pairing_syst.Party as Party
use elo_ranking_pairing_syst.Party.{Party, bump}
use elo_ranking_pairing_syst.Party.Invites as Invites
use elo_ranking_pairing_syst.Authority.{credit_suspension_active}
use elo_ranking_pairing_syst.Authority.Messages.{
  Status, invalid_argument, failed_precondition, not_found, permission_denied, aborted,
  already_exists, MutationMeta, OperationResult, Env,
}
use elo_ranking_pairing_syst.Authority.State.{
  AuthorityState, TicketRecord, rated_key, Step, and_then, ◌>>=◌, ◌>>◌, give, get_state, set_state,
  refuse_if, found, map_err, party_status, next_uuid, meta, remember, rating_of, credit_of,
  emit_party, ok_result,
}

-- `mode`, of the number on the wire.
unfoldable pub mode : ℕ → Option QueueMode
mode v =
    if v == 1
    then some one_vs_one
    else if v == 2
    then some five_vs_five
    else if v == 3
    then some free_for_all
    else none

-- The invitation as the client gets it.
pub record InviteResponse : Type 0 where
  pub token : Text
  pub expires_at_ms : ℕ

-- `max - min`, 0 of no ratings.
unfoldable pub rating_spread : List ℤ → ℤ
unfolding least greatest
rating_spread [] = pos 0
rating_spread (r ∷ rs) = greatest r rs -ℤ least r rs

module _ {env : Env} where
  abbrev pub set_party : AuthorityState env → ℕ → Party → AuthorityState env
  set_party s id p = record s { parties = insert id p s.parties }

  -- How every request that changes the state begins and ends: who sends it, whether it was answered
  -- before, and what is remembered. `body` is what the request does for the player.
  unfoldable pub mutation :
      Option MutationMeta → (ℕ → Step env OperationResult) → Step env OperationResult
  unfolding meta remember
  mutation m body s = elim (meta s m) [
    | err e ↦ (err e, s)
    | ok (player, rid) ↦ elim (lookup (player, rid) s.request_cache) [
      | some v ↦ (ok v, s)
      | none ↦ and_then (body player s) (remember player rid)
    ]
  ]

  unfoldable pub create_party : Text → ℕ → Step env OperationResult
  unfolding next_uuid emit_party Party.new
  create_party name player = do
    s ← get_state
    refuse_if (is_some (lookup player s.player_party)) already_exists
    party ← party_status (Party.new env.unicode 0 player name)
    let (id, s') = next_uuid s 1
    let party' = record party { id = id }
    let s'' = emit_party s' party'
    set_state (record (set_party s'' id party') { player_party = insert player id s.player_party })
    give (ok_result id party'.revision)

  unfoldable pub create_invite :
      Option MutationMeta → Option ℕ → ℕ → ℕ → ℕ → Text → ℕ → Step env InviteResponse
  unfolding meta Invites.create
  create_invite m party_id revision ttl_seconds uses token now = do
    s ← get_state
    (player, _) ← (λ s. (meta s m, s))
    id ← found party_id invalid_argument
    p ← found (lookup id s.parties) not_found
    refuse_if (not (p.leader == player)) permission_denied
    refuse_if (not (p.revision == revision)) aborted
    refuse_if (not (is_idle p.state)) failed_precondition
    let ttl = min (max ttl_seconds 1) 3600 * 1000
    let uses' = min (max uses 1) 100
    set_state (record s { invites = Invites.create s.invites token id now ttl uses' })
    give (record { token = token; expires_at_ms = (now + ttl) % u64_mod })

  unfoldable pub join_party : Text → ℕ → ℕ → Step env OperationResult
  unfolding emit_party Party.join Invites.consume
  join_party invite_token now player = do
    s ← get_state
    refuse_if (is_some (lookup player s.player_party)) already_exists
    let (invited, invites) = Invites.consume s.invites invite_token now
    set_state (record s { invites = invites })
    id ← found invited not_found
    p ← found (lookup id s.parties) not_found
    p' ← party_status (Party.join p player)
    let s' = record s { invites = invites; player_party = insert player id s.player_party }
    set_state (emit_party (set_party s' id p') p')
    give (ok_result id p'.revision)

  unfoldable pub leave_party : Option ℕ → ℕ → ℕ → Step env OperationResult
  unfolding emit_party Party.leave
  leave_party party_id revision player = do
    s ← get_state
    id ← found party_id invalid_argument
    p ← found (lookup id s.parties) not_found
    refuse_if (not (p.revision == revision)) aborted
    (p', empty) ← party_status (Party.leave p player)
    let s' = record (set_party s id p') { player_party = remove player s.player_party }
    set_state (if empty then record s' { parties = remove id s'.parties } else emit_party s' p')
    give (ok_result id p'.revision)

  unfoldable pub kick_member : Option ℕ → Option ℕ → ℕ → ℕ → Step env OperationResult
  unfolding emit_party Party.kick
  kick_member party_id player_id revision player = do
    s ← get_state
    id ← found party_id invalid_argument
    target ← found player_id invalid_argument
    p ← found (lookup id s.parties) not_found
    p' ← party_status (Party.kick p player revision target)
    set_state
        (emit_party (record (set_party s id p') { player_party = remove target s.player_party }) p')
    give (ok_result id p'.revision)

  unfoldable pub rename_party : Option ℕ → ℕ → Text → ℕ → Step env OperationResult
  unfolding emit_party Party.rename
  rename_party party_id revision name player = do
    s ← get_state
    id ← found party_id invalid_argument
    p ← found (lookup id s.parties) not_found
    p' ← party_status (Party.rename env.unicode p player revision name)
    set_state (emit_party (set_party s id p') p')
    give (ok_result id p'.revision)

  -- The tests of `enqueue` on a member: who is not online, and who is suspended.
  unfoldable pub is_away : AuthorityState env → ℕ → Bool
  is_away s member = Set.member member s.offline || not (contains member (values s.sessions))

  unfoldable pub is_suspended : AuthorityState env → ℕ → ℕ → Bool
  unfolding credit_suspension_active
  is_suspended s now member =
      credit_suspension_active (credit_of s member) s.config.minimum_credit
        (lookup member s.credit_suspended_until) now

  unfoldable pub enqueue : Option ℕ → ℕ → ℕ → List Text → ℕ → ℕ → Step env OperationResult
  unfolding mode is_away is_suspended rating_spread next_uuid emit_party Party.validate_enqueue
  enqueue party_id wire_mode revision allowed_regions now player = do
    s ← get_state
    id ← found party_id invalid_argument
    m ← found (mode wire_mode) invalid_argument
    p ← found (lookup id s.parties) not_found
    refuse_if (any (is_away s) p.members) failed_precondition
    refuse_if (any (is_suspended s now) p.members) failed_precondition
    let spread = rating_spread (map (rating_of s m) p.members)
    refuse_if (ltb_ℤ s.config.max_party_rating_spread spread) failed_precondition
    refuse_if (is_empty allowed_regions || any is_blank allowed_regions) invalid_argument
    refuse_if (not (p.leader == player)) permission_denied
    refuse_if (not (p.revision == revision)) aborted
    party_status (Party.validate_enqueue p m)
    let p' = record p { state = PartyState.queued; revision = bump p.revision }
    let (tid, s') = next_uuid (set_party s id p') 2
    let ticket : TicketRecord = record {
      id = tid;
      mode = m;
      regions = allowed_regions;
      enqueued_at = s.logical_clock;
      queued_since_ms = now;
    }
    set_state (emit_party (record s' { tickets = insert id ticket s.tickets }) p')
    give (ok_result tid p'.revision)

  unfoldable pub cancel_queue : Option ℕ → ℕ → ℕ → Step env OperationResult
  unfolding emit_party
  cancel_queue party_id revision player = do
    s ← get_state
    id ← found party_id invalid_argument
    p ← found (lookup id s.parties) not_found
    refuse_if (not (p.leader == player)) permission_denied
    refuse_if (not (p.revision == revision)) aborted
    let p' = record p { state = PartyState.idle; revision = bump p.revision }
    set_state (emit_party (record (set_party s id p') { tickets = remove id s.tickets }) p')
    give (ok_result id p'.revision)
