-- ===== src/Authority/Tick.antt =====
-- `tick` of core/src/grpc/mod.rs: what the clock brings about, in the source's order.
pub mod Tracked
use elo_ranking_pairing_syst.Base.{
  ℕ, Bool, true, false, List, [], ◌∷◌, ltb, if_some, is_some, is_some_and, for_each, Result, ok,
  err, if◌then◌else◌,
}
use elo_ranking_pairing_syst.Base.Word.{u64_max, saturating_add, saturating_mul}
use elo_ranking_pairing_syst.Base.Map.{Map, lookup, modify, remove, keys, nat_key}
use elo_ranking_pairing_syst.Components.{PartyState, AcceptState}
use elo_ranking_pairing_syst.Proposal.{Proposal, cancelled, expire}
use elo_ranking_pairing_syst.Server.Monitor.{update_health}
use elo_ranking_pairing_syst.Authority.Messages.{Status, server_lost_match_id, Env}
use elo_ranking_pairing_syst.Authority.State.{AuthorityState, send_all}
use elo_ranking_pairing_syst.Authority.Cancel.{cancel_proposal}
use elo_ranking_pairing_syst.Authority.Commit.{attempt_all_matches}
use elo_ranking_pairing_syst.Authority.Launch.{start_launch, retry_launch}

-- The keys whose deadline has passed.
unfoldable pub overdue : ℕ → Map ℕ ℕ → List ℕ
overdue now [] = []
overdue now ((id, deadline) ∷ deadlines) =
    let rest = overdue now deadlines in if ltb deadline now then id ∷ rest else rest

-- A player that stayed away counts as timed out, and the proposal is cancelled.
unfoldable pub miss : ℕ → Proposal → Proposal
miss player p =
    if is_some (lookup player p.responses)
    then record p {
      responses = modify player (λ _. AcceptState.timed_out) p.responses;
      state = cancelled;
    }
    else p

-- `iter_mut().filter_map(|(id, proposal)| proposal.expire(now).then_some(*id))`
unfoldable pub expire_all : ℕ → Map ℕ Proposal → Map ℕ Proposal × List ℕ
unfolding expire
expire_all now [] = ([], [])
expire_all now ((id, p) ∷ proposals) =
    let (rest, ids) = expire_all now proposals in
    let (p', expired) = expire p now in ((id, p') ∷ rest, if expired then id ∷ ids else ids)

module _ {env : Env} where
  -- One turn of each of the loops.
  unfoldable pub drop_player : ℕ → ℕ → AuthorityState env → AuthorityState env
  unfolding miss cancel_proposal
  drop_player now player s =
      let gone = record s { disconnect_deadlines = remove player s.disconnect_deadlines } in
      if_some (lookup player s.player_party)
        (λ party_id.
          if_some (lookup player s.player_proposal)
            (λ proposal_id.
              cancel_proposal now proposal_id false
                (record gone { proposals = modify proposal_id (miss player) s.proposals }))
            (if is_some (lookup party_id s.tickets)
              then record gone {
                tickets = remove party_id s.tickets;
                parties =
                    modify party_id
                      (λ p. record p {
                        state = PartyState.idle;
                        revision = saturating_add u64_max p.revision 1;
                      })
                      s.parties;
              }
              else gone))
        gone

  abbrev pub cancel_expired : ℕ → ℕ → AuthorityState env → AuthorityState env
  cancel_expired now proposal_id s = cancel_proposal now proposal_id false s

  -- What a launch of a waiting match comes to; `deadline` is what was waited for.
  unfoldable pub after_launch : ℕ → ℕ → Result ℕ Status × AuthorityState env → AuthorityState env
  unfolding cancel_proposal
  after_launch now proposal_id (ok match_id, s) = record s {
    placement_waiting = remove proposal_id s.placement_waiting;
  }
  after_launch now proposal_id (err e, s) =
      if is_some_and (lookup proposal_id s.placement_waiting) (λ deadline. ltb deadline now)
      then cancel_proposal now proposal_id true
          (record s { placement_waiting = remove proposal_id s.placement_waiting })
      else s

  unfoldable pub place_waiting : ℕ → ℕ → AuthorityState env → AuthorityState env
  unfolding start_launch after_launch
  place_waiting now proposal_id s = after_launch now proposal_id (start_launch now proposal_id s)

  unfoldable pub give_up :
      ℕ → ℕ → ℕ → Result (Unit {0}) Status × AuthorityState env → AuthorityState env
  unfolding cancel_proposal
  give_up now match_id proposal_id (ok _, s) = s
  give_up now match_id proposal_id (err e, s) =
      let s' = cancel_proposal now proposal_id true s in
      record s' { launches = remove match_id s'.launches }

  unfoldable pub abandon :
      ℕ → ℕ → ℕ → Result (Unit {0}) Status × AuthorityState env → AuthorityState env
  unfolding give_up
  abandon now match_id proposal_id (ok _, s) = s
  abandon now match_id proposal_id (err e, s) =
      let s' = give_up now match_id proposal_id (err e, s) in
      record s' { launch_deadlines = remove match_id s'.launch_deadlines }

  -- A match on a server that is lost: the players of a running one are told, another is moved.
  unfoldable pub handle_lost : ℕ → ℕ × Bool → AuthorityState env → AuthorityState env
  unfolding send_all retry_launch abandon
  handle_lost now (match_id, was_running) s =
      if_some (lookup match_id s.launches)
        (λ launched.
          if was_running
          then if_some (lookup launched.1 s.proposals)
              (λ p. record s {
                events = send_all env (server_lost_match_id match_id) (keys p.responses) s.events;
              })
              s
          else abandon now match_id launched.1 (retry_launch now match_id launched.0 launched.1 s))
        s

  unfoldable pub time_out_launch : ℕ → ℕ → AuthorityState env → AuthorityState env
  unfolding retry_launch give_up
  time_out_launch now match_id s =
      if_some (lookup match_id s.launches)
        (λ launched.
          give_up now match_id launched.1 (retry_launch now match_id launched.0 launched.1 s))
        s

  abbrev pub unhealthy_after : AuthorityState env → ℕ
  unhealthy_after s =
      saturating_mul u64_max
        (saturating_mul u64_max s.config.heartbeat_interval_seconds s.config.unhealthy_after_missed)
        1000

  -- The parts of `tick`, each of which reads its list when the former ones are done.
  unfoldable pub drop_players : ℕ → AuthorityState env → AuthorityState env
  unfolding overdue drop_player
  drop_players now s = for_each (drop_player now) (overdue now s.disconnect_deadlines) s

  unfoldable pub cancel_overdue : ℕ → AuthorityState env → AuthorityState env
  unfolding expire_all cancel_proposal
  cancel_overdue now s =
      let (proposals, expired) = expire_all now s.proposals in
      for_each (cancel_expired now) expired (record s { proposals = proposals })

  unfoldable pub place_all : ℕ → AuthorityState env → AuthorityState env
  unfolding place_waiting
  place_all now s = for_each (place_waiting now) (keys s.placement_waiting) s

  unfoldable pub check_servers : ℕ → AuthorityState env → AuthorityState env
  unfolding update_health handle_lost
  check_servers now s =
      let lost_after = saturating_mul u64_max s.config.lost_after_seconds 1000 in
      let (registry, lost) = update_health s.registry now (unhealthy_after s) lost_after in
      for_each (handle_lost now) lost (record s { registry = registry })

  unfoldable pub time_out_launches : ℕ → AuthorityState env → AuthorityState env
  unfolding overdue time_out_launch
  time_out_launches now s = for_each (time_out_launch now) (overdue now s.launch_deadlines) s

  unfoldable pub tick : ℕ → AuthorityState env → AuthorityState env
  unfolding drop_players cancel_overdue place_all check_servers time_out_launches
      attempt_all_matches
  tick now s = attempt_all_matches now (
      time_out_launches now
        (check_servers now (place_all now (cancel_overdue now (drop_players now s)))))
