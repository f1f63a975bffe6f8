-- ===== src/Tests/RequestTests.antt =====
-- Requests of players at concrete inputs.
use elo_ranking_pairing_syst.Base.{◌≡◌, refl, true, false, none, some, [], ◌∷◌, arith, ok, contains}
use elo_ranking_pairing_syst.Base.Text.{text, is_blank}
use elo_ranking_pairing_syst.Base.Int.{◌-ℤ◌}
use elo_ranking_pairing_syst.Base.Map.{lookup, nat_key, text_key}
use elo_ranking_pairing_syst.Base.Set as Set
use elo_ranking_pairing_syst.Components.{one_vs_one, PartyState}
use elo_ranking_pairing_syst.Party as Party
use elo_ranking_pairing_syst.Profile.{default_profile}
use elo_ranking_pairing_syst.Authority.Messages.{OperationResult}
use elo_ranking_pairing_syst.Authority.State.{AuthorityState, next_uuid, bit_or, ok_result}
use elo_ranking_pairing_syst.Authority.Requests as Requests
use elo_ranking_pairing_syst.Authority.Requests.{
  mutation, is_away, is_suspended, rating_spread, enqueue,
}
use elo_ranking_pairing_syst.Authority.Requests.Granted.{
  is_granted, may_enqueue, enqueue-may_enqueue,
}
use elo_ranking_pairing_syst.Authority.Requests.Membership.{members_of, lists}
use elo_ranking_pairing_syst.Authority.Tick.{overdue, drop_player}
use elo_ranking_pairing_syst.Authority.Actor.{
  Action, ClientRequest, perform, disconnected, open_session,
}
use elo_ranking_pairing_syst.Authority.Actor.Steady.{HasConsistent}
use elo_ranking_pairing_syst.Authority.Actor.Belonging.{perform-HasConsistent, kick_member_stranger}
use elo_ranking_pairing_syst.Authority.Actor.Reconnect.{open_session-drop_player}
use elo_ranking_pairing_syst.Tests.AuthorityTests.{town, party, start, sender}

abbrev found_party : ClientRequest
found_party = record {
  sender = sender (text "c");
  action = Action.create_party (text "Q1");
  now = 5;
}

abbrev rename_it : ClientRequest
rename_it = record {
  sender = sender (text "c");
  action = Action.rename_party (some 10) 1 (text "Q2");
  now = 9;
}

abbrev leave_it : ClientRequest
leave_it = record { sender = sender (text "a"); action = Action.leave_party (some 10) 1; now = 7 }

abbrev founded : OperationResult
founded = ok_result (next_uuid start 1).0 0

start-HasConsistent : HasConsistent start
unfolding lookup members_of
start-HasConsistent = record {
  parties_distinct = (refl, (refl, tt));
  players_distinct = (refl, (refl, tt));
  agree = λ player id. ground arith;
}

perform-HasConsistent_example :
    HasConsistent (perform 5 (Action.create_party (text "Q1")) 3 start).1
unfolding lookup next_uuid bit_or
perform-HasConsistent_example =
    perform-HasConsistent 5 (Action.create_party (text "Q1")) 3 start start-HasConsistent refl

abbrev idle_start : AuthorityState town
idle_start = record start {
  parties = (10, party 10 1 PartyState.idle) ∷ (20, party 20 2 PartyState.idle) ∷ [];
}

idle_start-HasConsistent : HasConsistent idle_start
unfolding members_of
idle_start-HasConsistent = start-HasConsistent

abbrev kicked : AuthorityState town
kicked = (Requests.kick_member (some 10) (some 2) 1 1 idle_start).1

kick_member_stranger_example :
    ((Requests.kick_member (some 10) (some 2) 1 1 idle_start).0 ≡ ok (ok_result 10 2))
    × (lookup 2 kicked.player_party ≡ none)
    × (lists 2 (lookup 20 (members_of kicked.parties)) ≡ true)
unfolding lookup
kick_member_stranger_example =
    kick_member_stranger 10 20 2 1 1 (party 10 1 PartyState.idle) idle_start
      idle_start-HasConsistent refl (unfold Party.editable in refl) refl (λ e. omega (arith, e))
      (λ e. omega (arith, e))

abbrev returned : AuthorityState town
returned = open_session 2000 1 (text "d") default_profile [] (disconnected 1000 1 (text "a") start)

open_session-drop_player_example :
    (Set.member 1 returned.offline ≡ false)
    × (contains 1 (overdue 40000 returned.disconnect_deadlines) ≡ true)
    × (lookup 10 (drop_player 40000 1 returned).tickets ≡ none)
unfolding lookup
open_session-drop_player_example =
    open_session-drop_player start 1000 2000 40000 1 10 (text "a") (text "d") default_profile []
      refl refl refl (refl, (refl, tt)) (omega arith)

enqueue-may_enqueue_example :
    (is_granted (enqueue (some 10) 1 1 (text "tw" ∷ []) 500 1 idle_start).0
      ≡ may_enqueue idle_start one_vs_one 1 (text "tw" ∷ []) 500 1 (party 10 1 PartyState.idle))
    × (may_enqueue idle_start one_vs_one 1 (text "tw" ∷ []) 500 1 (party 10 1 PartyState.idle)
          ≡ true
        → (lookup 10 (enqueue (some 10) 1 1 (text "tw" ∷ []) 500 1 idle_start).1.parties
            ≡ some
                (record (party 10 1 PartyState.idle) { state = PartyState.queued; revision = 2 }))
          × (lookup 10 (enqueue (some 10) 1 1 (text "tw" ∷ []) 500 1 idle_start).1.tickets
              ≡ some (record {
                id = (next_uuid idle_start 2).0;
                mode = one_vs_one;
                regions = text "tw" ∷ [];
                enqueued_at = 7;
                queued_since_ms = 500;
              })))
    × (may_enqueue idle_start one_vs_one 1 (text "tw" ∷ []) 500 1 (party 10 1 PartyState.idle)
          ≡ false
        → (enqueue (some 10) 1 1 (text "tw" ∷ []) 500 1 idle_start).1 ≡ idle_start)
unfolding lookup Requests.mode
enqueue-may_enqueue_example =
    enqueue-may_enqueue 10 1 1 500 1 (text "tw" ∷ []) one_vs_one (party 10 1 PartyState.idle)
      idle_start refl refl

-- The leader of an idle party with a session gets into the queue.
queues :
    may_enqueue idle_start one_vs_one 1 (text "tw" ∷ []) 500 1 (party 10 1 PartyState.idle) ≡ true
unfolding lookup is_away is_suspended rating_spread Party.validate_enqueue Set.member ◌-ℤ◌ is_blank
queues = refl
