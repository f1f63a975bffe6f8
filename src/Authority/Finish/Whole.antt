-- ===== src/Authority/Finish/Whole.antt =====
-- A match ends as a whole or not at all (`finish_match` of core/src/grpc/mod.rs).
use elo_ranking_pairing_syst.Base.{
  is_some_and, ℕ, ◌≡◌, refl, ◌∙◌, Bool, true, none, some, [], inl, inr, Option-cases, Result-cases,
  ok, err, arith, for_each, for_each_keeps,
}
use elo_ranking_pairing_syst.Base.Map.{Map, lookup, remove, values, nat_key, IsMap}
use elo_ranking_pairing_syst.Base.Map.Laws.{lookup-remove_self}
use elo_ranking_pairing_syst.Base.Set as Set
use elo_ranking_pairing_syst.Components.{QueueMode}
use elo_ranking_pairing_syst.Placement as Placement
use elo_ranking_pairing_syst.Placement.{let_go}
use elo_ranking_pairing_syst.Placement.Reservation.{release-IsRegistry}
use elo_ranking_pairing_syst.Proposal.{Proposal, flatten}
use elo_ranking_pairing_syst.Server.Types.{Registry, GameServer, is_running}
use elo_ranking_pairing_syst.Server.Ledger.{IsRegistry}
use elo_ranking_pairing_syst.Authority.{proposal_mode, Completed}
use elo_ranking_pairing_syst.Authority.Messages.{Env, MatchResult, Status, not_found}
use elo_ranking_pairing_syst.Authority.State.{AuthorityState, emit_party}
use elo_ranking_pairing_syst.Authority.Cancel.{emit_one, save_profile}
use elo_ranking_pairing_syst.Authority.Finish.{
  settle_player, set_idle, settle_all, forget_match, finish_match, rate, FinishedMatch,
  check_result,
}

module _ {env : Env} where
  -- What the end of a match reads after the players are settled.
  abbrev placed : AuthorityState env → Registry × Map ℕ (ℕ × ℕ) × Map ℕ Proposal × Completed
  placed s = (s.registry, s.launches, s.proposals, s.completed_match_results)

  placed-settle_player :
      (mode : QueueMode) (player : ℕ) (s : AuthorityState env)
      → placed (settle_player mode player s) ≡ placed s
  unfolding settle_player save_profile
  placed-settle_player mode player s = refl

  placed-set_idle : (id : ℕ) (s : AuthorityState env) → placed (set_idle id s) ≡ placed s
  unfolding set_idle
  placed-set_idle id s = refl

  placed-emit_one : (id : ℕ) (s : AuthorityState env) → placed (emit_one id s) ≡ placed s
  unfolding emit_one emit_party
  placed-emit_one id s = ground arith

  placed-settle_all :
      (p : Proposal) (ranks : Map ℕ ℕ) (s : AuthorityState env)
      → placed (settle_all p ranks s) ≡ placed s
  unfolding settle_all
  placed-settle_all p ranks s =
      let rated = record s { ratings = rate s p ranks } in
      let settled =
        for_each (settle_player (proposal_mode p)) (Set.extend [] (flatten p.teams)) rated in
      let parties = Set.extend [] (values p.parties) in
      for_each_keeps placed emit_one placed-emit_one parties (for_each set_idle parties settled)
      ∙ for_each_keeps placed set_idle placed-set_idle parties settled
      ∙ for_each_keeps placed (settle_player (proposal_mode p))
          (placed-settle_player (proposal_mode p)) (Set.extend [] (flatten p.teams)) rated

  -- A match whose server is known can be forgotten after its players are settled.
  concluded :
      (server match_id proposal_id : ℕ) (p : Proposal) (ranks : Map ℕ ℕ) (g : GameServer)
      (s : AuthorityState env)
      → lookup server s.registry ≡ some g
      → (forget_match server match_id proposal_id (settle_all p ranks s)).0 ≡ ok tt
  unfolding forget_match Placement.release
  concluded server match_id proposal_id p ranks g s h =
      ground (arith, h, placed-settle_all p ranks s)

  -- What the tests establish, and that they change nothing.
  untouched :
      (server : ℕ) (result : MatchResult) (s : AuthorityState env)
      → (check_result server result s).1 ≡ s
  unfolding check_result
  untouched server result s = ground arith

  abbrev pub runs_on : ℕ → ℕ → AuthorityState env → Bool
  runs_on server match_id s =
      is_some_and (lookup server s.registry)
        (λ g. is_some_and (lookup match_id g.instances) (λ i. is_running i.state))

  checked :
      (server : ℕ) (result : MatchResult) (s : AuthorityState env) (m : FinishedMatch)
      → (check_result server result s).0 ≡ ok m
      → (result.match_id ≡ some m.match_id)
        × (lookup m.match_id s.launches ≡ some (server, m.proposal_id))
        × (runs_on server m.match_id s ≡ true)
        × (lookup m.proposal_id s.proposals ≡ some m.proposal)
  unfolding check_result
  checked server result s m h = (ground arith, ground arith, ground arith, ground arith)

  -- A result that is refused changes nothing: no rating, no credit, no party and no server.
  pub finish_match-refused :
      (server : ℕ) (result : MatchResult) (s : AuthorityState env) (e : Status)
      → (finish_match server result s).0 ≡ err e
      → (finish_match server result s).1 ≡ s
  unfolding finish_match
  finish_match-refused server result s e h = elim (Result-cases (check_result server result s).0) [
    | inl (x, c) ↦ ground (arith, c, untouched server result s)
    | inr (m, c) ↦
        let (_, _, k, _) = checked server result s m c in
        elim (Option-cases (lookup server s.registry)) [
          | inl n ↦ ground (arith, n, k)
          | inr (g, n) ↦ ground (
            arith,
            c,
            untouched server result s,
            concluded server m.match_id m.proposal_id m.proposal m.ranks g s n,
          )
        ]
  ]

  forgotten :
      (server match_id proposal_id : ℕ) (s : AuthorityState env)
      → IsRegistry s.registry
      → IsMap s.launches
      → (forget_match server match_id proposal_id s).0 ≡ ok tt
      → IsRegistry (forget_match server match_id proposal_id s).1.registry
        × (Placement.release s.registry server match_id
            ≡ ok (forget_match server match_id proposal_id s).1.registry)
        × (lookup match_id (forget_match server match_id proposal_id s).1.launches ≡ none)
  unfolding forget_match
  forgotten server match_id proposal_id s r w h =
      elim (Result-cases (Placement.release s.registry server match_id)) [
        | inl (e, f) ↦ ground (arith, f)
        | inr (registry, f) ↦
            rw (f, forget_match)
              (
                release-IsRegistry s.registry registry server match_id r f,
                refl,
                lookup-remove_self match_id s.launches w,
              )
      ]

  finished :
      (server : ℕ) (result : MatchResult) (s : AuthorityState env) (m : FinishedMatch)
      → (check_result server result s).0 ≡ ok m
      → finish_match server result s
        ≡ forget_match server m.match_id m.proposal_id (settle_all m.proposal m.ranks s)
  unfolding finish_match
  finished server result s m h = ground (arith, h, untouched server result s)

  completed-forget_match :
      (server match_id proposal_id : ℕ) (s : AuthorityState env)
      → (forget_match server match_id proposal_id s).1.completed_match_results
        ≡ s.completed_match_results
  unfolding forget_match
  completed-forget_match server match_id proposal_id s =
      elim (Result-cases (Placement.release s.registry server match_id)) [
        | inl (e, f) ↦ ground (arith, f)
        | inr (registry, f) ↦ ground (arith, f)
      ]

  -- The end of a match leaves it to its caller to remember the result.
  pub finish_match-completed :
      (server : ℕ) (result : MatchResult) (s : AuthorityState env)
      → (finish_match server result s).1.completed_match_results ≡ s.completed_match_results
  unfolding finish_match
  finish_match-completed server result s = elim (Result-cases (check_result server result s).0) [
    | inl (x, c) ↦ ground (arith, c, untouched server result s)
    | inr (m, c) ↦
        let settled = settle_all m.proposal m.ranks s in
        let whole = finished server result s m c in
        let left = completed-forget_match server m.match_id m.proposal_id settled in
        ground (arith, whole, left, placed-settle_all m.proposal m.ranks s)
  ]

  left_launches :
      (server match_id proposal_id : ℕ) (s : AuthorityState env)
      → (forget_match server match_id proposal_id s).0 ≡ ok tt
      → (forget_match server match_id proposal_id s).1.launches ≡ remove match_id s.launches
  unfolding forget_match
  left_launches server match_id proposal_id s h =
      elim (Result-cases (Placement.release s.registry server match_id)) [
        | inl (e, f) ↦ ground (arith, f)
        | inr (registry, f) ↦ ground (arith, f)
      ]

  -- A result that is taken takes its match, and no other, out of the launches.
  pub finish_match-remove :
      (server match_id : ℕ) (result : MatchResult) (s : AuthorityState env)
      → result.match_id ≡ some match_id
      → (finish_match server result s).0 ≡ ok tt
      → (finish_match server result s).1.launches ≡ remove match_id s.launches
  unfolding finish_match
  finish_match-remove server match_id result s same h =
      elim (Result-cases (check_result server result s).0) [
        | inl (x, c) ↦ ground (arith, c)
        | inr (m, c) ↦
            let settled = settle_all m.proposal m.ranks s in
            let whole = finished server result s m c in
            let (id, _, _, _) = checked server result s m c in
            let left =
              left_launches server m.match_id m.proposal_id settled (ground (arith, whole, h)) in
            ground (arith, whole, left, id, same, placed-settle_all m.proposal m.ranks s)
      ]

  unknown :
      (server match_id : ℕ) (result : MatchResult) (s : AuthorityState env)
      → result.match_id ≡ some match_id
      → lookup match_id s.launches ≡ none
      → (finish_match server result s).0 ≡ err not_found
  unfolding finish_match check_result
  unknown server match_id result s same n = ground (arith, same, n)

  -- A result that is taken ends the match: its server gets back what the match held and stays in
  -- order, and the match is no longer known, so no second result of it can be taken.
  pub finish_match-release :
      (server match_id : ℕ) (result : MatchResult) (s : AuthorityState env)
      → result.match_id ≡ some match_id
      → IsRegistry s.registry
      → IsMap s.launches
      → (finish_match server result s).0 ≡ ok tt
      → IsRegistry (finish_match server result s).1.registry
        × (Placement.release s.registry server match_id
            ≡ ok (finish_match server result s).1.registry)
        × (lookup match_id (finish_match server result s).1.launches ≡ none)
        × ((finish_match server result (finish_match server result s).1).0 ≡ err not_found)
  unfolding finish_match
  finish_match-release server match_id result s same r w h =
      elim (Result-cases (check_result server result s).0) [
        | inl (x, c) ↦ ground (arith, c)
        | inr (m, c) ↦
            let settled = settle_all m.proposal m.ranks s in
            let kept = placed-settle_all m.proposal m.ranks s in
            let whole = finished server result s m c in
            let (id, _, _, _) = checked server result s m c in
            let end =
              forgotten server m.match_id m.proposal_id settled (ground (arith, kept, r))
                (ground (arith, kept, w)) (ground (arith, whole, h)) in
            let gone : lookup match_id (finish_match server result s).1.launches ≡ none =
              ground (arith, whole, end.2, id, same) in
            (
              ground (arith, whole, end.0),
              ground (arith, whole, end.1, kept, id, same),
              gone,
              unknown server match_id result (finish_match server result s).1 same gone,
            )
      ]
