-- ===== src/Authority/Finish.antt =====
-- `finish_match` of core/src/grpc/mod.rs: the result of a match, its ratings, and its end.
pub mod Whole
use elo_ranking_pairing_syst.Base.{
  ℕ, ◌+◌, ◌%◌, Bool, true, false, not, ◌&&◌, ◌||◌, ◌==◌, Option, none, some, List, [], ◌∷◌, map,
  any, all, ltb, leb, length, first, unwrap_or, if_some, is_some, is_some_and, for_each, Result, ok,
  err, if◌then◌else◌,
}
use elo_ranking_pairing_syst.Base.Int.{ℤ}
use elo_ranking_pairing_syst.Base.Word.{u32_mod, u32_max, u64_max, saturating_add}
use elo_ranking_pairing_syst.Base.Text.{text_eq}
use elo_ranking_pairing_syst.Base.Map.{Map, lookup, insert, modify, remove, keys, values, nat_key}
use elo_ranking_pairing_syst.Base.Set as Set
use elo_ranking_pairing_syst.Components.{
  QueueMode, one_vs_one, five_vs_five, free_for_all, mode_eq, PartyState,
}
use elo_ranking_pairing_syst.Credit as Credit
use elo_ranking_pairing_syst.Credit.{completed_match, default_policy}
use elo_ranking_pairing_syst.Placement as Placement
use elo_ranking_pairing_syst.Proposal.{Proposal, flatten}
use elo_ranking_pairing_syst.Rating as Rating
use elo_ranking_pairing_syst.Rating.{RatingPolicy}
use elo_ranking_pairing_syst.Server.Types.{is_running}
use elo_ranking_pairing_syst.Authority.{proposal_mode}
use elo_ranking_pairing_syst.Authority.Messages.{
  Status, invalid_argument, failed_precondition, not_found, permission_denied, MatchResult, Env,
}
use elo_ranking_pairing_syst.Authority.Messages as Messages
use elo_ranking_pairing_syst.Authority.State.{
  AuthorityState, Step, and_then, ◌>>=◌, ◌>>◌, give, get_state, set_state, refuse_if, found,
  map_err, rated_key, rating_of, credit_of,
}
use elo_ranking_pairing_syst.Authority.Cancel.{emit_one, save_profile}

-- The ranks by player; a bad placement or a repeated player spoils them. `u8::try_from`.
unfoldable pub collect_ranks : List Messages.Placement → Map ℕ ℕ → Option (Map ℕ ℕ)
collect_ranks [] ranks = some ranks
collect_ranks (p ∷ ps) ranks =
    if_some p.player_id
      (λ player.
        let rest = collect_ranks ps (insert player p.rank ranks) in
        if leb 1 p.rank && leb p.rank 255 && not (is_some (lookup player ranks))
        then rest
        else none)
      none

-- The rank that all of a team have.
unfoldable pub team_rank : Map ℕ ℕ → List ℕ → Option ℕ
team_rank ranks team =
    if_some (first team)
      (λ leader.
        if_some (lookup leader ranks)
          (λ rank.
            if all (λ player. is_some_and (lookup player ranks) (λ r. r == rank)) team
            then some rank
            else none)
          none)
      none

-- Two teams with a rank each, and not the same.
unfoldable pub has_winner : Map ℕ ℕ → List (List ℕ) → Bool
unfolding team_rank
has_winner ranks (a ∷ b ∷ _) =
    if_some (team_rank ranks a) (λ r. if_some (team_rank ranks b) (λ q. not (r == q)) false) false
has_winner ranks _ = false

-- The tests on the placements of a result, all of which are invalid arguments.
unfoldable pub valid_ranks : QueueMode → Proposal → Map ℕ ℕ → Bool
unfolding flatten has_winner
valid_ranks mode p ranks =
    let roster = Set.extend [] (flatten p.teams) in
    text_eq (keys ranks) roster
    && not (any (λ rank. ltb (length roster) rank) (values ranks))
    && (not (mode_eq mode five_vs_five) || has_winner ranks p.teams)

abbrev pub rank_of : Map ℕ ℕ → ℕ → ℕ
rank_of ranks player = unwrap_or 0 (lookup player ranks)

-- `players.iter().zip(ratings)`, each written down.
unfoldable pub store_ratings :
    QueueMode → List ℕ → List ℤ → Map (ℕ × QueueMode) ℤ → Map (ℕ × QueueMode) ℤ
store_ratings mode (player ∷ players) (rating ∷ ratings) stored =
    store_ratings mode players ratings (insert (player, mode) rating stored)
store_ratings mode _ _ stored = stored

-- What is known of a match with a good result.
pub record FinishedMatch : Type 0 where
  pub match_id : ℕ
  pub proposal_id : ℕ
  pub proposal : Proposal
  pub ranks : Map ℕ ℕ

module _ {env : Env} where
  abbrev pub policy_of : AuthorityState env → RatingPolicy env.fl
  policy_of s = record {
    established_k = s.config.elo_established_k;
    provisional_k = s.config.elo_provisional_k;
    provisional_matches = s.config.elo_provisional_matches;
    maximum_delta = s.config.elo_maximum_match_delta;
  }

  abbrev pub completed_of : AuthorityState env → QueueMode → ℕ → ℕ
  completed_of s mode player = unwrap_or 0 (lookup (player, mode) s.completed_games)

  unfoldable pub rate_duel : AuthorityState env → ℕ → ℕ → Map ℕ ℕ → Map (ℕ × QueueMode) ℤ
  unfolding Rating.one_vs_one
  rate_duel s a b ranks =
      let score =
        if ltb (rank_of ranks a) (rank_of ranks b)
        then env.fl.one_f
        else if rank_of ranks a == rank_of ranks b
        then env.fl.half_f
        else env.fl.zero_f in
      let next =
        Rating.one_vs_one env.fl (rating_of s one_vs_one a) (rating_of s one_vs_one b) score
          (completed_of s one_vs_one a) (completed_of s one_vs_one b) (policy_of s) in
      insert (b, one_vs_one) next.1 (insert (a, one_vs_one) next.0 s.ratings)

  unfoldable pub rate_teams : AuthorityState env → List ℕ → List ℕ → Map (ℕ × QueueMode) ℤ
  unfolding Rating.team_update_with_completed store_ratings
  rate_teams s winners losers =
      let next =
        Rating.team_update_with_completed env.fl (map (rating_of s five_vs_five) winners)
          (map (rating_of s five_vs_five) losers) (map (completed_of s five_vs_five) winners)
          (map (completed_of s five_vs_five) losers) (policy_of s) in
      store_ratings five_vs_five losers next.1 (store_ratings five_vs_five winners next.0 s.ratings)

  unfoldable pub rate_melee : AuthorityState env → List ℕ → Map ℕ ℕ → Map (ℕ × QueueMode) ℤ
  unfolding Rating.free_for_all store_ratings
  rate_melee s players ranks =
      let current = map (λ p. (rating_of s free_for_all p, rank_of ranks p)) players in
      store_ratings free_for_all players (Rating.free_for_all env.fl current (policy_of s))
        s.ratings

  -- The ratings after the match. The teams of a duel have one player each, those of a game of five
  -- against five five; of other teams the source stops.
  unfoldable pub rate : AuthorityState env → Proposal → Map ℕ ℕ → Map (ℕ × QueueMode) ℤ
  unfolding rate_duel rate_teams rate_melee proposal_mode flatten
  rate s p ranks = elim (proposal_mode p) [
    | one_vs_one ↦ elim p.teams [ (a ∷ _) ∷ (b ∷ _) ∷ _ ↦ rate_duel s a b ranks | _ ↦ s.ratings ]
    | five_vs_five ↦ elim p.teams [
      | (a ∷ team) ∷ (b ∷ others) ∷ _ ↦
          if ltb (rank_of ranks a) (rank_of ranks b)
          then rate_teams s (a ∷ team) (b ∷ others)
          else rate_teams s (b ∷ others) (a ∷ team)
      | _ ↦ s.ratings
    ]
    | free_for_all ↦ rate_melee s (flatten p.teams) ranks
  ]

  -- One turn of the loop over the roster.
  unfoldable pub settle_player : QueueMode → ℕ → AuthorityState env → AuthorityState env
  unfolding Credit.apply save_profile
  settle_player mode player s =
      let since = unwrap_or 0 (lookup player s.completed_since_credit_recovery) in
      let violations = unwrap_or 0 (lookup player s.recent_credit_violations) in
      let previous = credit_of s player in
      let outcome = Credit.apply previous violations since completed_match default_policy in
      let since' = if ltb previous outcome.score then 0 else saturating_add u32_max since 1 in
      save_profile player (record s {
        completed_games =
            insert (player, mode) ((completed_of s mode player + 1) % u32_mod) s.completed_games;
        credit = insert player outcome.score s.credit;
        completed_since_credit_recovery = insert player since' s.completed_since_credit_recovery;
        player_match = remove player s.player_match;
      })

  unfoldable pub set_idle : ℕ → AuthorityState env → AuthorityState env
  set_idle id s = record s {
    parties =
        modify id
          (λ p. record p {
            state = PartyState.idle;
            revision = saturating_add u64_max p.revision 1;
          })
          s.parties;
  }

  -- The players and parties of a match that is over.
  unfoldable pub settle_all : Proposal → Map ℕ ℕ → AuthorityState env → AuthorityState env
  unfolding rate settle_player set_idle emit_one proposal_mode flatten
  settle_all p ranks s =
      let rated = record s { ratings = rate s p ranks } in
      let roster = Set.extend [] (flatten p.teams) in
      let settled = for_each (settle_player (proposal_mode p)) roster rated in
      let parties = Set.extend [] (values p.parties) in
      for_each emit_one parties (for_each set_idle parties settled)

  unfoldable pub forget_match : ℕ → ℕ → ℕ → Step env (Unit {0})
  unfolding Placement.release
  forget_match server match_id proposal_id s = elim (Placement.release s.registry server match_id) [
    | err e ↦ (err failed_precondition, s)
    | ok registry ↦ (
      ok tt,
      record s {
        registry = registry;
        launches = remove match_id s.launches;
        launch_deadlines = remove match_id s.launch_deadlines;
        proposal_tickets = remove proposal_id s.proposal_tickets;
        proposals = remove proposal_id s.proposals;
      },
    )
  ]

  -- All that `finish_match` tests before it changes anything.
  unfoldable pub check_result : ℕ → MatchResult → Step env FinishedMatch
  unfolding collect_ranks valid_ranks proposal_mode
  check_result server result = do
    s ← get_state
    match_id ← found result.match_id invalid_argument
    (owner, proposal_id) ← found (lookup match_id s.launches) not_found
    refuse_if (not (owner == server)) permission_denied
    game_server ← found (lookup server s.registry) not_found
    i ← found (lookup match_id game_server.instances) not_found
    refuse_if (not (is_running i.state)) failed_precondition
    p ← found (lookup proposal_id s.proposals) not_found
    ranks ← found (collect_ranks result.placements []) invalid_argument
    refuse_if (not (valid_ranks (proposal_mode p) p ranks)) invalid_argument
    give (record { match_id = match_id; proposal_id = proposal_id; proposal = p; ranks = ranks })

  unfoldable pub finish_match : ℕ → MatchResult → Step env (Unit {0})
  unfolding check_result settle_all forget_match
  finish_match server result = do
    m ← check_result server result
    s ← get_state
    set_state (settle_all m.proposal m.ranks s)
    forget_match server m.match_id m.proposal_id
