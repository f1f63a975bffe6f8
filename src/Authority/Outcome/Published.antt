-- ===== src/Authority/Outcome/Published.antt =====
-- A match that its server reports as ready again (`launch_result` of core/src/grpc/mod.rs).
use elo_ranking_pairing_syst.Base.{
  ℕ, ◌≡◌, refl, Bool, true, false, ==_iff, some, List, [], ◌∷◌, map, all, contains, unwrap_or,
  for_each, for_each_keeps, ◌⊎◌, inl, inr, ok, arith, Bool-cases, Option-cases, if◌then◌else◌, ap,
  ◌∙◌, sym,
}
use elo_ranking_pairing_syst.Base.Text.{
  Text, text, text_eq, text_eq_iff, to_ascii_lowercase, eq_ignore_ascii_case,
}
use elo_ranking_pairing_syst.Base.Map.{Map, lookup, keys, nat_key}
use elo_ranking_pairing_syst.Base.Map.Laws.{lookup-insert}
use elo_ranking_pairing_syst.Party.{Party}
use elo_ranking_pairing_syst.Proposal.{Proposal}
use elo_ranking_pairing_syst.Server.Types.{InstanceState}
use elo_ranking_pairing_syst.Authority.{proposal_mode}
use elo_ranking_pairing_syst.Authority.Messages.{ClientEvent, matched, LaunchResult, Env}
use elo_ranking_pairing_syst.Authority.State.{AuthorityState, emit_party}
use elo_ranking_pairing_syst.Authority.Cancel.{emit_one}
use elo_ranking_pairing_syst.Authority.Outcome.{
  admit, set_matched, is_published, mark_running, publish, ready_launch, dispatch, launch_result,
}

all_of :
    (f : ℕ → Bool) (xs : List ℕ) → ((k : ℕ) → contains k xs ≡ true → f k ≡ true) → all f xs ≡ true
all_of f [] h = refl
all_of f (x ∷ xs) h =
    let rest = all_of f xs (λ k c. h k (ground (arith, c))) in ground (arith, h x, rest, ==_iff x x)

-- A report is of one kind.
is_ready :
    (t : Text)
    → eq_ignore_ascii_case t (text "ready") ≡ true
    → eq_ignore_ascii_case t (text "accepted") ≡ false
unfolding eq_ignore_ascii_case to_ascii_lowercase text_eq
is_ready t h = rw ((text_eq_iff (to_ascii_lowercase t) (text "ready")).0 h) refl

module _ {env : Env} where
  admitted :
      (m : ℕ) (event : ClientEvent) (k : ℕ) (players : List ℕ) (s : AuthorityState env)
      → (contains k players ≡ true) ⊎ (lookup k s.player_match ≡ some m)
      → lookup k (for_each (admit m event) players s).player_match ≡ some m
  unfolding admit
  admitted m event k [] s h = ground arith
  admitted m event k (p ∷ players) s h =
      admitted m event k players (admit m event p s)
        (ground (arith, lookup-insert p k m s.player_match, ==_iff p k))

  -- What the players are told, and where they and their parties are.
  abbrev view : AuthorityState env → Map ℕ env.Events × Map ℕ ℕ × Map ℕ ℕ × Map ℕ Party
  view s = (s.events, s.player_match, s.player_proposal, s.parties)

  -- What the loops of `publish` keep.
  abbrev kept : AuthorityState env → Map ℕ ℕ × Map ℕ (ℕ × ℕ) × Map ℕ Proposal
  kept s = (s.player_match, s.launches, s.proposals)

  abbrev known : AuthorityState env → Map ℕ (ℕ × ℕ) × Map ℕ Proposal
  known s = (s.launches, s.proposals)

  kept-emit_one : (id : ℕ) (s : AuthorityState env) → kept (emit_one id s) ≡ kept s
  unfolding emit_one emit_party
  kept-emit_one id s = ground arith

  kept-set_matched : (id : ℕ) (s : AuthorityState env) → kept (set_matched id s) ≡ kept s
  unfolding set_matched
  kept-set_matched id s = refl

  known-admit :
      (m : ℕ) (event : ClientEvent) (k : ℕ) (s : AuthorityState env)
      → known (admit m event k s) ≡ known s
  unfolding admit
  known-admit m event k s = refl

  published :
      (m id : ℕ) (p : Proposal) (endpoint token : Text) (s : AuthorityState env)
      → let after = publish m id p endpoint token s in
        (known after ≡ known s) × (is_published after m p ≡ true)
  unfolding is_published publish
  published m id p endpoint token s =
      let event = matched (record {
        match_id = m;
        mode = proposal_mode p;
        teams = p.teams;
        endpoint = endpoint;
        connection_token = token;
      }) in
      let inside = for_each (admit m event) (keys p.responses) s in
      let parties = map (λ t. t.0) (unwrap_or [] (lookup id s.proposal_tickets)) in
      let same = for_each_keeps kept set_matched kept-set_matched parties inside in
      let told =
        for_each_keeps kept emit_one kept-emit_one parties (for_each set_matched parties inside) in
      let first = for_each_keeps known (admit m event) (known-admit m event) (keys p.responses) s in
      let all_kept = told ∙ same in
      let matches : (publish m id p endpoint token s).player_match ≡ inside.player_match =
        ap (λ k. k.0) all_kept in
      (
        ap (λ k. (k.1, k.2)) all_kept ∙ first,
        all_of _ (keys p.responses) (λ k c.
            ground (arith, matches, admitted m event k (keys p.responses) s (inl c), ==_iff m m)),
      )

  ready_launch_lem :
      (server m id : ℕ) (p : Proposal) (state : InstanceState) (endpoint token : Text)
      (s : AuthorityState env)
      → (ready_launch server m id p state endpoint token s).0 ≡ ok tt
      → let next = mark_running server m endpoint token s in
        (ready_launch server m id p state endpoint token s).1
        ≡ (if is_published s m p then next else publish m id p endpoint token next)
  unfolding ready_launch
  ready_launch_lem server m id p state endpoint token s h = ground arith

  -- After a report that is taken.
  ready_launch-is_published :
      (server m id : ℕ) (p : Proposal) (state : InstanceState) (endpoint token : Text)
      (s : AuthorityState env)
      → (ready_launch server m id p state endpoint token s).0 ≡ ok tt
      → let after = (ready_launch server m id p state endpoint token s).1 in
        (known after ≡ known s) × (is_published after m p ≡ true)
  unfolding is_published
  ready_launch-is_published server m id p state endpoint token s h =
      rw (ready_launch_lem server m id p state endpoint token s h)
        (elim (Bool-cases (is_published s m p)) [
          | inl e ↦ rw e (refl, e)
          | inr e ↦ rw e (published m id p endpoint token (mark_running server m endpoint token s))
        ])

  -- A report on a match that is published.
  ready_again :
      (server m id : ℕ) (p : Proposal) (state : InstanceState) (endpoint token : Text)
      (s : AuthorityState env)
      → is_published s m p ≡ true
      → let after = (ready_launch server m id p state endpoint token s).1 in view after ≡ view s
  unfolding ready_launch
  ready_again server m id p state endpoint token s h = ground (arith, h)

  -- A report that is taken is one of the server of the launch, on an instance and a proposal that are
  -- there.
  taken_report :
      (now server m : ℕ) (r : LaunchResult) (s : AuthorityState env)
      → r.match_id ≡ some m
      → eq_ignore_ascii_case r.state (text "ready") ≡ true
      → (launch_result now server r s).0 ≡ ok tt
      → (id : ℕ) × (p : Proposal) × (state : InstanceState) × (lookup m s.launches
          ≡ some (server, id))
        × (lookup id s.proposals ≡ some p)
        × (launch_result now server r s
            ≡ ready_launch server m id p state r.endpoint r.connection_token s)
  unfolding launch_result dispatch
  taken_report now server m r s named ready h =
      let kind = is_ready r.state ready in
      elim (Option-cases (lookup m s.launches)) [
        | inl e ↦ absurd (ground (arith, e, named, h))
        | inr ((owner, id), e) ↦ elim (Option-cases (lookup id s.proposals)) [
          | inl f ↦ absurd (ground (arith, e, f, named, h))
          | inr (p, f) ↦ elim (Option-cases (lookup server s.registry)) [
            | inl k ↦ absurd (ground (arith, e, f, k, named, h))
            | inr (g, k) ↦ elim (Option-cases (lookup m g.instances)) [
              | inl l ↦ absurd (ground (arith, e, f, k, l, named, h))
              | inr (i, l) ↦ (
                id,
                p,
                i.state,
                ground (arith, e, f, k, l, named, h, ==_iff owner server),
                f,
                ground (arith, e, f, k, l, named, h, kind),
              )
            ]
          ]
        ]
      ]

  first_report :
      (now server m : ℕ) (r : LaunchResult) (s : AuthorityState env)
      → r.match_id ≡ some m
      → eq_ignore_ascii_case r.state (text "ready") ≡ true
      → (launch_result now server r s).0 ≡ ok tt
      → let after = (launch_result now server r s).1 in
        (id : ℕ) × (p : Proposal) × (lookup m after.launches ≡ some (server, id))
        × (lookup id after.proposals ≡ some p)
        × (is_published after m p ≡ true)
  first_report now server m r s named ready h =
      let (id, p, state, launched, proposed, same) = taken_report now server m r s named ready h in
      let (known_before, done) =
        ready_launch-is_published server m id p state r.endpoint r.connection_token s
          (ap (λ x. x.0) (sym same) ∙ h) in
      (
        id,
        p,
        rw (same, ap (λ k. k.0) known_before) launched,
        rw (same, ap (λ k. k.1) known_before) proposed,
        rw same done,
      )

  second_report :
      (now server m id : ℕ) (p : Proposal) (r : LaunchResult) (s : AuthorityState env)
      → r.match_id ≡ some m
      → eq_ignore_ascii_case r.state (text "ready") ≡ true
      → lookup m s.launches ≡ some (server, id)
      → lookup id s.proposals ≡ some p
      → is_published s m p ≡ true
      → view (launch_result now server r s).1 ≡ view s
  unfolding launch_result dispatch
  second_report now server m id p r s named ready launched proposed h =
      let kind = is_ready r.state ready in
      elim (Option-cases (lookup server s.registry)) [
        | inl e ↦ ground (arith, e)
        | inr (g, e) ↦ elim (Option-cases (lookup m g.instances)) [
          | inl f ↦ ground (arith, e, f)
          | inr (i, f) ↦
              let again = ready_again server m id p i.state r.endpoint r.connection_token s h in
              ground (arith, e, f, again, kind)
        ]
      ]

  -- A match is published once: when its server, whose report that the match is ready was taken, reports
  -- it as ready again, whatever it says of the endpoint, the players get no event, and the matches, the
  -- proposals and the parties stay what they were.
  pub launch_result-launch_result :
      (now later server m : ℕ) (r again : LaunchResult) (s : AuthorityState env)
      → r.match_id ≡ some m
      → eq_ignore_ascii_case r.state (text "ready") ≡ true
      → (launch_result now server r s).0 ≡ ok tt
      → again.match_id ≡ some m
      → eq_ignore_ascii_case again.state (text "ready") ≡ true
      → let first = (launch_result now server r s).1 in
        let second = (launch_result later server again first).1 in
        (second.events ≡ first.events)
        × (second.player_match ≡ first.player_match)
        × (second.player_proposal ≡ first.player_proposal)
        × (second.parties ≡ first.parties)
  launch_result-launch_result now later server m r again s named ready h named' ready' =
      let first = (launch_result now server r s).1 in
      let (id, p, launched, proposed, done) = first_report now server m r s named ready h in
      let same =
        second_report later server m id p again first named' ready' launched proposed done in
      (ap (λ v. v.0) same, ap (λ v. v.1) same, ap (λ v. v.2) same, ap (λ v. v.3) same)
