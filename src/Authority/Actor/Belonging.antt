-- ===== src/Authority/Actor/Belonging.antt =====
-- Every request keeps the parties and the players that belong to them consistent (the handlers of
-- core/src/grpc/mod.rs), where leaving and kicking name the player's own party.

use elo_ranking_pairing_syst.Base.{
  ℕ, ◌≡◌, ◌≢◌, refl, sym, subst, ◌∙◌, Bool, true, false, not, ◌&&◌, ◌||◌, ◌==◌, ==_iff, Option,
  none, some, List, [], ◌∷◌, inl, inr, contains, retain, arith, Option-cases, Result-cases,
  Bool-cases, ok,
}
use elo_ranking_pairing_syst.Base.Text.{Text}
use elo_ranking_pairing_syst.Base.Map.{Map, lookup, insert, remove, nat_key}
use elo_ranking_pairing_syst.Base.Map.Laws.{modify_id, lookup-insert, lookup-remove_self}
use elo_ranking_pairing_syst.Party as Party
use elo_ranking_pairing_syst.Party.{Party}
use elo_ranking_pairing_syst.Party.Invites as Invites
use elo_ranking_pairing_syst.Party.Lifecycle.Members.{contains-join}
use elo_ranking_pairing_syst.Authority.Messages.{Env}
use elo_ranking_pairing_syst.Authority.State.{AuthorityState, next_uuid, emit_party, ok_result}
use elo_ranking_pairing_syst.Authority.Requests as Requests
use elo_ranking_pairing_syst.Authority.Actor.{Action, perform}
use elo_ranking_pairing_syst.Authority.Actor.Steady.{
  HasConsistent, belonging, belonging-proposal_response,
}
use elo_ranking_pairing_syst.Authority.Requests.Membership.{
  Members, IsConsistent, lists, members_of, lookup-members_of, members_of-insert, members_of-remove,
  contains_without, created-IsConsistent, joined-IsConsistent, left-IsConsistent,
  dropped-IsConsistent,
}

kick_members :
    (p q : Party) (actor revision target k : ℕ)
    → Party.kick p actor revision target ≡ ok q
    → contains k q.members ≡ not (k == target) && contains k p.members
unfolding Party.kick
kick_members p q actor revision target k h = ground (arith, contains_without k target p.members)

join_members :
    (p q : Party) (player k : ℕ)
    → Party.join p player ≡ ok q
    → contains k q.members ≡ (player == k) || contains k p.members
unfolding Party.join
join_members p q player k h = ground (arith, contains-join k player p.members, ==_iff player k)

leave_members :
    (p q : Party) (empty : Bool) (player k : ℕ)
    → Party.leave p player ≡ ok (q, empty)
    → contains k q.members ≡ not (k == player) && contains k p.members
unfolding Party.leave
leave_members p q empty player k h = ground (arith, contains_without k player p.members)

leave_empty : (p q : Party) (player : ℕ) → Party.leave p player ≡ ok (q, true) → q.members ≡ []
unfolding Party.leave
leave_empty p q player h = ground arith

listed :
    (id : ℕ) (p : Party) (parties : Map ℕ Party)
    → lookup id parties ≡ some p
    → lookup id (members_of parties) ≡ some p.members
listed id p parties h = rw (lookup-members_of id parties, h) refl

-- A party that is written down again with the same members.
rewritten :
    (id : ℕ) (p q : Party) (parties : Map ℕ Party)
    → lookup id parties ≡ some p
    → q.members ≡ p.members
    → members_of (insert id q parties) ≡ members_of parties
unfolding insert
rewritten id p q parties h same =
    let before = listed id p parties h in
    members_of-insert id q parties
    ∙ ground (
      arith,
      before,
      same,
      modify_id id (λ (_ : List ℕ). q.members) p.members (members_of parties) before same,
    )

new_members :
    (u : Party.Unicode) (p : Party) (id leader : ℕ) (name : Text)
    → Party.new u id leader name ≡ ok p
    → p.members ≡ leader ∷ []
unfolding Party.new
new_members u p id leader name h = ground arith

rename_members :
    (u : Party.Unicode) (p q : Party) (actor revision : ℕ) (name : Text)
    → Party.rename u p actor revision name ≡ ok q
    → q.members ≡ p.members
unfolding Party.rename
rename_members u p q actor revision name h = ground arith

module _ {env : Env} where
  kick_member-HasConsistent :
      (id target revision player : ℕ) (s : AuthorityState env)
      → HasConsistent s
      → lookup target s.player_party ≡ some id
      → HasConsistent (Requests.kick_member (some id) (some target) revision player s).1
  unfolding Requests.kick_member emit_party
  kick_member-HasConsistent id target revision player s c own =
      elim (Option-cases (lookup id s.parties)) [
        | inl e ↦ rw e c
        | inr (p, e) ↦ elim (Result-cases (Party.kick p player revision target)) [
          | inl (x, k) ↦ rw (e, k) c
          | inr (q, k) ↦
              rw (e, k, members_of-insert id q s.parties)
                (left-IsConsistent (members_of s.parties) s.player_party c id target p.members
                  q.members (listed id p s.parties e) own
                  (λ j. kick_members p q player revision target j k))
        ]
      ]

  leave_party-HasConsistent :
      (id revision player : ℕ) (s : AuthorityState env)
      → HasConsistent s
      → lookup player s.player_party ≡ some id
      → HasConsistent (Requests.leave_party (some id) revision player s).1
  unfolding Requests.leave_party emit_party
  leave_party-HasConsistent id revision player s c own = elim (Option-cases (lookup id s.parties)) [
    | inl e ↦ rw e c
    | inr (p, e) ↦ elim (Bool-cases (p.revision == revision)) [
      | inr n ↦ rw (e, n) c
      | inl n ↦ elim (Result-cases (Party.leave p player)) [
        | inl (x, k) ↦ rw (e, n, k) c
        | inr ((q, false), k) ↦
            rw (e, n, k, members_of-insert id q s.parties)
              (left-IsConsistent (members_of s.parties) s.player_party c id player p.members
                q.members (listed id p s.parties e) own (λ j. leave_members p q false player j k))
        | inr ((q, true), k) ↦
            let parties = insert id q s.parties in
            rw (e, n, k, members_of-remove id parties, members_of-insert id q s.parties)
              (dropped-IsConsistent (insert id q.members (members_of s.parties))
                (remove player s.player_party)
                (left-IsConsistent (members_of s.parties) s.player_party c id player p.members
                  q.members (listed id p s.parties e) own (λ j. leave_members p q true player j k))
                id
                (ground (
                  arith,
                  lookup-insert id id q.members (members_of s.parties),
                  leave_empty p q player k,
                  ==_iff id id,
                )))
      ]
    ]
  ]

  join_party-HasConsistent :
      (token : Text) (now player : ℕ) (s : AuthorityState env)
      → HasConsistent s
      → HasConsistent (Requests.join_party token now player s).1
  unfolding Requests.join_party emit_party
  join_party-HasConsistent token now player s c =
      elim (Option-cases (lookup player s.player_party)) [
        | inr (id, a) ↦ rw a c
        | inl a ↦ elim (Option-cases (Invites.consume s.invites token now).0) [
          | inl i ↦ rw (a, i) c
          | inr (id, i) ↦ elim (Option-cases (lookup id s.parties)) [
            | inl e ↦ rw (a, i, e) c
            | inr (p, e) ↦ elim (Result-cases (Party.join p player)) [
              | inl (x, k) ↦ rw (a, i, e, k) c
              | inr (q, k) ↦
                  rw (a, i, e, k, members_of-insert id q s.parties)
                    (joined-IsConsistent (members_of s.parties) s.player_party c id player p.members
                      q.members (listed id p s.parties e) a (λ j. join_members p q player j k))
            ]
          ]
        ]
      ]

  create_party-HasConsistent :
      (name : Text) (player : ℕ) (s : AuthorityState env)
      → HasConsistent s
      → lookup (next_uuid s 1).0 s.parties ≡ none
      → HasConsistent (Requests.create_party name player s).1
  unfolding Requests.create_party emit_party
  create_party-HasConsistent name player s c fresh =
      let id = (next_uuid s 1).0 in
      elim (Option-cases (lookup player s.player_party)) [
        | inr (other, a) ↦ rw a c
        | inl a ↦ elim (Result-cases (Party.new env.unicode 0 player name)) [
          | inl (x, k) ↦ rw (a, k) c
          | inr (p, k) ↦
              rw
                (
                  a,
                  k,
                  members_of-insert id (record p { id = id }) s.parties,
                  new_members env.unicode p 0 player name k,
                )
                (created-IsConsistent (members_of s.parties) s.player_party c id player
                  (ground (arith, lookup-members_of id s.parties, fresh)) a)
        ]
      ]

  belonging-cancel_queue :
      (id : Option ℕ) (revision player : ℕ) (s : AuthorityState env)
      → belonging (Requests.cancel_queue id revision player s).1 ≡ belonging s
  unfolding Requests.cancel_queue emit_party
  belonging-cancel_queue id revision player s = grind (arith, rewritten)

  belonging-enqueue :
      (id : Option ℕ) (mode revision : ℕ) (regions : List Text) (now player : ℕ)
      (s : AuthorityState env)
      → belonging (Requests.enqueue id mode revision regions now player s).1 ≡ belonging s
  unfolding Requests.enqueue emit_party
  belonging-enqueue id mode revision regions now player s = grind (arith, rewritten)

  belonging-rename_party :
      (id : Option ℕ) (revision : ℕ) (name : Text) (player : ℕ) (s : AuthorityState env)
      → belonging (Requests.rename_party id revision name player s).1 ≡ belonging s
  unfolding Requests.rename_party emit_party
  belonging-rename_party id revision name player s =
      grind (arith, rewritten, rename_members env.unicode)

  -- What a request must name for the memberships to stay consistent: a new identifier is fresh, who
  -- leaves belongs to the party, and so does who is kicked.
  abbrev pub IsOwn : AuthorityState env → Action → ℕ → Type 0
  IsOwn s (Action.create_party name) player = lookup (next_uuid s 1).0 s.parties ≡ none
  IsOwn s (Action.leave_party (some id) revision) player = lookup player s.player_party ≡ some id
  IsOwn s (Action.kick_member (some id) (some target) revision) player =
      lookup target s.player_party ≡ some id
  IsOwn s _ player = Unit

  from_belonging :
      (s : AuthorityState env) (b : Members × Map ℕ ℕ)
      → b ≡ belonging s
      → HasConsistent s
      → IsConsistent b.0 b.1
  from_belonging s b h c = subst (λ (x : Members × Map ℕ ℕ). IsConsistent x.0 x.1) (sym h) c

  -- Whatever a player asks for, granted or refused, each player still belongs exactly to the party
  -- that lists the player, if a new party has a fresh identifier and only a member of the named party
  -- leaves it or is kicked from it.
  pub perform-HasConsistent :
      (now : ℕ) (a : Action) (player : ℕ) (s : AuthorityState env)
      → HasConsistent s
      → IsOwn s a player
      → HasConsistent (perform now a player s).1
  unfolding perform
  perform-HasConsistent now (Action.create_party name) player s c own =
      create_party-HasConsistent name player s c own
  perform-HasConsistent now (Action.join_party token) player s c own =
      join_party-HasConsistent token now player s c
  perform-HasConsistent now (Action.leave_party none revision) player s c own = c
  perform-HasConsistent now (Action.leave_party (some id) revision) player s c own =
      leave_party-HasConsistent id revision player s c own
  perform-HasConsistent now (Action.kick_member none target revision) player s c own = c
  perform-HasConsistent now (Action.kick_member (some id) none revision) player s c own = c
  perform-HasConsistent now (Action.kick_member (some id) (some target) revision) player s c own =
      kick_member-HasConsistent id target revision player s c own
  perform-HasConsistent now (Action.rename_party id revision name) player s c own =
      from_belonging s _ (belonging-rename_party id revision name player s) c
  perform-HasConsistent now (Action.enqueue id mode revision regions) player s c own =
      from_belonging s _ (belonging-enqueue id mode revision regions now player s) c
  perform-HasConsistent now (Action.cancel_queue id revision) player s c own =
      from_belonging s _ (belonging-cancel_queue id revision player s) c
  perform-HasConsistent now (Action.respond id accept) player s c own =
      from_belonging s _ (belonging-proposal_response id accept now player s) c

  -- The leader of a party can name any player to kick, a member or not. A player of another party who
  -- is named then belongs to no party, while the other party still lists the player.
  pub kick_member_stranger :
      (id other target revision player : ℕ) (p : Party) (s : AuthorityState env)
      → HasConsistent s
      → lookup id s.parties ≡ some p
      → Party.editable p player revision ≡ ok tt
      → lookup target s.player_party ≡ some other
      → other ≢ id
      → target ≢ p.leader
      → let after = Requests.kick_member (some id) (some target) revision player s in
        (after.0 ≡ ok (ok_result id (Party.bump p.revision)))
        × (lookup target after.1.player_party ≡ none)
        × (lists target (lookup other (members_of after.1.parties)) ≡ true)
  unfolding Requests.kick_member emit_party Party.kick
  kick_member_stranger id other target revision player p s c e may belongs apart free =
      let less = retain (λ j. not (j == target)) p.members in
      let q = record p { members = less; revision = Party.bump p.revision } in
      ground (
        arith,
        e,
        may,
        free,
        apart,
        ==_iff target p.leader,
        ==_iff id other,
        c.agree target other,
        belongs,
        members_of-insert id q s.parties,
        lookup-insert id other less (members_of s.parties),
        lookup-remove_self target s.player_party c.players_distinct,
      )
