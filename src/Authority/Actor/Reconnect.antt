-- ===== src/Authority/Actor/Reconnect.antt =====
-- A player that comes back within the grace (`disconnected`, `open_session` and `tick` of
-- core/src/grpc/mod.rs).
use elo_ranking_pairing_syst.Base.{
  ℕ, ◌<◌, ◌≡◌, true, false, ==_iff, none, some, [], ◌∷◌, contains, arith,
}
use elo_ranking_pairing_syst.Base.Word.{u64_max, saturating_add, saturating_mul}
use elo_ranking_pairing_syst.Base.Text.{Text, text_eq_iff}
use elo_ranking_pairing_syst.Base.Map.{Map, lookup, nat_key, IsMap}
use elo_ranking_pairing_syst.Base.Map.Laws.{lookup-insert, lookup-remove_self}
use elo_ranking_pairing_syst.Base.Set as Set
use elo_ranking_pairing_syst.Profile.{PlayerProfile}
use elo_ranking_pairing_syst.Authority.Messages.{Env}
use elo_ranking_pairing_syst.Authority.State.{AuthorityState}
use elo_ranking_pairing_syst.Authority.Tick.{overdue, drop_player}
use elo_ranking_pairing_syst.Authority.Actor.{disconnected, open_session}

contains-overdue :
    (now k deadline : ℕ) (m : Map ℕ ℕ)
    → lookup k m ≡ some deadline
    → deadline < now
    → contains k (overdue now m) ≡ true
unfolding lookup overdue
contains-overdue now k deadline [] h l = cc
contains-overdue now k deadline ((i, d) ∷ m) h l =
    ground (arith, contains-overdue now k deadline m, ==_iff i k)

module _ {env : Env} where
  abbrev deadline_of : AuthorityState env → ℕ → ℕ
  deadline_of s at =
      saturating_add u64_max at (saturating_mul u64_max s.config.disconnect_grace_seconds 1000)

  still_waited_for :
      (s : AuthorityState env) (at back player : ℕ) (token next : Text) (profile : PlayerProfile)
      (channel : env.Events)
      → lookup player s.current_session ≡ some token
      → let returned =
          open_session back player next profile channel (disconnected at player token s) in
        (Set.member player returned.offline ≡ false)
        × (lookup player returned.disconnect_deadlines ≡ some (deadline_of s at))
        × (returned.tickets ≡ s.tickets)
        × (returned.player_party ≡ s.player_party)
        × (returned.player_proposal ≡ s.player_proposal)
  unfolding disconnected open_session
  still_waited_for s at back player token next profile channel h =
      let offline = Set.insert player s.offline in
      ground (
        arith,
        h,
        text_eq_iff token token,
        Set.member-insert player player s.offline,
        Set.member-remove player player offline,
        lookup-insert player player (deadline_of s at) s.disconnect_deadlines,
        ==_iff player player,
      )

  -- A player whose stream breaks and who opens a session again within the grace is online, but is
  -- still waited for: when the grace is over, the player is among those to drop, and the party of a
  -- player without a proposal loses its ticket.
  pub open_session-drop_player :
      (s : AuthorityState env) (at back now player party : ℕ) (token next : Text)
      (profile : PlayerProfile) (channel : env.Events)
      → lookup player s.current_session ≡ some token
      → lookup player s.player_party ≡ some party
      → lookup player s.player_proposal ≡ none
      → IsMap s.tickets
      → deadline_of s at < now
      → let returned =
          open_session back player next profile channel (disconnected at player token s) in
        (Set.member player returned.offline ≡ false)
        × (contains player (overdue now returned.disconnect_deadlines) ≡ true)
        × (lookup party (drop_player now player returned).tickets ≡ none)
  unfolding drop_player
  open_session-drop_player s at back now player party token next profile channel h p q w l =
      let returned =
        open_session back player next profile channel (disconnected at player token s) in
      let (a, b, t, u, v) = still_waited_for s at back player token next profile channel h in
      (
        a,
        contains-overdue now player (deadline_of s at) returned.disconnect_deadlines b l,
        ground (arith, t, u, v, p, q, lookup-remove_self party s.tickets w),
      )
