-- ===== src/Client/Shown.antt =====
-- How the client shows the players, parties, modes and times of the authority's messages
-- (client/src/lib.rs, and what core/src/grpc/mod.rs encodes).
use elo_ranking_pairing_syst.Base.{
  ℕ, ◌+◌, ◌≡◌, refl, false, ◌&&◌, Option, none, some, List, [], ◌∷◌, map, ltb, is_empty, if_some,
  if◌then◌else◌, arith,
}
use elo_ranking_pairing_syst.Base.Int.{ℤ, pos}
use elo_ranking_pairing_syst.Base.Text.{Text}
use elo_ranking_pairing_syst.Base.Map.{nat_key}
use elo_ranking_pairing_syst.Components.{QueueMode}
use elo_ranking_pairing_syst.Authority.Messages.{PlayerView, PartyView}
use elo_ranking_pairing_syst.Client.{from_wire, nonempty, positive, player, party}
use elo_ranking_pairing_syst.Client.Encode.{
  as_i64, pb_mode, debug, encode_id, encode_player, encode_party, encode_teams,
}
use elo_ranking_pairing_syst.Client.Wire.{EncodedTeam}
use elo_ranking_pairing_syst.Client.Types.{SdkPlayer, SdkParty}

-- A time that the client takes as set.
abbrev pub in_time : ℕ → Option ℤ
in_time t = if ltb 0 t && ltb t 9223372036854775808 then some (pos t) else none

pub positive-as_i64 : (t : ℕ) → positive (as_i64 t) ≡ in_time t
unfolding positive as_i64
positive-as_i64 t = ground arith

-- A value for a time that is a signed 64-bit number.
abbrev pub if_signed : ℕ → ℤ → Option ℤ
if_signed t x = if ltb t 9223372036854775808 then some x else none

pub if_signed-as_i64 : (t : ℕ) → if_signed t (as_i64 t) ≡ if_signed t (pos t)
unfolding as_i64
if_signed-as_i64 t = ground arith

pub from_wire-pb_mode : (m : QueueMode) → from_wire (pb_mode m) ≡ some m
unfolding from_wire pb_mode
from_wire-pb_mode m = ground arith

pub from_wire_optional : (m : Option QueueMode) → from_wire (if_some m pb_mode 0) ≡ m
unfolding from_wire
from_wire_optional none = refl
from_wire_optional (some m) = from_wire-pb_mode m

module _ (to_string : ℕ → Text) where
  -- The players of a party, as identifiers.
  members-party :
      (views : List PlayerView)
      → map (λ (p : SdkPlayer). p.id) (map player (map (encode_player to_string) views))
        ≡ map (λ (v : PlayerView). to_string v.player_id) views
  unfolding player encode_player
  members-party [] = refl
  members-party (v ∷ views) = ground (arith, members-party views)

  pub rosters :
      (i : ℕ) (teams : List (List ℕ))
      → map (λ (t : EncodedTeam). t.player_ids) (encode_teams to_string i teams)
        ≡ map (map to_string) teams
  unfolding encode_teams
  rosters i [] = refl
  rosters i (team ∷ teams) = ground (arith, rosters (i + 1) teams)

  pub nonempty-encode_id :
      ((n : ℕ) → is_empty (to_string n) ≡ false)
      → (id : Option ℕ)
      → nonempty (encode_id to_string id) ≡ if_some id (λ i. some (to_string i)) none
  unfolding nonempty encode_id
  nonempty-encode_id written none = refl
  nonempty-encode_id written (some i) = rw (written i) refl

  -- A player as the client shows it.
  abbrev pub shown_player : PlayerView → SdkPlayer
  shown_player v = record {
    id = to_string v.player_id;
    rating = v.rating;
    rating_one_v_one = v.rating_one_v_one;
    rating_five_v_five = v.rating_five_v_five;
    rating_free_for_all = v.rating_free_for_all;
    credit = v.credit;
  }

  pub details_party :
      (views : List PlayerView)
      → map player (map (encode_player to_string) views) ≡ map shown_player views
  unfolding player encode_player
  details_party [] = refl
  details_party (v ∷ views) = ground (arith, details_party views)

  -- A party as the client shows it.
  abbrev pub shown_party : PartyView → SdkParty
  shown_party p = record {
    id = to_string p.party_id;
    name = p.name;
    leader_id = to_string p.leader_id;
    members = map (λ (v : PlayerView). to_string v.player_id) p.members;
    player_details = map shown_player p.members;
    revision = p.revision;
    state = debug p.state;
  }

  pub party-encode_party : (p : PartyView) → party (encode_party to_string p) ≡ shown_party p
  unfolding party encode_party
  party-encode_party p = ground (arith, members-party p.members, details_party p.members)
