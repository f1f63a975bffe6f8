-- ===== src/Authority/Rebuild/Known.antt =====
-- The players and parties that are read from a rebuilt world (core/src/grpc/mod.rs).

use elo_ranking_pairing_syst.Base.{
  ℕ, ◌≡◌, refl, Bool, false, ◌==◌, ==_iff, ◌||◌, some, List, [], ◌∷◌, ◌++◌, map, any, All, contains,
  leb, is_some, if_some, arith,
}
use elo_ranking_pairing_syst.Base.Map.{Map, lookup, values, nat_key, IsMap}
use elo_ranking_pairing_syst.Base.Sort.{sort_by, any-sort_by}
use elo_ranking_pairing_syst.Components.{mode_key}
use elo_ranking_pairing_syst.World.{Entity}
use elo_ranking_pairing_syst.Party.{Party}
use elo_ranking_pairing_syst.Proposal.{Proposal}
use elo_ranking_pairing_syst.Server.Types.{GameServer}
use elo_ranking_pairing_syst.Authority.Messages.{Env}
use elo_ranking_pairing_syst.Authority.State.{AuthorityState, TicketRecord, rated_key}
use elo_ranking_pairing_syst.Authority.Rebuild.{
  dedup, read_player, read_party, rebuilt, player_entity, party_entity, ticket_entity,
  proposal_entity, server_entity, elo_rating, session_players,
}
use elo_ranking_pairing_syst.Authority.Rebuild.Joins.{
  any-append, All-append, any-map, any-none, All-map, names, IsOf, any-dedup,
}

pub All-imp :
    {A : Type 0} (P Q : A → Type 0) (xs : List A) → ((x : A) → P x → Q x) → All P xs → All Q xs
All-imp P Q [] f h = tt
All-imp P Q (x ∷ xs) f (h, hs) = (f x h, All-imp P Q xs f hs)

-- Every entry of a map is what its key is looked up to.
pub entries_found :
    {V : Type 0} (m : Map ℕ V) → IsMap m → All (λ (x : ℕ × V). lookup x.0 m ≡ some x.1) m
unfolding lookup
entries_found [] h = tt
entries_found ((k, v) ∷ m) (new, h) = (
  ground (arith, ==_iff k k),
  All-imp _ _ m (λ x found. ground (arith, found, new, ==_iff k x.0)) (entries_found m h),
)

-- Each party is stored under its identifier.
abbrev pub IsKeyed : Map ℕ Party → Type 0
IsKeyed [] = Unit
IsKeyed ((id, p) ∷ m) = (p.id ≡ id) × IsKeyed m

keyed-any :
    (id : ℕ) (m : Map ℕ Party)
    → IsKeyed m
    → any (names read_party id) (map party_entity (values m)) ≡ is_some (lookup id m)
unfolding lookup party_entity
keyed-any id [] h = refl
keyed-any id ((k, p) ∷ m) (same, h) = ground (arith, same, keyed-any id m h, ==_iff k id)

keyed-All :
    (value : ℕ → List ℕ × ℕ) (m : Map ℕ Party)
    → IsKeyed m
    → All (λ (x : ℕ × Party). value x.0 ≡ (x.1.members, x.1.revision)) m
    → All (IsOf read_party value) (map party_entity (values m))
unfolding party_entity
keyed-All value [] h v = tt
keyed-All value ((k, p) ∷ m) (same, h) (v, vs) = (ground (arith, same, v), keyed-All value m h vs)

module _ {env : Env} where
  abbrev pub party_value : AuthorityState env → ℕ → List ℕ × ℕ
  party_value s id = if_some (lookup id s.parties) (λ p. (p.members, p.revision)) ([], 0)

  -- A property of all entities, kind by kind.
  rebuilt-All :
      (P : Entity → Type 0) (s : AuthorityState env) (now : ℕ)
      → ((player : ℕ) → P (player_entity s player))
      → All P (map party_entity (values s.parties))
      → ((t : ℕ × TicketRecord) → P (ticket_entity s now t))
      → ((p : Proposal) → P (proposal_entity p))
      → ((g : GameServer) → P (server_entity g))
      → All P (rebuilt s now)
  unfolding rebuilt dedup
  rebuilt-All P s now players parties tickets proposals servers =
      All-append P (map (player_entity s) (session_players s)) _
        (All-map P (player_entity s) (session_players s) players)
        (All-append P (map party_entity (values s.parties)) _ parties (
          All-append P (map (ticket_entity s now) s.tickets) _
            (All-map P (ticket_entity s now) s.tickets tickets)
            (All-append P (map proposal_entity (values s.proposals)) _
              (All-map P proposal_entity (values s.proposals) proposals)
              (All-map P server_entity (values s.registry) servers))))

  rebuilt-any :
      (p : Entity → Bool) (s : AuthorityState env) (now : ℕ)
      → ((t : ℕ × TicketRecord) → p (ticket_entity s now t) ≡ false)
      → ((q : Proposal) → p (proposal_entity q) ≡ false)
      → ((g : GameServer) → p (server_entity g) ≡ false)
      → any p (rebuilt s now)
        ≡ any p (map (player_entity s) (session_players s))
          || any p (map party_entity (values s.parties))
  unfolding rebuilt dedup
  rebuilt-any p s now tickets proposals servers =
      let players = map (player_entity s) (session_players s) in
      let parties = map party_entity (values s.parties) in
      let queue = map (ticket_entity s now) s.tickets in
      let checks = map proposal_entity (values s.proposals) in
      let fleet = map server_entity (values s.registry) in
      ground (
        arith,
        any-append p players (parties ++ (queue ++ (checks ++ fleet))),
        any-append p parties (queue ++ (checks ++ fleet)),
        any-append p queue (checks ++ fleet),
        any-append p checks fleet,
        any-none p (ticket_entity s now) s.tickets tickets,
        any-none p proposal_entity (values s.proposals) proposals,
        any-none p server_entity (values s.registry) servers,
      )

  pub known_players :
      (s : AuthorityState env) (now k : ℕ)
      → any (names read_player k) (rebuilt s now) ≡ contains k (values s.sessions)
  unfolding player_entity party_entity ticket_entity proposal_entity server_entity
  known_players s now k =
      let read = names read_player k in
      let found = any-map read (player_entity s) (λ x. x == k) (session_players s) (λ x. refl) in
      let others = any-none read party_entity (values s.parties) (λ x. refl) in
      let sorted = any-sort_by leb (λ x. x == k) (values s.sessions) in
      ground (
        arith,
        rebuilt-any read s now (λ x. refl) (λ x. refl) (λ x. refl),
        found,
        others,
        any-dedup k (sort_by leb (values s.sessions)),
        sorted,
      )

  pub rated :
      (s : AuthorityState env) (now : ℕ) → All (IsOf read_player (elo_rating s)) (rebuilt s now)
  unfolding player_entity party_entity ticket_entity proposal_entity server_entity
  rated s now =
      let P = IsOf read_player (elo_rating s) in
      rebuilt-All P s now (λ x. refl) (All-map P party_entity (values s.parties) (λ x. tt))
        (λ x. tt) (λ x. tt) (λ x. tt)

  pub known_parties :
      (s : AuthorityState env) (now id : ℕ)
      → IsKeyed s.parties
      → any (names read_party id) (rebuilt s now) ≡ is_some (lookup id s.parties)
  unfolding player_entity party_entity ticket_entity proposal_entity server_entity
  known_parties s now id keyed =
      let read = names read_party id in
      ground (
        arith,
        rebuilt-any read s now (λ x. refl) (λ x. refl) (λ x. refl),
        any-none read (player_entity s) (session_players s) (λ x. refl),
        keyed-any id s.parties keyed,
      )

  pub listed :
      (s : AuthorityState env) (now : ℕ)
      → IsMap s.parties
      → IsKeyed s.parties
      → All (IsOf read_party (party_value s)) (rebuilt s now)
  unfolding player_entity party_entity ticket_entity proposal_entity server_entity
  listed s now m keyed =
      let P = IsOf read_party (party_value s) in
      rebuilt-All P s now (λ x. tt)
        (keyed-All (party_value s) s.parties keyed
          (All-imp _ _ s.parties (λ x h. ground (arith, h)) (entries_found s.parties m)))
        (λ x. tt) (λ x. tt) (λ x. tt)
