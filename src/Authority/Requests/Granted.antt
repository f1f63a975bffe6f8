-- ===== src/Authority/Requests/Granted.antt =====
-- Who gets into the queue (`enqueue` of core/src/grpc/mod.rs).
use elo_ranking_pairing_syst.Base.{
  ℕ, ◌≡◌, Bool, true, false, not, ◌&&◌, ◌||◌, ◌==◌, ==_iff, some, List, map, any, is_empty, arith,
  Result, ok, err,
}
use elo_ranking_pairing_syst.Base.Int.{ltb_ℤ}
use elo_ranking_pairing_syst.Base.Text.{Text, is_blank}
use elo_ranking_pairing_syst.Base.Map.{lookup, nat_key}
use elo_ranking_pairing_syst.Base.Map.Laws.{lookup-insert}
use elo_ranking_pairing_syst.Components.{QueueMode, PartyState}
use elo_ranking_pairing_syst.Party as Party
use elo_ranking_pairing_syst.Party.{Party, bump}
use elo_ranking_pairing_syst.Authority.Messages.{Env}
use elo_ranking_pairing_syst.Authority.State.{AuthorityState, next_uuid, emit_party, rating_of}
use elo_ranking_pairing_syst.Authority.Requests.{
  mode, is_away, is_suspended, rating_spread, enqueue,
}

-- `Ok(_)`
abbrev pub is_granted : {A E : Type 0} → Result A E → Bool
is_granted (ok a) = true
is_granted (err e) = false

module _ {env : Env} where
  -- What the tests of `enqueue` on a known party amount to.
  abbrev pub may_enqueue : AuthorityState env → QueueMode → ℕ → List Text → ℕ → ℕ → Party → Bool
  may_enqueue s m revision regions now player p =
      not (any (is_away s) p.members)
      && not (any (is_suspended s now) p.members)
      && not
          (ltb_ℤ s.config.max_party_rating_spread (rating_spread (map (rating_of s m) p.members)))
      && not (is_empty regions || any is_blank regions)
      && (p.leader == player)
      && (p.revision == revision)
      && is_granted (Party.validate_enqueue p m)

  refused :
      (id wire_mode revision now player : ℕ) (regions : List Text) (m : QueueMode) (p : Party)
      (s : AuthorityState env)
      → mode wire_mode ≡ some m
      → lookup id s.parties ≡ some p
      → may_enqueue s m revision regions now player p ≡ false
      → (is_granted (enqueue (some id) wire_mode revision regions now player s).0 ≡ false)
        × ((enqueue (some id) wire_mode revision regions now player s).1 ≡ s)
  unfolding enqueue
  refused id wire_mode revision now player regions m p s e h n = ground (arith, e, h, n)

  -- A party that is known is queued exactly if all its members are online and not suspended, their
  -- ratings are near enough, the regions are named, its leader asks with the current revision, and its
  -- state and size fit the mode. Then it has a ticket with the regions and the time of the request; if
  -- not, nothing changes.
  pub enqueue-may_enqueue :
      (id wire_mode revision now player : ℕ) (regions : List Text) (m : QueueMode) (p : Party)
      (s : AuthorityState env)
      → mode wire_mode ≡ some m
      → lookup id s.parties ≡ some p
      → let outcome = enqueue (some id) wire_mode revision regions now player s in
        (is_granted outcome.0 ≡ may_enqueue s m revision regions now player p)
        × (may_enqueue s m revision regions now player p ≡ true
            → (lookup id outcome.1.parties
                ≡ some (record p { state = PartyState.queued; revision = bump p.revision }))
              × (lookup id outcome.1.tickets
                  ≡ some (record {
                    id = (next_uuid s 2).0;
                    mode = m;
                    regions = regions;
                    enqueued_at = s.logical_clock;
                    queued_since_ms = now;
                  })))
        × (may_enqueue s m revision regions now player p ≡ false → outcome.1 ≡ s)
  unfolding enqueue emit_party
  enqueue-may_enqueue id wire_mode revision now player regions m p s e h = (
    ground (arith, e, h),
    λ y. (
      ground (
        arith,
        e,
        h,
        y,
        lookup-insert id id (record p { state = PartyState.queued; revision = bump p.revision })
            s.parties,
        ==_iff id id,
      ),
      ground (
        arith,
        e,
        h,
        y,
        lookup-insert id id
            (record {
              id = (next_uuid s 2).0;
              mode = m;
              regions = regions;
              enqueued_at = s.logical_clock;
              queued_since_ms = now;
            })
            s.tickets,
        ==_iff id id,
      ),
    ),
    λ n. (refused id wire_mode revision now player regions m p s e h n).1,
  )
