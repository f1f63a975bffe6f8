-- ===== src/Placement/Retry.antt =====
-- A failed launch that is tried elsewhere, and the transitions of an instance.
use elo_ranking_pairing_syst.Base.{
  ℕ, ◌≡◌, refl, ◌≢◌, inl, inr, Option, none, some, arith, ◌==◌, ok, err, Option-cases, Result-cases,
  Bool-cases,
}
use elo_ranking_pairing_syst.Base.Word.{u32_max, saturating_add}
use elo_ranking_pairing_syst.Base.Text.{Text}
use elo_ranking_pairing_syst.Base.Map.{lookup, modify, nat_key}
use elo_ranking_pairing_syst.Base.Map.Laws.{
  modify-IsMap, total-modify, lookup-modify, lookup-remove_self,
}
use elo_ranking_pairing_syst.Components.{QueueMode}
use elo_ranking_pairing_syst.Server.Types.{InstanceState, Instance, GameServer, Registry, is_live}
use elo_ranking_pairing_syst.Server.Ledger.{
  live_cost, IsLedger, IsRegistry, lookup-IsLedger, modify-IsRegistry, modify-IsRegistry_all,
}
use elo_ranking_pairing_syst.Placement.Reservation.{IsNew, reserve-IsRegistry, release-IsRegistry}
use elo_ranking_pairing_syst.Placement.{
  reserve, enter, transition, let_go, unknown_server, release, retry_after_failure,
}

pub count_failure-IsRegistry :
    (servers : Registry) (server : ℕ)
    → IsRegistry servers
    → IsRegistry
        (modify server (λ s. record s { failures = saturating_add u32_max s.failures 1 }) servers)
count_failure-IsRegistry servers server r =
    modify-IsRegistry_all server _ servers
      (λ s l. (
        record { distinct = l.distinct; balanced = l.balanced; fits = l.fits; bounded = l.bounded },
        refl,
      ))
      r

-- A change of one instance that neither ends it nor revives it keeps the registry in order.
pub change-IsRegistry :
    (servers : Registry) (server match_id : ℕ) (change : Instance → Instance) (s : GameServer)
    (i : Instance)
    → IsRegistry servers
    → lookup server servers ≡ some s
    → lookup match_id s.instances ≡ some i
    → live_cost (change i) ≡ live_cost i
    → IsRegistry
        (modify server (λ t. record t { instances = modify match_id change t.instances }) servers)
change-IsRegistry servers server match_id change s i r e f same =
    let l = (lookup-IsLedger server s servers r e).0 in
    modify-IsRegistry server _ s servers r e
      (record {
        distinct = modify-IsMap match_id change s.instances l.distinct;
        balanced =
            ground
              (arith, l.balanced, same, total-modify live_cost match_id change i s.instances f);
        fits = l.fits;
        bounded = l.bounded;
      })
      refl

transition_live :
    (state : InstanceState) (endpoint token : Option Text) (i : Instance)
    → is_live state ≡ is_live i.state
    → live_cost (enter state endpoint token i) ≡ live_cost i
unfolding enter
transition_live state endpoint token i h = ground arith

-- A transition of an instance that neither ends it nor revives it keeps the registry in order.
pub transition-IsRegistry :
    (servers moved : Registry) (server match_id : ℕ) (state : InstanceState)
    (endpoint token : Option Text) (s : GameServer) (i : Instance)
    → IsRegistry servers
    → lookup server servers ≡ some s
    → lookup match_id s.instances ≡ some i
    → is_live state ≡ is_live i.state
    → transition servers server match_id state endpoint token ≡ ok moved
    → IsRegistry moved
unfolding transition
transition-IsRegistry servers moved server match_id state endpoint token s i r e f live h =
    let change = enter state endpoint token in
    let update = λ (t : GameServer). record t { instances = modify match_id change t.instances } in
    let same : modify server update servers ≡ moved = ground arith in
    rw same at (
      change-IsRegistry servers server match_id change s i r e f
        (transition_live state endpoint token i live))

let_go_absent :
    (match_id : ℕ) (s : GameServer)
    → IsLedger s
    → lookup match_id (let_go match_id s).instances ≡ none
unfolding let_go
let_go_absent match_id s l = ground (arith, lookup-remove_self match_id s.instances l.distinct)

-- The match is on no server but this one.
abbrev pub IsOnlyOn : ℕ → ℕ → Registry → Type 0
IsOnlyOn server match_id servers =
    (id : ℕ) (s : GameServer)
    → id ≢ server
    → lookup id servers ≡ some s
    → lookup match_id s.instances ≡ none

abbrev pub count_failure : GameServer → GameServer
count_failure s = record s { failures = saturating_add u32_max s.failures 1 }

pub released-IsNew :
    (servers : Registry) (server match_id : ℕ) (s : GameServer)
    → IsRegistry servers
    → lookup server servers ≡ some s
    → IsOnlyOn server match_id servers
    → IsNew match_id (modify server count_failure (modify server (let_go match_id) servers))
released-IsNew servers server match_id s r e only id t f = elim (Bool-cases (server == id)) [
  | inl at ↦
      let l = (lookup-IsLedger server s servers r e).0 in
      let here : lookup id (modify server count_failure (modify server (let_go match_id) servers))
          ≡ some (count_failure (let_go match_id s)) =
        ground (
          arith,
          lookup-modify server id count_failure (modify server (let_go match_id) servers),
          lookup-modify server id (let_go match_id) servers,
        ) in
      let same : t ≡ count_failure (let_go match_id s) = ground arith in
      rw same (let_go_absent match_id s l)
  | inr off ↦
      only id t (λ p. ground arith)
        (ground (
          arith,
          lookup-modify server id count_failure (modify server (let_go match_id) servers),
          lookup-modify server id (let_go match_id) servers,
        ))
]

pub release_found :
    (servers : Registry) (server match_id : ℕ) (s : GameServer)
    → lookup server servers ≡ some s
    → release servers server match_id ≡ ok (modify server (let_go match_id) servers)
unfolding release
release_found servers server match_id s e = rw (e, release)

pub release_missing :
    (servers : Registry) (server match_id : ℕ)
    → lookup server servers ≡ none
    → release servers server match_id ≡ err unknown_server
unfolding release
release_missing servers server match_id e = rw (e, release)

-- A launch that failed and is tried again leaves the registry in order, whether another server is
-- found or not.
pub retry_after_failure-IsRegistry :
    (servers : Registry) (failed match_id : ℕ) (mode : QueueMode) (region : Text)
    → IsRegistry servers
    → IsOnlyOn failed match_id servers
    → IsRegistry (retry_after_failure servers failed match_id mode region).0
unfolding retry_after_failure
retry_after_failure-IsRegistry servers failed match_id mode region r only =
    elim (Option-cases (lookup failed servers)) [
      | inl e ↦ rw (release_missing servers failed match_id e, retry_after_failure) r
      | inr (s, e) ↦
          let counted = modify failed count_failure (modify failed (let_go match_id) servers) in
          let order : IsRegistry counted =
            count_failure-IsRegistry (modify failed (let_go match_id) servers) failed (
              release-IsRegistry servers _ failed match_id r
                (release_found servers failed match_id s e)) in
          elim (Result-cases (reserve counted match_id mode region)) [
            | inl (p, f) ↦
                rw (release_found servers failed match_id s e, f, retry_after_failure) order
            | inr ((placed, server), f) ↦
                rw (release_found servers failed match_id s e, f, retry_after_failure)
                  (reserve-IsRegistry counted placed match_id mode region server order
                    (released-IsNew servers failed match_id s r e only) f)
          ]
    ]
