-- ===== src/Authority/Actor/Repeat.antt =====
-- Requests that are sent again (`cached` and `remember` of core/src/grpc/mod.rs).
use elo_ranking_pairing_syst.Base.{ℕ, ◌≡◌, some}
use elo_ranking_pairing_syst.Base.Text.{Text}
use elo_ranking_pairing_syst.Base.Map.{lookup}
use elo_ranking_pairing_syst.Command.{request_key}
use elo_ranking_pairing_syst.Authority.Messages.{OperationResult, Env}
use elo_ranking_pairing_syst.Authority.State.{AuthorityState}

module _ {env : Env} where
  -- What a state owes to an earlier one.
  abbrev Continues : AuthorityState env → AuthorityState env → Type 0
  Continues s t =
      (t.sessions ≡ s.sessions)
      × (t.config ≡ s.config)
      × ((key : ℕ × Text) (v : OperationResult)
          → lookup key s.request_cache ≡ some v
          → lookup key t.request_cache ≡ some v)
