-- ===== src/Authority/Adapter/Admitted.antt =====
-- Who gets through the services of core/src/grpc/mod.rs.
use elo_ranking_pairing_syst.Base.{
  ℕ, ◌≡◌, ◌≢◌, refl, Bool, true, false, ◌&&◌, Option, none, some, ==_iff, is_some, ok, arith,
  Option-cases, Bool-cases, ap, ◌∙◌, ◌==◌, inl, inr,
}
use elo_ranking_pairing_syst.Base.Text.{Text, text_eq_iff}
use elo_ranking_pairing_syst.Base.Map.{Map, lookup, text_key, nat_key}
use elo_ranking_pairing_syst.Base.Map.Laws.{lookup-insert}
use elo_ranking_pairing_syst.Config.{ErpsConfig, validate}
use elo_ranking_pairing_syst.Profile.{PlayerProfile}
use elo_ranking_pairing_syst.Rating.{Float}
use elo_ranking_pairing_syst.Authority.Messages.{Env, ApiVersion}
use elo_ranking_pairing_syst.Authority.State.{AuthorityState}
use elo_ranking_pairing_syst.Authority.Tokens.{validate_static, validate_static_server}
use elo_ranking_pairing_syst.Authority.Actor.{open_session}
use elo_ranking_pairing_syst.Authority.Adapter.{
  ServerCall, serve_call, serve_session, serve, serve_with_validator, serve_with_validators,
}

module _ {env : Env} where
  -- With a file of server tokens, a call that names a server without the token of that server, or no
  -- server at all, is refused and changes nothing, whatever it asks for.
  pub serve_call_stranger :
      (identities : Map Text ℕ) (now : ℕ) (api : Option ApiVersion) (server : Option ℕ)
      (token : Text) (call : ServerCall env) (s : AuthorityState env)
      → ((id : ℕ) → server ≡ some id → lookup token identities ≢ some id)
      → ((serve_call (validate_static_server identities) now api server token call s).0 ≢ ok tt)
        × ((serve_call (validate_static_server identities) now api server token call s).1 ≡ s)
  unfolding serve_call validate_static_server
  serve_call_stranger identities now api none token call s h = ground arith
  serve_call_stranger identities now api (some id) token call s h =
      elim (Option-cases (lookup token identities)) [
        | inl e ↦ ground (arith, e)
        | inr (expected, e) ↦ elim (Bool-cases (expected == id)) [
          | inl f ↦ absurd (h id refl (rw e (ap some ((==_iff expected id).0 f))))
          | inr f ↦ ground (arith, e, f)
        ]
      ]

  -- With a file of player tokens, a session that is opened belongs to the player of the token: the fresh
  -- token stands for that player in later requests; every other token of a session stands for whom it
  -- did.
  pub serve_session_owner :
      (identities : Map Text ℕ) (load : ℕ → Option PlayerProfile) (now : ℕ)
      (api : Option ApiVersion) (auth fresh : Text) (channel : env.Events) (s : AuthorityState env)
      (player : ℕ)
      → let outcome =
          serve_session (validate_static identities) load now api auth fresh channel s in
        outcome.0 ≡ ok (fresh, player)
        → (lookup auth identities ≡ some player)
          × (lookup fresh outcome.1.sessions ≡ some player)
          × (lookup player outcome.1.current_session ≡ some fresh)
          × ((t : Text) → t ≢ fresh → lookup t outcome.1.sessions ≡ lookup t s.sessions)
  unfolding serve_session validate_static open_session
  serve_session_owner identities load now api auth fresh channel s player h =
      elim (Option-cases (lookup auth identities)) [
        | inl e ↦ absurd (ground (arith, e, h))
        | inr (id, e) ↦ elim (Option-cases (load id)) [
          | inl f ↦ absurd (ground (arith, e, f, h))
          | inr (profile, f) ↦
              let same : id ≡ player = ground (arith, e, f, h) in
              let next = open_session now id fresh profile channel s in
              let after : (serve_session (validate_static identities) load now api auth fresh
                    channel s).1
                  ≡ next =
                ground (arith, e, f, h) in
              (
                e ∙ ap some same,
                ground (
                  arith,
                  after,
                  same,
                  lookup-insert fresh fresh id s.sessions,
                  text_eq_iff fresh fresh,
                ),
                ground
                    (arith, after, same, lookup-insert id id fresh s.current_session, ==_iff id id),
                λ t n.
                    ground
                      (arith, after, n, lookup-insert fresh t id s.sessions, text_eq_iff fresh t),
              )
        ]
      ]

module _ {fl : Float} where
  -- The development validators, which take any token, serve only a configuration without a certificate,
  -- on a loopback address that is allowed plain text; and no service starts in plain text elsewhere.
  pub serve_plaintext :
      (c : ErpsConfig fl) (is_loopback : Bool)
      → (serve c is_loopback ≡ ok tt
          → (c.tls_certificate_path ≡ none) × (is_loopback && c.allow_development_plaintext ≡ true))
        × (serve_with_validators c is_loopback ≡ ok tt
            → (validate fl c ≡ ok tt)
              × (is_some c.tls_private_key_path && is_some c.tls_certificate_path ≡ false
                  → is_loopback && c.allow_development_plaintext ≡ true))
  unfolding serve serve_with_validator serve_with_validators
  serve_plaintext c is_loopback = ground arith
