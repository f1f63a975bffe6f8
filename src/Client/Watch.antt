-- ===== src/Client/Watch.antt =====
-- `events`, `reconnect`, `open_session` and `shutdown` of client/src/lib.rs: the session of a client, and
-- the task that watches events, with the pauses between its attempts.
use elo_ranking_pairing_syst.Base.{
  ℕ, ◌*◌, ◌≤◌, ◌≡◌, refl, Option, none, some, List, [], ◌∷◌, ◌++◌, min, if_some, Result, ok, err,
  arith, All, length, is_some, true,
}
use elo_ranking_pairing_syst.Base.Text.{Text}
use elo_ranking_pairing_syst.Client.{event, state}
use elo_ranking_pairing_syst.Client.Types.{SdkError, not_connected, SdkEvent}
use elo_ranking_pairing_syst.Client.Wire.{EncodedState, EncodedEvent}

-- What a client remembers of its session; `rpc` is outside.
pub record SdkSession : Type 0 where
  pub session_token : Option Text
  pub player_id : Option Text

unfoldable pub token : SdkSession → Result Text SdkError
token c = if_some c.session_token ok (err not_connected)

-- The answer of the authority to `open_session`, a token and a player, is taken over.
unfoldable pub opened :
    Result (Text × Text) SdkError → SdkSession → Result (Unit {0}) SdkError × SdkSession
opened (err e) c = (err e, c)
opened (ok (session_token, player_id)) c =
    (ok tt, record { session_token = some session_token; player_id = some player_id })

abbrev pub shutdown : SdkSession
shutdown = record { session_token = none; player_id = none }

-- One turn of the loop: whether the stream opened, and what it gave until it ended or failed; how the
-- client reconnected then. `reconnect` is the answers to its two calls.
pub record Turn : Type 0 where
  pub stream : Option (List EncodedEvent)
  pub session : Result (Text × Text) SdkError
  pub reconciled : Result EncodedState SdkError

unfoldable pub reconnect : Turn → SdkSession → Result EncodedState SdkError × SdkSession
unfolding opened
reconnect turn c =
    let (outcome, c') = opened turn.session c in
    elim outcome [ err e ↦ (err e, c') | ok _ ↦ (turn.reconciled, c') ]

-- The events that were sent on.
unfoldable pub decode_all : List EncodedEvent → List (Result SdkEvent SdkError)
unfolding event
decode_all [] = []
decode_all (v ∷ vs) = event v ∷ decode_all vs

abbrev pub first_backoff : ℕ
first_backoff = 100

-- The pause before the reconnection, in milliseconds.
unfoldable pub pause : Turn → ℕ → ℕ
pause turn backoff = if_some turn.stream (λ _. first_backoff) backoff

-- The next pause, after a reconnection.
unfoldable pub next_backoff : Result EncodedState SdkError → ℕ → ℕ
next_backoff (ok _) backoff = first_backoff
next_backoff (err _) backoff = min (backoff * 2) 5000

unfoldable pub reconciled_event : Result EncodedState SdkError → Result SdkEvent SdkError
unfolding state
reconciled_event (ok v) = ok (SdkEvent.state (state v))
reconciled_event (err e) = err e

-- What the loop sends while its receiver listens, and the pauses that it makes.
unfoldable pub watch : SdkSession → ℕ → List Turn → List (Result SdkEvent SdkError) × List ℕ
unfolding token reconnect decode_all pause next_backoff reconciled_event
watch c backoff [] = ([], [])
watch c backoff (turn ∷ turns) =
    let waited = pause turn backoff in
    let (outcome, c') = reconnect turn c in
    let (sent, pauses) = watch c' (next_backoff outcome waited) turns in
    elim (token c) [
      | err e ↦ (err e ∷ [], [])
      | ok _ ↦
          (if_some turn.stream decode_all [] ++ reconciled_event outcome ∷ sent, waited ∷ pauses)
    ]

pauses-bounded :
    (c : SdkSession) (backoff : ℕ) (turns : List Turn)
    → 100 ≤ backoff
    → backoff ≤ 5000
    → All (λ p. (100 ≤ p) × (p ≤ 5000)) (watch c backoff turns).1
unfolding watch pause next_backoff
pauses-bounded c backoff [] l u = tt
pauses-bounded c backoff (turn ∷ turns) l u =
    let waited = pause turn backoff in
    let (outcome, c') = reconnect turn c in
    let rest =
      pauses-bounded c' (next_backoff outcome waited) turns (ground arith) (ground arith) in
    ground (arith, rest)

-- A reconnection, failed or not, leaves a session.
reconnect-token :
    (turn : Turn) (c : SdkSession)
    → is_some c.session_token ≡ true
    → is_some (reconnect turn c).1.session_token ≡ true
unfolding reconnect opened
reconnect-token turn c h = ground arith

pauses_all :
    (c : SdkSession) (backoff : ℕ) (turns : List Turn)
    → is_some c.session_token ≡ true
    → length (watch c backoff turns).1 ≡ length turns
unfolding watch token
pauses_all c backoff [] h = refl
pauses_all c backoff (turn ∷ turns) h =
    let waited = pause turn backoff in
    let (outcome, c') = reconnect turn c in
    let rest = pauses_all c' (next_backoff outcome waited) turns (reconnect-token turn c h) in
    ground (arith, rest)

-- A client with a session never stops to watch: whatever the streams and the reconnections come to, it
-- makes a turn and a pause for each of them, and every pause is between a tenth of a second and five
-- seconds.
pub watch-pauses :
    (c : SdkSession) (turns : List Turn)
    → is_some c.session_token ≡ true
    → let pauses = (watch c first_backoff turns).1 in
      (length pauses ≡ length turns) × All (λ p. (100 ≤ p) × (p ≤ 5000)) pauses
watch-pauses c turns h = (
  pauses_all c first_backoff turns h,
  pauses-bounded c first_backoff turns (ground arith) (ground arith),
)
