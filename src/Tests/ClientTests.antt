-- ===== src/Tests/ClientTests.antt =====
-- The client at concrete inputs.
use elo_ranking_pairing_syst.Base.{
  ℕ, ◌+◌, ◌≤◌, ◌≡◌, refl, none, some, List, [], ◌∷◌, ok, err, length, All,
}
use elo_ranking_pairing_syst.Base.Text.{Text, text}
use elo_ranking_pairing_syst.Base.Map.{nat_key}
use elo_ranking_pairing_syst.Components.{five_vs_five}
use elo_ranking_pairing_syst.Authority.Messages.{ClientEvent}
use elo_ranking_pairing_syst.Authority.Client.{client_state}
use elo_ranking_pairing_syst.Client.{state, event}
use elo_ranking_pairing_syst.Client.Encode.{encode_state, encode_event}
use elo_ranking_pairing_syst.Client.Seen.{Told, known_state, event-encode_event, state-client_state}
use elo_ranking_pairing_syst.Client.Types.{transport, SdkEvent}
use elo_ranking_pairing_syst.Client.Watch.{SdkSession, Turn, watch, first_backoff, watch-pauses}
use elo_ranking_pairing_syst.Tests.AuthorityTests.{start}

abbrev digits : ℕ → Text
digits n = (48 + n) ∷ []

abbrev won : ClientEvent
won = ClientEvent.matched (record {
  match_id = 3;
  mode = five_vs_five;
  teams = (1 ∷ 2 ∷ []) ∷ (4 ∷ 5 ∷ []) ∷ [];
  endpoint = text "host";
  connection_token = text "t";
})

event-encode_event_example :
    (x : SdkEvent) × (event (encode_event digits won) ≡ ok x) × Told digits won x
event-encode_event_example = event-encode_event digits won

state-client_state_example :
    state (encode_state digits (client_state start 200 1)) ≡ known_state digits start 200 1
state-client_state_example = state-client_state digits (λ n. refl) start 200 1

abbrev connected : SdkSession
connected = record { session_token = some (text "a"); player_id = some (digits 1) }

-- A stream that gives one event, then two reconnections that fail.
abbrev outage : List Turn
outage =
    record {
      stream = some (encode_event digits won ∷ []);
      session = err transport;
      reconciled = err transport;
    }
    ∷ record { stream = none; session = err transport; reconciled = err transport }
    ∷ []

watch-pauses_example :
    let pauses = (watch connected first_backoff outage).1 in
    (length pauses ≡ length outage) × All (λ p. (100 ≤ p) × (p ≤ 5000)) pauses
watch-pauses_example = watch-pauses connected outage refl

-- The pause doubles after a failure.
outage_pauses : (watch connected first_backoff outage).1 ≡ 100 ∷ 200 ∷ []
unfolding watch
outage_pauses = refl
