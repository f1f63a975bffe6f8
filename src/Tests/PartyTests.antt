-- ===== src/Tests/PartyTests.antt =====
-- Parties, invitations and credit at concrete inputs.
use elo_ranking_pairing_syst.Base.{ℕ, ◌≡◌, refl, true, false, some, [], ◌∷◌, arith, leb, ok}
use elo_ranking_pairing_syst.Base.Text.{text, text_eq}
use elo_ranking_pairing_syst.Base.Map.{Map, lookup, nat_key, text_key}
use elo_ranking_pairing_syst.Base.Set as Set
use elo_ranking_pairing_syst.Components.{free_for_all, PartyState}
use elo_ranking_pairing_syst.Party.{
  Party, Unicode, new, normalize_name, MemberEligibility, validate_party_enqueue,
}
use elo_ranking_pairing_syst.Party.Invites.{create, consume, consume_others}
use elo_ranking_pairing_syst.Party.Lifecycle.{joined, left, IsValid, OfAny, run, new-run-IsValid}

-- ASCII: every text is in normal form, and letters and digits are those of ASCII.
abbrev pub ascii : Unicode
ascii = record { nfc = λ s. s; is_alphanumeric = λ c. leb 48 c; nfc_idem = λ s. refl }

abbrev duo : Party
duo = record {
  id = 1;
  name = text "A1";
  leader = 20;
  members = 10 ∷ 20 ∷ 30 ∷ [];
  revision = 4;
  state = PartyState.idle;
}

duo-IsValid : IsValid duo
duo-IsValid = record { ascending = omega arith; led = refl }

solo : new ascii 1 20 (text "A1") ≡ ok (record duo { members = 20 ∷ []; revision = 0 })
unfolding new normalize_name
solo = refl

new-run-IsValid_example : OfAny IsValid (
    run ascii
      (some (record duo { members = 20 ∷ []; revision = 0 }))
      (joined 10 ∷ left 20 ∷ joined 30 ∷ []))
new-run-IsValid_example =
    new-run-IsValid ascii 1 20 (text "A1") (joined 10 ∷ left 20 ∷ joined 30 ∷ []) solo

consume_others_example :
    lookup (text "u") (consume (create [] (text "t") 7 10 5 2) (text "t") 12).1
    ≡ lookup (text "u") (create [] (text "t") 7 10 5 2)
consume_others_example =
    consume_others (create [] (text "t") 7 10 5 2) (text "t") (text "u") 12 (ground arith)

abbrev players : Map ℕ MemberEligibility
players =
    (
      10,
      record { online = true; credit = 90; active = false; regions = text "jp" ∷ text "tw" ∷ [] },
    )
    ∷ (20, record { online = true; credit = 60; active = false; regions = text "tw" ∷ [] })
    ∷ []

abbrev pair : Party
pair = record duo { members = 10 ∷ 20 ∷ [] }

pair_queues : validate_party_enqueue pair free_for_all players 60 ≡ ok (text "tw" ∷ [])
unfolding validate_party_enqueue lookup Set.intersection Set.member text_eq
pair_queues = refl
