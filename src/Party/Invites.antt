-- ===== src/Party/Invites.antt =====
-- `InviteStore` of core/src/party.rs: invitations that expire and are used up.
use elo_ranking_pairing_syst.Base.{
  ℕ, ◌-◌, ◌≤◌, ◌≡◌, refl, ◌≢◌, ◌||◌, Option, none, some, List, [], ◌∷◌, arith, if◌then◌else◌, ◌==◌,
  ltb, max, All, ◌∙◌,
}
use elo_ranking_pairing_syst.Base.Word.{u64_max, saturating_add}
use elo_ranking_pairing_syst.Base.Text.{Text, text_eq_iff}
use elo_ranking_pairing_syst.Base.Map.{Map, lookup, insert, modify, text_key}
use elo_ranking_pairing_syst.Base.Map.Laws.{lookup-insert, lookup-modify}

pub record Invite : Type 0 where
  pub party : ℕ
  pub expires_at : ℕ
  pub remaining_uses : ℕ

abbrev pub InviteStore : Type 0
InviteStore = Map Text Invite

-- `token` is the fresh random identifier that the call draws.
unfoldable pub create : InviteStore → Text → ℕ → ℕ → ℕ → ℕ → InviteStore
create tokens token party now ttl uses =
    insert token
      (record {
        party = party;
        expires_at = saturating_add u64_max now ttl;
        remaining_uses = max uses 1;
      })
      tokens

unfoldable pub consume : InviteStore → Text → ℕ → Option ℕ × InviteStore
consume tokens token now = elim (lookup token tokens) [
  | none ↦ (none, tokens)
  | some invite ↦
      if ltb invite.expires_at now || (invite.remaining_uses == 0) then (none, tokens) else (
        some invite.party,
        modify token (λ i. record i { remaining_uses = i.remaining_uses - 1 }) tokens,
      )
]

-- One use after another, at the given times: what each attempt gets.
unfoldable pub consume_all : InviteStore → Text → List ℕ → List (Option ℕ)
consume_all tokens token [] = []
consume_all tokens token (now ∷ times) =
    let (party, rest) = consume tokens token now in party ∷ consume_all rest token times

-- Of attempts in time, the first `uses` get the party and the later ones nothing.
abbrev pub served : ℕ → ℕ → List ℕ → List (Option ℕ)
served party uses [] = []
served party uses (now ∷ times) =
    (if uses == 0 then none else some party) ∷ served party (uses - 1) times

consume_all-served :
    (tokens : InviteStore) (token : Text) (invite : Invite) (times : List ℕ)
    → lookup token tokens ≡ some invite
    → All (λ now. now ≤ invite.expires_at) times
    → consume_all tokens token times ≡ served invite.party invite.remaining_uses times
unfolding consume_all consume
consume_all-served tokens token invite [] h a = refl
consume_all-served tokens token invite (now ∷ times) h a =
    let used : Invite = record invite { remaining_uses = invite.remaining_uses - 1 } in
    let less = λ (i : Invite). record i { remaining_uses = i.remaining_uses - 1 } in
    ground (
      arith,
      lookup-modify token token less tokens,
      text_eq_iff token token,
      consume_all-served (modify token less tokens) token used times,
      consume_all-served tokens token invite times h a.1,
    )

lookup-create :
    (tokens : InviteStore) (token : Text) (party now ttl uses : ℕ)
    → lookup token (create tokens token party now ttl uses)
      ≡ some (record {
        party = party;
        expires_at = saturating_add u64_max now ttl;
        remaining_uses = max uses 1;
      })
unfolding create
lookup-create tokens token party now ttl uses =
    lookup-insert token token _ tokens ∙ rw ((text_eq_iff token token).1 refl)

-- An invitation for `uses` players, made at `now`, admits exactly that many of the attempts up to
-- `now + ttl`, and at least one; what else the store holds does not matter.
pub create-consume_all :
    (tokens : InviteStore) (token : Text) (party now ttl uses : ℕ) (times : List ℕ)
    → All (λ at. at ≤ saturating_add u64_max now ttl) times
    → consume_all (create tokens token party now ttl uses) token times
      ≡ served party (max uses 1) times
create-consume_all tokens token party now ttl uses times a =
    consume_all-served _ token _ times (lookup-create tokens token party now ttl uses) a

-- A use of one invitation leaves every other as it was.
pub consume_others :
    (tokens : InviteStore) (token other : Text) (now : ℕ)
    → token ≢ other
    → lookup other (consume tokens token now).1 ≡ lookup other tokens
unfolding consume
consume_others tokens token other now ne = ground (
  arith,
  text_eq_iff token other,
  lookup-modify token other (λ (i : Invite). record i { remaining_uses = i.remaining_uses - 1 })
      tokens,
)
