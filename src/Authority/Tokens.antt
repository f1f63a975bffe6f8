-- ===== src/Authority/Tokens.antt =====
-- The validators of tokens of core/src/grpc/mod.rs, for players and for game servers.
use elo_ranking_pairing_syst.Base.{
  ℕ, zero, suc, ◌+◌, ◌-◌, ◌*◌, ◌/◌, ◌%◌, ◌==◌, Option, none, some, List, [], ◌∷◌, ◌++◌, ltb,
  if_some, Result, ok, err, if◌then◌else◌,
}
use elo_ranking_pairing_syst.Base.Word.{u64_max, u64_mod}
use elo_ranking_pairing_syst.Base.Text.{Text, is_blank}
use elo_ranking_pairing_syst.Base.Map.{Map, lookup, insert, text_key}
use elo_ranking_pairing_syst.Authority.Messages.{Status, unauthenticated}

-- `^` of words of `w` bits.
unfoldable pub bit_xor : ℕ → ℕ → ℕ → ℕ
bit_xor zero a b = 0
bit_xor (suc w) a b = (a + b) % 2 + 2 * bit_xor w (a / 2) (b / 2)

-- The bytes of a scalar value, and of a string, in UTF-8.
abbrev pub encode_char : ℕ → List ℕ
encode_char c =
    let last = 0x80 + c % 64 in
    let second = 0x80 + c / 64 % 64 in
    let third = 0x80 + c / 4096 % 64 in
    if ltb c 0x80
    then c ∷ []
    else if ltb c 0x800
    then (0xc0 + c / 64) ∷ last ∷ []
    else if ltb c 0x10000
    then (0xe0 + c / 4096) ∷ second ∷ last ∷ []
    else (0xf0 + c / 262144) ∷ third ∷ second ∷ last ∷ []

unfoldable pub bytes : Text → List ℕ
bytes [] = []
bytes (c ∷ s) = encode_char c ++ bytes s

-- The loop of the hash.
unfoldable pub hash_bytes : List ℕ → ℕ → ℕ
unfolding bit_xor
hash_bytes [] hash = hash
hash_bytes (b ∷ bs) hash = hash_bytes bs (bit_xor 64 hash b * 0x100000001b3 % u64_mod)

-- `(hash << 64) | !hash`
unfoldable pub validate_development : Text → Result ℕ Status
unfolding bytes hash_bytes
validate_development token =
    let hash = hash_bytes (bytes token) 0xcbf29ce484222325 in
    if is_blank token then err unauthenticated else ok (hash * u64_mod + (u64_max - hash))

unfoldable pub validate_development_server : Text → ℕ → Result (Unit {0}) Status
validate_development_server token server = if is_blank token then err unauthenticated else ok tt

-- The identities of a decoded file, whose identifiers are parsed; `insert` stands for `collect`.
unfoldable pub collect_identities :
    (Text → Option ℕ) → Map Text Text → Map Text ℕ → Option (Map Text ℕ)
collect_identities parse [] identities = some identities
collect_identities parse ((token, text) ∷ encoded) identities =
    if_some (parse text) (λ id. collect_identities parse encoded (insert token id identities)) none

unfoldable pub validate_static : Map Text ℕ → Text → Result ℕ Status
validate_static identities token = if_some (lookup token identities) ok (err unauthenticated)

unfoldable pub validate_static_server : Map Text ℕ → Text → ℕ → Result (Unit {0}) Status
validate_static_server identities token server =
    if_some (lookup token identities)
      (λ expected. if expected == server then ok tt else err unauthenticated) (err unauthenticated)
