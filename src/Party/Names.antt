-- ===== src/Party/Names.antt =====
-- `normalize_name` of core/src/party.rs.
use elo_ranking_pairing_syst.Base.{◌≤◌, ◌≡◌, true, arith, length, all, ok, ap, sym, ◌∙◌}
use elo_ranking_pairing_syst.Base.Text.{Text}
use elo_ranking_pairing_syst.Party.{Unicode, normalize_name}

-- What a party's name must be: in NFC, of 1 to 24 letters and digits.
pub record IsName (u : Unicode) (s : Text) : Type 0 where
  pub normal : u.nfc s ≡ s
  pub short : (1 ≤ length s) × (length s ≤ 24)
  pub alphanumeric : all u.is_alphanumeric s ≡ true

module _ (u : Unicode) where
  normalize_name-eq : (n s : Text) → normalize_name u n ≡ ok s → u.nfc n ≡ s
  unfolding normalize_name
  normalize_name-eq n s h = ground arith

  -- Every name that is accepted is the normal form of the input, and is a name.
  pub normalize_name_sound : (n s : Text) → normalize_name u n ≡ ok s → (u.nfc n ≡ s) × IsName u s
  unfolding normalize_name
  normalize_name_sound n s h =
      let e = normalize_name-eq n s h in
      (
        e,
        record {
          normal = ap u.nfc (sym e) ∙ u.nfc_idem n ∙ e;
          short = ground arith;
          alphanumeric = ground arith;
        },
      )
