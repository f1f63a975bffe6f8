-- ===== src/Matching/Bucket.antt =====
-- core/src/matching/bucket.rs: buckets of ratings, and the range of a search as it widens.
pub mod Laws
use elo_ranking_pairing_syst.Base.{
  ℕ, zero, suc, ◌+◌, ◌-◌, ◌/◌, ◌≡◌, List, [], ◌∷◌, max, min, if◌then◌else◌,
}
use elo_ranking_pairing_syst.Base.Int.{
  ℤ, pos, negsuc, pos_part, ◌+ℤ◌, ◌-ℤ◌, max_ℤ, min_ℤ, neg, div_euclid, ltb_ℤ,
}
use elo_ranking_pairing_syst.Base.Word.{
  saturating_sub, saturating_add_i32, saturating_mul_i32, wrap_i32,
}
use elo_ranking_pairing_syst.Base.Text.{Text}
use elo_ranking_pairing_syst.Components.{QueueMode}

pub record BucketKey : Type 0 where
  pub region : Text
  pub mode : QueueMode
  pub index : ℤ

unfoldable pub bucket_for : Text → QueueMode → ℤ → ℤ → BucketKey
bucket_for region mode rating width = record {
  region = region;
  mode = mode;
  index = div_euclid rating (pos_part (max_ℤ width (pos 1)));
}

-- `(first..).take(count)` around the key; the addition wraps.
unfoldable pub neighbours : BucketKey → ℤ → ℕ → List BucketKey
neighbours key d zero = []
neighbours key d (suc count) =
    record key { index = wrap_i32 (key.index +ℤ d) } ∷ neighbours key (d +ℤ pos 1) count

-- The range from `-radius` to `radius`; the negation wraps.
unfoldable pub halo : BucketKey → ℤ → List BucketKey
unfolding neighbours
halo key radius =
    let start = wrap_i32 (neg radius) in
    neighbours key start (if ltb_ℤ radius start then 0 else suc (pos_part (radius -ℤ start)))

unfoldable pub search_delta : ℤ → ℤ → ℕ → ℤ → ℕ → ℕ → ℤ
search_delta initial step step_seconds maximum enqueued now =
    let steps = saturating_sub now enqueued / max step_seconds 1 in
    min_ℤ (saturating_add_i32 initial (saturating_mul_i32 step (pos (min steps 2147483647))))
      maximum
