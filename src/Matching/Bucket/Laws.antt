-- ===== src/Matching/Bucket/Laws.antt =====
-- The range of a search (core/src/matching/bucket.rs).
use native.Mathlib.Nat.{mul-le-mul_left, le-div_iff_mul-le, div-mul-le_self, lt-div-mul-add}
use elo_ranking_pairing_syst.Base.{ℕ, ◌+◌, ◌-◌, ◌*◌, ◌/◌, ◌≤◌, ◌<◌, ◌≡◌, max, min, arith}
use elo_ranking_pairing_syst.Base.Int.{
  ℤ, pos, negsuc, pos_part, ◌≤ℤ◌, ◌<ℤ◌, ◌+ℤ◌, ◌*ℤ◌, max_ℤ, min_ℤ, div_euclid,
}
use elo_ranking_pairing_syst.Base.Word.{saturating_add_i32, saturating_mul_i32, clamp, IsI32}
use elo_ranking_pairing_syst.Base.Text.{Text}
use elo_ranking_pairing_syst.Components.{QueueMode}
use elo_ranking_pairing_syst.Matching.Bucket.{bucket_for, search_delta}

saturating_add_le : (i a b : ℤ) → a ≤ℤ b → saturating_add_i32 i a ≤ℤ saturating_add_i32 i b
unfolding saturating_add_i32 clamp ◌+ℤ◌
saturating_add_le i a b h = ground arith

saturating_add_grows : (i a : ℤ) → IsI32 i → pos 0 ≤ℤ a → i ≤ℤ saturating_add_i32 i a
unfolding saturating_add_i32 clamp ◌+ℤ◌
saturating_add_grows i a k h = ground arith

saturating_mul_le :
    (s a b : ℕ) → a ≤ b → saturating_mul_i32 (pos s) (pos a) ≤ℤ saturating_mul_i32 (pos s) (pos b)
unfolding saturating_mul_i32 clamp ◌*ℤ◌
saturating_mul_le s a b h = ground (arith, mul-le-mul_left s h)

saturating_mul_nonneg : (s a : ℕ) → pos 0 ≤ℤ saturating_mul_i32 (pos s) (pos a)
unfolding saturating_mul_i32 clamp ◌*ℤ◌
saturating_mul_nonneg s a = ground arith

div_monotone : (a b k : ℕ) → 0 < k → a ≤ b → a / k ≤ b / k
div_monotone a b k h l = (le-div_iff_mul-le h).1 (omega (arith, div-mul-le_self a k, l))

-- A search never goes beyond the maximum, starts at the initial range (or the maximum, if less), and
-- a ticket that waits longer has no smaller range, for a step that is not negative.
pub search_delta_monotone :
    (initial maximum : ℤ) (step step_seconds enqueued now later : ℕ)
    → IsI32 initial
    → now ≤ later
    → (search_delta initial (pos step) step_seconds maximum enqueued now
        ≤ℤ search_delta initial (pos step) step_seconds maximum enqueued later)
      × (search_delta initial (pos step) step_seconds maximum enqueued later ≤ℤ maximum)
      × (min_ℤ initial maximum ≤ℤ search_delta initial (pos step) step_seconds maximum enqueued now)
unfolding search_delta min_ℤ
search_delta_monotone initial maximum step step_seconds enqueued now later k h =
    let early = min ((now - enqueued) / max step_seconds 1) 2147483647 in
    let late = min ((later - enqueued) / max step_seconds 1) 2147483647 in
    let steps =
      div_monotone (now - enqueued) (later - enqueued) (max step_seconds 1) (omega arith)
        (omega arith) in
    let added = saturating_mul_le step early late (ground arith) in
    ground (
      arith,
      saturating_add_le initial (saturating_mul_i32 (pos step) (pos early))
          (saturating_mul_i32 (pos step) (pos late)) added,
      saturating_add_grows initial (saturating_mul_i32 (pos step) (pos early)) k
          (saturating_mul_nonneg step early),
    )

div_euclid_contains :
    (a : ℤ) (n : ℕ)
    → 0 < n
    → (div_euclid a n *ℤ pos n ≤ℤ a) × (a <ℤ div_euclid a n *ℤ pos n +ℤ pos n)
unfolding div_euclid ◌*ℤ◌ ◌+ℤ◌
div_euclid_contains (pos a) n h = ground (arith, div-mul-le_self a n, lt-div-mul-add {a = a} h)
div_euclid_contains (negsuc a) n h =
    ground (arith, div-mul-le_self a n, lt-div-mul-add {a = a} h, expand)
  where
    expand : (1 + a / n) * n ≡ n + a / n * n
    expand = omega arith

-- A rating lies in its bucket: at or above the lower edge, and below the next.
pub bucket_for_contains :
    (region : Text) (mode : QueueMode) (rating : ℤ) (width : ℕ)
    → 0 < width
    → ((bucket_for region mode rating (pos width)).index *ℤ pos width ≤ℤ rating)
      × (rating <ℤ (bucket_for region mode rating (pos width)).index *ℤ pos width +ℤ pos width)
unfolding bucket_for
bucket_for_contains region mode rating width h = rw (wide) (div_euclid_contains rating width h)
  where
    wide : pos_part (max_ℤ (pos width) (pos 1)) ≡ width
    wide = unfold max_ℤ in ground arith
