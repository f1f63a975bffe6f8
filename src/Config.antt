-- ===== src/Config.antt =====
-- The validation of core/src/config.rs.
use elo_ranking_pairing_syst.Base.{
  ℕ, ◌≤◌, ◌≡◌, Bool, false, not, ◌&&◌, ◌||◌, ◌==◌, Option, none, List, [], ◌∷◌, Result, ok, err,
  ◌>>◌, fail_if, is_some, any, leb, ltb, arith, if◌then◌else◌,
}
use elo_ranking_pairing_syst.Base.Int.{ℤ, pos, negsuc, ◌≤ℤ◌, ltb_ℤ, leb_ℤ, min_ℤ}
use elo_ranking_pairing_syst.Base.Word.{IsI32}
use elo_ranking_pairing_syst.Base.Text.{Text, text}
use elo_ranking_pairing_syst.Base.Map.{Map, values}
use elo_ranking_pairing_syst.Rating.{Float}
use elo_ranking_pairing_syst.Matching.Bucket.{search_delta}
use elo_ranking_pairing_syst.Matching.Bucket.Laws.{search_delta_monotone}

pub record ServerClassPolicy : Type 0 where
  pub capacity_limit : ℕ
  pub max_instances : ℕ
  pub mode_costs : Map Text ℕ

pub record ErpsConfig (fl : Float) : Type 0 where
  pub deterministic_seed : ℕ
  pub command_queue_capacity : ℕ
  pub event_queue_capacity : ℕ
  pub control_queue_capacity : ℕ
  pub batch_window_ms : ℕ
  pub initial_elo_delta : ℤ
  pub elo_step : ℤ
  pub elo_step_seconds : ℕ
  pub maximum_elo_delta : ℤ
  pub max_party_rating_spread : ℤ
  pub party_size_rating_adjustment : ℤ
  pub party_spread_rating_adjustment : ℤ
  pub elo_established_k : fl.F
  pub elo_provisional_k : fl.F
  pub elo_provisional_matches : ℕ
  pub elo_maximum_match_delta : ℤ
  pub ready_timeout_seconds : ℕ
  pub placement_timeout_seconds : ℕ
  pub disconnect_grace_seconds : ℕ
  pub reject_credit_penalty : ℕ
  pub timeout_credit_penalty : ℕ
  pub minimum_credit : ℕ
  pub credit_suspension_base_seconds : ℕ
  pub heartbeat_interval_seconds : ℕ
  pub unhealthy_after_missed : ℕ
  pub lost_after_seconds : ℕ
  pub allow_development_plaintext : Bool
  pub drain_mode : Bool
  pub graceful_shutdown_seconds : ℕ
  pub tls_certificate_path : Option Text
  pub tls_private_key_path : Option Text
  pub server_classes : Map Text ServerClassPolicy

pub data ConfigError : Type 0 where
  read_failed parse_failed : Text → ConfigError
  zero_value : Text → ConfigError
  elo_range credit_range : ConfigError
  instance_limit server_capacity : Text → ConfigError
  tls_pair : ConfigError

-- `for (name, value) in [...] { if value == 0 { return Err(...) } }`
unfoldable pub check_positive : List (Text × ℕ) → Result (Unit {0}) ConfigError
check_positive [] = ok tt
check_positive ((name, value) ∷ rest) =
    if value == 0 then err (zero_value name) else check_positive rest

unfoldable pub check_classes : Map Text ServerClassPolicy → Result (Unit {0}) ConfigError
check_classes [] = ok tt
check_classes ((class_name, policy) ∷ rest) =
    let bad_limit = not (leb 1 policy.max_instances && leb policy.max_instances 100) in
    let bad_capacity =
      (policy.capacity_limit == 0) || any (λ cost. cost == 0) (values policy.mode_costs) in
    if bad_limit
    then err (instance_limit class_name)
    else if bad_capacity
    then err (server_capacity class_name)
    else check_classes rest

search_range :
    (initial step maximum : ℤ) (step_seconds enqueued now later : ℕ)
    → IsI32 initial
    → pos 0 ≤ℤ step
    → initial ≤ℤ maximum
    → now ≤ later
    → (initial ≤ℤ search_delta initial step step_seconds maximum enqueued now)
      × (search_delta initial step step_seconds maximum enqueued now
          ≤ℤ search_delta initial step step_seconds maximum enqueued later)
      × (search_delta initial step step_seconds maximum enqueued later ≤ℤ maximum)
unfolding min_ℤ
search_range initial (pos step) maximum step_seconds enqueued now later w z h l =
    let r = search_delta_monotone initial maximum step step_seconds enqueued now later w l in
    (ground (arith, r.2, h), r.0, r.1)
search_range initial (negsuc step) maximum step_seconds enqueued now later w z h l =
    ground (arith, z)

module _ (fl : Float) where
  -- `ErpsConfig::default`
  abbrev pub default_config : ErpsConfig fl
  default_config = record {
    deterministic_seed = 0x45525053;
    command_queue_capacity = 65536;
    event_queue_capacity = 1024;
    control_queue_capacity = 1024;
    batch_window_ms = 3;
    initial_elo_delta = pos 100;
    elo_step = pos 50;
    elo_step_seconds = 5;
    maximum_elo_delta = pos 600;
    max_party_rating_spread = pos 600;
    party_size_rating_adjustment = pos 10;
    party_spread_rating_adjustment = pos 1;
    elo_established_k = fl.of_int (pos 20);
    elo_provisional_k = fl.of_int (pos 40);
    elo_provisional_matches = 10;
    elo_maximum_match_delta = pos 40;
    ready_timeout_seconds = 15;
    placement_timeout_seconds = 15;
    disconnect_grace_seconds = 30;
    reject_credit_penalty = 2;
    timeout_credit_penalty = 5;
    minimum_credit = 60;
    credit_suspension_base_seconds = 60;
    heartbeat_interval_seconds = 2;
    unhealthy_after_missed = 3;
    lost_after_seconds = 10;
    allow_development_plaintext = false;
    drain_mode = false;
    graceful_shutdown_seconds = 10;
    tls_certificate_path = none;
    tls_private_key_path = none;
    server_classes = [];
  }

  unfoldable pub bad_elo_range : ErpsConfig fl → Bool
  bad_elo_range c =
      ltb_ℤ c.initial_elo_delta (pos 0)
      || ltb_ℤ c.elo_step (pos 0)
      || ltb_ℤ c.maximum_elo_delta c.initial_elo_delta
      || ltb_ℤ c.max_party_rating_spread (pos 0)

  unfoldable pub bad_k : ErpsConfig fl → Bool
  bad_k c =
      not (fl.is_finite c.elo_established_k)
      || not (fl.is_finite c.elo_provisional_k)
      || fl.le_f c.elo_established_k fl.zero_f
      || fl.le_f c.elo_provisional_k fl.zero_f
      || leb_ℤ c.elo_maximum_match_delta (pos 0)

  unfoldable pub bad_credit : ErpsConfig fl → Bool
  bad_credit c =
      ltb 100 c.minimum_credit
      || ltb 100 c.reject_credit_penalty
      || ltb 100 c.timeout_credit_penalty

  abbrev pub lone_tls_path : ErpsConfig fl → Bool
  lone_tls_path c =
      if is_some c.tls_certificate_path
      then not (is_some c.tls_private_key_path)
      else is_some c.tls_private_key_path

  unfoldable pub validate : ErpsConfig fl → Result (Unit {0}) ConfigError
  validate c =
      check_positive (
        (text "command_queue_capacity", c.command_queue_capacity)
        ∷ (text "event_queue_capacity", c.event_queue_capacity)
        ∷ (text "control_queue_capacity", c.control_queue_capacity)
        ∷ [])
      >> check_positive (
          (text "batch_window_ms", c.batch_window_ms)
          ∷ (text "elo_step_seconds", c.elo_step_seconds)
          ∷ (text "ready_timeout_seconds", c.ready_timeout_seconds)
          ∷ (text "placement_timeout_seconds", c.placement_timeout_seconds)
          ∷ (text "disconnect_grace_seconds", c.disconnect_grace_seconds)
          ∷ (text "credit_suspension_base_seconds", c.credit_suspension_base_seconds)
          ∷ (text "heartbeat_interval_seconds", c.heartbeat_interval_seconds)
          ∷ (text "lost_after_seconds", c.lost_after_seconds)
          ∷ (text "graceful_shutdown_seconds", c.graceful_shutdown_seconds)
          ∷ [])
      >> fail_if (bad_elo_range c) elo_range
      >> fail_if (bad_k c) elo_range
      >> fail_if (bad_credit c) credit_range
      >> fail_if (lone_tls_path c) tls_pair
      >> check_classes c.server_classes

  -- The range of a search of this configuration.
  abbrev pub range : ErpsConfig fl → ℕ → ℕ → ℤ
  range c enqueued now =
      search_delta c.initial_elo_delta c.elo_step c.elo_step_seconds c.maximum_elo_delta enqueued
        now

  elo_range_ok : (c : ErpsConfig fl) → validate c ≡ ok tt → bad_elo_range c ≡ false
  unfolding validate
  elo_range_ok c v = ground arith

  -- With a valid configuration a search starts at the initial range, widens with the time of waiting,
  -- and never exceeds the maximum, for settings that a 32-bit word can hold.
  pub validate-search_delta :
      (c : ErpsConfig fl) (enqueued now later : ℕ)
      → validate c ≡ ok tt
      → IsI32 c.initial_elo_delta
      → now ≤ later
      → (c.initial_elo_delta ≤ℤ range c enqueued now)
        × (range c enqueued now ≤ℤ range c enqueued later)
        × (range c enqueued later ≤ℤ c.maximum_elo_delta)
  unfolding bad_elo_range
  validate-search_delta c enqueued now later v w h =
      let sound = elo_range_ok c v in
      search_range c.initial_elo_delta c.elo_step c.maximum_elo_delta c.elo_step_seconds enqueued
        now later w (ground (arith, sound)) (ground (arith, sound)) h
