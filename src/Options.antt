-- ===== src/Options.antt =====
-- The validation of the options (src/detail/options_validation.cpp). A validator returns the first
-- message it throws, or none. `float` and `double` values enter through a `FloatTests` record with
-- the comparisons that the validators make.
pub mod Accepted
mod Tests
use ashiato_sync.Base.{
  ℕ, ◌+◌, ◌-◌, ◌^◌, Bool, true, false, ◌&&◌, ◌||◌, not, ◌==◌, ltb, leb, if◌then◌else◌, Option, none,
  some,
}
use ashiato_sync.Capacity.{is_power_of_two}

-- The messages of the `std::invalid_argument`s.
pub data Invalid : Type 0 where
  mtu_bytes fixed_dt buffered_capacity prediction_capacity input_capacity : Invalid
  buffered_lag auto_buffered_lag_min buffered_jitter buffered_smoothing : Invalid
  buffered_dilation_min buffered_dilation_max buffered_dilation_gain : Invalid
  lead_exceeds_input auto_min_exceeds_input lead_exceeds_prediction : Invalid
  auto_min_exceeds_prediction prediction_jitter predicted_dilation_min : Invalid
  predicted_dilation_max predicted_dilation_gain recovery_gap : Invalid
  max_pending_acks tier0_bits delta_bits : Invalid
  connect_resend client_id ping_interval adaptive_ping_interval stable_samples : Invalid
  stable_threshold jump_threshold : Invalid
  bandwidth_limit min_rate initial_rate max_rate rate_order sample_window : Invalid
  loss_threshold rtt_threshold multiplicative_decrease additive_increase : Invalid
  idle_timeout budget_refusals : Invalid

-- A throwing check: `none` is the normal return.
abbrev pub Check : Type 0
Check = Option Invalid

infixl 5 ◌>>◌
pub ◌>>◌ : Check → Check → Check
none >> k = k
some e >> k = some e

-- `if (!test) throw`.
pub require : Bool → Invalid → Check
require true message = none
require false message = some message

-- What the validators ask of a `float` or `double`: `value > 0`, `value >= 0`, `value <= 1`,
-- `value >= 1`, and `std::isfinite`. A comparison with a not-a-number is false.
pub record FloatTests (F : Type 0) : Type 0 where
  pub is_finite : F → Bool
  pub le_zero : F → Bool
  pub lt_zero : F → Bool
  pub gt_one : F → Bool
  pub lt_one : F → Bool

module _ {F : Type 0} (t : FloatTests F) where
  abbrev pub finite_positive : F → Bool
  finite_positive value = not (t.le_zero value || not (t.is_finite value))

  abbrev pub finite_non_negative : F → Bool
  finite_non_negative value = not (t.lt_zero value || not (t.is_finite value))

  abbrev pub finite_unit_min : F → Bool
  finite_unit_min value = not (t.le_zero value || t.gt_one value || not (t.is_finite value))

  abbrev pub finite_at_least_one : F → Bool
  finite_at_least_one value = not (t.lt_one value || not (t.is_finite value))

pub record Descriptor : Type 0 where
  pub max_pending_packet_acks_per_client : ℕ
  pub network_entity_id_tier0_bits : ℕ
  pub baseline_frame_delta_bits : ℕ

abbrev pub network_entity_id_tier1_bits : ℕ
network_entity_id_tier1_bits = 23

-- `ASHIATO_SYNC_BASELINE_FRAME_DELTA_BITS` of the default build.
abbrev pub default_baseline_frame_delta_bits : ℕ
default_baseline_frame_delta_bits = 5

pub valid_network_entity_id_tier0_bits : ℕ → Bool
valid_network_entity_id_tier0_bits bits = ltb 0 bits && ltb bits network_entity_id_tier1_bits

pub require_valid_max_pending_packet_acks : ℕ → Check
require_valid_max_pending_packet_acks value =
    require (not (value == 0 || ltb (2 ^ 32 - 1) value)) max_pending_acks

pub validate_protocol_descriptor : Descriptor → Check
unfolding valid_network_entity_id_tier0_bits require_valid_max_pending_packet_acks
validate_protocol_descriptor d = do
  require_valid_max_pending_packet_acks d.max_pending_packet_acks_per_client
  require (valid_network_entity_id_tier0_bits d.network_entity_id_tier0_bits) tier0_bits
  require (d.baseline_frame_delta_bits == default_baseline_frame_delta_bits) delta_bits

-- The arguments of `validate_client_timing_options`.
pub record ClientTiming (F : Type 0) : Type 0 where
  pub fixed_dt_seconds : F
  pub buffered_frame_lag_capacity : ℕ
  pub prediction_frame_capacity : ℕ
  pub buffered_frame_lag : ℕ
  pub auto_buffered_frame_lag_min : ℕ
  pub auto_buffered_frame_lag_jitter_multiplier : F
  pub auto_buffered_frame_lag_smoothing : F
  pub auto_buffered_time_dilation_min : F
  pub auto_buffered_time_dilation_max : F
  pub auto_buffered_time_dilation_gain : F
  pub input_buffer_capacity_frames : ℕ
  pub prediction_lead_frames : ℕ
  pub auto_prediction_min_frames : ℕ
  pub auto_prediction_jitter_multiplier : F
  pub auto_predicted_time_dilation_min : F
  pub auto_predicted_time_dilation_max : F
  pub auto_predicted_time_dilation_gain : F
  pub auto_timing_fast_recovery_min_frame_gap : ℕ

-- The parts of `ReplicationClientOptions` that are validated beside the timing.
pub record ClientSession (F : Type 0) : Type 0 where
  pub network_mtu_bytes : ℕ
  pub protocol : Descriptor
  pub connect_resend_interval_seconds : F
  pub local_client : ℕ
  pub ping_interval_seconds : F
  pub adaptive_ping_interval_seconds : F
  pub adaptive_ping_stable_samples : ℕ
  pub adaptive_ping_stable_threshold_frames : F
  pub adaptive_ping_jump_threshold_frames : F

-- `ClientId` has eight bits, and all ones is the invalid id.
abbrev pub invalid_client_id : ℕ
invalid_client_id = 2 ^ 8 - 1

abbrev pub max_client_entity_network_id_client : ℕ
max_client_entity_network_id_client = invalid_client_id - 1

pub record ServerOptions (F : Type 0) : Type 0 where
  pub bandwidth_limit_bytes_per_tick : ℕ
  pub mtu_bytes_per_packet : ℕ
  pub min_bytes_per_second : ℕ
  pub initial_bytes_per_second : ℕ
  pub max_bytes_per_second : ℕ
  pub sample_window_frames : ℕ
  pub loss_decrease_threshold : F
  pub rtt_inflation_decrease_threshold : F
  pub multiplicative_decrease_factor : F
  pub additive_increase_bytes_per_second : F
  pub protocol : Descriptor
  pub fixed_dt_seconds : F
  pub connect_resend_interval_seconds : F
  pub idle_client_timeout_seconds : F
  pub input_buffer_capacity_frames : ℕ
  pub max_budget_refusals_per_client_tick : ℕ

module _ {F : Type 0} (t : FloatTests F) where
  pub validate_client_timing_options : ClientTiming F → Check
  validate_client_timing_options o = do
    require (finite_positive t o.fixed_dt_seconds) fixed_dt
    require (is_power_of_two o.buffered_frame_lag_capacity) buffered_capacity
    require (is_power_of_two o.prediction_frame_capacity) prediction_capacity
    require (is_power_of_two o.input_buffer_capacity_frames) input_capacity
    require (ltb o.buffered_frame_lag o.buffered_frame_lag_capacity) buffered_lag
    require (ltb o.auto_buffered_frame_lag_min o.buffered_frame_lag_capacity) auto_buffered_lag_min
    require (finite_non_negative t o.auto_buffered_frame_lag_jitter_multiplier) buffered_jitter
    require (finite_unit_min t o.auto_buffered_frame_lag_smoothing) buffered_smoothing
    require (finite_unit_min t o.auto_buffered_time_dilation_min) buffered_dilation_min
    require (finite_at_least_one t o.auto_buffered_time_dilation_max) buffered_dilation_max
    require (finite_non_negative t o.auto_buffered_time_dilation_gain) buffered_dilation_gain
    require (ltb o.prediction_lead_frames o.input_buffer_capacity_frames) lead_exceeds_input
    require (ltb o.auto_prediction_min_frames o.input_buffer_capacity_frames) auto_min_exceeds_input
    require (ltb o.prediction_lead_frames o.prediction_frame_capacity) lead_exceeds_prediction
    require (ltb o.auto_prediction_min_frames o.prediction_frame_capacity)
        auto_min_exceeds_prediction
    require (finite_non_negative t o.auto_prediction_jitter_multiplier) prediction_jitter
    require (finite_unit_min t o.auto_predicted_time_dilation_min) predicted_dilation_min
    require (finite_at_least_one t o.auto_predicted_time_dilation_max) predicted_dilation_max
    require (finite_non_negative t o.auto_predicted_time_dilation_gain) predicted_dilation_gain
    require (not (o.auto_timing_fast_recovery_min_frame_gap == 0)) recovery_gap

  pub validate_client_options : ClientSession F → ClientTiming F → Check
  validate_client_options s o = do
    require (not (s.network_mtu_bytes == 0)) mtu_bytes
    validate_protocol_descriptor s.protocol
    validate_client_timing_options o
    require (finite_positive t s.connect_resend_interval_seconds) connect_resend
    require
        (not (
          not (s.local_client == invalid_client_id)
          && ltb max_client_entity_network_id_client s.local_client))
        client_id
    require (finite_positive t s.ping_interval_seconds) ping_interval
    require (finite_positive t s.adaptive_ping_interval_seconds) adaptive_ping_interval
    require (not (s.adaptive_ping_stable_samples == 0)) stable_samples
    require (finite_non_negative t s.adaptive_ping_stable_threshold_frames) stable_threshold
    require (finite_non_negative t s.adaptive_ping_jump_threshold_frames) jump_threshold

  -- The clock's prediction capacity is its input capacity.
  pub validate_client_clock_config : ClientTiming F → Check
  unfolding validate_client_timing_options
  validate_client_clock_config config =
      validate_client_timing_options
        (record config { prediction_frame_capacity = config.input_buffer_capacity_frames })

  pub validate_server_options : ServerOptions F → Check
  validate_server_options o = do
    require (not (o.bandwidth_limit_bytes_per_tick == 0)) bandwidth_limit
    require (not (o.mtu_bytes_per_packet == 0)) mtu_bytes
    require (not (o.min_bytes_per_second == 0)) min_rate
    require (not (o.initial_bytes_per_second == 0)) initial_rate
    require (not (o.max_bytes_per_second == 0)) max_rate
    require
        (not (
          ltb o.initial_bytes_per_second o.min_bytes_per_second
          || ltb o.max_bytes_per_second o.initial_bytes_per_second))
        rate_order
    require (not (o.sample_window_frames == 0)) sample_window
    require (finite_non_negative t o.loss_decrease_threshold) loss_threshold
    require (finite_at_least_one t o.rtt_inflation_decrease_threshold) rtt_threshold
    require (finite_unit_min t o.multiplicative_decrease_factor) multiplicative_decrease
    require (finite_positive t o.additive_increase_bytes_per_second) additive_increase
    validate_protocol_descriptor o.protocol
    require (finite_positive t o.fixed_dt_seconds) fixed_dt
    require (finite_positive t o.connect_resend_interval_seconds) connect_resend
    require (finite_non_negative t o.idle_client_timeout_seconds) idle_timeout
    require (is_power_of_two o.input_buffer_capacity_frames) input_capacity
    require (not (o.max_budget_refusals_per_client_tick == 0)) budget_refusals
