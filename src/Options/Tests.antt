-- ===== src/Options/Tests.antt =====
-- The validators on the default options; a float is a number of thousandths.
use ashiato_sync.Base.{ℕ, ◌<◌, ◌≤◌, ◌≡◌, ◌↔◌, refl, false, none, ltb, leb, arith}
use ashiato_sync.Capacity.{is_power_of_two, IsCapacity}
use ashiato_sync.Options.{
  ◌>>◌, require, FloatTests, Descriptor, ClientTiming, ClientSession, ServerOptions,
  validate_protocol_descriptor, validate_client_timing_options, validate_server_options,
  valid_network_entity_id_tier0_bits, require_valid_max_pending_packet_acks,
}
use ashiato_sync.Options.Accepted.{
  IsValidDescriptor, ClientTimingUsable, validate_protocol_descriptor_iff,
  validate_client_timing_options-Usable, validate_server_options-Usable,
}

abbrev thousandths : FloatTests ℕ
thousandths = record {
  is_finite = λ value. ltb value 1000000000;
  le_zero = λ value. leb value 0;
  lt_zero = λ value. false;
  gt_one = λ value. ltb 1000 value;
  lt_one = λ value. ltb value 1000;
}

abbrev descriptor : Descriptor
descriptor = record {
  max_pending_packet_acks_per_client = 255;
  network_entity_id_tier0_bits = 11;
  baseline_frame_delta_bits = 5;
}

abbrev timing : ClientTiming ℕ
timing = record {
  fixed_dt_seconds = 16;
  buffered_frame_lag_capacity = 64;
  prediction_frame_capacity = 64;
  buffered_frame_lag = 2;
  auto_buffered_frame_lag_min = 2;
  auto_buffered_frame_lag_jitter_multiplier = 2000;
  auto_buffered_frame_lag_smoothing = 100;
  auto_buffered_time_dilation_min = 900;
  auto_buffered_time_dilation_max = 1100;
  auto_buffered_time_dilation_gain = 50;
  input_buffer_capacity_frames = 64;
  prediction_lead_frames = 2;
  auto_prediction_min_frames = 2;
  auto_prediction_jitter_multiplier = 2000;
  auto_predicted_time_dilation_min = 900;
  auto_predicted_time_dilation_max = 1100;
  auto_predicted_time_dilation_gain = 50;
  auto_timing_fast_recovery_min_frame_gap = 8;
}

abbrev session : ClientSession ℕ
session = record {
  network_mtu_bytes = 1200;
  protocol = descriptor;
  connect_resend_interval_seconds = 250;
  local_client = 255;
  ping_interval_seconds = 1000;
  adaptive_ping_interval_seconds = 100;
  adaptive_ping_stable_samples = 4;
  adaptive_ping_stable_threshold_frames = 500;
  adaptive_ping_jump_threshold_frames = 3000;
}

abbrev server : ServerOptions ℕ
server = record {
  bandwidth_limit_bytes_per_tick = 4096;
  mtu_bytes_per_packet = 1200;
  min_bytes_per_second = 8192;
  initial_bytes_per_second = 65536;
  max_bytes_per_second = 262144;
  sample_window_frames = 60;
  loss_decrease_threshold = 50;
  rtt_inflation_decrease_threshold = 1500;
  multiplicative_decrease_factor = 850;
  additive_increase_bytes_per_second = 4096;
  protocol = descriptor;
  fixed_dt_seconds = 16;
  connect_resend_interval_seconds = 250;
  idle_client_timeout_seconds = 10000;
  input_buffer_capacity_frames = 64;
  max_budget_refusals_per_client_tick = 8;
}

validate_protocol_descriptor_iff_example :
    (validate_protocol_descriptor descriptor ≡ none) ↔ IsValidDescriptor descriptor
validate_protocol_descriptor_iff_example = validate_protocol_descriptor_iff descriptor

validate_client_timing_options-Usable_example : ClientTimingUsable timing
unfolding validate_client_timing_options ◌>>◌ require is_power_of_two
validate_client_timing_options-Usable_example =
    validate_client_timing_options-Usable thousandths timing (omega arith, omega arith, omega arith)
      refl

validate_server_options-Usable_example :
    (0 < 4096)
    × (0 < 1200)
    × (0 < 8192)
    × (8192 ≤ 65536)
    × (65536 ≤ 262144)
    × (0 < 60)
    × IsValidDescriptor descriptor
    × IsCapacity 64
    × (0 < 8)
unfolding validate_server_options validate_protocol_descriptor valid_network_entity_id_tier0_bits
    require_valid_max_pending_packet_acks ◌>>◌ require is_power_of_two
validate_server_options-Usable_example =
    validate_server_options-Usable thousandths server (omega arith) refl
