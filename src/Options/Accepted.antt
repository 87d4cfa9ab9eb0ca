-- ===== src/Options/Accepted.antt =====
-- What the accepted options guarantee to the code that runs with them.
use ashiato_sync.Base.{
  ℕ, ◌-◌, ◌^◌, ◌≤◌, ◌<◌, ◌≡◌, ◌↔◌, ◌⊎◌, inl, inr, le-or-lt, ltb→lt, refl, Bool, true, false, ◌&&◌,
  not, ◌||◌, ◌==◌, ltb, none, some, arith,
}
use ashiato_sync.Capacity.{IsCapacity, is_power_of_two_iff}
use ashiato_sync.Options.{
  Check, Invalid, require, ◌>>◌, FloatTests, Descriptor, ClientTiming, ClientSession, ServerOptions,
  validate_protocol_descriptor, validate_client_timing_options, validate_client_options,
  validate_client_clock_config, validate_server_options, valid_network_entity_id_tier0_bits,
  require_valid_max_pending_packet_acks,
}

-- The rest of a passed validation passed.
rest : (c k : Check) → (c >> k) ≡ none → k ≡ none
unfolding ◌>>◌
rest none k h = h
rest (some e) k h = absurd (cc)

first : (c k : Check) → (c >> k) ≡ none → c ≡ none
unfolding ◌>>◌
first none k h = refl
first (some e) k h = absurd (cc)

-- The first test of a passed validation holds.
holds : (b : Bool) (message : Invalid) (k : Check) → (require b message >> k) ≡ none → b ≡ true
unfolding ◌>>◌ require
holds true message k h = refl
holds false message k h = absurd (cc)

held : (b : Bool) (message : Invalid) → require b message ≡ none → b ≡ true
unfolding require
held true message h = refl
held false message h = absurd (cc)

positive : (n : ℕ) → not (n == 0) ≡ true → 0 < n
positive n h = ground arith

ordered : (a b c : ℕ) → not (ltb b a || ltb c b) ≡ true → (a ≤ b) × (b ≤ c)
ordered a b c h = (ground arith, ground arith)

-- The descriptors that the validation accepts.
abbrev pub IsValidDescriptor : Descriptor → Type 0
IsValidDescriptor d =
    (1 ≤ d.max_pending_packet_acks_per_client)
    × (d.max_pending_packet_acks_per_client ≤ 2 ^ 32 - 1)
    × (1 ≤ d.network_entity_id_tier0_bits)
    × (d.network_entity_id_tier0_bits ≤ 22)
    × (d.baseline_frame_delta_bits ≡ 5)

-- The validation accepts exactly the descriptors with 1 to 2 ^ 32 - 1 pending acknowledgements, 1 to
-- 22 bits of tier 0, and the build's width of a baseline delta.
pub validate_protocol_descriptor_iff :
    (d : Descriptor) → (validate_protocol_descriptor d ≡ none) ↔ IsValidDescriptor d
unfolding validate_protocol_descriptor valid_network_entity_id_tier0_bits
    require_valid_max_pending_packet_acks ◌>>◌ require
validate_protocol_descriptor_iff d = (λ h. ground arith, λ v. ground arith)

-- The timings that the client can run with.
pub record ClientTimingUsable {F : Type 0} (o : ClientTiming F) : Type 0 where
  pub buffered_IsCapacity : IsCapacity o.buffered_frame_lag_capacity
  pub prediction_IsCapacity : IsCapacity o.prediction_frame_capacity
  pub input_IsCapacity : IsCapacity o.input_buffer_capacity_frames
  pub lag-lt : o.buffered_frame_lag < o.buffered_frame_lag_capacity
  pub lag_min-lt : o.auto_buffered_frame_lag_min < o.buffered_frame_lag_capacity
  pub lead-lt-input : o.prediction_lead_frames < o.input_buffer_capacity_frames
  pub lead-lt-prediction : o.prediction_lead_frames < o.prediction_frame_capacity
  pub lead_min-lt-input : o.auto_prediction_min_frames < o.input_buffer_capacity_frames
  pub lead_min-lt-prediction : o.auto_prediction_min_frames < o.prediction_frame_capacity
  pub gap_pos : 0 < o.auto_timing_fast_recovery_min_frame_gap

-- The capacities are `std::size_t`s.
abbrev pub Widths : {F : Type 0} → ClientTiming F → Type 0
Widths o =
    (o.buffered_frame_lag_capacity < 2 ^ 64)
    × (o.prediction_frame_capacity < 2 ^ 64)
    × (o.input_buffer_capacity_frames < 2 ^ 64)

module _ {F : Type 0} (t : FloatTests F) where
  -- With capacities of 64 bits, a client timing that passes the validation is usable: its three
  -- ring capacities are powers of two, the buffered lag and its minimum are below the buffered
  -- capacity, the prediction lead and its minimum are below the input and the prediction capacity,
  -- and the recovery gap is positive.
  pub validate_client_timing_options-Usable :
      (o : ClientTiming F)
      → Widths o
      → validate_client_timing_options t o ≡ none
      → ClientTimingUsable o
  unfolding validate_client_timing_options
  validate_client_timing_options-Usable o (wb, wp, wi) h0 =
      let h1 = rest _ _ h0 in
      let h2 = rest _ _ h1 in
      let h3 = rest _ _ h2 in
      let h4 = rest _ _ h3 in
      let h5 = rest _ _ h4 in
      let h6 = rest _ _ h5 in
      let h11 = rest _ _ (rest _ _ (rest _ _ (rest _ _ (rest _ _ h6)))) in
      let h12 = rest _ _ h11 in
      let h13 = rest _ _ h12 in
      let h14 = rest _ _ h13 in
      let h19 = rest _ _ (rest _ _ (rest _ _ (rest _ _ (rest _ _ h14)))) in
      let b = holds _ _ _ h1 in
      let p = holds _ _ _ h2 in
      let i = holds _ _ _ h3 in
      let l4 = holds _ _ _ h4 in
      let l5 = holds _ _ _ h5 in
      let l11 = holds _ _ _ h11 in
      let l12 = holds _ _ _ h12 in
      let l13 = holds _ _ _ h13 in
      let l14 = holds _ _ _ h14 in
      let g = held _ _ h19 in
      record {
        buffered_IsCapacity = (is_power_of_two_iff o.buffered_frame_lag_capacity wb).0 b;
        prediction_IsCapacity = (is_power_of_two_iff o.prediction_frame_capacity wp).0 p;
        input_IsCapacity = (is_power_of_two_iff o.input_buffer_capacity_frames wi).0 i;
        lag-lt = ltb→lt _ _ l4;
        lag_min-lt = ltb→lt _ _ l5;
        lead-lt-input = ltb→lt _ _ l11;
        lead-lt-prediction = ltb→lt _ _ l13;
        lead_min-lt-input = ltb→lt _ _ l12;
        lead_min-lt-prediction = ltb→lt _ _ l14;
        gap_pos = positive _ g;
      }

  -- With capacities of 64 bits, a client whose options pass the validation has a non-zero MTU, a
  -- valid descriptor, a usable timing, a client id that is the invalid one or below it, and at
  -- least one stable sample.
  pub validate_client_options-Usable :
      (s : ClientSession F) (o : ClientTiming F)
      → Widths o
      → validate_client_options t s o ≡ none
      → (0 < s.network_mtu_bytes)
        × IsValidDescriptor s.protocol
        × ClientTimingUsable o
        × ((s.local_client ≡ 2 ^ 8 - 1) ⊎ (s.local_client < 2 ^ 8 - 1))
        × (0 < s.adaptive_ping_stable_samples)
  unfolding validate_client_options
  validate_client_options-Usable s o w h0 =
      let h1 = rest _ _ h0 in
      let h2 = rest _ _ h1 in
      let h4 = rest _ _ (rest _ _ h2) in
      let h7 = rest _ _ (rest _ _ (rest _ _ h4)) in
      (
        positive _ (holds _ _ _ h0),
        (validate_protocol_descriptor_iff s.protocol).0 (first _ _ h1),
        validate_client_timing_options-Usable o w (first _ _ h2),
        id_cases s.local_client (holds _ _ _ h4),
        positive _ (holds _ _ _ h7),
      )
    where
      id_cases :
          (c : ℕ)
          → not (not (c == (2 ^ 8 - 1)) && ltb (2 ^ 8 - 1 - 1) c) ≡ true
          → (c ≡ 2 ^ 8 - 1) ⊎ (c < 2 ^ 8 - 1)
      id_cases c h = elim (le-or-lt (2 ^ 8 - 1) c) [ inl le ↦ inl (ground arith) | inr lt ↦ inr lt ]

  -- With capacities of 64 bits, a clock configuration that passes the validation is usable, with
  -- its input capacity as the capacity of the predictions.
  pub validate_client_clock_config-Usable :
      (o : ClientTiming F)
      → o.buffered_frame_lag_capacity < 2 ^ 64
      → o.input_buffer_capacity_frames < 2 ^ 64
      → validate_client_clock_config t o ≡ none
      → ClientTimingUsable (record o { prediction_frame_capacity = o.input_buffer_capacity_frames })
  unfolding validate_client_clock_config
  validate_client_clock_config-Usable o wb wi h =
      validate_client_timing_options-Usable
        (record o { prediction_frame_capacity = o.input_buffer_capacity_frames }) (wb, wi, wi) h

  -- With an input capacity of 64 bits, options that a server accepts have a positive budget, MTU,
  -- minimum rate, sample window and number of refusals, ordered byte rates, a valid descriptor, and
  -- a power of two as the capacity of the input buffers.
  pub validate_server_options-Usable :
      (o : ServerOptions F)
      → o.input_buffer_capacity_frames < 2 ^ 64
      → validate_server_options t o ≡ none
      → (0 < o.bandwidth_limit_bytes_per_tick)
        × (0 < o.mtu_bytes_per_packet)
        × (0 < o.min_bytes_per_second)
        × (o.min_bytes_per_second ≤ o.initial_bytes_per_second)
        × (o.initial_bytes_per_second ≤ o.max_bytes_per_second)
        × (0 < o.sample_window_frames)
        × IsValidDescriptor o.protocol
        × IsCapacity o.input_buffer_capacity_frames
        × (0 < o.max_budget_refusals_per_client_tick)
  unfolding validate_server_options
  validate_server_options-Usable o wi h0 =
      let h1 = rest _ _ h0 in
      let h2 = rest _ _ h1 in
      let h5 = rest _ _ (rest _ _ (rest _ _ h2)) in
      let h6 = rest _ _ h5 in
      let h11 = rest _ _ (rest _ _ (rest _ _ (rest _ _ (rest _ _ h6)))) in
      let h15 = rest _ _ (rest _ _ (rest _ _ (rest _ _ h11))) in
      let rates = ordered _ _ _ (holds _ _ _ h5) in
      (
        positive _ (holds _ _ _ h0),
        positive _ (holds _ _ _ h1),
        positive _ (holds _ _ _ h2),
        rates.0,
        rates.1,
        positive _ (holds _ _ _ h6),
        (validate_protocol_descriptor_iff o.protocol).0 (first _ _ h11),
        (is_power_of_two_iff o.input_buffer_capacity_frames wi).0 (holds _ _ _ h15),
        positive _ (held _ _ (rest _ _ h15)),
      )
