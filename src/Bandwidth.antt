-- ===== src/Bandwidth.antt =====
-- The bandwidth budget of one connection (include/ashiato/sync/bandwidth_budget.hpp): the window of
-- delivered and lost packets, the bytes in flight, the round-trip estimate and the adaptive rate.
-- The flushes of several participants are in the modules Share and Participants. A `double` is a type F
-- with the operations of `Doubles`.
pub mod Window
pub mod Flight
pub mod Share
pub mod Participants
mod Tests
use ashiato_sync.Base.{
  ℕ, ◌+◌, ◌-◌, ◌*◌, ◌^◌, ◌%◌, ◌/◌, Bool, true, false, ◌&&◌, ◌||◌, not, List, [], ◌∷◌, ◌++◌, ltb,
  leb, ◌==◌, if◌then◌else◌,
}

pub record Doubles (F : Type 0) : Type 0 where
  pub of_nat : ℕ → F
  pub truncate : F → ℕ
  pub add : F → F → F
  pub sub : F → F → F
  pub mul : F → F → F
  pub div : F → F → F
  pub less : F → F → Bool
  -- 0.875 and 0.125.
  pub keep : F
  pub blend : F

pub record BandwidthOptions (F : Type 0) : Type 0 where
  pub enabled : Bool
  pub min_bytes_per_second : ℕ
  pub initial_bytes_per_second : ℕ
  pub max_bytes_per_second : ℕ
  pub max_burst_bytes : ℕ
  pub sample_window_frames : ℕ
  pub loss_decrease_threshold : F
  pub rtt_inflation_decrease_threshold : F
  pub multiplicative_decrease : F
  pub additive_increase_bytes_per_second : F

pub record Sample : Type 0 where
  pub frame : ℕ
  pub bytes : ℕ
  pub lost : Bool

-- `samples_` with the three counters that `push_sample` keeps beside it.
pub record SampleWindow : Type 0 where
  pub samples : List Sample
  pub delivered_bytes : ℕ
  pub delivered_packets : ℕ
  pub lost_packets : ℕ

-- `counter += amount` and `counter -= amount` in `bits` bits.
abbrev pub increase : ℕ → ℕ → ℕ → ℕ
increase modulus counter amount = (counter + amount) % modulus

abbrev pub decrease : ℕ → ℕ → ℕ → ℕ
decrease modulus counter amount = (counter + (modulus - amount % modulus)) % modulus

-- The counters of a window, with one sample more.
pub enter_sample : Sample → SampleWindow → SampleWindow
enter_sample s w = record {
  samples = w.samples ++ (s ∷ []);
  delivered_bytes = increase (2 ^ 64) w.delivered_bytes s.bytes;
  delivered_packets =
      if s.lost then w.delivered_packets else increase (2 ^ 32) w.delivered_packets 1;
  lost_packets = if s.lost then increase (2 ^ 32) w.lost_packets 1 else w.lost_packets;
}

-- The loop that drops the samples before `first_retained`.
pub drop_samples :
    (first_retained : ℕ)
    → List Sample
    → (delivered_bytes delivered_packets lost_packets : ℕ) → SampleWindow
drop_samples first_retained [] delivered_bytes delivered_packets lost_packets = record {
  samples = [];
  delivered_bytes = delivered_bytes;
  delivered_packets = delivered_packets;
  lost_packets = lost_packets;
}
drop_samples first_retained (old ∷ samples) delivered_bytes delivered_packets lost_packets =
    let later =
      drop_samples first_retained samples (decrease (2 ^ 64) delivered_bytes old.bytes)
        (if old.lost then delivered_packets else decrease (2 ^ 32) delivered_packets 1)
        (if old.lost then decrease (2 ^ 32) lost_packets 1 else lost_packets) in
    if ltb old.frame first_retained then later else record {
      samples = old ∷ samples;
      delivered_bytes = delivered_bytes;
      delivered_packets = delivered_packets;
      lost_packets = lost_packets;
    }

pub first_retained_frame : (sample_window_frames frame : ℕ) → ℕ
first_retained_frame sample_window_frames frame =
    if ltb sample_window_frames frame then frame - sample_window_frames else 0

pub push_sample :
    (sample_window_frames frame bytes : ℕ) → (lost : Bool) → SampleWindow → SampleWindow
unfolding enter_sample drop_samples first_retained_frame
push_sample sample_window_frames frame bytes lost window =
    let entered = enter_sample (record { frame = frame; bytes = bytes; lost = lost }) window in
    drop_samples (first_retained_frame sample_window_frames frame) entered.samples
      entered.delivered_bytes entered.delivered_packets entered.lost_packets

pub record Budget (F : Type 0) : Type 0 where
  pub window : SampleWindow
  pub target_bytes_per_second : F
  pub available_bytes : F
  pub baseline_rtt_frames : F
  pub rtt_ewma_frames : F
  pub in_flight_bytes : ℕ
  pub has_baseline_rtt : Bool
  pub has_rtt : Bool
  pub send_limit_bytes : ℕ
  pub send_limit_active : Bool

-- What both ends of a packet's flight take off the bytes in flight.
pub land : (in_flight_bytes charged_bytes : ℕ) → ℕ
land in_flight_bytes charged_bytes =
    if leb charged_bytes in_flight_bytes then in_flight_bytes - charged_bytes else 0

module _ {F : Type 0} (d : Doubles F) where
  pub burst_limit : BandwidthOptions F → ℕ
  burst_limit options =
      if options.max_burst_bytes == 0
      then (if ltb (options.initial_bytes_per_second / 10) 1
          then 1
          else options.initial_bytes_per_second / 10)
      else options.max_burst_bytes

  -- `std::min` and `std::max`.
  abbrev pub min_double : F → F → F
  min_double a b = if d.less b a then b else a

  abbrev pub max_double : F → F → F
  max_double a b = if d.less a b then b else a

  abbrev pub clamp_double : F → F → F → F
  clamp_double value low high =
      if d.less value low then low else if d.less high value then high else value

  pub loss_rate : SampleWindow → F
  loss_rate w =
      let total = increase (2 ^ 32) w.delivered_packets w.lost_packets in
      if total == 0 then d.of_nat 0 else d.div (d.of_nat w.lost_packets) (d.of_nat total)

  pub adjust_target : BandwidthOptions F → F → Budget F → Budget F
  unfolding loss_rate
  adjust_target options fixed_dt_seconds b =
      let rtt_inflated =
        b.has_rtt
        && b.has_baseline_rtt
        && d.less (d.of_nat 0) b.baseline_rtt_frames
        && d.less (d.mul b.baseline_rtt_frames options.rtt_inflation_decrease_threshold)
            b.rtt_ewma_frames in
      if d.less options.loss_decrease_threshold (loss_rate b.window) || rtt_inflated
      then record b {
        target_bytes_per_second =
            max_double (d.of_nat options.min_bytes_per_second)
              (d.mul b.target_bytes_per_second options.multiplicative_decrease);
      }
      else if ltb 0 b.window.delivered_packets && b.in_flight_bytes == 0
      then record b {
        target_bytes_per_second = min_double (d.of_nat options.max_bytes_per_second) (
            d.add b.target_bytes_per_second
              (d.mul options.additive_increase_bytes_per_second fixed_dt_seconds));
      }
      else b

  pub begin_tick : BandwidthOptions F → F → Budget F → ℕ × Budget F
  unfolding burst_limit adjust_target
  begin_tick options fixed_dt_seconds b =
      let target =
        clamp_double b.target_bytes_per_second (d.of_nat options.min_bytes_per_second)
          (d.of_nat options.max_bytes_per_second) in
      let available =
        min_double (d.of_nat (burst_limit options))
          (d.add b.available_bytes (d.mul target fixed_dt_seconds)) in
      (
        d.truncate available,
        adjust_target options fixed_dt_seconds
            (record b { target_bytes_per_second = target; available_bytes = available }),
      )

  pub begin_fixed_tick : ℕ → Budget F → ℕ × Budget F
  begin_fixed_tick bytes b = (bytes, record b { available_bytes = d.of_nat bytes })

  pub begin_send_limit : ℕ → Budget F → Budget F
  begin_send_limit bytes b = record b { send_limit_bytes = bytes; send_limit_active = true }

  pub clear_send_limit : Budget F → Budget F
  clear_send_limit b = record b { send_limit_bytes = 0; send_limit_active = false }

  pub send_available_bytes : Budget F → ℕ
  send_available_bytes b =
      let available = d.truncate b.available_bytes in
      if b.send_limit_active
      then (if ltb b.send_limit_bytes available then b.send_limit_bytes else available)
      else available

  pub spend : ℕ → Budget F → Budget F
  spend bytes b =
      let value = d.of_nat bytes in
      record b {
        available_bytes =
            if not (d.less value b.available_bytes)
            then d.of_nat 0
            else d.sub b.available_bytes value;
        send_limit_bytes =
            if b.send_limit_active
            then (if leb b.send_limit_bytes bytes then 0 else b.send_limit_bytes - bytes)
            else b.send_limit_bytes;
      }

  pub packet_sent : ℕ → Budget F → Budget F
  packet_sent charged_bytes b = record b {
    in_flight_bytes = increase (2 ^ 64) b.in_flight_bytes charged_bytes;
  }

  pub packet_acked :
      BandwidthOptions F → (sent_frame ack_frame charged_bytes : ℕ) → Budget F → Budget F
  unfolding land push_sample
  packet_acked options sent_frame ack_frame charged_bytes b =
      let rtt_frames = if leb sent_frame ack_frame then ack_frame - sent_frame else 0 in
      let rtt = d.of_nat rtt_frames in
      record b {
        in_flight_bytes = land b.in_flight_bytes charged_bytes;
        window = push_sample options.sample_window_frames ack_frame charged_bytes false b.window;
        baseline_rtt_frames =
            if not b.has_baseline_rtt || d.less rtt b.baseline_rtt_frames
            then rtt
            else b.baseline_rtt_frames;
        has_baseline_rtt = true;
        rtt_ewma_frames =
            if b.has_rtt then d.add (d.mul b.rtt_ewma_frames d.keep) (d.mul rtt d.blend) else rtt;
        has_rtt = true;
      }

  pub packet_lost : BandwidthOptions F → (frame charged_bytes : ℕ) → Budget F → Budget F
  unfolding land push_sample
  packet_lost options frame charged_bytes b = record b {
    in_flight_bytes = land b.in_flight_bytes charged_bytes;
    window = push_sample options.sample_window_frames frame 0 true b.window;
  }
