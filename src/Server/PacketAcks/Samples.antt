-- ===== src/Server/PacketAcks/Samples.antt =====
-- Trackers and budgets for the tests; a double is a number.
use ashiato_sync.Base.{ℕ, ◌+◌, ◌-◌, ◌*◌, ◌/◌, true, false, [], ◌∷◌, some, ltb, suc, ◌==◌}
use ashiato_sync.Bandwidth.{Doubles, BandwidthOptions, Budget}
use ashiato_sync.Server.PacketAcks.{PacketAckRecord, PendingPacketAck, RecordSink, AckTracker}

abbrev pub numbers : Doubles ℕ
numbers = record {
  of_nat = λ n. n;
  truncate = λ n. n;
  add = λ a b. a + b;
  sub = λ a b. a - b;
  mul = λ a b. a * b;
  div = λ a b. a / b;
  less = ltb;
  keep = 1;
  blend = 0;
}

abbrev pub adaptive : BandwidthOptions ℕ
adaptive = record {
  enabled = true;
  min_bytes_per_second = 10;
  initial_bytes_per_second = 100;
  max_bytes_per_second = 1000;
  max_burst_bytes = 0;
  sample_window_frames = 60;
  loss_decrease_threshold = 1;
  rtt_inflation_decrease_threshold = 2;
  multiplicative_decrease = 1;
  additive_increase_bytes_per_second = 5;
}

abbrev pub budget : ℕ → Budget ℕ
budget in_flight_bytes = record {
  window = record { samples = []; delivered_bytes = 0; delivered_packets = 0; lost_packets = 0 };
  target_bytes_per_second = 100;
  available_bytes = 500;
  baseline_rtt_frames = 0;
  rtt_ewma_frames = 0;
  in_flight_bytes = in_flight_bytes;
  has_baseline_rtt = false;
  has_rtt = false;
  send_limit_bytes = 0;
  send_limit_active = false;
}

abbrev pub update : PacketAckRecord
update = record { entity = 7; frame = 5; destroy = false }

abbrev pub packet : (packet_id charged_bytes : ℕ) → PendingPacketAck
packet packet_id charged_bytes = record {
  packet_id = packet_id;
  sent_frame = 5;
  charged_bytes = charged_bytes;
  records = update ∷ [];
}

-- Packets 1 and 2 are pending.
abbrev pub two_packets : AckTracker ℕ
two_packets = record {
  next_packet_id = 3;
  pending_packet_acks = packet 1 120 ∷ packet 2 80 ∷ [];
  bandwidth = some (budget 200);
}

-- A server that accepts each record, and counts them.
abbrev pub counter : RecordSink ℕ
counter = record {
  acknowledge_destroy = λ entity frame n. (true, suc n);
  acknowledge_entity = λ entity frame n. (true, suc n);
  record_pending = λ n r. r.frame == n;
}
