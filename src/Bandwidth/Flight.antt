-- ===== src/Bandwidth/Flight.antt =====
-- What a packet's sending, its acknowledgement and its loss do to the bytes in flight.
use ashiato_sync.Base.{ℕ, refl, ◌+◌, ◌≡◌, ◌<◌, ◌^◌, arith}
use ashiato_sync.Bandwidth.{
  Doubles, BandwidthOptions, Budget, packet_sent, spend, packet_acked, packet_lost, land,
}

land-own : (in_flight c rest : ℕ) → in_flight ≡ c + rest → land in_flight c ≡ rest
unfolding land
land-own in_flight c rest e = ground arith

module _ {F : Type 0} (d : Doubles F) where
  pub packet_sent-in_flight :
      (c rest : ℕ) (b : Budget F)
      → b.in_flight_bytes ≡ rest
      → rest + c < 2 ^ 64
      → (packet_sent d c b).in_flight_bytes ≡ rest + c
  unfolding packet_sent
  packet_sent-in_flight c rest b e lt = omega arith

  pub packet_acked-in_flight :
      (options : BandwidthOptions F) (sent_frame ack_frame c rest : ℕ) (b : Budget F)
      → b.in_flight_bytes ≡ c + rest
      → (packet_acked d options sent_frame ack_frame c b).in_flight_bytes ≡ rest
  unfolding packet_acked
  packet_acked-in_flight options sent_frame ack_frame c rest b e =
      land-own b.in_flight_bytes c rest e

  pub packet_lost-in_flight :
      (options : BandwidthOptions F) (frame c rest : ℕ) (b : Budget F)
      → b.in_flight_bytes ≡ c + rest
      → (packet_lost d options frame c b).in_flight_bytes ≡ rest
  unfolding packet_lost
  packet_lost-in_flight options frame c rest b e = land-own b.in_flight_bytes c rest e

pub spend-in_flight :
    {F : Type 0} (d : Doubles F) (bytes : ℕ) (b : Budget F)
    → (spend d bytes b).in_flight_bytes ≡ b.in_flight_bytes
unfolding spend
spend-in_flight d bytes b = refl
