-- ===== src/Client/InputBuffer/Writer/Tests.antt =====
-- Packets of inputs from a small buffer.
use ashiato_sync.Base.{◌≡◌, Bool, List, [], ◌∷◌, some, inr, arith}
use ashiato_sync.Client.InputBuffer.Samples.{two_inputs, queue_inputs}
use ashiato_sync.Client.InputBuffer.Writer.{
  Appended, append_newest_input_suffix, append_input_packet,
}
use ashiato_sync.Client.InputBuffer.Writer.Suffix.{Ends, append_newest_input_suffix-Ends}
use ashiato_sync.Client.InputBuffer.Writer.Packet.{Answer, append_input_packet-Answer}

-- In 11 bytes only the newer input fits.
append_newest_input_suffix-Ends_example :
    Ends queue_inputs 11 8 two_inputs
      (record { first = 5; last = 6 })
      (append_newest_input_suffix queue_inputs 11 8 two_inputs (record { first = 5; last = 6 }) [])
append_newest_input_suffix-Ends_example =
    append_newest_input_suffix-Ends queue_inputs 11 8 two_inputs (record { first = 5; last = 6 }) []
      (inr (omega arith, omega arith, omega arith, omega arith))

append_input_packet-Answer_example :
    (a : Appended (List Bool)) × (append_input_packet queue_inputs 20 8 (9 ∷ []) [] two_inputs
      ≡ some a)
    × Answer queue_inputs 20 8 (9 ∷ []) [] a
append_input_packet-Answer_example =
    append_input_packet-Answer queue_inputs 20 8 (9 ∷ []) [] two_inputs (omega arith)
