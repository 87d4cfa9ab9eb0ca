-- ===== src/Wire/Tests.antt =====
-- Round trips of concrete values.
use ashiato_sync.Base.{◌≡◌, refl, Bool, true, List, [], ◌∷◌, ◌++◌, length, arith}
use ashiato_sync.Wire.{
  network_entity_id_encoded_bits, read_network_entity_id, write_network_entity_id, read_delta_frame,
  write_delta_frame,
}
use ashiato_sync.Wire.Queue.{queue_source, queue_sink, queue}
use ashiato_sync.Wire.Varints.{Reads}
use ashiato_sync.Wire.RoundTrip.{
  network_entity_id_encoded_bits-write, read_network_entity_id-write, read_delta_frame-write,
}

abbrev written_id : List Bool
written_id = write_network_entity_id queue_sink 3000 11 []

read_network_entity_id-write_example :
    Reads queue
      (read_network_entity_id queue_source 11 (written_id ++ (true ∷ [])))
      3000
      (true ∷ [])
unfolding queue
read_network_entity_id-write_example =
    read_network_entity_id-write queue 11 3000 (true ∷ []) [] (written_id ++ (true ∷ []))
      (omega arith) (omega arith) (omega arith) refl refl

abbrev written_frame : List Bool
written_frame = write_delta_frame queue_sink 5 100 90 []

read_delta_frame-write_example :
    Reads queue (read_delta_frame queue_source 5 100 (written_frame ++ (true ∷ []))) 90 (true ∷ [])
unfolding queue
read_delta_frame-write_example =
    read_delta_frame-write queue 5 100 90 (true ∷ []) [] (written_frame ++ (true ∷ []))
      (omega arith) (omega arith) (omega arith) (omega arith) refl refl

network_entity_id_encoded_bits-write_example :
    length (queue.unread (write_network_entity_id queue_sink 3000 11 []))
    ≡ network_entity_id_encoded_bits 3000 11
unfolding queue
network_entity_id_encoded_bits-write_example =
    network_entity_id_encoded_bits-write queue 11 3000 [] refl
