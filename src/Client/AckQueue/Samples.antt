-- ===== src/Client/AckQueue/Samples.antt =====
-- A packet builder for the tests: the bits themselves.
use ashiato_sync.Base.{
  refl, ap, ap₂, sym, ◌∙◌, Bool, List, [], ◌++◌, length, take, drop, take-length-append,
  drop-length-append,
}
use ashiato_sync.Wire.Queue.{bits_of, queue, length-bits_of}
use ashiato_sync.Client.AckQueue.{PacketBuilder}
use ashiato_sync.Client.AckQueue.Packets.{IsPacketBuilder}

abbrev pub queue_builder : PacketBuilder (List Bool)
queue_builder = record {
  cleared = [];
  bit_size = λ b. length b;
  overwrite_unsigned_bits =
      λ offset value bits b. take offset b ++ (bits_of bits value ++ drop bits (drop offset b));
}

pub queue_laws : IsPacketBuilder queue queue_builder
unfolding queue
queue_laws = record {
  cleared_unread = refl;
  bit_size_unread = λ b. refl;
  overwrite_unread = λ front rest before value bits b e.
      ap
        (λ (r : List Bool).
          take (length front) r ++ (bits_of bits value ++ drop bits (drop (length front) r)))
        e
      ∙ ap₂ (λ (xs ys : List Bool). xs ++ (bits_of bits value ++ ys))
          (take-length-append front (bits_of bits before ++ rest))
          (ap (λ (r : List Bool). drop bits r)
              (drop-length-append front (bits_of bits before ++ rest))
            ∙ ap (λ n. drop n (bits_of bits before ++ rest)) (sym (length-bits_of bits before))
            ∙ drop-length-append (bits_of bits before) rest);
}
