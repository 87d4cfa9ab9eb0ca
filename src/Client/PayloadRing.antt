-- ===== src/Client/PayloadRing.antt =====
-- The ring of frames with their payloads side by side in one vector
-- (src/client/store/frame_payload_ring.hpp). A pointer into the payloads is the offset that it
-- points to.
pub mod Slots
mod Tests
use ashiato_sync.Base.{
  ℕ, zero, suc, ◌+◌, ◌*◌, Bool, ◌||◌, not, List, [], Option, none, some, leb, ◌==◌, if◌then◌else◌,
  length, replicate, get_or, slice, splice,
}
use ashiato_sync.Capacity.{slot_for}

pub record FramePayloadRing (Metadata : Type 0) : Type 0 where
  pub metadata : List Metadata
  pub payloads : List ℕ
  pub payload_stride : ℕ

module _ {Metadata : Type 0} where
  abbrev pub no_frames : FramePayloadRing Metadata
  no_frames = record { metadata = []; payloads = []; payload_stride = 0 }

  -- `empty`.
  unfoldable pub is_empty : FramePayloadRing Metadata → Bool
  is_empty ring = length ring.metadata == 0

  -- `blank` is the default metadata.
  unfoldable pub ensure :
      (blank : Metadata) → (capacity : ℕ) → FramePayloadRing Metadata → FramePayloadRing Metadata
  unfolding is_empty
  ensure blank capacity ring =
      if is_empty ring then record ring { metadata = replicate capacity blank } else ring

  -- `reset`.
  unfoldable pub reset_ring : FramePayloadRing Metadata → FramePayloadRing Metadata
  reset_ring ring = no_frames

  unfoldable pub ring_slot_for : FramePayloadRing Metadata → ℕ → ℕ
  ring_slot_for ring frame = slot_for (length ring.metadata) frame

-- The payloads of the first `slots` slots, copied from a vector of another stride.
pub copy_slots : (slots previous_stride stride : ℕ) → (previous payloads : List ℕ) → List ℕ
copy_slots zero previous_stride stride previous payloads = payloads
copy_slots (suc slot) previous_stride stride previous payloads =
    splice (slot * stride) (slice (slot * previous_stride) previous_stride previous)
      (copy_slots slot previous_stride stride previous payloads)

module _ {Metadata : Type 0} where
  unfoldable pub ensure_payload_stride :
      (stride : ℕ) → FramePayloadRing Metadata → FramePayloadRing Metadata
  unfolding copy_slots
  ensure_payload_stride stride ring =
      let size = length ring.metadata in
      let blanks = replicate (size * stride) 0 in
      if leb stride ring.payload_stride
      then (if not (length ring.payloads == size * ring.payload_stride)
          then record ring { payloads = replicate (size * ring.payload_stride) 0 }
          else ring)
      else if ring.payload_stride == 0
      then record ring { payloads = blanks; payload_stride = stride }
      else record ring {
        payloads = copy_slots size ring.payload_stride stride ring.payloads blanks;
        payload_stride = stride;
      }

  unfoldable pub clear_payloads : FramePayloadRing Metadata → FramePayloadRing Metadata
  clear_payloads ring =
      if not (length ring.payloads == 0)
      then record ring { payloads = replicate (length ring.payloads) 0 }
      else ring

  -- The payload of a slot, none for a null pointer.
  unfoldable pub payload : FramePayloadRing Metadata → ℕ → Option ℕ
  payload ring slot =
      if ring.payload_stride == 0 || length ring.payloads == 0
      then none
      else some (slot * ring.payload_stride)
