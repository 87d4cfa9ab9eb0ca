-- ===== src/Server/Frames.antt =====
-- The quantized frames that the server shares between its clients, with their reference counts
-- (src/server/quantized_frame.cpp and `find_or_create_quantized_frame` in src/server.cpp).
pub mod Counts
pub mod Handles
pub mod Leaks
pub mod Create
pub mod Tests
use ashiato_sync.Base.{
  ℕ, ◌+◌, ◌-◌, ◌%◌, ◌^◌, Bool, true, false, ◌&&◌, ◌||◌, not, List, [], ◌∷◌, ◌++◌, Option, none,
  some, ◌==◌, ltb, leb, if◌then◌else◌, length, get_elem?, set, remove_if,
}

pub record QuantizedFrameData : Type 0 where
  pub tag_mask : ℕ
  pub present_mask : ℕ
  pub bytes : List ℕ

pub record QuantizedFrame : Type 0 where
  pub slot : ℕ
  pub frame : ℕ
  pub archetype : ℕ
  pub ref_count : ℕ
  pub active : Bool
  pub contents : QuantizedFrameData
  pub dirty_generations : List ℕ

pub record ReplicatedSlot : Type 0 where
  pub entity : ℕ
  pub archetype : ℕ
  pub quantized_frames : List ℕ
  pub component_dirty_generations : List ℕ
  pub same_frame_quantized_frame : ℕ
  pub same_frame_quantized_frame_frame : ℕ
  pub same_frame_cacheable : Bool
  pub active : Bool

-- `replicated_`, `quantized_frames_` and `free_quantized_frames_` of the server; the head of the
-- last list is the back of the vector.
pub record FrameStore : Type 0 where
  pub replicated : List ReplicatedSlot
  pub quantized_frames : List QuantizedFrame
  pub free_quantized_frames : List ℕ

abbrev pub invalid_quantized_frame_id : ℕ
invalid_quantized_frame_id = 2 ^ 32 - 1

-- `QuantizedFrameData::clear`.
pub clear_data : QuantizedFrameData → QuantizedFrameData
clear_data d = record d { tag_mask = 0; present_mask = 0; bytes = [] }

-- `QuantizedFrame{}`.
abbrev pub blank_frame : QuantizedFrame
blank_frame = record {
  slot = 0;
  frame = 0;
  archetype = 0;
  ref_count = 0;
  active = false;
  contents = record { tag_mask = 0; present_mask = 0; bytes = [] };
  dirty_generations = [];
}

unfoldable pub quantized_frame_active : FrameStore → ℕ → Bool
quantized_frame_active s q = elim (get_elem? s.quantized_frames q) [
  | none ↦ false
  | some f ↦ f.active
]

pub quantized_frame_frame : FrameStore → ℕ → ℕ
quantized_frame_frame s q = elim (get_elem? s.quantized_frames q) [ none ↦ 0 | some f ↦ f.frame ]

-- `get_elem?` is `none` from the size of the vector on, which is the range test of the source.
unfoldable pub retain_quantized_frame : FrameStore → ℕ → FrameStore
retain_quantized_frame s q = elim (get_elem? s.quantized_frames q) [
  | none ↦ s
  | some f ↦
      if not (q == invalid_quantized_frame_id) && f.active
      then record s {
        quantized_frames =
            set s.quantized_frames q (record f { ref_count = (f.ref_count + 1) % 2 ^ 32 });
      }
      else s
]

-- `erase(remove(begin, end, quantized_frame))` on the frames of the slot, if there is one.
forget_in_slot : List ReplicatedSlot → ℕ → ℕ → List ReplicatedSlot
forget_in_slot slots slot q = elim (get_elem? slots slot) [
  | none ↦ slots
  | some r ↦
      set slots slot (record r { quantized_frames = remove_if (λ k. k == q) r.quantized_frames })
]

pub retire : FrameStore → ℕ → QuantizedFrame → ℕ → FrameStore
unfolding forget_in_slot clear_data
retire s q f count = record {
  replicated = forget_in_slot s.replicated f.slot q;
  quantized_frames = set s.quantized_frames q (record f {
    ref_count = count;
    active = false;
    contents = clear_data f.contents;
    dirty_generations = [];
  });
  free_quantized_frames = q ∷ s.free_quantized_frames;
}

unfoldable pub release_quantized_frame : FrameStore → ℕ → FrameStore
unfolding retire
release_quantized_frame s q = elim (get_elem? s.quantized_frames q) [
  | none ↦ s
  | some f ↦
      if q == invalid_quantized_frame_id || not f.active
      then s
      else if f.ref_count == 0
      then retire s q f 0
      else if f.ref_count - 1 == 0
      then retire s q f 0
      else record s {
        quantized_frames = set s.quantized_frames q (record f { ref_count = f.ref_count - 1 });
      }
]

-- The end of `find_or_create_quantized_frame`: the frame `made` is stored under an index of the free
-- list, or under a new one. `none` is the `std::length_error`.
take_index : FrameStore → Option (ℕ × List QuantizedFrame × List ℕ)
take_index s = elim s.free_quantized_frames [
  | index ∷ rest ↦ some (index, s.quantized_frames, rest)
  | [] ↦
      if ltb (2 ^ 32 - 1) (length s.quantized_frames)
      then none
      else some (length s.quantized_frames, s.quantized_frames ++ (blank_frame ∷ []), [])
]

list_in_slot : List ReplicatedSlot → ℕ → ℕ → ℕ → List ReplicatedSlot
list_in_slot slots slot index frame = elim (get_elem? slots slot) [
  | none ↦ slots
  | some r ↦ set slots slot (
      if r.same_frame_cacheable
      then record r {
        quantized_frames = r.quantized_frames ++ (index ∷ []);
        same_frame_quantized_frame = index;
        same_frame_quantized_frame_frame = frame;
      }
      else record r { quantized_frames = r.quantized_frames ++ (index ∷ []) })
]

pub create_quantized_frame :
    FrameStore → (slot frame archetype : ℕ) → QuantizedFrameData → List ℕ → Option (ℕ × FrameStore)
unfolding take_index list_in_slot
create_quantized_frame s slot frame archetype scratch dirty_generations = elim (take_index s) [
  | none ↦ none
  | some (index, frames, free) ↦ some (
    index,
    record {
      replicated = list_in_slot s.replicated slot index frame;
      quantized_frames = set frames index (record {
        slot = slot;
        frame = frame;
        archetype = archetype;
        ref_count = 0;
        active = true;
        contents = scratch;
        dirty_generations = dirty_generations;
      });
      free_quantized_frames = free;
    },
  )
]
