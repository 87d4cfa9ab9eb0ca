-- ===== src/Wire.antt =====
-- Reading fields off a packet: `BitReader` (include/ashiato/sync/detail/bit_reader.hpp) and the raw
-- variable-width integers (include/ashiato/sync/serialization.hpp). The packet itself is a
-- `BitBuffer` of the entity library, which is a parameter here: a type B with the operations of
-- `BitSource`. A read gives the value and the buffer behind it, or none where the code returns false.
pub mod Varints
pub mod RoundTrip
pub mod Queue
mod Tests
use ashiato_sync.Base.{
  ℕ, ◌+◌, ◌-◌, ◌^◌, ◌%◌, ◌<◌, ◌≡◌, Bool, true, false, ◌&&◌, ◌||◌, not, List, [], ◌∷◌, ◌++◌, Option,
  none, some, ltb, leb, ◌==◌, if◌then◌else◌, length,
}

pub record BitSource (B : Type 0) : Type 0 where
  pub remaining_bits : B → ℕ
  pub read_offset_bits : B → ℕ
  pub read_bool : B → Bool × B
  pub read_unsigned_bits : ℕ → B → ℕ × B

infixl 5 ◌>>=◌
abbrev pub ◌>>=◌ : {A C : Type 0} → Option A → (A → Option C) → Option C
none >>= k = none
some a >>= k = k a

module _ {B : Type 0} (source : BitSource B) where
  -- `read_bits(1U, bool&)`.
  pub read_flag : B → Option (Bool × B)
  read_flag b = if ltb (source.remaining_bits b) 1 then none else some (source.read_bool b)

  -- `read_bits` into an unsigned integer of `digits` bits.
  pub read_bits : (digits bits : ℕ) → B → Option (ℕ × B)
  read_bits digits bits b =
      if ltb digits bits || ltb (source.remaining_bits b) bits
      then none
      else if bits == 0
      then some (0, b)
      else let result = source.read_unsigned_bits bits b in some (result.0 % 2 ^ digits, result.1)

  -- The value, and whether it is the short one.
  pub read_varint2_raw : (short_bits full_bits : ℕ) → B → Option ((Bool × ℕ) × B)
  unfolding read_flag read_bits
  read_varint2_raw short_bits full_bits b = do
    (uses_full, b) ← read_flag b
    (value, b) ← read_bits 64 (if uses_full then full_bits else short_bits) b
    some ((if uses_full then false else true, value), b)

  -- The tier of the value, and the value; the first flag is read.
  pub read_tier :
      (short_bits medium_bits full_bits : ℕ) → (uses_wide : Bool) → B → Option ((ℕ × ℕ) × B)
  unfolding read_flag read_bits
  read_tier short_bits medium_bits full_bits false b = do
    (value, b) ← read_bits 64 short_bits b
    some ((0, value), b)
  read_tier short_bits medium_bits full_bits true b = do
    (uses_full, b) ← read_flag b
    (value, b) ← read_bits 64 (if uses_full then full_bits else medium_bits) b
    some ((if uses_full then 2 else 1, value), b)

  pub read_varint3_raw : (short_bits medium_bits full_bits : ℕ) → B → Option ((ℕ × ℕ) × B)
  unfolding read_flag read_tier
  read_varint3_raw short_bits medium_bits full_bits b = do
    (uses_wide, b) ← read_flag b
    read_tier short_bits medium_bits full_bits uses_wide b

  pub read_network_entity_id : (tier0_bits : ℕ) → B → Option (ℕ × B)
  unfolding read_varint3_raw
  read_network_entity_id tier0_bits b = do
    ((tier, value), b) ← read_varint3_raw tier0_bits 23 32 b
    some (value % 2 ^ 32, b)

  -- `read_baseline_frame` and `read_cue_frame`, which differ in the width of the delta.
  pub read_delta_frame : (delta_bits current_frame : ℕ) → B → Option (ℕ × B)
  unfolding read_varint2_raw
  read_delta_frame delta_bits current_frame b = do
    ((uses_delta, value), b) ← read_varint2_raw delta_bits 32 b
    (if not uses_delta
        then some (value % 2 ^ 32, b)
        else if ltb current_frame value
        then none
        else some (current_frame - value % 2 ^ 32, b))

pub network_entity_id_tier0_max : ℕ → ℕ
network_entity_id_tier0_max tier0_bits = 2 ^ tier0_bits - 1

-- The width of an entity id, with its tier.
pub network_entity_id_encoded_bits : (network_id tier0_bits : ℕ) → ℕ
unfolding network_entity_id_tier0_max
network_entity_id_encoded_bits network_id tier0_bits =
    if leb network_id (network_entity_id_tier0_max tier0_bits)
    then tier0_bits + 1
    else if leb network_id (2 ^ 23 - 1)
    then 25
    else 34

-- The size of a destruction in an update (`destroy_record_bits` of src/server/packet.cpp).
pub destroy_record_bits : (network_id tier0_bits : ℕ) → ℕ
unfolding network_entity_id_encoded_bits
destroy_record_bits network_id tier0_bits = 1 + network_entity_id_encoded_bits network_id tier0_bits

-- The writes of a `BitBuffer`.
pub record BitSink (B : Type 0) : Type 0 where
  pub write_bool : Bool → B → B
  pub write_unsigned_bits : (value bits : ℕ) → B → B

module _ {B : Type 0} (sink : BitSink B) where
  pub serialize_varint2_raw :
      (use_short : Bool) → (short_value short_bits full_value full_bits : ℕ) → B → B
  serialize_varint2_raw use_short short_value short_bits full_value full_bits out =
      sink.write_unsigned_bits (if use_short then short_value else full_value)
        (if use_short then short_bits else full_bits) (sink.write_bool (not use_short) out)

  -- The tier is 0, 1 or 2, for which the code does not throw.
  pub serialize_varint3_raw :
      (tier short_value short_bits medium_value medium_bits full_value full_bits : ℕ) → B → B
  serialize_varint3_raw tier short_value short_bits medium_value medium_bits full_value full_bits
        out =
      if tier == 0
      then sink.write_unsigned_bits short_value short_bits (sink.write_bool false out)
      else sink.write_unsigned_bits (if tier == 1 then medium_value else full_value)
          (if tier == 1 then medium_bits else full_bits)
          (sink.write_bool (not (tier == 1)) (sink.write_bool true out))

  pub write_network_entity_id : (network_id tier0_bits : ℕ) → B → B
  unfolding serialize_varint3_raw
  write_network_entity_id network_id tier0_bits out =
      let tier =
        if leb network_id (2 ^ tier0_bits - 1)
        then 0
        else if leb network_id (2 ^ 23 - 1)
        then 1
        else 2 in
      serialize_varint3_raw tier network_id tier0_bits network_id 23 network_id 32 out

  -- `write_baseline_frame` and `write_cue_frame`, which differ in the width of the delta.
  pub write_delta_frame : (delta_bits current_frame frame : ℕ) → B → B
  unfolding serialize_varint2_raw
  write_delta_frame delta_bits current_frame frame out =
      let can_use_delta =
        leb frame current_frame && leb (current_frame - frame) (2 ^ delta_bits - 1) in
      let delta = if can_use_delta then current_frame - frame else 0 in
      serialize_varint2_raw can_use_delta delta delta_bits frame 32 out

-- What the buffer of the entity library promises: it is a queue of bits, a read gives back what was
-- written in the same width, and `remaining_bits` is the number of bits that are left.
pub record IsBitBuffer {B : Type 0} (source : BitSource B) (sink : BitSink B) : Type 0 where
  pub unread : B → List Bool
  pub code : (bits value : ℕ) → List Bool
  pub code_length : (bits value : ℕ) → length (code bits value) ≡ bits
  pub write_bool_unread :
      (flag : Bool) (b : B) → unread (sink.write_bool flag b) ≡ unread b ++ (flag ∷ [])
  pub write_bits_unread :
      (value bits : ℕ) (b : B)
      → unread (sink.write_unsigned_bits value bits b) ≡ unread b ++ code bits value
  pub remaining : (b : B) → source.remaining_bits b ≡ length (unread b)
  pub read_bool_unread :
      (flag : Bool) (rest : List Bool) (b : B)
      → unread b ≡ flag ∷ rest
      → ((source.read_bool b).0 ≡ flag) × (unread ((source.read_bool b).1) ≡ rest)
  pub read_bits_unread :
      (bits value : ℕ) (rest : List Bool) (b : B)
      → value < 2 ^ bits
      → unread b ≡ code bits value ++ rest
      → ((source.read_unsigned_bits bits b).0 ≡ value)
        × (unread ((source.read_unsigned_bits bits b).1) ≡ rest)
