-- ===== src/Wire/Varints.antt =====
-- Reading back the fields of a packet, one after the other.
use ashiato_sync.Base.{
  ℕ, ◌^◌, ◌%◌, ◌≤◌, ◌<◌, ◌≡◌, refl, ap, ◌∙◌, Bool, true, false, ◌||◌, not, List, [], ◌∷◌, ◌++◌,
  Option, some, ltb, ◌==◌, if◌then◌else◌, length, arith, length-append, append_assoc,
}
use native.Mathlib.Nat.{pow-le-pow_right, mod-eq_of_lt}
use ashiato_sync.Wire.{
  BitSource, BitSink, IsBitBuffer, read_flag, read_bits, read_varint2_raw, read_varint3_raw,
  read_tier, serialize_varint2_raw,
}

module _ {B : Type 0} {source : BitSource B} {sink : BitSink B} (w : IsBitBuffer source sink) where
  -- A read gives a value and leaves the bits behind it.
  abbrev pub Reads : {A : Type 0} → Option (A × B) → A → List Bool → Type 0
  Reads result value rest = (b : B) × (result ≡ some (value, b)) × (w.unread b ≡ rest)

  pub read_flag-Reads :
      (flag : Bool) (rest : List Bool) (b : B)
      → w.unread b ≡ flag ∷ rest
      → Reads (read_flag source b) flag rest
  unfolding read_flag
  read_flag-Reads flag rest b e =
      let (value, left) = w.read_bool_unread flag rest b e in
      let enough : ltb (source.remaining_bits b) 1 ≡ false =
        ground (arith, w.remaining b, ap length e) in
      (
        (source.read_bool b).1,
        rw (enough, read_flag) (ap (λ v. some (v, (source.read_bool b).1)) value),
        left,
      )

  pub read_bits-Reads :
      (digits bits value : ℕ) (rest : List Bool) (b : B)
      → 1 ≤ bits
      → bits ≤ digits
      → value < 2 ^ bits
      → w.unread b ≡ w.code bits value ++ rest
      → Reads (read_bits source digits bits b) value rest
  unfolding read_bits
  read_bits-Reads digits bits value rest b pos fits lt e =
      let (same, left) = w.read_bits_unread bits value rest b lt e in
      let enough : (ltb digits bits || ltb (source.remaining_bits b) bits) ≡ false = ground (
        arith,
        w.remaining b,
        ap length e,
        length-append (w.code bits value) rest,
        w.code_length bits value,
      ) in
      let some_bits : (bits == 0) ≡ false = ground arith in
      let power = pow-le-pow_right {n = 2} (omega arith) fits in
      let whole : value % 2 ^ digits ≡ value = mod-eq_of_lt (omega arith) in
      (
        (source.read_unsigned_bits bits b).1,
        rw (enough, some_bits, read_bits)
            (ap (λ v. some (v, (source.read_unsigned_bits bits b).1))
              (ap (λ v. v % 2 ^ digits) same ∙ whole)),
        left,
      )

  pub read_varint2_raw-Reads :
      (use_short : Bool) (value short_bits full_bits : ℕ) (rest : List Bool) (b : B)
      → 1 ≤ (if use_short then short_bits else full_bits)
      → (if use_short then short_bits else full_bits) ≤ 64
      → value < 2 ^ (if use_short then short_bits else full_bits)
      → w.unread b
        ≡ not use_short ∷ (w.code (if use_short then short_bits else full_bits) value ++ rest)
      → Reads (read_varint2_raw source short_bits full_bits b) (use_short, value) rest
  unfolding read_varint2_raw
  read_varint2_raw-Reads true value short_bits full_bits rest b pos fits lt e =
      let (b1, flag, left) = read_flag-Reads false _ b e in
      let (b2, bits, end) = read_bits-Reads 64 short_bits value rest b1 pos fits lt left in
      (b2, rw (flag, bits, read_varint2_raw) refl, end)
  read_varint2_raw-Reads false value short_bits full_bits rest b pos fits lt e =
      let (b1, flag, left) = read_flag-Reads true _ b e in
      let (b2, bits, end) = read_bits-Reads 64 full_bits value rest b1 pos fits lt left in
      (b2, rw (flag, bits, read_varint2_raw) refl, end)

  pub serialize_varint2_raw-unread :
      (use_short : Bool) (short_value short_bits full_value full_bits : ℕ) (out : B)
      → w.unread
          (serialize_varint2_raw sink use_short short_value short_bits full_value full_bits out)
        ≡ w.unread out
          ++ (not use_short
              ∷ w.code
                  (if use_short then short_bits else full_bits)
                  (if use_short then short_value else full_value))
  unfolding serialize_varint2_raw
  serialize_varint2_raw-unread use_short short_value short_bits full_value full_bits out =
      let bits =
        w.code (if use_short then short_bits else full_bits)
          (if use_short then short_value else full_value) in
      w.write_bits_unread _ _ _
      ∙ ap (λ flag. flag ++ bits) (w.write_bool_unread (not use_short) out)
      ∙ append_assoc (w.unread out) (not use_short ∷ []) bits

  pub read_varint2_raw-serialize :
      (use_short : Bool) (short_value short_bits full_value full_bits : ℕ) (rest : List Bool)
      (out b : B)
      → 1 ≤ (if use_short then short_bits else full_bits)
      → (if use_short then short_bits else full_bits) ≤ 64
      → (if use_short then short_value else full_value)
        < 2 ^ (if use_short then short_bits else full_bits)
      → w.unread out ≡ []
      → w.unread b
        ≡ w.unread
            (serialize_varint2_raw sink use_short short_value short_bits full_value full_bits out)
          ++ rest
      → Reads
          (read_varint2_raw source short_bits full_bits b)
          (use_short, if use_short then short_value else full_value)
          rest
  read_varint2_raw-serialize use_short short_value short_bits full_value full_bits rest out b pos
        fits lt empty e =
      let written =
        serialize_varint2_raw-unread use_short short_value short_bits full_value full_bits out in
      let bits =
        w.code (if use_short then short_bits else full_bits)
          (if use_short then short_value else full_value) in
      read_varint2_raw-Reads use_short (if use_short then short_value else full_value) short_bits
        full_bits rest b pos fits lt
        (e
          ∙ ap (λ front. front ++ rest)
              (written ∙ ap (λ front. front ++ (not use_short ∷ bits)) empty))

  pub written_flag :
      (flag : Bool) (value bits : ℕ) (out : B)
      → w.unread out ≡ []
      → w.unread (sink.write_unsigned_bits value bits (sink.write_bool flag out))
        ≡ flag ∷ w.code bits value
  written_flag flag value bits out empty =
      w.write_bits_unread _ _ _
      ∙ ap (λ front. front ++ w.code bits value)
          (w.write_bool_unread flag out ∙ ap (λ front. front ++ (flag ∷ [])) empty)

  pub written_flags :
      (flag : Bool) (value bits : ℕ) (out : B)
      → w.unread out ≡ []
      → w.unread
          (sink.write_unsigned_bits value bits (sink.write_bool flag (sink.write_bool true out)))
        ≡ true ∷ (flag ∷ w.code bits value)
  written_flags flag value bits out empty =
      w.write_bits_unread _ _ _
      ∙ ap (λ front. front ++ w.code bits value)
          (w.write_bool_unread flag (sink.write_bool true out)
            ∙ ap (λ front. front ++ (flag ∷ []))
                (w.write_bool_unread true out ∙ ap (λ front. front ++ (true ∷ [])) empty))

  pub read_short-Reads :
      (value short_bits medium_bits full_bits : ℕ) (rest : List Bool) (b : B)
      → 1 ≤ short_bits
      → short_bits ≤ 64
      → value < 2 ^ short_bits
      → w.unread b ≡ false ∷ (w.code short_bits value ++ rest)
      → Reads (read_varint3_raw source short_bits medium_bits full_bits b) (0, value) rest
  unfolding read_varint3_raw read_tier
  read_short-Reads value short_bits medium_bits full_bits rest b pos fits lt e =
      let (b1, flag, left) = read_flag-Reads false _ b e in
      let (b2, bits, end) = read_bits-Reads 64 short_bits value rest b1 pos fits lt left in
      (b2, rw (flag, bits, read_varint3_raw, read_tier) refl, end)

  pub read_wide-Reads :
      (full : Bool) (value short_bits medium_bits full_bits : ℕ) (rest : List Bool) (b : B)
      → 1 ≤ (if full then full_bits else medium_bits)
      → (if full then full_bits else medium_bits) ≤ 64
      → value < 2 ^ (if full then full_bits else medium_bits)
      → w.unread b
        ≡ true ∷ (full ∷ (w.code (if full then full_bits else medium_bits) value ++ rest))
      → Reads
          (read_varint3_raw source short_bits medium_bits full_bits b)
          (if full then 2 else 1, value)
          rest
  unfolding read_varint3_raw read_tier
  read_wide-Reads full value short_bits medium_bits full_bits rest b pos fits lt e =
      let (b1, wide, left) = read_flag-Reads true _ b e in
      let (b2, tier, end) = read_flag-Reads full _ b1 left in
      let (b3, bits, behind) =
        read_bits-Reads 64 (if full then full_bits else medium_bits) value rest b2 pos fits lt
          end in
      (b3, rw (wide, tier, bits, read_varint3_raw, read_tier) refl, behind)
