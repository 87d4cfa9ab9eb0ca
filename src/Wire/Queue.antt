-- ===== src/Wire/Queue.antt =====
-- A bit buffer that keeps the promises of `IsBitBuffer`: the bits themselves.
use ashiato_sync.Base.{
  ℕ, zero, suc, ◌+◌, ◌*◌, ◌/◌, ◌%◌, ◌^◌, ◌<◌, ◌≡◌, ◌∙◌, ap, refl, Bool, false, List, [], ◌∷◌, ◌++◌,
  length, drop, arith, if◌then◌else◌, ◌==◌,
}
use native.Mathlib.Nat.{pow-suc}
use ashiato_sync.Wire.{BitSource, BitSink, IsBitBuffer}

-- The bits of a number, the lowest first.
unfoldable pub bits_of : (bits value : ℕ) → List Bool
bits_of zero value = []
bits_of (suc bits) value = (value % 2 == 1) ∷ bits_of bits (value / 2)

unfoldable pub number_of : (bits : ℕ) → List Bool → ℕ
number_of zero b = 0
number_of (suc bits) [] = 0
number_of (suc bits) (flag ∷ b) = (if flag then 1 else 0) + 2 * number_of bits b

abbrev pub first_flag : List Bool → Bool
first_flag [] = false
first_flag (flag ∷ b) = flag

abbrev pub queue_source : BitSource (List Bool)
queue_source = record {
  remaining_bits = λ b. length b;
  read_offset_bits = λ b. 0;
  read_bool = λ b. (first_flag b, drop 1 b);
  read_unsigned_bits = λ bits b. (number_of bits b, drop bits b);
}

abbrev pub queue_sink : BitSink (List Bool)
queue_sink = record {
  write_bool = λ flag b. b ++ (flag ∷ []);
  write_unsigned_bits = λ value bits b. b ++ bits_of bits value;
}

pub length-bits_of : (bits value : ℕ) → length (bits_of bits value) ≡ bits
unfolding bits_of
length-bits_of zero value = refl
length-bits_of (suc bits) value = ap suc (length-bits_of bits (value / 2))

pub number_of-bits_of :
    (bits value : ℕ) (rest : List Bool)
    → value < 2 ^ bits
    → number_of bits (bits_of bits value ++ rest) ≡ value
unfolding bits_of number_of
number_of-bits_of zero value rest lt = omega arith
number_of-bits_of (suc bits) value rest lt =
    let ih = number_of-bits_of bits (value / 2) rest (omega (arith, pow-suc 2 bits)) in ground arith

pub drop-bits_of :
    (bits value : ℕ) (rest : List Bool) → drop bits (bits_of bits value ++ rest) ≡ rest
unfolding bits_of
drop-bits_of zero value rest = refl
drop-bits_of (suc bits) value rest = drop-bits_of bits (value / 2) rest

unfoldable pub queue : IsBitBuffer queue_source queue_sink
queue = record {
  unread = λ b. b;
  code = bits_of;
  code_length = length-bits_of;
  write_bool_unread = λ flag b. refl;
  write_bits_unread = λ value bits b. refl;
  remaining = λ b. refl;
  read_bool_unread = λ flag rest b e. (ap first_flag e, ap (drop 1) e);
  read_bits_unread = λ bits value rest b lt e. (
    ap (number_of bits) e ∙ number_of-bits_of bits value rest lt,
    ap (drop bits) e ∙ drop-bits_of bits value rest,
  );
}
