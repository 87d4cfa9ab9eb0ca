-- ===== src/Server/InputBuffer/Tests.antt =====
-- The input buffer on concrete inputs. The packet is a list of numbers, one for each field.
use ashiato_sync.Base.{
  ℕ, ◌-◌, ◌≡◌, inl, refl, true, false, List, [], ◌∷◌, Option, some, length, arith, ◌==◌, not,
}
use ashiato_sync.Wire.{BitSource}
use ashiato_sync.Server.InputBuffer.{
  InputBuffer, Deserialize, no_inputs, process_packet_payload, select_input_for_frame,
}
use ashiato_sync.Server.InputBuffer.Stored.{IsValid, Later, process_packet_payload-IsValid}
use ashiato_sync.Server.InputBuffer.Select.{Applied, select_input_for_frame-Newest}

head : List ℕ → ℕ
head [] = 0
head (x ∷ xs) = x

tail : List ℕ → List ℕ
tail [] = []
tail (x ∷ xs) = xs

-- Each field takes one number; the offset counts down.
abbrev fields : BitSource (List ℕ)
fields = record {
  remaining_bits = λ b. 64;
  read_offset_bits = λ b. 1000 - length b;
  read_bool = λ b. (not (head b == 0), tail b);
  read_unsigned_bits = λ bits b. (head b, tail b);
}

-- An input is one byte.
abbrev one_byte : Deserialize (List ℕ)
one_byte b previous current_frame previous_frame = some (head b ∷ [], tail b)

-- Baseline 0, the first input in full at frame 1, and two inputs.
abbrev two_inputs : List ℕ
two_inputs = 0 ∷ 1 ∷ 1 ∷ 2 ∷ 40 ∷ 41 ∷ []

no_inputs-IsValid : IsValid 8 no_inputs
no_inputs-IsValid = record { sized = inl refl; placed = λ i input here valid. absurd (cc) }

process_packet_payload-IsValid_example :
    Later 8 no_inputs ((process_packet_payload fields one_byte 1 8 two_inputs no_inputs).1)
process_packet_payload-IsValid_example =
    process_packet_payload-IsValid fields one_byte 8 1 two_inputs no_inputs no_inputs-IsValid

-- The input of frame 3 is there.
abbrev frame_three : InputBuffer
frame_three = record no_inputs {
  input_frames =
      record { frame = 0; valid = false; bytes = [] }
      ∷ record { frame = 3; valid = true; bytes = 9 ∷ [] }
      ∷ [];
  input_ack_frame = 3;
}

select_input_for_frame-Newest_example :
    (result : (Option (List ℕ) × ℕ) × InputBuffer) × (select_input_for_frame 4 1 frame_three
      ≡ some result)
    × Applied 4 1 frame_three result
select_input_for_frame-Newest_example =
    select_input_for_frame-Newest 4 1 frame_three (omega arith) (omega arith)
