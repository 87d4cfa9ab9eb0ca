-- ===== src/Capacity/Tests.antt =====
-- Ring capacities on concrete inputs.
use ashiato_sync.Base.{◌≡◌, ◌↔◌, true, arith}
use ashiato_sync.Capacity.{is_power_of_two, IsCapacity, is_power_of_two_iff}

is_power_of_two_iff_example : (is_power_of_two 64 ≡ true) ↔ IsCapacity 64
is_power_of_two_iff_example = is_power_of_two_iff 64 (omega arith)
