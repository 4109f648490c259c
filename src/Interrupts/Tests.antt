-- ===== src/Interrupts/Tests.antt =====
-- A concrete controller, intctrl.cc.
use cube_sim.Common.{List, [], ◌↔◌, ◌∷◌, ◌≡◌}
use cube_sim.Common.Bits.{bit_at}
use cube_sim.Interrupts.{DeviceInt, calculate_ip}
use cube_sim.Interrupts.Lines.{SomeAsserts, calculate_ip_iff}

abbrev devices : List DeviceInt
devices =
    record { lines_connected = 0x400; lines_asserted = 0x400 }
    ∷ record { lines_connected = 0x800; lines_asserted = 0 }
    ∷ []

calculate_ip_iff_example :
    (bit_at 10 (calculate_ip devices (0 ∷ 1 ∷ [])) ≡ 1) ↔ SomeAsserts 10 devices (0 ∷ 1 ∷ [])
calculate_ip_iff_example = calculate_ip_iff 10 devices (0 ∷ 1 ∷ [])
