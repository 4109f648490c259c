-- ===== src/Interrupts.antt =====
-- `DeviceInt` and `IntCtrl`, deviceint.h, deviceint.cc, intctrl.h and intctrl.cc: the interrupt lines
-- that a device is connected to and asserts, and the controller that joins those of its devices. A
-- device is its index in the list of all devices. The messages are left out.
mod Tests
pub mod Lines
use cube_sim.Common.{
  Bool, List, [], bit_and, bit_or, false, get_or, if◌then◌else◌, ltb, set, true, ℕ, ◌++◌, ◌+◌, ◌==◌,
  ◌^◌, ◌∷◌,
}
use cube_sim.Common.Bits.{not32}

pub record DeviceInt : Type 0 where
  pub lines_connected : ℕ
  pub lines_asserted : ℕ

-- `num2irq`: IRQ0 is bit 8.
unfoldable pub num2irq : ℕ → ℕ
num2irq n = if ltb n 8 then 2 ^ (n + 8) else 0

unfoldable pub assert_int : ℕ → DeviceInt → DeviceInt
assert_int line d =
    if bit_and line d.lines_connected == 0
    then d
    else record d { lines_asserted = bit_or d.lines_asserted line }

-- `lines_asserted &= ~line`
unfoldable pub deassert_int : ℕ → DeviceInt → DeviceInt
deassert_int line d =
    if bit_and line d.lines_connected == 0
    then d
    else record d { lines_asserted = bit_and d.lines_asserted (not32 line) }

abbrev pub no_device : DeviceInt
no_device = record { lines_connected = 0; lines_asserted = 0 }

-- The loop of `calculateIP` over the devices of the controller.
unfoldable pub calculate_ip : List DeviceInt → List ℕ → ℕ
calculate_ip all [] = 0
calculate_ip all (i ∷ devs) = bit_or (calculate_ip all devs) (get_or all i no_device).lines_asserted

unfoldable pub is_among : ℕ → List ℕ → Bool
is_among i [] = false
is_among i (j ∷ devs) = if i == j then true else is_among i devs

-- `connectLine`: the devices, and the list of the controller.
unfoldable pub connect_line : ℕ → ℕ → List DeviceInt → List ℕ → List DeviceInt × List ℕ
connect_line line i all devs =
    let d = get_or all i no_device in
    (
      set all i (record d { lines_connected = bit_or d.lines_connected line }),
      if is_among i devs then devs else devs ++ i ∷ [],
    )
