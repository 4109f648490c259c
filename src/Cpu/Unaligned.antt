-- ===== src/Cpu/Unaligned.antt =====
-- `lwr`, `lwl`, `swl` and `swr` of cpu.cc, which join a register with a part of a word of memory. The
-- program ends on an offset above 3, which the callers never pass; the model takes it as 3.
pub mod Load
use cube_sim.Common.{Bool, bit_and, bit_or, false, suc, true, zero, ℕ}
use cube_sim.Common.Bits.{shl32, shr}

unfoldable pub lwr : Bool → ℕ → ℕ → ℕ → ℕ
lwr true regval memval zero =
    bit_or (bit_and regval 0xffffff00) (shr (bit_and memval 0xff000000) 24)
lwr true regval memval (suc zero) =
    bit_or (bit_and regval 0xffff0000) (shr (bit_and memval 0xffff0000) 16)
lwr true regval memval (suc (suc zero)) =
    bit_or (bit_and regval 0xff000000) (shr (bit_and memval 0xffffff00) 8)
lwr true regval memval _ = memval
lwr false regval memval zero = memval
lwr false regval memval (suc zero) =
    bit_or (bit_and regval 0xff000000) (shr (bit_and memval 0xffffff00) 8)
lwr false regval memval (suc (suc zero)) =
    bit_or (bit_and regval 0xffff0000) (shr (bit_and memval 0xffff0000) 16)
lwr false regval memval _ = bit_or (bit_and regval 0xffffff00) (shr (bit_and memval 0xff000000) 24)

unfoldable pub lwl : Bool → ℕ → ℕ → ℕ → ℕ
lwl true regval memval zero = memval
lwl true regval memval (suc zero) = bit_or (shl32 (bit_and memval 0xffffff) 8) (bit_and regval 0xff)
lwl true regval memval (suc (suc zero)) =
    bit_or (shl32 (bit_and memval 0xffff) 16) (bit_and regval 0xffff)
lwl true regval memval _ = bit_or (shl32 (bit_and memval 0xff) 24) (bit_and regval 0xffffff)
lwl false regval memval zero = bit_or (shl32 (bit_and memval 0xff) 24) (bit_and regval 0xffffff)
lwl false regval memval (suc zero) =
    bit_or (shl32 (bit_and memval 0xffff) 16) (bit_and regval 0xffff)
lwl false regval memval (suc (suc zero)) =
    bit_or (shl32 (bit_and memval 0xffffff) 8) (bit_and regval 0xff)
lwl false regval memval _ = memval

unfoldable pub swl : Bool → ℕ → ℕ → ℕ → ℕ
swl true regval memval zero = regval
swl true regval memval (suc zero) =
    bit_or (bit_and memval 0xff000000) (bit_and (shr regval 8) 0xffffff)
swl true regval memval (suc (suc zero)) =
    bit_or (bit_and memval 0xffff0000) (bit_and (shr regval 16) 0xffff)
swl true regval memval _ = bit_or (bit_and memval 0xffffff00) (bit_and (shr regval 24) 0xff)
swl false regval memval zero = bit_or (bit_and memval 0xffffff00) (bit_and (shr regval 24) 0xff)
swl false regval memval (suc zero) =
    bit_or (bit_and memval 0xffff0000) (bit_and (shr regval 16) 0xffff)
swl false regval memval (suc (suc zero)) =
    bit_or (bit_and memval 0xff000000) (bit_and (shr regval 8) 0xffffff)
swl false regval memval _ = regval

unfoldable pub swr : Bool → ℕ → ℕ → ℕ → ℕ
swr true regval memval zero =
    bit_or (bit_and (shl32 regval 24) 0xff000000) (bit_and memval 0xffffff)
swr true regval memval (suc zero) =
    bit_or (bit_and (shl32 regval 16) 0xffff0000) (bit_and memval 0xffff)
swr true regval memval (suc (suc zero)) =
    bit_or (bit_and (shl32 regval 8) 0xffffff00) (bit_and memval 0xff)
swr true regval memval _ = regval
swr false regval memval zero = regval
swr false regval memval (suc zero) =
    bit_or (bit_and (shl32 regval 8) 0xffffff00) (bit_and memval 0xff)
swr false regval memval (suc (suc zero)) =
    bit_or (bit_and (shl32 regval 16) 0xffff0000) (bit_and memval 0xffff)
swr false regval memval _ = bit_or (bit_and (shl32 regval 24) 0xff000000) (bit_and memval 0xffffff)
