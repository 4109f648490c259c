-- ===== src/Cpu/Handle.antt =====
-- `exc_handle` of cpu.cc, for an instruction at `pc` that has exceptions: what becomes of coprocessor 0
-- and of the program counter, to which the program adds 4 later. The caches' `reset_stat` and the
-- release of the bus are modelled with the caches and the bus; the pipeline is filled with nops.
pub mod Vector
use cube_sim.Common.{
  Bool, List, Option, [], false, if◌then◌else◌, none, some, ℕ, ◌&&◌, ◌+◌, ◌==◌, ◌||◌, ◌∷◌,
}
use cube_sim.Common.Bits.{sub32}
use cube_sim.Cpu.Except.{ExcInfo, choose, exc_tlbl, exc_tlbs}
use cube_sim.Cpu.Zero.{CpZero}
use cube_sim.Cpu.Zero.Trap.{enter_exception, use_boot_excp_address}

unfoldable pub epc_of : ℕ → Bool → ℕ
epc_of pc delay_slot = if delay_slot then sub32 pc 4 else pc

abbrev pub is_tlb_miss : ℕ → Bool
is_tlb_miss code = code == exc_tlbl || code == exc_tlbs

unfoldable pub base_of : CpZero → ℕ
unfolding use_boot_excp_address
base_of z = if use_boot_excp_address z then 0xbfc00100 else 0x80000000

unfoldable pub vector_of : ℕ → CpZero → ℕ
vector_of code z = if is_tlb_miss code && z.tlb_miss_user then 0x000 else 0x080

-- The chosen exception is handled.
unfoldable pub handle : ℕ → ℕ → Bool → ExcInfo → CpZero → CpZero × ℕ
unfolding epc_of base_of vector_of enter_exception
handle hw pc delay_slot x z =
    let z₁ = enter_exception hw (epc_of pc delay_slot) x.exc_code x.coprocno false z in
    (z₁, sub32 (base_of z₁ + vector_of x.exc_code z₁) 4)

-- `exc_code` and the others are not set before the loop; `first` stands for them.
unfoldable pub exc_handle : ℕ → ℕ → Bool → ExcInfo → List ExcInfo → CpZero → CpZero × Option ℕ
unfolding handle choose
exc_handle hw pc delay_slot first [] z = (z, none)
exc_handle hw pc delay_slot first (x ∷ xs) z =
    let (z₁, pc₁) = handle hw pc delay_slot (choose none first (x ∷ xs)) z in (z₁, some pc₁)
