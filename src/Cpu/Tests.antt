-- ===== src/Cpu/Tests.antt =====
-- Concrete instructions and states of the processor, cpu.cc and cpzero.cc.
use cube_sim.Common.{
  arith, false, get_or, none, refl, replicate, some, true, ℕ, ◌++◌, ◌<◌, ◌↔◌, ◌∷◌, ◌≡◌,
}
use cube_sim.Common.Int.{negsuc, pos, ◌+ℤ◌, ◌≤ℤ◌}
use cube_sim.Common.Bits.{add32}
use cube_sim.Cpu.Except.{ExcInfo, exc_ov}
use cube_sim.Cpu.Zero.{
  CpZero, kernel_mode, read_masks, read_reg, reg_entry_hi, reg_epc, reg_of, reg_status, test_bits,
  tlb_asid, tlb_dirty, tlb_global, tlb_noncacheable, tlb_pfn, tlb_valid, tlb_vpn, write_masks,
  write_reg,
}
use cube_sim.Cpu.Zero.Tlb.{
  address_trans, find_entry, find_matching_tlb_entry, no_entry, tlb_entry, tlb_found, tlb_translate,
}
use cube_sim.Cpu.Zero.Trap.{enter_exception, interrupt_pending, rfe_emulate}
use cube_sim.Cpu.Zero.Random.{cycles, entry_comes, random_of}
use cube_sim.Cpu.Zero.Mode.{mode_bits, rfe_emulate-enter_exception}
use cube_sim.Cpu.Zero.Translate.{Through, address_trans_user}
use cube_sim.Cpu.Alu.{add_exec, raises_ov, result, signed32, undefined}
use cube_sim.Cpu.Alu.Overflow.{FitsInt32, add_exec_lem}
use cube_sim.Cpu.Unaligned.Load.{load_pair, lwl-lwr}
use cube_sim.Cpu.Control.{blez_exec, branch_target}
use cube_sim.Cpu.Control.Target.{branch_signs}
use cube_sim.Memory.Mapper.{dataload}
use cube_sim.Cpu.Handle.{handle}
use cube_sim.Cpu.Handle.Vector.{boots, entry_point, handle_lem, user_miss}
use cube_sim.Cpu.Forward.{Stages, forward, forward_late, reg_commit}
use cube_sim.Cpu.Forward.Order.{Results, after_all, forward_lem, value_of}
use cube_sim.Cpu.Unaligned.{swl, swr}
use cube_sim.Cpu.Stores.{swl_bytes, swr_bytes}
use cube_sim.Cpu.Stores.Merge.{store_all, stores_lem}
use cube_sim.Cpu.Zero.Access.{IsOpen, read_reg-write_reg}

-- User mode, page 1 mapped to frame 5, Random at 10.
abbrev user_state : CpZero
user_state = record {
  reg = 0 ∷ 0xa00 ∷ replicate 10 0 ++ 0x3 ∷ replicate 19 0;
  tlb = record { entry_hi = 0x1000; entry_lo = 0x5200 } ∷ replicate 63 no_entry;
  tlb_miss_user = false;
  cpuid = 0;
}

address_trans_user_example :
    (test_bits 0x1234 0x80000000 ≡ false)
    × ((i : ℕ) × Through user_state 0x1234 (some dataload) 0x5234 i)
unfolding kernel_mode address_trans test_bits tlb_translate find_matching_tlb_entry find_entry
    tlb_entry tlb_found tlb_vpn tlb_asid tlb_global tlb_valid tlb_dirty tlb_pfn tlb_noncacheable
address_trans_user_example =
    address_trans_user user_state 0x1234 (some dataload) 0x5234 true refl refl

rfe_emulate-enter_exception_example :
    mode_bits (reg_of (rfe_emulate (enter_exception 0 0x400 8 0 false user_state)) reg_status)
    ≡ mode_bits 3
rfe_emulate-enter_exception_example = rfe_emulate-enter_exception 0 0x400 8 0 false user_state refl

entry_comes_example : (n : ℕ) × ((n < 56) × (random_of (cycles n user_state) ≡ 12))
entry_comes_example =
    entry_comes user_state 12 (refl, (omega arith, omega arith)) (omega arith) (omega arith)

add_exec_lem_example :
    (FitsInt32 (pos 5 +ℤ negsuc 2)
      → (s : ℕ) × (add_exec 5 0xfffffffd ≡ result s) × (signed32 s ≡ pos 5 +ℤ negsuc 2))
    × ((¬ FitsInt32 (pos 5 +ℤ negsuc 2)) → add_exec 5 0xfffffffd ≡ undefined)
    × (¬ (add_exec 5 0xfffffffd ≡ raises_ov))
add_exec_lem_example = add_exec_lem 5 0xfffffffd (omega arith) (omega arith)

lwl-lwr_example :
    (load_pair false 0xffffffff 0x33221100 0x77665544 1 ≡ 0x44332211)
    × (load_pair true 0xffffffff 0x33221100 0x77665544 1 ≡ 0x22110077)
lwl-lwr_example =
    lwl-lwr 0xffffffff 0x33221100 0x77665544 0 (omega arith) (omega arith) (omega arith)
      (omega arith)

branch_signs_example :
    ((blez_exec 0x18000003 0x1000 0xffffffff).target ≡ some (branch_target 0x18000003 0x1000))
    ↔ (negsuc 0 ≤ℤ pos 0)
branch_signs_example = (branch_signs 0x18000003 0x1000 0xffffffff (omega arith)).0

abbrev raised : ℕ → ExcInfo
raised code = record { exc_code = code; mode = none; coprocno = 0 }

-- An overflow in the delay slot of a branch at 0x400.
handle_lem_example :
    (add32 (handle 0 0x404 true (raised exc_ov) user_state).1 4
      ≡ entry_point (boots user_state) (user_miss exc_ov user_state))
    × (kernel_mode (handle 0 0x404 true (raised exc_ov) user_state).0 ≡ true)
    × ((lines : ℕ)
        → interrupt_pending lines (handle 0 0x404 true (raised exc_ov) user_state).0 ≡ false)
    × (add32 (reg_of (handle 0 0x404 true (raised exc_ov) user_state).0 reg_epc) 4 ≡ 0x404)
handle_lem_example = handle_lem 0 0x404 true (raised exc_ov) user_state refl (omega arith)

-- The instruction in EX loads register 4, the one in WB writes it too.
abbrev stages : Stages
stages = record {
  ex = record { dst = 4; mem_read_op = true };
  mem = record { dst = 32; mem_read_op = false };
  wb = record { dst = 4; mem_read_op = false };
}

abbrev results : Results
results = record { ex = 11; mem = 0; wb = 12 }

forward_lem_example :
    (value_of (forward 4 stages) (replicate 32 0) results
      ≡ get_or (after_all stages results (replicate 32 0)) 4 0)
    × (value_of
          (forward_late 4 stages)
          (reg_commit stages.mem 0 (reg_commit stages.wb 12 (replicate 32 0)))
          results
        ≡ get_or (after_all stages results (replicate 32 0)) 4 0)
forward_lem_example = forward_lem stages results (replicate 32 0) 4 (omega arith) refl

stores_lem_example :
    (store_all false (swr_bytes false 0x44332211 1) 0x88776655 ≡ swr false 0x44332211 0x88776655 1)
    × (store_all true (swr_bytes true 0x44332211 1) 0x88776655 ≡ swr true 0x44332211 0x88776655 1)
    × (store_all false (swl_bytes false 0x44332211 1) 0x88776655
        ≡ swl false 0x44332211 0x88776655 1)
    × (store_all true (swl_bytes true 0x44332211 1) 0x88776655 ≡ 0x88332211)
    × (swl true 0x44332211 0x88776655 1 ≡ 0x88443322)
stores_lem_example = stores_lem 0x44332211 0x88776655 1 (omega arith) (omega arith) (omega arith)

entry_hi_IsOpen : IsOpen reg_entry_hi
unfolding read_masks write_masks
entry_hi_IsOpen = (omega arith, (λ e. omega arith), refl, refl)

read_reg-write_reg_example :
    (read_reg 0 reg_entry_hi (write_reg reg_entry_hi 0x12345678 user_state)).1 ≡ 0x12345640
unfolding read_masks
read_reg-write_reg_example =
    read_reg-write_reg 0 reg_entry_hi reg_entry_hi 0x12345678 user_state refl entry_hi_IsOpen
      (λ e. omega arith)
