-- ===== src/Snacc/Tests.antt =====
-- Concrete states of SNACC, snacccore.cc and snaccmodules.cc.
use cube_sim.Accelerator.DoubleBuffer.{DoubleBuffer, exceeds, fetch_half_from_inner, inner}
use cube_sim.Common.{[], arith, false, none, refl, replicate, true, ◌∷◌, ◌≡◌}
use cube_sim.Common.Int.{pos, ◌+ℤ◌}
use cube_sim.Cpu.Alu.{signed32}
use cube_sim.Snacc.Mad
use cube_sim.Snacc.Execute
use cube_sim.Snacc.Mad.{MadUnit, Mems}
use cube_sim.Snacc.Fixed.{plus, plus-saturated}
use cube_sim.Snacc.Core.{Core, decode_imm, if_stage, mem_of, no_stall, opcode, reg_dst, stat_if}
use cube_sim.Snacc.Instructions.{is_plain, pc_after, regs_after}
use cube_sim.Snacc.Conf.{ConfReg, get_flag}
use cube_sim.Snacc.Top.{Snacc, conf_reg, store_place}
use cube_sim.Snacc.Select.{Selected, a_core, no_core, store_place-Selected}
use cube_sim.Snacc.Cycle.{Rests, fetched, is_taken, step-executes, written}
use cube_sim.Common.Bits.{half_of}

-- The instruction Add r1, r2, at the address that `pc` has at first.
abbrev code : DoubleBuffer
code = record {
  extent = 0x800;
  mask = 0xffffffff;
  front = 0 ∷ [];
  back = 0x01220000 ∷ [];
  front_connected = true;
}

abbrev buffer : DoubleBuffer
buffer = record code { back = 0 ∷ [] }

abbrev buffers : Mems
buffers = record {
  dmem_u = buffer;
  dmem_l = buffer;
  rbuf_u = buffer;
  rbuf_l = buffer;
  lut = buffer;
  imem = code;
  wbuf = buffer;
}

abbrev idle_unit : MadUnit
idle_unit = record {
  state = Mad.idle;
  next_state = Mad.idle;
  mode = 0;
  eight_bit = false;
  loop_count = 0;
  simd_data_width = 0;
  sram_latency = 1;
  wait_data_cycle = 0;
  dmem_step = 0;
  rbuf_step = 0;
  second_lut_done = false;
  data_addr = 0;
  rbuf_addr = 0;
  tr0 = 0;
  tr1 = 0;
  fr0 = 0;
  fr1 = 0;
}

abbrev resting : Core
resting = record {
  core_id = 0;
  regs = 0 ∷ 5 ∷ 7 ∷ replicate 13 0;
  pc = 0;
  halt_issued = false;
  done = false;
  fetch_instr = 0;
  dec_opcode = 0;
  dec_rd = 0;
  dec_rs = 0;
  dec_func = 0;
  dec_imm = 0;
  reg_write = false;
  is_branch = false;
  reg_write_data = 0;
  status = stat_if;
  stall_cause = no_stall;
  access_address = 0;
  access_mem = none;
  mems = buffers;
  mad = idle_unit;
  mad_mode = 0;
  access_mode = 0;
  wbuf_arb_mode = 0;
  fp_pos = 4;
  dmem_step = 0;
  rbuf_step = 0;
  simd_mask = replicate 8 true;
}

opcode_of_add : is_plain (opcode (fetched resting)) ≡ true
unfolding if_stage opcode fetch_half_from_inner exceeds inner half_of
opcode_of_add = refl

resting-Rests : Rests resting
resting-Rests = record {
  at_if = refl;
  not_done = refl;
  no_halt = refl;
  unstalled = refl;
  nothing_written = refl;
  no_branch = refl;
  unit_idle = refl;
  unit_stays = refl;
}

-- The sum of 5 and 7 is written by the four cycles.
step-executes_example :
    Rests (Execute.step 3 (Execute.step 2 (Execute.step 1 (Execute.step 0 resting))))
    × ((Execute.step 3 (Execute.step 2 (Execute.step 1 (Execute.step 0 resting)))).regs
        ≡ regs_after (written resting) (reg_dst (fetched resting)) resting.regs)
    × ((Execute.step 3 (Execute.step 2 (Execute.step 1 (Execute.step 0 resting)))).pc
        ≡ pc_after
            (written resting)
            (is_taken resting)
            (reg_dst (fetched resting))
            (decode_imm (opcode (fetched resting)) (fetched resting))
            0)
step-executes_example = step-executes resting 0 1 2 3 resting-Rests opcode_of_add

-- The greatest number and one more.
plus-saturated_example : signed32 (plus 0x7fffffff 1) ≡ pos 0x7fffffff
unfolding ◌+ℤ◌
plus-saturated_example = plus-saturated 0x7fffffff 1 (omega arith) (omega arith)

abbrev unset : ConfReg
unset = record {
  start = 0;
  done = 0;
  donemask = 0;
  data_db_sel = 0;
  wbuf_db_sel = 0;
  inst_mux_sel = 0;
  lut_mux_sel = 0;
  rbuf_mux_sel = 0;
  data_query = 0;
  rbuf_query = 0;
  data_status = 0;
  rbuf_status = 0;
  dma_done_clear = 0;
  dma_request = 0;
  pending_clr = false ∷ [];
  dma_info = [];
}

-- One core, with no side of a buffer selected.
abbrev one_core : Snacc
one_core = record { cores = resting ∷ []; shared_wbuf = buffer; wbuf_arb = 0; conf = unset }

one_core-Selected : Selected one_core
unfolding mem_of get_flag
one_core-Selected = record {
  data_upper = a_core refl no_core;
  data_lower = a_core refl no_core;
  rbuf_upper = a_core refl no_core;
  rbuf_lower = a_core refl no_core;
  tables = a_core refl no_core;
  code = a_core refl no_core;
}

-- The other side of the data buffers is selected.
store_place-Selected_example : Selected (store_place conf_reg 0x10 1 one_core)
store_place-Selected_example = store_place-Selected conf_reg 0x10 1 one_core one_core-Selected
