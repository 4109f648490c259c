-- ===== src/Cpu/Forward.antt =====
-- The operands of an instruction in the decode stage, `pre_decode` of cpu.cc: from the register file
-- or, while an older instruction has not written its register yet, from that instruction.
pub mod Order
use cube_sim.Common.{Bool, List, if◌then◌else◌, not, set, ℕ, ◌&&◌, ◌==◌, ◌||◌}
use cube_sim.Cpu.Decode.{none_reg}

-- What the decode stage sees of an older instruction: its destination, NONE_REG for none, and whether
-- it is a load.
pub record InFlight : Type 0 where
  pub dst : ℕ
  pub mem_read_op : Bool

-- A pointer to a register or to the result of an older instruction.
pub data Source : Type 0 where
  of_reg : ℕ → Source
  of_ex of_mem of_wb : Source

-- The older instructions, in the stages EX, MEM and WB.
pub record Stages : Type 0 where
  pub ex : InFlight
  pub mem : InFlight
  pub wb : InFlight

-- `alu_src_a` and `alu_src_b`, for a register that is read.
unfoldable pub forward : ℕ → Stages → Source
forward src s =
    if src == s.ex.dst
    then of_ex
    else (if src == s.mem.dst then of_mem else (if src == s.wb.dst then of_wb else of_reg src))

-- The operands wait for a load that is one instruction ahead.
unfoldable pub waits_for : ℕ → Stages → Bool
waits_for src s = not (src == none_reg) && src == s.ex.dst && s.ex.mem_read_op

unfoldable pub data_hazard : ℕ → ℕ → Stages → Bool
unfolding waits_for
data_hazard src_a src_b s = waits_for src_a s || waits_for src_b s

-- `w_mem_data` of a store, and `lwrl_reg_prev` of LWL and LWR: a pointer that is followed two cycles
-- later, when the instructions of MEM and WB have written their registers.
unfoldable pub forward_late : ℕ → Stages → Source
forward_late r s = if r == s.ex.dst then of_ex else of_reg r

-- `reg_commit` of an instruction with its result.
unfoldable pub reg_commit : InFlight → ℕ → List ℕ → List ℕ
reg_commit p result reg = if p.dst == none_reg then reg else set reg p.dst result
