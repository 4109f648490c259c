-- ===== src/Cpu/Decode/Operands.antt =====
-- The choices of `pre_decode` in cpu.cc: what is reserved, which registers are read and written, and
-- the immediate values.
use cube_sim.Common.{Bool, List, false, get_or, if◌then◌else◌, leb, ℕ, ◌&&◌, ◌==◌, ◌||◌}
use cube_sim.Cpu.Decode.{
  Field, decode_field, funct, immed, no_entry, none_reg, opcode, ra, rs, rt, s_immed, shamt,
}
use cube_sim.Cpu.Decode.Tables.{
  dst_dec_special_table, dst_dec_table, first_src_dec_bcond_table, first_src_dec_special_table,
  first_src_dec_table, second_src_dec_special_table, second_src_dec_table,
}
use cube_sim.Cpu.Decode.Flags.{
  imm_flag, ri_cache_op_flag, ri_flag, ri_special_flag, s_imm_flag, shamt_flag,
}

-- The opcodes of ISA.h that the stages test.
abbrev pub op_special : ℕ
op_special = 0

abbrev pub op_bcond : ℕ
op_bcond = 1

abbrev pub op_cache : ℕ
op_cache = 47

abbrev pub is_cop : ℕ → Bool
is_cop op = leb 16 op && leb op 19

abbrev flag : List Bool → ℕ → Bool
flag t i = get_or t i false

abbrev pub by_table : List Field → ℕ → ℕ → ℕ
by_table t k i = decode_field (get_or t k no_entry) i

-- Whether the exception RI is raised, and the instruction replaced by a nop.
unfoldable pub is_reserved : ℕ → Bool
is_reserved i =
    if opcode i == op_special
    then flag ri_special_flag (funct i)
    else (if opcode i == op_cache
        then flag ri_cache_op_flag (rt i) || flag ri_flag (opcode i)
        else flag ri_flag (opcode i))

unfoldable pub src_a : ℕ → ℕ
src_a i =
    if opcode i == op_special
    then by_table first_src_dec_special_table (funct i) i
    else (if opcode i == op_bcond
        then by_table first_src_dec_bcond_table (rt i) i
        else (if is_cop (opcode i)
            then (if rs i == 4 then rt i else none_reg)
            else by_table first_src_dec_table (opcode i) i))

unfoldable pub src_b : ℕ → ℕ
src_b i =
    if opcode i == op_special
    then by_table second_src_dec_special_table (funct i) i
    else by_table second_src_dec_table (opcode i) i

abbrev pub dst_field : ℕ → ℕ
dst_field i =
    if opcode i == op_special
    then by_table dst_dec_special_table (funct i) i
    else (if is_cop (opcode i)
        then (if rs i == 0 then rt i else none_reg)
        else (if opcode i == op_bcond
            then (if rt i == 16 || rt i == 17 then ra else none_reg)
            else by_table dst_dec_table (opcode i) i))

-- The destination that `pre_decode` leaves; for instructions of coprocessors 0 and 1, `mfc0_emulate` and
-- `cpone_exec` set another one afterwards.
unfoldable pub dst : ℕ → ℕ
dst i = if dst_field i == 0 then none_reg else dst_field i

-- `preg->shamt` and `preg->imm`, which are 0 where nothing is written.
unfoldable pub shamt_value : ℕ → ℕ
shamt_value i = if opcode i == op_special && flag shamt_flag (funct i) then shamt i else 0

unfoldable pub imm_value : ℕ → ℕ
imm_value i =
    if opcode i == op_special
    then 0
    else (if flag imm_flag (opcode i)
        then immed i
        else (if flag s_imm_flag (opcode i) then s_immed i else 0))
