-- ===== src/Cpu/Decode/Tables.antt =====
-- The tables of registers of ISA.h.
use cube_sim.Common.{List, [], ◌∷◌}
use cube_sim.Cpu.Decode.{Field, no_entry, no_reg, ra_reg, rd_field, rs_field, rt_field}

unfoldable pub first_src_dec_special_table : List Field
first_src_dec_special_table =
    rt_field ∷ no_reg ∷ rt_field ∷ rt_field ∷ rt_field ∷ no_reg ∷ rt_field ∷ rt_field ∷ rs_field
    ∷ rs_field ∷ no_reg ∷ no_reg ∷ no_reg ∷ no_reg ∷ no_reg ∷ no_reg ∷ no_reg ∷ rd_field ∷ no_reg
    ∷ rd_field ∷ no_reg ∷ no_reg ∷ no_reg ∷ no_reg ∷ rs_field ∷ rs_field ∷ rs_field ∷ rs_field
    ∷ no_reg ∷ no_reg ∷ no_reg ∷ no_reg ∷ rs_field ∷ rs_field ∷ rs_field ∷ rs_field ∷ rs_field
    ∷ rs_field ∷ rs_field ∷ rs_field ∷ no_reg ∷ no_reg ∷ rs_field ∷ rs_field ∷ no_reg ∷ no_reg
    ∷ no_reg ∷ no_reg ∷ no_reg ∷ no_reg ∷ no_reg ∷ no_reg ∷ no_reg ∷ no_reg ∷ no_reg ∷ no_reg
    ∷ no_reg ∷ no_reg ∷ no_reg ∷ no_reg ∷ no_reg ∷ no_reg ∷ no_reg ∷ no_reg ∷ []

unfoldable pub first_src_dec_bcond_table : List Field
first_src_dec_bcond_table =
    rs_field ∷ rs_field ∷ no_reg ∷ no_reg ∷ no_reg ∷ no_reg ∷ no_reg ∷ no_reg ∷ no_reg ∷ no_reg
    ∷ no_reg ∷ no_reg ∷ no_reg ∷ no_reg ∷ no_reg ∷ no_reg ∷ rs_field ∷ rs_field ∷ no_reg ∷ no_reg
    ∷ no_reg ∷ no_reg ∷ no_reg ∷ no_reg ∷ no_reg ∷ no_reg ∷ no_reg ∷ no_reg ∷ no_reg ∷ no_reg
    ∷ no_reg ∷ no_reg ∷ []

unfoldable pub first_src_dec_table : List Field
first_src_dec_table =
    no_entry ∷ no_entry ∷ no_reg ∷ no_reg ∷ rs_field ∷ rs_field ∷ rs_field ∷ rs_field ∷ rs_field
    ∷ rs_field ∷ rs_field ∷ rs_field ∷ rs_field ∷ rs_field ∷ rs_field ∷ no_reg ∷ no_entry ∷ no_entry
    ∷ no_entry ∷ no_entry ∷ no_reg ∷ no_reg ∷ no_reg ∷ no_reg ∷ no_reg ∷ no_reg ∷ no_reg ∷ no_reg
    ∷ no_reg ∷ no_reg ∷ no_reg ∷ no_reg ∷ rs_field ∷ rs_field ∷ rs_field ∷ rs_field ∷ rs_field
    ∷ rs_field ∷ rs_field ∷ no_reg ∷ rs_field ∷ rs_field ∷ rs_field ∷ rs_field ∷ no_reg ∷ no_reg
    ∷ rs_field ∷ rs_field ∷ no_reg ∷ no_reg ∷ no_reg ∷ no_reg ∷ no_reg ∷ no_reg ∷ no_reg ∷ no_reg
    ∷ no_reg ∷ no_reg ∷ no_reg ∷ no_reg ∷ no_reg ∷ no_reg ∷ no_reg ∷ no_reg ∷ []

unfoldable pub second_src_dec_special_table : List Field
second_src_dec_special_table =
    no_reg ∷ no_reg ∷ no_reg ∷ no_reg ∷ rs_field ∷ no_reg ∷ rs_field ∷ rs_field ∷ no_reg ∷ no_reg
    ∷ no_reg ∷ no_reg ∷ no_reg ∷ no_reg ∷ no_reg ∷ no_reg ∷ no_reg ∷ no_reg ∷ no_reg ∷ no_reg
    ∷ no_reg ∷ no_reg ∷ no_reg ∷ no_reg ∷ rt_field ∷ rt_field ∷ rt_field ∷ rt_field ∷ no_reg
    ∷ no_reg ∷ no_reg ∷ no_reg ∷ rt_field ∷ rt_field ∷ rt_field ∷ rt_field ∷ rt_field ∷ rt_field
    ∷ rt_field ∷ rt_field ∷ no_reg ∷ no_reg ∷ rt_field ∷ rt_field ∷ no_reg ∷ no_reg ∷ no_reg
    ∷ no_reg ∷ no_reg ∷ no_reg ∷ no_reg ∷ no_reg ∷ no_reg ∷ no_reg ∷ no_reg ∷ no_reg ∷ no_reg
    ∷ no_reg ∷ no_reg ∷ no_reg ∷ no_reg ∷ no_reg ∷ no_reg ∷ no_reg ∷ []

unfoldable pub second_src_dec_table : List Field
second_src_dec_table =
    no_entry ∷ no_reg ∷ no_reg ∷ no_reg ∷ rt_field ∷ rt_field ∷ no_reg ∷ no_reg ∷ no_reg ∷ no_reg
    ∷ no_reg ∷ no_reg ∷ no_reg ∷ no_reg ∷ no_reg ∷ no_reg ∷ no_reg ∷ no_reg ∷ no_reg ∷ no_reg
    ∷ no_reg ∷ no_reg ∷ no_reg ∷ no_reg ∷ no_reg ∷ no_reg ∷ no_reg ∷ no_reg ∷ no_reg ∷ no_reg
    ∷ no_reg ∷ no_reg ∷ no_reg ∷ no_reg ∷ no_reg ∷ no_reg ∷ no_reg ∷ no_reg ∷ no_reg ∷ no_reg
    ∷ no_reg ∷ no_reg ∷ no_reg ∷ no_reg ∷ no_reg ∷ no_reg ∷ no_reg ∷ no_reg ∷ no_reg ∷ no_reg
    ∷ no_reg ∷ no_reg ∷ no_reg ∷ no_reg ∷ no_reg ∷ no_reg ∷ no_reg ∷ no_reg ∷ no_reg ∷ no_reg
    ∷ no_reg ∷ no_reg ∷ no_reg ∷ no_reg ∷ []

unfoldable pub dst_dec_special_table : List Field
dst_dec_special_table =
    rd_field ∷ no_reg ∷ rd_field ∷ rd_field ∷ rd_field ∷ no_reg ∷ rd_field ∷ rd_field ∷ no_reg
    ∷ ra_reg ∷ no_reg ∷ no_reg ∷ no_reg ∷ no_reg ∷ no_reg ∷ no_reg ∷ rd_field ∷ no_reg ∷ rd_field
    ∷ no_reg ∷ no_reg ∷ no_reg ∷ no_reg ∷ no_reg ∷ no_reg ∷ no_reg ∷ no_reg ∷ no_reg ∷ no_reg
    ∷ no_reg ∷ no_reg ∷ no_reg ∷ rd_field ∷ rd_field ∷ rd_field ∷ rd_field ∷ rd_field ∷ rd_field
    ∷ rd_field ∷ rd_field ∷ no_reg ∷ no_reg ∷ rd_field ∷ rd_field ∷ no_reg ∷ no_reg ∷ no_reg
    ∷ no_reg ∷ no_reg ∷ no_reg ∷ no_reg ∷ no_reg ∷ no_reg ∷ no_reg ∷ no_reg ∷ no_reg ∷ no_reg
    ∷ no_reg ∷ no_reg ∷ no_reg ∷ no_reg ∷ no_reg ∷ no_reg ∷ no_reg ∷ []

unfoldable pub dst_dec_table : List Field
dst_dec_table =
    no_entry ∷ no_reg ∷ no_reg ∷ ra_reg ∷ no_reg ∷ no_reg ∷ no_reg ∷ no_reg ∷ rt_field ∷ rt_field
    ∷ rt_field ∷ rt_field ∷ rt_field ∷ rt_field ∷ rt_field ∷ rt_field ∷ no_entry ∷ no_entry
    ∷ no_entry ∷ no_entry ∷ no_reg ∷ no_reg ∷ no_reg ∷ no_reg ∷ no_reg ∷ no_reg ∷ no_reg ∷ no_reg
    ∷ no_reg ∷ no_reg ∷ no_reg ∷ no_reg ∷ rt_field ∷ rt_field ∷ rt_field ∷ rt_field ∷ rt_field
    ∷ rt_field ∷ rt_field ∷ no_reg ∷ no_reg ∷ no_reg ∷ no_reg ∷ no_reg ∷ no_reg ∷ no_reg ∷ no_reg
    ∷ no_reg ∷ no_reg ∷ no_reg ∷ no_reg ∷ no_reg ∷ no_reg ∷ no_reg ∷ no_reg ∷ no_reg ∷ no_reg
    ∷ no_reg ∷ no_reg ∷ no_reg ∷ no_reg ∷ no_reg ∷ no_reg ∷ no_reg ∷ []
