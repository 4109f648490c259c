-- ===== src/Accelerator/Config.antt =====
-- `NetworkInterfaceConfig`, accelerator.h and accelerator.cc: the registers of the network interface
-- of an accelerator, by the offsets of accelerator.h.
use cube_sim.Common.{Bool, bit_and, bit_or, false, if◌then◌else◌, true, ℕ, ◌&&◌, ◌==◌}
use cube_sim.Common.Bits.{shl32, shr}

pub record NifConfig : Type 0 where
  pub dma_dst : ℕ
  pub dma_src : ℕ
  pub dma_len : ℕ
  pub vc_normal : ℕ
  pub vc_dma : ℕ
  pub vc_dmadone : ℕ
  pub vc_done : ℕ
  pub dma_kicked : Bool
  pub dma_en : Bool

unfoldable pub clear_reg : NifConfig → NifConfig
clear_reg c = record {
  dma_dst = 0;
  dma_src = 0;
  dma_len = 0;
  vc_normal = 0;
  vc_dma = 0;
  vc_dmadone = 0;
  vc_done = 0;
  dma_kicked = false;
  dma_en = c.dma_en;
}

-- LOCAL_MEMA_MASK and LOCAL_MEMA_MSB cut the destination into an address and a chip.
unfoldable pub dma_dst_addr : NifConfig → ℕ
dma_dst_addr c = bit_and c.dma_dst 0x3fffff

unfoldable pub dma_dst_id : NifConfig → ℕ
dma_dst_id c = shr c.dma_dst 22

unfoldable pub is_dma_kicked : NifConfig → Bool
is_dma_kicked c = c.dma_kicked && c.dma_en

unfoldable pub clear_dma_kicked : NifConfig → NifConfig
clear_dma_kicked c = record c { dma_kicked = false }

pub data Register : Type 0 where
  dma_kick_offset dma_dst_offset dma_src_offset dma_len_offset vc_list_offset other_offset :
      Register

unfoldable pub register_at : ℕ → Register
register_at o =
    if o == 0x0
    then dma_kick_offset
    else (if o == 0x100
        then dma_dst_offset
        else (if o == 0x200
            then dma_src_offset
            else (if o == 0x300
                then dma_len_offset
                else (if o == 0x400 then vc_list_offset else other_offset))))

unfoldable pub read_register : Register → NifConfig → ℕ
read_register dma_kick_offset c = 0
read_register dma_dst_offset c = c.dma_dst
read_register dma_src_offset c = c.dma_src
read_register dma_len_offset c = c.dma_len
read_register vc_list_offset c =
    bit_or (bit_or (bit_or (shl32 c.vc_normal 9) (shl32 c.vc_dma 6)) (shl32 c.vc_dmadone 3))
      c.vc_done
read_register other_offset c = 0xffffffff

unfoldable pub write_register : Register → ℕ → NifConfig → NifConfig
write_register dma_kick_offset w c = record c { dma_kicked = true }
write_register dma_dst_offset w c = record c { dma_dst = bit_and w 0xffffff }
write_register dma_src_offset w c = record c { dma_src = bit_and w 0x3fffff }
write_register dma_len_offset w c = record c { dma_len = bit_and w 0xf }
write_register vc_list_offset w c = record c {
  vc_normal = shr (bit_and w 0xe00) 9;
  vc_dma = shr (bit_and w 0x1c0) 6;
  vc_dmadone = shr (bit_and w 0x38) 3;
  vc_done = bit_and w 0x7;
}
write_register other_offset w c = c

unfoldable pub fetch_word : ℕ → NifConfig → ℕ
unfolding register_at read_register
fetch_word offset c = read_register (register_at offset) c

unfoldable pub store_word : ℕ → ℕ → NifConfig → NifConfig
unfolding register_at write_register
store_word offset w c = write_register (register_at offset) w c
