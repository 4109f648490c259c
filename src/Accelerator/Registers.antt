-- ===== src/Accelerator/Registers.antt =====
-- The registers of the network interface of an accelerator as a program sees them,
-- `NetworkInterfaceConfig` of accelerator.cc.
use cube_sim.Common.{ap, arith, bit_and, bit_or, ℕ, ◌%◌, ◌*◌, ◌+◌, ◌/◌, ◌<◌, ◌^◌, ◌∙◌, ◌≡◌}
use cube_sim.Common.Bits.{bit_and_high, bit_and_low, bit_or_above, shl32, shr}
use cube_sim.Accelerator.Config.{
  NifConfig, dma_dst_addr, dma_dst_id, fetch_word, read_register, register_at, store_word,
  write_register,
}

abbrev packed : ℕ → ℕ → ℕ → ℕ → ℕ
packed a b c d = bit_or (bit_or (bit_or (shl32 a 9) (shl32 b 6)) (shl32 c 3)) d

packed_lem :
    (a b c d : ℕ) → a < 8 → b < 8 → c < 8 → d < 8 → packed a b c d ≡ a * 512 + b * 64 + c * 8 + d
packed_lem a b c d ha hb hc hd =
    let ea : shl32 a 9 ≡ a * 2 ^ 9 = omega arith in
    let eb : shl32 b 6 ≡ b * 64 = omega arith in
    let ec : shl32 c 3 ≡ c * 8 = omega arith in
    let two : bit_or (a * 2 ^ 9) (b * 64) ≡ (a * 8 + b) * 2 ^ 6 =
      bit_or_above 9 a (b * 64) (omega arith) ∙ omega arith in
    let three : bit_or ((a * 8 + b) * 2 ^ 6) (c * 8) ≡ ((a * 8 + b) * 8 + c) * 2 ^ 3 =
      bit_or_above 6 (a * 8 + b) (c * 8) (omega arith) ∙ omega arith in
    ap (λ (x : ℕ). bit_or (bit_or (bit_or x (shl32 b 6)) (shl32 c 3)) d) ea
    ∙ ap (λ (x : ℕ). bit_or (bit_or (bit_or (a * 2 ^ 9) x) (shl32 c 3)) d) eb
    ∙ ap (λ (x : ℕ). bit_or (bit_or x (shl32 c 3)) d) two
    ∙ ap (λ (x : ℕ). bit_or (bit_or ((a * 8 + b) * 2 ^ 6) x) d) ec
    ∙ ap (λ (x : ℕ). bit_or x d) three
    ∙ bit_or_above 3 ((a * 8 + b) * 8 + c) d hd
    ∙ omega arith

field_normal : (w : ℕ) → shr (bit_and w 0xe00) 9 ≡ w / 512 % 8
field_normal w = omega (arith, bit_and_high 9 w 7, bit_and_low 3 (w / 2 ^ 9))

field_dma : (w : ℕ) → shr (bit_and w 0x1c0) 6 ≡ w / 64 % 8
field_dma w = omega (arith, bit_and_high 6 w 7, bit_and_low 3 (w / 2 ^ 6))

field_dmadone : (w : ℕ) → shr (bit_and w 0x38) 3 ≡ w / 8 % 8
field_dmadone w = omega (arith, bit_and_high 3 w 7, bit_and_low 3 (w / 2 ^ 3))

field_done : (w : ℕ) → bit_and w 0x7 ≡ w % 8
field_done w = bit_and_low 3 w

-- What is read back after a write of `w`.
pub record NifReads (w : ℕ) (c : NifConfig) : Type 0 where
  pub vc_list : fetch_word 0x400 (store_word 0x400 w c) ≡ w % 2 ^ 12
  pub dst : fetch_word 0x100 (store_word 0x100 w c) ≡ w % 2 ^ 24
  pub src : fetch_word 0x200 (store_word 0x200 w c) ≡ w % 2 ^ 22
  pub len : fetch_word 0x300 (store_word 0x300 w c) ≡ w % 2 ^ 4
  pub dst_addr : dma_dst_addr (store_word 0x100 w c) ≡ w % 2 ^ 22
  pub dst_id : dma_dst_id (store_word 0x100 w c) ≡ w / 2 ^ 22 % 4

vc_list_back : (w : ℕ) (c : NifConfig) → fetch_word 0x400 (store_word 0x400 w c) ≡ w % 2 ^ 12
unfolding fetch_word store_word register_at read_register write_register
vc_list_back w c =
    packed_lem (shr (bit_and w 0xe00) 9) (shr (bit_and w 0x1c0) 6) (shr (bit_and w 0x38) 3)
      (bit_and w 0x7) (omega (arith, field_normal w)) (omega (arith, field_dma w))
      (omega (arith, field_dmadone w)) (omega (arith, field_done w))
    ∙ omega (arith, field_normal w, field_dma w, field_dmadone w, field_done w)

-- A register reads back as what was written, cut to its width: twelve bits for the list of the four
-- virtual channels, which are packed into one word, 24 for the destination of a DMA transfer, 22 for
-- its source, and four for its length. The destination is the address of the low 22 bits at the
-- chip that the next two bits name.
pub NifReads-store_word : (w : ℕ) (c : NifConfig) → NifReads w c
unfolding fetch_word store_word register_at read_register write_register dma_dst_addr dma_dst_id
NifReads-store_word w c = record {
  vc_list = vc_list_back w c;
  dst = bit_and_low 24 w;
  src = bit_and_low 22 w;
  len = bit_and_low 4 w;
  dst_addr = bit_and_low 22 (bit_and w 0xffffff) ∙ omega (arith, bit_and_low 24 w);
  dst_id = omega (arith, bit_and_low 24 w);
}
