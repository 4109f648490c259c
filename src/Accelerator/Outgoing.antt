-- ===== src/Accelerator/Outgoing.antt =====
-- What a DMA transfer of the network interface of an accelerator, accelerator.cc, is to send, by itself:
-- for each block its head flit and the words at consecutive local addresses, and in the end a notification.
-- The types of the packets, 2 and 7, are MTYPE_BW and MTYPE_DONE of router.h, and the address 1 is
-- DMAC_NOTIF_ADDR of accelerator.h.
use cube_sim.Accelerator.LocalBus
use cube_sim.Common.{
  List, [], ap, arith, false, suc, true, zero, ℕ, ◌*◌, ◌++◌, ◌+◌, ◌-◌, ◌<◌, ◌==◌, ◌∙◌, ◌∷◌, ◌≡◌,
  ◌≤◌,
}
use cube_sim.Common.Bits.{add32}
use cube_sim.Accelerator.Config.{NifConfig, dma_dst_addr, dma_dst_id}
use cube_sim.Accelerator.LocalBus.{Core, LocalBus}
use cube_sim.Accelerator.Nif.{entry}
use cube_sim.Accelerator.Reply.{data_flits, read_words}
use cube_sim.Router.Flit.{FlitEntry, make_data_flit, make_head_flit}

-- The words of a packet, the chip itself, and the chip that is told of the end.
module _ {C : Type 0} (k : Core C) (c : NifConfig) (packet own requester : ℕ) where
  -- How far the block with which `left` blocks are left begins from the first block.
  abbrev pub distance : ℕ → ℕ
  distance left = packet * 4 * (c.dma_len - left)

  abbrev pub source : ℕ → ℕ
  source left = c.dma_src + distance left

  abbrev pub block_head : ℕ → FlitEntry
  block_head left =
      entry
        (make_head_flit (add32 (dma_dst_addr c) (distance left)) 2 c.vc_dma own (dma_dst_id c)
          false)
        c.vc_dma

  abbrev pub end_flit : FlitEntry
  end_flit = entry (make_head_flit 1 7 c.vc_dmadone own requester true) c.vc_dmadone

  -- The flits of `left` blocks and of the notification, where the local bus is `b`.
  unfoldable pub blocks : ℕ → LocalBus C → List FlitEntry
  blocks zero b = end_flit ∷ []
  blocks (suc left) b =
      let w = read_words k (source (suc left)) 0 packet b in
      block_head (suc left) ∷ (data_flits c.vc_dma packet w.1 ++ blocks left w.0)

  -- The same from inside a block that begins at `base`, of which `n` words are left.
  unfoldable pub block_rest : ℕ → ℕ → ℕ → LocalBus C → List FlitEntry
  block_rest base after n b =
      let w = read_words k base (packet - n) n b in data_flits c.vc_dma n w.1 ++ blocks after w.0

  pub block_rest-one :
      (base after n : ℕ) (b : LocalBus C)
      → 0 < n
      → n ≤ packet
      → let r = LocalBus.fetch_word k (add32 base ((packet - n) * 4)) b in
        block_rest base after n b
        ≡ entry (make_data_flit r.1 (n - 1 == 0)) c.vc_dma ∷ block_rest base after (n - 1) r.0
  unfolding block_rest read_words
  block_rest-one base after zero b h p = absurd (omega arith)
  block_rest-one base after (suc n) b h p =
      let r = LocalBus.fetch_word k (add32 base ((packet - suc n) * 4)) b in
      let place : packet - suc n + 1 ≡ packet - (suc n - 1) = omega arith in
      let count : n ≡ suc n - 1 = omega arith in
      ap
        (λ (i : ℕ).
          entry (make_data_flit r.1 (suc n - 1 == 0)) c.vc_dma
          ∷ (data_flits c.vc_dma (suc n - 1) (read_words k base i n r.0).1
              ++ blocks after (read_words k base i n r.0).0))
        place
      ∙ ap
          (λ (m : ℕ).
            entry (make_data_flit r.1 (suc n - 1 == 0)) c.vc_dma
            ∷ (data_flits c.vc_dma (suc n - 1) (read_words k base (packet - (suc n - 1)) m r.0).1
                ++ blocks after (read_words k base (packet - (suc n - 1)) m r.0).0))
          count

  pub blocks-suc :
      (left : ℕ) (b : LocalBus C)
      → 0 < left
      → blocks left b ≡ block_head left ∷ block_rest (source left) (left - 1) packet b
  unfolding blocks block_rest
  blocks-suc zero b h = absurd (omega arith)
  blocks-suc (suc left) b h =
      let first : 0 ≡ packet - packet = omega arith in
      let fewer : left ≡ suc left - 1 = omega arith in
      ap
        (λ (i : ℕ).
          block_head (suc left)
          ∷ (data_flits c.vc_dma packet (read_words k (source (suc left)) i packet b).1
              ++ blocks left (read_words k (source (suc left)) i packet b).0))
        first
      ∙ ap
          (λ (m : ℕ).
            let w = read_words k (source (suc left)) (packet - packet) packet b in
            block_head (suc left) ∷ (data_flits c.vc_dma packet w.1 ++ blocks m w.0))
          fewer
