-- ===== src/Snacc/Select.antt =====
-- The connected sides of the buffers of SNACC against the registers that select them, `dbuf_switch` and
-- `ConfRegCtrl::store_word` of snaccmodules.cc.
use cube_sim.Accelerator.DoubleBuffer
use cube_sim.Accelerator.DoubleBuffer.{DoubleBuffer}
use cube_sim.Common.{
  Bool, List, Option, [], ap, arith, bit_xor, false, get_elem?, if◌then◌else◌, length, map, none,
  not, refl, set, some, suc, sym, true, zero, ℕ, ◌%◌, ◌+◌, ◌==◌, ◌^◌, ◌∙◌, ◌∷◌, ◌≡◌,
}
use cube_sim.Common.Bits.{bit_xor_at}
use cube_sim.Snacc.Mad.{Mems}
use cube_sim.Snacc.Top.{
  Place, Register, Snacc, bcast, bcast_store, conf_ddbsel, conf_dmadone_clr, conf_done,
  conf_doneclr, conf_donemask, conf_dstat, conf_imuxsel, conf_lmuxsel, conf_none, conf_rbmuxsel,
  conf_rbstat, conf_reg, conf_start, conf_wdbsel, own, register_at, shared, store_conf, store_in,
  store_place, store_register,
}
use cube_sim.Snacc.Conf.{dbuf_switch, get_flag, switch}
use cube_sim.Snacc.Core.{
  Core, MemId, dmem_l, dmem_u, imem, lut, mem_of, rbuf_l, rbuf_u, wbuf, with_mem,
}

mem_of-with_mem : (m : MemId) (b : DoubleBuffer) (s : Mems) → mem_of m (with_mem m b s) ≡ b
unfolding mem_of with_mem
mem_of-with_mem dmem_u b s = refl
mem_of-with_mem dmem_l b s = refl
mem_of-with_mem rbuf_u b s = refl
mem_of-with_mem rbuf_l b s = refl
mem_of-with_mem lut b s = refl
mem_of-with_mem imem b s = refl
mem_of-with_mem wbuf b s = refl

-- The buffers `m` of cores, from core `i` on, show the sides that the bits of `w` select.
pub data Shown (m : MemId) (w : ℕ) : ℕ → List Core → Type 0 where
  no_core : {i : ℕ} → Shown m w i []
  a_core :
      {i : ℕ} {c : Core} {cs : List Core}
      → (mem_of m c.mems).front_connected ≡ not (get_flag w i)
      → Shown m w (i + 1) cs
      → Shown m w i (c ∷ cs)

get_flag-bit_xor :
    (a b i : ℕ)
    → get_flag (bit_xor a b) i ≡ (if get_flag a i then not (get_flag b i) else get_flag b i)
unfolding get_flag
get_flag-bit_xor a b i = ground (arith, bit_xor_at i a b)

switch_shows :
    (f g h : Bool) (shown : Bool)
    → f ≡ (if g then not h else h)
    → shown ≡ not g
    → (if f then not shown else shown) ≡ not h
switch_shows f g h shown p q = ground arith

switch-front :
    (m : MemId) (c : Core) (f : Bool)
    → (mem_of m (if f then switch m c else c).mems).front_connected
      ≡ (if f then not (mem_of m c.mems).front_connected else (mem_of m c.mems).front_connected)
unfolding DoubleBuffer.buf_switch
switch-front m c true =
    ap (λ (b : DoubleBuffer). b.front_connected)
      (mem_of-with_mem m (DoubleBuffer.buf_switch (mem_of m c.mems)) c.mems)
switch-front m c false = refl

dbuf_switch-Shown :
    (m : MemId) (a b i : ℕ) (cs : List Core)
    → Shown m a i cs
    → Shown m b i (dbuf_switch m i (bit_xor a b) cs)
unfolding dbuf_switch
dbuf_switch-Shown m a b i [] h = no_core
dbuf_switch-Shown m a b i (c ∷ cs) (a_core h hs) =
    a_core
      (switch-front m c (get_flag (bit_xor a b) i)
        ∙ switch_shows (get_flag (bit_xor a b) i) (get_flag a i) (get_flag b i)
            (mem_of m c.mems).front_connected (get_flag-bit_xor a b i) h)
      (dbuf_switch-Shown m a b (i + 1) cs hs)

same_mem : MemId → MemId → Bool
same_mem m n = place m == place n
  where
    place : MemId → ℕ
    place dmem_u = 0
    place dmem_l = 1
    place rbuf_u = 2
    place rbuf_l = 3
    place lut = 4
    place imem = 5
    place wbuf = 6

mem_of-with_other :
    (m n : MemId) (b : DoubleBuffer) (s : Mems)
    → same_mem m n ≡ false
    → mem_of m (with_mem n b s) ≡ mem_of m s
unfolding same_mem mem_of with_mem
mem_of-with_other m n b s h = ground arith

switch-other :
    (m n : MemId) (c : Core) (f : Bool)
    → same_mem m n ≡ false
    → mem_of m (if f then switch n c else c).mems ≡ mem_of m c.mems
switch-other m n c true h =
    mem_of-with_other m n (DoubleBuffer.buf_switch (mem_of n c.mems)) c.mems h
switch-other m n c false h = refl

dbuf_switch-other :
    (m n : MemId) (w x i : ℕ) (cs : List Core)
    → same_mem m n ≡ false
    → Shown m w i cs
    → Shown m w i (dbuf_switch n i x cs)
unfolding dbuf_switch
dbuf_switch-other m n w x i [] d h = no_core
dbuf_switch-other m n w x i (c ∷ cs) d (a_core h hs) =
    a_core (ap (λ (b : DoubleBuffer). b.front_connected) (switch-other m n c (get_flag x i) d) ∙ h)
      (dbuf_switch-other m n w x (i + 1) cs d hs)

-- What the selecting registers say is what the buffers of all cores show.
pub record Selected (s : Snacc) : Type 0 where
  pub data_upper : Shown dmem_u s.conf.data_db_sel 0 s.cores
  pub data_lower : Shown dmem_l s.conf.data_db_sel 0 s.cores
  pub rbuf_upper : Shown rbuf_u s.conf.rbuf_mux_sel 0 s.cores
  pub rbuf_lower : Shown rbuf_l s.conf.rbuf_mux_sel 0 s.cores
  pub tables : Shown lut s.conf.lut_mux_sel 0 s.cores
  pub code : Shown imem s.conf.inst_mux_sel 0 s.cores

store_register-Selected :
    (r : Register) (w : ℕ) (s : Snacc) → Selected s → Selected (store_register r w s)
unfolding store_register same_mem
store_register-Selected conf_start w s h = record {
  data_upper = h.data_upper;
  data_lower = h.data_lower;
  rbuf_upper = h.rbuf_upper;
  rbuf_lower = h.rbuf_lower;
  tables = h.tables;
  code = h.code;
}
store_register-Selected conf_done w s h = record {
  data_upper = h.data_upper;
  data_lower = h.data_lower;
  rbuf_upper = h.rbuf_upper;
  rbuf_lower = h.rbuf_lower;
  tables = h.tables;
  code = h.code;
}
store_register-Selected conf_donemask w s h = record {
  data_upper = h.data_upper;
  data_lower = h.data_lower;
  rbuf_upper = h.rbuf_upper;
  rbuf_lower = h.rbuf_lower;
  tables = h.tables;
  code = h.code;
}
store_register-Selected conf_doneclr w s h = record {
  data_upper = h.data_upper;
  data_lower = h.data_lower;
  rbuf_upper = h.rbuf_upper;
  rbuf_lower = h.rbuf_lower;
  tables = h.tables;
  code = h.code;
}
store_register-Selected conf_wdbsel w s h = record {
  data_upper = h.data_upper;
  data_lower = h.data_lower;
  rbuf_upper = h.rbuf_upper;
  rbuf_lower = h.rbuf_lower;
  tables = h.tables;
  code = h.code;
}
store_register-Selected conf_dstat w s h = record {
  data_upper = h.data_upper;
  data_lower = h.data_lower;
  rbuf_upper = h.rbuf_upper;
  rbuf_lower = h.rbuf_lower;
  tables = h.tables;
  code = h.code;
}
store_register-Selected conf_rbstat w s h = record {
  data_upper = h.data_upper;
  data_lower = h.data_lower;
  rbuf_upper = h.rbuf_upper;
  rbuf_lower = h.rbuf_lower;
  tables = h.tables;
  code = h.code;
}
store_register-Selected conf_dmadone_clr w s h = record {
  data_upper = h.data_upper;
  data_lower = h.data_lower;
  rbuf_upper = h.rbuf_upper;
  rbuf_lower = h.rbuf_lower;
  tables = h.tables;
  code = h.code;
}
store_register-Selected conf_none w s h = record {
  data_upper = h.data_upper;
  data_lower = h.data_lower;
  rbuf_upper = h.rbuf_upper;
  rbuf_lower = h.rbuf_lower;
  tables = h.tables;
  code = h.code;
}
store_register-Selected conf_ddbsel w s h =
    let x = bit_xor s.conf.data_db_sel w in
    record {
      data_upper =
          dbuf_switch-other dmem_u dmem_l w x 0 (dbuf_switch dmem_u 0 x (s.cores)) refl
            (dbuf_switch-Shown dmem_u s.conf.data_db_sel w 0 (s.cores) (h.data_upper));
      data_lower =
          dbuf_switch-Shown dmem_l s.conf.data_db_sel w 0 (dbuf_switch dmem_u 0 x (s.cores))
            (dbuf_switch-other dmem_l dmem_u s.conf.data_db_sel x 0 (s.cores) refl (h.data_lower));
      rbuf_upper =
          dbuf_switch-other rbuf_u dmem_l s.conf.rbuf_mux_sel x 0 (dbuf_switch dmem_u 0 x (s.cores))
            refl
            (dbuf_switch-other rbuf_u dmem_u s.conf.rbuf_mux_sel x 0 (s.cores) refl (h.rbuf_upper));
      rbuf_lower =
          dbuf_switch-other rbuf_l dmem_l s.conf.rbuf_mux_sel x 0 (dbuf_switch dmem_u 0 x (s.cores))
            refl
            (dbuf_switch-other rbuf_l dmem_u s.conf.rbuf_mux_sel x 0 (s.cores) refl (h.rbuf_lower));
      tables =
          dbuf_switch-other lut dmem_l s.conf.lut_mux_sel x 0 (dbuf_switch dmem_u 0 x (s.cores))
            refl (dbuf_switch-other lut dmem_u s.conf.lut_mux_sel x 0 (s.cores) refl (h.tables));
      code =
          dbuf_switch-other imem dmem_l s.conf.inst_mux_sel x 0 (dbuf_switch dmem_u 0 x (s.cores))
            refl (dbuf_switch-other imem dmem_u s.conf.inst_mux_sel x 0 (s.cores) refl (h.code));
    }
store_register-Selected conf_imuxsel w s h =
    let x = bit_xor s.conf.inst_mux_sel w in
    record {
      data_upper =
          dbuf_switch-other dmem_u imem s.conf.data_db_sel x 0 (s.cores) refl (h.data_upper);
      data_lower =
          dbuf_switch-other dmem_l imem s.conf.data_db_sel x 0 (s.cores) refl (h.data_lower);
      rbuf_upper =
          dbuf_switch-other rbuf_u imem s.conf.rbuf_mux_sel x 0 (s.cores) refl (h.rbuf_upper);
      rbuf_lower =
          dbuf_switch-other rbuf_l imem s.conf.rbuf_mux_sel x 0 (s.cores) refl (h.rbuf_lower);
      tables = dbuf_switch-other lut imem s.conf.lut_mux_sel x 0 (s.cores) refl (h.tables);
      code = dbuf_switch-Shown imem s.conf.inst_mux_sel w 0 (s.cores) (h.code);
    }
store_register-Selected conf_lmuxsel w s h =
    let x = bit_xor s.conf.lut_mux_sel w in
    record {
      data_upper =
          dbuf_switch-other dmem_u lut s.conf.data_db_sel x 0 (s.cores) refl (h.data_upper);
      data_lower =
          dbuf_switch-other dmem_l lut s.conf.data_db_sel x 0 (s.cores) refl (h.data_lower);
      rbuf_upper =
          dbuf_switch-other rbuf_u lut s.conf.rbuf_mux_sel x 0 (s.cores) refl (h.rbuf_upper);
      rbuf_lower =
          dbuf_switch-other rbuf_l lut s.conf.rbuf_mux_sel x 0 (s.cores) refl (h.rbuf_lower);
      tables = dbuf_switch-Shown lut s.conf.lut_mux_sel w 0 (s.cores) (h.tables);
      code = dbuf_switch-other imem lut s.conf.inst_mux_sel x 0 (s.cores) refl (h.code);
    }
store_register-Selected conf_rbmuxsel w s h =
    let x = bit_xor s.conf.rbuf_mux_sel w in
    record {
      data_upper =
          dbuf_switch-other dmem_u rbuf_l s.conf.data_db_sel x 0 (dbuf_switch rbuf_u 0 x (s.cores))
            refl
            (dbuf_switch-other dmem_u rbuf_u s.conf.data_db_sel x 0 (s.cores) refl (h.data_upper));
      data_lower =
          dbuf_switch-other dmem_l rbuf_l s.conf.data_db_sel x 0 (dbuf_switch rbuf_u 0 x (s.cores))
            refl
            (dbuf_switch-other dmem_l rbuf_u s.conf.data_db_sel x 0 (s.cores) refl (h.data_lower));
      rbuf_upper =
          dbuf_switch-other rbuf_u rbuf_l w x 0 (dbuf_switch rbuf_u 0 x (s.cores)) refl
            (dbuf_switch-Shown rbuf_u s.conf.rbuf_mux_sel w 0 (s.cores) (h.rbuf_upper));
      rbuf_lower =
          dbuf_switch-Shown rbuf_l s.conf.rbuf_mux_sel w 0 (dbuf_switch rbuf_u 0 x (s.cores))
            (dbuf_switch-other rbuf_l rbuf_u s.conf.rbuf_mux_sel x 0 (s.cores) refl (h.rbuf_lower));
      tables =
          dbuf_switch-other lut rbuf_l s.conf.lut_mux_sel x 0 (dbuf_switch rbuf_u 0 x (s.cores))
            refl (dbuf_switch-other lut rbuf_u s.conf.lut_mux_sel x 0 (s.cores) refl (h.tables));
      code =
          dbuf_switch-other imem rbuf_l s.conf.inst_mux_sel x 0 (dbuf_switch rbuf_u 0 x (s.cores))
            refl (dbuf_switch-other imem rbuf_u s.conf.inst_mux_sel x 0 (s.cores) refl (h.code));
    }

store_conf-Selected : (offset w : ℕ) (s : Snacc) → Selected s → Selected (store_conf offset w s)
unfolding store_conf
store_conf-Selected offset w s h =
    store_register-Selected (register_at offset) (w % 2 ^ length s.cores) s h

with_mem-front :
    (m n : MemId) (b : DoubleBuffer) (s : Mems)
    → b.front_connected ≡ (mem_of n s).front_connected
    → (mem_of m (with_mem n b s)).front_connected ≡ (mem_of m s).front_connected
unfolding mem_of with_mem
with_mem-front m n b s h = ground arith

store_word-front :
    (offset w : ℕ) (b : DoubleBuffer)
    → (DoubleBuffer.store_word offset w b).front_connected ≡ b.front_connected
unfolding DoubleBuffer.store_word DoubleBuffer.with_outer
store_word-front offset w b = ground arith

store_in-front :
    (m n : MemId) (offset w : ℕ) (c : Core)
    → (mem_of m (store_in n offset w c).mems).front_connected ≡ (mem_of m c.mems).front_connected
unfolding store_in
store_in-front m n offset w c =
    with_mem-front m n (DoubleBuffer.store_word offset w (mem_of n c.mems)) c.mems
      (store_word-front offset w (mem_of n c.mems))

map-Shown :
    (m n : MemId) (v offset w i : ℕ) (cs : List Core)
    → Shown m v i cs
    → Shown m v i (map (store_in n offset w) cs)
map-Shown m n v offset w i [] h = no_core
map-Shown m n v offset w i (c ∷ cs) (a_core h hs) =
    a_core (store_in-front m n offset w c ∙ h) (map-Shown m n v offset w (i + 1) cs hs)

front_of : MemId → Option Core → Bool
front_of m none = false
front_of m (some c) = (mem_of m c.mems).front_connected

set-Shown :
    (m : MemId) (v i j : ℕ) (cs : List Core) (c d : Core)
    → get_elem? cs j ≡ some c
    → (mem_of m d.mems).front_connected ≡ (mem_of m c.mems).front_connected
    → Shown m v i cs
    → Shown m v i (set cs j d)
unfolding front_of
set-Shown m v i j [] c d e f h = no_core
set-Shown m v i zero (b ∷ cs) c d e f (a_core h hs) = a_core (f ∙ (ap (front_of m) (sym e) ∙ h)) hs
set-Shown m v i (suc j) (b ∷ cs) c d e f (a_core h hs) =
    a_core h (set-Shown m v (i + 1) j cs c d e f hs)

own-Selected :
    (j : ℕ) (n : MemId) (offset w : ℕ) (s : Snacc) (o : Option Core)
    → get_elem? s.cores j ≡ o
    → Selected s
    → Selected
        (elim o [ none ↦ s | some c ↦ record s { cores = set s.cores j (store_in n offset w c) } ])
own-Selected j n offset w s none e h = h
own-Selected j n offset w s (some c) e h =
    let keeps = λ (m : MemId) (v : ℕ).
      set-Shown m v 0 j s.cores c (store_in n offset w c) e (store_in-front m n offset w c) in
    record {
      data_upper = keeps dmem_u s.conf.data_db_sel h.data_upper;
      data_lower = keeps dmem_l s.conf.data_db_sel h.data_lower;
      rbuf_upper = keeps rbuf_u s.conf.rbuf_mux_sel h.rbuf_upper;
      rbuf_lower = keeps rbuf_l s.conf.rbuf_mux_sel h.rbuf_lower;
      tables = keeps lut s.conf.lut_mux_sel h.tables;
      code = keeps imem s.conf.inst_mux_sel h.code;
    }

-- Every store on the local bus of SNACC, into a buffer of one core or of all, the shared buffer or a
-- configuration register, leaves the buffers of all cores showing the sides that the bits of the selecting
-- registers say, if they did before it.
pub store_place-Selected :
    (p : Place) (offset w : ℕ) (s : Snacc) → Selected s → Selected (store_place p offset w s)
unfolding store_place bcast_store
store_place-Selected (own j n) offset w s h =
    own-Selected j n offset w s (get_elem? s.cores j) refl h
store_place-Selected shared offset w s h = record {
  data_upper = h.data_upper;
  data_lower = h.data_lower;
  rbuf_upper = h.rbuf_upper;
  rbuf_lower = h.rbuf_lower;
  tables = h.tables;
  code = h.code;
}
store_place-Selected conf_reg offset w s h = store_conf-Selected offset w s h
store_place-Selected (bcast n) offset w s h = record {
  data_upper = map-Shown dmem_u n s.conf.data_db_sel offset w 0 s.cores h.data_upper;
  data_lower = map-Shown dmem_l n s.conf.data_db_sel offset w 0 s.cores h.data_lower;
  rbuf_upper = map-Shown rbuf_u n s.conf.rbuf_mux_sel offset w 0 s.cores h.rbuf_upper;
  rbuf_lower = map-Shown rbuf_l n s.conf.rbuf_mux_sel offset w 0 s.cores h.rbuf_lower;
  tables = map-Shown lut n s.conf.lut_mux_sel offset w 0 s.cores h.tables;
  code = map-Shown imem n s.conf.inst_mux_sel offset w 0 s.cores h.code;
}
