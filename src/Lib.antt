-- ===== src/Lib.antt =====
-- cube_sim is a cycle-accurate simulator of stacked chips that are joined by routers. This library
-- models the parts that carry its timing and its data: the router (router.h, router.cc), the bus
-- arbiter (busarbiter.cc), the ranges of physical memory (range.cc), the mapper (mapper.h, mapper.cc),
-- the cache of the processor (cache.h, cache.cc), the processor itself (cpu.h, cpu.cc, ISA.h) as far as
-- its single operations go, its coprocessor 0 (cpzero.h, cpzero.cc), interrupt lines (deviceint.cc,
-- intctrl.cc), the DMA controller (dmac.h, dmac.cc), the clock (clock.h, clock.cc), the interface of the
-- processor to its router (routerinterface.h, routerinterface.cc), the frame of the accelerators
-- (accelerator.h, accelerator.cc) with their double buffers (dbuf.h, dbuf.cc), and the accelerator SNACC
-- (snacc.h, snacc.cc, snacccore.h, snacccore.cc, snaccmodules.h, snaccmodules.cc). Paths are from the
-- root of the repository.
--
-- How the parts interact. A processor reads and writes through `Cache`, which fills its blocks through
-- `Mapper`; the mapper finds the `Range` of an address, times the access and asks the `BusArbiter` who
-- may use the bus. A `Router` joins a chip with the chip above and the chip below by three
-- `InputChannel`s, three `OutputChannel`s and a `Crossbar` between them. The DMA controller is a client
-- of the bus like the cache, and raises an interrupt line; `IntCtrl` joins the lines of the devices into
-- the word that `CPZero` masks. Devices ask the `Clock` to execute tasks later. The processor reaches
-- another chip by words and blocks that `RouterInterface` sends as packets; there `CubeAccelerator`
-- stores them or answers, through a `LocalMapper`, sends blocks by itself when its DMA is kicked, and
-- tells the processor when its core is done. A core sees the other half of each `DoubleBuffer`. A core of
-- SNACC takes four cycles for an instruction, beside which its `MadUnit` runs over several cycles.
--
-- Which file models what:
--   Common        names that are shared, Boolean tests, lists over the native numbers, signed integers
--                 for `int` counters, and machine words
--   Router.Flit   FLIT_t and the functions of RouterUtils
--   Router.OutputChannel   OutputChannel: step, ackSend, pushData, pushAck, ackIncrement, ocReady
--   Router.Link   two routers that are connected, along one direction, as a step relation
--   Router.Crossbar   Crossbar: send, ready, close, forwardAck, step; an input or output channel
--                 is named by its port
--   Router.InputChannel   InputChannel: step with the three states of a virtual channel, and the arbiter
--   Router.Node   Router: reset, step, and flits that arrive, as a step relation
--   Memory.Bus    BusArbiter: acquire_bus, release_bus
--   Memory.Range  Range: incorporates, overlaps, and the six accesses, on a little-endian host
--   Memory.Mapper Mapper: add_range, find_mapping_range, request_word, ready, bus_error
--   Memory.Access Mapper: fetch_word, store_word, swap_word; Memory.Access.Narrow half words and bytes
--   Cache         Cache: addr_separete, calc_addr, cache_hit, ready, and the six accesses
--   Cache.Fill    Cache: request_block, cache_wb, cache_fetch, step, reset_stat
--   Cache.Op      Cache: exec_cache_op
--   Cache.Holder  the calls of the cache in any order, as a step relation, and the bus;
--                 Cache.Holder.Exception an exception in the cycle of a request (CPU::exc_handle)
--   Clock         Clock: increment_time, pass_realtime, add_deferred_task, with the macros of clock.h
--   Interrupts    DeviceInt: assertInt, deassertInt; IntCtrl: calculateIP, connectLine
--   Cpu.Except    CPU: exception_priority, and the choice in exc_handle
--   Cpu.Zero      CPZero: registers and their masks, reset; Cpu.Zero.Tlb the TLB, address_trans and the
--                 instructions on the TLB; Cpu.Zero.Trap enter_exception, rfe_emulate, adjust_random;
--                 Cpu.Zero.Dispatch cpzero_emulate
--   Cpu.Decode    the fields of instructions; below it the tables of ISA.h and the choices of pre_decode
--   Cpu.Control   CPU: the branches and jumps that are executed in the decode stage
--   Cpu.Forward   CPU: the pointers to operands that pre_decode chooses, and reg_commit
--   Cpu.Handle    CPU: exc_handle
--   Cpu.Alu       CPU: the arithmetic of the execution stage
--   Cpu.Unaligned CPU: lwl, lwr, swl, swr; Cpu.Stores the bytes that mem_access stores for SWL and SWR
--   Dmac.Config   DMACConfig: the registers; Dmac.Machine DMAC: step with its eight states
--   Accelerator.Config   NetworkInterfaceConfig; Accelerator.LocalBus LocalMapper, and the virtual
--                 methods of an accelerator as the record Core
--   Accelerator.Nif   CubeAccelerator: nif_step with all its states
--   Accelerator.Outgoing   what a DMA transfer is to send, by itself, for Accelerator.Dma
--   Accelerator.Top   CubeAccelerator: step, reset, done_signal; SysBusInterface, BusConAccelerator
--   Accelerator.DoubleBuffer   DoubleBuffer
--   Interface.Config, Interface.Access   RouterIOReg and RouterRange
--   Interface.Machine, Interface.Top   RouterInterface: start, enqueue, dequeue, step, reset, abort
--   Transfer      a router interface and a network interface that exchange packets
--   Snacc.Fixed   Fixed16 and Fixed32; Snacc.Mad MadUnit
--   Snacc.Core    SNACCCore: the state, if_stage, id_stage, stall_handle; WbufArb
--   Snacc.Execute SNACCCore: the instructions, wb_stage, step, reset
--   Snacc.Conf    ConfRegCtrl: the registers; Snacc.Top SNACC: core_step, core_reset, and what is stored
--                 and fetched on its local bus, with BCastRange; Snacc.Select the selected buffers
--   Snacc.Instructions, Snacc.Cycle   the instruction set of SNACC by itself, against the stages
-- The modules below these hold proofs and are named for what they prove; Tests hold concrete runs.
--
-- Numbers. A `uint32` is a native number, with `% 2 ^ 32` where the program's arithmetic wraps; the
-- `int` counters of credits are signed integers without bound. Cycle numbers do not wrap. All loops of
-- the program that are modelled run over arrays or for a number of rounds, so they are structural
-- recursion and need no fuel. The overflow of a signed sum is undefined in the language; `add_exec` and
-- `sub_exec`, which mean to test for it, have that as a result, and elsewhere such a sum is taken to wrap.
--
-- A pointer is an index or a port. To follow a pointer that is null, or that dangles since what it pointed
-- to was deleted, is undefined, and is the result `none`. The current cycle,
-- `machine->num_cycles`, is an argument. An exception in a client is part of the result.
--
-- The bandwidth of the memory bounds the two loops of the DMA controller and those of the network
-- interface: it is their count of rounds. What the core of an accelerator does in a cycle, and what its
-- local bus reaches, is a parameter of the frame, since it differs between the accelerators.
-- An `int32` is its 32-bit pattern, with its sign where the program compares; shifts of it to the right
-- repeat the sign. Random of coprocessor 0 is in its bounds from a reset on, so that the remainder in
-- adjust_random is that of a positive number.
--
-- Not modelled: the pipeline of the processor as a whole with its stalls, fetch, most of the memory
-- stage; where SNACC places its ranges (setup in snacc.cc); the accelerator CMA and device registers;
-- consoles, the debugger, options and the loader, which are input and output; floating point that is the
-- host's; and libopcodes_mips, a copy of the disassembler of GNU binutils.
pub mod Common
pub mod Router
pub mod Memory
pub mod Cache
pub mod Clock
pub mod Interrupts
pub mod Cpu
pub mod Dmac
pub mod Accelerator
pub mod Interface
pub mod Transfer
pub mod Snacc
