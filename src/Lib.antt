-- ===== src/Lib.antt =====
-- Models of the Zena and RSE hardware blocks of the Apollo platform.
--
-- The platform is a set of SystemC modules that a Lua script wires together: a bus access arrives at a
-- module's target socket as a TLM generic payload, and signals run between the modules. Each module
-- checked here has registers behind such a socket; its `access` function tests the payload, reads or
-- writes the registers, traces, and sets the response.
--
-- The files and the code:
--   Prelude      the names and lemmas that all parts share: Boolean tests, lists measured by native
--                numbers, and bits of words.
--   RegFile      the byte array `m_regs` of the register blocks and the copies in and out of it.
--   Tlm          the payload and `access`, `b_transport` and `transport_dbg`, which every module but
--                the SMMU repeats. A module gives its size, its reads, its writes and its trace as a
--                `Target`.
--                Words has the loop that puts a read together from words (zena_fmu.h, zena_ssu.h).
--   Atu          systemc-components/rse_atu/include/rse_atu.h: address translation. Registers has
--                `write32`, Translate the region search `translate_range` and `forward_translation`,
--                Offset the signed 64-bit region offsets, Dmi `translation_get_direct_mem_ptr`, and
--                Trace the trace filter.
--   Kmu          systemc-components/rse_kmu/include/rse_kmu.h: key slots and their export.
--   Lcm          systemc-components/rse_lcm/include/rse_lcm.h: life cycle state and OTP window.
--   Ssu          systemc-components/zena_ssu/include/zena_ssu.h: safety status.
--   Fmu          systemc-components/zena_fmu/include/zena_fmu.h: fault records and interrupts.
--   Ppu          systemc-components/host_ppu/include/host_ppu.h: power policy and power-on sequence.
--   Smmu         systemc-components/mmu720ae/src/mmu720ae_core.cc: the SMMU's registers and event queue.
--                Sockets has mmu720ae.cc, the requesters and the report of what they ask for.
--   Dma          systemc-components/dma350/include/dma350.h: fills and copies. Transfer has the loops,
--                Registers the accesses, and Memory the interface of the memory behind it.
--   Flash        systemc-components/strata_flash_j3/include/strata_flash_j3.h: the NOR flash. Stats has the
--                counters, Sectors the map of erased sectors, Backing the backing file, Program
--                programming and erasing, Buffer the write buffer, Commands the command interface,
--                Ranges the DMI ranges, Access the socket and the loader, and Dmi the DMI requests.
--   Gic          systemc-components/gicx00_multiview/include/gicx00_multiview.h: the registers of the
--                first view of the interrupt controller.
--   Fanout       systemc-components/reset_fanout/include/reset_fanout.h: the repeated reset line.
--
-- A module's state is a record with the fields of the class. Calls that leave it through a socket are
-- kept as a list or a counter (`bus_writes`, `outputs`, `emitted`, `invalidations`). The `cci_param`s
-- and the question whether a socket is bound are a `Config`. What stands behind the initiator socket of
-- rse_atu is a parameter, a function from payloads to answers, as is what stands behind the SMMU's; what stands
-- behind that of dma350 is a parameter too, a state with a read and a write. A module's `read32` and `write32` have
-- the source's names, and a `switch` is a chain of tests in the source's order.
--
-- Numbers are natural numbers. Where the code's arithmetic can wrap the definition has `% 2 ^ 32` or
-- `% 2 ^ 64`, and `~value` is `not_word`. Words are little-endian, as on the hosts the models run on.
-- An index outside of the register array, which the code does not define, reads and writes the function
-- that stands for it.
--
-- The transfers of dma350 have the number of bytes as their fuel, since each round moves a byte at
-- least. The loop over the flash's DMI ranges has one round more than the text has characters. Loops
-- over regions, records, banks and slots count the rounds that are left, from the bound that the code
-- has. The read loop has the length of the read as its fuel, since each round takes a byte at
-- least; the loop over the trace filter has one round more than the filter has characters, since each
-- round but the last passes a comma.
--
-- Not modelled: the text of trace lines (their count is), failures of the file system when rse_lcm
-- writes its image back, simulated time (a wait of the power-on thread ends by a step of its own), and
-- the other modules of systemc-components and qemu-components, among them the message units and the
-- crypto engine. Of the flash, the texts of the statistics file
-- and of messages and the branches for Windows are not modelled; what `open`, `fstat` and `mmap` do with
-- a file, and `std::stoull`, are parameters. SystemC, TLM, CCI
-- and QEMU are outside of the repository.
pub mod Prelude
pub mod RegFile
pub mod Tlm
pub mod Atu
pub mod Kmu
pub mod Lcm
pub mod Ssu
pub mod Fmu
pub mod Ppu
pub mod Smmu
pub mod Dma
pub mod Flash
pub mod Gic
pub mod Fanout
