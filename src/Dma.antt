-- ===== src/Dma.antt =====
-- systemc-components/dma350/include/dma350.h: the DMA controller. What stands behind its initiator
-- socket is a `Bus`, the operations of a memory that answers reads and writes.
pub mod Transfer
pub mod Registers
pub mod Memory
pub mod Fill
pub mod Copy
pub mod Command
pub mod Unbound
mod Tests
use qbox_platform.Prelude.{
  ℕ, ◌+◌, ◌-◌, ◌*◌, ◌/◌, ◌%◌, ◌^◌, bit_and, Bool, true, false, not, ◌&&◌, ◌||◌, Option, List, ltb,
  leb, ◌==◌, if◌then◌else◌,
}
use qbox_platform.RegFile.{RegBytes, zeroed, load32, store32}

-- `b_transport` of what stands behind: a read of some bytes, `none` for an error response, and a
-- write, with whether its response is ok.
pub record Bus (M : Type 0) : Type 0 where
  pub bus_read : M → ℕ → ℕ → M × Option (List ℕ)
  pub bus_write : M → ℕ → List ℕ → M × Bool

-- `trace_filter`: "all" or empty (`every`), "operation", "copy", "fill", or anything else.
pub data TraceFilter : Type 0 where
  every operation copy fill other : TraceFilter

pub record Config : Type 0 where
  pub trace : Bool
  pub trace_limit : ℕ
  pub trace_filter : TraceFilter
  pub trace_address_min : ℕ
  pub initiator_bound : Bool

pub record Dma : Type 0 where
  pub regs : RegBytes
  pub trace_count : ℕ

abbrev pub reg_bytes : ℕ
reg_bytes = 0x2000

abbrev pub ch_base : ℕ
ch_base = 0x1000

abbrev pub ch_stride : ℕ
ch_stride = 0x100

abbrev pub ch_cmd : ℕ
ch_cmd = 0x000

abbrev pub ch_status : ℕ
ch_status = 0x004

abbrev pub ch_intren : ℕ
ch_intren = 0x008

abbrev pub ch_ctrl : ℕ
ch_ctrl = 0x00c

abbrev pub ch_srcaddr : ℕ
ch_srcaddr = 0x010

abbrev pub ch_desaddr : ℕ
ch_desaddr = 0x018

abbrev pub ch_xsize : ℕ
ch_xsize = 0x020

abbrev pub ch_xsizehi : ℕ
ch_xsizehi = 0x024

abbrev pub ch_xaddrinc : ℕ
ch_xaddrinc = 0x030

abbrev pub ch_fillval : ℕ
ch_fillval = 0x038

abbrev pub ch_cmd_enable : ℕ
ch_cmd_enable = 2 ^ 0

abbrev pub intr_done : ℕ
intr_done = 2 ^ 0

abbrev pub intr_err : ℕ
intr_err = 2 ^ 1

abbrev pub stat_done : ℕ
stat_done = 2 ^ 16

abbrev pub stat_err : ℕ
stat_err = 2 ^ 17

abbrev pub xtype_fill : ℕ
xtype_fill = 3

abbrev pub fill_chunk_bytes : ℕ
fill_chunk_bytes = 256

abbrev pub copy_chunk_bytes : ℕ
copy_chunk_bytes = 1024

unfoldable pub reset_registers : Dma
reset_registers = record {
  regs =
      store32
        (store32 (store32 (store32 (store32 zeroed 0xfb0 0x30) 0xfc8 0x3a00043b) 0xfcc 0) 0x100c
          0x00200200)
        0x102c 0x000f0400;
  trace_count = 0;
}

-- An `int16_t` from the low half of a word, as a 64-bit two's-complement number.
unfoldable pub sign_extend16 : ℕ → ℕ
sign_extend16 value =
    if ltb (value % 2 ^ 16) (2 ^ 15) then value % 2 ^ 16 else value % 2 ^ 16 + (2 ^ 64 - 2 ^ 16)

unfoldable pub transfer_bytes_from_ctrl : ℕ → ℕ
transfer_bytes_from_ctrl ctrl = 2 ^ bit_and ctrl 7

unfoldable pub channel_address : RegBytes → ℕ → ℕ → ℕ
channel_address m ch low_offset =
    load32 m (ch + low_offset) + 2 ^ 32 * load32 m (ch + low_offset + 4)

unfoldable pub source_xsize : RegBytes → ℕ → ℕ
source_xsize m ch =
    load32 m (ch + ch_xsize) % 2 ^ 16 + 2 ^ 16 * (load32 m (ch + ch_xsizehi) % 2 ^ 16)

unfoldable pub dest_xsize : RegBytes → ℕ → ℕ
dest_xsize m ch =
    load32 m (ch + ch_xsize) / 2 ^ 16 % 2 ^ 16
    + 2 ^ 16 * (load32 m (ch + ch_xsizehi) / 2 ^ 16 % 2 ^ 16)

unfoldable pub trace_address_matches : Config → RegBytes → ℕ → Bool
trace_address_matches c m ch =
    c.trace_address_min == 0
    || leb c.trace_address_min (channel_address m ch ch_srcaddr)
    || leb c.trace_address_min (channel_address m ch ch_desaddr)

filter_takes : TraceFilter → Bool → Bool
filter_takes every is_copy = true
filter_takes operation is_copy = true
filter_takes copy is_copy = is_copy
filter_takes fill is_copy = not is_copy
filter_takes other is_copy = false

unfoldable pub trace_operation_filter_matches : Config → Dma → ℕ → Bool → Bool
unfolding filter_takes
trace_operation_filter_matches c s ch is_copy =
    c.trace
    && ltb s.trace_count c.trace_limit
    && trace_address_matches c s.regs ch
    && filter_takes c.trace_filter is_copy

-- `trace_fill` and `trace_copy`.
unfoldable pub trace_operation : Config → Dma → ℕ → Bool → Dma
trace_operation c s ch is_copy =
    if trace_operation_filter_matches c s ch is_copy
    then record s { trace_count = s.trace_count + 1 }
    else s
