-- ===== src/Gic.antt =====
-- systemc-components/gicx00_multiview/include/gicx00_multiview.h: the first view of the interrupt
-- controller, a distributor and sixteen redistributors, each a block of bytes behind its own socket.
pub mod Access
pub mod Masks
mod Tests
use qbox_platform.Prelude.{ℕ, ◌+◌, ◌^◌, ◌%◌, ◌/◌, Bool}
use qbox_platform.RegFile.{RegBytes, zeroed, store32}

pub record Config : Type 0 where
  pub trace : Bool
  pub trace_limit : ℕ

-- `redist_regs` has the sixteen blocks by their index.
pub record Gic : Type 0 where
  pub dist_regs : RegBytes
  pub redist_regs : ℕ → RegBytes
  pub trace_count : ℕ

abbrev pub dist_bytes : ℕ
dist_bytes = 0x10000

abbrev pub redist_bytes : ℕ
redist_bytes = 0x20000

abbrev pub redist_count : ℕ
redist_count = 16

abbrev pub gicd_ctlr : ℕ
gicd_ctlr = 0x0000

abbrev pub gicd_cfgid : ℕ
gicd_cfgid = 0xf000

abbrev pub gicd_iviewr_base : ℕ
gicd_iviewr_base = 0xf600

abbrev pub gicd_iviewr_limit : ℕ
gicd_iviewr_limit = 0xfa00

abbrev pub gicd_iviewr_first : ℕ
gicd_iviewr_first = 2

abbrev pub gicd_iviewr_last : ℕ
gicd_iviewr_last = 61

abbrev pub gicd_cfgid_view : ℕ
gicd_cfgid_view = 2 ^ 53

abbrev pub gicr_pwrr : ℕ
gicr_pwrr = 0x0024

abbrev pub gicr_viewr : ℕ
gicr_viewr = 0x002c

abbrev pub gicr_flushr : ℕ
gicr_flushr = 0x0030

abbrev pub gicr_viewr_mask : ℕ
gicr_viewr_mask = 0x3

abbrev pub gicr_flushr_reset : ℕ
gicr_flushr_reset = 0x3cfffff0

abbrev pub gicr_flushr_rw_mask : ℕ
gicr_flushr_rw_mask = 0x3cfffff1

-- `memcpy(&regs[offset], &value, 8)`
unfoldable pub store64 : RegBytes → ℕ → ℕ → RegBytes
store64 m offset value =
    store32 (store32 m offset (value % 2 ^ 32)) (offset + 4) (value / 2 ^ 32 % 2 ^ 32)

unfoldable pub reset_registers : Gic
reset_registers = record {
  dist_regs = store64 (store32 zeroed gicd_ctlr 0) gicd_cfgid gicd_cfgid_view;
  redist_regs = λ index.
      store32 (store32 (store32 zeroed gicr_pwrr 0) gicr_viewr 0) gicr_flushr gicr_flushr_reset;
  trace_count = 0;
}
