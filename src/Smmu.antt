-- ===== src/Smmu.antt =====
-- systemc-components/mmu720ae/include/mmu720ae_core.h, src/mmu720ae_core.cc: the registers of the
-- SMMU, its event queue and its interrupt.
pub mod Registers
pub mod Acks
pub mod Queue
pub mod Events
pub mod Sockets
pub mod Faults
mod Tests
use qbox_platform.Prelude.{
  ℕ, ◌+◌, ◌-◌, ◌*◌, ◌%◌, ◌^◌, ◌/◌, bit_and, bit_or, Bool, not, ◌&&◌, ◌||◌, Option, none, some, ltb,
  leb, ◌==◌, if◌then◌else◌,
}
use qbox_platform.RegFile
use qbox_platform.RegFile.{RegBytes, load32}

pub record Core : Type 0 where
  pub regs : RegBytes
  pub combined_irq : Bool
  pub cmdq_sync_count : ℕ
  pub dmi_generation : ℕ
  pub tbu_request_count : ℕ
  pub tbu_fallback_sid_count : ℕ
  pub event_record_count : ℕ
  pub event_queue_abort_count : ℕ
  pub last_tbu_sid : ℕ

abbrev pub cr0 : ℕ
cr0 = 0x020

abbrev pub cr0ack : ℕ
cr0ack = 0x024

abbrev pub gbpa : ℕ
gbpa = 0x044

abbrev pub irq_ctrl : ℕ
irq_ctrl = 0x050

abbrev pub irq_ctrlack : ℕ
irq_ctrlack = 0x054

abbrev pub gerror : ℕ
gerror = 0x060

abbrev pub gerrorn : ℕ
gerrorn = 0x064

abbrev pub cmdq_prod : ℕ
cmdq_prod = 0x098

abbrev pub cmdq_cons : ℕ
cmdq_cons = 0x09c

abbrev pub evtq_base : ℕ
evtq_base = 0x0a0

abbrev pub evtq_prod : ℕ
evtq_prod = 0x0a8

abbrev pub evtq_cons : ℕ
evtq_cons = 0x0ac

abbrev pub priq_cons : ℕ
priq_cons = 0x0cc

abbrev pub page1_offset : ℕ
page1_offset = 0x10000

abbrev pub reg_sz : ℕ
reg_sz = 0xe00

abbrev pub q_base_addr_mask : ℕ
q_base_addr_mask = 0xfffffffffffffe0

abbrev pub cr0_evtqen : ℕ
cr0_evtqen = 2 ^ 2

abbrev pub cr0_smmuen : ℕ
cr0_smmuen = 2 ^ 0

abbrev pub cr0_implemented_mask : ℕ
cr0_implemented_mask = 0xd

abbrev pub irq_ctrl_mask : ℕ
irq_ctrl_mask = 0x5

abbrev pub irq_ctrl_evtq_irqen : ℕ
irq_ctrl_evtq_irqen = 2 ^ 2

abbrev pub irq_ctrl_gerror_irqen : ℕ
irq_ctrl_gerror_irqen = 2 ^ 0

abbrev pub gerror_evtq_abt_err : ℕ
gerror_evtq_abt_err = 2 ^ 2

abbrev pub gerror_err_mask : ℕ
gerror_err_mask = 0x1fd

unfoldable pub load64 : RegBytes → ℕ → ℕ
load64 m offset = load32 m offset + 2 ^ 32 * load32 m (offset + 4)

-- A store into page 0 is repeated in page 1.
unfoldable pub store32 : RegBytes → ℕ → ℕ → RegBytes
store32 m offset value =
    let m' = RegFile.store32 m offset value in
    if ltb offset reg_sz && leb (offset + 4) reg_sz
    then RegFile.store32 m' (page1_offset + offset) value
    else m'

abbrev put64 : RegBytes → ℕ → ℕ → RegBytes
put64 m offset value =
    RegFile.store32 (RegFile.store32 m offset (value % 2 ^ 32)) (offset + 4) (value / 2 ^ 32)

unfoldable pub store64 : RegBytes → ℕ → ℕ → RegBytes
store64 m offset value =
    let m' = put64 m offset value in
    if ltb offset reg_sz && leb (offset + 8) reg_sz
    then put64 m' (page1_offset + offset) value
    else m'

unfoldable pub smmu_enabled : RegBytes → Bool
smmu_enabled m = not (bit_and (load32 m cr0ack) cr0_smmuen == 0)

unfoldable pub event_queue_enabled : RegBytes → Bool
event_queue_enabled m = not (bit_and (load32 m cr0ack) cr0_evtqen == 0)

unfoldable pub event_queue_log2_entries : RegBytes → ℕ
event_queue_log2_entries m = bit_and (load64 m evtq_base) 0x1f

unfoldable pub event_queue_base : RegBytes → ℕ
event_queue_base m = bit_and (load64 m evtq_base) q_base_addr_mask

unfoldable pub event_queue_configured : RegBytes → Bool
event_queue_configured m =
    event_queue_enabled m
    && ltb 0 (event_queue_log2_entries m)
    && ltb (event_queue_log2_entries m) 31
    && not (event_queue_base m == 0)

-- The queue's pointers, for a queue of `2 ^ k` entries.
unfoldable pub event_queue_index : ℕ → ℕ → ℕ
event_queue_index k pointer = bit_and pointer (2 ^ k - 1)

unfoldable pub event_queue_wrap : ℕ → ℕ → ℕ
event_queue_wrap k pointer = bit_and pointer (2 ^ k)

-- `wrap ^= wrap_bit` on a `wrap` that has no other bit.
abbrev pub flip : ℕ → ℕ → ℕ
flip k wrap = if wrap == 0 then 2 ^ k else 0

unfoldable pub next_pointer : ℕ → ℕ → ℕ
next_pointer k prod =
    let index = event_queue_index k prod + 1 in
    let wrap = event_queue_wrap k prod in
    if index == 2 ^ k then bit_or (flip k wrap) 0 else bit_or wrap index

unfoldable pub event_queue_next_prod : RegBytes → ℕ
event_queue_next_prod m = next_pointer (event_queue_log2_entries m) (load32 m evtq_prod)

unfoldable pub event_queue_pending : RegBytes → Bool
event_queue_pending m = event_queue_configured m && not (load32 m evtq_prod == load32 m evtq_cons)

unfoldable pub is_full : ℕ → ℕ → ℕ → Bool
is_full k prod cons =
    event_queue_index k prod == event_queue_index k cons
    && not (event_queue_wrap k prod == event_queue_wrap k cons)

unfoldable pub event_queue_full : RegBytes → Bool
event_queue_full m =
    not (event_queue_configured m)
    || is_full (event_queue_log2_entries m) (load32 m evtq_prod) (load32 m evtq_cons)

unfoldable pub event_queue_prod_entry_address : RegBytes → ℕ
event_queue_prod_entry_address m =
    (event_queue_base m + event_queue_index (event_queue_log2_entries m) (load32 m evtq_prod) * 32)
    % 2 ^ 64

-- The four words of an event, and where it goes.
pub record Event : Type 0 where
  pub dword0 : ℕ
  pub dword1 : ℕ
  pub dword2 : ℕ
  pub dword3 : ℕ
  pub write_address : ℕ

unfoldable pub build_translation_fault_event : RegBytes → ℕ → Bool → ℕ → Option Event
build_translation_fault_event m iova read sid =
    if not (event_queue_configured m) || event_queue_full m
    then none
    else some (record {
      dword0 = bit_or 0x10 (sid * 2 ^ 32);
      dword1 = if read then 2 ^ 35 else 0;
      dword2 = iova;
      dword3 = 0;
      write_address = event_queue_prod_entry_address m;
    })
