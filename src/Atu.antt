-- ===== src/Atu.antt =====
-- systemc-components/rse_atu/include/rse_atu.h: the address translation unit of the RSE. This file
-- has its parameters, its register block and the decoding of its region registers; the children
-- have register writes, the trace filter, offsets, translation and DMI.
pub mod Offset
pub mod Trace
pub mod Registers
pub mod Translate
pub mod Dmi
pub mod Laws
mod Fixtures
mod Tests
use qbox_platform.Prelude.{
  ℕ, ◌+◌, ◌-◌, ◌*◌, ◌/◌, ◌%◌, ◌^◌, min, bit_and, bit_or, Bool, true, false, not, ◌&&◌, ◌||◌, Option,
  none, some, List, ltb, leb, ◌==◌, if◌then◌else◌,
}
use qbox_platform.RegFile.{RegBytes, zeroed, load32, store32}

-- The `cci_param`s, and which sockets are bound (`size() != 0`).
pub record Config : Type 0 where
  pub trace : Bool
  pub trace_limit : ℕ
  pub trace_filter : List ℕ
  pub trace_address_min : ℕ
  pub trace_address_max : ℕ
  pub build_config : ℕ
  pub permitted_security_domains : ℕ
  pub enable_dmi : Bool
  pub initiator_bound : Bool
  pub translation_bound : Bool

-- `m_regs`, `m_trace_count`, and the number of `invalidate_direct_mem_ptr` calls made on the
-- translation socket so far.
pub record Atu : Type 0 where
  pub regs : RegBytes
  pub trace_count : ℕ
  pub invalidations : ℕ

abbrev pub reg_bytes : ℕ
reg_bytes = 0x1000

abbrev pub atubc : ℕ
atubc = 0x000

abbrev pub atuc : ℕ
atuc = 0x004

abbrev pub atuis : ℕ
atuis = 0x008

abbrev pub atuie : ℕ
atuie = 0x00c

abbrev pub atuic : ℕ
atuic = 0x010

abbrev pub atuma : ℕ
atuma = 0x014

abbrev pub atursla_base : ℕ
atursla_base = 0x020

abbrev pub aturela_base : ℕ
aturela_base = 0x0a0

abbrev pub aturav_l_base : ℕ
aturav_l_base = 0x120

abbrev pub aturav_m_base : ℕ
aturav_m_base = 0x1a0

abbrev pub aturoba_base : ℕ
aturoba_base = 0x220

abbrev pub aturgpv_base : ℕ
aturgpv_base = 0x2a0

abbrev pub region_count : ℕ
region_count = 32

abbrev pub region_stride : ℕ
region_stride = 4

abbrev pub atuis_mismatch_error : ℕ
atuis_mismatch_error = 1

abbrev pub roba_mask : ℕ
roba_mask = 0xffff

abbrev pub u64_max : ℕ
u64_max = 2 ^ 64 - 1

-- `enum class translation_fault`; its `none` is `no_fault`.
pub data Fault : Type 0 where
  no_fault unmapped disabled out_of_range permission overflow : Fault

pub record Info : Type 0 where
  pub region : ℕ
  pub logical_start : ℕ
  pub logical_end : ℕ
  pub offset_pages : ℕ
  pub offset : ℕ
  pub physical : ℕ
  pub fault : Fault

abbrev pub empty_info : Info
empty_info = record {
  region = 0;
  logical_start = 0;
  logical_end = 0;
  offset_pages = 0;
  offset = 0;
  physical = 0;
  fault = no_fault;
}

unfoldable pub in_range : ℕ → ℕ → Bool
in_range offset base =
    leb base offset
    && ltb offset (base + region_count * region_stride)
    && (offset - base) % region_stride == 0

unfoldable pub is_region_array_offset : ℕ → Bool
unfolding in_range
is_region_array_offset offset =
    in_range offset atursla_base
    || in_range offset aturela_base
    || in_range offset aturav_l_base
    || in_range offset aturav_m_base
    || in_range offset aturoba_base
    || in_range offset aturgpv_base

unfoldable pub page_shift : RegBytes → ℕ
page_shift m = bit_and (load32 m atubc) 0xf0 / 2 ^ 4

unfoldable pub supported_region_count : RegBytes → ℕ
supported_region_count m = min (2 ^ bit_and (load32 m atubc) 0x7) region_count

unfoldable pub region_offset_pages : RegBytes → ℕ → ℕ
region_offset_pages m r =
    bit_or (load32 m (aturav_m_base + r * region_stride) * 2 ^ 32)
      (load32 m (aturav_l_base + r * region_stride))

unfoldable pub region_start_page : RegBytes → ℕ → ℕ
region_start_page m r = load32 m (atursla_base + r * region_stride)

unfoldable pub region_end_page : RegBytes → ℕ → ℕ
region_end_page m r = load32 m (aturela_base + r * region_stride)

unfoldable pub region_roba : RegBytes → ℕ → ℕ
region_roba m r = bit_and (load32 m (aturoba_base + r * region_stride)) roba_mask

unfoldable pub region_configured : RegBytes → ℕ → Bool
region_configured m r =
    not (region_start_page m r == 0)
    || not (region_end_page m r == 0)
    || not (region_offset_pages m r == 0)
    || not (region_roba m r == 0)
    || not (load32 m (aturgpv_base + r * region_stride) == 0)

-- Whether the field is a legal one, with the `bit` that it stands for.
unfoldable pub roba_field_to_bit : ℕ → Option Bool
roba_field_to_bit field =
    let f = bit_and field 3 in
    if f == 0 || f == 2 then some false else if f == 3 then some true else none

abbrev pub to_number : Bool → ℕ
to_number false = 0
to_number true = 1

domain_permitted : Config → Option Bool → Option Bool → Bool
domain_permitted c none prot1 = false
domain_permitted c (some nse) none = false
domain_permitted c (some nse) (some prot1) =
    let domain = bit_or (to_number nse * 2) (to_number prot1) in
    not (bit_and c.permitted_security_domains (2 ^ domain) == 0)

unfoldable pub region_security_allowed : Config → RegBytes → ℕ → Bool
unfolding domain_permitted
region_security_allowed c m r =
    domain_permitted c (roba_field_to_bit (region_roba m r / 2 ^ 14))
      (roba_field_to_bit (region_roba m r / 2 ^ 2))

-- The constructor's state: `reset_registers`.
unfoldable pub reset_registers : Config → Atu
reset_registers c = record {
  regs = store32 zeroed atubc c.build_config;
  trace_count = 0;
  invalidations = 0;
}
