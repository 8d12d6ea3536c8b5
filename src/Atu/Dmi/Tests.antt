-- ===== src/Atu/Dmi/Tests.antt =====
-- Direct memory access of rse_atu.h on concrete registers.
use qbox_platform.Prelude.{◌+◌, ◌-◌, ◌≤◌, ◌≡◌, refl, arith, true, false, some}
use qbox_platform.RegFile.{RegBytes, zeroed, load32, store32}
use qbox_platform.Atu.{
  Atu, Info, empty_info, page_shift, supported_region_count, region_offset_pages, region_start_page,
  region_end_page, region_roba, region_configured, roba_field_to_bit, region_security_allowed,
}
use qbox_platform.Atu.Offset.{range_end, apply_region_offset}
use qbox_platform.Atu.Translate.{
  region_start, region_end, region_enabled, visit, resolve, search_regions, translate_range,
}
use qbox_platform.Atu.Translate.Visit.{admits}
use qbox_platform.Atu.Translate.Search.{NoneBefore}
use qbox_platform.Atu.Dmi.{DmiData, Grant, clip, translation_get_direct_mem_ptr}
use qbox_platform.Atu.Trace.{trace_dmi, count_line}
use qbox_platform.Atu.Dmi.Coherent.{dmi_coherent}
use qbox_platform.Atu.Fixtures.{config, mapped, unit, request}

-- What a run of the unit computes with.
abbrev machinery : Unit {0}
unfolding translate_range search_regions visit resolve region_configured region_start region_end
    region_enabled region_start_page region_end_page region_offset_pages region_roba
    region_security_allowed roba_field_to_bit page_shift supported_region_count apply_region_offset
    load32 store32 zeroed admits clip range_end translation_get_direct_mem_ptr trace_dmi count_line
machinery = tt

-- The info of the first region, and a grant of all of the physical memory behind it.
abbrev low_info : Info
low_info = record empty_info {
  logical_start = 0x1000;
  logical_end = 0x2fff;
  offset_pages = 0x10;
  offset = 0x10000;
  physical = 0x11010;
}

abbrev behind : DmiData
behind = record { ptr = 0x700000; start_address = 0x10000; end_address = 0x11fff }

abbrev offered : DmiData
offered = record { ptr = 0x701000; start_address = 0x1000; end_address = 0x1fff }

clipped : clip low_info 0x1010 4 behind ≡ some offered
unfolding machinery
clipped = refl

abbrev grant : Grant
grant p d = (p, behind, true)

abbrev nothing : DmiData
nothing = record { ptr = 0; start_address = 0; end_address = 0 }

-- A region 0 inside the range of region 1, with another offset.
abbrev overlapping : RegBytes
overlapping =
    store32
      (store32
        (store32
          (store32
            (store32
              (store32 (store32 (store32 (store32 zeroed 0x000 0xc1) 0x004 0x3) 0x020 2) 0x0a0 2)
              0x120 0x20)
            0x024 1)
          0x0a4 5)
        0x124 0x10)
      0x1a4 0

abbrev overlapping_unit : Atu
overlapping_unit = record { regs = overlapping; trace_count = 0; invalidations = 0 }

-- All of the physical memory behind both, granted with one pointer.
abbrev all_behind : DmiData
all_behind = record { ptr = 0x700000; start_address = 0; end_address = 0xfffff }

abbrev grant_all : Grant
grant_all p d = (p, all_behind, true)

-- The grant for an access in region 1 has the page of region 0 too, and there its pointer is not the
-- one of the translation, which goes through region 0.
overlap_granted :
    (translation_get_direct_mem_ptr config grant_all overlapping_unit request nothing).2
    ≡ record { ptr = 0x711000; start_address = 0x1000; end_address = 0x5fff }
unfolding machinery
overlap_granted = refl

overlap_translated : (translate_range config overlapping 0x2000 1 false).1.physical ≡ 0x22000
unfolding machinery
overlap_translated = refl

none_below_zero : NoneBefore mapped 0x1800 1 0 0
none_below_zero i lo hi = absurd (omega arith)

dmi_coherent_example :
    let (m, at_a, done) = translate_range config mapped 0x1800 1 true in
    (done ≡ true)
    × (0x10000 ≤ at_a.physical)
    × (at_a.physical ≤ 0x11fff)
    × (0x701000 + (0x1800 - 0x1000) ≡ 0x700000 + (at_a.physical - 0x10000))
unfolding machinery
dmi_coherent_example =
    dmi_coherent config grant unit unit request request (record request { address = 0x11010 })
      nothing offered behind low_info true refl refl refl (omega arith) (omega arith) 0x1800 true
      (omega arith) (omega arith) none_below_zero
