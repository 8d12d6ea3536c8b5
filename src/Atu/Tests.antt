-- ===== src/Atu/Tests.antt =====
-- Translation and register writes of rse_atu.h on concrete registers.
use qbox_platform.Prelude.{
  zero, suc, ◌+◌, ◌%◌, ◌^◌, ◌≤◌, ◌<◌, ◌≡◌, ◌⊎◌, ◌↔◌, refl, arith, true, false, some, [], ◌∷◌, ◌==◌,
  if◌then◌else◌,
}
use qbox_platform.Prelude.Bits.{bit}
use qbox_platform.RegFile.{zeroed, load32, store32}
use qbox_platform.Tlm.{ok}
use qbox_platform.Atu.{
  unmapped, out_of_range, atuis, atuma, page_shift, supported_region_count, region_offset_pages,
  region_start_page, region_end_page, region_roba, region_configured, roba_field_to_bit,
  region_security_allowed,
}
use qbox_platform.Atu.Offset.{range_end, apply_region_offset}
use qbox_platform.Atu.Offset.Laws.{apply_region_offset_exact}
use qbox_platform.Atu.Registers.{write32}
use qbox_platform.Atu.Laws.{write32_coherent}
use qbox_platform.Atu.Translate.{
  Downstream, region_start, region_end, region_enabled, visit, resolve, search_regions,
  translate_range, access_length, forward_translation,
}
use qbox_platform.Atu.Translate.Visit.{admits, Translated}
use qbox_platform.Atu.Translate.Search.{
  NoneBefore, classify, translate_range_first, translate_range_none, translate_range_sound,
}
use qbox_platform.Atu.Translate.Latch.{translate_range_latches}
use qbox_platform.Atu.Translate.Forward.{Delivered, Refused, forward_delivers}
use qbox_platform.Atu.Dmi.{clip}
use qbox_platform.Atu.Fixtures.{config, mapped, mapped-IsBytes, unit, request}

-- What a run of the unit computes with.
abbrev machinery : Unit {0}
unfolding translate_range search_regions visit resolve region_configured region_start region_end
    region_enabled region_start_page region_end_page region_offset_pages region_roba
    region_security_allowed roba_field_to_bit page_shift supported_region_count apply_region_offset
    load32 store32 zeroed admits clip range_end
machinery = tt

low_region : (translate_range config mapped 0x1010 4 true).1.physical ≡ 0x11010
unfolding machinery
low_region = refl

negative_offset : (translate_range config mapped 0x5010 4 true).1.physical ≡ 0x4010
unfolding machinery
negative_offset = refl

-- The access leaves the first region.
leaves : (translate_range config mapped 0x2ffe 4 true).1.fault ≡ out_of_range
unfolding machinery
leaves = refl

translate_range_sound_example :
    let info = (translate_range config mapped 0x5010 4 true).1 in
    Translated config mapped 0x5010 (access_length 4) info
    × (info.region < supported_region_count mapped)
    × NoneBefore mapped 0x5010 (access_length 4) 0 info.region
    × ((translate_range config mapped 0x5010 4 true).0 ≡ mapped)
unfolding machinery
translate_range_sound_example = translate_range_sound config mapped 0x5010 4 true refl

none_below_one : NoneBefore mapped 0x5010 (access_length 4) 0 1
unfolding machinery
none_below_one zero lo hi = refl
none_below_one (suc i) lo hi = absurd (omega arith)

translate_range_first_example :
    ((translate_range config mapped 0x5010 4 true).1 ≡ (resolve config mapped 0x5010 1).0)
    × ((translate_range config mapped 0x5010 4 true).2 ≡ (resolve config mapped 0x5010 1).1)
unfolding machinery
translate_range_first_example =
    translate_range_first config mapped 0x5010 4 true 1 (omega arith) refl none_below_one

none_at_all : NoneBefore mapped 0x2ffe (access_length 4) 0 (supported_region_count mapped)
unfolding machinery
none_at_all zero lo hi = refl
none_at_all (suc zero) lo hi = refl
none_at_all (suc (suc i)) lo hi = absurd (omega arith)

translate_range_none_example :
    ((translate_range config mapped 0x2ffe 4 true).2 ≡ false)
    × ((translate_range config mapped 0x2ffe 4 true).1.fault
        ≡ classify mapped 0x2ffe (access_length 4) (supported_region_count mapped) 0 unmapped)
translate_range_none_example = translate_range_none config mapped 0x2ffe 4 true none_at_all

translate_range_latches_example :
    let m' = (translate_range config mapped 0x2ffe 4 true).0 in
    (bit (load32 m' atuis) 3 ≡ (if 3 == 0 then 1 else bit (load32 mapped atuis) 3))
    × (load32 m' atuma ≡ 0x2ffe % 2 ^ 32)
    × (m' 0x20 ≡ mapped 0x20)
unfolding machinery
translate_range_latches_example =
    translate_range_latches config mapped 0x2ffe 4 3 0x20 mapped-IsBytes (omega arith) refl

-- What stands behind answers with one byte pattern.
abbrev memory : Downstream
memory p = record p { bytes = some (1 ∷ 2 ∷ 3 ∷ 4 ∷ []); response = ok }

-- The request goes to the first region, and is answered.
answered : (forward_translation config memory unit request).1.response ≡ ok
unfolding machinery forward_translation
answered = refl

forward_delivers_example : Delivered config memory unit request ⊎ Refused config memory unit request
forward_delivers_example = forward_delivers config memory unit request

apply_region_offset_exact_example :
    (apply_region_offset 0x5010 0xffff_ffff_ffff_f000 ≡ some 0x4010) ↔ (
      (0xffff_ffff_ffff_f000 < 2 ^ 63)
        × (0x4010 ≡ 0x5010 + 0xffff_ffff_ffff_f000)
        × (0x4010 < 2 ^ 64)
      ⊎ (2 ^ 63 ≤ 0xffff_ffff_ffff_f000) × (0x4010 + 2 ^ 64 ≡ 0x5010 + 0xffff_ffff_ffff_f000))
apply_region_offset_exact_example =
    apply_region_offset_exact 0x5010 0xffff_ffff_ffff_f000 0x4010 (omega arith) (omega arith)

write32_coherent_example :
    ((write32 config unit 0x0a4 7).invalidations ≡ unit.invalidations + 1)
    ⊎ ((write32 config unit 0x0a4 7).regs 0x0a4 ≡ unit.regs 0x0a4)
write32_coherent_example = write32_coherent config unit 0x0a4 7 refl refl refl 0x0a4 (omega arith)
