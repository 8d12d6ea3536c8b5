-- ===== src/Atu/Translate/Latch.antt =====
-- The fault registers ATUIS and ATUMA of rse_atu.h after a translation.
use qbox_platform.Prelude.{
  ℕ, ◌%◌, ◌^◌, ◌≤◌, ◌<◌, ◌≡◌, ◌⊎◌, inl, ◌∙◌, ap, arith, true, false, bit_or, if◌then◌else◌, ◌==◌,
}
use qbox_platform.Prelude.Bits.{bit, bit-one, bit-bit_or, bit_or-lt, bit-lt_two}
use qbox_platform.RegFile.{RegBytes, IsBytes, load32, store32}
use qbox_platform.RegFile.Laws.{
  load32-store32_self, load32-store32_disjoint, load32-lt, store32-IsBytes,
}
use qbox_platform.Atu.{Config, atuis, atuma}
use qbox_platform.Atu.Translate.{latch_translation_fault, translate_range}

module _ (m : RegBytes) (logical : ℕ) where
  latched_status :
      IsBytes m
      → (i : ℕ)
      → bit (load32 (latch_translation_fault m logical) atuis) i
        ≡ (if i == 0 then 1 else bit (load32 m atuis) i)
  unfolding latch_translation_fault
  latched_status b i =
      ap (λ v. bit v i)
        (load32-store32_disjoint (store32 m atuis (bit_or (load32 m atuis) 1)) atuma atuis
            (logical % 2 ^ 32) (inl (omega arith))
          ∙ load32-store32_self m atuis (bit_or (load32 m atuis) 1)
              (bit_or-lt 32 (load32 m atuis) 1 (load32-lt m atuis b) (omega arith)))
      ∙ bit-bit_or (load32 m atuis) 1 i
      ∙ ground (arith, bit-one i, bit-lt_two (load32 m atuis) i)

  latched_address : load32 (latch_translation_fault m logical) atuma ≡ logical % 2 ^ 32
  unfolding latch_translation_fault
  latched_address = load32-store32_self _ atuma (logical % 2 ^ 32) (omega arith)

  latched_frame :
      (i : ℕ)
      → (i < 0x008) ⊎ (0x00c ≤ i) × (i < 0x014) ⊎ (0x018 ≤ i)
      → latch_translation_fault m logical i ≡ m i
  unfolding latch_translation_fault store32
  latched_frame i h = ground arith

  pub latch-IsBytes : IsBytes m → IsBytes (latch_translation_fault m logical)
  unfolding latch_translation_fault
  latch-IsBytes b = store32-IsBytes _ atuma _ (store32-IsBytes m atuis _ b)

-- A translation that is asked to latch and fails sets ATUIS bit 0 and keeps its other bits, puts the
-- low 32 bits of the address into ATUMA, and changes no byte of any other register.
pub translate_range_latches :
    (c : Config) (m : RegBytes) (logical len i j : ℕ)
    → IsBytes m
    → (j < 0x008) ⊎ (0x00c ≤ j) × (j < 0x014) ⊎ (0x018 ≤ j)
    → (translate_range c m logical len true).2 ≡ false
    → let m' = (translate_range c m logical len true).0 in
      (bit (load32 m' atuis) i ≡ (if i == 0 then 1 else bit (load32 m atuis) i))
      × (load32 m' atuma ≡ logical % 2 ^ 32)
      × (m' j ≡ m j)
unfolding translate_range
translate_range_latches c m logical len i j b out f =
    rw f (latched_status m logical b i, latched_address m logical, latched_frame m logical j out)

-- A translation that is not asked to latch changes nothing.
pub translate_range_unlatched :
    (c : Config) (m : RegBytes) (logical len : ℕ) → (translate_range c m logical len false).0 ≡ m
unfolding translate_range
translate_range_unlatched c m logical len = ground arith
