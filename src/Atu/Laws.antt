-- ===== src/Atu/Laws.antt =====
-- What a word write to a configuration register of rse_atu.h does.
use qbox_platform.Prelude.{
  ℕ, ◌+◌, ◌-◌, ◌%◌, ◌^◌, ◌≤◌, ◌<◌, ◌≡◌, ◌⊎◌, ◌∙◌, ap, inl, inr, arith, min, bit_and, true, dec_lt,
  if◌then◌else◌,
}
use qbox_platform.Prelude.Bits.{bit, bit-bit_and, bit-not_word, bit_and-le_left, not_word}
use qbox_platform.RegFile.{IsBytes, load32, store32}
use qbox_platform.RegFile.Laws.{
  load32-store32_self, load32-store32_disjoint, load32-lt, store32_frame,
}
use qbox_platform.Atu.{
  Config, Atu, atubc, atuc, atuis, atuic, aturoba_base, roba_mask, in_range, is_region_array_offset,
}
use qbox_platform.Atu.Registers.{write32}

-- The six region arrays lie side by side.
region_arrays :
    (offset : ℕ)
    → offset % 4 ≡ 0
    → 0x020 ≤ offset
    → offset < 0x320
    → is_region_array_offset offset ≡ true
unfolding is_region_array_offset
region_arrays offset al lo hi = ground arith

module _ (c : Config) (s : Atu) (offset value : ℕ) where
  -- A word write changes the four bytes at its offset, and those of ATUIS if it is to ATUIC.
  pub write32_frame :
      (i : ℕ)
      → (i < offset) ⊎ (offset + 4 ≤ i)
      → (i < atuis) ⊎ (atuis + 4 ≤ i)
      → (write32 c s offset value).regs i ≡ s.regs i
  unfolding write32
  write32_frame i out status =
      let cleared = bit_and (load32 s.regs atuis) (not_word 32 value) in
      let narrowed = if in_range offset aturoba_base then bit_and value roba_mask else value in
      ground (
        arith,
        store32_frame s.regs offset value i out,
        store32_frame s.regs offset narrowed i out,
        store32_frame s.regs atuis cleared i status,
        store32_frame (store32 s.regs atuis cleared) atuic value i,
      )

  -- A word write leaves the build configuration alone.
  write32-atubc :
      offset % 4 ≡ 0 → load32 (write32 c s offset value).regs atubc ≡ load32 s.regs atubc
  unfolding load32 write32
  write32-atubc al = elim (dec_lt 0 offset) [
    | yes p ↦
        let same = λ (i : ℕ) (h : i < 4). write32_frame i (inl (omega arith)) (inl (omega arith)) in
        ground (
          arith,
          same 0 (omega arith),
          same 1 (omega arith),
          same 2 (omega arith),
          same 3 (omega arith),
        )
    | no p ↦ let e : offset ≡ 0 = omega arith in rw (e, write32)
  ]

  mapping_write :
      c.enable_dmi ≡ true
      → c.translation_bound ≡ true
      → (offset ≡ atuc) ⊎ (is_region_array_offset offset ≡ true) × (0x020 ≤ offset)
      → (write32 c s offset value).invalidations ≡ s.invalidations + 1
  unfolding write32
  mapping_write e b h = ground arith

  -- With DMI enabled and the translation socket bound, an aligned word write that changes a byte of
  -- the enable word or of a region register also invalidates the pointers that were handed out.
  pub write32_coherent :
      c.enable_dmi ≡ true
      → c.translation_bound ≡ true
      → offset % 4 ≡ 0
      → (i : ℕ) → (atuc ≤ i) × (i < atuc + 4) ⊎ (0x020 ≤ i) × (i < 0x320)
      → ((write32 c s offset value).invalidations ≡ s.invalidations + 1)
        ⊎ ((write32 c s offset value).regs i ≡ s.regs i)
  write32_coherent e b al i r = elim (dec_lt i offset) [
    | yes p ↦ inr (write32_frame i (inl p) (omega arith))
    | no p ↦ elim (dec_lt i (offset + 4)) [
      | yes q ↦ inl (mapping_write e b (ground (arith, region_arrays offset al)))
      | no q ↦ inr (write32_frame i (inr (omega arith)) (omega arith))
    ]
  ]

  -- A write to ATUIC clears exactly the bits of ATUIS that it has set.
  write32-atuic :
      IsBytes s.regs
      → value < 2 ^ 32
      → (i : ℕ) → i < 32
      → bit (load32 (write32 c s atuic value).regs atuis) i
        ≡ min (bit (load32 s.regs atuis) i) (1 - bit value i)
  unfolding write32
  write32-atuic b v i k =
      ap (λ w. bit w i)
        (load32-store32_disjoint
            (store32 s.regs atuis (bit_and (load32 s.regs atuis) (not_word 32 value))) atuic atuis
            value (inl (omega arith))
          ∙ load32-store32_self s.regs atuis (bit_and (load32 s.regs atuis) (not_word 32 value)) (
              omega (
                arith,
                bit_and-le_left 32 (load32 s.regs atuis) (not_word 32 value)
                    (load32-lt s.regs atuis b),
                load32-lt s.regs atuis b,
              )))
      ∙ bit-bit_and (load32 s.regs atuis) (not_word 32 value) i
      ∙ ap (min (bit (load32 s.regs atuis) i)) (bit-not_word 32 value i v k)
