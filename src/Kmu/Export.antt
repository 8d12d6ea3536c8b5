-- ===== src/Kmu/Export.antt =====
-- What a write to a key slot control register of rse_kmu.h exports, and what it stores.
use mathlib.Core.List.{append-nil, append_assoc}
use qbox_platform.Prelude.{
  ℕ, zero, suc, ◌+◌, ◌-◌, ◌*◌, ◌/◌, ◌%◌, ◌^◌, ◌<◌, ◌≡◌, ◌∙◌, ap, arith, bit_and, bit_or, ◌==◌, inl,
  refl, true, List, [], ◌∷◌, ◌++◌, map,
}
use qbox_platform.Prelude.Bits.{bit, flag_lem, bit_or-lt}
use qbox_platform.RegFile.{RegBytes, IsBytes, load32, store32}
use qbox_platform.RegFile.Laws.{load32-store32_self, load32-store32_disjoint, load32-lt}
use qbox_platform.Kmu.{
  Config, Kmu, kmuis, kmuis_kec, kmuksc_base, kmuksk_base, kmuksc_ek, kmuksc_ksr, kmuksc_vks,
  kmuksc_iks, kmuksc_ksip,
}
use qbox_platform.Kmu.Registers.{
  replace_if, export_address, mem_write32, export_words, export_key, write_kmuksc,
}
use qbox_platform.Kmu.Bits.{stored_ksc, stored_ksc-lt, replace_if_bits}

-- The word of the key at `slot`, and where it goes.
abbrev pub key_write : RegBytes → ℕ → ℕ → ℕ → ℕ × ℕ
key_write m address slot word =
    ((address + word * 4) % 2 ^ 64, load32 m (kmuksk_base + slot * 32 + word * 4))

abbrev key_writes : RegBytes → ℕ → ℕ → ℕ → ℕ → List (ℕ × ℕ)
key_writes m address slot zero word = []
key_writes m address slot (suc n) word =
    key_write m address slot word ∷ key_writes m address slot n (word + 1)

module _ (c : Config) (bound : c.initiator_bound ≡ true) where
  export_words_lem :
      (address slot n word : ℕ) (s : Kmu)
      → export_words c address slot n word s
        ≡ record s { bus_writes = s.bus_writes ++ key_writes s.regs address slot n word }
  unfolding export_words mem_write32
  export_words_lem address slot zero word s = rw append-nil
  export_words_lem address slot (suc n) word s = rw bound (
      export_words_lem address slot n (word + 1)
        (record s { bus_writes = s.bus_writes ++ (key_write s.regs address slot word ∷ []) })
      ∙ ap (λ l. record s { bus_writes = l })
          (append_assoc s.bus_writes (key_write s.regs address slot word ∷ [])
            (key_writes s.regs address slot n (word + 1))))

  export_key_lem :
      (slot : ℕ) (s : Kmu)
      → export_key c s slot ≡ record s {
        bus_writes = s.bus_writes ++ key_writes s.regs (export_address c s.regs slot) slot 8 0;
      }
  unfolding export_key
  export_key_lem slot s = export_words_lem (export_address c s.regs slot) slot 8 0 s

exports_bit :
    (v : ℕ)
    → bit (replace_if kmuksc_vks kmuksc_ksr (replace_if kmuksc_iks kmuksc_ksip v)) 28 ≡ bit v 28
exports_bit v = ground (
  arith,
  replace_if_bits 24 25 (replace_if kmuksc_iks kmuksc_ksip v) 28 (omega arith) (omega arith)
      (omega arith) (omega arith) (omega arith),
  replace_if_bits 26 27 v 28 (omega arith) (omega arith) (omega arith) (omega arith) (omega arith),
)

module _ (c : Config) (s : Kmu) (slot value : ℕ) (lt : slot < 32) (word : value < 2 ^ 32) where
  slot_of : (kmuksc_base + slot * 4 - kmuksc_base) / 4 ≡ slot
  slot_of = omega arith

  requested :
      (bit_and
          (replace_if kmuksc_vks kmuksc_ksr (replace_if kmuksc_iks kmuksc_ksip value))
          kmuksc_ek
        == 0)
      ≡ (bit value 28 == 0)
  requested = flag_lem _ 28 ∙ ap (λ b. b == 0) (exports_bit value)

  -- A write with the export request to the control register of one of the 32 slots, with the
  -- initiator socket bound, sends the eight words of the slot's key, in order and to consecutive
  -- addresses, raises the interrupt status bit, and stores the control word.
  pub write_kmuksc_exports :
      IsBytes s.regs
      → c.initiator_bound ≡ true
      → bit value 28 ≡ 1
      → let s' = write_kmuksc c s (kmuksc_base + slot * 4) value in
        (s'.bus_writes
          ≡ s.bus_writes
            ++ map
                (key_write s.regs (export_address c s.regs slot) slot)
                (0 ∷ 1 ∷ 2 ∷ 3 ∷ 4 ∷ 5 ∷ 6 ∷ 7 ∷ []))
        × (load32 s'.regs kmuis ≡ bit_or (load32 s.regs kmuis) kmuis_kec)
        × (load32 s'.regs (kmuksc_base + slot * 4) ≡ stored_ksc value)
  unfolding write_kmuksc
  write_kmuksc_exports b bound e =
      let status = bit_or (load32 s.regs kmuis) kmuis_kec in
      rw (slot_of, requested ∙ ap (λ k. k == 0) e, export_key_lem c bound slot s)
        (
          refl,
          load32-store32_disjoint (store32 s.regs kmuis status) (kmuksc_base + slot * 4) kmuis
                (stored_ksc value) (inl (omega arith))
              ∙ load32-store32_self s.regs kmuis status (
                  bit_or-lt 32 (load32 s.regs kmuis) kmuis_kec (load32-lt s.regs kmuis b)
                    (omega arith)),
          load32-store32_self (store32 s.regs kmuis status) (kmuksc_base + slot * 4)
              (stored_ksc value) (stored_ksc-lt value word),
        )

  -- Without the request a write to the control register of a slot sends nothing and leaves the
  -- interrupt status, and stores the control word.
  write_kmuksc_silent :
      bit value 28 ≡ 0
      → let s' = write_kmuksc c s (kmuksc_base + slot * 4) value in
        (s'.bus_writes ≡ s.bus_writes)
        × (load32 s'.regs kmuis ≡ load32 s.regs kmuis)
        × (load32 s'.regs (kmuksc_base + slot * 4) ≡ stored_ksc value)
  unfolding write_kmuksc
  write_kmuksc_silent e = rw (requested ∙ ap (λ k. k == 0) e) (
    refl,
    load32-store32_disjoint s.regs (kmuksc_base + slot * 4) kmuis (stored_ksc value)
        (inl (omega arith)),
    load32-store32_self s.regs (kmuksc_base + slot * 4) (stored_ksc value)
        (stored_ksc-lt value word),
  )
