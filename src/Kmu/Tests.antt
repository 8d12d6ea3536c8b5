-- ===== src/Kmu/Tests.antt =====
-- The unit of rse_kmu.h with one key.
use qbox_platform.Prelude.{
  ◌+◌, ◌*◌, ◌≡◌, refl, arith, bit_or, true, false, none, [], ◌∷◌, ◌++◌, map,
}
use qbox_platform.Prelude.Bits.{bit}
use qbox_platform.RegFile.{RegBytes, IsBytes, zeroed, load32, store32}
use qbox_platform.RegFile.Laws.{zeroed-IsBytes, store32-IsBytes}
use qbox_platform.Kmu.{Config, Kmu, every, kmuis, kmuis_kec, kmuksc_base}
use qbox_platform.Kmu.Registers.{export_address, write_kmuksc}
use qbox_platform.Kmu.Bits.{stored_ksc}
use qbox_platform.Kmu.Export.{key_write, write_kmuksc_exports}

abbrev config : Config
config = record {
  trace = false;
  trace_limit = 64;
  trace_filter = every;
  otp_image = none;
  build_config = 0;
  hw_slot_config = 0;
  hw_slot_export_address = 0x5015_4400;
  initiator_bound = true;
}

-- The first word of the key in slot 2.
abbrev loaded : RegBytes
loaded = store32 zeroed 0x170 0xcafe

loaded-IsBytes : IsBytes loaded
loaded-IsBytes = store32-IsBytes _ 0x170 _ zeroed-IsBytes

abbrev unit : Kmu
unit = record { regs = loaded; trace_count = 0; bus_writes = [] }

sends_word : key_write loaded (export_address config loaded 2) 2 0 ≡ (0x5015_4400, 0xcafe)
unfolding export_address load32 store32 zeroed
sends_word = refl

write_kmuksc_exports_example :
    let s' = write_kmuksc config unit (kmuksc_base + 2 * 4) 0x10000001 in
    (s'.bus_writes
      ≡ unit.bus_writes
        ++ map
            (key_write unit.regs (export_address config unit.regs 2) 2)
            (0 ∷ 1 ∷ 2 ∷ 3 ∷ 4 ∷ 5 ∷ 6 ∷ 7 ∷ []))
    × (load32 s'.regs kmuis ≡ bit_or (load32 unit.regs kmuis) kmuis_kec)
    × (load32 s'.regs (kmuksc_base + 2 * 4) ≡ stored_ksc 0x10000001)
unfolding bit
write_kmuksc_exports_example =
    write_kmuksc_exports config unit 2 0x10000001 (omega arith) (omega arith) loaded-IsBytes refl
      refl
