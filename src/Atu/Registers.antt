-- ===== src/Atu/Registers.antt =====
-- Register accesses of rse_atu.h: `write32` and `access` on the configuration socket.
use qbox_platform.Prelude.{
  ℕ, ◌+◌, ◌%◌, ◌^◌, bit_and, Bool, not, ◌&&◌, ◌||◌, List, ◌==◌, if◌then◌else◌,
}
use qbox_platform.Prelude.Bits.{not_word}
use qbox_platform.RegFile.{load32, store32, read_bytes, write_bytes, word_of}
use qbox_platform.Tlm
use qbox_platform.Tlm.{Payload, Target}
use qbox_platform.Atu.{
  Config, Atu, reg_bytes, atubc, atuc, atuis, atuie, atuic, atuma, aturoba_base, roba_mask,
  in_range, is_region_array_offset,
}
use qbox_platform.Atu.Trace.{trace_access}

unfoldable pub invalidate_translation_dmi : Config → Atu → Atu
invalidate_translation_dmi c s =
    if not c.enable_dmi || not c.translation_bound
    then s
    else record s { invalidations = s.invalidations + 1 }

unfoldable pub write32 : Config → Atu → ℕ → ℕ → Atu
unfolding invalidate_translation_dmi
write32 c s offset value =
    if offset == atubc || offset == atuis || offset == atuma
    then s
    else if offset == atuic
    then record s {
      regs =
          store32 (store32 s.regs atuis (bit_and (load32 s.regs atuis) (not_word 32 value))) atuic
            value;
    }
    else if offset == atuc
    then invalidate_translation_dmi c (record s { regs = store32 s.regs offset value })
    else if offset == atuie
    then record s { regs = store32 s.regs offset value }
    else if is_region_array_offset offset
    then invalidate_translation_dmi c (record s {
      regs =
          store32 s.regs offset
            (if in_range offset aturoba_base then bit_and value roba_mask else value);
    })
    else record s { regs = store32 s.regs offset value }

-- A write of an aligned word goes through `write32`; any other is copied into the block.
unfoldable pub update : Config → Atu → ℕ → List ℕ → ℕ → Atu
update c s offset payload len =
    if len == 4 && offset % 4 == 0
    then write32 c s (offset % 2 ^ 32) (word_of payload)
    else record s { regs = write_bytes s.regs offset payload }

unfoldable pub target : Config → Target Atu
target c = record {
  size = reg_bytes;
  fetch = λ s offset len. read_bytes s.regs offset len;
  update = update c;
  trace = trace_access c;
}

unfoldable pub access : Config → Atu → Payload → Atu × Payload × Bool
unfolding target update
access c = Tlm.access (target c)

unfoldable pub b_transport : Config → Atu → Payload → Atu × Payload
unfolding target update
b_transport c = Tlm.b_transport (target c)

unfoldable pub transport_dbg : Config → Atu → Payload → Atu × Payload × ℕ
unfolding target update
transport_dbg c = Tlm.transport_dbg (target c)
