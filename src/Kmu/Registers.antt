-- ===== src/Kmu/Registers.antt =====
-- Register accesses and key export of rse_kmu.h.
use qbox_platform.Prelude.{
  ℕ, zero, suc, ◌+◌, ◌-◌, ◌*◌, ◌/◌, ◌%◌, ◌^◌, bit_and, bit_or, Bool, true, false, not, ◌&&◌, ◌||◌,
  List, [], ◌∷◌, ◌++◌, leb, ◌==◌, if◌then◌else◌,
}
use qbox_platform.Prelude.Bits.{not_word}
use qbox_platform.RegFile.{RegBytes, load32, store32, read_bytes, write_bytes, word_of}
use qbox_platform.Tlm
use qbox_platform.Tlm.{Command, Payload, Target}
use qbox_platform.Kmu.{
  TraceFilter, every, key, other, Config, Kmu, reg_bytes, kmubc, kmuis, kmuie, kmuic, kmuprbgsi,
  kmuksc_base, kmudkpa_base, kmuksk_base, kmuis_kec, kmuksc_vks, kmuksc_ksr, kmuksc_iks,
  kmuksc_ksip, kmuksc_ek, is_slot_reg, is_key_reg,
}

unfoldable pub mem_write32 : Config → Kmu → ℕ → ℕ → Kmu
mem_write32 c s address value =
    if not c.initiator_bound
    then s
    else record s { bus_writes = s.bus_writes ++ ((address, value) ∷ []) }

-- The loop over the words of a key slot.
unfoldable pub export_words : Config → ℕ → ℕ → ℕ → ℕ → Kmu → Kmu
export_words c address slot zero word s = s
export_words c address slot (suc rounds) word s = export_words c address slot rounds (word + 1) (
    mem_write32 c s ((address + word * 4) % 2 ^ 64)
      (load32 s.regs (kmuksk_base + slot * 32 + word * 4)))

unfoldable pub export_address : Config → RegBytes → ℕ → ℕ
export_address c m slot =
    let address = load32 m (kmudkpa_base + slot * 4) in
    if address == 0 then c.hw_slot_export_address else address

unfoldable pub export_key : Config → Kmu → ℕ → Kmu
export_key c s slot = export_words c (export_address c s.regs slot) slot 8 0 s

-- `value &= ~clear; value |= set;`, if `value` has `test`.
unfoldable pub replace_if : ℕ → ℕ → ℕ → ℕ
replace_if test set value =
    if bit_and value test == 0 then value else bit_or (bit_and value (not_word 32 test)) set

unfoldable pub write_kmuksc : Config → Kmu → ℕ → ℕ → Kmu
write_kmuksc c s offset value =
    let slot = (offset - kmuksc_base) / 4 in
    let value' = replace_if kmuksc_vks kmuksc_ksr (replace_if kmuksc_iks kmuksc_ksip value) in
    let exported = export_key c s slot in
    let s' = if bit_and value' kmuksc_ek == 0 then s else record exported {
      regs = store32 exported.regs kmuis (bit_or (load32 exported.regs kmuis) kmuis_kec);
    } in
    record s' { regs = store32 s'.regs offset (replace_if kmuksc_ek kmuksc_ksr value') }

abbrev is_read_only : ℕ → Bool
is_read_only offset =
    offset == kmubc
    || offset == kmuis
    || offset == 0x530
    || offset == 0x534
    || offset == 0x538
    || offset == 0xfd0
    || offset == 0xfe0
    || offset == 0xfe4
    || offset == 0xfe8
    || offset == 0xfec
    || offset == 0xff0
    || offset == 0xff4
    || offset == 0xff8
    || offset == 0xffc

unfoldable pub write32 : Config → Kmu → ℕ → ℕ → Kmu
write32 c s offset value =
    if is_read_only offset
    then s
    else if offset == kmuic
    then record s {
      regs =
          store32 (store32 s.regs kmuis (bit_and (load32 s.regs kmuis) (not_word 32 value))) kmuic
            value;
    }
    else if offset == kmuie || offset == kmuprbgsi
    then record s { regs = store32 s.regs offset value }
    else if is_slot_reg offset kmuksc_base
    then write_kmuksc c s offset value
    else record s { regs = store32 s.regs offset value }

-- Both branches of the source for a write that is no aligned word copy the bytes.
unfoldable pub update : Config → Kmu → ℕ → List ℕ → ℕ → Kmu
update c s offset payload len =
    if len == 4 && offset % 4 == 0
    then write32 c s (offset % 2 ^ 32) (word_of payload)
    else record s { regs = write_bytes s.regs offset payload }

trace_filter_matches : TraceFilter → ℕ → Bool
trace_filter_matches every offset = true
trace_filter_matches key offset =
    offset == kmuis
    || offset == kmuic
    || is_slot_reg offset kmuksc_base
    || is_slot_reg offset kmudkpa_base
    || is_key_reg offset
trace_filter_matches other offset = false

unfoldable pub trace_access : Config → Kmu → Command → ℕ → ℕ → Kmu
unfolding trace_filter_matches
trace_access c s command offset len =
    if not c.trace
      || leb c.trace_limit s.trace_count
      || not (trace_filter_matches c.trace_filter offset)
    then s
    else record s { trace_count = s.trace_count + 1 }

unfoldable pub target : Config → Target Kmu
target c = record {
  size = reg_bytes;
  fetch = λ s offset len. read_bytes s.regs offset len;
  update = update c;
  trace = trace_access c;
}

unfoldable pub access : Config → Kmu → Payload → Kmu × Payload × Bool
unfolding target update
access c = Tlm.access (target c)

unfoldable pub b_transport : Config → Kmu → Payload → Kmu × Payload
unfolding target update
b_transport c = Tlm.b_transport (target c)

unfoldable pub transport_dbg : Config → Kmu → Payload → Kmu × Payload × ℕ
unfolding target update
transport_dbg c = Tlm.transport_dbg (target c)
