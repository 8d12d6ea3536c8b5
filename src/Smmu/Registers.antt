-- ===== src/Smmu/Registers.antt =====
-- Register accesses of mmu720ae_core.cc.
use qbox_platform.Prelude.{
  ℕ, ◌+◌, ◌-◌, ◌%◌, ◌^◌, bit_and, bit_or, Bool, false, not, ◌&&◌, ◌||◌, Option, none, some, List,
  ltb, leb, ◌==◌, if◌then◌else◌,
}
use qbox_platform.Prelude.Bits.{not_word}
use qbox_platform.RegFile.{RegBytes, zeroed, load32, read_bytes, write_bytes, word_of}
use qbox_platform.Tlm.{is_supported_length}
use qbox_platform.Smmu.{
  Core, cr0, cr0ack, gbpa, irq_ctrl, irq_ctrlack, gerror, gerrorn, cmdq_prod, cmdq_cons, evtq_prod,
  evtq_cons, priq_cons, page1_offset, reg_sz, cr0_smmuen, cr0_implemented_mask, irq_ctrl_mask,
  irq_ctrl_evtq_irqen, irq_ctrl_gerror_irqen, gerror_evtq_abt_err, gerror_err_mask, store32,
  store64, event_queue_pending, event_queue_next_prod,
}

abbrev up : ℕ → ℕ
up n = (n + 1) % 2 ^ 64

unfoldable pub combined : RegBytes → Bool
combined m =
    not (bit_and (load32 m irq_ctrl) irq_ctrl_gerror_irqen == 0)
      && not (bit_and (load32 m gerror) gerror_err_mask == 0)
    || not (bit_and (load32 m irq_ctrl) irq_ctrl_evtq_irqen == 0) && event_queue_pending m

unfoldable pub update_irq : Core → Core
update_irq s = record s { combined_irq = combined s.regs }

unfoldable pub invalidate_cached_translations : Core → Core
invalidate_cached_translations s = record s { dmi_generation = up s.dmi_generation }

unfoldable pub reset : Core → Core
reset s = record {
  regs =
      store32
        (store32
          (store32
            (store32 (store32 (store32 (store32 zeroed 0x000 0x140001a) 0x004 0x1080008) 0x00c 0)
              0x014 0x15)
            0x018 0x720ae000)
          0x01c 3)
        gerrorn gerror_err_mask;
  combined_irq = false;
  cmdq_sync_count = 0;
  dmi_generation = up s.dmi_generation;
  tbu_request_count = 0;
  tbu_fallback_sid_count = 0;
  event_record_count = 0;
  event_queue_abort_count = 0;
  last_tbu_sid = 0;
}

unfoldable pub record_tbu_request_sid : Core → ℕ → Bool → Core
record_tbu_request_sid s sid fallback = record s {
  tbu_request_count = up s.tbu_request_count;
  tbu_fallback_sid_count =
      if fallback then up s.tbu_fallback_sid_count else s.tbu_fallback_sid_count;
  last_tbu_sid = sid;
}

-- GERROR and, with it, GERRORN.
unfoldable pub store_gerror : RegBytes → ℕ → RegBytes
store_gerror m value =
    let m' = store32 m gerror value in
    store32 m' gerrorn (bit_and gerror_err_mask (not_word 32 (load32 m' gerror)))

unfoldable pub record_event_queue_abort : Core → Core
record_event_queue_abort s = update_irq (record s {
  event_queue_abort_count = up s.event_queue_abort_count;
  regs = store_gerror s.regs (bit_or (load32 s.regs gerror) gerror_evtq_abt_err);
})

unfoldable pub complete_event_queue_write : Core → Bool → Core
complete_event_queue_write s ok =
    if not ok
    then record_event_queue_abort s
    else update_irq (record s {
      event_record_count = up s.event_record_count;
      regs = store32 s.regs evtq_prod (event_queue_next_prod s.regs);
    })

abbrev is_read_only : ℕ → Bool
is_read_only offset =
    offset == 0x000
    || offset == 0x004
    || offset == 0x00c
    || offset == 0x014
    || offset == 0x018
    || offset == 0x01c
    || offset == cr0ack
    || offset == irq_ctrlack

unfoldable pub write_cr0 : Core → ℕ → Core
write_cr0 s value =
    let implemented = bit_and value cr0_implemented_mask in
    let s' = record s { regs = store32 (store32 s.regs cr0 implemented) cr0ack implemented } in
    if bit_and implemented cr0_smmuen == 0 then invalidate_cached_translations s' else s'

unfoldable pub write_irq_ctrl : Core → ℕ → Core
write_irq_ctrl s value =
    let m = store32 s.regs irq_ctrl (bit_and value irq_ctrl_mask) in
    update_irq (record s { regs = store32 m irq_ctrlack (load32 m irq_ctrl) })

unfoldable pub write_cmdq_prod : Core → ℕ → Core
write_cmdq_prod s value = invalidate_cached_translations (record s {
  regs = store32 (store32 s.regs cmdq_prod value) cmdq_cons value;
  cmdq_sync_count = up s.cmdq_sync_count;
})

unfoldable pub write32 : Core → ℕ → ℕ → Core
write32 s offset value =
    if is_read_only offset
    then s
    else if offset == cr0
    then write_cr0 s value
    else if offset == irq_ctrl
    then write_irq_ctrl s value
    else if offset == gbpa
    then record s { regs = store32 s.regs gbpa (bit_and value (not_word 32 (2 ^ 31))) }
    else if offset == gerrorn
    then update_irq (record s {
      regs = store_gerror s.regs (bit_and (load32 s.regs gerror) (not_word 32 value));
    })
    else if offset == cmdq_prod
    then write_cmdq_prod s value
    else if offset == evtq_cons || offset == priq_cons
    then update_irq (record s { regs = store32 s.regs offset value })
    else record s { regs = store32 s.regs offset value }

-- Both cases of the `switch` store the value.
unfoldable pub write64 : Core → ℕ → ℕ → Core
write64 s offset value = record s { regs = store64 s.regs offset value }

unfoldable pub normalize_offset : ℕ → ℕ → Option ℕ
normalize_offset offset len =
    let normalized =
      if leb page1_offset offset && ltb offset (page1_offset + reg_sz)
      then offset - page1_offset
      else offset in
    if not (is_supported_length len)
    then none
    else if ltb reg_sz ((normalized + len) % 2 ^ 64)
    then none
    else some (normalized % 2 ^ 32)

read_at : Core → Option ℕ → ℕ → Option (List ℕ)
read_at s none len = none
read_at s (some o) len = some (read_bytes s.regs o len)

-- The pointer is not null; `none` is `address_error`.
unfoldable pub read : Core → ℕ → ℕ → Option (List ℕ)
unfolding read_at
read s offset len = read_at s (normalize_offset offset len) len

store_at : Core → ℕ → List ℕ → ℕ → Core
store_at s o payload len =
    if len == 4 && o % 4 == 0
    then write32 s o (word_of payload)
    else if len == 8 && o % 8 == 0
    then write64 s o (word_of payload)
    else record s { regs = write_bytes s.regs o payload }

write_at : Core → Option ℕ → List ℕ → ℕ → Option Core
unfolding store_at
write_at s none payload len = none
write_at s (some o) payload len = some (store_at s o payload len)

unfoldable pub write : Core → ℕ → List ℕ → ℕ → Option Core
unfolding write_at
write s offset payload len = write_at s (normalize_offset offset len) payload len
