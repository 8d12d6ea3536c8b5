-- ===== src/Smmu/Tests.antt =====
-- The core of the SMMU from a reset, with an event queue of four entries.
use qbox_platform.Prelude.{◌+◌, ◌^◌, ◌≡◌, ◌↔◌, refl, arith, true, false, some, none, List, [], ◌∷◌}
use qbox_platform.Prelude.Bits.{bit}
use qbox_platform.RegFile
use qbox_platform.RegFile.{zeroed, load32, store8}
use qbox_platform.Smmu.{
  Core, evtq_base, evtq_prod, evtq_cons, load64, store32, event_queue_enabled,
  event_queue_log2_entries, event_queue_base, event_queue_configured, event_queue_index,
  event_queue_wrap, event_queue_full, event_queue_pending, is_full, next_pointer,
  event_queue_next_prod,
}
use qbox_platform.Smmu.Registers.{
  combined, update_irq, invalidate_cached_translations, reset, write_cr0, write_irq_ctrl,
  write_cmdq_prod, write32, store_gerror, record_event_queue_abort, complete_event_queue_write,
}
use qbox_platform.Smmu.Acks.{IsAcked, Step, word, completed, run, run-IsAcked}
use qbox_platform.Smmu.Queue.{Holds, is_full_iff}
use qbox_platform.Tlm.{Payload, read, incomplete, ok, command_error}
use qbox_platform.Smmu.{Event, event_queue_prod_entry_address, smmu_enabled}
use qbox_platform.Smmu.Sockets.{
  Config, Module, ace2, event_payload, tbu_b_transport, tbu_transport_dbg, clamp_sid,
  request_sid_or_default, default_sid,
}
use qbox_platform.Smmu.Faults.{tbu_blocked, tbu_reported}

abbrev powered : Core
powered = record {
  regs = zeroed;
  combined_irq = false;
  cmdq_sync_count = 0;
  dmi_generation = 0;
  tbu_request_count = 0;
  tbu_fallback_sid_count = 0;
  event_record_count = 0;
  event_queue_abort_count = 0;
  last_tbu_sid = 0;
}

-- EVTQ_BASE, CR0 and IRQ_CTRL.
abbrev steps : List Step
steps = word 0x28 0x80000002 ∷ word 0x8 0xd ∷ word 0x14 0x5 ∷ []

-- What a run of the core computes with.
abbrev machinery : Unit {0}
unfolding reset write32 write_cr0 write_irq_ctrl write_cmdq_prod update_irq combined
    invalidate_cached_translations store_gerror record_event_queue_abort complete_event_queue_write
    store32 RegFile.store32 store8 load32 load64 zeroed event_queue_enabled event_queue_log2_entries
    event_queue_base event_queue_configured event_queue_index event_queue_wrap event_queue_full
    event_queue_pending is_full next_pointer event_queue_next_prod bit
machinery = tt

abbrev started : Core
started = run (reset powered) steps

raised :
    (run
      (reset powered)
      (word 0x28 0x80000002 ∷ word 0x8 0xd ∷ word 0x14 0x5 ∷ completed true ∷ [])).combined_irq
    ≡ true
unfolding machinery
raised = refl

run-IsAcked_example : IsAcked (run (reset powered) steps).regs
run-IsAcked_example = run-IsAcked powered steps

is_full_iff_example : (is_full 2 5 1 ≡ true) ↔ (4 ≡ 2 ^ 2)
is_full_iff_example = is_full_iff 2 5 1 4 (refl, omega arith)

-- Memory that takes every access.
abbrev bypass : Config
bypass = record {
  trace = false;
  trace_limit = 64;
  tbu_ace1_default_sid = 0;
  tbu_ace2_default_sid = 0x20;
  tbu_lti00_default_sid = 0x40;
  tbu_lti01_default_sid = 0x60;
  tbu_lti02_default_sid = 0x80;
  irq_bound = true;
  downstream = λ p. record p { response = ok };
  downstream_dbg = λ p. (record p { response = ok }, p.data_length);
  ptw = λ p. record p { response = ok };
}

abbrev smmu : Module
smmu = record {
  core = started;
  trace_count = 0;
  irq_writes = [];
  forwarded = [];
  event_writes = [];
}

abbrev request : Payload
request = record {
  command = read;
  address = 0x1000;
  bytes = some (0 ∷ 0 ∷ 0 ∷ 0 ∷ []);
  data_length = 4;
  response = incomplete;
  dmi_allowed = true;
}

started-enabled : smmu_enabled started.regs ≡ true
unfolding machinery smmu_enabled
started-enabled = refl

tbu_blocked_example :
    let plain = tbu_b_transport bypass smmu ace2 none request in
    let debug = tbu_transport_dbg bypass smmu ace2 none request in
    ((plain.0.forwarded ≡ []) × (plain.1.response ≡ command_error) × (plain.1.dmi_allowed ≡ false))
    × (debug.0.forwarded ≡ [])
    × (debug.1.response ≡ command_error)
    × (debug.2 ≡ 0)
tbu_blocked_example = tbu_blocked bypass smmu ace2 none request started-enabled

-- The default stream of ACE2 is 0x20.
tbu_reported_example :
    let after = (tbu_b_transport bypass smmu ace2 none request).0 in
    let m = after.core.regs in
    ((e : Event) × (after.event_writes ≡ event_payload e ∷ [])
      × (e.write_address ≡ event_queue_prod_entry_address started.regs)
      × (e.dword0 ≡ 0x2000000010)
      × (e.dword2 ≡ 0x1000))
    × (load64 m evtq_base ≡ load64 started.regs evtq_base)
    × Holds (event_queue_log2_entries m) (load32 m evtq_prod) (load32 m evtq_cons) (0 + 1)
unfolding machinery clamp_sid request_sid_or_default default_sid
tbu_reported_example =
    tbu_reported bypass smmu ace2 none request 0 started-enabled refl refl (refl, omega arith)
      (λ q. refl)
