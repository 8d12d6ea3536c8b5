-- ===== src/Smmu/Faults.antt =====
-- Requests of mmu720ae.cc while the SMMU is enabled.
use qbox_platform.Prelude.{
  ℕ, ◌+◌, ◌*◌, ◌%◌, ◌^◌, ◌≡◌, refl, ap, arith, bit_or, if_intro, Bool, true, false, Option, none,
  some, ◌∷◌,
}
use qbox_platform.RegFile.{load32}
use qbox_platform.Tlm.{Payload, command_error, is_ok}
use qbox_platform.Smmu.{
  Event, evtq_base, evtq_prod, evtq_cons, load64, event_queue_log2_entries, event_queue_configured,
  event_queue_full, smmu_enabled, event_queue_prod_entry_address, build_translation_fault_event,
}
use qbox_platform.Smmu.Registers.{record_tbu_request_sid}
use qbox_platform.Smmu.Queue.{Holds, index_lem}
use qbox_platform.Smmu.Events.{event_recorded}
use qbox_platform.Smmu.Sockets.{
  Config, Module, Tbu, RequestAttrs, clamp_sid, request_sid_or_default, send_event, update_irq,
  write_event_record, event_payload, record_unimplemented_translation_fault,
  tbu_b_transport_with_sid, tbu_transport_dbg_with_sid, tbu_b_transport, tbu_transport_dbg,
  default_sid,
}

send_event-forwarded :
    (c : Config) (s : Module) (e : Option Event) → (send_event c s e).forwarded ≡ s.forwarded
unfolding send_event update_irq write_event_record
send_event-forwarded c s none = refl
send_event-forwarded c s (some e) = refl

-- While the SMMU is enabled, no request of any requester reaches the downstream socket, plain or
-- debug: each ends in a command error, the plain one without a DMI hint and the debug one with no
-- bytes.
pub tbu_blocked :
    (c : Config) (s : Module) (tbu : Tbu) (attrs : Option RequestAttrs) (p : Payload)
    → smmu_enabled s.core.regs ≡ true
    → let plain = tbu_b_transport c s tbu attrs p in
      let debug = tbu_transport_dbg c s tbu attrs p in
      ((plain.0.forwarded ≡ s.forwarded)
        × (plain.1.response ≡ command_error)
        × (plain.1.dmi_allowed ≡ false))
      × (debug.0.forwarded ≡ s.forwarded)
      × (debug.1.response ≡ command_error)
      × (debug.2 ≡ 0)
unfolding tbu_b_transport tbu_transport_dbg tbu_b_transport_with_sid tbu_transport_dbg_with_sid
    record_unimplemented_translation_fault update_irq
tbu_blocked c s tbu attrs p enabled =
    rw enabled ((send_event-forwarded c _ _, refl, refl), refl, refl, refl)

clamp_sid_lem : (x : ℕ) → clamp_sid x ≡ x % 0x100
unfolding clamp_sid
clamp_sid_lem x = index_lem x 8

clamp_twice : (x : ℕ) → clamp_sid (clamp_sid x) ≡ clamp_sid x
clamp_twice x = omega (arith, clamp_sid_lem (clamp_sid x), clamp_sid_lem x)

-- The stream of a request is within the eight bits already.
request_clamped :
    (attrs : Option RequestAttrs) (default : ℕ)
    → let request = (request_sid_or_default attrs default).0 in clamp_sid request ≡ request
unfolding request_sid_or_default
request_clamped none default = clamp_twice default
request_clamped (some attrs) default =
    if_intro (λ (r : ℕ × Bool). clamp_sid r.0 ≡ r.0) attrs.sid_valid (clamp_twice attrs.sid)
      (clamp_twice default)

module _ (c : Config) (s : Module) (tbu : Tbu) (attrs : Option RequestAttrs) (p : Payload)
    (n : ℕ) where
  -- While the SMMU is enabled and its event queue has room, where memory takes the write of an event, a
  -- request of any requester is reported: one event is written, at the queue's producer entry, with the
  -- stream and the address of the request, and the queue keeps its place and holds one event more.
  pub tbu_reported :
      smmu_enabled s.core.regs ≡ true
      → event_queue_configured s.core.regs ≡ true
      → event_queue_full s.core.regs ≡ false
      → Holds
          (event_queue_log2_entries s.core.regs)
          (load32 s.core.regs evtq_prod)
          (load32 s.core.regs evtq_cons)
          n
      → ((q : Payload) → is_ok (c.ptw q).response ≡ true)
      → let after = (tbu_b_transport c s tbu attrs p).0 in
        let m = after.core.regs in
        ((e : Event) × (after.event_writes ≡ event_payload e ∷ s.event_writes)
          × (e.write_address ≡ event_queue_prod_entry_address s.core.regs)
          × (e.dword0 ≡ bit_or 0x10 ((request_sid_or_default attrs (default_sid c tbu)).0 * 2 ^ 32))
          × (e.dword2 ≡ p.address))
        × (load64 m evtq_base ≡ load64 s.core.regs evtq_base)
        × Holds (event_queue_log2_entries m) (load32 m evtq_prod) (load32 m evtq_cons) (n + 1)
  unfolding tbu_b_transport tbu_b_transport_with_sid record_unimplemented_translation_fault
      record_tbu_request_sid build_translation_fault_event send_event write_event_record update_irq
  tbu_reported enabled configured full held accepts =
      let (request, fallback) = request_sid_or_default attrs (default_sid c tbu) in
      let core = record_tbu_request_sid s.core (clamp_sid request) fallback in
      let (kept, holds) = event_recorded core n configured full held in
      let stream =
        ap (λ sid. bit_or 0x10 (sid * 2 ^ 32)) (request_clamped attrs (default_sid c tbu)) in
      rw (enabled, configured, full, accepts) ((_, refl, refl, stream, refl), kept, holds)
