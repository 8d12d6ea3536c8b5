-- ===== src/Smmu/Sockets.antt =====
-- systemc-components/mmu720ae/src/mmu720ae.cc: the sockets around the core. What answers behind
-- `downstream_socket` and `ptw_socket` is a parameter.
use qbox_platform.Prelude.{
  ℕ, ◌+◌, ◌%◌, ◌/◌, ◌^◌, bit_and, Bool, true, false, not, ◌||◌, Option, none, some, List, ◌∷◌, ◌++◌,
  leb, ◌==◌, if◌then◌else◌,
}
use qbox_platform.RegFile.{bytes_of}
use qbox_platform.Tlm.{
  Command, read, write, ignore, incomplete, ok, address_error, command_error, Payload, is_ok,
}
use qbox_platform.Smmu.{Core, Event, smmu_enabled, build_translation_fault_event}
use qbox_platform.Smmu.Registers
use qbox_platform.Smmu.Registers.{
  reset, record_tbu_request_sid, record_event_queue_abort, complete_event_queue_write,
}

-- `irq_bound` says whether anything is bound to `irq_combined`. The answers are what `b_transport` and
-- `transport_dbg` give back behind the two initiator sockets.
pub record Config : Type 0 where
  pub trace : Bool
  pub trace_limit : ℕ
  pub tbu_ace1_default_sid : ℕ
  pub tbu_ace2_default_sid : ℕ
  pub tbu_lti00_default_sid : ℕ
  pub tbu_lti01_default_sid : ℕ
  pub tbu_lti02_default_sid : ℕ
  pub irq_bound : Bool
  pub downstream : Payload → Payload
  pub downstream_dbg : Payload → Payload × ℕ
  pub ptw : Payload → Payload

-- The levels written to `irq_combined`, and the payloads sent through the sockets, the last one first.
pub record Module : Type 0 where
  pub core : Core
  pub trace_count : ℕ
  pub irq_writes : List Bool
  pub forwarded : List Payload
  pub event_writes : List Payload

-- The two fields that the module reads.
pub record RequestAttrs : Type 0 where
  pub sid : ℕ
  pub sid_valid : Bool

unfoldable pub update_irq : Config → Module → Module
update_irq c s = record s {
  irq_writes = if c.irq_bound then s.core.combined_irq ∷ s.irq_writes else s.irq_writes;
}

unfoldable pub doreset : Config → Module → Bool → Module
doreset c s level = if level then update_irq c (record s { core = reset s.core }) else s

unfoldable pub trace_access : Config → Module → Module
trace_access c s = record s {
  trace_count =
      if not c.trace || leb c.trace_limit s.trace_count then s.trace_count else s.trace_count + 1;
}

unfoldable pub finish_read : Config → Module → Payload → Option (List ℕ) → Module × Payload × Bool
finish_read c s p none = (s, record p { response = address_error }, false)
finish_read c s p (some bs) =
    (update_irq c (trace_access c s), record p { bytes = some bs; response = ok }, true)

unfoldable pub finish_write : Config → Module → Payload → Option Core → Module × Payload × Bool
finish_write c s p none = (s, record p { response = address_error }, false)
finish_write c s p (some core) =
    (update_irq c (trace_access c (record s { core = core })), record p { response = ok }, true)

unfoldable pub access_command :
    Config → Module → Payload → Command → Option (List ℕ) → Module × Payload × Bool
unfolding finish_read finish_write
access_command c s p ignore payload = (s, record p { response = command_error }, false)
access_command c s p read none = (s, record p { response = address_error }, false)
access_command c s p write none = (s, record p { response = address_error }, false)
access_command c s p read (some bs) =
    finish_read c s p (Registers.read s.core p.address p.data_length)
access_command c s p write (some bs) =
    finish_write c s p (Registers.write s.core p.address bs p.data_length)

unfoldable pub access_registers : Config → Module → Payload → Module × Payload × Bool
unfolding access_command
access_registers c s p = access_command c s p p.command p.bytes

unfoldable pub b_transport : Config → Module → Payload → Module × Payload
b_transport c s p =
    let (s', p', done) = access_registers c s (record p { dmi_allowed = false }) in (s', p')

unfoldable pub transport_dbg : Config → Module → Payload → Module × Payload × ℕ
transport_dbg c s p =
    let (s', p', done) = access_registers c s p in (s', p', if done then p'.data_length else 0)

unfoldable pub forward_bypass : Config → Module → Payload → Bool → Module × Payload × Bool
forward_bypass c s p debug =
    let s' = record s { forwarded = p ∷ s.forwarded } in
    let (answer, count) = c.downstream_dbg p in
    if debug
    then (s', answer, count == answer.data_length)
    else (s', c.downstream p, is_ok (c.downstream p).response)

unfoldable pub clamp_sid : ℕ → ℕ
clamp_sid sid = bit_and sid 0xff

-- The stream of a request, and whether it is the default one.
unfoldable pub request_sid_or_default : Option RequestAttrs → ℕ → ℕ × Bool
request_sid_or_default none default_sid = (clamp_sid default_sid, true)
request_sid_or_default (some attrs) default_sid =
    if attrs.sid_valid then (clamp_sid attrs.sid, false) else (clamp_sid default_sid, true)

dword_bytes : ℕ → List ℕ
dword_bytes d = bytes_of (d % 2 ^ 32) ++ bytes_of (d / 2 ^ 32 % 2 ^ 32)

unfoldable pub event_payload : Event → Payload
unfolding dword_bytes
event_payload e = record {
  command = write;
  address = e.write_address;
  bytes = some (
      dword_bytes e.dword0 ++ dword_bytes e.dword1 ++ dword_bytes e.dword2 ++ dword_bytes e.dword3);
  data_length = 32;
  response = incomplete;
  dmi_allowed = false;
}

unfoldable pub write_event_record : Config → Module → Event → Module × Bool
write_event_record c s e = (
  record s { event_writes = event_payload e ∷ s.event_writes },
  is_ok (c.ptw (event_payload e)).response,
)

unfoldable pub send_event : Config → Module → Option Event → Module
send_event c s none = update_irq c (record s { core = record_event_queue_abort s.core })
send_event c s (some e) =
    let (s', written) = write_event_record c s e in
    update_irq c (record s' { core = complete_event_queue_write s'.core written })

is_read : Command → Bool
is_read read = true
is_read _ = false

unfoldable pub record_unimplemented_translation_fault :
    Config → Module → Payload → ℕ → Bool → Module
unfolding is_read
record_unimplemented_translation_fault c s p sid fallback =
    let event_sid = clamp_sid sid in
    let core = record_tbu_request_sid s.core event_sid fallback in
    send_event c (record s { core = core })
      (build_translation_fault_event core.regs p.address (is_read p.command) event_sid)

unfoldable pub tbu_b_transport_with_sid :
    Config → Module → Option RequestAttrs → Payload → ℕ → Module × Payload
tbu_b_transport_with_sid c s attrs p sid =
    let (request_sid, fallback) = request_sid_or_default attrs sid in
    let (s', p', done) = forward_bypass c s p false in
    if smmu_enabled s.core.regs
    then (
      update_irq c (record_unimplemented_translation_fault c s p request_sid fallback),
      record p { dmi_allowed = false; response = command_error },
    )
    else (s', p')

unfoldable pub tbu_transport_dbg_with_sid :
    Config → Module → Option RequestAttrs → Payload → ℕ → Module × Payload × ℕ
tbu_transport_dbg_with_sid c s attrs p sid =
    let (request_sid, fallback) = request_sid_or_default attrs sid in
    let (s', p', done) = forward_bypass c s p true in
    if smmu_enabled s.core.regs
    then (
      record s { core = record_tbu_request_sid s.core request_sid fallback },
      record p { response = command_error },
      0,
    )
    else (s', p', if done then p'.data_length else 0)

-- The requesters, each with its sockets and its default stream.
pub data Tbu : Type 0 where
  ace1 : Tbu
  ace2 : Tbu
  lti00 : Tbu
  lti01 : Tbu
  lti02 : Tbu

unfoldable pub default_sid : Config → Tbu → ℕ
default_sid c ace1 = c.tbu_ace1_default_sid
default_sid c ace2 = c.tbu_ace2_default_sid
default_sid c lti00 = c.tbu_lti00_default_sid
default_sid c lti01 = c.tbu_lti01_default_sid
default_sid c lti02 = c.tbu_lti02_default_sid

unfoldable pub tbu_b_transport :
    Config → Module → Tbu → Option RequestAttrs → Payload → Module × Payload
tbu_b_transport c s tbu attrs p = tbu_b_transport_with_sid c s attrs p (default_sid c tbu)

unfoldable pub tbu_transport_dbg :
    Config → Module → Tbu → Option RequestAttrs → Payload → Module × Payload × ℕ
tbu_transport_dbg c s tbu attrs p = tbu_transport_dbg_with_sid c s attrs p (default_sid c tbu)
