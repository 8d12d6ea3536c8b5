-- ===== src/Ppu.antt =====
-- systemc-components/host_ppu/include/host_ppu.h: a power policy unit, with its power-on thread.
pub mod Policy
pub mod Sequence
mod Tests
use qbox_platform.Prelude.{
  ℕ, ◌+◌, ◌%◌, ◌^◌, bit_and, bit_or, Bool, true, false, not, ◌&&◌, ◌||◌, List, [], ◌∷◌, leb, ◌==◌,
  if◌then◌else◌,
}
use qbox_platform.Prelude.Bits.{not_word}
use qbox_platform.RegFile.{RegBytes, zeroed, load32, store32, read_bytes, write_bytes, word_of}
use qbox_platform.Tlm
use qbox_platform.Tlm.{Command, Payload, Target}

pub record Config : Type 0 where
  pub trace : Bool
  pub trace_limit : ℕ
  pub initial_power_status : ℕ
  pub assert_power_on_reset : Bool
  pub power_on_reset_assert_on_power_off : Bool
  pub assert_power_on_load : Bool
  pub power_on_reset_bound : Bool
  pub power_on_load_bound : Bool

-- A value written to one of the two output sockets.
pub data Signal : Type 0 where
  power_on_reset : Bool → Signal
  power_on_load : Bool → Signal

-- Where the thread `emit_power_on_sequence` waits: for the event, for the end of the load pulse, or
-- for the delay before the reset is released.
pub data Phase : Type 0 where
  waiting load_pulse reset_delay : Phase

-- `pending` is a notified `m_power_on_sequence_event` that the kernel has not yet delivered.
-- `outputs` are the signals written, the newest first.
pub record Ppu : Type 0 where
  pub regs : RegBytes
  pub trace_count : ℕ
  pub phase : Phase
  pub pending : Bool
  pub outputs : List Signal

abbrev pub reg_bytes : ℕ
reg_bytes = 0x1000

abbrev pub ppu_pwpr : ℕ
ppu_pwpr = 0x000

abbrev pub ppu_pmer : ℕ
ppu_pmer = 0x004

abbrev pub ppu_pwsr : ℕ
ppu_pwsr = 0x008

abbrev pub power_mask : ℕ
power_mask = 0xf

abbrev pub dyn_enable : ℕ
dyn_enable = 2 ^ 8

abbrev pub off_lock_enable : ℕ
off_lock_enable = 2 ^ 12

abbrev pub op_dyn_enable : ℕ
op_dyn_enable = 2 ^ 24

-- The mask of all fields, and `PPU_POWER_MASK | PPU_OP_POLICY_MASK`.
abbrev pub status_mask : ℕ
status_mask = 0x010f110f

abbrev pub policy_mask : ℕ
policy_mask = 0x000f000f

unfoldable pub reset_registers : Config → Ppu
reset_registers c = record {
  regs = store32 zeroed ppu_pwsr (bit_and c.initial_power_status power_mask);
  trace_count = 0;
  phase = waiting;
  pending = false;
  outputs = [];
}

unfoldable pub trace_signal : Config → Ppu → Ppu
trace_signal c s =
    if not c.trace || leb c.trace_limit s.trace_count
    then s
    else record s { trace_count = s.trace_count + 1 }

unfoldable pub write_power_on_reset : Config → Ppu → Bool → Ppu
unfolding trace_signal
write_power_on_reset c s asserted =
    let t = trace_signal c s in
    if c.power_on_reset_bound then record t { outputs = power_on_reset asserted ∷ t.outputs } else t

unfoldable pub write_power_on_load : Config → Ppu → Bool → Ppu
unfolding trace_signal
write_power_on_load c s asserted =
    let t = trace_signal c s in
    if c.power_on_load_bound then record t { outputs = power_on_load asserted ∷ t.outputs } else t

abbrev pub power_status_is_on : ℕ → Bool
power_status_is_on status = bit_and status power_mask == 8

abbrev pub power_status_is_off : ℕ → Bool
power_status_is_off status = bit_and status power_mask == 0

unfoldable pub observe_power_transition : Config → Ppu → ℕ → ℕ → Ppu
unfolding trace_signal
observe_power_transition c s previous_status status =
    if not (power_status_is_on previous_status) && power_status_is_on status
    then record (trace_signal c s) { pending = true }
    else if power_status_is_on previous_status
        && power_status_is_off status
        && c.power_on_reset_assert_on_power_off
    then write_power_on_reset c s true
    else s

-- `if ((value & flag) != 0) status |= flag;`
abbrev pub copy_flag : ℕ → ℕ → ℕ → ℕ
copy_flag flag value status = if bit_and value flag == 0 then status else bit_or status flag

unfoldable pub next_status : ℕ → ℕ → ℕ
next_status status value = copy_flag op_dyn_enable value (
    copy_flag off_lock_enable value (
      copy_flag dyn_enable value
        (bit_or (bit_and status (not_word 32 status_mask)) (bit_and value policy_mask))))

unfoldable pub write32 : Config → Ppu → ℕ → ℕ → Ppu
write32 c s offset value =
    if offset == ppu_pwpr
    then (let previous_status = load32 s.regs ppu_pwsr in
        let status = next_status previous_status value in
        observe_power_transition c
          (record s { regs = store32 (store32 s.regs ppu_pwpr value) ppu_pwsr status })
          previous_status status)
    else if offset == ppu_pmer
    then record s { regs = store32 s.regs ppu_pmer value }
    else if offset == ppu_pwsr
    then s
    else record s { regs = store32 s.regs offset value }

-- The thread, from the test of p_assert_power_on_reset on.
unfoldable pub begin_reset : Config → Ppu → Ppu
begin_reset c s = record s { phase = if c.assert_power_on_reset then reset_delay else waiting }

-- The thread, from the event on.
unfoldable pub begin_sequence : Config → Ppu → Ppu
begin_sequence c s =
    if c.assert_power_on_load
    then record (write_power_on_load c s true) { phase = load_pulse }
    else begin_reset c s

resume_on : Config → Ppu → Phase → Ppu
resume_on c s waiting = begin_sequence c s
resume_on c s phase = s

-- The kernel delivers a notified event: it is lost on a thread that does not wait for it.
unfoldable pub deliver : Config → Ppu → Ppu
unfolding resume_on begin_sequence begin_reset write_power_on_load
deliver c s = if s.pending then resume_on c (record s { pending = false }) s.phase else s

expire_in : Config → Ppu → Phase → Ppu
expire_in c s waiting = s
expire_in c s load_pulse = begin_reset c (write_power_on_load c s false)
expire_in c s reset_delay = record (write_power_on_reset c s false) { phase = waiting }

-- The time that the thread waits for is over.
unfoldable pub expire : Config → Ppu → Ppu
unfolding expire_in begin_reset write_power_on_load write_power_on_reset
expire c s = expire_in c s s.phase

unfoldable pub update : Config → Ppu → ℕ → List ℕ → ℕ → Ppu
update c s offset payload len =
    if len == 4 && offset % 4 == 0
    then write32 c s (offset % 2 ^ 32) (word_of payload)
    else record s { regs = write_bytes s.regs offset payload }

unfoldable pub trace_access : Config → Ppu → Command → ℕ → ℕ → Ppu
unfolding trace_signal
trace_access c s command offset len = trace_signal c s

unfoldable pub target : Config → Target Ppu
target c = record {
  size = reg_bytes;
  fetch = λ s offset len. read_bytes s.regs offset len;
  update = update c;
  trace = trace_access c;
}

unfoldable pub access : Config → Ppu → Payload → Ppu × Payload × Bool
unfolding target
access c = Tlm.access (target c)

unfoldable pub b_transport : Config → Ppu → Payload → Ppu × Payload
unfolding target
b_transport c = Tlm.b_transport (target c)

unfoldable pub transport_dbg : Config → Ppu → Payload → Ppu × Payload × ℕ
unfolding target
transport_dbg c = Tlm.transport_dbg (target c)
