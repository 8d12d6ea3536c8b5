-- ===== src/Lcm/Registers.antt =====
-- Register accesses of rse_lcm.h.
use qbox_platform.Prelude.{
  ℕ, ◌+◌, ◌%◌, ◌^◌, Bool, true, not, ◌&&◌, ◌||◌, Option, none, some, List, leb, ◌==◌, if◌then◌else◌,
}
use qbox_platform.RegFile.{store32, read_bytes, write_bytes, word_of}
use qbox_platform.Tlm
use qbox_platform.Tlm.{Command, Payload, Target}
use qbox_platform.Lcm.{
  Config, Lcm, reg_bytes, lcs_value, key_err, tp_mode_reg, sp_enable_reg, otp_addr_width,
  otp_size_reg, gppc_reg, lcm_true, sp_enable_magic, write_otp,
}

-- The last two cases of the source both store the value.
unfoldable pub write32 : Config → Lcm → ℕ → ℕ → Lcm
write32 c s offset value =
    if offset == lcs_value
      || offset == key_err
      || offset == tp_mode_reg
      || offset == otp_addr_width
      || offset == otp_size_reg
      || offset == gppc_reg
    then s
    else if offset == sp_enable_reg
    then (if value == sp_enable_magic
        then record s {
          regs = store32 s.regs sp_enable_reg lcm_true;
          otp_locked = if c.otp_lock_after_provision then true else s.otp_locked;
        }
        else record s { regs = store32 s.regs sp_enable_reg value })
    else record s { regs = store32 s.regs offset value }

unless_otp : Config → Lcm → ℕ → List ℕ → ℕ → Option Lcm → Lcm
unless_otp c s offset payload len (some s') = s'
unless_otp c s offset payload len none =
    if len == 4 && offset % 4 == 0
    then write32 c s (offset % 2 ^ 32) (word_of payload)
    else record s { regs = write_bytes s.regs offset payload }

unfoldable pub update : Config → Lcm → ℕ → List ℕ → ℕ → Lcm
unfolding unless_otp
update c s offset payload len = unless_otp c s offset payload len (write_otp c s offset payload len)

unfoldable pub trace_access : Config → Lcm → Command → ℕ → ℕ → Lcm
trace_access c s command offset len =
    if not c.trace || leb c.trace_limit s.trace_count
    then s
    else record s { trace_count = s.trace_count + 1 }

unfoldable pub target : Config → Target Lcm
target c = record {
  size = reg_bytes;
  fetch = λ s offset len. read_bytes s.regs offset len;
  update = update c;
  trace = trace_access c;
}

unfoldable pub access : Config → Lcm → Payload → Lcm × Payload × Bool
unfolding target
access c = Tlm.access (target c)

unfoldable pub b_transport : Config → Lcm → Payload → Lcm × Payload
unfolding target
b_transport c = Tlm.b_transport (target c)

unfoldable pub transport_dbg : Config → Lcm → Payload → Lcm × Payload × ℕ
unfolding target
transport_dbg c = Tlm.transport_dbg (target c)
