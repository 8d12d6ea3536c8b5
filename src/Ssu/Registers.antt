-- ===== src/Ssu/Registers.antt =====
-- Register accesses and fault inputs of zena_ssu.h.
use qbox_platform.Prelude.{
  ℕ, ◌+◌, ◌%◌, ◌^◌, bit_and, bit_or, Bool, true, false, not, ◌&&◌, ◌||◌, List, leb, ◌==◌,
  if◌then◌else◌,
}
use qbox_platform.Prelude.Bits.{not_word}
use qbox_platform.RegFile.{word_of}
use qbox_platform.Tlm
use qbox_platform.Tlm.{Command, Payload, Target}
use qbox_platform.Tlm.Words.{fetch}
use qbox_platform.Ssu.{
  Config, Ssu, reg_bytes, sys_key_value, err_ctrl_ed, status_v, status_w1c_mask, status_rw_mask,
  sequence_error_bits, fault_bits, impdef_cr_en, impdef_ncr_en, impdef_inc_seq, impdef_rw_mask,
  sys_test, sys_safe, sys_errn, sys_errc, is_error, update_output,
}

unfoldable pub set_sequence_error : Config → Ssu → Ssu
set_sequence_error c s = update_output c (
    if bit_and s.err_impdef impdef_inc_seq == 0
    then s
    else record s { err_status = bit_or s.err_status sequence_error_bits })

-- The flag says whether the write may go on.
unfoldable pub require_unlock : Config → Ssu → Ssu × Bool
require_unlock c s =
    if not c.enforce_sys_key
    then (s, true)
    else if s.unlocked
    then (record s { unlocked = false }, true)
    else (set_sequence_error c s, false)

unfoldable pub set_fault : Config → Ssu → Bool → Ssu
set_fault c s critical =
    if bit_and s.err_ctrl err_ctrl_ed == 0
      || critical && bit_and s.err_impdef impdef_cr_en == 0
      || not critical && bit_and s.err_impdef impdef_ncr_en == 0
    then s
    else update_output c (record s {
      err_status = bit_or s.err_status fault_bits;
      sys_status = if critical then sys_errc else sys_errn;
    })

unfoldable pub cleared_status : ℕ → ℕ → ℕ
cleared_status status value =
    let kept = bit_and status (not_word 32 (bit_and value status_w1c_mask)) in
    if bit_and kept status_v == 0
    then kept
    else bit_or (bit_and kept (not_word 32 status_rw_mask)) (bit_and value status_rw_mask)

unfoldable pub write_status : Config → Ssu → ℕ → Ssu
write_status c s value =
    let status = cleared_status s.err_status value in
    update_output c (record s {
      err_status = status;
      sys_status =
          if bit_and status status_v == 0 && is_error s.sys_status then sys_safe else s.sys_status;
    })

unfoldable pub write_sys_ctrl : Config → Ssu → ℕ → Ssu
write_sys_ctrl c s value =
    let field = bit_and value 3 in
    update_output c (record s {
      sys_status =
          if field == 0
          then sys_test
          else if field == 1
          then sys_safe
          else if field == 2
          then sys_errn
          else if field == 3
          then sys_errc
          else s.sys_status;
    })

unfoldable pub pidcid_value : Config → ℕ → ℕ
pidcid_value c offset =
    if offset == 0xfd0
    then c.pidr4
    else if offset == 0xfe0
    then c.pidr0
    else if offset == 0xfe4
    then c.pidr1
    else if offset == 0xfe8
    then c.pidr2
    else if offset == 0xfec
    then c.pidr3
    else if offset == 0xff0
    then c.cidr0
    else if offset == 0xff4
    then c.cidr1
    else if offset == 0xff8
    then c.cidr2
    else if offset == 0xffc
    then c.cidr3
    else 0

unfoldable pub read32 : Config → Ssu → ℕ → ℕ
read32 c s offset =
    if offset == 0x000
    then 2
    else if offset == 0x008
    then s.err_ctrl
    else if offset == 0x010
    then s.err_status
    else if offset == 0x800
    then s.err_impdef
    else if offset == 0x804
    then (if s.unlocked then sys_key_value else 0)
    else if offset == 0x808
    then s.sys_status
    else if offset == 0x810
    then 0
    else if offset == 0x814
    then s.status_detail
    else pidcid_value c offset

-- The `switch` of `write32`, behind the key.
unfoldable pub write_register : Config → Ssu → ℕ → ℕ → Ssu
write_register c s offset value =
    if offset == 0x008
    then update_output c (record s { err_ctrl = bit_and value err_ctrl_ed })
    else if offset == 0x010
    then write_status c s value
    else if offset == 0x800
    then update_output c (record s {
      err_impdef =
          bit_or (bit_and s.err_impdef (not_word 32 impdef_rw_mask)) (bit_and value impdef_rw_mask);
    })
    else if offset == 0x810
    then write_sys_ctrl c s value
    else if offset == 0x814
    then record s { status_detail = bit_and value 0xffff }
    else s

unfoldable pub write_key : Config → Ssu → ℕ → Ssu
write_key c s value =
    if value == sys_key_value
    then record s { unlocked = true }
    else set_sequence_error c (record s { unlocked = false })

unfoldable pub write32 : Config → Ssu → ℕ → ℕ → Ssu
write32 c s offset value =
    if offset == 0x804
    then write_key c s value
    else let (s', allowed) = require_unlock c s in
      if allowed then write_register c s' offset value else s'

unfoldable pub update : Config → Ssu → ℕ → List ℕ → ℕ → Ssu
update c s offset payload len =
    if len == 4 && offset % 4 == 0 then write32 c s (offset % 2 ^ 32) (word_of payload) else s

unfoldable pub trace_access : Config → Ssu → Command → ℕ → ℕ → Ssu
trace_access c s command offset len =
    if not c.trace || leb c.trace_limit s.trace_count
    then s
    else record s { trace_count = s.trace_count + 1 }

unfoldable pub target : Config → Target Ssu
target c = record {
  size = reg_bytes;
  fetch = λ s offset len. fetch (λ a. read32 c s (a % 2 ^ 32)) offset len;
  update = update c;
  trace = trace_access c;
}

unfoldable pub access : Config → Ssu → Payload → Ssu × Payload × Bool
unfolding target
access c = Tlm.access (target c)

unfoldable pub b_transport : Config → Ssu → Payload → Ssu × Payload
unfolding target
b_transport c = Tlm.b_transport (target c)

unfoldable pub transport_dbg : Config → Ssu → Payload → Ssu × Payload × ℕ
unfolding target
transport_dbg c = Tlm.transport_dbg (target c)

-- The callbacks of critical_in and non_critical_in.
unfoldable pub fault_in : Config → Ssu → Bool → Bool → Ssu
fault_in c s critical value = if value then set_fault c s critical else s
