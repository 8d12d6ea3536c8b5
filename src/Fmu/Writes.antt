-- ===== src/Fmu/Writes.antt =====
-- Register writes of zena_fmu.h, each behind the key of its bank.
use qbox_platform.Prelude.{
  ℕ, ◌-◌, bit_and, bit_or, Bool, true, false, not, ◌&&◌, Option, none, some, ◌==◌, if◌then◌else◌,
}
use qbox_platform.Prelude.Bits.{not_word}
use qbox_platform.Fmu.{
  Config, Fmu, sys_key, sys_key_value, ctlr_ed, ctlr_rw_mask, status_v, status_rw_mask,
  status_w1c_mask, sequence_error_bits, software_error_bits, status_ci, status_ue, impdef_ie_mask,
  impdef_ic_mask, impdef_stored_mask, status_cleared_mask, record_count, decode, decode_record,
  decode_impdef, is_critical_record, update_irqs, put, put_flag,
}

unfoldable pub set_sequence_error : Config → Fmu → ℕ → Fmu
set_sequence_error c s bank =
    let rec = if record_count c == 0 then 0 else record_count c - 1 in
    update_irqs c
      (record s { status = put s.status bank rec (bit_or (s.status bank rec) sequence_error_bits) })

unfoldable pub require_unlock : Config → Fmu → ℕ → Fmu × Bool
require_unlock c s bank =
    if not c.enforce_sys_key
    then (s, true)
    else if s.unlocked bank
    then (record s { unlocked = put_flag s.unlocked bank false }, true)
    else (set_sequence_error c s bank, false)

unfoldable pub set_software_error : Config → Fmu → ℕ → ℕ → Bool → Fmu
set_software_error c s bank index critical =
    let status = bit_or software_error_bits (if critical then status_ci else status_ue) in
    update_irqs c
      (record s { status = put s.status bank index (bit_or (s.status bank index) status) })

unfoldable pub cleared_status : ℕ → ℕ → ℕ
cleared_status status value =
    let kept = bit_and status (not_word 32 (bit_and value status_w1c_mask)) in
    if bit_and kept status_v == 0
    then kept
    else bit_or (bit_and kept (not_word 32 status_rw_mask)) (bit_and value status_rw_mask)

unfoldable pub clear_record_status : Config → Fmu → ℕ → ℕ → ℕ → Fmu
clear_record_status c s bank index value =
    update_irqs c
      (record s { status = put s.status bank index (cleared_status (s.status bank index) value) })

-- `(old & ~mask) | (value & mask)`
abbrev pub merge : ℕ → ℕ → ℕ → ℕ
merge mask old value = bit_or (bit_and old (not_word 32 mask)) (bit_and value mask)

unfoldable pub write_ctlr : Config → Fmu → ℕ → ℕ → ℕ → Fmu
write_ctlr c s bank index value =
    update_irqs c
      (record s { ctlr = put s.ctlr bank index (merge ctlr_rw_mask (s.ctlr bank index) value) })

-- Both branches of the inner `if` of the source set the same error.
unfoldable pub write_impdef : Config → Fmu → ℕ → ℕ → ℕ → Fmu
write_impdef c s bank index value =
    let s' = record s {
      impdef = put s.impdef bank index (merge impdef_stored_mask (s.impdef bank index) value);
      status =
          if bit_and value impdef_ic_mask == 0
          then s.status
          else put s.status bank index
              (bit_and (s.status bank index) (not_word 32 status_cleared_mask));
    } in
    if not (bit_and value impdef_ie_mask == 0) && not (bit_and (s.ctlr bank index) ctlr_ed == 0)
    then set_software_error c s' bank index (is_critical_record c index)
    else update_irqs c s'

unfoldable pub write_field : Config → Fmu → ℕ → ℕ × ℕ → ℕ → Fmu
write_field c s bank (index, field) value =
    if field == 0x08
    then write_ctlr c s bank index value
    else if field == 0x10
    then clear_record_status c s bank index value
    else s

unfoldable pub write_rest : Config → Fmu → ℕ → Option ℕ → ℕ → Fmu
write_rest c s bank (some index) value = write_impdef c s bank index value
write_rest c s bank none value = s

unfoldable pub write_place : Config → Fmu → ℕ → ℕ → Option (ℕ × ℕ) → ℕ → Fmu
write_place c s bank reg (some place) value = write_field c s bank place value
write_place c s bank reg none value = write_rest c s bank (decode_impdef c reg) value

-- The register write that the key has let through.
unfoldable pub write_register : Config → Fmu → ℕ → ℕ → ℕ → Fmu
unfolding write_place write_rest write_field
write_register c s bank reg value = write_place c s bank reg (decode_record c reg) value

unfoldable pub write_key : Config → Fmu → ℕ → ℕ → Fmu
write_key c s bank value =
    if value == sys_key_value
    then record s { unlocked = put_flag s.unlocked bank true }
    else set_sequence_error c (record s { unlocked = put_flag s.unlocked bank false }) bank

unfoldable pub write_bank : Config → Fmu → ℕ → ℕ → ℕ → Fmu
write_bank c s bank reg value =
    if reg == sys_key
    then write_key c s bank value
    else let (s', allowed) = require_unlock c s bank in
      if allowed then write_register c s' bank reg value else s'

unfoldable pub write_decoded : Config → Fmu → ℕ → Option (ℕ × ℕ) → Fmu
write_decoded c s value none = s
write_decoded c s value (some (bank, reg)) = write_bank c s bank reg value

unfoldable pub write32 : Config → Fmu → ℕ → ℕ → Fmu
unfolding write_decoded
write32 c s offset value = write_decoded c s value (decode c offset)
