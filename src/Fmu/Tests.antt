-- ===== src/Fmu/Tests.antt =====
-- The unit of zena_fmu.h with two banks of four records.
use qbox_platform.Prelude.{
  ◌-◌, ◌≡◌, refl, arith, bit_or, true, false, List, [], ◌∷◌, ◌==◌, if◌then◌else◌,
}
use qbox_platform.Prelude.Bits.{bit}
use qbox_platform.RegFile.{word_of}
use qbox_platform.Fmu.{
  Config, Fmu, sys_key, sys_key_value, sequence_error_bits, bank_count, record_count, decode,
  decode_record, decode_impdef, is_critical_record, is_non_critical_record, irq_record, irq_records,
  irq_banks, pending_irqs, update_irqs, put_flag, reset_registers,
}
use qbox_platform.Fmu.Writes.{
  set_sequence_error, require_unlock, set_software_error, write_impdef, write_ctlr,
  clear_record_status, write_register, write_key, write_bank, write32,
}
use qbox_platform.Fmu.Access.{update}
use qbox_platform.Fmu.Irqs.{Event, write, step, run}
use qbox_platform.Fmu.Raised.{any_below, raises_critical, raises_non_critical, run-irqs}
use qbox_platform.Fmu.Key.{IsKept, write32-IsKept, write_bank_locked, write_bank_once}

abbrev config : Config
config = record {
  trace = false;
  trace_limit = 64;
  enforce_sys_key = true;
  bank_param = 2;
  record_param = 4;
  critical_mask = 1;
  non_critical_mask = 0xe;
  default_ctlr = 0x2119;
  pidr0 = 0;
  pidr1 = 0;
  pidr2 = 0;
  pidr3 = 0;
  pidr4 = 0;
  cidr0 = 0;
  cidr1 = 0;
  cidr2 = 0;
  cidr3 = 0;
}

abbrev fresh : Fmu
fresh = reset_registers config

-- What a run of the unit computes with.
abbrev machinery : Unit {0}
unfolding bank_count record_count decode decode_record decode_impdef is_critical_record
    is_non_critical_record irq_record irq_records irq_banks pending_irqs update_irqs
    set_sequence_error require_unlock set_software_error write_impdef write_ctlr clear_record_status
    write_register write_key write_bank write32 update word_of step run reset_registers bit
machinery = tt

-- The key of bank 1, then an error injected into its critical record.
abbrev events : List Event
events = write 0x18bfc (0xbe ∷ 0 ∷ 0 ∷ 0 ∷ []) 4 ∷ write 0x18000 (0 ∷ 2 ∷ 0 ∷ 0 ∷ []) 4 ∷ []

raised : (run config fresh events).irqs.critical ≡ true
unfolding machinery
raised = refl

run-irqs_example :
    let s = run config (reset_registers config) events in
    (s.irqs.critical
      ≡ any_below
          (bank_count config)
          0
          (λ b. any_below (record_count config) 0 (raises_critical config s.ctlr s.status b)))
    × (s.irqs.non_critical
        ≡ any_below
            (bank_count config)
            0
            (λ b. any_below (record_count config) 0 (raises_non_critical config s.ctlr s.status b)))
run-irqs_example = run-irqs config events

write32-IsKept_example : IsKept 0 2 fresh (write32 config fresh 0x18bfc 0)
write32-IsKept_example = write32-IsKept config fresh 0x18bfc 0 0 2 (omega arith)

write_bank_locked_example :
    let s' = write_bank config fresh 0 0x08 0 in
    (s'.ctlr 0 3 ≡ fresh.ctlr 0 3)
    × (s'.impdef 0 3 ≡ fresh.impdef 0 3)
    × (s'.unlocked 0 ≡ false)
    × (s'.status 0 3 ≡ (
        if 3 == record_count config - 1
        then bit_or (fresh.status 0 3) sequence_error_bits
        else fresh.status 0 3))
unfolding machinery
write_bank_locked_example = write_bank_locked config fresh 0 0x08 0 3 refl (omega arith) refl

write_bank_once_example :
    let opened = write_bank config fresh 0 sys_key sys_key_value in
    let s' = write_bank config opened 0 0x08 0 in
    (s'
      ≡ write_register config
          (record opened { unlocked = put_flag opened.unlocked 0 false })
          0
          0x08
          0)
    × (s'.unlocked 0 ≡ false)
write_bank_once_example = write_bank_once config fresh 0 0x08 0 refl (omega arith)
