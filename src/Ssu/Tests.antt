-- ===== src/Ssu/Tests.antt =====
-- The unit of zena_ssu.h from its reset on.
use qbox_platform.Prelude.{
  ◌≡◌, refl, arith, bit_or, true, false, List, [], ◌∷◌, ◌==◌, if◌then◌else◌,
}
use qbox_platform.Prelude.Bits.{bit}
use qbox_platform.RegFile.{word_of}
use qbox_platform.Ssu.{
  Config, Ssu, sys_safe, sys_key_value, sequence_error_bits, update_output, reset_registers,
}
use qbox_platform.Ssu.Registers.{
  set_sequence_error, require_unlock, set_fault, cleared_status, write_status, write_sys_ctrl,
  write_register, write_key, write32, update, fault_in,
}
use qbox_platform.Ssu.Status.{write32_locked, write32_unlocked}
use qbox_platform.Ssu.Invariant.{IsConsistent, Event, write, signal, step, run, run-IsConsistent}

abbrev config : Config
config = record {
  trace = false;
  trace_limit = 64;
  enforce_sys_key = true;
  pidr0 = 0;
  pidr1 = 0;
  pidr2 = 0;
  pidr3 = 0;
  pidr4 = 0;
  cidr0 = 0;
  cidr1 = 0;
  cidr2 = 0;
  cidr3 = 0;
  safety_status_bound = true;
}

abbrev fresh : Ssu
fresh = reset_registers config

-- What a run of the unit computes with.
abbrev machinery : Unit {0}
unfolding update_output reset_registers set_sequence_error require_unlock set_fault cleared_status
    write_status write_sys_ctrl write_register write_key write32 update fault_in word_of step run
    bit
machinery = tt

-- A critical fault, then the key, then a write of one to V.
abbrev events : List Event
events =
    signal true true
    ∷ write 0x804 (0xbe ∷ 0 ∷ 0 ∷ 0 ∷ []) 4
    ∷ write 0x010 (0 ∷ 0 ∷ 0 ∷ 0x40 ∷ []) 4
    ∷ []

recovers : (run config fresh events).sys_status ≡ sys_safe
unfolding machinery
recovers = refl

recovers-outputs : (run config fresh events).outputs ≡ false ∷ true ∷ []
unfolding machinery
recovers-outputs = refl

run-IsConsistent_example : IsConsistent config (run config (reset_registers config) events)
run-IsConsistent_example = run-IsConsistent config events

write32_locked_example :
    let s' = write32 config fresh 0x810 3 in
    (s'.err_ctrl ≡ fresh.err_ctrl)
    × (s'.err_impdef ≡ fresh.err_impdef)
    × (s'.sys_status ≡ fresh.sys_status)
    × (s'.status_detail ≡ fresh.status_detail)
    × (s'.unlocked ≡ false)
    × (s'.err_status ≡ (
        if bit fresh.err_impdef 5 == 0
        then fresh.err_status
        else bit_or fresh.err_status sequence_error_bits))
unfolding machinery
write32_locked_example = write32_locked config fresh 0x810 3 refl (omega arith) refl

write32_unlocked_example :
    let s' = write32 config (write32 config fresh 0x804 sys_key_value) 0x810 3 in
    (s' ≡ write_register config (record fresh { unlocked = false }) 0x810 3) × (s'.unlocked ≡ false)
write32_unlocked_example = write32_unlocked config fresh 0x810 3 refl (omega arith)
