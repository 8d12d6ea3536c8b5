-- ===== src/Ssu/Invariant.antt =====
-- The state, the flag and the line of zena_ssu.h between two events.
use qbox_platform.Prelude.{
  ℕ, ◌≡◌, ◌⊎◌, arith, bit_or, Bool, true, false, ◌&&◌, List, [], ◌∷◌, ◌==◌, if◌then◌else◌,
}
use qbox_platform.Prelude.Bits.{bit, bit-lt_two, flag_lem}
use qbox_platform.Tlm.{Command}
use qbox_platform.Ssu.{
  Config, Ssu, sys_test, sys_safe, sys_errn, sys_errc, fault_bits, is_error, update_output,
  reset_registers,
}
use qbox_platform.Ssu.Registers.{
  set_sequence_error, require_unlock, set_fault, write_status, write_sys_ctrl, write_register,
  write_key, write32, update, trace_access, fault_in,
}

-- The level of the safety_status line: the last value written, low at first.
abbrev pub level : List Bool → Bool
level [] = false
level (b ∷ older) = b

pub record IsConsistent (c : Config) (s : Ssu) : Type 0 where
  pub flag : s.safety_status ≡ is_error s.sys_status
  pub line : level s.outputs ≡ (c.safety_status_bound && s.safety_status)
  pub one_hot :
      (s.sys_status ≡ sys_test)
      ⊎ (s.sys_status ≡ sys_safe)
      ⊎ (s.sys_status ≡ sys_errn)
      ⊎ (s.sys_status ≡ sys_errc)

-- The same without `flag`, which `update_output` establishes.
record IsReady (c : Config) (s : Ssu) : Type 0 where
  line : level s.outputs ≡ (c.safety_status_bound && s.safety_status)
  one_hot :
      (s.sys_status ≡ sys_test)
      ⊎ (s.sys_status ≡ sys_safe)
      ⊎ (s.sys_status ≡ sys_errn)
      ⊎ (s.sys_status ≡ sys_errc)

update_output-IsConsistent :
    (c : Config) (s : Ssu) → IsReady c s → IsConsistent c (update_output c s)
unfolding update_output
update_output-IsConsistent c s h = ground arith

-- The unit starts consistent.
pub reset_registers-IsConsistent : (c : Config) → IsConsistent c (reset_registers c)
unfolding reset_registers
reset_registers-IsConsistent c = ground arith

module _ (c : Config) where
  set_sequence_error-IsConsistent :
      (s : Ssu) → IsConsistent c s → IsConsistent c (set_sequence_error c s)
  unfolding set_sequence_error
  set_sequence_error-IsConsistent s h = update_output-IsConsistent c _ (ground arith)

  write_status-IsConsistent :
      (s : Ssu) (value : ℕ) → IsConsistent c s → IsConsistent c (write_status c s value)
  unfolding write_status
  write_status-IsConsistent s value h = update_output-IsConsistent c _ (ground arith)

  write_sys_ctrl-IsConsistent :
      (s : Ssu) (value : ℕ) → IsConsistent c s → IsConsistent c (write_sys_ctrl c s value)
  unfolding write_sys_ctrl
  write_sys_ctrl-IsConsistent s value h = update_output-IsConsistent c _ (ground arith)

  set_fault-IsConsistent :
      (s : Ssu) (critical : Bool) → IsConsistent c s → IsConsistent c (set_fault c s critical)
  unfolding set_fault update_output
  set_fault-IsConsistent s critical h = ground arith

  write_register-IsConsistent :
      (s : Ssu) (offset value : ℕ)
      → IsConsistent c s
      → IsConsistent c (write_register c s offset value)
  unfolding write_register update_output
  write_register-IsConsistent s offset value h =
      ground (arith, write_status-IsConsistent s value h, write_sys_ctrl-IsConsistent s value h)

  write_key-IsConsistent :
      (s : Ssu) (value : ℕ) → IsConsistent c s → IsConsistent c (write_key c s value)
  unfolding write_key
  write_key-IsConsistent s value h =
      ground (arith, set_sequence_error-IsConsistent (record s { unlocked = false }))

  require_unlock-IsConsistent : (s : Ssu) → IsConsistent c s → IsConsistent c (require_unlock c s).0
  unfolding require_unlock
  require_unlock-IsConsistent s h = ground (arith, set_sequence_error-IsConsistent s h)

  -- A register write keeps the unit consistent, whether the key lets it through or not.
  pub write32-IsConsistent :
      (s : Ssu) (offset value : ℕ) → IsConsistent c s → IsConsistent c (write32 c s offset value)
  unfolding write32
  write32-IsConsistent s offset value h = ground (
    arith,
    write_key-IsConsistent s value h,
    require_unlock-IsConsistent s h,
    write_register-IsConsistent (require_unlock c s).0 offset value,
  )

-- What can happen to the unit.
pub data Event : Type 0 where
  write : ℕ → List ℕ → ℕ → Event
  traced : Command → ℕ → ℕ → Event
  signal : Bool → Bool → Event

unfoldable pub step : Config → Ssu → Event → Ssu
step c s (write offset payload len) = update c s offset payload len
step c s (traced command offset len) = trace_access c s command offset len
step c s (signal critical value) = fault_in c s critical value

step-IsConsistent :
    (c : Config) (s : Ssu) (e : Event) → IsConsistent c s → IsConsistent c (step c s e)
unfolding step update trace_access fault_in
step-IsConsistent c s (write offset payload len) h = grind (arith, write32-IsConsistent)
step-IsConsistent c s (traced command offset len) h = ground arith
step-IsConsistent c s (signal critical value) h =
    ground (arith, set_fault-IsConsistent c s critical h)

unfoldable pub run : Config → Ssu → List Event → Ssu
run c s [] = s
run c s (e ∷ es) = run c (step c s e) es

run_from-IsConsistent :
    (c : Config) (s : Ssu) (es : List Event) → IsConsistent c s → IsConsistent c (run c s es)
unfolding run
run_from-IsConsistent c s [] h = h
run_from-IsConsistent c s (e ∷ es) h =
    run_from-IsConsistent c (step c s e) es (step-IsConsistent c s e h)

-- After any writes, traces and fault signals from the start, the safety flag is high exactly in the
-- two error states, the safety line, where it is bound, is at the level of the flag, and the state
-- is one of the four.
pub run-IsConsistent :
    (c : Config) (es : List Event) → IsConsistent c (run c (reset_registers c) es)
run-IsConsistent c es =
    run_from-IsConsistent c (reset_registers c) es (reset_registers-IsConsistent c)

-- A fault signal that is enabled drives the unit into the error state of its kind, with the safety
-- flag high; one whose reporting is off leaves the state, the flag and the error registers alone.
pub fault_in_lem :
    (c : Config) (s : Ssu) (critical : Bool)
    → let on =
        bit s.err_ctrl 0 == 1
        && (if critical then bit s.err_impdef 0 else bit s.err_impdef 1) == 1 in
      let s' = fault_in c s critical true in
      (s'.sys_status ≡ (if on then (if critical then sys_errc else sys_errn) else s.sys_status))
      × (s'.safety_status ≡ (if on then true else s.safety_status))
      × (s'.err_status ≡ (if on then bit_or s.err_status fault_bits else s.err_status))
      × (s'.err_ctrl ≡ s.err_ctrl)
      × (s'.err_impdef ≡ s.err_impdef)
unfolding fault_in set_fault update_output
fault_in_lem c s critical = ground (
  arith,
  flag_lem s.err_ctrl 0,
  flag_lem s.err_impdef 0,
  flag_lem s.err_impdef 1,
  bit-lt_two s.err_ctrl 0,
  bit-lt_two s.err_impdef 0,
  bit-lt_two s.err_impdef 1,
)
