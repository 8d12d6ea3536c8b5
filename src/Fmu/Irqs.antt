-- ===== src/Fmu/Irqs.antt =====
-- The interrupt flags of zena_fmu.h under register writes.
use qbox_platform.Prelude.{ℕ, ◌≡◌, arith, Option, none, some, List, [], ◌∷◌, ◌==◌, if_intro}
use qbox_platform.RegFile.{word_of}
use qbox_platform.Tlm.{Command}
use qbox_platform.Fmu.{
  Config, Fmu, pending_irqs, update_irqs, sys_key_value, decode, decode_record, decode_impdef,
}
use qbox_platform.Fmu.Writes.{
  set_sequence_error, require_unlock, set_software_error, clear_record_status, write_ctlr,
  write_impdef, write_register, write_key, write_field, write_rest, write_place, write_bank,
  write_decoded, write32,
}
use qbox_platform.Fmu.Access.{update, trace_access}

-- The flags are those of the records.
pub record IsConsistent (c : Config) (s : Fmu) : Type 0 where
  pub flags : s.irqs ≡ pending_irqs c s.ctlr s.status

pub tables-update_irqs :
    (c : Config) (s : Fmu)
    → ((update_irqs c s).ctlr ≡ s.ctlr)
      × ((update_irqs c s).status ≡ s.status)
      × ((update_irqs c s).impdef ≡ s.impdef)
      × ((update_irqs c s).unlocked ≡ s.unlocked)
unfolding update_irqs
tables-update_irqs c s = ground arith

irqs-update_irqs : (c : Config) (s : Fmu) → (update_irqs c s).irqs ≡ pending_irqs c s.ctlr s.status
unfolding update_irqs
irqs-update_irqs c s = ground arith

-- `update_irqs` brings the flags up to date, whatever they were.
pub update_irqs-IsConsistent : (c : Config) (s : Fmu) → IsConsistent c (update_irqs c s)
update_irqs-IsConsistent c s =
    let (e, d, f, g) = tables-update_irqs c s in record { flags = rw (e, d) (irqs-update_irqs c s) }

module _ (c : Config) (s : Fmu) (bank : ℕ) where
  set_sequence_error-IsConsistent : IsConsistent c (set_sequence_error c s bank)
  unfolding set_sequence_error
  set_sequence_error-IsConsistent = update_irqs-IsConsistent c _

  require_unlock-IsConsistent : IsConsistent c s → IsConsistent c (require_unlock c s bank).0
  unfolding require_unlock
  require_unlock-IsConsistent h = ground (arith, set_sequence_error-IsConsistent)

  write_ctlr-IsConsistent : (index value : ℕ) → IsConsistent c (write_ctlr c s bank index value)
  unfolding write_ctlr
  write_ctlr-IsConsistent index value = update_irqs-IsConsistent c _

  clear_record_status-IsConsistent :
      (index value : ℕ) → IsConsistent c (clear_record_status c s bank index value)
  unfolding clear_record_status
  clear_record_status-IsConsistent index value = update_irqs-IsConsistent c _

  write_impdef-IsConsistent : (index value : ℕ) → IsConsistent c (write_impdef c s bank index value)
  unfolding write_impdef set_software_error
  write_impdef-IsConsistent index value =
      if_intro (IsConsistent c) _ (update_irqs-IsConsistent c _) (update_irqs-IsConsistent c _)

  write_field-IsConsistent :
      (place : ℕ × ℕ) (value : ℕ)
      → IsConsistent c s
      → IsConsistent c (write_field c s bank place value)
  unfolding write_field
  write_field-IsConsistent (index, field) value h =
      ground
        (arith, write_ctlr-IsConsistent index value, clear_record_status-IsConsistent index value)

  write_rest-IsConsistent :
      (place : Option ℕ) (value : ℕ)
      → IsConsistent c s
      → IsConsistent c (write_rest c s bank place value)
  unfolding write_rest
  write_rest-IsConsistent none value h = h
  write_rest-IsConsistent (some index) value h = write_impdef-IsConsistent index value

  write_place-IsConsistent :
      (reg : ℕ) (place : Option (ℕ × ℕ)) (value : ℕ)
      → IsConsistent c s
      → IsConsistent c (write_place c s bank reg place value)
  unfolding write_place
  write_place-IsConsistent reg none value h = write_rest-IsConsistent (decode_impdef c reg) value h
  write_place-IsConsistent reg (some place) value h = write_field-IsConsistent place value h

  write_register-IsConsistent :
      (reg value : ℕ) → IsConsistent c s → IsConsistent c (write_register c s bank reg value)
  unfolding write_register
  write_register-IsConsistent reg value h =
      write_place-IsConsistent reg (decode_record c reg) value h

module _ (c : Config) where
  write_key-IsConsistent :
      (s : Fmu) (bank value : ℕ) → IsConsistent c s → IsConsistent c (write_key c s bank value)
  unfolding write_key
  write_key-IsConsistent s bank value h =
      if_intro (IsConsistent c) (value == sys_key_value) (record { flags = h.flags })
        (set_sequence_error-IsConsistent c _ bank)

  write_bank-IsConsistent :
      (s : Fmu) (bank reg value : ℕ)
      → IsConsistent c s
      → IsConsistent c (write_bank c s bank reg value)
  unfolding write_bank
  write_bank-IsConsistent s bank reg value h =
      if_intro (IsConsistent c) _ (write_key-IsConsistent s bank value h) (
        if_intro (IsConsistent c) _
          (write_register-IsConsistent c (require_unlock c s bank).0 bank reg value
            (require_unlock-IsConsistent c s bank h))
          (require_unlock-IsConsistent c s bank h))

  write_decoded-IsConsistent :
      (s : Fmu) (value : ℕ) (place : Option (ℕ × ℕ))
      → IsConsistent c s
      → IsConsistent c (write_decoded c s value place)
  unfolding write_decoded
  write_decoded-IsConsistent s value none h = h
  write_decoded-IsConsistent s value (some (bank, reg)) h =
      write_bank-IsConsistent s bank reg value h

  -- A register write anywhere keeps the interrupt flags in step with the records.
  pub write32-IsConsistent :
      (s : Fmu) (offset value : ℕ) → IsConsistent c s → IsConsistent c (write32 c s offset value)
  unfolding write32
  write32-IsConsistent s offset value h = write_decoded-IsConsistent s value (decode c offset) h

-- A bus access that changes the unit, or a traced one.
pub data Event : Type 0 where
  write : ℕ → List ℕ → ℕ → Event
  traced : Command → ℕ → ℕ → Event

unfoldable pub step : Config → Fmu → Event → Fmu
step c s (write offset payload len) = update c s offset payload len
step c s (traced command offset len) = trace_access c s command offset len

step-IsConsistent :
    (c : Config) (s : Fmu) (e : Event) → IsConsistent c s → IsConsistent c (step c s e)
unfolding step update trace_access
step-IsConsistent c s (write offset payload len) h =
    if_intro (IsConsistent c) _ (write32-IsConsistent c s offset (word_of payload) h) h
step-IsConsistent c s (traced command offset len) h =
    if_intro (IsConsistent c) _ h (record { flags = h.flags })

unfoldable pub run : Config → Fmu → List Event → Fmu
run c s [] = s
run c s (e ∷ es) = run c (step c s e) es

pub run_from-IsConsistent :
    (c : Config) (s : Fmu) (es : List Event) → IsConsistent c s → IsConsistent c (run c s es)
unfolding run
run_from-IsConsistent c s [] h = h
run_from-IsConsistent c s (e ∷ es) h =
    run_from-IsConsistent c (step c s e) es (step-IsConsistent c s e h)
