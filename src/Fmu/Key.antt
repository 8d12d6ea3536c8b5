-- ===== src/Fmu/Key.antt =====
-- The key of a bank of zena_fmu.h, and the separation of the banks.
use qbox_platform.Prelude.{
  ℕ, ◌-◌, ◌/◌, ◌%◌, ◌^◌, ◌≡◌, ◌≢◌, arith, bit_or, true, false, Option, none, some, ◌==◌,
  if◌then◌else◌,
}
use qbox_platform.Fmu.{
  Config, Fmu, bank_bytes, sys_key, sys_key_value, sequence_error_bits, record_count, decode,
  decode_record, decode_impdef, update_irqs, put_flag,
}
use qbox_platform.Fmu.Writes.{
  set_sequence_error, require_unlock, set_software_error, clear_record_status, write_ctlr,
  write_impdef, write_field, write_rest, write_place, write_register, write_key, write_bank,
  write_decoded, write32,
}

-- One bank's registers at one index, and its key.
pub record IsKept (bank index : ℕ) (s s' : Fmu) : Type 0 where
  pub ctlr : s'.ctlr bank index ≡ s.ctlr bank index
  pub status : s'.status bank index ≡ s.status bank index
  pub impdef : s'.impdef bank index ≡ s.impdef bank index
  pub unlocked : s'.unlocked bank ≡ s.unlocked bank

update_irqs-IsKept : (c : Config) (b i : ℕ) (s : Fmu) → IsKept b i s (update_irqs c s)
unfolding update_irqs
update_irqs-IsKept c b i s = ground arith

module _ (c : Config) (b i : ℕ) (bank : ℕ) (ne : b ≢ bank) where
  set_sequence_error-IsKept : (s : Fmu) → IsKept b i s (set_sequence_error c s bank)
  unfolding set_sequence_error update_irqs
  set_sequence_error-IsKept s = ground arith

  require_unlock-IsKept : (s : Fmu) → IsKept b i s (require_unlock c s bank).0
  unfolding require_unlock
  require_unlock-IsKept s = ground (arith, set_sequence_error-IsKept s)

  write_impdef-IsKept :
      (s : Fmu) (index value : ℕ) → IsKept b i s (write_impdef c s bank index value)
  unfolding write_impdef set_software_error update_irqs
  write_impdef-IsKept s index value = ground arith

  write_field-IsKept :
      (s : Fmu) (place : ℕ × ℕ) (value : ℕ) → IsKept b i s (write_field c s bank place value)
  unfolding write_field write_ctlr clear_record_status update_irqs
  write_field-IsKept s (index, field) value = ground arith

  write_rest-IsKept :
      (s : Fmu) (place : Option ℕ) (value : ℕ) → IsKept b i s (write_rest c s bank place value)
  unfolding write_rest
  write_rest-IsKept s (some index) value = write_impdef-IsKept s index value
  write_rest-IsKept s none value = ground arith

  write_place-IsKept :
      (s : Fmu) (reg : ℕ) (place : Option (ℕ × ℕ)) (value : ℕ)
      → IsKept b i s (write_place c s bank reg place value)
  unfolding write_place
  write_place-IsKept s reg (some place) value = write_field-IsKept s place value
  write_place-IsKept s reg none value = write_rest-IsKept s (decode_impdef c reg) value

  write_bank-IsKept : (s : Fmu) (reg value : ℕ) → IsKept b i s (write_bank c s bank reg value)
  unfolding write_bank write_key write_register
  write_bank-IsKept s reg value = ground (
    arith,
    set_sequence_error-IsKept (record s { unlocked = put_flag s.unlocked bank false }),
    require_unlock-IsKept s,
    write_place-IsKept (require_unlock c s bank).0 reg (decode_record c reg) value,
  )

-- A register write changes nothing in any bank but the one that it is addressed to.
pub write32-IsKept :
    (c : Config) (s : Fmu) (offset value b i : ℕ)
    → b ≢ offset / bank_bytes % 2 ^ 32
    → IsKept b i s (write32 c s offset value)
unfolding write32 write_decoded decode
write32-IsKept c s offset value b i ne =
    ground (
      arith,
      write_bank-IsKept c b i (offset / bank_bytes % 2 ^ 32) ne s (offset % bank_bytes) value,
    )

-- Where the key is enforced, a write to a locked bank changes none of its control and
-- implementation words and leaves it locked, and of its status words it changes only the last
-- record's, which takes the sequence error.
pub write_bank_locked :
    (c : Config) (s : Fmu) (bank reg value i : ℕ)
    → c.enforce_sys_key ≡ true
    → reg ≢ sys_key
    → s.unlocked bank ≡ false
    → let s' = write_bank c s bank reg value in
      (s'.ctlr bank i ≡ s.ctlr bank i)
      × (s'.impdef bank i ≡ s.impdef bank i)
      × (s'.unlocked bank ≡ false)
      × (s'.status bank i ≡ (
          if i == record_count c - 1
          then bit_or (s.status bank i) sequence_error_bits
          else s.status bank i))
unfolding write_bank require_unlock set_sequence_error update_irqs
write_bank_locked c s bank reg value i on ne shut = ground arith

unlocked-write_place :
    (c : Config) (s : Fmu) (bank reg : ℕ) (place : Option (ℕ × ℕ)) (value : ℕ)
    → (write_place c s bank reg place value).unlocked bank ≡ s.unlocked bank
unfolding write_place write_rest write_field write_impdef set_software_error write_ctlr
    clear_record_status update_irqs
unlocked-write_place c s bank reg (some (index, field)) value = ground arith
unlocked-write_place c s bank reg none value = ground arith

-- Where the key is enforced, the key opens its bank for one write: the register is written, and
-- behind that the bank is locked again.
pub write_bank_once :
    (c : Config) (s : Fmu) (bank reg value : ℕ)
    → c.enforce_sys_key ≡ true
    → reg ≢ sys_key
    → let opened = write_bank c s bank sys_key sys_key_value in
      let s' = write_bank c opened bank reg value in
      (s'
        ≡ write_register c
            (record opened { unlocked = put_flag opened.unlocked bank false })
            bank
            reg
            value)
      × (s'.unlocked bank ≡ false)
unfolding write_bank write_key require_unlock write_register
write_bank_once c s bank reg value on ne =
    let closed = put_flag (put_flag s.unlocked bank true) bank false in
    ground (
      arith,
      unlocked-write_place c (record s { unlocked = closed }) bank reg (decode_record c reg) value,
    )
