-- ===== src/Ssu/Status.antt =====
-- Writes to the status register of zena_ssu.h, and the key that lets a write through.
use qbox_platform.Prelude.{
  ℕ, ◌-◌, ◌^◌, ◌<◌, ◌≡◌, ◌≢◌, ◌∙◌, arith, min, bit_and, bit_or, true, false, ◌&&◌, ◌||◌, ltb, ◌==◌,
  if◌then◌else◌,
}
use qbox_platform.Prelude.Bits.{
  bit, bit-lt_two, bit-bit_and, bit-bit_or, bit-clear, bit-pow, bit-ones, flag_lem, not_word,
  bit_and-le,
}
use qbox_platform.Ssu.{
  Config, Ssu, status_w1c_mask, status_rw_mask, sequence_error_bits, sys_key_value, update_output,
}
use qbox_platform.Ssu.Registers.{
  cleared_status, set_sequence_error, require_unlock, write_register, write_status, write_sys_ctrl,
  write_key, write32,
}

w1c_bits : (i : ℕ) → bit status_w1c_mask i ≡ (if i == 30 || i == 27 then 1 else 0)
w1c_bits i = bit-bit_or (2 ^ 30) (2 ^ 27) i ∙ ground (arith, bit-pow 30 i, bit-pow 27 i)

-- the bits that writing ones clears
kept_bits :
    (status value i : ℕ)
    → i < 32
    → bit (bit_and status (not_word 32 (bit_and value status_w1c_mask))) i
      ≡ (if i == 30 || i == 27 then min (bit status i) (1 - bit value i) else bit status i)
kept_bits status value i h = ground (
  arith,
  bit-clear 32 status (bit_and value status_w1c_mask) i
      (omega (arith, bit_and-le 32 value status_w1c_mask (omega arith))) h,
  bit-bit_and value status_w1c_mask i,
  w1c_bits i,
  bit-lt_two status i,
  bit-lt_two value i,
)

-- Writing one to V or OF clears it; the error codes in bits 0 to 12 take the written value exactly
-- when V stays set; every other bit stays.
cleared_status_bits :
    (status value i : ℕ)
    → i < 32
    → bit (cleared_status status value) i ≡ (
        if i == 30 || i == 27
        then min (bit status i) (1 - bit value i)
        else if ltb i 13 && min (bit status 30) (1 - bit value 30) == 1
        then bit value i
        else bit status i)
unfolding cleared_status
cleared_status_bits status value i h =
    let kept = bit_and status (not_word 32 (bit_and value status_w1c_mask)) in
    ground (
      arith,
      flag_lem kept 30,
      kept_bits status value 30 (omega arith),
      kept_bits status value i h,
      bit-bit_or (bit_and kept (not_word 32 status_rw_mask)) (bit_and value status_rw_mask) i,
      bit-clear 32 kept status_rw_mask i (omega arith) h,
      bit-bit_and value status_rw_mask i,
      bit-ones 13 i,
      bit-lt_two status i,
      bit-lt_two value i,
      bit-lt_two status 30,
      bit-lt_two value 30,
      bit-lt_two kept i,
    )

module _ (c : Config) (s : Ssu) (offset value : ℕ) (enforced : c.enforce_sys_key ≡ true)
    (ne : offset ≢ 0x804) where
  -- Where the key is enforced, a write to a locked unit changes no register but the status: that
  -- takes the sequence error bits if their reporting is on.
  pub write32_locked :
      s.unlocked ≡ false
      → let s' = write32 c s offset value in
        (s'.err_ctrl ≡ s.err_ctrl)
        × (s'.err_impdef ≡ s.err_impdef)
        × (s'.sys_status ≡ s.sys_status)
        × (s'.status_detail ≡ s.status_detail)
        × (s'.unlocked ≡ false)
        × (s'.err_status ≡ (
            if bit s.err_impdef 5 == 0
            then s.err_status
            else bit_or s.err_status sequence_error_bits))
  unfolding write32 require_unlock set_sequence_error update_output
  write32_locked h = ground (arith, flag_lem s.err_impdef 5)

  unlocked-write_register : (r : Ssu) → (write_register c r offset value).unlocked ≡ r.unlocked
  unfolding write_register write_status write_sys_ctrl update_output
  unlocked-write_register r = ground arith

  -- Where the key is enforced, it lets one write through: the register is written, and the next
  -- write finds the unit locked.
  pub write32_unlocked :
      let s' = write32 c (write32 c s 0x804 sys_key_value) offset value in
      (s' ≡ write_register c (record s { unlocked = false }) offset value) × (s'.unlocked ≡ false)
  unfolding write32 require_unlock write_key
  write32_unlocked = ground (arith, unlocked-write_register (record s { unlocked = false }))
