-- ===== src/Ppu/Policy.antt =====
-- The power status register of host_ppu.h after a write to the power policy register.
use qbox_platform.Prelude.{
  ℕ, ◌^◌, ◌<◌, ◌≡◌, refl, arith, max, bit_and, bit_or, Bool, ◌&&◌, ◌||◌, ltb, leb, ◌==◌,
  if◌then◌else◌, ==_iff, checks_below, checks_below_at,
}
use qbox_platform.Prelude.Bits.{
  bit, bit-lt_two, bit-bit_and, bit-bit_or, bit-clear, bit-pow, flag_lem, not_word,
}
use qbox_platform.Ppu.{
  status_mask, policy_mask, dyn_enable, off_lock_enable, copy_flag, next_status,
}

-- The policy fields, and the flags for dynamic power, off lock and dynamic operation.
abbrev pub is_policy_bit : ℕ → Bool
is_policy_bit i = ltb i 4 || leb 16 i && ltb i 20

abbrev pub is_status_bit : ℕ → Bool
is_status_bit i = is_policy_bit i || i == 8 || i == 12 || i == 24

policy_mask_bits : (i : ℕ) → i < 32 → bit policy_mask i ≡ (if is_policy_bit i then 1 else 0)
unfolding checks_below bit
policy_mask_bits i h =
    (==_iff _ _).0
      (checks_below_at 32 (λ k. bit policy_mask k == (if is_policy_bit k then 1 else 0)) i refl h)

status_mask_bits : (i : ℕ) → i < 32 → bit status_mask i ≡ (if is_status_bit i then 1 else 0)
unfolding checks_below bit
status_mask_bits i h =
    (==_iff _ _).0
      (checks_below_at 32 (λ k. bit status_mask k == (if is_status_bit k then 1 else 0)) i refl h)

copy_flag_bits :
    (k value status i : ℕ)
    → bit (copy_flag (2 ^ k) value status) i
      ≡ (if i == k then max (bit status i) (bit value i) else bit status i)
copy_flag_bits k value status i = ground (
  arith,
  flag_lem value k,
  bit-lt_two value k,
  bit-lt_two status i,
  bit-bit_or status (2 ^ k) i,
  bit-pow k i,
)

-- A policy write sets every field of the status to the written one and keeps all other bits.
next_status_bits :
    (status value i : ℕ)
    → i < 32
    → bit (next_status status value) i ≡ (if is_status_bit i then bit value i else bit status i)
unfolding next_status
next_status_bits status value i h =
    let base = bit_or (bit_and status (not_word 32 status_mask)) (bit_and value policy_mask) in
    let dynamic = copy_flag dyn_enable value base in
    let locked = copy_flag off_lock_enable value dynamic in
    ground (
      arith,
      copy_flag_bits 24 value locked i,
      copy_flag_bits 12 value dynamic i,
      copy_flag_bits 8 value base i,
      bit-bit_or (bit_and status (not_word 32 status_mask)) (bit_and value policy_mask) i,
      bit-clear 32 status status_mask i (omega arith) h,
      bit-bit_and value policy_mask i,
      status_mask_bits i h,
      policy_mask_bits i h,
      bit-lt_two value i,
      bit-lt_two status i,
    )
