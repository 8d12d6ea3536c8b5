-- ===== src/Lcm/Otp.antt =====
-- The OTP window of rse_lcm.h under writes inside, below and across its start.
use qbox_platform.Prelude.{
  ℕ, ◌+◌, ◌-◌, ◌%◌, ◌≤◌, ◌<◌, ◌≡◌, inr, refl, arith, bit_or, true, false, ◌&&◌, List, [], ◌∷◌,
  length, ◌==◌,
}
use qbox_platform.Prelude.Bits.{bit, bit-bit_or}
use qbox_platform.RegFile.{RegBytes, store8, store32, read_bytes, word_of}
use qbox_platform.RegFile.Laws.{store32_frame, write_bytes_frame, read_bytes-write_bytes}
use qbox_platform.Lcm.{
  Config, Lcm, otp_window, lcs_value, lcs_dm, lcs_se, sp_enable_reg, lcm_true, is_otp_access,
  or_bytes, provision_cm, provision_dm, update_lcs_from_otp_write, flush_otp_image, write_otp,
}
use qbox_platform.Lcm.Registers.{write32, update}

pub or_bytes_below : (m : RegBytes) (o : ℕ) (bs : List ℕ) (i : ℕ) → i < o → or_bytes m o bs i ≡ m i
unfolding or_bytes store8
or_bytes_below m o [] i h = refl
or_bytes_below m o (b ∷ bs) i h =
    ground (arith, or_bytes_below (store8 m o (bit_or (m o) b)) (o + 1) bs i)

or_bytes_grow :
    (m : RegBytes) (o : ℕ) (bs : List ℕ) (i j : ℕ) → bit (m i) j ≤ bit (or_bytes m o bs i) j
unfolding or_bytes store8
or_bytes_grow m o [] i j = omega arith
or_bytes_grow m o (b ∷ bs) i j =
    ground (arith, bit-bit_or (m i) b j, or_bytes_grow (store8 m o (bit_or (m o) b)) (o + 1) bs i j)

-- The life cycle word lies below the window.
regs-update_lcs :
    (c : Config) (s : Lcm) (o len i : ℕ)
    → otp_window ≤ i
    → (update_lcs_from_otp_write c s o len).regs i ≡ s.regs i
unfolding update_lcs_from_otp_write provision_cm provision_dm
regs-update_lcs c s o len i h = ground (
  arith,
  store32_frame s.regs lcs_value lcs_dm i (inr (omega arith)),
  store32_frame s.regs lcs_value lcs_se i (inr (omega arith)),
  store32_frame (store32 s.regs lcs_value lcs_dm) lcs_value lcs_se i (inr (omega arith)),
)

module _ (c : Config) (s : Lcm) (offset : ℕ) (payload : List ℕ) (len : ℕ) where
  -- A write inside the OTP window never clears a bit of it.
  pub write_otp_monotone :
      is_otp_access c offset len ≡ true
      → (i j : ℕ) → otp_window ≤ i
      → bit (s.regs i) j ≤ bit ((update c s offset payload len).regs i) j
  unfolding update write_otp flush_otp_image
  write_otp_monotone h i j w = ground (
    arith,
    or_bytes_grow s.regs offset payload i j,
    regs-update_lcs c (record s { regs = or_bytes s.regs offset payload }) (offset - otp_window) len
        i w,
  )

  -- A locked window ignores every write inside it: nothing of the state changes.
  write_otp_locked :
      is_otp_access c offset len ≡ true → s.otp_locked ≡ true → update c s offset payload len ≡ s
  unfolding update write_otp
  write_otp_locked h l = ground arith

-- A word write below the window leaves the window alone.
regs-write32 :
    (c : Config) (s : Lcm) (offset value i : ℕ)
    → offset + 4 ≤ otp_window
    → otp_window ≤ i
    → (write32 c s offset value).regs i ≡ s.regs i
unfolding write32
regs-write32 c s offset value i h w = ground (
  arith,
  store32_frame s.regs offset value i (inr (omega arith)),
  store32_frame s.regs sp_enable_reg value i (inr (omega arith)),
  store32_frame s.regs sp_enable_reg lcm_true i (inr (omega arith)),
)

below_is_no_otp :
    (c : Config) (offset len : ℕ) → offset < otp_window → is_otp_access c offset len ≡ false
unfolding is_otp_access
below_is_no_otp c offset len h = ground arith

module _ (c : Config) (s : Lcm) (offset : ℕ) (payload : List ℕ) (len : ℕ) where
  -- A write that starts and ends below the window leaves all of the window alone.
  update_below :
      length payload ≡ len
      → 0 < len
      → offset + len ≤ otp_window
      → (i : ℕ) → otp_window ≤ i
      → (update c s offset payload len).regs i ≡ s.regs i
  unfolding update write_otp
  update_below e pos h i w = rw (below_is_no_otp c offset len (omega arith)) (
      ground (
        arith,
        regs-write32 c s offset (word_of payload) i,
        write_bytes_frame s.regs offset payload i (inr (omega arith)),
      ))

  -- A write that starts below the window and reaches into it is copied byte by byte, whether the
  -- window is locked or not, and also where it clears bits.
  pub update_straddles :
      length payload ≡ len
      → offset < otp_window
      → otp_window < offset + len
      → ((update c s offset payload len).otp_locked ≡ s.otp_locked)
        × (read_bytes (update c s offset payload len).regs offset len ≡ payload)
  unfolding update write_otp
  update_straddles e lo hi =
      rw (below_is_no_otp c offset len lo, copies)
        (refl, rw (← e) (read_bytes-write_bytes s.regs offset payload))
    where
      copies : (len == 4 && offset % 4 == 0) ≡ false
      copies = ground arith
