-- ===== src/Lcm/Lifecycle.antt =====
-- The life cycle state of rse_lcm.h (CM, DM, SE) under writes.
use qbox_platform.Prelude.{
  ℕ, ◌-◌, ◌%◌, ◌^◌, ◌≤◌, ◌≡◌, ◌≢◌, ◌⊎◌, ap, inl, inr, refl, arith, true, List, [], ◌∷◌,
  if◌then◌else◌, Bool-cases,
}
use qbox_platform.RegFile.{RegBytes, load32, store32, word_of}
use qbox_platform.RegFile.Laws.{load32-store32_self, load32-store32_disjoint}
use qbox_platform.Lcm.{
  Config, Lcm, otp_window, lcs_value, lcs_cm, lcs_dm, lcs_se, sp_enable_reg, lcm_true,
  is_otp_access, or_bytes, provision_cm, provision_dm, update_lcs_from_otp_write, flush_otp_image,
  write_otp,
}
use qbox_platform.Lcm.Registers.{write32, update}
use qbox_platform.Lcm.Otp.{or_bytes_below}

abbrev pub lcs : Lcm → ℕ
lcs s = load32 s.regs lcs_value

-- From one life cycle word to another: not at all, or forward.
abbrev pub Advances : ℕ → ℕ → Type 0
Advances w w' =
    (w' ≡ w) ⊎ (w ≡ lcs_cm) × ((w' ≡ lcs_dm) ⊎ (w' ≡ lcs_se)) ⊎ (w ≡ lcs_dm) × (w' ≡ lcs_se)

Advances-trans : (u v w : ℕ) → Advances u v → Advances v w → Advances u w
Advances-trans u v w h k = ground arith

lcs-or_bytes :
    (m : RegBytes) (o : ℕ) (bs : List ℕ)
    → otp_window ≤ o
    → load32 (or_bytes m o bs) lcs_value ≡ load32 m lcs_value
unfolding load32
lcs-or_bytes m o bs h = ground (
  arith,
  or_bytes_below m o bs 0 (omega arith),
  or_bytes_below m o bs 1 (omega arith),
  or_bytes_below m o bs 2 (omega arith),
  or_bytes_below m o bs 3 (omega arith),
)

update_lcs-Advances :
    (c : Config) (s : Lcm) (o len : ℕ)
    → Advances (lcs s) (lcs (update_lcs_from_otp_write c s o len))
unfolding update_lcs_from_otp_write provision_cm provision_dm
update_lcs-Advances c s o len = ground (
  arith,
  load32-store32_self s.regs lcs_value lcs_dm (omega arith),
  load32-store32_self s.regs lcs_value lcs_se (omega arith),
  load32-store32_self (store32 s.regs lcs_value lcs_dm) lcs_value lcs_se (omega arith),
)

-- Provisioning to SE locks the window, if that is configured.
update_lcs_locks :
    (c : Config) (s : Lcm) (o len : ℕ)
    → c.otp_lock_after_provision ≡ true
    → lcs s ≢ lcs_se
    → lcs (update_lcs_from_otp_write c s o len) ≡ lcs_se
    → (update_lcs_from_otp_write c s o len).otp_locked ≡ true
unfolding update_lcs_from_otp_write provision_cm provision_dm
update_lcs_locks c s o len l ne h = ground (
  arith,
  load32-store32_self s.regs lcs_value lcs_dm (omega arith),
  load32-store32_self s.regs lcs_value lcs_se (omega arith),
  load32-store32_self (store32 s.regs lcs_value lcs_dm) lcs_value lcs_se (omega arith),
)

lcs-write32 :
    (c : Config) (s : Lcm) (offset value : ℕ)
    → offset % 4 ≡ 0
    → lcs (write32 c s offset value) ≡ lcs s
unfolding write32
lcs-write32 c s offset value al = ground (
  arith,
  λ (p : 4 ≤ offset). load32-store32_disjoint s.regs offset lcs_value value (inl (omega arith)),
  load32-store32_disjoint s.regs sp_enable_reg lcs_value value (inl (omega arith)),
  load32-store32_disjoint s.regs sp_enable_reg lcs_value lcm_true (inl (omega arith)),
)

-- A write of an aligned word, or inside the OTP window.
abbrev pub IsRegular : Config → ℕ → ℕ → Type 0
IsRegular c offset len = (is_otp_access c offset len ≡ true) ⊎ (len ≡ 4) × (offset % 4 ≡ 0)

otp_above : (c : Config) (offset len : ℕ) → is_otp_access c offset len ≡ true → otp_window ≤ offset
unfolding is_otp_access
otp_above c offset len h = ground arith

regs-flush : (c : Config) (s : Lcm) → (flush_otp_image c s).regs ≡ s.regs
unfolding flush_otp_image
regs-flush c s = ground arith

locked-flush : (c : Config) (s : Lcm) → (flush_otp_image c s).otp_locked ≡ s.otp_locked
unfolding flush_otp_image
locked-flush c s = ground arith

module _ (c : Config) (s : Lcm) (offset : ℕ) (payload : List ℕ) (len : ℕ) where
  -- the state with the bytes set, and the one with the life cycle moved on
  programmed : Lcm
  programmed = record s { regs = or_bytes s.regs offset payload }

  moved : Lcm
  unfolding programmed
  moved = update_lcs_from_otp_write c programmed (offset - otp_window) len

  lcs-programmed : otp_window ≤ offset → lcs programmed ≡ lcs s
  unfolding programmed
  lcs-programmed h = lcs-or_bytes s.regs offset payload h

  otp_write-cases :
      is_otp_access c offset len ≡ true
      → update c s offset payload len ≡ (if s.otp_locked then s else flush_otp_image c moved)
  unfolding update write_otp moved
  otp_write-cases h = ground arith

  moved-Advances : Advances (lcs programmed) (lcs moved)
  unfolding moved
  moved-Advances = update_lcs-Advances c programmed (offset - otp_window) len

  otp_write-Advances :
      is_otp_access c offset len ≡ true → Advances (lcs s) (lcs (update c s offset payload len))
  otp_write-Advances h = ground (
    arith,
    otp_write-cases h,
    lcs-programmed (otp_above c offset len h),
    ap (λ m. load32 m lcs_value) (regs-flush c moved),
    moved-Advances,
  )

  -- A write inside the OTP window that takes the life cycle from another state to SE locks the
  -- window, if the configuration asks for it.
  pub update_locks :
      is_otp_access c offset len ≡ true
      → c.otp_lock_after_provision ≡ true
      → lcs s ≢ lcs_se
      → lcs (update c s offset payload len) ≡ lcs_se
      → (update c s offset payload len).otp_locked ≡ true
  unfolding moved
  update_locks h l ne se = ground (
    arith,
    otp_write-cases h,
    lcs-programmed (otp_above c offset len h),
    ap (λ m. load32 m lcs_value) (regs-flush c moved),
    locked-flush c moved,
    update_lcs_locks c programmed (offset - otp_window) len l,
  )

  -- A regular write leaves the life cycle state or moves it forward.
  pub update-Advances :
      IsRegular c offset len → Advances (lcs s) (lcs (update c s offset payload len))
  unfolding update write_otp
  update-Advances (inl h) = otp_write-Advances h
  update-Advances (inr (l, al)) = elim (Bool-cases (is_otp_access c offset len)) [
    | inl h ↦ otp_write-Advances h
    | inr h ↦
        let word : offset % 2 ^ 32 % 4 ≡ 0 = omega arith in
        rw h (ground (arith, lcs-write32 c s (offset % 2 ^ 32) (word_of payload) word))
  ]

-- A sequence of writes.
pub record Write : Type 0 where
  pub offset : ℕ
  pub payload : List ℕ
  pub len : ℕ

abbrev pub run : Config → List Write → Lcm → Lcm
run c [] s = s
run c (w ∷ ws) s = run c ws (update c s w.offset w.payload w.len)

abbrev pub AllRegular : Config → List Write → Type 0
AllRegular c [] = Unit
AllRegular c (w ∷ ws) = IsRegular c w.offset w.len × AllRegular c ws

-- No sequence of regular writes takes the life cycle state back.
pub run-Advances :
    (c : Config) (ws : List Write) (s : Lcm) → AllRegular c ws → Advances (lcs s) (lcs (run c ws s))
run-Advances c [] s h = inl refl
run-Advances c (w ∷ ws) s h =
    Advances-trans (lcs s) (lcs (update c s w.offset w.payload w.len)) _
      (update-Advances c s w.offset w.payload w.len h.0)
      (run-Advances c ws (update c s w.offset w.payload w.len) h.1)
