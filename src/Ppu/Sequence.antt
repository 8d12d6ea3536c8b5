-- ===== src/Ppu/Sequence.antt =====
-- The power-on thread of host_ppu.h.
use qbox_platform.Prelude.{ℕ, ◌≡◌, arith, true, false, ◌∷◌, if◌then◌else◌}
use qbox_platform.RegFile.{load32}
use qbox_platform.Ppu.{
  Config, Ppu, power_on_reset, power_on_load, waiting, reset_delay, ppu_pwpr, ppu_pwsr,
  power_status_is_on, power_status_is_off, next_status, write32, observe_power_transition, deliver,
  expire, write_power_on_reset,
}

module _ (c : Config) (s : Ppu) (value : ℕ) where
  -- With both sockets bound, a policy write that switches the power on, delivered to an idle thread
  -- whose waits then end, pulses the load line and releases the reset line, each if it is
  -- configured, in that order; the thread is idle again.
  pub power_on_sequence :
      s.phase ≡ waiting
      → power_status_is_on (load32 s.regs ppu_pwsr) ≡ false
      → power_status_is_on (next_status (load32 s.regs ppu_pwsr) value) ≡ true
      → c.power_on_reset_bound ≡ true
      → c.power_on_load_bound ≡ true
      → let s' = expire c (expire c (deliver c (write32 c s ppu_pwpr value))) in
        (s'.outputs ≡ (
          if c.assert_power_on_load
          then (if c.assert_power_on_reset
              then power_on_reset false ∷ power_on_load false ∷ power_on_load true ∷ s.outputs
              else power_on_load false ∷ power_on_load true ∷ s.outputs)
          else if c.assert_power_on_reset
          then power_on_reset false ∷ s.outputs
          else s.outputs))
        × (s'.phase ≡ waiting)
  unfolding write32 observe_power_transition deliver expire
  power_on_sequence idle off on rb lb = ground arith

  -- Where a power-off asserts the reset and its socket is bound: a power-off during the delay
  -- asserts the reset, and the thread releases it all the same when the delay is over.
  pub power_off_released :
      s.phase ≡ reset_delay
      → power_status_is_on (load32 s.regs ppu_pwsr) ≡ true
      → power_status_is_off (next_status (load32 s.regs ppu_pwsr) value) ≡ true
      → c.power_on_reset_assert_on_power_off ≡ true
      → c.power_on_reset_bound ≡ true
      → (expire c (deliver c (write32 c (record s { pending = false }) ppu_pwpr value))).outputs
        ≡ power_on_reset false ∷ power_on_reset true ∷ s.outputs
  unfolding write32 observe_power_transition deliver expire write_power_on_reset
  power_off_released mid on off cfg rb = ground arith
