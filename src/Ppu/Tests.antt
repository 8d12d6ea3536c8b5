-- ===== src/Ppu/Tests.antt =====
-- The unit of host_ppu.h: switched on, and switched off while the thread waits.
use qbox_platform.Prelude.{◌≡◌, refl, true, false, [], ◌∷◌}
use qbox_platform.Prelude.Bits.{bit}
use qbox_platform.RegFile.{zeroed, load32, store32}
use qbox_platform.Ppu.{
  Config, Ppu, waiting, power_on_reset, power_on_load, ppu_pwpr, next_status, reset_registers,
  trace_signal, write_power_on_reset, write_power_on_load, observe_power_transition, write32,
  deliver, expire,
}
use qbox_platform.Ppu.Sequence.{power_on_sequence, power_off_released}

abbrev config : Config
config = record {
  trace = false;
  trace_limit = 64;
  initial_power_status = 0;
  assert_power_on_reset = true;
  power_on_reset_assert_on_power_off = true;
  assert_power_on_load = true;
  power_on_reset_bound = true;
  power_on_load_bound = true;
}

abbrev fresh : Ppu
fresh = reset_registers config

-- What a run of the unit computes with.
abbrev machinery : Unit {0}
unfolding next_status reset_registers trace_signal write_power_on_reset write_power_on_load
    observe_power_transition write32 deliver expire zeroed load32 store32 bit
machinery = tt

power_on_sequence_example :
    let s' = expire config (expire config (deliver config (write32 config fresh ppu_pwpr 8))) in
    (s'.outputs ≡ power_on_reset false ∷ power_on_load false ∷ power_on_load true ∷ [])
    × (s'.phase ≡ waiting)
unfolding machinery
power_on_sequence_example = power_on_sequence config fresh 8 refl refl refl refl refl

-- The thread has pulsed the load line and waits before it releases the reset.
abbrev delayed : Ppu
delayed = expire config (deliver config (write32 config fresh ppu_pwpr 8))

power_off_released_example :
    (expire config
      (deliver config (write32 config (record delayed { pending = false }) ppu_pwpr 0))).outputs
    ≡ power_on_reset false ∷ power_on_reset true ∷ delayed.outputs
unfolding machinery
power_off_released_example = power_off_released config delayed 0 refl refl refl refl refl
