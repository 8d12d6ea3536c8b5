-- ===== src/Gic/Tests.antt =====
-- The interrupt controller of gicx00_multiview.h after a write to a view register.
use qbox_platform.Prelude.{
  ℕ, Option, none, length, sym, ap, ◌≡◌, refl, true, false, List, [], ◌∷◌, some,
}
use qbox_platform.RegFile.{load32, store32, write_bytes, zeroed, word_of, bytes_of}
use qbox_platform.Tlm.{Payload, write, incomplete, is_supported_length}
use qbox_platform.Gic.{Config, Gic, reset_registers, gicr_viewr}
use qbox_platform.Gic.Access.{access_array, masked, mask_bytes, access_redist, trace_access}
use qbox_platform.Gic.Masks.{start, redist, AllMasked, IsWord, Reach-AllMasked}

abbrev config : Config
config = record { trace = true; trace_limit = 128 }

abbrev payload : Payload
payload = record {
  command = write;
  address = gicr_viewr;
  bytes = some (0xff ∷ 1 ∷ 0 ∷ 0 ∷ []);
  data_length = 4;
  response = incomplete;
  dmi_allowed = false;
}

abbrev viewed : Gic
viewed = (access_redist config 3 reset_registers payload).0

viewed-viewr : load32 (viewed.redist_regs 3) gicr_viewr ≡ 3
unfolding load32 store32 write_bytes zeroed word_of bytes_of is_supported_length reset_registers
    access_array masked mask_bytes access_redist trace_access
viewed-viewr = refl

bytes_length : Option (List ℕ) → ℕ
bytes_length none = 0
bytes_length (some bs) = length bs

payload-IsWord : IsWord payload
unfolding bytes_length
payload-IsWord = (refl, refl, λ bs e. sym (ap bytes_length e))

Reach-AllMasked_example : AllMasked viewed
Reach-AllMasked_example = Reach-AllMasked config viewed (redist start 3 payload payload-IsWord)
