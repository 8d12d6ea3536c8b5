-- ===== src/Lcm/Tests.antt =====
-- The unit of rse_lcm.h with a window of 16 KiB, from its reset on.
use qbox_platform.Prelude.{◌≤◌, ◌≡◌, inl, refl, arith, true, false, none, [], ◌∷◌}
use qbox_platform.Prelude.Bits.{bit}
use qbox_platform.RegFile.{zeroed, load32, store8, store32, read_bytes, write_bytes, word_of}
use qbox_platform.Lcm.{
  Config, Lcm, lcs_cm, lcs_dm, lcs_se, otp_limit, is_otp_access, range_includes, provision_cm,
  provision_dm, update_lcs_from_otp_write, flush_otp_image, or_bytes, write_otp, reset_registers,
}
use qbox_platform.Lcm.Registers.{write32, update}
use qbox_platform.Lcm.Otp.{write_otp_monotone, update_straddles}
use qbox_platform.Lcm.Lifecycle.{lcs, Advances, Write, run, run-Advances, update_locks}

abbrev config : Config
config = record {
  trace = false;
  trace_limit = 64;
  otp_image_path = false;
  otp_image = none;
  lcs = lcs_cm;
  tp_mode = 0;
  sp_enable = 0;
  otp_size = 0x4000;
  gppc = 0;
  otp_writeback = false;
  otp_lock_after_provision = true;
}

abbrev fresh : Lcm
unfolding reset_registers zeroed store32
fresh = reset_registers config

-- The words CM_CONFIG_2 and DM_CONFIG of the window.
abbrev cm_write : Write
cm_write = record { offset = 0x10e8; payload = 1 ∷ 0 ∷ 0 ∷ 0 ∷ []; len = 4 }

abbrev dm_write : Write
dm_write = record { offset = 0x10ec; payload = 1 ∷ 0 ∷ 0 ∷ 0 ∷ []; len = 4 }

-- What a run of the unit computes with.
abbrev machinery : Unit {0}
unfolding reset_registers zeroed load32 store8 store32 read_bytes write_bytes word_of otp_limit
    is_otp_access range_includes provision_cm provision_dm update_lcs_from_otp_write flush_otp_image
    or_bytes write_otp write32 update bit
machinery = tt

provisioned_once : lcs (run config (cm_write ∷ []) fresh) ≡ lcs_dm
unfolding machinery
provisioned_once = refl

provisioned_twice : lcs (run config (cm_write ∷ dm_write ∷ []) fresh) ≡ lcs_se
unfolding machinery
provisioned_twice = refl

run-Advances_example : Advances (lcs fresh) (lcs (run config (cm_write ∷ dm_write ∷ []) fresh))
unfolding machinery
run-Advances_example =
    run-Advances config (cm_write ∷ dm_write ∷ []) fresh (inl refl, (inl refl, tt))

abbrev in_dm : Lcm
in_dm = run config (cm_write ∷ []) fresh

update_locks_example : (update config in_dm 0x10ec (1 ∷ 0 ∷ 0 ∷ 0 ∷ []) 4).otp_locked ≡ true
unfolding machinery
update_locks_example =
    update_locks config in_dm 0x10ec (1 ∷ 0 ∷ 0 ∷ 0 ∷ []) 4 refl refl (omega arith) refl

write_otp_monotone_example :
    bit (fresh.regs 0x1010) 3
    ≤ bit ((update config fresh 0x1010 (6 ∷ 0 ∷ 0 ∷ 0 ∷ []) 4).regs 0x1010) 3
unfolding machinery
write_otp_monotone_example =
    write_otp_monotone config fresh 0x1010 (6 ∷ 0 ∷ 0 ∷ 0 ∷ []) 4 refl 0x1010 3 (omega arith)

abbrev locked : Lcm
locked = record fresh { otp_locked = true }

update_straddles_example :
    ((update config locked 0xffc (1 ∷ 2 ∷ 3 ∷ 4 ∷ 5 ∷ 6 ∷ 7 ∷ 8 ∷ []) 8).otp_locked ≡ true)
    × (read_bytes (update config locked 0xffc (1 ∷ 2 ∷ 3 ∷ 4 ∷ 5 ∷ 6 ∷ 7 ∷ 8 ∷ []) 8).regs 0xffc 8
        ≡ 1 ∷ 2 ∷ 3 ∷ 4 ∷ 5 ∷ 6 ∷ 7 ∷ 8 ∷ [])
update_straddles_example =
    update_straddles config locked 0xffc (1 ∷ 2 ∷ 3 ∷ 4 ∷ 5 ∷ 6 ∷ 7 ∷ 8 ∷ []) 8 refl (omega arith)
      (omega arith)
