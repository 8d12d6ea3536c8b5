-- ===== src/Lcm.antt =====
-- systemc-components/rse_lcm/include/rse_lcm.h: the life cycle manager of the RSE with its
-- one-time-programmable window.
pub mod Registers
pub mod Otp
pub mod Lifecycle
mod Tests
use qbox_platform.Prelude.{
  ℕ, ◌+◌, ◌-◌, ◌%◌, ◌^◌, min, bit_or, Bool, true, false, not, ◌&&◌, ◌||◌, Option, none, some, List,
  [], ◌∷◌, take, leb, ◌==◌, if◌then◌else◌,
}
use qbox_platform.RegFile.{RegBytes, zeroed, load32, store8, store32, read_bytes, write_bytes}

-- The `cci_param`s. `otp_image_path` says that the path is not empty, `otp_image` is the content
-- of the file if it can be opened.
pub record Config : Type 0 where
  pub trace : Bool
  pub trace_limit : ℕ
  pub otp_image_path : Bool
  pub otp_image : Option (List ℕ)
  pub lcs : ℕ
  pub tp_mode : ℕ
  pub sp_enable : ℕ
  pub otp_size : ℕ
  pub gppc : ℕ
  pub otp_writeback : Bool
  pub otp_lock_after_provision : Bool

-- `flushed` is what was last handed to the image file.
pub record Lcm : Type 0 where
  pub regs : RegBytes
  pub otp_locked : Bool
  pub trace_count : ℕ
  pub flushed : Option (List ℕ)

abbrev pub reg_bytes : ℕ
reg_bytes = 0x11000

abbrev pub lcs_value : ℕ
lcs_value = 0x000

abbrev pub key_err : ℕ
key_err = 0x004

abbrev pub tp_mode_reg : ℕ
tp_mode_reg = 0x008

abbrev pub fatal_err : ℕ
fatal_err = 0x00c

abbrev pub sp_enable_reg : ℕ
sp_enable_reg = 0x014

abbrev pub otp_addr_width : ℕ
otp_addr_width = 0x018

abbrev pub otp_size_reg : ℕ
otp_size_reg = 0x01c

abbrev pub gppc_reg : ℕ
gppc_reg = 0x020

abbrev pub dcu_en : ℕ
dcu_en = 0x100

abbrev pub dcu_lock : ℕ
dcu_lock = 0x110

abbrev pub otp_window : ℕ
otp_window = 0x1000

abbrev pub lcs_cm : ℕ
lcs_cm = 0xcccc3c3c

abbrev pub lcs_dm : ℕ
lcs_dm = 0xdddd5a5a

abbrev pub lcs_se : ℕ
lcs_se = 0xeeeea5a5

abbrev pub lcm_true : ℕ
lcm_true = 0xffffffff

abbrev pub sp_enable_magic : ℕ
sp_enable_magic = 0x5ec10e1e

abbrev pub otp_cm_config_2 : ℕ
otp_cm_config_2 = 0x0e8

abbrev pub otp_dm_config : ℕ
otp_dm_config = 0x0ec

unfoldable pub otp_limit : Config → ℕ
otp_limit c = otp_window + min c.otp_size (reg_bytes - otp_window)

unfoldable pub is_otp_access : Config → ℕ → ℕ → Bool
unfolding otp_limit
is_otp_access c offset len = leb otp_window offset && leb ((offset + len) % 2 ^ 64) (otp_limit c)

unfoldable pub range_includes : ℕ → ℕ → ℕ → Bool
range_includes offset len word_offset =
    leb offset word_offset && leb (word_offset + 4) (offset + len)

-- The two tests of `update_lcs_from_otp_write`, in turn.
unfoldable pub provision_cm : Lcm → ℕ → ℕ → Lcm
provision_cm s otp_offset len =
    if range_includes otp_offset len otp_cm_config_2 && load32 s.regs lcs_value == lcs_cm
    then record s { regs = store32 s.regs lcs_value lcs_dm }
    else s

unfoldable pub provision_dm : Config → Lcm → ℕ → ℕ → Lcm
provision_dm c s otp_offset len =
    if range_includes otp_offset len otp_dm_config && load32 s.regs lcs_value == lcs_dm
    then record s {
      regs = store32 s.regs lcs_value lcs_se;
      otp_locked = if c.otp_lock_after_provision then true else s.otp_locked;
    }
    else s

unfoldable pub update_lcs_from_otp_write : Config → Lcm → ℕ → ℕ → Lcm
update_lcs_from_otp_write c s otp_offset len =
    provision_dm c (provision_cm s otp_offset len) otp_offset len

-- The file is not modelled: a write to it always succeeds.
unfoldable pub flush_otp_image : Config → Lcm → Lcm
flush_otp_image c s =
    if not c.otp_writeback || not c.otp_image_path
    then s
    else record s { flushed = some (read_bytes s.regs otp_window (otp_limit c - otp_window)) }

-- `m_regs[offset + i] |= data[i]`
unfoldable pub or_bytes : RegBytes → ℕ → List ℕ → RegBytes
or_bytes m offset [] = m
or_bytes m offset (b ∷ bs) = or_bytes (store8 m offset (bit_or (m offset) b)) (offset + 1) bs

-- `none` is `return false`: no access to the OTP window.
unfoldable pub write_otp : Config → Lcm → ℕ → List ℕ → ℕ → Option Lcm
write_otp c s offset payload len =
    if not (is_otp_access c offset len)
    then none
    else if s.otp_locked
    then some s
    else some (
        flush_otp_image c (
          update_lcs_from_otp_write c (record s { regs = or_bytes s.regs offset payload })
            (offset - otp_window) len))

load_otp_image : Option (List ℕ) → RegBytes → RegBytes
load_otp_image none m = m
load_otp_image (some file) m = write_bytes m otp_window (take (reg_bytes - otp_window) file)

abbrev store_all : List (ℕ × ℕ) → RegBytes → RegBytes
store_all [] m = m
store_all ((o, v) ∷ rest) m = store_all rest (store32 m o v)

-- The constructor's state.
unfoldable pub reset_registers : Config → Lcm
unfolding load_otp_image
reset_registers c = record {
  regs = load_otp_image c.otp_image (
      store_all
        ((lcs_value, c.lcs)
          ∷ (key_err, 0)
          ∷ (tp_mode_reg, c.tp_mode)
          ∷ (fatal_err, 0)
          ∷ (sp_enable_reg, c.sp_enable)
          ∷ (otp_addr_width, 0x10)
          ∷ (otp_size_reg, c.otp_size)
          ∷ (gppc_reg, c.gppc)
          ∷ (dcu_en, 0xffffffff)
          ∷ (dcu_lock, 0)
          ∷ (dcu_en + 4, 0xffffffff)
          ∷ (dcu_lock + 4, 0)
          ∷ (dcu_en + 8, 0xffffffff)
          ∷ (dcu_lock + 8, 0)
          ∷ (dcu_en + 12, 0xffffffff)
          ∷ (dcu_lock + 12, 0)
          ∷ [])
        zeroed);
  otp_locked = false;
  trace_count = 0;
  flushed = none;
}
