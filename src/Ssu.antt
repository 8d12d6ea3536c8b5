-- ===== src/Ssu.antt =====
-- systemc-components/zena_ssu/include/zena_ssu.h: the safety status unit.
pub mod Registers
pub mod Status
pub mod Invariant
mod Tests
use qbox_platform.Prelude.{
  ℕ, ◌^◌, bit_or, Bool, true, false, not, ◌||◌, List, [], ◌∷◌, ◌==◌, if◌then◌else◌,
}

pub record Config : Type 0 where
  pub trace : Bool
  pub trace_limit : ℕ
  pub enforce_sys_key : Bool
  pub pidr0 : ℕ
  pub pidr1 : ℕ
  pub pidr2 : ℕ
  pub pidr3 : ℕ
  pub pidr4 : ℕ
  pub cidr0 : ℕ
  pub cidr1 : ℕ
  pub cidr2 : ℕ
  pub cidr3 : ℕ
  pub safety_status_bound : Bool

-- `outputs` are the values written to the safety_status socket, the newest first.
pub record Ssu : Type 0 where
  pub err_ctrl : ℕ
  pub err_status : ℕ
  pub err_impdef : ℕ
  pub sys_status : ℕ
  pub status_detail : ℕ
  pub unlocked : Bool
  pub trace_count : ℕ
  pub safety_status : Bool
  pub outputs : List Bool

abbrev pub reg_bytes : ℕ
reg_bytes = 0x1000

abbrev pub sys_key_value : ℕ
sys_key_value = 0xbe

abbrev pub err_ctrl_ed : ℕ
err_ctrl_ed = 2 ^ 0

abbrev pub status_v : ℕ
status_v = 2 ^ 30

-- `ERR_STATUS_V | ERR_STATUS_OF`, `ERR_STATUS_SERR_MASK | ERR_STATUS_IERR_MASK`
abbrev pub status_w1c_mask : ℕ
status_w1c_mask = bit_or (2 ^ 30) (2 ^ 27)

abbrev pub status_rw_mask : ℕ
status_rw_mask = bit_or 0x000000ff 0x00001f00

-- `V | IERR_INC_SEQ | SERR_SW`, `V | IERR_ERR_IN | SERR_SW`
abbrev pub sequence_error_bits : ℕ
sequence_error_bits = bit_or (bit_or (2 ^ 30) (2 ^ 9)) (2 ^ 0)

abbrev pub fault_bits : ℕ
fault_bits = bit_or (bit_or (2 ^ 30) (2 ^ 12)) (2 ^ 0)

abbrev pub impdef_cr_en : ℕ
impdef_cr_en = 2 ^ 0

abbrev pub impdef_ncr_en : ℕ
impdef_ncr_en = 2 ^ 1

abbrev pub impdef_inc_seq : ℕ
impdef_inc_seq = 2 ^ 5

abbrev pub impdef_rw_mask : ℕ
impdef_rw_mask = 0x73

abbrev pub sys_test : ℕ
sys_test = 2 ^ 0

abbrev pub sys_safe : ℕ
sys_safe = 2 ^ 1

abbrev pub sys_errn : ℕ
sys_errn = 2 ^ 2

abbrev pub sys_errc : ℕ
sys_errc = 2 ^ 3

abbrev pub is_error : ℕ → Bool
is_error status = status == sys_errc || status == sys_errn

abbrev same : Bool → Bool → Bool
same true b = b
same false b = not b

unfoldable pub update_output : Config → Ssu → Ssu
update_output c s =
    let value = is_error s.sys_status in
    if same value s.safety_status then s else record s {
      safety_status = value;
      outputs = if c.safety_status_bound then value ∷ s.outputs else s.outputs;
    }

unfoldable pub reset_registers : Config → Ssu
unfolding update_output
reset_registers c = update_output c (record {
  err_ctrl = err_ctrl_ed;
  err_status = 0;
  err_impdef = 0x71;
  sys_status = sys_test;
  status_detail = 0;
  unlocked = false;
  trace_count = 0;
  safety_status = false;
  outputs = [];
})
