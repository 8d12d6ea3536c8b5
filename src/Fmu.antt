-- ===== src/Fmu.antt =====
-- systemc-components/zena_fmu/include/zena_fmu.h: the fault management unit.
pub mod Writes
pub mod Reads
pub mod Access
pub mod Irqs
pub mod Raised
pub mod Group
pub mod Key
mod Tests
use qbox_platform.Prelude.{
  ℕ, zero, suc, ◌+◌, ◌-◌, ◌/◌, ◌%◌, ◌^◌, min, bit_and, Bool, true, false, not, ◌&&◌, ◌||◌, Option,
  none, some, List, [], ◌∷◌, ltb, leb, ◌==◌, if◌then◌else◌,
}

pub record Config : Type 0 where
  pub trace : Bool
  pub trace_limit : ℕ
  pub enforce_sys_key : Bool
  pub bank_param : ℕ
  pub record_param : ℕ
  pub critical_mask : ℕ
  pub non_critical_mask : ℕ
  pub default_ctlr : ℕ
  pub pidr0 : ℕ
  pub pidr1 : ℕ
  pub pidr2 : ℕ
  pub pidr3 : ℕ
  pub pidr4 : ℕ
  pub cidr0 : ℕ
  pub cidr1 : ℕ
  pub cidr2 : ℕ
  pub cidr3 : ℕ

-- A word for each bank and record.
abbrev pub Table : Type 0
Table = ℕ → ℕ → ℕ

pub record Lines : Type 0 where
  pub critical : Bool
  pub non_critical : Bool

-- The fields of `Bank m_banks[]`, each by bank (and record). `irqs` are the two flags, and `emitted`
-- what each call of `emit_irqs` wrote, the newest first.
pub record Fmu : Type 0 where
  pub ctlr : Table
  pub status : Table
  pub impdef : Table
  pub unlocked : ℕ → Bool
  pub trace_count : ℕ
  pub irqs : Lines
  pub emitted : List Lines

abbrev pub bank_bytes : ℕ
bank_bytes = 0x10000

abbrev pub sys_key : ℕ
sys_key = 0x8bfc

abbrev pub sys_key_value : ℕ
sys_key_value = 0xbe

abbrev pub ctlr_ed : ℕ
ctlr_ed = 2 ^ 0

abbrev pub ctlr_ci : ℕ
ctlr_ci = 2 ^ 13

-- `CTLR_FI | CTLR_UE | CTLR_CFI`, and with ED and CI
abbrev pub ctlr_non_critical : ℕ
ctlr_non_critical = 0x118

abbrev pub ctlr_rw_mask : ℕ
ctlr_rw_mask = 0x2119

abbrev pub status_v : ℕ
status_v = 2 ^ 30

abbrev pub status_rw_mask : ℕ
status_rw_mask = 0x1fff

-- `V | UE | OF | CE | CI`
abbrev pub status_w1c_mask : ℕ
status_w1c_mask = 0x6b080000

-- `V | IERR_INC_SEQ | SERR_SW`, `V | IERR_ERR_IN | SERR_SW`
abbrev pub sequence_error_bits : ℕ
sequence_error_bits = 0x40000201

abbrev pub software_error_bits : ℕ
software_error_bits = 0x40001001

abbrev pub status_ci : ℕ
status_ci = 2 ^ 19

abbrev pub status_ue : ℕ
status_ue = 2 ^ 29

abbrev pub impdef_ie_mask : ℕ
impdef_ie_mask = 0x3e00

abbrev pub impdef_ic_mask : ℕ
impdef_ic_mask = 0xc

abbrev pub impdef_stored_mask : ℕ
impdef_stored_mask = 0xffff01f1

-- What IMPDEF_IC clears of a status.
abbrev pub status_cleared_mask : ℕ
status_cleared_mask = 0x6b081fff

unfoldable pub bank_count : Config → ℕ
bank_count c = min c.bank_param 8

unfoldable pub record_count : Config → ℕ
record_count c = min c.record_param 384

-- The bank, and the register in it.
unfoldable pub decode : Config → ℕ → Option (ℕ × ℕ)
decode c offset =
    let bank = offset / bank_bytes % 2 ^ 32 in
    if ltb bank (bank_count c) then some (bank, offset % bank_bytes) else none

-- The record, and the field in it.
unfoldable pub decode_record : Config → ℕ → Option (ℕ × ℕ)
decode_record c reg =
    if leb 0x6000 reg
    then none
    else if ltb (reg / 0x40) (record_count c)
    then some (reg / 0x40, reg % 0x40)
    else none

unfoldable pub decode_impdef : Config → ℕ → Option ℕ
decode_impdef c reg =
    if ltb reg 0x8000
    then none
    else if not ((reg - 0x8000) % 8 == 0)
    then none
    else if ltb ((reg - 0x8000) / 8) (record_count c)
    then some ((reg - 0x8000) / 8)
    else none

unfoldable pub default_impdef : ℕ → ℕ
default_impdef index = if index == 383 then 0x70 else 0x180

unfoldable pub is_critical_record : Config → ℕ → Bool
is_critical_record c index = ltb index 64 && not (bit_and c.critical_mask (2 ^ index) == 0)

unfoldable pub is_non_critical_record : Config → ℕ → Bool
is_non_critical_record c index =
    if is_critical_record c index
    then false
    else if ltb index 64
    then not (bit_and c.non_critical_mask (2 ^ index) == 0)
    else true

-- The body of the inner loop of `update_irqs`, on the two accumulators.
unfoldable pub irq_record : Config → Table → Table → ℕ → ℕ → Lines → Lines
irq_record c ctlr status bank index acc =
    if bit_and (status bank index) status_v == 0 then acc else record {
      critical =
          if is_critical_record c index && not (bit_and (ctlr bank index) ctlr_ci == 0)
          then true
          else acc.critical;
      non_critical =
          if is_non_critical_record c index
            && not (bit_and (ctlr bank index) ctlr_non_critical == 0)
          then true
          else acc.non_critical;
    }

unfoldable pub irq_records : Config → Table → Table → ℕ → ℕ → ℕ → Lines → Lines
irq_records c ctlr status bank zero index acc = acc
irq_records c ctlr status bank (suc rounds) index acc =
    irq_records c ctlr status bank rounds (index + 1) (irq_record c ctlr status bank index acc)

unfoldable pub irq_banks : Config → Table → Table → ℕ → ℕ → Lines → Lines
irq_banks c ctlr status zero bank acc = acc
irq_banks c ctlr status (suc rounds) bank acc =
    irq_banks c ctlr status rounds (bank + 1)
      (irq_records c ctlr status bank (record_count c) 0 acc)

unfoldable pub pending_irqs : Config → Table → Table → Lines
pending_irqs c ctlr status =
    irq_banks c ctlr status (bank_count c) 0 (record { critical = false; non_critical = false })

abbrev pub differ : Bool → Bool → Bool
differ true b = not b
differ false b = b

unfoldable pub update_irqs : Config → Fmu → Fmu
update_irqs c s =
    let p = pending_irqs c s.ctlr s.status in
    if differ p.critical s.irqs.critical || differ p.non_critical s.irqs.non_critical
    then record s { irqs = p; emitted = p ∷ s.emitted }
    else s

-- `array[bank][index] = value`
abbrev pub put : Table → ℕ → ℕ → ℕ → Table
put f bank index value b i = if b == bank && i == index then value else f b i

abbrev pub put_flag : (ℕ → Bool) → ℕ → Bool → ℕ → Bool
put_flag f bank value b = if b == bank then value else f b

unfoldable pub reset_registers : Config → Fmu
reset_registers c = record {
  ctlr = λ b i. c.default_ctlr;
  status = λ b i. 0;
  impdef = λ b i. default_impdef i;
  unlocked = λ b. false;
  trace_count = 0;
  irqs = record { critical = false; non_critical = false };
  emitted = [];
}
