-- ===== src/Fmu/Reads.antt =====
-- Register reads of zena_fmu.h.
use qbox_platform.Prelude.{
  ℕ, zero, suc, ◌+◌, ◌-◌, ◌*◌, ◌/◌, ◌%◌, ◌^◌, bit_and, bit_or, Bool, true, false, ◌&&◌, Option,
  none, some, ltb, leb, ◌==◌, if◌then◌else◌,
}
use qbox_platform.Fmu.{
  Config, Fmu, sys_key, sys_key_value, status_v, record_count, decode, decode_record, decode_impdef,
}

-- The loop of `group_status_word`; `base` is the first record.
unfoldable pub group_bits : Config → (ℕ → ℕ) → ℕ → ℕ → ℕ → ℕ → ℕ
group_bits c status base zero i value = value
group_bits c status base (suc rounds) i value =
    let next = if bit_and (status (base + i)) status_v == 0 then value else bit_or value (2 ^ i) in
    let rest = group_bits c status base rounds (i + 1) next in
    if leb (record_count c) (base + i) then value else rest

unfoldable pub group_status_word : Config → Fmu → ℕ → ℕ → Bool → ℕ
group_status_word c s bank group high =
    group_bits c (s.status bank) (group * 64 + (if high then 32 else 0)) 32 0 0

unfoldable pub pidcid_value : Config → ℕ → ℕ
pidcid_value c reg =
    if reg == 0xffd0
    then c.pidr4
    else if reg == 0xffe0
    then c.pidr0
    else if reg == 0xffe4
    then c.pidr1
    else if reg == 0xffe8
    then c.pidr2
    else if reg == 0xffec
    then c.pidr3
    else if reg == 0xfff0
    then c.cidr0
    else if reg == 0xfff4
    then c.cidr1
    else if reg == 0xfff8
    then c.cidr2
    else if reg == 0xfffc
    then c.cidr3
    else 0

-- `read32`, from the test for SYS_KEY on.
unfoldable pub read_global : Config → Fmu → ℕ → ℕ → ℕ
read_global c s bank reg =
    if reg == sys_key
    then (if s.unlocked bank then sys_key_value else 0)
    else if leb 0xe000 reg && ltb reg 0xe030 && (reg - 0xe000) % 8 == 0
    then group_status_word c s bank ((reg - 0xe000) / 8) false
    else if leb 0xe004 reg && ltb reg 0xe034 && (reg - 0xe004) % 8 == 0
    then group_status_word c s bank ((reg - 0xe004) / 8) true
    else pidcid_value c reg

read_field : Fmu → ℕ → ℕ × ℕ → ℕ
read_field s bank (index, field) =
    if field == 0x08 then s.ctlr bank index else if field == 0x10 then s.status bank index else 0

read_impdef : Config → Fmu → ℕ → ℕ → Option ℕ → ℕ
read_impdef c s bank reg (some index) = s.impdef bank index
read_impdef c s bank reg none = read_global c s bank reg

read_bank : Config → Fmu → ℕ → ℕ → Option (ℕ × ℕ) → ℕ
unfolding read_field read_impdef
read_bank c s bank reg (some place) = read_field s bank place
read_bank c s bank reg none = read_impdef c s bank reg (decode_impdef c reg)

read_decoded : Config → Fmu → Option (ℕ × ℕ) → ℕ
unfolding read_bank
read_decoded c s none = 0
read_decoded c s (some (bank, reg)) = read_bank c s bank reg (decode_record c reg)

unfoldable pub read32 : Config → Fmu → ℕ → ℕ
unfolding read_decoded
read32 c s offset = read_decoded c s (decode c offset)
