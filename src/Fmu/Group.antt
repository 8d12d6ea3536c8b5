-- ===== src/Fmu/Group.antt =====
-- The group status words of zena_fmu.h, bit by bit.
use qbox_platform.Prelude.{
  ℕ, zero, suc, ◌+◌, ◌*◌, ◌^◌, ◌≡◌, arith, max, bit_or, Bool, ◌&&◌, leb, ltb, if◌then◌else◌,
}
use qbox_platform.Prelude.Bits.{bit, bit-zero, bit-lt_two, bit-bit_or, bit-pow, flag_lem}
use qbox_platform.Fmu.{Config, Fmu, record_count}
use qbox_platform.Fmu.Reads.{group_bits, group_status_word}

group_bits_lem :
    (c : Config) (status : ℕ → ℕ) (base n i value j : ℕ)
    → bit (group_bits c status base n i value) j ≡ (
        if leb i j && ltb j (i + n) && ltb (base + j) (record_count c)
        then max (bit value j) (bit (status (base + j)) 30)
        else bit value j)
unfolding group_bits
group_bits_lem c status base zero i value j = ground arith
group_bits_lem c status base (suc n) i value j = ground (
  arith,
  group_bits_lem c status base n (i + 1) value j,
  group_bits_lem c status base n (i + 1) (bit_or value (2 ^ i)) j,
  flag_lem (status (base + i)) 30,
  bit-lt_two (status (base + i)) 30,
  bit-lt_two (status (base + j)) 30,
  bit-lt_two value j,
  bit-bit_or value (2 ^ i) j,
  bit-pow i j,
)

-- Bit `j` of the low or high status word of a group is the valid bit of its record, and 0 for a
-- record that does not exist.
pub group_status_word_bits :
    (c : Config) (s : Fmu) (bank group : ℕ) (high : Bool) (j : ℕ)
    → let index = group * 64 + (if high then 32 else 0) + j in
      bit (group_status_word c s bank group high) j
      ≡ (if ltb j 32 && ltb index (record_count c) then bit (s.status bank index) 30 else 0)
unfolding group_status_word
group_status_word_bits c s bank group high j = ground (
  arith,
  group_bits_lem c (s.status bank) (group * 64 + (if high then 32 else 0)) 32 0 0 j,
  bit-zero j,
)
