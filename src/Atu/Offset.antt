-- ===== src/Atu/Offset.antt =====
-- Two's-complement region offsets and saturating range ends of rse_atu.h.
pub mod Laws
use qbox_platform.Prelude.{
  ℕ, ◌+◌, ◌-◌, ◌%◌, ◌^◌, bit_and, Bool, not, Option, none, some, ltb, ◌==◌, if◌then◌else◌,
}
use qbox_platform.Prelude.Bits.{not_word}
use qbox_platform.Atu.{u64_max}

unfoldable pub range_end : ℕ → ℕ → ℕ
range_end start len =
    if len == 0
    then start
    else if ltb (u64_max - (len - 1)) start
    then u64_max
    else start + (len - 1)

unfoldable pub offset_is_negative : ℕ → Bool
offset_is_negative offset = not (bit_and offset (2 ^ 63) == 0)

unfoldable pub negative_offset_delta : ℕ → ℕ
negative_offset_delta offset = (not_word 64 offset + 1) % 2 ^ 64

unfoldable pub apply_region_offset : ℕ → ℕ → Option ℕ
unfolding offset_is_negative negative_offset_delta
apply_region_offset logical offset =
    if offset_is_negative offset
    then (if ltb logical (negative_offset_delta offset)
        then none
        else some (logical - negative_offset_delta offset))
    else if ltb (u64_max - offset) logical
    then none
    else some (logical + offset)
