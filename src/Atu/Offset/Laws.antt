-- ===== src/Atu/Offset/Laws.antt =====
-- The signed 64-bit region offsets of rse_atu.h in natural numbers.
use qbox_platform.Prelude.{ℕ, ◌+◌, ◌-◌, ◌^◌, ◌≤◌, ◌<◌, ◌≡◌, ◌↔◌, ◌⊎◌, arith, min, some, leb}
use qbox_platform.Prelude.Bits.{bit-div, bit_and-pow}
use qbox_platform.Atu.Offset.{
  range_end, offset_is_negative, negative_offset_delta, apply_region_offset,
}

pub offset_is_negative_lem : (o : ℕ) → o < 2 ^ 64 → offset_is_negative o ≡ leb (2 ^ 63) o
unfolding offset_is_negative
offset_is_negative_lem o h = ground (arith, bit_and-pow o 63, bit-div o 63)

pub negative_offset_delta_lem :
    (o : ℕ) → 2 ^ 63 ≤ o → o < 2 ^ 64 → negative_offset_delta o ≡ 2 ^ 64 - o
unfolding negative_offset_delta
negative_offset_delta_lem o k h = omega arith

-- The physical address is the logical one plus the signed offset, and is refused exactly when
-- that sum is no 64-bit address. (A negative offset `o` stands for `o - 2 ^ 64`.)
pub apply_region_offset_exact :
    (logical o p : ℕ)
    → logical < 2 ^ 64
    → o < 2 ^ 64
    → (apply_region_offset logical o ≡ some p) ↔ (
        (o < 2 ^ 63) × (p ≡ logical + o) × (p < 2 ^ 64) ⊎ (2 ^ 63 ≤ o) × (p + 2 ^ 64 ≡ logical + o))
unfolding apply_region_offset
apply_region_offset_exact logical o p hl ho = (
  λ h. ground (arith, offset_is_negative_lem o ho, negative_offset_delta_lem o),
  λ h. ground (arith, offset_is_negative_lem o ho, negative_offset_delta_lem o),
)

-- The last address of a range, kept below 2 ^ 64.
pub range_end_lem :
    (start len : ℕ)
    → start < 2 ^ 64
    → 0 < len
    → len < 2 ^ 32
    → range_end start len ≡ min (start + len - 1) (2 ^ 64 - 1)
unfolding range_end
range_end_lem start len h k l = ground arith
