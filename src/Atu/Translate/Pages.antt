-- ===== src/Atu/Translate/Pages.antt =====
-- The page arithmetic of `translate_range` in rse_atu.h.
use native.Mathlib.Nat.{pow-le-pow_right, le-div_iff_mul-le}
use qbox_platform.Prelude.{ℕ, ◌+◌, ◌*◌, ◌/◌, ◌%◌, ◌^◌, ◌≤◌, ◌≡◌, arith}
use qbox_platform.Prelude.Bits.{bit_and-le, pow_pos}
use qbox_platform.RegFile.{RegBytes, IsBytes, load32}
use qbox_platform.RegFile.Laws.{load32-lt}
use qbox_platform.Atu.{
  atubc, atursla_base, aturela_base, region_stride, u64_max, page_shift, region_start_page,
  region_end_page,
}
use qbox_platform.Atu.Translate.{region_start, region_end}

pub page_shift-le : (m : RegBytes) → page_shift m ≤ 15
unfolding page_shift
page_shift-le m = omega (arith, bit_and-le 8 (load32 m atubc) 0xf0 (omega arith))

shifted-le : (v k : ℕ) → v ≤ 2 ^ 32 → k ≤ 15 → v * 2 ^ k ≤ 2 ^ 47
shifted-le v k hv hk =
    let p : 2 ^ k ≤ 2 ^ 15 = pow-le-pow_right (omega arith) hk in
    let q : v * 2 ^ k ≤ 2 ^ 32 * 2 ^ k = grind arith in omega arith

-- A page number of 32 bits is shifted without a wrap.
shl_page-exact : (v k : ℕ) → v ≤ 2 ^ 32 → k ≤ 15 → v * 2 ^ k % 2 ^ 64 ≡ v * 2 ^ k
shl_page-exact v k hv hk = omega (arith, shifted-le v k hv hk)

module _ (m : RegBytes) (r : ℕ) (b : IsBytes m) where
  pub region_start-exact : region_start m r ≡ region_start_page m r * 2 ^ page_shift m
  unfolding region_start region_start_page
  region_start-exact =
      shl_page-exact _ (page_shift m)
        (omega (arith, load32-lt m (atursla_base + r * region_stride) b)) (page_shift-le m)

  pub region_end-exact : region_end m r ≡ (region_end_page m r + 1) * 2 ^ page_shift m
  unfolding region_end region_end_page
  region_end-exact =
      shl_page-exact _ (page_shift m)
        (omega (arith, load32-lt m (aturela_base + r * region_stride) b)) (page_shift-le m)

-- An offset of pages that passes the overflow test is shifted without a wrap.
pub shifted_offset-exact : (v k : ℕ) → v ≤ u64_max / 2 ^ k → v * 2 ^ k % 2 ^ 64 ≡ v * 2 ^ k
shifted_offset-exact v k h =
    let p : v * 2 ^ k ≤ u64_max = (le-div_iff_mul-le (pow_pos k)).0 h in omega arith
