-- ===== src/Kmu/Bits.antt =====
-- The key slot control register of rse_kmu.h, bit by bit.
use qbox_platform.Prelude.{ℕ, ◌^◌, ◌<◌, ◌≡◌, ◌≢◌, arith, max, bit_and, ◌==◌, if◌then◌else◌, ◌||◌}
use qbox_platform.Prelude.Bits.{
  bit, bit-lt_two, bit-bit_or, bit-clear, bit-pow, flag_lem, not_word, bit_or-lt, bit_and-le_left,
}
use qbox_platform.Kmu.Registers.{replace_if}
use qbox_platform.Kmu.{kmuksc_vks, kmuksc_ksr, kmuksc_iks, kmuksc_ksip, kmuksc_ek}

pub replace_if_bits :
    (a b v i : ℕ)
    → a < 32
    → b < 32
    → a ≢ b
    → 2 ^ a < 2 ^ 32
    → i < 32
    → bit (replace_if (2 ^ a) (2 ^ b) v) i
      ≡ (if i == b then max (bit v b) (bit v a) else if i == a then 0 else bit v i)
unfolding replace_if
replace_if_bits a b v i ha hb ne small hi = ground (
  arith,
  flag_lem v a,
  bit-lt_two v i,
  bit-lt_two v a,
  bit-lt_two v b,
  bit-bit_or (bit_and v (not_word 32 (2 ^ a))) (2 ^ b) i,
  bit-clear 32 v (2 ^ a) i small hi,
  bit-pow a i,
  bit-pow b i,
)

replace_if-lt : (t r v : ℕ) → v < 2 ^ 32 → r < 2 ^ 32 → replace_if t r v < 2 ^ 32
unfolding replace_if
replace_if-lt t r v hv hr =
    ground
      (arith, bit_and-le_left 32 v (not_word 32 t) hv, bit_or-lt 32 (bit_and v (not_word 32 t)) r)

-- What is stored for a written value: see `write_kmuksc`.
abbrev pub stored_ksc : ℕ → ℕ
stored_ksc v =
    replace_if kmuksc_ek kmuksc_ksr
      (replace_if kmuksc_vks kmuksc_ksr (replace_if kmuksc_iks kmuksc_ksip v))

-- The request bits IKS, VKS and EK are never stored; IKS sets KSIP, VKS and EK set KSR, and all
-- other bits are stored as written.
pub stored_ksc_bits :
    (v i : ℕ)
    → i < 32
    → bit (stored_ksc v) i ≡ (
        if i == 24 || i == 26 || i == 28
        then 0
        else if i == 27
        then max (bit v 27) (bit v 26)
        else if i == 25
        then max (max (bit v 25) (bit v 24)) (bit v 28)
        else bit v i)
stored_ksc_bits v i h =
    let v1 = replace_if kmuksc_iks kmuksc_ksip v in
    let v2 = replace_if kmuksc_vks kmuksc_ksr v1 in
    let first = λ (j : ℕ) (k : j < 32).
      replace_if_bits 26 27 v j (omega arith) (omega arith) (omega arith) (omega arith) k in
    let second = λ (j : ℕ) (k : j < 32).
      replace_if_bits 24 25 v1 j (omega arith) (omega arith) (omega arith) (omega arith) k in
    ground (
      arith,
      replace_if_bits 28 25 v2 i (omega arith) (omega arith) (omega arith) (omega arith) h,
      second i h,
      second 25 (omega arith),
      second 28 (omega arith),
      first i h,
      first 24 (omega arith),
      first 25 (omega arith),
      first 28 (omega arith),
    )

pub stored_ksc-lt : (v : ℕ) → v < 2 ^ 32 → stored_ksc v < 2 ^ 32
stored_ksc-lt v h =
    let small : kmuksc_ksr < 2 ^ 32 = omega arith in
    replace_if-lt kmuksc_ek kmuksc_ksr _
      (replace_if-lt kmuksc_vks kmuksc_ksr _
        (replace_if-lt kmuksc_iks kmuksc_ksip v h (omega arith)) small)
      small
