-- ===== src/Prelude/Bits.antt =====
-- The bits of a number, and what `&`, `|` and `~` do to each of them.
use Prim.Native.Nat.{
  ℕ, zero, suc, ◌+◌, ◌-◌, ◌*◌, ◌/◌, ◌%◌, ◌^◌, ◌≤◌, ◌<◌, min, max, bit_and, bit_or, digits,
  bit_and-bitwise, bit_or-bitwise,
}
use mathlib.Core.Path.{◌≡◌, refl, ◌∙◌, ap, sym}
use mathlib.Core.Logic.{◌⊎◌, inl, inr}
use native.Mathlib.Omega.{arith}
use qbox_platform.Prelude.Tests.{ltb, ◌==◌, if◌then◌else◌}
use native.Mathlib.Nat.{pow-suc, mul_comm, div-div-eq-div-mul}

-- Bit `i` of `n`: 0 or 1.
unfoldable pub bit : ℕ → ℕ → ℕ
bit n zero = n % 2
bit n (suc i) = bit (n / 2) i

pub bit-lt_two : (n i : ℕ) → bit n i < 2
unfolding bit
bit-lt_two n zero = omega arith
bit-lt_two n (suc i) = bit-lt_two (n / 2) i

pub bit_cases : (n i : ℕ) → (bit n i ≡ 0) ⊎ (bit n i ≡ 1)
bit_cases n i = ground (arith, bit-lt_two n i)

pub bit-zero : (i : ℕ) → bit 0 i ≡ 0
unfolding bit
bit-zero zero = refl
bit-zero (suc i) = bit-zero i

pub bit-one : (i : ℕ) → bit 1 i ≡ elim i [ zero ↦ 1 | suc j ↦ 0 ]
unfolding bit
bit-one zero = refl
bit-one (suc i) = bit-zero i

-- `digits` is the library's recursion behind the native operations.
module _ (g : ℕ → ℕ) (f : ℕ → ℕ → ℕ) where
  fuel_irrelevant : (n m a b : ℕ) → a ≤ n → a ≤ m → digits g f n a b ≡ digits g f m a b
  fuel_irrelevant zero zero a b p q = refl
  fuel_irrelevant zero (suc m) zero b p q = refl
  fuel_irrelevant zero (suc m) (suc a) b p q = absurd (omega arith)
  fuel_irrelevant (suc n) zero zero b p q = refl
  fuel_irrelevant (suc n) zero (suc a) b p q = absurd (omega arith)
  fuel_irrelevant (suc n) (suc m) zero b p q = refl
  fuel_irrelevant (suc n) (suc m) (suc a) b p q =
      omega (arith, fuel_irrelevant n m (suc a / 2) (b / 2) (omega arith) (omega arith))

pub and_step : (a b : ℕ) → bit_and a b ≡ bit_and (a / 2) (b / 2) * 2 + min (a % 2) (b % 2)
and_step zero b = omega (arith, bit_and-bitwise 0 b, bit_and-bitwise 0 (b / 2))
and_step (suc a) b = omega (
  arith,
  bit_and-bitwise (suc a) b,
  bit_and-bitwise (suc a / 2) (b / 2),
  fuel_irrelevant (λ b. zero) min a (suc a / 2) (suc a / 2) (b / 2) (omega arith) (omega arith),
)

pub or_step : (a b : ℕ) → bit_or a b ≡ bit_or (a / 2) (b / 2) * 2 + max (a % 2) (b % 2)
or_step zero b = omega (arith, bit_or-bitwise 0 b, bit_or-bitwise 0 (b / 2))
or_step (suc a) b = omega (
  arith,
  bit_or-bitwise (suc a) b,
  bit_or-bitwise (suc a / 2) (b / 2),
  fuel_irrelevant (λ b. b) max a (suc a / 2) (suc a / 2) (b / 2) (omega arith) (omega arith),
)

pub bit-bit_and : (a b i : ℕ) → bit (bit_and a b) i ≡ min (bit a i) (bit b i)
unfolding bit
bit-bit_and a b zero = omega (arith, and_step a b)
bit-bit_and a b (suc i) = ap (λ k. bit k i) half ∙ bit-bit_and (a / 2) (b / 2) i
  where
    half : bit_and a b / 2 ≡ bit_and (a / 2) (b / 2)
    half = omega (arith, and_step a b)

pub bit-bit_or : (a b i : ℕ) → bit (bit_or a b) i ≡ max (bit a i) (bit b i)
unfolding bit
bit-bit_or a b zero = omega (arith, or_step a b)
bit-bit_or a b (suc i) = ap (λ k. bit k i) half ∙ bit-bit_or (a / 2) (b / 2) i
  where
    half : bit_or a b / 2 ≡ bit_or (a / 2) (b / 2)
    half = omega (arith, or_step a b)

pub bit-div : (n i : ℕ) → bit n i ≡ n / 2 ^ i % 2
unfolding bit
bit-div n zero = omega arith
bit-div n (suc i) =
    bit-div (n / 2) i
    ∙ ap (λ k. k % 2)
        (div-div-eq-div-mul n 2 (2 ^ i) ∙ ap (λ k. n / k) (mul_comm 2 (2 ^ i) ∙ sym (pow-suc 2 i)))

-- `~v` on a word of `w` bits.
abbrev pub not_word : ℕ → ℕ → ℕ
not_word w v = 2 ^ w - 1 - v

pub pow_pos : (w : ℕ) → 0 < 2 ^ w
pow_pos zero = omega arith
pow_pos (suc w) = rw pow-suc (omega (arith, pow_pos w))

half_not : (w v : ℕ) → v < 2 ^ suc w → not_word (suc w) v / 2 ≡ not_word w (v / 2)
half_not w v h = omega (arith, pow-suc 2 w, pow_pos w)

pub bit-not_word : (w v i : ℕ) → v < 2 ^ w → i < w → bit (not_word w v) i ≡ 1 - bit v i
unfolding bit
bit-not_word zero v i h k = absurd (omega arith)
bit-not_word (suc w) v zero h k = omega (arith, pow-suc 2 w, pow_pos w)
bit-not_word (suc w) v (suc i) h k =
    ap (λ n. bit n i) (half_not w v h)
    ∙ bit-not_word w (v / 2) i (omega (arith, pow-suc 2 w)) (omega arith)

zero_fuel : (n a : ℕ) → a ≤ n → bit_and a 0 ≡ 0
zero_fuel n zero h = refl
zero_fuel zero (suc a) h = absurd (omega arith)
zero_fuel (suc n) (suc a) h =
    omega (arith, and_step (suc a) 0, zero_fuel n (suc a / 2) (omega arith))

pub bit_and-zero : (a : ℕ) → bit_and a 0 ≡ 0
bit_and-zero a = zero_fuel a a (omega arith)

-- A test of one bit, `x & (1 << k)`.
pub bit_and-pow : (x k : ℕ) → bit_and x (2 ^ k) ≡ 2 ^ k * bit x k
unfolding bit
bit_and-pow x zero = omega (arith, and_step x 1, bit_and-zero (x / 2))
bit_and-pow x (suc k) = omega (
  arith,
  and_step x (2 ^ suc k),
  pow-suc 2 k,
  ap (λ t. bit_and (x / 2) t) half,
  bit_and-pow (x / 2) k,
  ap (λ t. t * bit (x / 2) k) (pow-suc 2 k),
)
  where
    half : 2 ^ suc k / 2 ≡ 2 ^ k
    half = omega (arith, pow-suc 2 k)

pub bit_and-le : (w a b : ℕ) → b < 2 ^ w → bit_and a b ≤ b
bit_and-le zero a b h = let e : b ≡ 0 = omega arith in rw e (omega (arith, bit_and-zero a))
bit_and-le (suc w) a b h =
    omega
      (arith, and_step a b, pow-suc 2 w, bit_and-le w (a / 2) (b / 2) (omega (arith, pow-suc 2 w)))

pub bit_and-le_left : (w a b : ℕ) → a < 2 ^ w → bit_and a b ≤ a
bit_and-le_left zero a b h =
    let e : a ≡ 0 = omega arith in rw e (omega (arith, bit_and-bitwise 0 b))
bit_and-le_left (suc w) a b h = omega (
  arith,
  and_step a b,
  pow-suc 2 w,
  bit_and-le_left w (a / 2) (b / 2) (omega (arith, pow-suc 2 w)),
)

pub bit_or-lt : (w a b : ℕ) → a < 2 ^ w → b < 2 ^ w → bit_or a b < 2 ^ w
bit_or-lt zero a b h k =
    let e : a ≡ 0 = omega arith in let e' : b ≡ 0 = omega arith in rw (e, e') (omega arith)
bit_or-lt (suc w) a b h k = omega (
  arith,
  or_step a b,
  pow-suc 2 w,
  bit_or-lt w (a / 2) (b / 2) (omega (arith, pow-suc 2 w)) (omega (arith, pow-suc 2 w)),
)

pub bit-pow : (k i : ℕ) → bit (2 ^ k) i ≡ (if i == k then 1 else 0)
unfolding bit
bit-pow zero zero = refl
bit-pow zero (suc i) = bit-zero i ∙ ground arith
bit-pow (suc k) zero = ground (arith, pow-suc 2 k)
bit-pow (suc k) (suc i) = ap (λ n. bit n i) half ∙ bit-pow k i ∙ ground arith
  where
    half : 2 ^ suc k / 2 ≡ 2 ^ k
    half = omega (arith, pow-suc 2 k)

-- `(x & (1 << k)) == 0` asks for the bit.
pub flag_lem : (x k : ℕ) → (bit_and x (2 ^ k) == 0) ≡ (bit x k == 0)
flag_lem x k = elim (bit_cases x k) [
  | inl e ↦ ground (arith, bit_and-pow x k, ap (λ b. 2 ^ k * b) e)
  | inr e ↦ ground (arith, bit_and-pow x k, ap (λ b. 2 ^ k * b) e, pow_pos k)
]

-- `x & ~y`, bit by bit.
pub bit-clear :
    (w x y i : ℕ)
    → y < 2 ^ w
    → i < w
    → bit (bit_and x (not_word w y)) i ≡ min (bit x i) (1 - bit y i)
bit-clear w x y i h k = bit-bit_and x (not_word w y) i ∙ ap (min (bit x i)) (bit-not_word w y i h k)

-- A mask of `k` ones.
pub bit-ones : (k i : ℕ) → bit (2 ^ k - 1) i ≡ (if ltb i k then 1 else 0)
unfolding bit
bit-ones zero i = bit-zero i ∙ ground arith
bit-ones (suc k) zero = ground (arith, pow-suc 2 k, pow_pos k)
bit-ones (suc k) (suc i) = ap (λ n. bit n i) half ∙ bit-ones k i ∙ ground arith
  where
    half : (2 ^ suc k - 1) / 2 ≡ 2 ^ k - 1
    half = omega (arith, pow-suc 2 k, pow_pos k)
