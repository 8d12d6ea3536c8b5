-- ===== src/Smmu/Queue.antt =====
-- The event queue of mmu720ae_core.cc: a ring of `2 ^ k` entries whose pointers have a wrap bit.
use native.Mathlib.Nat.{
  pow-suc, add-mod_left, mod-eq_of_lt, mod-mod, mod-add-mod, mod-add-div, mod-lt, mul-suc,
}
use Prim.Native.Nat.{bit_or-bitwise}
use qbox_platform.Prelude.{
  ℕ, zero, suc, ◌+◌, ◌-◌, ◌*◌, ◌/◌, ◌%◌, ◌^◌, ◌≤◌, ◌<◌, ◌≡◌, ◌⊎◌, ◌↔◌, inl, inr, ◌∙◌, ap, sym, refl,
  arith, bit_and, bit_or, true, not, ◌&&◌, ◌==◌,
}
use qbox_platform.Prelude.Bits.{
  bit, bit_cases, bit-div, bit_and-pow, bit_and-zero, and_step, or_step, pow_pos,
}
use qbox_platform.Smmu.{event_queue_index, event_queue_wrap, next_pointer, is_full}

mod_unique : (a q r m : ℕ) → r < m → a ≡ m * q + r → a % m ≡ r
mod_unique a zero r m h e = let k : a ≡ r = omega arith in rw k (mod-eq_of_lt h)
mod_unique a (suc q) r m h e =
    let k : a ≡ m + (m * q + r) = e ∙ ap (λ n. n + r) (mul-suc m q) ∙ omega arith in
    rw k (add-mod_left m (m * q + r) ∙ mod_unique (m * q + r) q r m h refl)

-- The low bits of a pointer.
pub index_lem : (x k : ℕ) → bit_and x (2 ^ k - 1) ≡ x % 2 ^ k
index_lem x zero = omega (arith, bit_and-zero x)
index_lem x (suc k) =
    let M = 2 ^ k in
    let step = and_step x (2 ^ suc k - 1) in
    let half : (2 ^ suc k - 1) / 2 ≡ M - 1 = omega (arith, pow-suc 2 k, pow_pos k) in
    let odd : (2 ^ suc k - 1) % 2 ≡ 1 = omega (arith, pow-suc 2 k, pow_pos k) in
    let later = index_lem (x / 2) k in
    let r = x / 2 % M in
    let q = x / 2 / M in
    let whole : x ≡ 2 ^ suc k * q + (r * 2 + x % 2) =
      rw pow-suc (omega (arith, mod-add-div (x / 2) M)) in
    let lt : r * 2 + x % 2 < 2 ^ suc k = omega (arith, mod-lt (x / 2) (pow_pos k), pow-suc 2 k) in
    step
    ∙ rw (half, odd, later) (omega (arith, mod_unique x q (r * 2 + x % 2) (2 ^ suc k) lt whole))

-- A pointer taken apart: its high part, the wrap bit, and the index.
parts :
    (x k : ℕ)
    → (x ≡ 2 ^ suc k * (x / 2 ^ k / 2) + (2 ^ k * bit x k + x % 2 ^ k))
      × (x % 2 ^ suc k ≡ 2 ^ k * bit x k + x % 2 ^ k)
parts x k =
    let M = 2 ^ k in
    let q = x / M / 2 in
    let halves : x / M ≡ q * 2 + x / M % 2 = omega arith in
    let r = 2 ^ k * bit x k + x % M in
    let whole : x ≡ 2 ^ suc k * q + r =
      rw (pow-suc, bit-div x k) (omega (arith, mod-add-div x M, ap (λ y. M * y) halves)) in
    let lt : r < 2 ^ suc k = elim (bit_cases x k) [
      | inl b ↦ rw b (omega (arith, mod-lt x (pow_pos k), pow-suc 2 k, pow_pos k))
      | inr b ↦ rw b (omega (arith, mod-lt x (pow_pos k), pow-suc 2 k))
    ] in
    (whole, mod_unique x q r (2 ^ suc k) lt whole)

or_disjoint : (k i : ℕ) → i < 2 ^ k → bit_or (2 ^ k) i ≡ 2 ^ k + i
or_disjoint zero i h = let e : i ≡ 0 = omega arith in rw e refl
or_disjoint (suc k) i h =
    let half : 2 ^ suc k / 2 ≡ 2 ^ k = omega (arith, pow-suc 2 k) in
    or_step (2 ^ suc k) i
    ∙ rw (half, or_disjoint k (i / 2) (omega (arith, pow-suc 2 k))) (omega (arith, pow-suc 2 k))

or_zero : (i : ℕ) → bit_or 0 i ≡ i
or_zero i = omega (arith, bit_or-bitwise 0 i)

-- The producer pointer goes up by one, modulo two rounds of the queue.
pub next_pointer_lem : (k p : ℕ) → next_pointer k p ≡ (p + 1) % 2 ^ suc k
unfolding next_pointer event_queue_index event_queue_wrap
next_pointer_lem k p =
    let M = 2 ^ k in
    let q = p / M / 2 in
    let (whole, low) = parts p k in
    rw (index_lem p k, bit_and-pow p k)
      (elim (bit_cases p k) [
        | inl b ↦ ground (
          arith,
          ap (λ n. M * n) b,
          pow-suc 2 k,
          mod-lt p (pow_pos k),
          or_zero (p % M + 1),
          or_disjoint k 0 (pow_pos k),
          mod_unique (p + 1) q (p % M + 1) (2 ^ suc k),
        )
        | inr b ↦ ground (
          arith,
          ap (λ n. M * n) b,
          pow-suc 2 k,
          mod-lt p (pow_pos k),
          or_zero 0,
          or_disjoint k (p % M + 1),
          mod_unique (p + 1) q (M + (p % M + 1)) (2 ^ suc k),
          mod_unique (p + 1) (q + 1) 0 (2 ^ suc k),
        )
      ])

-- The pointers are `n` events apart, and the queue has room for them.
abbrev pub Holds : ℕ → ℕ → ℕ → ℕ → Type 0
Holds k prod cons n = (prod % 2 ^ suc k ≡ (cons + n) % 2 ^ suc k) × (n ≤ 2 ^ k)

pub next_pointer-Holds :
    (k prod cons n : ℕ)
    → n < 2 ^ k
    → Holds k prod cons n
    → Holds k (next_pointer k prod) cons (n + 1)
next_pointer-Holds k prod cons n lt (e, le) =
    let W = 2 ^ suc k in
    (
      ap (λ x. x % W) (next_pointer_lem k prod)
          ∙ mod-mod (prod + 1) W
          ∙ sym (mod-add-mod prod W 1)
          ∙ ap (λ x. (x + 1) % W) e
          ∙ mod-add-mod (cons + n) W 1
          ∙ ap (λ x. x % W) (omega arith),
      omega arith,
    )

-- The sum of two parts of a pointer goes round at most once.
around :
    (k a n : ℕ)
    → n ≤ 2 ^ k
    → ((a + n) % 2 ^ suc k ≡ a % 2 ^ suc k + n) × (a % 2 ^ suc k + n < 2 ^ suc k)
      ⊎ ((a + n) % 2 ^ suc k + 2 ^ suc k ≡ a % 2 ^ suc k + n)
around k a n h =
    let W = 2 ^ suc k in
    let c = a % W in
    let start = sym (mod-add-mod a W n) in
    let lt = mod-lt a (pow_pos (suc k)) in
    let whole : W ≡ 2 ^ k * 2 = pow-suc 2 k in
    ground (arith, start, mod_unique (c + n) 0 (c + n) W, mod_unique (c + n) 1 (c + n - W) W)

wrap_cases : (x k : ℕ) → (2 ^ k * bit x k ≡ 0) ⊎ (2 ^ k * bit x k ≡ 2 ^ k)
wrap_cases x k = elim (bit_cases x k) [
  | inl b ↦ inl (rw b (omega arith))
  | inr b ↦ inr (rw b (omega arith))
]

-- Two pointers by their parts, an index and a wrap bit of value 0 or `M`.
full_at :
    (M i j u v n : ℕ)
    → i < M
    → j < M
    → (u ≡ 0) ⊎ (u ≡ M)
    → (v ≡ 0) ⊎ (v ≡ M)
    → n ≤ M
    → (u + i ≡ v + j + n) ⊎ (u + i + M * 2 ≡ v + j + n)
    → (((i == j) && not (u == v)) ≡ true) ↔ (n ≡ M)
full_at M i j u v n hi hj hu hv hn h = (λ t. ground arith, λ t. ground arith)

-- The full test of the queue is exact: it holds when `2 ^ k` events are in it, and then only.
pub is_full_iff :
    (k prod cons n : ℕ) → Holds k prod cons n → (is_full k prod cons ≡ true) ↔ (n ≡ 2 ^ k)
unfolding is_full event_queue_index event_queue_wrap
is_full_iff k prod cons n (e, le) =
    let there = (parts prod k).1 in
    let here = (parts cons k).1 in
    rw (index_lem prod k, index_lem cons k, bit_and-pow prod k, bit_and-pow cons k)
      (full_at (2 ^ k) (prod % 2 ^ k) (cons % 2 ^ k) (2 ^ k * bit prod k) (2 ^ k * bit cons k) n
        (mod-lt prod (pow_pos k)) (mod-lt cons (pow_pos k)) (wrap_cases prod k) (wrap_cases cons k)
        le (ground (arith, there, here, e, around k cons n le, pow-suc 2 k)))
