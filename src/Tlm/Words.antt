-- ===== src/Tlm/Words.antt =====
-- The read loop of zena_fmu.h and zena_ssu.h: a read of any length is put together from 32-bit
-- register reads.
use mathlib.Core.Path.{ap₂}
use native.Mathlib.Nat.{add-zero, zero-add}
use qbox_platform.Prelude.{
  ℕ, zero, suc, ◌+◌, ◌-◌, ◌%◌, ◌^◌, ◌≤◌, ◌<◌, ◌≡◌, ◌∙◌, ap, refl, arith, min, List, [], ◌∷◌, ◌++◌,
  sym, Bool-cases, inl, inr, take-drop_step, take, drop, get_or, ◌==◌, if◌then◌else◌,
}
use qbox_platform.RegFile.{bytes_of}

module _ (read32 : ℕ → ℕ) where
  -- `while (remaining > 0)`. The fuel bounds the rounds: each reads a byte at least. zena_ssu.h casts
  -- the address of a word to 32 bits, which its `read32` here does.
  unfoldable pub fetch_words : ℕ → ℕ → ℕ → List ℕ
  fetch_words zero cur remaining = []
  fetch_words (suc fuel) cur remaining =
      let shift = cur % 4 in
      let chunk = min remaining (4 - shift) in
      let rest = fetch_words fuel ((cur + chunk) % 2 ^ 64) (remaining - chunk) in
      if remaining == 0
      then []
      else take chunk (drop shift (bytes_of (read32 (cur - shift)))) ++ rest

  unfoldable pub fetch : ℕ → ℕ → List ℕ
  unfolding fetch_words
  fetch offset len = fetch_words len offset len

  -- The byte that a word read shows at an address, and those of a range whose addresses go on at 0
  -- after the last one.
  abbrev pub byte_at : ℕ → ℕ
  byte_at a = get_or (bytes_of (read32 (a - a % 4))) (a % 4) 0

  abbrev pub bytes_from : ℕ → ℕ → List ℕ
  bytes_from a zero = []
  bytes_from a (suc n) = byte_at (a % 2 ^ 64) ∷ bytes_from (a + 1) n

module _ (read32 : ℕ → ℕ) where
  byte_of_word :
      (base k : ℕ)
      → base % 4 ≡ 0
      → k < 4
      → byte_at read32 (base + k) ≡ get_or (bytes_of (read32 base)) k 0
  byte_of_word base k al h =
      let lo : (base + k) % 4 ≡ k = omega arith in
      let hi : base + k - (base + k) % 4 ≡ base = omega arith in rw (hi, lo)

  segment :
      (base k m : ℕ)
      → base % 4 ≡ 0
      → base < 2 ^ 64
      → k + m ≤ 4
      → take m (drop k (bytes_of (read32 base))) ≡ bytes_from read32 (base + k) m
  unfolding bytes_of
  segment base k zero al lt h = refl
  segment base k (suc m) al lt h =
      let whole : (base + k) % 2 ^ 64 ≡ base + k = omega arith in
      take-drop_step (bytes_of (read32 base)) k m 0 (omega arith)
      ∙ ap₂ ◌∷◌ (sym (ap (byte_at read32) whole ∙ byte_of_word base k al (omega arith))) (
          segment base (suc k) m al lt (omega arith)
          ∙ ap (λ a. bytes_from read32 a m) (omega arith))

  bytes_from-append :
      (a m n : ℕ)
      → bytes_from read32 a (m + n) ≡ bytes_from read32 a m ++ bytes_from read32 (a + m) n
  bytes_from-append a zero n = rw (add-zero, zero-add)
  bytes_from-append a (suc m) n =
      let shape : suc m + n ≡ suc (m + n) = omega arith in
      let shift : a + suc m ≡ a + 1 + m = omega arith in
      rw (shape, shift) (ap (λ l. byte_at read32 (a % 2 ^ 64) ∷ l) (bytes_from-append (a + 1) m n))

  bytes_from-wrap :
      (a b n : ℕ) → a % 2 ^ 64 ≡ b % 2 ^ 64 → bytes_from read32 a n ≡ bytes_from read32 b n
  bytes_from-wrap a b zero h = refl
  bytes_from-wrap a b (suc n) h =
      ap₂ ◌∷◌ (ap (byte_at read32) h) (bytes_from-wrap (a + 1) (b + 1) n (omega arith))

  fetch_words_lem :
      (fuel cur remaining : ℕ)
      → cur < 2 ^ 64
      → remaining ≤ fuel
      → fetch_words read32 fuel cur remaining ≡ bytes_from read32 cur remaining
  unfolding fetch_words
  fetch_words_lem zero cur remaining lt h = let e : remaining ≡ 0 = omega arith in rw e
  fetch_words_lem (suc fuel) cur remaining lt h = elim (Bool-cases (remaining == 0)) [
    | inl done ↦ let e : remaining ≡ 0 = ground arith in rw e
    | inr more ↦
        let shift = cur % 4 in
        let chunk = min remaining (4 - shift) in
        let pos : 0 < remaining = ground arith in
        let here : cur - shift + shift ≡ cur = omega arith in
        let whole : chunk + (remaining - chunk) ≡ remaining = omega arith in
        rw more (
          ap₂ ◌++◌
            (segment (cur - shift) shift chunk (omega arith) (omega arith) (omega arith)
              ∙ ap (λ a. bytes_from read32 a chunk) here)
            (fetch_words_lem fuel ((cur + chunk) % 2 ^ 64) (remaining - chunk) (omega arith)
                (omega arith)
              ∙ bytes_from-wrap ((cur + chunk) % 2 ^ 64) (cur + chunk) (remaining - chunk)
                  (omega arith))
          ∙ sym (bytes_from-append cur chunk (remaining - chunk))
          ∙ ap (bytes_from read32 cur) whole)
  ]

  -- From a 64-bit address the read loop ends within its fuel and returns, for each address of the
  -- range, the byte that a word read shows there; after the last address the range goes on at 0.
  pub fetch-bytes_from :
      (offset len : ℕ) → offset < 2 ^ 64 → fetch read32 offset len ≡ bytes_from read32 offset len
  unfolding fetch
  fetch-bytes_from offset len lt = fetch_words_lem len offset len lt (omega arith)
