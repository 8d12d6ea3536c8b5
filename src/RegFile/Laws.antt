-- ===== src/RegFile/Laws.antt =====
-- Reads after writes in a register block.
use qbox_platform.Prelude.{
  ℕ, zero, suc, ◌+◌, ◌^◌, ◌≤◌, ◌<◌, ◌≡◌, ◌⊎◌, refl, arith, List, [], ◌∷◌, length,
}
use qbox_platform.RegFile.{
  RegBytes, IsBytes, zeroed, load32, store8, store32, read_bytes, write_bytes,
}

-- A word that was stored is loaded back.
pub load32-store32_self : (m : RegBytes) (o v : ℕ) → v < 2 ^ 32 → load32 (store32 m o v) o ≡ v
unfolding load32 store32
load32-store32_self m o v h = ground arith

-- A store leaves every word that it does not overlap.
pub load32-store32_disjoint :
    (m : RegBytes) (o p v : ℕ) → (p + 4 ≤ o) ⊎ (o + 4 ≤ p) → load32 (store32 m o v) p ≡ load32 m p
unfolding load32 store32
load32-store32_disjoint m o p v h = ground arith

-- A store leaves every byte outside its four.
pub store32_frame : (m : RegBytes) (o v i : ℕ) → (i < o) ⊎ (o + 4 ≤ i) → store32 m o v i ≡ m i
unfolding store32
store32_frame m o v i h = ground arith

pub store32-IsBytes : (m : RegBytes) (o v : ℕ) → IsBytes m → IsBytes (store32 m o v)
unfolding store32
store32-IsBytes m o v h i = ground (arith, h i)

pub load32-lt : (m : RegBytes) (o : ℕ) → IsBytes m → load32 m o < 2 ^ 32
unfolding load32
load32-lt m o h = omega (arith, h o, h (o + 1), h (o + 2), h (o + 3))

pub write_bytes_below :
    (m : RegBytes) (o : ℕ) (bs : List ℕ) (i : ℕ) → i < o → write_bytes m o bs i ≡ m i
unfolding write_bytes
write_bytes_below m o [] i h = refl
write_bytes_below m o (b ∷ bs) i h = ground (arith, write_bytes_below (store8 m o b) (o + 1) bs i)

-- A copy leaves every byte outside the range that it writes.
pub write_bytes_frame :
    (m : RegBytes) (o : ℕ) (bs : List ℕ) (i : ℕ)
    → (i < o) ⊎ (o + length bs ≤ i)
    → write_bytes m o bs i ≡ m i
unfolding write_bytes
write_bytes_frame m o [] i h = refl
write_bytes_frame m o (b ∷ bs) i h = ground (arith, write_bytes_frame (store8 m o b) (o + 1) bs i)

-- A copy out of the block returns what a copy into it wrote.
pub read_bytes-write_bytes :
    (m : RegBytes) (o : ℕ) (bs : List ℕ) → read_bytes (write_bytes m o bs) o (length bs) ≡ bs
unfolding read_bytes write_bytes
read_bytes-write_bytes m o [] = refl
read_bytes-write_bytes m o (b ∷ bs) = ground (
  arith,
  write_bytes_below (store8 m o b) (o + 1) bs o,
  read_bytes-write_bytes (store8 m o b) (o + 1) bs,
)

pub length-read_bytes : (m : RegBytes) (o len : ℕ) → length (read_bytes m o len) ≡ len
unfolding read_bytes
length-read_bytes m o zero = refl
length-read_bytes m o (suc len) = omega (arith, length-read_bytes m (o + 1) len)

pub zeroed-IsBytes : IsBytes zeroed
unfolding zeroed
zeroed-IsBytes i = omega arith
