-- ===== src/Dma/Memory.antt =====
-- What a memory behind the initiator socket of dma350.h does: the interface that the transfers'
-- properties rest on, and an array of bytes that has it.
use qbox_platform.Prelude.{
  ℕ, zero, suc, ◌+◌, ◌-◌, ◌≤◌, ◌<◌, ◌≡◌, ap, arith, true, false, ◌&&◌, dec_lt, ℕ_discrete, none,
  some, List, [], ◌∷◌, length, get_or, ltb, leb, if◌then◌else◌,
}
use qbox_platform.RegFile.{RegBytes, store8, read_bytes, write_bytes}
use qbox_platform.Dma.{Bus}

-- Below its size the memory answers, and a byte is the one last written. `fetch` is its content.
pub record IsMemory {M : Type 0} (bus : Bus M) (fetch : M → ℕ → ℕ) (size : ℕ) : Type 0 where
  pub reads :
      (m : M) (a len : ℕ)
      → a + len ≤ size
      → bus.bus_read m a len ≡ (m, some (read_bytes (fetch m) a len))
  pub accepts :
      (m : M) (a : ℕ) (bs : List ℕ) → a + length bs ≤ size → (bus.bus_write m a bs).1 ≡ true
  pub stores :
      (m : M) (a : ℕ) (bs : List ℕ) (i : ℕ)
      → a + length bs ≤ size
      → fetch (bus.bus_write m a bs).0 i
        ≡ (if leb a i && ltb i (a + length bs) then get_or bs (i - a) 0 else fetch m i)

pub get_or-read_bytes :
    (m : RegBytes) (a len k : ℕ) → k < len → get_or (read_bytes m a len) k 0 ≡ m (a + k)
unfolding read_bytes
get_or-read_bytes m a zero k h = absurd (omega arith)
get_or-read_bytes m a (suc len) zero h = ap m (omega arith)
get_or-read_bytes m a (suc len) (suc k) h = ground (arith, get_or-read_bytes m (a + 1) len k)

write_bytes_lem :
    (m : RegBytes) (a : ℕ) (bs : List ℕ) (i : ℕ)
    → write_bytes m a bs i ≡ (if leb a i && ltb i (a + length bs) then get_or bs (i - a) 0 else m i)
unfolding write_bytes store8
write_bytes_lem m a [] i = ground arith
write_bytes_lem m a (b ∷ bs) i =
    let later = write_bytes_lem (store8 m a b) (a + 1) bs i in
    elim (dec_lt i a) [
      | yes p ↦ ground (arith, later)
      | no p ↦ elim (ℕ_discrete i a) [
        | yes q ↦
            let none_between : i - a ≡ 0 = omega arith in rw none_between (ground (arith, later))
        | no q ↦
            let next : i - a ≡ suc (i - (a + 1)) = omega arith in rw next (ground (arith, later))
      ]
    ]

-- An array of `size` bytes; any access that does not lie in it is an error.
abbrev pub ram : ℕ → Bus RegBytes
ram size = record {
  bus_read = λ m a len. if leb (a + len) size then (m, some (read_bytes m a len)) else (m, none);
  bus_write = λ m a bs. if leb (a + length bs) size then (write_bytes m a bs, true) else (m, false);
}

pub ram-IsMemory : (size : ℕ) → IsMemory (ram size) (λ m. m) size
ram-IsMemory size = record {
  reads = λ m a len h. ground arith;
  accepts = λ m a bs h. ground arith;
  stores = λ m a bs i h. ground (arith, write_bytes_lem m a bs i);
}
