-- ===== src/Dma/Fill.antt =====
-- A fill of consecutive addresses by dma350.h, through a memory.
use qbox_platform.Prelude.{
  ℕ, zero, suc, ◌+◌, ◌-◌, ◌*◌, ◌/◌, ◌%◌, ◌^◌, ◌≤◌, ◌<◌, ◌≡◌, ◌∙◌, ap, refl, arith, min, true, false,
  ◌&&◌, length, take, get_or, ltb, leb, ◌==◌, if◌then◌else◌, Bool-cases, inl, inr,
}
use qbox_platform.RegFile.{RegBytes, load32}
use qbox_platform.Dma.{Bus, ch_desaddr, ch_xsize, ch_xaddrinc, ch_fillval, sign_extend16}
use qbox_platform.Dma.Transfer.{
  fill_byte, fill_chunk, mem_write, write_chunk, fill_loop, execute_fill,
}
use qbox_platform.Dma.Memory.{IsMemory}

get_or-fill_chunk :
    (v i n l k : ℕ) → k < l → k < n → get_or (take l (fill_chunk v i n)) k 0 ≡ fill_byte v (i + k)
unfolding fill_chunk
get_or-fill_chunk v i zero l k h g = absurd (omega arith)
get_or-fill_chunk v i (suc n) zero k h g = absurd (omega arith)
get_or-fill_chunk v i (suc n) (suc l) zero h g = ap (fill_byte v) (omega arith)
get_or-fill_chunk v i (suc n) (suc l) (suc k) h g =
    get_or-fill_chunk v (i + 1) n l k (omega arith) (omega arith) ∙ ap (fill_byte v) (omega arith)

length-fill_chunk : (v i n l : ℕ) → l ≤ n → length (take l (fill_chunk v i n)) ≡ l
unfolding fill_chunk
length-fill_chunk v i n zero h = refl
length-fill_chunk v i zero (suc l) h = absurd (omega arith)
length-fill_chunk v i (suc n) (suc l) h = omega (arith, length-fill_chunk v (i + 1) n l)

fill_byte_mod : (v i j : ℕ) → i % 4 ≡ j % 4 → fill_byte v i ≡ fill_byte v j
unfolding fill_byte
fill_byte_mod v i j e = rw e refl

-- What a chunk and the chunks after it write at one address, put together.
fill_join :
    (v a n i old mid new : ℕ)
    → a + n ≤ 2 ^ 64
    → let len = min n 256 in
      let next = (a + len) % 2 ^ 64 in
      mid ≡ (if leb a i && ltb i (a + len) then fill_byte v (i - a) else old)
      → new ≡ (if leb next i && ltb i (next + (n - len)) then fill_byte v (i - next) else mid)
      → new ≡ (if leb a i && ltb i (a + n) then fill_byte v (i - a) else old)
fill_join v a n i old mid new fits here later =
    ground (arith, fill_byte_mod v (i - (a + min n 256) % 2 ^ 64) (i - a))

fill_round :
    {M : Type 0} (bus : Bus M) (v fuel : ℕ) (m : M) (a n : ℕ)
    → let len = min n 256 in
      let (m', ok) = write_chunk bus true v m a len in
      fill_loop bus true v (suc fuel) m a n ≡ (
        if n == 0
        then (m, true)
        else if ok
        then fill_loop bus true v fuel m' ((a + len) % 2 ^ 64) (n - len)
        else (m', false))
unfolding fill_loop
fill_round bus v fuel m a n = refl

fill_end :
    {M : Type 0} (bus : Bus M) (v : ℕ) (m : M) (a n : ℕ)
    → fill_loop bus true v zero m a n ≡ (m, true)
unfolding fill_loop
fill_end bus v m a n = refl

module _ {M : Type 0} (bus : Bus M) (fetch : M → ℕ → ℕ) (size : ℕ)
    (memory : IsMemory bus fetch size) (size_le : size ≤ 2 ^ 64) where
  -- one chunk
  chunk_ok :
      (v : ℕ) (m : M) (a len : ℕ)
      → len ≤ 256
      → a + len ≤ size
      → (write_chunk bus true v m a len).1 ≡ true
  unfolding write_chunk mem_write
  chunk_ok v m a len h g = memory.accepts m a _ (omega (arith, length-fill_chunk v 0 256 len h))

  chunk_byte :
      (v : ℕ) (m : M) (a len i : ℕ)
      → len ≤ 256
      → a + len ≤ size
      → fetch (write_chunk bus true v m a len).0 i
        ≡ (if leb a i && ltb i (a + len) then fill_byte v (i - a) else fetch m i)
  unfolding write_chunk mem_write
  chunk_byte v m a len i h g =
      let e = length-fill_chunk v 0 256 len h in
      memory.stores m a (take len (fill_chunk v 0 256)) i (omega (arith, e))
      ∙ rw e (ground (arith, get_or-fill_chunk v 0 256 len (i - a)))

  -- The loop writes all the bytes and no other.
  fill_loop_lem :
      (v fuel : ℕ) (m : M) (a n i : ℕ)
      → n ≤ fuel
      → a + n ≤ size
      → ((fill_loop bus true v fuel m a n).1 ≡ true)
        × (fetch (fill_loop bus true v fuel m a n).0 i
            ≡ (if leb a i && ltb i (a + n) then fill_byte v (i - a) else fetch m i))
  fill_loop_lem v zero m a n i h g = rw (fill_end bus v m a n) (refl, ground arith)
  fill_loop_lem v (suc fuel) m a n i h g =
      let len = min n 256 in
      let m' = (write_chunk bus true v m a len).0 in
      let next = (a + len) % 2 ^ 64 in
      elim (Bool-cases (n == 0)) [
        | inl none_left ↦ rw (fill_round bus v fuel m a n, none_left) (refl, ground arith)
        | inr more ↦
            let later = fill_loop_lem v fuel m' next (n - len) i (ground arith) (omega arith) in
            rw (fill_round bus v fuel m a n, more, chunk_ok v m a len (omega arith) (omega arith))
              (
                later.0,
                fill_join v a n i (fetch m i) _ _ (omega arith)
                    (chunk_byte v m a len i (omega arith) (omega arith)) later.1,
              )
      ]

  -- A fill with an increment of one writes the fill pattern to the channel's destination, eight bytes
  -- for each transfer, and no other byte of the memory, and succeeds.
  pub execute_fill_lem :
      (r : RegBytes) (ch : ℕ) (m : M) (i : ℕ)
      → let dest = load32 r (ch + ch_desaddr) in
        let bytes = load32 r (ch + ch_xsize) / 2 ^ 16 % 2 ^ 16 * 8 in
        sign_extend16 (load32 r (ch + ch_xaddrinc) / 2 ^ 16) ≡ 1
        → dest + bytes ≤ size
        → ((execute_fill bus true r ch m).1 ≡ true)
          × (fetch (execute_fill bus true r ch m).0 i ≡ (
              if leb dest i && ltb i (dest + bytes)
              then fill_byte (load32 r (ch + ch_fillval)) (i - dest)
              else fetch m i))
  unfolding execute_fill
  execute_fill_lem r ch m i inc fits =
      let count = load32 r (ch + ch_xsize) / 2 ^ 16 % 2 ^ 16 in
      ground (
        arith,
        inc,
        fill_loop_lem (load32 r (ch + ch_fillval)) (count * 8) m (load32 r (ch + ch_desaddr))
            (count * 8) i,
      )
