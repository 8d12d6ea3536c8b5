-- ===== src/Dma/Copy.antt =====
-- A copy of consecutive addresses by dma350.h, through a memory.
use qbox_platform.Prelude.{
  ℕ, zero, suc, ◌+◌, ◌-◌, ◌*◌, ◌/◌, ◌%◌, ◌^◌, ◌≤◌, ◌<◌, ◌≡◌, ◌∙◌, ap, refl, arith, min, true, false,
  ◌&&◌, ltb, leb, ◌==◌, if◌then◌else◌, Bool-cases, ◌⊎◌, inl, inr,
}
use qbox_platform.RegFile.{RegBytes, load32, read_bytes}
use qbox_platform.RegFile.Laws.{length-read_bytes}
use qbox_platform.Dma.{
  Bus, ch_ctrl, ch_srcaddr, ch_desaddr, ch_xaddrinc, sign_extend16, transfer_bytes_from_ctrl,
  channel_address, source_xsize, dest_xsize,
}
use qbox_platform.Dma.Transfer.{mem_read, mem_write, move, move_to, copy_loop, execute_copy}
use qbox_platform.Dma.Memory.{IsMemory, get_or-read_bytes}

-- Where a copy goes downwards, or to a range that does not meet its source.
abbrev pub Copies : ℕ → ℕ → ℕ → Type 0
Copies a b n = (b ≤ a) ⊎ (a + n ≤ b)

Copies-rest : (a b n len : ℕ) → len ≤ n → Copies a b n → Copies (a + len) (b + len) (n - len)
Copies-rest a b n len h (inl down) = inl (omega arith)
Copies-rest a b n len h (inr apart) = inr (omega arith)

abbrev copied : (ℕ → ℕ) → ℕ → ℕ → ℕ → ℕ → ℕ
copied f a b n i = if leb b i && ltb i (b + n) then f (a + (i - b)) else f i

-- What a chunk and the chunks after it leave at one address, put together.
copy_join :
    (f g : ℕ → ℕ) (a b n i : ℕ)
    → Copies a b n
    → let len = min n 1024 in
      ((j : ℕ) → g j ≡ copied f a b len j)
      → copied g (a + len) (b + len) (n - len) i ≡ copied f a b n i
copy_join f g a b n i apart here =
    let len = min n 1024 in
    let at_source = here (a + len + (i - (b + len))) in
    let at_dest = here i in ground (arith, at_source, at_dest, ap f)

copy_round :
    {M : Type 0} (bus : Bus M) (fuel : ℕ) (m : M) (a b n : ℕ)
    → let len = min n 1024 in
      let (m', ok) = move bus true m a b len in
      copy_loop bus true (suc fuel) m a b n ≡ (
        if n == 0
        then (m, true)
        else if ok
        then copy_loop bus true fuel m' ((a + len) % 2 ^ 64) ((b + len) % 2 ^ 64) (n - len)
        else (m', false))
unfolding copy_loop
copy_round bus fuel m a b n = refl

copy_end :
    {M : Type 0} (bus : Bus M) (m : M) (a b n : ℕ) → copy_loop bus true zero m a b n ≡ (m, true)
unfolding copy_loop
copy_end bus m a b n = refl

module _ {M : Type 0} (bus : Bus M) (fetch : M → ℕ → ℕ) (size : ℕ)
    (memory : IsMemory bus fetch size) (size_lt : size < 2 ^ 64) where
  move-write :
      (m : M) (a b len : ℕ)
      → a + len ≤ size
      → move bus true m a b len ≡ bus.bus_write m b (read_bytes (fetch m) a len)
  unfolding move mem_read mem_write
  move-write m a b len h = ap (move_to bus true b) (memory.reads m a len h)

  move_ok :
      (m : M) (a b len : ℕ) → a + len ≤ size → b + len ≤ size → (move bus true m a b len).1 ≡ true
  move_ok m a b len h g =
      rw (move-write m a b len h)
        (memory.accepts m b _ (omega (arith, length-read_bytes (fetch m) a len)))

  move_byte :
      (m : M) (a b len i : ℕ)
      → a + len ≤ size
      → b + len ≤ size
      → fetch (move bus true m a b len).0 i ≡ copied (fetch m) a b len i
  move_byte m a b len i h g =
      let e = length-read_bytes (fetch m) a len in
      rw (move-write m a b len h) (
        memory.stores m b (read_bytes (fetch m) a len) i (omega (arith, e))
        ∙ rw e (ground (arith, get_or-read_bytes (fetch m) a len (i - b))))

  copy_loop_lem :
      (fuel : ℕ) (m : M) (a b n i : ℕ)
      → n ≤ fuel
      → a + n ≤ size
      → b + n ≤ size
      → Copies a b n
      → ((copy_loop bus true fuel m a b n).1 ≡ true)
        × (fetch (copy_loop bus true fuel m a b n).0 i ≡ copied (fetch m) a b n i)
  copy_loop_lem zero m a b n i h g k apart = rw (copy_end bus m a b n) (refl, ground arith)
  copy_loop_lem (suc fuel) m a b n i h g k apart =
      let len = min n 1024 in
      let m' = (move bus true m a b len).0 in
      elim (Bool-cases (n == 0)) [
        | inl none_left ↦ rw (copy_round bus fuel m a b n, none_left) (refl, ground arith)
        | inr more ↦
            let more_than_none : 1 ≤ n = ground arith in
            let wrap_a : (a + len) % 2 ^ 64 ≡ a + len = omega arith in
            let wrap_b : (b + len) % 2 ^ 64 ≡ b + len = omega arith in
            let later =
              copy_loop_lem fuel m' (a + len) (b + len) (n - len) i (ground arith) (omega arith)
                (omega arith) (Copies-rest a b n len (omega arith) apart) in
            rw
              (
                copy_round bus fuel m a b n,
                more,
                wrap_a,
                wrap_b,
                move_ok m a b len (omega arith) (omega arith),
              )
              (
                later.0,
                later.1
                    ∙ copy_join (fetch m) (fetch m') a b n i apart
                        (λ j. move_byte m a b len j (omega arith) (omega arith)),
              )
      ]

  -- A copy with both increments one, downwards or to a range that does not meet its source, leaves at
  -- the channel's destination the bytes that its source had, does not change another byte of the
  -- memory, and succeeds.
  pub execute_copy_lem :
      (r : RegBytes) (ch : ℕ) (m : M) (i : ℕ)
      → let a = channel_address r ch ch_srcaddr in
        let b = channel_address r ch ch_desaddr in
        let n =
          min (source_xsize r ch) (dest_xsize r ch)
          * transfer_bytes_from_ctrl (load32 r (ch + ch_ctrl)) in
        sign_extend16 (load32 r (ch + ch_xaddrinc)) ≡ 1
        → sign_extend16 (load32 r (ch + ch_xaddrinc) / 2 ^ 16) ≡ 1
        → a + n ≤ size
        → b + n ≤ size
        → Copies a b n
        → ((execute_copy bus true r ch m).1 ≡ true)
          × (fetch (execute_copy bus true r ch m).0 i
              ≡ (if leb b i && ltb i (b + n) then fetch m (a + (i - b)) else fetch m i))
  unfolding execute_copy
  execute_copy_lem r ch m i source_inc dest_inc fits_a fits_b apart =
      let count = min (source_xsize r ch) (dest_xsize r ch) in
      let n = count * transfer_bytes_from_ctrl (load32 r (ch + ch_ctrl)) in
      let looped =
        copy_loop_lem n m (channel_address r ch ch_srcaddr) (channel_address r ch ch_desaddr) n i
          (omega arith) fits_a fits_b apart in
      elim (Bool-cases (count == 0)) [
        | inl none_left ↦
            let nothing : n ≡ 0 = ground arith in rw (none_left, nothing) (refl, ground arith)
        | inr more ↦ rw (more, source_inc, dest_inc) looped
      ]
