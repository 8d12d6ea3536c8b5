-- ===== src/Dma/Unbound.antt =====
-- The channels of dma350.h with nothing bound to the initiator socket.
use qbox_platform.Prelude.{
  ℕ, zero, suc, ◌+◌, ◌*◌, ◌/◌, ◌%◌, ◌^◌, ◌≤◌, ◌<◌, ◌≡◌, ◌∙◌, ap, refl, arith, min, bit_and, true,
  false, ◌==◌, if◌then◌else◌, Bool-cases, inl, inr,
}
use qbox_platform.Prelude.Bits.{pow_pos}
use qbox_platform.RegFile.{RegBytes, load32, store32}
use qbox_platform.Dma.{
  Bus, Config, Dma, ch_base, ch_stride, ch_status, ch_intren, ch_ctrl, ch_desaddr, ch_xsize,
  ch_xsizehi, ch_xaddrinc, ch_fillval, ch_cmd_enable, sign_extend16, source_xsize, dest_xsize,
  channel_address, transfer_bytes_from_ctrl, ch_srcaddr,
}
use qbox_platform.Dma.Transfer.{
  execute_channel, execute_fill, execute_copy, is_fill, fill_loop, execute_strided_fill,
  write_chunk, mem_write, mem_read, move, copy_loop, strided_copy,
}
use qbox_platform.Dma.Registers.{channel_status, write32}
use qbox_platform.Dma.Command.{status-kept, command_done}

-- Without a memory bound, the first access of a transfer fails.
fill_loop-unbound :
    {M : Type 0} (bus : Bus M) (v n : ℕ) (m : M) (a : ℕ)
    → (n == 0) ≡ false
    → fill_loop bus false v n m a n ≡ (m, false)
unfolding fill_loop write_chunk mem_write
fill_loop-unbound bus v zero m a h = absurd (ground arith)
fill_loop-unbound bus v (suc n) m a h = rw h refl

strided_fill-unbound :
    {M : Type 0} (bus : Bus M) (v step n : ℕ) (m : M) (a : ℕ)
    → (n == 0) ≡ false
    → execute_strided_fill bus false v step n m a ≡ (m, false)
unfolding execute_strided_fill mem_write
strided_fill-unbound bus v step zero m a h = absurd (ground arith)
strided_fill-unbound bus v step (suc n) m a h = refl

copy_loop-unbound :
    {M : Type 0} (bus : Bus M) (n : ℕ) (m : M) (a b : ℕ)
    → (n == 0) ≡ false
    → copy_loop bus false n m a b n ≡ (m, false)
unfolding copy_loop move mem_read
copy_loop-unbound bus zero m a b h = absurd (ground arith)
copy_loop-unbound bus (suc n) m a b h = rw h refl

strided_copy-unbound :
    {M : Type 0} (bus : Bus M) (bytes i j n : ℕ) (m : M) (a b : ℕ)
    → (n == 0) ≡ false
    → strided_copy bus false bytes i j n m a b ≡ (m, false)
unfolding strided_copy move mem_read
strided_copy-unbound bus bytes i j zero m a b h = absurd (ground arith)
strided_copy-unbound bus bytes i j (suc n) m a b h = refl

execute_fill-unbound :
    {M : Type 0} (bus : Bus M) (r : RegBytes) (ch : ℕ) (m : M)
    → (load32 r (ch + ch_xsize) / 2 ^ 16 % 2 ^ 16 == 0) ≡ false
    → execute_fill bus false r ch m ≡ (m, false)
unfolding execute_fill
execute_fill-unbound bus r ch m h =
    let count = load32 r (ch + ch_xsize) / 2 ^ 16 % 2 ^ 16 in
    rw
      (
        h,
        fill_loop-unbound bus (load32 r (ch + ch_fillval)) (count * 8) m
            (load32 r (ch + ch_desaddr)) (ground arith),
        strided_fill-unbound bus (load32 r (ch + ch_fillval))
            (sign_extend16 (load32 r (ch + ch_xaddrinc) / 2 ^ 16) * 8 % 2 ^ 64) count m
            (load32 r (ch + ch_desaddr)) h,
      )
      (ground arith)

product_nonzero : (a b : ℕ) → (a == 0) ≡ false → 1 ≤ b → (a * b == 0) ≡ false
product_nonzero zero b h g = absurd (ground arith)
product_nonzero (suc a) b h g = ground arith

execute_copy-unbound :
    {M : Type 0} (bus : Bus M) (r : RegBytes) (ch : ℕ) (m : M)
    → (min (source_xsize r ch) (dest_xsize r ch) == 0) ≡ false
    → execute_copy bus false r ch m ≡ (m, false)
unfolding execute_copy transfer_bytes_from_ctrl
execute_copy-unbound bus r ch m h =
    let a = channel_address r ch ch_srcaddr in
    let b = channel_address r ch ch_desaddr in
    let count = min (source_xsize r ch) (dest_xsize r ch) in
    let bytes = transfer_bytes_from_ctrl (load32 r (ch + ch_ctrl)) in
    let at_least_one : 1 ≤ bytes = pow_pos (bit_and (load32 r (ch + ch_ctrl)) 7) in
    let some_bytes = product_nonzero count bytes h at_least_one in
    let increments = load32 r (ch + ch_xaddrinc) in
    rw
      (
        h,
        copy_loop-unbound bus (count * bytes) m a b some_bytes,
        strided_copy-unbound bus bytes (sign_extend16 increments * bytes % 2 ^ 64)
            (sign_extend16 (increments / 2 ^ 16) * bytes % 2 ^ 64) count m a b h,
      )
      (ground arith)

-- The number of items that a channel is set up to transfer.
abbrev pub items : RegBytes → ℕ → ℕ
items r ch =
    if is_fill r ch
    then load32 r (ch + ch_xsize) / 2 ^ 16 % 2 ^ 16
    else min (source_xsize r ch) (dest_xsize r ch)

items-kept : (r : RegBytes) (ch : ℕ) → items (store32 r (ch + ch_status) 0) ch ≡ items r ch
unfolding source_xsize dest_xsize
items-kept r ch =
    let kept = status-kept r ch in
    rw (kept ch_ctrl (omega arith), kept ch_xsize (omega arith), kept ch_xsizehi (omega arith)) refl

execute_channel-unbound :
    {M : Type 0} (bus : Bus M) (c : Config) (s : Dma) (ch : ℕ) (m : M)
    → c.initiator_bound ≡ false
    → (items s.regs ch == 0) ≡ false
    → let transfer = execute_channel bus c s ch m in (transfer.1 ≡ m) × (transfer.2 ≡ false)
unfolding execute_channel
execute_channel-unbound bus c s ch m unbound some_items = elim (Bool-cases (is_fill s.regs ch)) [
  | inl fill ↦
      let count_nonzero : (load32 s.regs (ch + ch_xsize) / 2 ^ 16 % 2 ^ 16 == 0) ≡ false =
        ground (arith, fill, some_items) in
      rw (fill, unbound, execute_fill-unbound bus s.regs ch m count_nonzero) (refl, refl)
  | inr copy ↦
      let count_nonzero : (min (source_xsize s.regs ch) (dest_xsize s.regs ch) == 0) ≡ false =
        ground (arith, copy, some_items) in
      rw (copy, unbound, execute_copy-unbound bus s.regs ch m count_nonzero) (refl, refl)
]

-- Where nothing is bound to the initiator socket, the enable command of a channel with something to
-- transfer leaves the memory alone, and the status is an error, with the interrupt bit if it is
-- enabled.
pub command_unbound :
    {M : Type 0} (bus : Bus M) (c : Config) (s : Dma) (k value : ℕ) (m : M)
    → let ch = ch_base + k * ch_stride in
      let after = write32 bus c true s ch value m in
      k < 16
      → (bit_and value ch_cmd_enable == 0) ≡ false
      → c.initiator_bound ≡ false
      → (items s.regs ch == 0) ≡ false
      → (load32 after.0.regs (ch + ch_status)
          ≡ channel_status (load32 s.regs (ch + ch_intren)) false)
        × (after.1 ≡ m)
command_unbound bus c s k value m h enabled unbound some_items =
    let ch = ch_base + k * ch_stride in
    let begun = record s { regs = store32 s.regs (ch + ch_status) 0 } in
    let kept = status-kept s.regs ch in
    let done = command_done bus c s k m value h enabled in
    let failed =
      execute_channel-unbound bus c begun ch m unbound (rw (items-kept s.regs ch) some_items) in
    (done.1 ∙ ap (channel_status (load32 s.regs (ch + ch_intren))) failed.1, done.2 ∙ failed.0)
