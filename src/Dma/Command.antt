-- ===== src/Dma/Command.antt =====
-- The enable command of a channel of dma350.h.
use qbox_platform.Prelude.{
  ℕ, ◌+◌, ◌-◌, ◌*◌, ◌/◌, ◌%◌, ◌^◌, ◌≤◌, ◌<◌, ◌≡◌, ◌∙◌, ap, refl, arith, bit_and, Bool, true, false,
  ◌&&◌, ltb, leb, ◌==◌, if◌then◌else◌, inr,
}
use qbox_platform.RegFile.{RegBytes, load32, store32, word_of}
use qbox_platform.RegFile.Laws.{load32-store32_self, load32-store32_disjoint}
use qbox_platform.Tlm.{Payload}
use qbox_platform.Tlm.Guard.{access_frame}
use qbox_platform.Dma.{
  Bus, Config, Dma, ch_base, ch_stride, ch_cmd, ch_status, ch_intren, ch_ctrl, ch_desaddr, ch_xsize,
  ch_xaddrinc, ch_fillval, ch_cmd_enable, sign_extend16, trace_operation,
}
use qbox_platform.Dma.Transfer.{fill_byte, execute_channel, execute_fill, is_fill}
use qbox_platform.Dma.Registers.{
  channel_status, complete_channel, run_channel, write_cmd, write32, update, target, transport_dbg,
}
use qbox_platform.Dma.Memory.{IsMemory}
use qbox_platform.Dma.Fill.{execute_fill_lem}

channel_status_lt : (intren : ℕ) (ok : Bool) → channel_status intren ok < 2 ^ 32
unfolding channel_status
channel_status_lt intren true = ground (arith)
channel_status_lt intren false = ground (arith)

trace_operation-regs :
    (c : Config) (s : Dma) (ch : ℕ) (b : Bool) → (trace_operation c s ch b).regs ≡ s.regs
unfolding trace_operation
trace_operation-regs c s ch b = ground arith

-- What a store to the status register leaves of the channel's other registers.
pub status-kept :
    (r : RegBytes) (ch o : ℕ)
    → 8 ≤ o
    → load32 (store32 r (ch + ch_status) 0) (ch + o) ≡ load32 r (ch + o)
status-kept r ch o h = load32-store32_disjoint r (ch + 4) (ch + o) 0 (inr (omega arith))

-- What a transfer of a channel does to the registers.
execute_channel-regs :
    {M : Type 0} (bus : Bus M) (c : Config) (s : Dma) (ch : ℕ) (m : M)
    → (execute_channel bus c s ch m).0.regs ≡ s.regs
unfolding execute_channel
execute_channel-regs bus c s ch m =
    ground (arith, trace_operation-regs c s ch true, trace_operation-regs c s ch false)

module _ {M : Type 0} (bus : Bus M) (c : Config) (s : Dma) (k : ℕ) (m : M) where
  -- The address of a channel's command register comes to its channel.
  write32-command :
      (value : ℕ)
      → k < 16
      → (bit_and value ch_cmd_enable == 0) ≡ false
      → let ch = ch_base + k * ch_stride in
        let (s', m') = run_channel bus c s ch m in
        write32 bus c true s ch value m ≡ (record s' { regs = store32 s'.regs (ch + ch_cmd) 0 }, m')
  unfolding write32 write_cmd
  write32-command value h enabled =
      let offset : (ch_base + k * ch_stride - ch_base) % ch_stride ≡ 0 = omega arith in
      let base : ch_base + k * ch_stride - 0 ≡ ch_base + k * ch_stride = omega arith in
      let below : ltb (ch_base + k * ch_stride) 0x2000 ≡ true = ground arith in
      let above : leb ch_base (ch_base + k * ch_stride) ≡ true = ground arith in
      rw (offset, base, below, above, enabled) refl

  -- The command register reads as zero again, and the status tells how the transfer ended.
  pub command_done :
      (value : ℕ)
      → k < 16
      → (bit_and value ch_cmd_enable == 0) ≡ false
      → let ch = ch_base + k * ch_stride in
        let begun = record s { regs = store32 s.regs (ch + ch_status) 0 } in
        let after = write32 bus c true s ch value m in
        let transfer = execute_channel bus c begun ch m in
        (load32 after.0.regs (ch + ch_cmd) ≡ 0)
        × (load32 after.0.regs (ch + ch_status)
            ≡ channel_status (load32 s.regs (ch + ch_intren)) transfer.2)
        × (after.1 ≡ transfer.1)
  unfolding run_channel complete_channel
  command_done value h enabled =
      let ch = ch_base + k * ch_stride in
      let begun = record s { regs = store32 s.regs (ch + ch_status) 0 } in
      let e = execute_channel-regs bus c begun ch m in
      let transfer = execute_channel bus c begun ch m in
      rw (write32-command value h enabled) (
        load32-store32_self _ (ch + ch_cmd) 0 (omega arith),
        load32-store32_disjoint _ (ch + ch_cmd) (ch + ch_status) 0 (inr (omega arith))
            ∙ load32-store32_self _ (ch + ch_status) _ (channel_status_lt _ _)
            ∙ rw e (
                ap (λ v. channel_status v transfer.2)
                  (status-kept s.regs ch ch_intren (omega arith))),
        refl,
      )

execute_channel-fill :
    {M : Type 0} (bus : Bus M) (c : Config) (s : Dma) (ch : ℕ) (m : M)
    → is_fill s.regs ch ≡ true
    → c.initiator_bound ≡ true
    → let transfer = execute_channel bus c s ch m in
      let filled = execute_fill bus true s.regs ch m in
      (transfer.1 ≡ filled.0) × (transfer.2 ≡ filled.1)
unfolding execute_channel
execute_channel-fill bus c s ch m e bound = rw (e, bound) (refl, refl)

module _ {M : Type 0} (bus : Bus M) (fetch : M → ℕ → ℕ) (size : ℕ)
    (memory : IsMemory bus fetch size) (size_le : size ≤ 2 ^ 64) where
  -- With a memory bound, the enable command of a channel that is set up for a fill of consecutive
  -- addresses in the memory leaves the fill pattern there, and no other byte of the memory changed; the
  -- command register reads as zero, and the status is done, with the interrupt bit if it is enabled.
  pub command_fills :
      (c : Config) (s : Dma) (k value i : ℕ) (m : M)
      → let ch = ch_base + k * ch_stride in
        let dest = load32 s.regs (ch + ch_desaddr) in
        let bytes = load32 s.regs (ch + ch_xsize) / 2 ^ 16 % 2 ^ 16 * 8 in
        let after = write32 bus c true s ch value m in
        k < 16
        → (bit_and value ch_cmd_enable == 0) ≡ false
        → c.initiator_bound ≡ true
        → is_fill s.regs ch ≡ true
        → sign_extend16 (load32 s.regs (ch + ch_xaddrinc) / 2 ^ 16) ≡ 1
        → dest + bytes ≤ size
        → (load32 after.0.regs (ch + ch_cmd) ≡ 0)
          × (load32 after.0.regs (ch + ch_status)
              ≡ channel_status (load32 s.regs (ch + ch_intren)) true)
          × (fetch after.1 i ≡ (
              if leb dest i && ltb i (dest + bytes)
              then fill_byte (load32 s.regs (ch + ch_fillval)) (i - dest)
              else fetch m i))
  command_fills c s k value i m h enabled bound fill inc fits =
      let ch = ch_base + k * ch_stride in
      let begun = record s { regs = store32 s.regs (ch + ch_status) 0 } in
      let kept = status-kept s.regs ch in
      let xsize = kept ch_xsize (omega arith) in
      let desaddr = kept ch_desaddr (omega arith) in
      let incs = kept ch_xaddrinc (omega arith) in
      let ctrl = kept ch_ctrl (omega arith) in
      let done = command_done bus c s k m value h enabled in
      let by_fill = execute_channel-fill bus c begun ch m (rw ctrl fill) bound in
      let filled =
        execute_fill_lem bus fetch size memory size_le begun.regs ch m i (rw incs inc)
          (rw (desaddr, xsize) fits) in
      (
        done.0,
        done.1 ∙ ap (channel_status (load32 s.regs (ch + ch_intren))) (by_fill.1 ∙ filled.0),
        ap (λ m'. fetch m' i) (done.2 ∙ by_fill.0)
            ∙ filled.1
            ∙ rw (desaddr, xsize, kept ch_fillval (omega arith)) refl,
      )

module _ {M : Type 0} (bus : Bus M) (c : Config) where
  write32-memory : (s : Dma) (m : M) (o v : ℕ) → (write32 bus c false s o v m).1 ≡ m
  unfolding write32 write_cmd
  write32-memory s m o v = ground arith

  -- A debug access does not touch the memory: it never starts a transfer.
  pub transport_dbg-memory :
      (s : Dma) (m : M) (p : Payload) → (transport_dbg bus c (s, m) p).0.1 ≡ m
  unfolding transport_dbg update qbox_platform.Tlm.transport_dbg qbox_platform.Tlm.access
  transport_dbg-memory s m p =
      access_frame (target bus c false) (λ x. x.1)
        (λ x o bs len. ground (arith, write32-memory x.0 x.1 o (word_of bs))) (λ x _ _ _. refl)
        (s, m) p
