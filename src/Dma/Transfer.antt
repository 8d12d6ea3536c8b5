-- ===== src/Dma/Transfer.antt =====
-- The transfers of dma350.h.
use qbox_platform.Prelude.{
  ℕ, zero, suc, ◌+◌, ◌-◌, ◌*◌, ◌/◌, ◌%◌, ◌^◌, min, Bool, true, false, ◌&&◌, Option, none, some,
  List, [], ◌∷◌, take, ◌==◌, if◌then◌else◌,
}
use qbox_platform.RegFile.{RegBytes, load32}
use qbox_platform.Dma.{
  Bus, Config, Dma, ch_ctrl, ch_srcaddr, ch_desaddr, ch_xsize, ch_xaddrinc, ch_fillval, xtype_fill,
  fill_chunk_bytes, copy_chunk_bytes, sign_extend16, transfer_bytes_from_ctrl, channel_address,
  source_xsize, dest_xsize, trace_operation,
}

-- `static_cast<uint8_t>(fill_value >> ((i & 0x3u) * 8))`
unfoldable pub fill_byte : ℕ → ℕ → ℕ
fill_byte value i = value / 2 ^ (i % 4 * 8) % 0x100

-- The bytes of `fill_chunk` from the index on.
unfoldable pub fill_chunk : ℕ → ℕ → ℕ → List ℕ
fill_chunk value i zero = []
fill_chunk value i (suc n) = fill_byte value i ∷ fill_chunk value (i + 1) n

module _ {M : Type 0} (bus : Bus M) (bound : Bool) where
  unfoldable pub mem_read : M → ℕ → ℕ → M × Option (List ℕ)
  mem_read m address len = if bound then bus.bus_read m address len else (m, none)

  unfoldable pub mem_write : M → ℕ → List ℕ → M × Bool
  mem_write m address bytes = if bound then bus.bus_write m address bytes else (m, false)

  unfoldable pub write_chunk : ℕ → M → ℕ → ℕ → M × Bool
  write_chunk value m address len =
      mem_write m address (take len (fill_chunk value 0 fill_chunk_bytes))

  -- `while (bytes_remaining != 0)` of execute_fill; the fuel is the number of bytes.
  unfoldable pub fill_loop : ℕ → ℕ → M → ℕ → ℕ → M × Bool
  fill_loop value zero m address remaining = (m, true)
  fill_loop value (suc fuel) m address remaining =
      let len = min remaining fill_chunk_bytes in
      let (m', ok) = write_chunk value m address len in
      let rest = fill_loop value fuel m' ((address + len) % 2 ^ 64) (remaining - len) in
      if remaining == 0 then (m, true) else if ok then rest else (m', false)

  -- The `for` loop, over the rounds that are left; `step` is added to the address in each.
  unfoldable pub execute_strided_fill : ℕ → ℕ → ℕ → M → ℕ → M × Bool
  execute_strided_fill value step zero m address = (m, true)
  execute_strided_fill value step (suc rounds) m address =
      let (m', ok) = mem_write m address (fill_chunk value 0 8) in
      let rest = execute_strided_fill value step rounds m' ((address + step) % 2 ^ 64) in
      if ok then rest else (m', false)

  -- A read and, if there is an answer, a write of it.
  pub move_to : ℕ → M × Option (List ℕ) → M × Bool
  move_to dest (m, none) = (m, false)
  move_to dest (m, some bytes) = mem_write m dest bytes

  unfoldable pub move : M → ℕ → ℕ → ℕ → M × Bool
  unfolding move_to
  move m source dest len = move_to dest (mem_read m source len)

  -- `while (bytes_remaining != 0)` of execute_copy; the fuel is the number of bytes.
  unfoldable pub copy_loop : ℕ → M → ℕ → ℕ → ℕ → M × Bool
  copy_loop zero m source dest remaining = (m, true)
  copy_loop (suc fuel) m source dest remaining =
      let len = min remaining copy_chunk_bytes in
      let (m', ok) = move m source dest len in
      let rest =
        copy_loop fuel m' ((source + len) % 2 ^ 64) ((dest + len) % 2 ^ 64) (remaining - len) in
      if remaining == 0 then (m, true) else if ok then rest else (m', false)

  -- The `for` loop of execute_copy.
  unfoldable pub strided_copy : ℕ → ℕ → ℕ → ℕ → M → ℕ → ℕ → M × Bool
  strided_copy bytes source_step dest_step zero m source dest = (m, true)
  strided_copy bytes source_step dest_step (suc rounds) m source dest =
      let (m', ok) = move m source dest bytes in
      let rest =
        strided_copy bytes source_step dest_step rounds m' ((source + source_step) % 2 ^ 64)
          ((dest + dest_step) % 2 ^ 64) in
      if ok then rest else (m', false)

  unfoldable pub execute_fill : RegBytes → ℕ → M → M × Bool
  execute_fill r ch m =
      let dest = load32 r (ch + ch_desaddr) in
      let value = load32 r (ch + ch_fillval) in
      let count = load32 r (ch + ch_xsize) / 2 ^ 16 % 2 ^ 16 in
      let dest_inc = load32 r (ch + ch_xaddrinc) / 2 ^ 16 in
      if count == 0
      then (m, true)
      else if sign_extend16 dest_inc == 1
      then fill_loop value (count * 8) m dest (count * 8)
      else execute_strided_fill value (sign_extend16 dest_inc * 8 % 2 ^ 64) count m dest

  unfoldable pub execute_copy : RegBytes → ℕ → M → M × Bool
  execute_copy r ch m =
      let source = channel_address r ch ch_srcaddr in
      let dest = channel_address r ch ch_desaddr in
      let count = min (source_xsize r ch) (dest_xsize r ch) in
      let source_inc = sign_extend16 (load32 r (ch + ch_xaddrinc)) in
      let dest_inc = sign_extend16 (load32 r (ch + ch_xaddrinc) / 2 ^ 16) in
      let bytes = transfer_bytes_from_ctrl (load32 r (ch + ch_ctrl)) in
      if count == 0
      then (m, true)
      else if source_inc == 1 && dest_inc == 1
      then copy_loop (count * bytes) m source dest (count * bytes)
      else strided_copy bytes (source_inc * bytes % 2 ^ 64) (dest_inc * bytes % 2 ^ 64) count m
          source dest

abbrev pub is_fill : RegBytes → ℕ → Bool
is_fill r ch = load32 r (ch + ch_ctrl) / 2 ^ 9 % 8 == xtype_fill

-- The transfer, and its line in the trace: a fill of no bytes has none.
unfoldable pub execute_channel : {M : Type 0} → Bus M → Config → Dma → ℕ → M → Dma × M × Bool
execute_channel bus c s ch m =
    if is_fill s.regs ch
    then (let (m', ok) = execute_fill bus c.initiator_bound s.regs ch m in
        (
          (if load32 s.regs (ch + ch_xsize) / 2 ^ 16 % 2 ^ 16 == 0
              then s
              else trace_operation c s ch false),
          m',
          ok,
        ))
    else let (m', ok) = execute_copy bus c.initiator_bound s.regs ch m in
      (trace_operation c s ch true, m', ok)
