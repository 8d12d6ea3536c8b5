-- ===== src/Dma/Registers.antt =====
-- Register accesses of dma350.h: a write of the enable command runs the channel.
use qbox_platform.Prelude.{
  ℕ, ◌+◌, ◌-◌, ◌%◌, ◌/◌, ◌*◌, bit_and, bit_or, Bool, true, false, not, ◌&&◌, ◌||◌, List, ltb, leb,
  ◌==◌, if◌then◌else◌,
}
use qbox_platform.Prelude.Bits.{not_word}
use qbox_platform.RegFile.{load32, store32, read_bytes, write_bytes, word_of}
use qbox_platform.Tlm
use qbox_platform.Tlm.{Payload, Target}
use qbox_platform.Dma.{
  Bus, TraceFilter, every, operation, copy, fill, other, Config, Dma, reg_bytes, ch_base, ch_stride,
  ch_cmd, ch_status, ch_intren, ch_cmd_enable, intr_done, intr_err, stat_done, stat_err,
  trace_address_matches,
}
use qbox_platform.Dma.Transfer.{execute_channel}

unfoldable pub channel_status : ℕ → Bool → ℕ
channel_status intren true =
    if bit_and intren intr_done == 0 then stat_done else bit_or stat_done intr_done
channel_status intren false =
    if bit_and intren intr_err == 0 then stat_err else bit_or stat_err intr_err

unfoldable pub complete_channel : Dma → ℕ → Bool → Dma
complete_channel s ch ok = record s {
  regs = store32 s.regs (ch + ch_status) (channel_status (load32 s.regs (ch + ch_intren)) ok);
}

unfoldable pub clear_channel_status : Dma → ℕ → ℕ → Dma
clear_channel_status s ch value = record s {
  regs =
      store32 s.regs (ch + ch_status)
        (bit_and (load32 s.regs (ch + ch_status)) (not_word 32 value));
}

is_copy_trace_offset : ℕ → Bool
is_copy_trace_offset o =
    o == 0x000
    || o == 0x004
    || o == 0x00c
    || o == 0x010
    || o == 0x014
    || o == 0x018
    || o == 0x01c
    || o == 0x020
    || o == 0x024
    || o == 0x028
    || o == 0x02c
    || o == 0x030

is_fill_trace_offset : ℕ → Bool
is_fill_trace_offset o =
    o == 0x000
    || o == 0x004
    || o == 0x00c
    || o == 0x018
    || o == 0x01c
    || o == 0x020
    || o == 0x024
    || o == 0x02c
    || o == 0x030
    || o == 0x038

-- In the channels' registers.
channel_filter_matches : TraceFilter → ℕ → Bool
channel_filter_matches every o = true
channel_filter_matches copy o = is_copy_trace_offset o
channel_filter_matches fill o = is_fill_trace_offset o
channel_filter_matches operation o = false
channel_filter_matches other o = false

-- In the registers of the controller.
common_filter_matches : TraceFilter → Bool
common_filter_matches every = true
common_filter_matches _ = false

unfoldable pub trace_access_filter_matches : Config → Dma → ℕ → Bool
unfolding channel_filter_matches common_filter_matches is_copy_trace_offset is_fill_trace_offset
trace_access_filter_matches c s offset =
    if ltb offset ch_base || leb reg_bytes offset
    then c.trace_address_min == 0 && common_filter_matches c.trace_filter
    else trace_address_matches c s.regs (ch_base + (offset - ch_base) / ch_stride * ch_stride)
      && channel_filter_matches c.trace_filter ((offset - ch_base) % ch_stride)

unfoldable pub trace_access : Config → Dma → ℕ → Dma
trace_access c s offset =
    if c.trace && ltb s.trace_count c.trace_limit && trace_access_filter_matches c s offset
    then record s { trace_count = s.trace_count + 1 }
    else s

module _ {M : Type 0} (bus : Bus M) (c : Config) where
  -- The enable command.
  unfoldable pub run_channel : Dma → ℕ → M → Dma × M
  run_channel s ch m =
      let (s', m', ok) =
        execute_channel bus c (record s { regs = store32 s.regs (ch + ch_status) 0 }) ch m in
      (complete_channel s' ch ok, m')

  unfoldable pub write_cmd : Bool → Dma → ℕ → ℕ → M → Dma × M
  write_cmd side_effects s ch value m =
      let (s', m') =
        if side_effects && not (bit_and value ch_cmd_enable == 0)
        then run_channel s ch m
        else (s, m) in
      (record s' { regs = store32 s'.regs (ch + ch_cmd) 0 }, m')

  unfoldable pub write32 : Bool → Dma → ℕ → ℕ → M → Dma × M
  write32 side_effects s offset value m =
      let ch_offset = (offset - ch_base) % ch_stride in
      let in_channel = leb ch_base offset && ltb offset reg_bytes in
      if in_channel && ch_offset == ch_status
      then (clear_channel_status s (offset - ch_offset) value, m)
      else if in_channel && ch_offset == ch_cmd
      then write_cmd side_effects s (offset - ch_offset) value m
      else (record s { regs = store32 s.regs offset value }, m)

  unfoldable pub update : Bool → Dma × M → ℕ → List ℕ → ℕ → Dma × M
  update side_effects (s, m) offset payload len =
      if len == 4 && offset % 4 == 0
      then write32 side_effects s offset (word_of payload) m
      else (record s { regs = write_bytes s.regs offset payload }, m)

  -- `b_transport` has the side effects, `transport_dbg` not.
  unfoldable pub target : Bool → Target (Dma × M)
  target side_effects = record {
    size = reg_bytes;
    fetch = λ s offset len. read_bytes s.0.regs offset len;
    update = update side_effects;
    trace = λ s command offset len. (trace_access c s.0 offset, s.1);
  }

  unfoldable pub access : Bool → Dma × M → Payload → (Dma × M) × Payload × Bool
  unfolding target update
  access side_effects = Tlm.access (target side_effects)

  unfoldable pub b_transport : Dma × M → Payload → (Dma × M) × Payload
  unfolding target update
  b_transport = Tlm.b_transport (target true)

  unfoldable pub transport_dbg : Dma × M → Payload → (Dma × M) × Payload × ℕ
  unfolding target update
  transport_dbg = Tlm.transport_dbg (target false)
