-- ===== src/Dma/Tests.antt =====
-- The controller of dma350.h with a memory of 64 KiB behind it.
use qbox_platform.Prelude.{
  ℕ, ◌+◌, ◌-◌, ◌*◌, ◌/◌, ◌%◌, ◌^◌, ◌≡◌, refl, arith, min, true, false, Bool, ◌&&◌, ltb, leb,
  if◌then◌else◌, some, [], ◌∷◌, inl,
}
use qbox_platform.RegFile.{RegBytes, load32, store32, zeroed}
use qbox_platform.Tlm.{Payload, write, incomplete}
use qbox_platform.Dma.{
  Config, Dma, every, reset_registers, sign_extend16, channel_address, source_xsize, dest_xsize,
  transfer_bytes_from_ctrl, trace_operation, trace_operation_filter_matches, trace_address_matches,
}
use qbox_platform.Dma.Transfer.{
  fill_byte, fill_chunk, execute_fill, execute_copy, execute_channel, fill_loop, write_chunk,
  mem_write, mem_read, move, copy_loop,
}
use qbox_platform.Dma.Registers.{
  write32, write_cmd, run_channel, complete_channel, channel_status, transport_dbg,
}
use qbox_platform.Dma.Memory.{ram, ram-IsMemory}
use qbox_platform.Dma.Copy.{execute_copy_lem}
use qbox_platform.Dma.Command.{command_fills, transport_dbg-memory}
use qbox_platform.Dma.Unbound.{command_unbound}

abbrev config : Bool → Config
config bound = record {
  trace = false;
  trace_limit = 64;
  trace_filter = every;
  trace_address_min = 0;
  initiator_bound = bound;
}

-- Channel 1 is set up for a fill of two items at 0x100.
abbrev filler : Dma
filler = record reset_registers {
  regs =
      store32
        (store32
          (store32 (store32 (store32 reset_registers.regs 0x110c 0x600) 0x1118 0x100) 0x1120
            0x20000)
          0x1130 0x10000)
        0x1138 0x04030201;
}

-- Channel 0 is set up for a copy of three words from 0x10.
abbrev copier : ℕ → Dma
copier dest = record reset_registers {
  regs =
      store32
        (store32
          (store32 (store32 (store32 reset_registers.regs 0x100c 0x202) 0x1010 0x10) 0x1018 dest)
          0x1020 0x30003)
        0x1030 0x10001;
}

abbrev machinery : Unit {0}
unfolding reset_registers zeroed load32 store32 sign_extend16 channel_address source_xsize
    dest_xsize transfer_bytes_from_ctrl
machinery = tt

fill_set_up : load32 filler.regs 0x1138 ≡ 0x04030201
unfolding machinery
fill_set_up = refl

abbrev running : Unit {0}
unfolding machinery write32 write_cmd run_channel complete_channel channel_status execute_channel
    execute_fill execute_copy fill_loop write_chunk mem_write mem_read move copy_loop fill_chunk
    fill_byte trace_operation trace_operation_filter_matches trace_address_matches
running = tt

fill_ends :
    load32 (write32 (ram 0x10000) (config true) true filler 0x1100 1 zeroed).0.regs 0x1104 ≡ 0x10000
unfolding running
fill_ends = refl

command_fills_example :
    let after = write32 (ram 0x10000) (config true) true filler 0x1100 1 zeroed in
    (load32 after.0.regs 0x1100 ≡ 0)
    × (load32 after.0.regs 0x1104 ≡ channel_status (load32 filler.regs 0x1108) true)
    × (after.1 0x105 ≡ (
        if leb (load32 filler.regs 0x1118) 0x105
          && ltb 0x105 (load32 filler.regs 0x1118 + load32 filler.regs 0x1120 / 2 ^ 16 % 2 ^ 16 * 8)
        then fill_byte (load32 filler.regs 0x1138) (0x105 - load32 filler.regs 0x1118)
        else zeroed 0x105))
unfolding machinery
command_fills_example =
    command_fills (ram 0x10000) (λ m. m) 0x10000 (ram-IsMemory 0x10000) (omega arith) (config true)
      filler 1 1 0x105 zeroed (omega arith) refl refl refl refl (omega arith)

abbrev counting : RegBytes
counting i = i % 0x100

execute_copy_lem_example :
    let r = (copier 0x8).regs in
    let copied = execute_copy (ram 0x10000) true r 0x1000 counting in
    (copied.1 ≡ true)
    × (copied.0 9 ≡ (
        if leb (channel_address r 0x1000 0x18) 9
          && ltb 9 (
              channel_address r 0x1000 0x18
              + min (source_xsize r 0x1000) (dest_xsize r 0x1000)
                * transfer_bytes_from_ctrl (load32 r 0x100c))
        then counting (channel_address r 0x1000 0x10 + (9 - channel_address r 0x1000 0x18))
        else counting 9))
unfolding machinery
execute_copy_lem_example =
    execute_copy_lem (ram 0x10000) (λ m. m) 0x10000 (ram-IsMemory 0x10000) (omega arith)
      (copier 0x8).regs 0x1000 counting 9 refl refl (omega arith) (omega arith) (inl (omega arith))

command_unbound_example :
    let after = write32 (ram 0x10000) (config false) true filler 0x1100 1 zeroed in
    (load32 after.0.regs 0x1104 ≡ channel_status (load32 filler.regs 0x1108) false)
    × (after.1 ≡ zeroed)
unfolding machinery
command_unbound_example =
    command_unbound (ram 0x10000) (config false) filler 1 1 zeroed (omega arith) refl refl refl

abbrev request : Payload
request = record {
  command = write;
  address = 0x1100;
  bytes = some (1 ∷ 0 ∷ 0 ∷ 0 ∷ []);
  data_length = 4;
  response = incomplete;
  dmi_allowed = false;
}

transport_dbg-memory_example :
    (transport_dbg (ram 0x10000) (config true) (filler, zeroed) request).0.1 ≡ zeroed
transport_dbg-memory_example =
    transport_dbg-memory (ram 0x10000) (config true) filler zeroed request
