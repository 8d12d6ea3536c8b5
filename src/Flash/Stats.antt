-- ===== src/Flash/Stats.antt =====
-- Statistics of strata_flash_j3.h.
use qbox_platform.Prelude.{ℕ, ◌+◌, ◌%◌, ◌^◌, Bool, not, ◌&&◌, ◌||◌, ◌==◌, if◌then◌else◌}
use qbox_platform.Flash.{
  Config, Flash, Counter, read_accesses, write_accesses, read_bytes, write_bytes, dmi_read_hints,
  dmi_requests, dmi_grants, dmi_reject_disabled, dmi_reject_state, dmi_reject_command,
  dmi_reject_range, dmi_invalidations, command_writes, read_array_cmds, read_id_cmds,
  read_query_cmds, read_status_cmds, clear_status_cmds, write_buffer_cmds,
  write_buffer_count_writes, write_buffer_data_writes, write_buffer_confirm_cmds, write_buffer_ops,
  write_buffer_bytes, word_program_cmds, block_erase_cmds, block_erase_ack_cmds, lock_unlock_cmds,
  lock_block_cmds, unknown_cmds, program_ops, program_bytes, program_changed_bytes,
  program_noop_bytes, compat_ff_sector_erase_ops, sector_erase_ops, sector_erase_bytes,
  backing_write_ops, backing_write_bytes, backing_deferred_ranges, backing_deferred_bytes,
  backing_flush_ops, backing_flush_bytes, cmd_read_array, cmd_read_id_code, cmd_read_query,
  cmd_read_status_reg, cmd_clear_status_reg, cmd_write_to_buffer, cmd_word_program, cmd_block_erase,
  cmd_lock_unlock, cmd_block_erase_ack, cmd_lock_block,
}

-- The place of a counter among the members.
unfoldable pub number : Counter → ℕ
number read_accesses = 0
number write_accesses = 1
number read_bytes = 2
number write_bytes = 3
number dmi_read_hints = 4
number dmi_requests = 5
number dmi_grants = 6
number dmi_reject_disabled = 7
number dmi_reject_state = 8
number dmi_reject_command = 9
number dmi_reject_range = 10
number dmi_invalidations = 11
number command_writes = 12
number read_array_cmds = 13
number read_id_cmds = 14
number read_query_cmds = 15
number read_status_cmds = 16
number clear_status_cmds = 17
number write_buffer_cmds = 18
number write_buffer_count_writes = 19
number write_buffer_data_writes = 20
number write_buffer_confirm_cmds = 21
number write_buffer_ops = 22
number write_buffer_bytes = 23
number word_program_cmds = 24
number block_erase_cmds = 25
number block_erase_ack_cmds = 26
number lock_unlock_cmds = 27
number lock_block_cmds = 28
number unknown_cmds = 29
number program_ops = 30
number program_bytes = 31
number program_changed_bytes = 32
number program_noop_bytes = 33
number compat_ff_sector_erase_ops = 34
number sector_erase_ops = 35
number sector_erase_bytes = 36
number backing_write_ops = 37
number backing_write_bytes = 38
number backing_deferred_ranges = 39
number backing_deferred_bytes = 40
number backing_flush_ops = 41
number backing_flush_bytes = 42

unfoldable pub add_stat : Flash → Counter → ℕ → Flash
unfolding number
add_stat s counter delta = record s {
  counters = λ k.
      if s.stats_collecting && number k == number counter
      then (s.counters k + delta) % 2 ^ 64
      else s.counters k;
}

-- `count_stat` with its default of one.
abbrev pub count_stat : Flash → Counter → Flash
count_stat s counter = add_stat s counter 1

-- The counter of a command.
unfoldable pub command_counter : ℕ → Counter
command_counter command =
    if command == cmd_read_array
    then read_array_cmds
    else if command == cmd_read_id_code
    then read_id_cmds
    else if command == cmd_read_query
    then read_query_cmds
    else if command == cmd_read_status_reg
    then read_status_cmds
    else if command == cmd_clear_status_reg
    then clear_status_cmds
    else if command == cmd_write_to_buffer
    then write_buffer_cmds
    else if command == cmd_word_program
    then word_program_cmds
    else if command == cmd_block_erase
    then block_erase_cmds
    else if command == cmd_block_erase_ack
    then block_erase_ack_cmds
    else if command == cmd_lock_unlock
    then lock_unlock_cmds
    else if command == cmd_lock_block
    then lock_block_cmds
    else unknown_cmds

unfoldable pub record_command : Flash → ℕ → Flash
record_command s command =
    if not s.stats_collecting
    then s
    else count_stat (count_stat s command_writes) (command_counter command)

unfoldable pub maybe_write_stats : Config → Flash → Flash
maybe_write_stats c s =
    let total = (s.counters read_accesses + s.counters write_accesses) % 2 ^ 64 in
    if c.stats_interval == 0
      || c.stats_file == 0
      || total == 0
      || total == s.last_stats_access
      || not (total % c.stats_interval == 0)
    then s
    else record s { last_stats_access = total; stats_writes = s.stats_writes + 1 }

unfoldable pub maybe_write_dmi_stats : Config → Flash → Bool → Flash
maybe_write_dmi_stats c s force =
    let requests = s.counters dmi_requests in
    if c.stats_interval == 0
      || c.stats_file == 0
      || requests == 0
      || not force
        && (requests == s.last_stats_dmi_request || not (requests % c.stats_interval == 0))
    then s
    else record s { last_stats_dmi_request = requests; stats_writes = s.stats_writes + 1 }

unfoldable pub refresh_stats_collecting : Config → Flash → Flash
refresh_stats_collecting c s = record s {
  stats_collecting = not (c.stats_interval == 0) || not (c.stats_file == 0);
}
