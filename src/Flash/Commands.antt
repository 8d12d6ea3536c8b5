-- ===== src/Flash/Commands.antt =====
-- The command interface of strata_flash_j3.h.
use qbox_platform.Prelude.{ℕ, ◌+◌, false, not, ◌&&◌, ◌||◌, ◌==◌, if◌then◌else◌}
use qbox_platform.RegFile.{RegBytes}
use qbox_platform.Flash.{
  Config, Flash, Pending, idle, programming, write_buffer_count, write_buffer_data, erasing,
  locking, read_array, read_id, read_query, read_status, status_ready, ready, dmi_invalidations,
  cmd_read_array, cmd_read_id_code, cmd_read_query, cmd_read_status_reg, cmd_clear_status_reg,
  cmd_write_to_buffer, cmd_word_program, cmd_block_erase, cmd_lock_unlock, cmd_block_erase_ack,
  cmd_lock_block,
}
use qbox_platform.Flash.Stats.{count_stat, record_command}
use qbox_platform.Flash.Program.{program, erase_sector}
use qbox_platform.Flash.Buffer.{
  clear_write_buffer, write_buffer_complete, begin_write_buffer, collect_write_buffer_data,
  confirm_write_buffer,
}

unfoldable pub invalidate_dmi : Config → Flash → Flash
invalidate_dmi c s =
    if not s.dmi_granted || not s.enable_dmi_value || s.size == 0 || not c.socket_bound
    then s
    else record (count_stat (record s { invalidations = s.invalidations + 1 }) dmi_invalidations) {
      dmi_granted = false;
    }

-- The `switch` on the command.
unfoldable pub start_command : Flash → ℕ → Flash
start_command s command =
    if command == cmd_read_array
    then record s { mode = read_array }
    else if command == cmd_read_id_code
    then record s { mode = read_id }
    else if command == cmd_read_query
    then record s { mode = read_query }
    else if command == cmd_read_status_reg
    then record s { status = status_ready; mode = read_status }
    else if command == cmd_clear_status_reg
    then record s { status = status_ready; mode = read_status }
    else if command == cmd_write_to_buffer
    then record (clear_write_buffer s) {
      status = status_ready;
      mode = read_status;
      pending = write_buffer_count;
    }
    else if command == cmd_word_program
    then record s { pending = programming }
    else if command == cmd_block_erase
    then record s { pending = erasing }
    else if command == cmd_lock_unlock
    then record s { pending = locking }
    else record s { mode = read_array; pending = idle }

-- The `switch` on what is pending, and after it the one on the command.
unfoldable pub after_pending : Config → Pending → Flash → ℕ → ℕ → Flash
after_pending c programming s offset command = start_command s command
after_pending c write_buffer_count s offset command =
    start_command (record (clear_write_buffer s) { pending = idle }) command
after_pending c write_buffer_data s offset command =
    start_command (record (clear_write_buffer s) { pending = idle }) command
after_pending c erasing s offset command =
    if command == cmd_block_erase_ack
    then erase_sector c s offset
    else start_command (record s { pending = idle }) command
after_pending c locking s offset command =
    if command == cmd_lock_block || command == cmd_block_erase_ack
    then ready s
    else start_command (record s { pending = idle }) command
after_pending c idle s offset command = start_command s command

unfoldable pub handle_command : Config → Flash → ℕ → ℕ → Flash
unfolding after_pending
handle_command c s offset command =
    after_pending c s.pending (record_command s command) offset command

-- `write`, by what is pending.
unfoldable pub write_pending : Config → Pending → Flash → ℕ → RegBytes → ℕ → Flash
write_pending c programming s offset from len = program c s offset from len
write_pending c write_buffer_count s offset from len = begin_write_buffer s offset from len
write_pending c write_buffer_data s offset from len =
    if write_buffer_complete s && len == 1 && from 0 == cmd_block_erase_ack
    then confirm_write_buffer c s
    else collect_write_buffer_data s offset from len
write_pending c erasing s offset from len = handle_command c (invalidate_dmi c s) offset (from 0)
write_pending c locking s offset from len = handle_command c (invalidate_dmi c s) offset (from 0)
write_pending c idle s offset from len = handle_command c (invalidate_dmi c s) offset (from 0)

unfoldable pub write : Config → Flash → ℕ → RegBytes → ℕ → Flash
unfolding write_pending
write c s offset from len = write_pending c s.pending s offset from len
