-- ===== src/Flash.antt =====
-- systemc-components/strata_flash_j3/include/strata_flash_j3.h: the NOR flash. An array of bytes
-- behind a command interface, kept in step with a backing file.
pub mod Stats
pub mod Sectors
pub mod Backing
pub mod Program
pub mod Buffer
pub mod Commands
pub mod Ranges
pub mod Access
pub mod Dmi
pub mod Frame
pub mod Marks
pub mod Kept
pub mod View
pub mod Granted
pub mod Requests
pub mod Fast
pub mod Bytes
pub mod Sound
pub mod Erase
pub mod Programs
pub mod RoundTrip
mod Tests
use qbox_platform.Prelude.{ℕ, Bool, Option, List}
use qbox_platform.RegFile.{RegBytes}

-- `enum class mode`
pub data Mode : Type 0 where
  read_array read_id read_query read_status : Mode

-- `enum class pending_command`
pub data Pending : Type 0 where
  idle programming write_buffer_count write_buffer_data erasing locking : Pending

pub record DmiRange : Type 0 where
  pub first : ℕ
  pub last : ℕ

-- What `open`, `fstat` and `mmap` do with the file of a name: `unmapped` is a file that opens, but
-- has no size or is not mapped.
pub data Opened : Type 0 where
  unopened unmapped : Opened
  mapped : ℕ → Opened

-- A file name is a number, 0 the empty name; other strings are lists of characters. `stoull` is the
-- call `std::stoull(text, &pos, 0)`: the value and `pos`, `none` for an exception.
pub record Config : Type 0 where
  pub flash_size : ℕ
  pub dmi_ranges_text : List ℕ
  pub stats_file : ℕ
  pub stats_interval : ℕ
  pub socket_bound : Bool
  pub open_file : ℕ → Opened
  pub stoull : List ℕ → Option (ℕ × ℕ)

-- The statistics, without their `m_`.
pub data Counter : Type 0 where
  read_accesses write_accesses read_bytes write_bytes : Counter
  dmi_read_hints dmi_requests dmi_grants dmi_reject_disabled : Counter
  dmi_reject_state dmi_reject_command dmi_reject_range dmi_invalidations : Counter
  command_writes read_array_cmds read_id_cmds read_query_cmds : Counter
  read_status_cmds clear_status_cmds write_buffer_cmds : Counter
  write_buffer_count_writes write_buffer_data_writes write_buffer_confirm_cmds : Counter
  write_buffer_ops write_buffer_bytes word_program_cmds block_erase_cmds : Counter
  block_erase_ack_cmds lock_unlock_cmds lock_block_cmds unknown_cmds : Counter
  program_ops program_bytes program_changed_bytes program_noop_bytes : Counter
  compat_ff_sector_erase_ops sector_erase_ops sector_erase_bytes : Counter
  backing_write_ops backing_write_bytes backing_deferred_ranges : Counter
  backing_deferred_bytes backing_flush_ops backing_flush_bytes : Counter

-- The members of the class. A vector is a function and its size: `contents` of `size`, the write
-- buffer of `write_buffer_size`, `sector_erased` of `sectors`. `backing_size` is `none` while no file
-- is open; `disk` has the files, which the mapping shares. `invalidations` counts the calls of
-- `invalidate_direct_mem_ptr`, `stats_writes` those of `write_stats_file`.
pub record Flash : Type 0 where
  pub contents : RegBytes
  pub size : ℕ
  pub mode : Mode
  pub pending : Pending
  pub status : ℕ
  pub trace_count : ℕ
  pub open_dmi_ranges : List ℕ
  pub dmi_ranges : List DmiRange
  pub dmi_ranges_valid : Bool
  pub dmi_granted : Bool
  pub open_backing_file : ℕ
  pub stats_collecting : Bool
  pub trace_enabled : Bool
  pub trace_limit_value : ℕ
  pub enable_dmi_value : Bool
  pub program_ff_sets_bits_value : Bool
  pub program_ff_erases_sector_value : Bool
  pub defer_backing_write_value : Bool
  pub defer_backing_flush_interval_value : ℕ
  pub sector_size_value : ℕ
  pub backing_file_value : ℕ
  pub backing_dirty : Bool
  pub backing_dirty_start : ℕ
  pub backing_dirty_end : ℕ
  pub backing_deferred_since_flush : ℕ
  pub backing_size : Option ℕ
  pub disk : ℕ → RegBytes
  pub counters : Counter → ℕ
  pub last_stats_access : ℕ
  pub last_stats_dmi_request : ℕ
  pub stats_writes : ℕ
  pub write_buffer_base : ℕ
  pub write_buffer : RegBytes
  pub write_buffer_written : ℕ → Bool
  pub write_buffer_size : ℕ
  pub sector_erased : ℕ → Bool
  pub sectors : ℕ
  pub sector_erased_map_size : ℕ
  pub invalidations : ℕ

abbrev pub status_ready : ℕ
status_ready = 0x80

abbrev pub manufacturer_id : ℕ
manufacturer_id = 0x89

abbrev pub device_code : ℕ
device_code = 0x18

abbrev pub write_buffer_max : ℕ
write_buffer_max = 256

abbrev pub cmd_read_array : ℕ
cmd_read_array = 0xff

abbrev pub cmd_read_id_code : ℕ
cmd_read_id_code = 0x90

abbrev pub cmd_read_query : ℕ
cmd_read_query = 0x98

abbrev pub cmd_read_status_reg : ℕ
cmd_read_status_reg = 0x70

abbrev pub cmd_clear_status_reg : ℕ
cmd_clear_status_reg = 0x50

abbrev pub cmd_write_to_buffer : ℕ
cmd_write_to_buffer = 0xe8

abbrev pub cmd_word_program : ℕ
cmd_word_program = 0x40

abbrev pub cmd_block_erase : ℕ
cmd_block_erase = 0x20

abbrev pub cmd_lock_unlock : ℕ
cmd_lock_unlock = 0x60

abbrev pub cmd_block_erase_ack : ℕ
cmd_block_erase_ack = 0xd0

abbrev pub cmd_lock_block : ℕ
cmd_lock_block = 0x01

-- `m_mode = ...; m_pending = pending_command::none;` with the status ready.
abbrev pub ready : Flash → Flash
ready s = record s { status = status_ready; mode = read_status; pending = idle }
