-- ===== src/Flash/Kept.antt =====
-- What no command of strata_flash_j3.h changes: its size, its parameters, and the DMI grant.
use qbox_platform.Prelude.{
  ℕ, if_both, ◌+◌, ◌-◌, ◌≡◌, ◌∙◌, refl, ap, min, Bool, false, not, ◌||◌, ltb, leb, ◌==◌,
}
use qbox_platform.RegFile.{RegBytes}
use qbox_platform.Flash.{
  Config, Flash, Counter, Mode, read_status, status_ready, write_buffer_max,
  write_buffer_data_writes, cmd_read_array, cmd_read_id_code, cmd_read_query, cmd_read_status_reg,
  cmd_clear_status_reg, cmd_write_to_buffer, cmd_word_program, cmd_block_erase, cmd_lock_unlock,
  Pending, idle, programming, write_buffer_count, write_buffer_data, erasing, locking, read_array,
  read_id, read_query, ready,
}
use qbox_platform.Flash.Stats.{add_stat, count_stat, record_command}
use qbox_platform.Flash.Sectors.{
  rebuild_sector_erased_map, ensure_sector_erased_map, put_erased, mark_programmed_byte,
  mark_programmed_range, mark_sector_erased, sector_is_erased,
}
use qbox_platform.Flash.Backing.{write_backing_range}
use qbox_platform.Flash.Program.{erase_sector, program_one, program_many, program}
use qbox_platform.Flash.Buffer.{
  clear_write_buffer, count_value, begin_write_buffer, put_bytes, collect_write_buffer_data,
  confirm_write_buffer,
}
use qbox_platform.Flash.Commands.{start_command, after_pending, handle_command}
use qbox_platform.Flash.Frame.{bare, bare-write_backing_range}

unfoldable pub fixed : Flash → Flash
unfolding bare
fixed s = record (bare s) {
  contents = λ i. 0;
  mode = read_array;
  pending = idle;
  status = 0;
  write_buffer_base = 0;
  write_buffer = λ i. 0;
  write_buffer_written = λ i. false;
  write_buffer_size = 0;
  sector_erased = λ i. false;
  sectors = 0;
  sector_erased_map_size = 0;
}

-- What `fixed` leaves out may be anything.
abbrev fixed_bare : Flash → Flash
fixed_bare s = record s {
  contents = λ i. 0;
  mode = read_array;
  pending = idle;
  status = 0;
  write_buffer_base = 0;
  write_buffer = λ i. 0;
  write_buffer_written = λ i. false;
  write_buffer_size = 0;
  sector_erased = λ i. false;
  sectors = 0;
  sector_erased_map_size = 0;
}

fixed-backing : (c : Config) (s : Flash) (o l : ℕ) → fixed (write_backing_range c s o l) ≡ fixed s
unfolding fixed
fixed-backing c s o l = ap fixed_bare (bare-write_backing_range c s o l)

fixed-ensure_map : (s : Flash) → fixed (ensure_sector_erased_map s) ≡ fixed s
unfolding fixed bare ensure_sector_erased_map rebuild_sector_erased_map
fixed-ensure_map s = if_both fixed _ refl refl

fixed-put_erased : (s : Flash) (k : ℕ) (v : Bool) → fixed (put_erased s k v) ≡ fixed s
unfolding fixed bare put_erased
fixed-put_erased s k v = refl

fixed-mark_byte : (s : Flash) (o : ℕ) → fixed (mark_programmed_byte s o) ≡ fixed s
unfolding mark_programmed_byte
fixed-mark_byte s o = if_both fixed _ refl (fixed-put_erased _ _ _ ∙ fixed-ensure_map s)

fixed-flags : (s : Flash) (e : ℕ → Bool) → fixed (record s { sector_erased = e }) ≡ fixed s
unfolding fixed bare
fixed-flags s e = refl

fixed-mark_range : (s : Flash) (o l : ℕ) → fixed (mark_programmed_range s o l) ≡ fixed s
unfolding mark_programmed_range
fixed-mark_range s o l = if_both fixed _ refl (fixed-flags _ _ ∙ fixed-ensure_map s)

fixed-mark_erased : (s : Flash) (o : ℕ) → fixed (mark_sector_erased s o) ≡ fixed s
unfolding mark_sector_erased
fixed-mark_erased s o = if_both fixed _ refl (fixed-put_erased _ _ _ ∙ fixed-ensure_map s)

abbrev fixed_result : Flash × Bool → Flash
fixed_result r = fixed r.0

fixed-is_erased : (s : Flash) (o : ℕ) → fixed (sector_is_erased s o).0 ≡ fixed s
unfolding sector_is_erased
fixed-is_erased s o = if_both fixed_result _ refl (fixed-ensure_map s)

fixed-add_stat : (s : Flash) (k : Counter) (d : ℕ) → fixed (add_stat s k d) ≡ fixed s
unfolding fixed bare add_stat
fixed-add_stat s k d = refl

fixed-ready : (s : Flash) → fixed (ready s) ≡ fixed s
unfolding fixed bare
fixed-ready s = refl

fixed-contents : (s : Flash) (m : RegBytes) → fixed (record s { contents = m }) ≡ fixed s
unfolding fixed bare
fixed-contents s m = refl

fixed-clear : (s : Flash) → fixed (clear_write_buffer s) ≡ fixed s
unfolding fixed bare clear_write_buffer
fixed-clear s = refl

module _ (c : Config) where
  fixed-erase_sector : (s : Flash) (o : ℕ) → fixed (erase_sector c s o) ≡ fixed s
  unfolding erase_sector
  fixed-erase_sector s o =
      let counted = fixed-add_stat _ _ _ ∙ fixed-add_stat s _ 1 in
      let tested = fixed-is_erased _ _ ∙ counted in
      if_both fixed _ (fixed-ready _ ∙ tested) (
        fixed-ready _ ∙ fixed-backing c _ _ _ ∙ fixed-mark_erased _ _ ∙ fixed-contents _ _ ∙ tested)

  fixed-program_one : (s : Flash) (o : ℕ) (d : RegBytes) → fixed (program_one c s o d) ≡ fixed s
  unfolding program_one
  fixed-program_one s o d =
      if_both fixed _ (fixed-ready s)
        (fixed-ready _ ∙ fixed-backing c _ _ _ ∙ fixed-mark_byte _ _ ∙ fixed-contents s _)

  fixed-program_many :
      (s : Flash) (o : ℕ) (d : RegBytes) (l : ℕ) → fixed (program_many c s o d l) ≡ fixed s
  unfolding program_many
  fixed-program_many s o d l =
      let counted = fixed-add_stat _ _ _ ∙ fixed-add_stat s _ 1 in
      let stored = fixed-add_stat _ _ _ ∙ fixed-add_stat _ _ _ ∙ fixed-contents _ _ ∙ counted in
      if_both fixed _ (fixed-ready _ ∙ stored)
        (fixed-ready _ ∙ fixed-backing c _ _ _ ∙ fixed-mark_range _ _ _ ∙ stored)

  pub fixed-program :
      (s : Flash) (o : ℕ) (d : RegBytes) (l : ℕ) → fixed (program c s o d l) ≡ fixed s
  unfolding program
  fixed-program s o d l =
      if_both fixed _
        (fixed-erase_sector _ o
          ∙ fixed-add_stat _ _ _
          ∙ fixed-add_stat _ _ _
          ∙ fixed-add_stat s _ 1)
        (if_both fixed _ (fixed-program_one s o d) (fixed-program_many s o d l))

  pub fixed-confirm : (s : Flash) → fixed (confirm_write_buffer c s) ≡ fixed s
  unfolding confirm_write_buffer
  fixed-confirm s =
      if_both fixed _
        (fixed-clear _
          ∙ fixed-program _ _ _ _
          ∙ fixed-add_stat _ _ _
          ∙ fixed-add_stat _ _ _
          ∙ fixed-add_stat s _ 1)
        (fixed-clear _ ∙ fixed-ready _ ∙ fixed-add_stat s _ 1)

fixed-idle : (s : Flash) → fixed (record s { pending = idle }) ≡ fixed s
unfolding fixed bare
fixed-idle s = refl

fixed-reading :
    (s : Flash) → fixed (record s { status = status_ready; mode = read_status }) ≡ fixed s
unfolding fixed bare
fixed-reading s = refl

pub fixed-begin :
    (s : Flash) (o : ℕ) (d : RegBytes) (l : ℕ) → fixed (begin_write_buffer s o d l) ≡ fixed s
unfolding fixed bare begin_write_buffer clear_write_buffer add_stat
fixed-begin s o d l =
    if_both fixed
      (count_value d l == 0
        || ltb write_buffer_max (count_value d l)
        || ltb s.size o
        || ltb (s.size - o) (count_value d l))
      refl refl

fixed-put_bytes : (s : Flash) (r : ℕ) (d : RegBytes) (l : ℕ) → fixed (put_bytes s r d l) ≡ fixed s
unfolding fixed bare put_bytes
fixed-put_bytes s r d l = refl

pub fixed-collect :
    (s : Flash) (o : ℕ) (d : RegBytes) (l : ℕ) → fixed (collect_write_buffer_data s o d l) ≡ fixed s
unfolding collect_write_buffer_data
fixed-collect s o d l =
    let r = o - s.write_buffer_base in
    let len = min l (s.write_buffer_size - r) in
    if_both fixed
      (s.write_buffer_size == 0
        || ltb o s.write_buffer_base
        || ltb (s.write_buffer_base + s.write_buffer_size) o)
      (fixed-idle (clear_write_buffer s) ∙ fixed-clear s)
      (if_both fixed (leb s.write_buffer_size r) (fixed-idle (clear_write_buffer s) ∙ fixed-clear s)
        (fixed-reading (count_stat (put_bytes s r d len) write_buffer_data_writes)
          ∙ fixed-add_stat (put_bytes s r d len) write_buffer_data_writes 1
          ∙ fixed-put_bytes s r d len))

fixed-mode : (s : Flash) (m : Mode) → fixed (record s { mode = m }) ≡ fixed s
unfolding fixed bare
fixed-mode s m = refl

fixed-pending : (s : Flash) (q : Pending) → fixed (record s { pending = q }) ≡ fixed s
unfolding fixed bare
fixed-pending s q = refl

fixed-array : (s : Flash) → fixed (record s { mode = read_array; pending = idle }) ≡ fixed s
unfolding fixed bare
fixed-array s = refl

fixed-counting :
    (s : Flash)
    → fixed (record s { status = status_ready; mode = read_status; pending = write_buffer_count })
      ≡ fixed s
unfolding fixed bare
fixed-counting s = refl

fixed-start : (s : Flash) (k : ℕ) → fixed (start_command s k) ≡ fixed s
unfolding start_command
fixed-start s k = if_both fixed (k == cmd_read_array) (fixed-mode s read_array) (
    if_both fixed (k == cmd_read_id_code) (fixed-mode s read_id) (
      if_both fixed (k == cmd_read_query) (fixed-mode s read_query) (
        if_both fixed (k == cmd_read_status_reg) (fixed-reading s) (
          if_both fixed (k == cmd_clear_status_reg) (fixed-reading s) (
            if_both fixed (k == cmd_write_to_buffer)
              (fixed-counting (clear_write_buffer s) ∙ fixed-clear s)
              (if_both fixed (k == cmd_word_program) (fixed-pending s programming) (
                if_both fixed (k == cmd_block_erase) (fixed-pending s erasing) (
                  if_both fixed (k == cmd_lock_unlock) (fixed-pending s locking)
                    (fixed-array s)))))))))

fixed-record : (s : Flash) (k : ℕ) → fixed (record_command s k) ≡ fixed s
unfolding fixed bare record_command add_stat
fixed-record s k = if_both fixed (not s.stats_collecting) refl refl

module _ (c : Config) where
  fixed-after : (q : Pending) (s : Flash) (o k : ℕ) → fixed (after_pending c q s o k) ≡ fixed s
  unfolding after_pending
  fixed-after idle s o k = fixed-start s k
  fixed-after programming s o k = fixed-start s k
  fixed-after write_buffer_count s o k =
      fixed-start _ k ∙ fixed-idle (clear_write_buffer s) ∙ fixed-clear s
  fixed-after write_buffer_data s o k =
      fixed-start _ k ∙ fixed-idle (clear_write_buffer s) ∙ fixed-clear s
  fixed-after erasing s o k =
      if_both fixed _ (fixed-erase_sector c s o) (fixed-start _ k ∙ fixed-idle s)
  fixed-after locking s o k = if_both fixed _ (fixed-ready s) (fixed-start _ k ∙ fixed-idle s)

  pub fixed-handle : (s : Flash) (o k : ℕ) → fixed (handle_command c s o k) ≡ fixed s
  unfolding handle_command
  fixed-handle s o k = fixed-after s.pending _ o k ∙ fixed-record s k
