-- ===== src/Flash/Buffer.antt =====
-- The write buffer of strata_flash_j3.h.
use qbox_platform.Prelude.{
  ℕ, zero, suc, ◌+◌, ◌-◌, min, Bool, true, false, not, ◌&&◌, ◌||◌, ltb, leb, ◌==◌, if◌then◌else◌,
}
use qbox_platform.RegFile.{RegBytes}
use qbox_platform.Flash.{
  Config, Flash, idle, write_buffer_data, read_status, status_ready, ready, write_buffer_max,
  write_buffer_count_writes, write_buffer_data_writes, write_buffer_confirm_cmds, write_buffer_ops,
  write_buffer_bytes,
}
use qbox_platform.Flash.Stats.{add_stat, count_stat}
use qbox_platform.Flash.Program.{program}

unfoldable pub clear_write_buffer : Flash → Flash
clear_write_buffer s = record s { write_buffer_size = 0; write_buffer_base = 0 }

unfoldable pub count_value : RegBytes → ℕ → ℕ
count_value from len = if len == 0 then 0 else from 0 + 1

unfoldable pub all_written : (ℕ → Bool) → ℕ → Bool
all_written written zero = true
all_written written (suc n) = written n && all_written written n

unfoldable pub write_buffer_complete : Flash → Bool
write_buffer_complete s =
    not (s.write_buffer_size == 0) && all_written s.write_buffer_written s.write_buffer_size

unfoldable pub begin_write_buffer : Flash → ℕ → RegBytes → ℕ → Flash
begin_write_buffer s offset from len =
    let count = count_value from len in
    let counted = count_stat s write_buffer_count_writes in
    if count == 0 || ltb write_buffer_max count || ltb s.size offset || ltb (s.size - offset) count
    then ready (clear_write_buffer counted)
    else record counted {
      write_buffer_base = offset;
      write_buffer = λ i. 0xff;
      write_buffer_written = λ i. false;
      write_buffer_size = count;
      status = status_ready;
      mode = read_status;
      pending = write_buffer_data;
    }

-- The loop of collect_write_buffer_data, at each index.
unfoldable pub put_bytes : Flash → ℕ → RegBytes → ℕ → Flash
put_bytes s relative from len = record s {
  write_buffer = λ k.
      if leb relative k && ltb k (relative + len) then from (k - relative) else s.write_buffer k;
  write_buffer_written =
      λ k. if leb relative k && ltb k (relative + len) then true else s.write_buffer_written k;
}

unfoldable pub collect_write_buffer_data : Flash → ℕ → RegBytes → ℕ → Flash
unfolding put_bytes
collect_write_buffer_data s offset from len =
    let relative = offset - s.write_buffer_base in
    let kept = put_bytes s relative from (min len (s.write_buffer_size - relative)) in
    if s.write_buffer_size == 0
      || ltb offset s.write_buffer_base
      || ltb (s.write_buffer_base + s.write_buffer_size) offset
    then record (clear_write_buffer s) { pending = idle }
    else if leb s.write_buffer_size relative
    then record (clear_write_buffer s) { pending = idle }
    else record (count_stat kept write_buffer_data_writes) {
      status = status_ready;
      mode = read_status;
    }

unfoldable pub confirm_write_buffer : Config → Flash → Flash
confirm_write_buffer c s =
    let confirmed = count_stat s write_buffer_confirm_cmds in
    let counted =
      add_stat (count_stat confirmed write_buffer_ops) write_buffer_bytes s.write_buffer_size in
    if write_buffer_complete s
    then clear_write_buffer
        (program c counted s.write_buffer_base s.write_buffer s.write_buffer_size)
    else clear_write_buffer (ready confirmed)
