-- ===== src/Flash/Backing.antt =====
-- The backing file of strata_flash_j3.h. `close_backing_file` flushes, unless a flush is running
-- (`m_backing_flushing`): the functions that both cases share take the one that closes.
use qbox_platform.Prelude.{
  ℕ, ◌+◌, ◌-◌, ◌%◌, ◌^◌, min, max, Bool, true, false, not, ◌&&◌, ◌||◌, Option, none, some, ltb, leb,
  ◌==◌, if◌then◌else◌,
}
use qbox_platform.RegFile.{RegBytes}
use qbox_platform.Flash.{
  Config, Flash, Opened, unopened, unmapped, mapped, backing_write_ops, backing_write_bytes,
  backing_deferred_ranges, backing_deferred_bytes, backing_flush_ops, backing_flush_bytes,
}
use qbox_platform.Flash.Stats.{add_stat, count_stat}

-- `memcpy(m_backing_map + offset, m_data.data() + offset, len)`
unfoldable pub copy_bytes : RegBytes → RegBytes → ℕ → ℕ → RegBytes
copy_bytes to from offset len i = if leb offset i && ltb i (offset + len) then from i else to i

abbrev pub handle_open : Flash → Bool
handle_open s = is_open s.backing_size
  where
    is_open : Option ℕ → Bool
    is_open none = false
    is_open (some n) = true

-- Closing while a flush is running.
unfoldable pub release : Flash → Flash
release s = record s { backing_size = none; open_backing_file = 0 }

unfoldable pub open_as : (Flash → Flash) → Flash → Opened → Flash × Bool
open_as close s unopened = (s, false)
open_as close s unmapped = (close s, false)
open_as close s (mapped n) =
    (record s { backing_size = some n; open_backing_file = s.backing_file_value }, true)

unfoldable pub ensure_with : Config → (Flash → Flash) → Flash → Flash × Bool
unfolding open_as
ensure_with c close s =
    if s.backing_file_value == 0
    then (close s, false)
    else if handle_open s && s.backing_file_value == s.open_backing_file
    then (s, true)
    else open_as close (close s) (c.open_file s.backing_file_value)

-- The copy, with the test of the mapping.
unfoldable pub write_mapped : Flash → ℕ → ℕ → Option ℕ → Flash × Bool
write_mapped s offset len none = (s, false)
write_mapped s offset len (some n) = if ltb n offset || ltb (n - offset) len then (s, false) else (
  record s {
    disk = λ file.
        if file == s.open_backing_file
        then copy_bytes (s.disk file) s.contents offset len
        else s.disk file;
  },
  true,
)

unfoldable pub write_now_with : Config → (Flash → Flash) → Flash → ℕ → ℕ → Flash × Bool
unfolding write_mapped
write_now_with c close s offset len =
    if len == 0
    then (s, false)
    else let (s', opened) = ensure_with c close s in
      if not opened || ltb s'.size offset || ltb (s'.size - offset) len
      then (s', false)
      else write_mapped s' offset len s'.backing_size

unfoldable pub flush_deferred_backing : Config → Flash → Flash
flush_deferred_backing c s =
    let offset = s.backing_dirty_start in
    let len = s.backing_dirty_end - s.backing_dirty_start + 1 in
    let (s', flushed) = write_now_with c release s offset len in
    if not s.backing_dirty || s.backing_file_value == 0
    then s
    else if not flushed
    then s'
    else add_stat
        (count_stat (record s' { backing_dirty = false; backing_deferred_since_flush = 0 })
          backing_flush_ops)
        backing_flush_bytes len

unfoldable pub close_backing_file : Config → Flash → Flash
close_backing_file c s = release (flush_deferred_backing c s)

unfoldable pub ensure_backing_file : Config → Flash → Flash × Bool
ensure_backing_file c = ensure_with c (close_backing_file c)

unfoldable pub write_backing_range_now : Config → Flash → ℕ → ℕ → Flash × Bool
write_backing_range_now c = write_now_with c (close_backing_file c)

unfoldable pub mark_backing_dirty : Flash → ℕ → ℕ → Flash
mark_backing_dirty s offset len =
    let end = offset + len - 1 in
    if len == 0
    then s
    else if not s.backing_dirty
    then record s { backing_dirty_start = offset; backing_dirty_end = end; backing_dirty = true }
    else record s {
      backing_dirty_start = min s.backing_dirty_start offset;
      backing_dirty_end = max s.backing_dirty_end end;
    }

unfoldable pub flush_if_due : Config → Flash → Flash
flush_if_due c s =
    if not (s.defer_backing_flush_interval_value == 0)
      && leb s.defer_backing_flush_interval_value s.backing_deferred_since_flush
    then flush_deferred_backing c s
    else s

-- The deferred branch of write_backing_range.
unfoldable pub defer_range : Config → Flash → ℕ → ℕ → Flash
defer_range c s offset len =
    let dirty =
      mark_backing_dirty
        (add_stat (count_stat s backing_deferred_ranges) backing_deferred_bytes len) offset len in
    flush_if_due c (record dirty {
      backing_deferred_since_flush = (dirty.backing_deferred_since_flush + 1) % 2 ^ 64;
    })

unfoldable pub write_backing_range : Config → Flash → ℕ → ℕ → Flash
unfolding defer_range
write_backing_range c s offset len =
    let counted = add_stat (count_stat s backing_write_ops) backing_write_bytes len in
    if len == 0 || s.backing_file_value == 0 || ltb s.size offset || ltb (s.size - offset) len
    then s
    else if s.defer_backing_write_value
    then defer_range c counted offset len
    else (write_backing_range_now c counted offset len).0
