-- ===== src/Flash/Dmi.antt =====
-- `get_direct_mem_ptr` of strata_flash_j3.h.
use qbox_platform.Prelude.{
  ℕ, Bool, true, false, not, ◌&&◌, ◌||◌, Option, none, some, ltb, ◌==◌, if◌then◌else◌,
}
use qbox_platform.Tlm.{Command, write}
use qbox_platform.Flash.{
  Config, Flash, DmiRange, dmi_requests, dmi_grants, dmi_reject_disabled, dmi_reject_state,
  dmi_reject_command, dmi_reject_range,
}
use qbox_platform.Flash.Stats.{count_stat, maybe_write_dmi_stats}
use qbox_platform.Flash.Sectors.{ensure_storage}
use qbox_platform.Flash.Backing.{flush_deferred_backing, ensure_backing_file}
use qbox_platform.Flash.Ranges.{find_dmi_range}
use qbox_platform.Flash.Access.{is_array, is_idle}

-- What the granted pointer points into, at the start of the range.
pub data Memory : Type 0 where
  array mapping : Memory

pub record Grant : Type 0 where
  pub memory : Memory
  pub range : DmiRange

unfoldable pub stats_then : Config → Bool → Flash → Flash
stats_then c force s = if s.stats_collecting then maybe_write_dmi_stats c s force else s

maps : ℕ → Option ℕ → Bool
maps last none = false
maps last (some n) = ltb last n

-- The memory of the pointer: the mapping, where there is one that has the range.
unfoldable pub choose_memory : Config → Flash → DmiRange → Flash × Memory
unfolding maps
choose_memory c s r =
    let flushed = flush_deferred_backing c s in
    let (s', opened) = ensure_backing_file c flushed in
    if flushed.backing_file_value == 0
    then (flushed, array)
    else if opened && maps r.last s'.backing_size
    then (s', mapping)
    else (s', array)

unfoldable pub grant : Config → Flash × Option DmiRange → Flash × Option Grant
unfolding stats_then
grant c (s, none) = (stats_then c false (count_stat s dmi_reject_range), none)
grant c (s, some r) =
    let (s', memory) = choose_memory c s r in
    let counted = count_stat s' dmi_grants in
    (
      record (stats_then c (counted.counters dmi_grants == 1) counted) { dmi_granted = true },
      some (record { memory = memory; range = r }),
    )

abbrev pub is_write : Command → Bool
is_write write = true
is_write _ = false

unfoldable pub get_direct_mem_ptr : Config → Flash → Command → ℕ → ℕ → Flash × Option Grant
unfolding stats_then grant
get_direct_mem_ptr c initial command offset len =
    let s = count_stat (ensure_storage c initial) dmi_requests in
    if not s.enable_dmi_value
    then (stats_then c false (count_stat s dmi_reject_disabled), none)
    else if not (is_array s.mode) || not (is_idle s.pending)
    then (stats_then c false (count_stat s dmi_reject_state), none)
    else if is_write command
    then (stats_then c false (count_stat s dmi_reject_command), none)
    else grant c (find_dmi_range c s offset len)
