-- ===== src/Flash/View.antt =====
-- What the reads of strata_flash_j3.h leave alone: the mode, the pending command and the DMI grant.
use qbox_platform.Prelude.{
  ℕ, if_both, ◌≡◌, ◌∙◌, refl, ap, Bool, not, ◌||◌, Option, none, some, List, leb, ◌==◌,
}
use qbox_platform.RegFile.{RegBytes}
use qbox_platform.Flash.{Config, Flash, Counter, Mode, Pending, DmiRange}
use qbox_platform.Flash.Stats.{add_stat, maybe_write_stats, maybe_write_dmi_stats}
use qbox_platform.Flash.Sectors.{
  initialize_sector_erased_map, ensure_storage, rebuild_sector_erased_map, ensure_sector_erased_map,
  refresh_between, refresh_sector_erased_range,
}
use qbox_platform.Flash.Backing.{flush_deferred_backing, ensure_backing_file}
use qbox_platform.Flash.Ranges.{store_ranges, refresh_dmi_ranges, find_dmi_range}
use qbox_platform.Flash.Access.{trace_access, found, read_hint, load_image}
use qbox_platform.Flash.Dmi.{stats_then, choose_memory, Memory}
use qbox_platform.Flash.Frame.{bare, bare-flush, bare-ensure_backing_file}

pub record View : Type 0 where
  pub is_enabled : Bool
  pub is_granted : Bool
  pub mode : Mode
  pub pending : Pending

unfoldable pub view : Flash → View
view s = record {
  is_enabled = s.enable_dmi_value;
  is_granted = s.dmi_granted;
  mode = s.mode;
  pending = s.pending;
}

view-bare : (s t : Flash) → bare s ≡ bare t → view s ≡ view t
unfolding view bare
view-bare s t e = ap view e

pub view-add_stat : (s : Flash) (k : Counter) (d : ℕ) → view (add_stat s k d) ≡ view s
unfolding view add_stat
view-add_stat s k d = refl

pub view-storage : (c : Config) (s : Flash) → view (ensure_storage c s) ≡ view s
unfolding view ensure_storage initialize_sector_erased_map
view-storage c s = if_both view (not (s.size == 0)) refl refl

pub view-trace : (s : Flash) → view (trace_access s) ≡ view s
unfolding view trace_access
view-trace s = if_both view (not s.trace_enabled || leb s.trace_limit_value s.trace_count) refl refl

pub view-write_stats : (c : Config) (s : Flash) → view (maybe_write_stats c s) ≡ view s
unfolding view maybe_write_stats
view-write_stats c s = if_both view _ refl refl

view-write_dmi_stats :
    (c : Config) (s : Flash) (b : Bool) → view (maybe_write_dmi_stats c s b) ≡ view s
unfolding view maybe_write_dmi_stats
view-write_dmi_stats c s b = if_both view _ refl refl

pub view-stats_then : (c : Config) (b : Bool) (s : Flash) → view (stats_then c b s) ≡ view s
unfolding stats_then
view-stats_then c b s = if_both view s.stats_collecting (view-write_dmi_stats c s b) refl

view-store : (s : Flash) (o : Option (List DmiRange)) → view (store_ranges s o) ≡ view s
unfolding view store_ranges
view-store s none = refl
view-store s (some rs) = refl

view-open : (s : Flash) (spec : List ℕ) → view (record s { open_dmi_ranges = spec }) ≡ view s
unfolding view
view-open s spec = refl

view-refresh : (c : Config) (s : Flash) → view (refresh_dmi_ranges c s) ≡ view s
unfolding refresh_dmi_ranges
view-refresh c s = if_both view _ refl (view-store _ _ ∙ view-open s _)

abbrev range_view : Flash × Option DmiRange → View
range_view r = view r.0

pub view-find : (c : Config) (s : Flash) (o l : ℕ) → view (find_dmi_range c s o l).0 ≡ view s
unfolding find_dmi_range
view-find c s o l =
    let stored = view-storage c s in
    let refreshed = view-refresh c (ensure_storage c s) ∙ stored in
    if_both range_view _ stored refreshed

view-found : (r : Flash × Option DmiRange) → view (found r).0 ≡ view r.0
unfolding found
view-found (s, none) = refl
view-found (s, some r) = view-add_stat s _ 1

abbrev hint_view : Flash × Bool → View
hint_view r = view r.0

pub view-hint : (c : Config) (s : Flash) (o l : ℕ) → view (read_hint c s o l).0 ≡ view s
unfolding read_hint
view-hint c s o l =
    if_both hint_view _ (view-found (find_dmi_range c s o l) ∙ view-find c s o l) refl

abbrev memory_view : Flash × Memory → View
memory_view r = view r.0

pub view-memory : (c : Config) (s : Flash) (r : DmiRange) → view (choose_memory c s r).0 ≡ view s
unfolding choose_memory
view-memory c s r =
    let flushed = view-bare _ s (bare-flush c s) in
    let opened =
      view-bare (ensure_backing_file c (flush_deferred_backing c s)).0 (flush_deferred_backing c s)
        (bare-ensure_backing_file c (flush_deferred_backing c s))
      ∙ flushed in
    if_both memory_view _ flushed (if_both memory_view _ opened opened)

view-ensure_map : (s : Flash) → view (ensure_sector_erased_map s) ≡ view s
unfolding view ensure_sector_erased_map rebuild_sector_erased_map
view-ensure_map s = if_both view _ refl refl

view-between : (s : Flash) (i j : ℕ) → view (refresh_between s i j) ≡ view s
unfolding view refresh_between
view-between s i j = refl

view-range : (s : Flash) (o l : ℕ) → view (refresh_sector_erased_range s o l) ≡ view s
unfolding refresh_sector_erased_range
view-range s o l = if_both view _ refl (view-between _ _ _ ∙ view-ensure_map s)

view-contents : (s : Flash) (m : RegBytes) → view (record s { contents = m }) ≡ view s
unfolding view
view-contents s m = refl

pub view-load :
    (c : Config) (d : RegBytes) (o l : ℕ) (s : Flash) → view (load_image c d o l s) ≡ view s
unfolding load_image
view-load c d o l s =
    if_both view _ (view-storage c s) (view-range _ o l ∙ view-contents _ _ ∙ view-storage c s)
