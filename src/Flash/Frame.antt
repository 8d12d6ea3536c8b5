-- ===== src/Flash/Frame.antt =====
-- What the backing file and the statistics of strata_flash_j3.h are kept in, apart from the rest.
use qbox_platform.Prelude.{
  ℕ, if_both, ◌+◌, ◌-◌, ◌≡◌, ◌∙◌, refl, Bool, false, not, ◌&&◌, ◌||◌, Option, none, some, ltb, ◌==◌,
}
use qbox_platform.Flash.{Config, Flash, Opened, unopened, unmapped, mapped, Counter}
use qbox_platform.Flash.Stats.{add_stat}
use qbox_platform.Flash.Backing.{
  handle_open, ensure_backing_file, release, open_as, ensure_with, write_mapped, write_now_with,
  flush_deferred_backing, close_backing_file, write_backing_range_now, mark_backing_dirty,
  flush_if_due, defer_range, write_backing_range,
}

-- A flash without its backing file and its statistics.
unfoldable pub bare : Flash → Flash
bare s = record s {
  backing_dirty = false;
  backing_dirty_start = 0;
  backing_dirty_end = 0;
  backing_deferred_since_flush = 0;
  backing_size = none;
  open_backing_file = 0;
  disk = λ file i. 0;
  counters = λ k. 0;
}

abbrev bare_result : Flash × Bool → Flash
bare_result r = bare r.0

pub bare-add_stat : (s : Flash) (k : Counter) (d : ℕ) → bare (add_stat s k d) ≡ bare s
unfolding bare add_stat
bare-add_stat s k d = refl

bare-release : (s : Flash) → bare (release s) ≡ bare s
unfolding bare release
bare-release s = refl

bare-write_mapped : (s : Flash) (o l : ℕ) (m : Option ℕ) → bare (write_mapped s o l m).0 ≡ bare s
unfolding bare write_mapped
bare-write_mapped s o l none = refl
bare-write_mapped s o l (some n) = if_both bare_result (ltb n o || ltb (n - o) l) refl refl

module _ (c : Config) (close : Flash → Flash) (closes : (s : Flash) → bare (close s) ≡ bare s) where
  bare-open_as : (s : Flash) (o : Opened) → bare (open_as close s o).0 ≡ bare s
  unfolding bare open_as
  bare-open_as s unopened = refl
  bare-open_as s unmapped = closes s
  bare-open_as s (mapped n) = refl

  bare-ensure_with : (s : Flash) → bare (ensure_with c close s).0 ≡ bare s
  unfolding ensure_with
  bare-ensure_with s = if_both bare_result (s.backing_file_value == 0) (closes s) (
      if_both bare_result (handle_open s && s.backing_file_value == s.open_backing_file) refl
        (bare-open_as (close s) (c.open_file s.backing_file_value) ∙ closes s))

  bare-write_now_with : (s : Flash) (o l : ℕ) → bare (write_now_with c close s o l).0 ≡ bare s
  unfolding write_now_with
  bare-write_now_with s o l =
      let (s', opened) = ensure_with c close s in
      if_both bare_result (l == 0) refl (
        if_both bare_result (not opened || ltb s'.size o || ltb (s'.size - o) l)
          (bare-ensure_with s) (bare-write_mapped s' o l s'.backing_size ∙ bare-ensure_with s))

module _ (c : Config) where
  pub bare-flush : (s : Flash) → bare (flush_deferred_backing c s) ≡ bare s
  unfolding bare flush_deferred_backing add_stat
  bare-flush s =
      let len = s.backing_dirty_end - s.backing_dirty_start + 1 in
      let (s', flushed) = write_now_with c release s s.backing_dirty_start len in
      let written = bare-write_now_with c release bare-release s s.backing_dirty_start len in
      if_both bare (not s.backing_dirty || s.backing_file_value == 0) refl
        (if_both bare (not flushed) written written)

  bare-close : (s : Flash) → bare (close_backing_file c s) ≡ bare s
  unfolding close_backing_file
  bare-close s = bare-release (flush_deferred_backing c s) ∙ bare-flush s

  pub bare-ensure_backing_file : (s : Flash) → bare (ensure_backing_file c s).0 ≡ bare s
  unfolding ensure_backing_file
  bare-ensure_backing_file s = bare-ensure_with c (close_backing_file c) bare-close s

  bare-write_now : (s : Flash) (o l : ℕ) → bare (write_backing_range_now c s o l).0 ≡ bare s
  unfolding write_backing_range_now
  bare-write_now s o l = bare-write_now_with c (close_backing_file c) bare-close s o l

  bare-mark_dirty : (s : Flash) (o l : ℕ) → bare (mark_backing_dirty s o l) ≡ bare s
  unfolding bare mark_backing_dirty
  bare-mark_dirty s o l = if_both bare (l == 0) refl (if_both bare (not s.backing_dirty) refl refl)

  bare-flush_if_due : (s : Flash) → bare (flush_if_due c s) ≡ bare s
  unfolding flush_if_due
  bare-flush_if_due s = if_both bare _ (bare-flush s) refl

  bare-defer_range : (s : Flash) (o l : ℕ) → bare (defer_range c s o l) ≡ bare s
  unfolding bare defer_range add_stat
  bare-defer_range s o l = bare-flush_if_due _ ∙ bare-mark_dirty _ o l

  -- A write to the backing file changes what is kept of it, and the statistics.
  pub bare-write_backing_range : (s : Flash) (o l : ℕ) → bare (write_backing_range c s o l) ≡ bare s
  unfolding bare write_backing_range add_stat
  bare-write_backing_range s o l =
      if_both bare (l == 0 || s.backing_file_value == 0 || ltb s.size o || ltb (s.size - o) l) refl
        (if_both bare s.defer_backing_write_value (bare-defer_range _ o l) (bare-write_now _ o l))
