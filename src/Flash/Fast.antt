-- ===== src/Flash/Fast.antt =====
-- The short way through `access` of strata_flash_j3.h.
use qbox_platform.Prelude.{
  ℕ, if_both, ◌+◌, ◌%◌, ◌^◌, ◌≡◌, ◌∙◌, refl, ap, Bool, true, false, not, ◌&&◌, ◌||◌, Option, none,
  some, List, leb, ◌==◌, if◌then◌else◌,
}
use qbox_platform.RegFile.{RegBytes}
use qbox_platform.Tlm.{Command, read, write, ignore, Payload, ok, address_error}
use qbox_platform.Flash.{
  Config, Flash, Counter, read_accesses, read_bytes, write_accesses, write_bytes, Pending, idle,
  programming, write_buffer_count, write_buffer_data, erasing, locking,
}
use qbox_platform.Flash.Stats.{add_stat, number, maybe_write_stats}
use qbox_platform.Flash.Sectors.{ensure_storage, initialize_sector_erased_map}
use qbox_platform.Flash.Commands
use qbox_platform.Flash.Commands.{invalidate_dmi, handle_command, write_pending}
use qbox_platform.Flash.Access.{
  is_array, is_idle, pointer, fetch, found, in_range, finish, perform, perform_fast, guarded,
  fast_access, slow_access, trace_access, read_hint,
}
use qbox_platform.Flash.Ranges.{find_dmi_range}
use qbox_platform.Flash.Kept
use qbox_platform.Flash.Kept.{fixed}

-- The switches that the short way tests.
pub record Switches : Type 0 where
  pub collects : Bool
  pub traces : Bool
  pub grants : Bool

unfoldable pub switches : Flash → Switches
switches s = record {
  collects = s.stats_collecting;
  traces = s.trace_enabled;
  grants = s.enable_dmi_value;
}

abbrev pub all_off : Switches
all_off = record { collects = false; traces = false; grants = false }

switches-fixed : (s t : Flash) → fixed s ≡ fixed t → switches s ≡ switches t
unfolding switches fixed
switches-fixed s t e = ap switches e

switches-storage : (c : Config) (s : Flash) → switches (ensure_storage c s) ≡ switches s
unfolding switches ensure_storage initialize_sector_erased_map
switches-storage c s = if_both switches (not (s.size == 0)) refl refl

switches-invalidate : (c : Config) (s : Flash) → switches (invalidate_dmi c s) ≡ switches s
unfolding switches invalidate_dmi add_stat
switches-invalidate c s = if_both switches _ refl refl

module _ (c : Config) where
  switches-handle :
      (s : Flash) (o k : ℕ) → switches (handle_command c (invalidate_dmi c s) o k) ≡ switches s
  switches-handle s o k =
      switches-fixed _ _ (Kept.fixed-handle c (invalidate_dmi c s) o k) ∙ switches-invalidate c s

  switches-pending :
      (q : Pending) (s : Flash) (o : ℕ) (d : RegBytes) (l : ℕ)
      → switches (write_pending c q s o d l) ≡ switches s
  unfolding write_pending
  switches-pending idle s o d l = switches-handle s o (d 0)
  switches-pending erasing s o d l = switches-handle s o (d 0)
  switches-pending locking s o d l = switches-handle s o (d 0)
  switches-pending programming s o d l = switches-fixed _ s (Kept.fixed-program c s o d l)
  switches-pending write_buffer_count s o d l = switches-fixed _ s (Kept.fixed-begin s o d l)
  switches-pending write_buffer_data s o d l =
      if_both switches _ (switches-fixed _ s (Kept.fixed-confirm c s))
        (switches-fixed _ s (Kept.fixed-collect s o d l))

  switches-write :
      (s : Flash) (o : ℕ) (d : RegBytes) (l : ℕ) → switches (Commands.write c s o d l) ≡ switches s
  unfolding Commands.write
  switches-write s o d l = switches-pending s.pending s o d l

  uncounted : (s : Flash) (k : Counter) (d : ℕ) → switches s ≡ all_off → add_stat s k d ≡ s
  unfolding add_stat switches
  uncounted s k d off =
      ap
        (λ (v : Switches). record s {
          counters = λ j.
              if v.collects && number j == number k
              then (s.counters j + d) % 2 ^ 64
              else s.counters j;
        })
        off

  untraced : (s : Flash) → switches s ≡ all_off → trace_access s ≡ s
  unfolding trace_access switches
  untraced s off =
      ap
        (λ (v : Switches).
          if not v.traces || leb s.trace_limit_value s.trace_count
          then s
          else record s { trace_count = s.trace_count + 1 })
        off

  finish_lem :
      (s : Flash) (p : Payload)
      → switches s ≡ all_off
      → finish c s p ≡ (s, record p { response = ok }, true)
  unfolding finish switches
  finish_lem s p off =
      let answered = record p { response = ok } in
      ap
        (λ (t : Flash). ((if t.stats_collecting then maybe_write_stats c t else t), answered, true))
        (untraced s off)
      ∙ ap (λ (v : Switches). ((if v.collects then maybe_write_stats c s else s), answered, true))
          off

  read_hint_lem : (s : Flash) (o l : ℕ) → switches s ≡ all_off → read_hint c s o l ≡ (s, false)
  unfolding read_hint switches
  read_hint_lem s o l off =
      ap
        (λ (v : Switches).
          if v.grants && is_array s.mode && is_idle s.pending
          then found (find_dmi_range c s o l)
          else (s, false))
        off

  -- The two ways through one access.
  perform_lem :
      (s : Flash) (p : Payload) (k : Command) (bs : List ℕ)
      → switches s ≡ all_off
      → perform c s p k bs ≡ perform_fast c s p k bs
  unfolding perform perform_fast
  perform_lem s p read bs off =
      let counted =
        ap (λ t. add_stat t read_bytes p.data_length) (uncounted s read_accesses 1 off)
        ∙ uncounted s read_bytes p.data_length off in
      let answer : Flash → Flash × Bool → Flash × Payload × Bool = λ t r.
        finish c r.0
          (record p { bytes = some (fetch t p.address p.data_length); dmi_allowed = r.1 }) in
      ap (λ t. answer t (read_hint c t p.address p.data_length)) counted
      ∙ ap (answer s) (read_hint_lem s p.address p.data_length off)
      ∙ finish_lem s
          (record p { bytes = some (fetch s p.address p.data_length); dmi_allowed = false }) off
  perform_lem s p write bs off =
      let counted =
        ap (λ t. add_stat t write_bytes p.data_length) (uncounted s write_accesses 1 off)
        ∙ uncounted s write_bytes p.data_length off in
      ap
        (λ t.
          finish c (Commands.write c t p.address (pointer bs) p.data_length)
            (record p { dmi_allowed = false }))
        counted
      ∙ finish_lem _ (record p { dmi_allowed = false })
          (switches-write s p.address (pointer bs) p.data_length ∙ off)
  perform_lem s p ignore bs off = refl

  guarded_lem :
      (s : Flash) (p : Payload) (payload : Option (List ℕ))
      → switches s ≡ all_off
      → guarded (perform c) c s p payload ≡ guarded (perform_fast c) c s p payload
  unfolding guarded
  guarded_lem s p none off = refl
  guarded_lem s p (some bs) off =
      let stored = ensure_storage c s in
      ap
        (λ r.
          if p.data_length == 0
          then (s, record p { response = address_error }, false)
          else if not (in_range stored p.address p.data_length)
          then (stored, record p { response = address_error }, false)
          else r)
        (perform_lem stored p p.command bs (switches-storage c s ∙ off))

  -- With the statistics, the trace and DMI off, the short way through an access and the long one do the
  -- same: to the flash, to the payload and in what they return.
  pub access_lem :
      (s : Flash) (p : Payload) → switches s ≡ all_off → slow_access c s p ≡ fast_access c s p
  unfolding slow_access fast_access
  access_lem s p off = guarded_lem s p p.bytes off
