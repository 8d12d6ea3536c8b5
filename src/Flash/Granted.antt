-- ===== src/Flash/Granted.antt =====
-- DMI pointers of strata_flash_j3.h and its commands.
use qbox_platform.Prelude.{
  ℕ, ◌≡◌, ◌∙◌, refl, ap, arith, Bool, true, false, Option, none, some, List, ◌==◌, if_intro,
  Bool-cases, inl, inr,
}
use qbox_platform.RegFile.{RegBytes}
use qbox_platform.Tlm.{Command, read, write, ignore, Payload}
use qbox_platform.Flash.{
  Config, Flash, Counter, Pending, idle, programming, write_buffer_count, write_buffer_data,
  erasing, locking,
}
use qbox_platform.Flash.Stats.{add_stat, maybe_write_stats}
use qbox_platform.Flash.Sectors.{ensure_storage}
use qbox_platform.Flash.Commands
use qbox_platform.Flash.Commands.{invalidate_dmi, handle_command, write_pending}
use qbox_platform.Flash.Access.{
  is_array, is_idle, in_range, finish, perform, perform_fast, guarded, fast_access, slow_access,
  access, trace_access,
}
use qbox_platform.Flash.Kept
use qbox_platform.Flash.Kept.{fixed}
use qbox_platform.Flash.View.{
  View, view, view-add_stat, view-storage, view-trace, view-write_stats, view-hint,
}

-- DMI is enabled, and while a pointer is out the flash is an array that waits for a command.
abbrev pub IsQuiet : View → Type 0
IsQuiet v =
    (v.is_enabled ≡ true)
    × (v.is_granted ≡ true → (is_array v.mode ≡ true) × (is_idle v.pending ≡ true))

pub keep : (s t : Flash) → view t ≡ view s → IsQuiet (view s) → IsQuiet (view t)
keep s t e h = rw e h

-- No pointer is out.
abbrev IsOff : Flash → Type 0
IsOff s = (s.enable_dmi_value ≡ true) × (s.dmi_granted ≡ false)

off_quiet : (s : Flash) → IsOff s → IsQuiet (view s)
unfolding view
off_quiet s (on, off) = (on, λ h. absurd (ground (arith, h, off)))

fixed-IsOff : (s t : Flash) → fixed t ≡ fixed s → IsOff s → IsOff t
unfolding fixed
fixed-IsOff s t e (on, off) =
    (ap (λ (x : Flash). x.enable_dmi_value) e ∙ on, ap (λ (x : Flash). x.dmi_granted) e ∙ off)

sized :
    (s : Flash) (k k' : Counter) (d : ℕ)
    → (s.size == 0) ≡ false
    → ((add_stat (add_stat s k 1) k' d).size == 0) ≡ false
unfolding add_stat
sized s k k' d h = h

ranged_size :
    (s : Flash) (o l : ℕ) → (l == 0) ≡ false → in_range s o l ≡ true → (s.size == 0) ≡ false
unfolding in_range
ranged_size s o l h g = ground arith

module _ (c : Config) (bound : c.socket_bound ≡ true) where
  invalidated :
      (s : Flash) → s.enable_dmi_value ≡ true → (s.size == 0) ≡ false → IsOff (invalidate_dmi c s)
  unfolding invalidate_dmi add_stat
  invalidated s on some_bytes = elim (Bool-cases s.dmi_granted) [
    | inl out ↦ rw (on, some_bytes, bound, out) (refl, refl)
    | inr off ↦ rw off (on, refl)
  ]

  handle-IsOff :
      (s : Flash) (o k : ℕ)
      → s.enable_dmi_value ≡ true
      → (s.size == 0) ≡ false
      → IsOff (handle_command c (invalidate_dmi c s) o k)
  handle-IsOff s o k on some_bytes =
      fixed-IsOff (invalidate_dmi c s) _ (Kept.fixed-handle c _ o k) (invalidated s on some_bytes)

  -- While a command waits for its data no pointer is out.
  waiting-IsOff : (s : Flash) → IsQuiet (view s) → is_idle s.pending ≡ false → IsOff s
  unfolding view
  waiting-IsOff s (on, quiet) busy = elim (Bool-cases s.dmi_granted) [
    | inl out ↦ absurd (ground (arith, (quiet out).1, busy))
    | inr off ↦ (on, off)
  ]

  -- Every write leaves no pointer out.
  write-IsOff :
      (q : Pending) (s : Flash) (o : ℕ) (d : RegBytes) (l : ℕ)
      → s.pending ≡ q
      → IsQuiet (view s)
      → (s.size == 0) ≡ false
      → IsOff (write_pending c q s o d l)
  unfolding write_pending view
  write-IsOff idle s o d l e quiet some_bytes = handle-IsOff s o (d 0) quiet.0 some_bytes
  write-IsOff erasing s o d l e quiet some_bytes = handle-IsOff s o (d 0) quiet.0 some_bytes
  write-IsOff locking s o d l e quiet some_bytes = handle-IsOff s o (d 0) quiet.0 some_bytes
  write-IsOff programming s o d l e quiet some_bytes =
      fixed-IsOff s _ (Kept.fixed-program c s o d l) (waiting-IsOff s quiet (ap is_idle e))
  write-IsOff write_buffer_count s o d l e quiet some_bytes =
      fixed-IsOff s _ (Kept.fixed-begin s o d l) (waiting-IsOff s quiet (ap is_idle e))
  write-IsOff write_buffer_data s o d l e quiet some_bytes =
      let off = waiting-IsOff s quiet (ap is_idle e) in
      if_intro IsOff _ (fixed-IsOff s _ (Kept.fixed-confirm c s) off)
        (fixed-IsOff s _ (Kept.fixed-collect s o d l) off)

  write-IsQuiet :
      (s : Flash) (o : ℕ) (d : RegBytes) (l : ℕ)
      → IsQuiet (view s)
      → (s.size == 0) ≡ false
      → IsQuiet (view (Commands.write c s o d l))
  unfolding Commands.write
  write-IsQuiet s o d l quiet some_bytes =
      off_quiet _ (write-IsOff s.pending s o d l refl quiet some_bytes)

  finish-IsQuiet : (s : Flash) (p : Payload) → IsQuiet (view s) → IsQuiet (view (finish c s p).0)
  unfolding finish
  finish-IsQuiet s p quiet =
      let traced = keep s (trace_access s) (view-trace s) quiet in
      if_intro (λ t. IsQuiet (view t)) (trace_access s).stats_collecting
        (keep (trace_access s) (maybe_write_stats c (trace_access s))
          (view-write_stats c (trace_access s)) traced)
        traced

  perform-IsQuiet :
      (s : Flash) (p : Payload) (k : Command) (bs : List ℕ)
      → IsQuiet (view s)
      → (s.size == 0) ≡ false
      → IsQuiet (view (perform c s p k bs).0)
  unfolding perform
  perform-IsQuiet s p read bs quiet some_bytes =
      finish-IsQuiet _ p
        (keep s _ (view-hint c _ _ _ ∙ view-add_stat _ _ _ ∙ view-add_stat s _ 1) quiet)
  perform-IsQuiet s p write bs quiet some_bytes = finish-IsQuiet _ p (
      write-IsQuiet _ _ _ _ (keep s _ (view-add_stat _ _ _ ∙ view-add_stat s _ 1) quiet)
        (sized s _ _ _ some_bytes))
  perform-IsQuiet s p ignore bs quiet some_bytes = quiet

  fast-IsQuiet :
      (s : Flash) (p : Payload) (k : Command) (bs : List ℕ)
      → IsQuiet (view s)
      → (s.size == 0) ≡ false
      → IsQuiet (view (perform_fast c s p k bs).0)
  unfolding perform_fast
  fast-IsQuiet s p read bs quiet some_bytes = quiet
  fast-IsQuiet s p write bs quiet some_bytes = write-IsQuiet s _ _ _ quiet some_bytes
  fast-IsQuiet s p ignore bs quiet some_bytes = quiet

  guarded-IsQuiet :
      (run : Flash → Payload → Command → List ℕ → Flash × Payload × Bool)
      → ((s : Flash) (p : Payload) (k : Command) (bs : List ℕ)
          → IsQuiet (view s)
          → (s.size == 0) ≡ false
          → IsQuiet (view (run s p k bs).0))
      → (s : Flash) (p : Payload) (payload : Option (List ℕ)) → IsQuiet (view s)
      → IsQuiet (view (guarded run c s p payload).0)
  unfolding guarded
  guarded-IsQuiet run runs s p none quiet = quiet
  guarded-IsQuiet run runs s p (some bs) quiet =
      let stored = ensure_storage c s in
      let kept = keep s stored (view-storage c s) quiet in
      elim (Bool-cases (p.data_length == 0)) [
        | inl empty ↦ rw empty quiet
        | inr some_data ↦ elim (Bool-cases (in_range stored p.address p.data_length)) [
          | inl ranged ↦
              rw (some_data, ranged)
                (runs stored p p.command bs kept
                  (ranged_size stored p.address p.data_length some_data ranged))
          | inr beyond ↦ rw (some_data, beyond) kept
        ]
      ]

  pub access-IsQuiet :
      (debug : Bool) (s : Flash) (p : Payload)
      → IsQuiet (view s)
      → IsQuiet (view (access c debug s p).0)
  unfolding access fast_access slow_access
  access-IsQuiet debug s p quiet =
      if_intro (λ (r : Flash × Payload × Bool). IsQuiet (view r.0)) _
        (guarded-IsQuiet (perform_fast c) fast-IsQuiet s p p.bytes quiet)
        (guarded-IsQuiet (perform c) perform-IsQuiet s p p.bytes quiet)
