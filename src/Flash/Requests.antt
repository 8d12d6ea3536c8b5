-- ===== src/Flash/Requests.antt =====
-- DMI requests of strata_flash_j3.h, and runs of accesses, requests and loads.
use qbox_platform.Prelude.{
  ℕ, if_intro, if_split, ◌≡◌, ◌∙◌, ap, arith, Bool, true, false, not, ◌||◌, Option, none, some,
  List, [], ◌∷◌,
}
use qbox_platform.RegFile.{RegBytes}
use qbox_platform.Tlm.{Command, Payload}
use qbox_platform.Flash.{
  Config, Flash, DmiRange, Counter, dmi_requests, dmi_reject_disabled, dmi_reject_state,
  dmi_reject_command,
}
use qbox_platform.Flash.Stats.{count_stat}
use qbox_platform.Flash.Sectors.{ensure_storage}
use qbox_platform.Flash.Access.{is_array, is_idle, access, load_image}
use qbox_platform.Flash.Dmi.{Grant, grant, is_write, stats_then, get_direct_mem_ptr}
use qbox_platform.Flash.Ranges.{find_dmi_range}
use qbox_platform.Flash.View.{
  View, view, view-add_stat, view-storage, view-stats_then, view-find, view-memory, view-load,
}
use qbox_platform.Flash.Granted.{IsQuiet, keep, access-IsQuiet}

-- A flash that waits for a command may have a pointer out.
granted_quiet :
    (s t : Flash)
    → view t ≡ view s
    → IsQuiet (view s)
    → is_array s.mode ≡ true
    → is_idle s.pending ≡ true
    → IsQuiet (view (record t { dmi_granted = true }))
unfolding view
granted_quiet s t e (on, quiet) array idles = (
  ap (λ (v : View). v.is_enabled) e ∙ on,
  λ h. (
    ap (λ (v : View). is_array v.mode) e ∙ array,
    ap (λ (v : View). is_idle v.pending) e ∙ idles,
  ),
)

-- What happens at the socket and the loader.
pub data Event : Type 0 where
  transport : Bool → Payload → Event
  request : Command → ℕ → ℕ → Event
  load : RegBytes → ℕ → ℕ → Event

abbrev QuietResult : Flash × Option Grant → Type 0
QuietResult r = IsQuiet (view r.0)

module _ (c : Config) where
  grant-IsQuiet :
      (s : Flash) (r : Flash × Option DmiRange)
      → view r.0 ≡ view s
      → IsQuiet (view s)
      → is_array s.mode ≡ true
      → is_idle s.pending ≡ true
      → IsQuiet (view (grant c r).0)
  unfolding grant
  grant-IsQuiet s (t, none) e quiet array idles =
      keep s _ (view-stats_then c false _ ∙ view-add_stat t _ 1 ∙ e) quiet
  grant-IsQuiet s (t, some r) e quiet array idles =
      granted_quiet s _ (view-stats_then c _ _ ∙ view-add_stat _ _ 1 ∙ view-memory c t r ∙ e) quiet
        array idles

  refused :
      (s t : Flash) → view t ≡ view s → IsQuiet (view s) → IsQuiet (view (stats_then c false t))
  refused s t e quiet = keep s _ (view-stats_then c false t ∙ e) quiet

  request-IsQuiet :
      (s : Flash) (k : Command) (o l : ℕ)
      → IsQuiet (view s)
      → IsQuiet (view (get_direct_mem_ptr c s k o l).0)
  unfolding get_direct_mem_ptr
  request-IsQuiet s k o l quiet =
      let t = count_stat (ensure_storage c s) dmi_requests in
      let kept = keep s t (view-add_stat _ _ 1 ∙ view-storage c s) quiet in
      let refuse = λ (n : Counter). refused t (count_stat t n) (view-add_stat t n 1) kept in
      if_intro QuietResult (not t.enable_dmi_value) (refuse dmi_reject_disabled) (
        if_split QuietResult (not (is_array t.mode) || not (is_idle t.pending))
          (λ busy. refuse dmi_reject_state)
          (λ waits. if_intro QuietResult (is_write k) (refuse dmi_reject_command) (
            grant-IsQuiet t (find_dmi_range c t o l) (view-find c t o l) kept (ground arith)
              (ground arith))))

  unfoldable pub step : Flash → Event → Flash
  step s (transport debug p) = (access c debug s p).0
  step s (request k o l) = (get_direct_mem_ptr c s k o l).0
  step s (load from o l) = load_image c from o l s

  unfoldable pub run : Flash → List Event → Flash
  run s [] = s
  run s (e ∷ es) = run (step s e) es

  step-IsQuiet :
      c.socket_bound ≡ true → (s : Flash) (e : Event) → IsQuiet (view s) → IsQuiet (view (step s e))
  unfolding step
  step-IsQuiet bound s (transport debug p) quiet = access-IsQuiet c bound debug s p quiet
  step-IsQuiet bound s (request k o l) quiet = request-IsQuiet s k o l quiet
  step-IsQuiet bound s (load from o l) quiet = keep s _ (view-load c from o l s) quiet

  -- With the socket bound and DMI enabled, after any accesses, DMI requests and loads a pointer is out
  -- only while the flash reads as an array and waits for a command.
  pub run-IsQuiet :
      c.socket_bound ≡ true
      → (es : List Event) (s : Flash) → IsQuiet (view s)
      → IsQuiet (view (run s es))
  unfolding run
  run-IsQuiet bound [] s quiet = quiet
  run-IsQuiet bound (e ∷ es) s quiet =
      run-IsQuiet bound es (step s e) (step-IsQuiet bound s e quiet)
