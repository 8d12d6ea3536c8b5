-- ===== src/Atu/Dmi/Coherent.antt =====
-- Access through a granted pointer of rse_atu.h against access through the translation socket.
use qbox_platform.Prelude.{
  ℕ, ◌+◌, ◌-◌, ◌^◌, ◌≤◌, ◌<◌, ◌≡◌, ◌∙◌, refl, sym, ap, arith, Bool, true, false, some,
}
use qbox_platform.RegFile.{RegBytes}
use qbox_platform.Tlm.{Payload}
use qbox_platform.Atu.{Config, Atu, Info, supported_region_count}
use qbox_platform.Atu.Offset.{apply_region_offset}
use qbox_platform.Atu.Translate.{region_start, region_end, resolve, access_length, translate_range}
use qbox_platform.Atu.Translate.Visit.{admits, Translated}
use qbox_platform.Atu.Translate.Search.{NoneBefore, translate_range_first, translate_range_sound}
use qbox_platform.Atu.Dmi.{DmiData, Grant, clip, translation_get_direct_mem_ptr}
use qbox_platform.Atu.Dmi.Agree.{clip_range_within, clip_agrees, dmi_granted}

module _ (c : Config) (m : RegBytes) (logical r : ℕ) where
  resolve_bounds :
      ((resolve c m logical r).0.offset < 2 ^ 64) × ((resolve c m logical r).0.logical_end < 2 ^ 64)
  unfolding resolve region_end
  resolve_bounds = ground arith

  -- Another address of the region goes through whenever the offset takes it.
  resolve_at :
      (a p : ℕ)
      → (resolve c m logical r).1 ≡ true
      → apply_region_offset a (resolve c m logical r).0.offset ≡ some p
      → ((resolve c m a r).1 ≡ true) × ((resolve c m a r).0.physical ≡ p)
  unfolding resolve
  resolve_at a p h e = ground arith

-- A region that admits an access admits every byte of its range.
admits_byte :
    (m : RegBytes) (logical len r a : ℕ)
    → admits m logical len r ≡ true
    → region_start m r ≤ a
    → a < region_end m r
    → admits m a 1 r ≡ true
unfolding admits
admits_byte m logical len r a h lo hi = ground arith

module _ (c : Config) (m : RegBytes) (logical len : ℕ) where
  -- a translation that succeeds is what its region's `resolve` returns
  resolved :
      (h : (translate_range c m logical len false).2 ≡ true)
      → let info = (translate_range c m logical len false).1 in
        (info ≡ (resolve c m logical info.region).0) × ((resolve c m logical info.region).1 ≡ true)
  resolved h =
      let info = (translate_range c m logical len false).1 in
      let (t, lt, before, same) = translate_range_sound c m logical len false h in
      let (e, d) = translate_range_first c m logical len false info.region lt t.admitted before in
      (e, sym d ∙ h)

module _ (c : Config) (grant : Grant) (s s' : Atu) (p p' back : Payload) (d d' behind : DmiData)
    (info : Info) (granted : Bool)
    (offered : translation_get_direct_mem_ptr c grant s p d ≡ (s', p', d', true))
    (request : (translate_range c s.regs p.address p.data_length false).1 ≡ info)
    (answer : grant (record p { address = info.physical }) d ≡ (back, behind, granted))
    (ordered : behind.start_address ≤ behind.end_address)
    (end_lt : behind.end_address < 2 ^ 64) where
  found : (translate_range c s.regs p.address p.data_length false).2 ≡ true
  found = (dmi_granted c grant s p d (ap (λ x. x.3) offered)).0

  clipped : clip info p.address p.data_length behind ≡ some d'
  clipped =
      let k = (dmi_granted c grant s p d (ap (λ x. x.3) offered)).2 in
      rw
        (
          request,
          ap (λ (x : Payload × DmiData × Bool). x.1) answer,
          ap (λ (x : Atu × Payload × DmiData × Bool). x.2) offered,
        )
        at k

  inside : Translated c s.regs p.address (access_length p.data_length) info
  inside =
      let t = (translate_range_sound c s.regs p.address p.data_length false found).0 in
      rw request at t

  counted : info.region < supported_region_count s.regs
  counted =
      let k = (translate_range_sound c s.regs p.address p.data_length false found).1 in
      rw request at k

  resolved_as :
      (info ≡ (resolve c s.regs p.address info.region).0)
      × ((resolve c s.regs p.address info.region).1 ≡ true)
  resolved_as = let k = resolved c s.regs p.address p.data_length found in rw request at k

  offset_lt : info.offset < 2 ^ 64
  offset_lt = omega (
    arith,
    ap (λ (i : Info). i.offset) resolved_as.0,
    resolve_bounds c s.regs p.address info.region,
  )

  last_lt : info.logical_end < 2 ^ 64
  last_lt = omega (
    arith,
    ap (λ (i : Info). i.logical_end) resolved_as.0,
    resolve_bounds c s.regs p.address info.region,
  )

  -- the region of the request admits each byte of the granted range
  admits_granted :
      (a : ℕ) → d'.start_address ≤ a → a ≤ d'.end_address → admits s.regs a 1 info.region ≡ true
  admits_granted a lo hi =
      let within =
        clip_range_within info p.address p.data_length behind d' offset_lt last_lt ordered end_lt
          clipped in
      let t = inside in
      admits_byte s.regs p.address (access_length p.data_length) info.region a t.admitted
        (omega (arith, within, t.first)) (omega (arith, within, t.last))

  -- For a grant out of a well-ordered range from behind, an access of a byte through the granted
  -- pointer reaches the host address that the same access through the translation socket would: if
  -- no lower region admits the address, the translation of every address in the granted range
  -- succeeds, stays inside the range granted from behind, and the two pointers agree.
  pub dmi_coherent :
      (a : ℕ) (latch : Bool)
      → d'.start_address ≤ a
      → a ≤ d'.end_address
      → NoneBefore s.regs a 1 0 info.region
      → let (m, at_a, done) = translate_range c s.regs a 1 latch in
        (done ≡ true)
        × (behind.start_address ≤ at_a.physical)
        × (at_a.physical ≤ behind.end_address)
        × (d'.ptr + (a - d'.start_address) ≡ behind.ptr + (at_a.physical - behind.start_address))
  dmi_coherent a latch lo hi before =
      let (q, e, low, high, ptr) =
        clip_agrees info p.address p.data_length behind d' offset_lt last_lt ordered end_lt clipped
          a lo hi in
      let (i, f) =
        translate_range_first c s.regs a 1 latch info.region counted (admits_granted a lo hi)
          before in
      let (as_resolved, ok) = resolved_as in
      let (k, l) =
        resolve_at c s.regs p.address info.region a q ok
          (ap (λ (x : Info). apply_region_offset a x.offset) (sym as_resolved) ∙ e) in
      rw (f, i, l, k) (refl, low, high, ptr)
