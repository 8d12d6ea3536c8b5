-- ===== src/Atu/Dmi/Agree.antt =====
-- The range and the pointer that a DMI grant of rse_atu.h offers.
use qbox_platform.Prelude.{
  ℕ, ◌+◌, ◌-◌, ◌^◌, ◌≤◌, ◌<◌, ◌≡◌, arith, true, false, some, ltb, if◌then◌else◌, ◌∙◌,
}
use native.Mathlib.Decide.{dec_lt}
use qbox_platform.Atu.{Config, Atu, Info}
use qbox_platform.Atu.Offset.{
  range_end, negative_offset_delta, offset_is_negative, apply_region_offset,
}
use qbox_platform.Atu.Offset.Laws.{
  offset_is_negative_lem, negative_offset_delta_lem, apply_region_offset_exact,
}
use qbox_platform.Tlm.{Payload}
use qbox_platform.Atu.Trace.{trace_dmi}
use qbox_platform.Atu.Translate.{translate_range}
use qbox_platform.Atu.Translate.Latch.{translate_range_unlatched}
use qbox_platform.Atu.Dmi.{DmiData, Grant, clip, translation_get_direct_mem_ptr}

module _ (info : Info) (logical len : ℕ) (d d' : DmiData) (offset_lt : info.offset < 2 ^ 64)
    (last_lt : info.logical_end < 2 ^ 64) (first_le : d.start_address ≤ d.end_address)
    (end_lt : d.end_address < 2 ^ 64) (granted : clip info logical len d ≡ some d') where
  -- The range offered upstream has the request and lies in the region.
  pub clip_range_within :
      (info.logical_start ≤ d'.start_address)
      × (d'.end_address ≤ info.logical_end)
      × (d'.start_address ≤ logical)
      × (range_end logical len ≤ d'.end_address)
  unfolding clip
  clip_range_within = ground arith

  clip_forward :
      offset_is_negative info.offset ≡ false
      → (d.start_address ≤ d'.start_address + info.offset)
        × (d'.end_address + info.offset ≤ d.end_address)
        × (d'.ptr ≡ d.ptr + (d'.start_address + info.offset - d.start_address))
  unfolding clip apply_region_offset
  clip_forward pos = ground arith

  clip_backward :
      offset_is_negative info.offset ≡ true
      → negative_offset_delta info.offset ≡ 2 ^ 64 - info.offset
      → (d.start_address + 2 ^ 64 ≤ d'.start_address + info.offset)
        × (d'.end_address + info.offset ≤ d.end_address + 2 ^ 64)
        × (d'.ptr ≡ d.ptr + (d'.start_address + info.offset - 2 ^ 64 - d.start_address))
  unfolding clip apply_region_offset
  clip_backward neg delta = ground arith

  -- the physical address that the offset gives
  shifted : ℕ → ℕ
  shifted a = if ltb info.offset (2 ^ 63) then a + info.offset else a + info.offset - 2 ^ 64

  shifted_within :
      (a : ℕ)
      → d'.start_address ≤ a
      → a ≤ d'.end_address
      → (apply_region_offset a info.offset ≡ some (shifted a))
        × (d.start_address ≤ shifted a)
        × (shifted a ≤ d.end_address)
        × (d'.ptr + (a - d'.start_address) ≡ d.ptr + (shifted a - d.start_address))
  unfolding shifted
  shifted_within a h k =
      let lt : a < 2 ^ 64 = omega (arith, clip_range_within) in
      let sign = offset_is_negative_lem info.offset offset_lt in
      let exact = (apply_region_offset_exact a info.offset (shifted a) lt offset_lt).1 in
      elim (dec_lt info.offset (2 ^ 63)) [
        | yes p ↦ ground (arith, clip_forward (sign ∙ ground arith), exact)
        | no p ↦ ground (
          arith,
          clip_backward (sign ∙ ground arith)
              (negative_offset_delta_lem info.offset (omega arith) offset_lt),
          exact,
        )
      ]

  -- Out of a well-ordered range from behind, the offset of the region takes every address of the
  -- clipped range into the range granted from behind, and the host pointer that the clipped range gives
  -- the address is the one that is granted for where the offset takes it.
  pub clip_agrees :
      (a : ℕ)
      → d'.start_address ≤ a
      → a ≤ d'.end_address
      → (p : ℕ) × (apply_region_offset a info.offset ≡ some p)
        × (d.start_address ≤ p)
        × (p ≤ d.end_address)
        × (d'.ptr + (a - d'.start_address) ≡ d.ptr + (p - d.start_address))
  clip_agrees a h k =
      let (e, lo, hi, at_ptr) = shifted_within a h k in (shifted a, e, lo, hi, at_ptr)

-- A grant was asked for at the physical address of a translation that succeeded, is the clipped
-- range of what came back, and changes neither the registers nor the payload's address.
pub dmi_granted :
    (c : Config) (grant : Grant) (s : Atu) (p : Payload) (d : DmiData)
    → (translation_get_direct_mem_ptr c grant s p d).3 ≡ true
    → let (s', p', d', done) = translation_get_direct_mem_ptr c grant s p d in
      let (m, info, found) = translate_range c s.regs p.address p.data_length false in
      let (back, behind, granted) = grant (record p { address = info.physical }) d in
      (found ≡ true)
      × (granted ≡ true)
      × (clip info p.address p.data_length behind ≡ some d')
      × (c.enable_dmi ≡ true)
      × (s'.regs ≡ s.regs)
      × (p'.address ≡ p.address)
unfolding translation_get_direct_mem_ptr trace_dmi
dmi_granted c grant s p d h =
    ground (arith, translate_range_unlatched c s.regs p.address p.data_length)
