-- ===== src/Atu/Dmi.antt =====
-- Direct memory access through the translation socket of rse_atu.h.
pub mod Agree
pub mod Coherent
mod Tests
use qbox_platform.Prelude.{
  ℕ, ◌+◌, ◌-◌, min, max, Bool, true, false, not, ◌&&◌, ◌||◌, Option, none, some, ltb, if◌then◌else◌,
}
use qbox_platform.Tlm.{Payload}
use qbox_platform.Atu.{Config, Atu, Info, empty_info, u64_max}
use qbox_platform.Atu.Offset.{
  range_end, offset_is_negative, negative_offset_delta, apply_region_offset,
}
use qbox_platform.Atu.Registers.{invalidate_translation_dmi}
use qbox_platform.Atu.Trace.{trace_dmi}
use qbox_platform.Atu.Translate.{translate_range}

-- `tlm::tlm_dmi`: a host pointer for the addresses from the first to the last.
pub record DmiData : Type 0 where
  pub ptr : ℕ
  pub start_address : ℕ
  pub end_address : ℕ

-- `get_direct_mem_ptr` of what stands behind the initiator socket.
abbrev pub Grant : Type 0
Grant = Payload → DmiData → Payload × DmiData × Bool

record Range : Type 0 where
  first : ℕ
  last : ℕ

-- The granted range as logical addresses.
logical_range : ℕ → DmiData → Option Range
logical_range offset d =
    if offset_is_negative offset
    then (let delta = negative_offset_delta offset in
        if ltb (u64_max - delta) d.start_address
        then none
        else some (record {
          first = d.start_address + delta;
          last = if ltb (u64_max - delta) d.end_address then u64_max else d.end_address + delta;
        }))
    else if ltb d.end_address offset
    then none
    else some (record {
      first = if ltb d.start_address offset then 0 else d.start_address - offset;
      last = d.end_address - offset;
    })

place : DmiData → ℕ → ℕ → Option ℕ → Option DmiData
place d upstream_start upstream_end none = none
place d upstream_start upstream_end (some physical_start) =
    if ltb physical_start d.start_address
    then none
    else some (record {
      ptr = d.ptr + (physical_start - d.start_address);
      start_address = upstream_start;
      end_address = upstream_end;
    })

clip_range : Info → ℕ → ℕ → DmiData → Option Range → Option DmiData
unfolding place
clip_range info logical len d none = none
clip_range info logical len d (some r) =
    let upstream_start = max r.first info.logical_start in
    let upstream_end = min r.last info.logical_end in
    if ltb r.last r.first
    then none
    else if ltb upstream_end upstream_start
        || ltb logical upstream_start
        || ltb upstream_end (range_end logical len)
    then none
    else if not (offset_is_negative info.offset) && ltb (u64_max - info.offset) upstream_start
    then none
    else place d upstream_start upstream_end (apply_region_offset upstream_start info.offset)

-- From `const uint64_t downstream_start` on; `none` is `return false`.
unfoldable pub clip : Info → ℕ → ℕ → DmiData → Option DmiData
unfolding clip_range logical_range
clip info logical len d = clip_range info logical len d (logical_range info.offset d)

keep : DmiData → Option DmiData → DmiData × Bool
keep d none = (d, false)
keep d (some d') = (d', true)

unfoldable pub translation_get_direct_mem_ptr :
    Config → Grant → Atu → Payload → DmiData → Atu × Payload × DmiData × Bool
unfolding keep
translation_get_direct_mem_ptr c grant s p d =
    let len = p.data_length in
    if not c.initiator_bound || not c.enable_dmi
    then (trace_dmi c s p.command p.address empty_info len false, p, d, false)
    else let (m, info, found) = translate_range c s.regs p.address len false in
      let s' = record s { regs = m } in
      if not found
      then (trace_dmi c s' p.command p.address info len false, p, d, false)
      else let (p', d', granted) = grant (record p { address = info.physical }) d in
        let back = record p' { address = p.address } in
        let (d'', done) = keep d' (clip info p.address len d') in
        if not granted
        then (trace_dmi c s' back.command p.address info len true, back, d', false)
        else (trace_dmi c s' back.command p.address info len true, back, d'', done)

-- The callback on the initiator socket: any invalidation behind invalidates all of it.
unfoldable pub invalidate_direct_mem_ptr : Config → Atu → ℕ → ℕ → Atu
unfolding invalidate_translation_dmi
invalidate_direct_mem_ptr c s start end = invalidate_translation_dmi c s
