-- ===== src/Atu/Translate.antt =====
-- Address translation of rse_atu.h: `translate_range` and the forwarding of a transaction.
pub mod Pages
pub mod Visit
pub mod Search
pub mod Latch
pub mod Forward
use qbox_platform.Prelude.{
  ℕ, zero, suc, ◌+◌, ◌-◌, ◌*◌, ◌/◌, ◌%◌, ◌^◌, bit_and, bit_or, Bool, true, false, not, ◌&&◌, ◌||◌,
  Option, none, some, List, ltb, leb, ◌==◌, if◌then◌else◌,
}
use qbox_platform.RegFile.{RegBytes, load32, store32}
use qbox_platform.Tlm.{Payload, is_ok, address_error}
use qbox_platform.Atu.{
  Config, Atu, Info, empty_info, Fault, no_fault, unmapped, disabled, out_of_range, permission,
  overflow, atuc, atuis, atuma, atuis_mismatch_error, u64_max, page_shift, supported_region_count,
  region_offset_pages, region_start_page, region_end_page, region_configured,
  region_security_allowed,
}
use qbox_platform.Atu.Offset.{apply_region_offset}
use qbox_platform.Atu.Trace.{trace_translation}

-- `uint64_t << ps`
abbrev pub shl64 : ℕ → ℕ → ℕ
shl64 v k = v * 2 ^ k % 2 ^ 64

-- The region's first logical address, and the one behind its last.
unfoldable pub region_start : RegBytes → ℕ → ℕ
region_start m r = shl64 (region_start_page m r) (page_shift m)

unfoldable pub region_end : RegBytes → ℕ → ℕ
region_end m r = shl64 (region_end_page m r + 1) (page_shift m)

unfoldable pub region_enabled : RegBytes → ℕ → Bool
region_enabled m r = not (bit_and (load32 m atuc) (2 ^ r) == 0)

unfoldable pub latch_translation_fault : RegBytes → ℕ → RegBytes
latch_translation_fault m logical =
    store32 (store32 m atuis (bit_or (load32 m atuis) atuis_mismatch_error)) atuma
      (logical % 2 ^ 32)

-- What one round of the loop does: `continue` with the pending fault, or return.
pub data Round : Type 0 where
  skip : Fault → Round
  stop : Info → Bool → Round

abbrev pub disable : Fault → Fault
disable unmapped = disabled
disable f = f

with_physical : Config → RegBytes → ℕ → Info → Option ℕ → Info × Bool
with_physical c m r info none = (record info { fault = overflow }, false)
with_physical c m r info (some physical) =
    if region_security_allowed c m r
    then (record info { physical = physical; fault = no_fault }, true)
    else (record info { physical = physical; fault = permission }, false)

-- From `const uint64_t shifted_offset` on: the region has the access and is enabled.
unfoldable pub resolve : Config → RegBytes → ℕ → ℕ → Info × Bool
unfolding with_physical
resolve c m logical r =
    let info = record empty_info {
      region = r;
      logical_start = region_start m r;
      logical_end = region_end m r - 1;
      offset_pages = region_offset_pages m r;
    } in
    if ltb (u64_max / 2 ^ page_shift m) (region_offset_pages m r)
    then (record info { fault = overflow }, false)
    else let offset = shl64 (region_offset_pages m r) (page_shift m) in
      with_physical c m r (record info { offset = offset }) (apply_region_offset logical offset)

unfoldable pub visit : Config → RegBytes → ℕ → ℕ → ℕ → Fault → Round
visit c m logical access_len r pending =
    if not (region_configured m r)
    then skip pending
    else if leb (region_end m r) (region_start m r)
        || ltb logical (region_start m r)
        || leb (region_end m r) logical
    then skip pending
    else if ltb (region_end m r - logical) access_len
    then skip out_of_range
    else if not (region_enabled m r)
    then skip (disable pending)
    else let (info, found) = resolve c m logical r in stop info found

-- The loop, with the rounds that are left.
unfoldable pub search_regions : Config → RegBytes → ℕ → ℕ → ℕ → ℕ → Fault → Info × Bool
search_regions c m logical access_len zero r pending =
    (record empty_info { fault = pending }, false)
search_regions c m logical access_len (suc rounds) r pending =
    elim (visit c m logical access_len r pending) [
      | skip f ↦ search_regions c m logical access_len rounds (r + 1) f
      | stop info found ↦ (info, found)
    ]

abbrev pub access_length : ℕ → ℕ
access_length len = if len == 0 then 1 else len

-- Every path that returns `false` latches the fault if asked to.
unfoldable pub translate_range : Config → RegBytes → ℕ → ℕ → Bool → RegBytes × Info × Bool
translate_range c m logical len latch =
    let (info, found) =
      search_regions c m logical (access_length len) (supported_region_count m) 0 unmapped in
    (if not found && latch then latch_translation_fault m logical else m, info, found)

unfoldable pub translate_address : Config → RegBytes → ℕ → ℕ → RegBytes × Option ℕ
translate_address c m logical len =
    let (m', info, found) = translate_range c m logical len true in
    (m', if found then some info.physical else none)

-- The component behind the initiator socket: it answers a payload. `b_transport` and
-- `transport_dbg` are both such answers.
abbrev pub Downstream : Type 0
Downstream = Payload → Payload

refuse : Config → Atu → Payload → Info → Atu × Payload × Bool
refuse c s p info = (
  trace_translation c s p.command p.address info p.data_length false,
  record p { response = address_error },
  false,
)

send : Config → Downstream → Atu → Payload → Info → Atu × Payload × Bool
send c downstream s p info =
    let answer = downstream (record p { address = info.physical }) in
    let done = is_ok answer.response in
    (
      trace_translation c s answer.command p.address info p.data_length done,
      record answer { address = p.address },
      done,
    )

forward_range : Config → Downstream → Atu → Payload → Option (List ℕ) → Atu × Payload × Bool
unfolding refuse send
forward_range c downstream s p none = refuse c s p empty_info
forward_range c downstream s p (some payload) =
    if p.data_length == 0
    then refuse c s p empty_info
    else let (m, info, found) = translate_range c s.regs p.address p.data_length true in
      if found
      then send c downstream (record s { regs = m }) p info
      else refuse c (record s { regs = m }) p info

unfoldable pub forward_translation : Config → Downstream → Atu → Payload → Atu × Payload × Bool
unfolding forward_range
forward_translation c downstream s p =
    if not c.initiator_bound
    then (s, record p { response = address_error }, false)
    else forward_range c downstream s p p.bytes

unfoldable pub translation_b_transport : Config → Downstream → Atu → Payload → Atu × Payload
translation_b_transport c downstream s p =
    let (s', p', done) = forward_translation c downstream s (record p { dmi_allowed = false }) in
    (s', p')

unfoldable pub translation_transport_dbg : Config → Downstream → Atu → Payload → Atu × Payload × ℕ
translation_transport_dbg c downstream s p =
    let (s', p', done) = forward_translation c downstream s p in
    (s', p', if done then p'.data_length else 0)
