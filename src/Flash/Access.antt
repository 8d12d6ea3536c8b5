-- ===== src/Flash/Access.antt =====
-- The socket of strata_flash_j3.h: accesses, DMI, the loader, and the parameters' callbacks.
use qbox_platform.Prelude.{
  ℕ, ◌+◌, ◌-◌, Bool, true, false, not, ◌&&◌, ◌||◌, Option, none, some, List, get_or, ltb, leb, ◌==◌,
  if◌then◌else◌,
}
use qbox_platform.RegFile
use qbox_platform.RegFile.{RegBytes}
use qbox_platform.Tlm.{Command, read, write, ignore, Payload, ok, address_error, command_error}
use qbox_platform.Flash.{
  Config, Flash, Mode, read_array, read_id, read_query, read_status, Pending, idle, DmiRange,
  manufacturer_id, device_code, read_accesses, read_bytes, write_accesses, write_bytes,
  dmi_read_hints,
}
use qbox_platform.Flash.Stats.{add_stat, count_stat, maybe_write_stats}
use qbox_platform.Flash.Sectors.{
  ensure_storage, refresh_sector_erased_range, rebuild_sector_erased_map,
}
use qbox_platform.Flash.Backing.{flush_deferred_backing}
use qbox_platform.Flash.Commands
use qbox_platform.Flash.Ranges.{find_dmi_range}

abbrev pub is_array : Mode → Bool
is_array read_array = true
is_array _ = false

abbrev pub is_idle : Pending → Bool
is_idle idle = true
is_idle _ = false

-- The pointer to the bytes of a payload.
abbrev pub pointer : List ℕ → RegBytes
pointer bs i = get_or bs i 0

read_id_byte : ℕ → ℕ
read_id_byte offset =
    if offset == 0 then manufacturer_id else if offset == 4 then device_code else 0

read_query_byte : ℕ → ℕ
read_query_byte offset =
    if offset == 0x10
    then 0x51
    else if offset == 0x11
    then 0x52
    else if offset == 0x12
    then 0x59
    else 0

byte_in : Mode → Flash → ℕ → ℕ
byte_in read_array s offset = s.contents offset
byte_in read_id s offset = read_id_byte offset
byte_in read_query s offset = read_query_byte offset
byte_in read_status s offset = s.status

unfoldable pub read_byte : Flash → ℕ → ℕ
unfolding byte_in read_id_byte read_query_byte
read_byte s offset = byte_in s.mode s offset

-- The bytes that a read returns: the two copies and the loop.
fetch_in : Mode → Flash → ℕ → ℕ → List ℕ
fetch_in read_array s offset len = RegFile.read_bytes s.contents offset len
fetch_in read_id s offset len = RegFile.read_bytes (read_byte s) offset len
fetch_in read_query s offset len = RegFile.read_bytes (read_byte s) offset len
fetch_in read_status s offset len = RegFile.read_bytes (λ i. s.status) offset len

unfoldable pub fetch : Flash → ℕ → ℕ → List ℕ
unfolding fetch_in
fetch s offset len = fetch_in s.mode s offset len

-- `in_range`, after its `ensure_storage`.
unfoldable pub in_range : Flash → ℕ → ℕ → Bool
in_range s offset len = leb offset s.size && leb len (s.size - offset)

unfoldable pub trace_access : Flash → Flash
trace_access s =
    if not s.trace_enabled || leb s.trace_limit_value s.trace_count
    then s
    else record s { trace_count = s.trace_count + 1 }

unfoldable pub found : Flash × Option DmiRange → Flash × Bool
found (s, none) = (s, false)
found (s, some r) = (count_stat s dmi_read_hints, true)

-- The DMI hint of a read.
unfoldable pub read_hint : Config → Flash → ℕ → ℕ → Flash × Bool
unfolding found
read_hint c s offset len =
    if s.enable_dmi_value && is_array s.mode && is_idle s.pending
    then found (find_dmi_range c s offset len)
    else (s, false)

-- `trace_access`, the statistics and the response.
unfoldable pub finish : Config → Flash → Payload → Flash × Payload × Bool
finish c s p =
    let traced = trace_access s in
    (
      (if traced.stats_collecting then maybe_write_stats c traced else traced),
      record p { response = ok },
      true,
    )

unfoldable pub perform : Config → Flash → Payload → Command → List ℕ → Flash × Payload × Bool
unfolding finish
perform c s p read bs =
    let counted = add_stat (count_stat s read_accesses) read_bytes p.data_length in
    let (hinted, allowed) = read_hint c counted p.address p.data_length in
    finish c hinted
      (record p { bytes = some (fetch counted p.address p.data_length); dmi_allowed = allowed })
perform c s p write bs =
    let counted = add_stat (count_stat s write_accesses) write_bytes p.data_length in
    finish c (Commands.write c counted p.address (pointer bs) p.data_length)
      (record p { dmi_allowed = false })
perform c s p ignore bs = (s, record p { response = command_error; dmi_allowed = false }, false)

unfoldable pub perform_fast : Config → Flash → Payload → Command → List ℕ → Flash × Payload × Bool
perform_fast c s p read bs = (
  s,
  record p { bytes = some (fetch s p.address p.data_length); dmi_allowed = false; response = ok },
  true,
)
perform_fast c s p write bs = (
  Commands.write c s p.address (pointer bs) p.data_length,
  record p { dmi_allowed = false; response = ok },
  true,
)
perform_fast c s p ignore bs =
    (s, record p { response = command_error; dmi_allowed = false }, false)

-- The tests that both begin with.
unfoldable pub guarded :
    (Flash → Payload → Command → List ℕ → Flash × Payload × Bool)
    → Config
    → Flash
    → Payload
    → Option (List ℕ)
    → Flash × Payload × Bool
guarded run c s p none = (s, record p { response = address_error }, false)
guarded run c s p (some bs) =
    let stored = ensure_storage c s in
    if p.data_length == 0
    then (s, record p { response = address_error }, false)
    else if not (in_range stored p.address p.data_length)
    then (stored, record p { response = address_error }, false)
    else run stored p p.command bs

unfoldable pub fast_access : Config → Flash → Payload → Flash × Payload × Bool
unfolding guarded perform_fast
fast_access c s p = guarded (perform_fast c) c s p p.bytes

-- `access` after its first test.
unfoldable pub slow_access : Config → Flash → Payload → Flash × Payload × Bool
unfolding guarded perform
slow_access c s p = guarded (perform c) c s p p.bytes

unfoldable pub access : Config → Bool → Flash → Payload → Flash × Payload × Bool
access c debug s p =
    if not debug && not s.stats_collecting && not s.trace_enabled && not s.enable_dmi_value
    then fast_access c s p
    else slow_access c s p

unfoldable pub b_transport : Config → Flash → Payload → Flash × Payload
b_transport c s p = let (s', p', done) = access c false s p in (s', p')

unfoldable pub transport_dbg : Config → Flash → Payload → Flash × Payload × ℕ
transport_dbg c s p =
    let (s', p', done) = access c true s p in (s', p', if done then p'.data_length else 0)

unfoldable pub load_image : Config → RegBytes → ℕ → ℕ → Flash → Flash
load_image c from offset len initial =
    let s = ensure_storage c initial in
    let loaded : RegBytes =
      λ i. if leb offset i && ltb i (offset + len) then from (i - offset) else s.contents i in
    if ltb s.size offset || ltb (s.size - offset) len
    then s
    else refresh_sector_erased_range (record s { contents = loaded }) offset len

-- The callback of `sector_size`.
unfoldable pub set_sector_size : ℕ → Flash → Flash
set_sector_size value s = rebuild_sector_erased_map (record s { sector_size_value = value })

-- The callback of `defer_backing_write`.
unfoldable pub set_defer_backing_write : Config → Bool → Flash → Flash
set_defer_backing_write c value s = record (flush_deferred_backing c s) {
  defer_backing_write_value = value;
}

-- The callback of `defer_backing_flush_interval`.
unfoldable pub set_flush_interval : Config → ℕ → Flash → Flash
set_flush_interval c value s = record (flush_deferred_backing c s) {
  defer_backing_flush_interval_value = value;
}

-- The callback of `backing_file`.
unfoldable pub set_backing_file : Config → ℕ → Flash → Flash
set_backing_file c value s = record (flush_deferred_backing c s) { backing_file_value = value }
