-- ===== src/Gic/Access.antt =====
-- Accesses of gicx00_multiview.h.
use qbox_platform.Prelude.{
  ℕ, ◌+◌, ◌-◌, ◌/◌, ◌%◌, bit_and, Bool, true, false, not, ◌&&◌, ◌||◌, Option, none, some, List, ltb,
  leb, ◌==◌, if◌then◌else◌,
}
use qbox_platform.RegFile.{RegBytes, read_bytes, write_bytes, word_of, bytes_of}
use qbox_platform.Tlm.{
  Command, read, write, ignore, ok, address_error, command_error, Payload, is_supported_length,
}
use qbox_platform.Gic.{
  Config, Gic, dist_bytes, redist_bytes, redist_count, gicd_iviewr_base, gicd_iviewr_limit,
  gicd_iviewr_first, gicd_iviewr_last, gicr_pwrr, gicr_viewr, gicr_flushr, gicr_viewr_mask,
  gicr_flushr_rw_mask,
}

-- The number of trace lines after an access.
unfoldable pub trace_access : Config → ℕ → ℕ
trace_access c count = if not c.trace || leb c.trace_limit count then count else count + 1

-- A block of registers, the number of trace lines, the payload, and what the function returns.
abbrev pub Outcome : Type 0
Outcome = RegBytes × ℕ × Payload × Bool

unfoldable pub transfer : Config → RegBytes → ℕ → Payload → Command → List ℕ → Outcome
transfer c m count p read bs = (
  m,
  trace_access c count,
  record p { bytes = some (read_bytes m p.address p.data_length); response = ok },
  true,
)
transfer c m count p write bs =
    (write_bytes m p.address bs, trace_access c count, record p { response = ok }, true)
transfer c m count p ignore bs = (m, count, record p { response = command_error }, false)

unfoldable pub array_payload : Config → ℕ → RegBytes → ℕ → Payload → Option (List ℕ) → Outcome
array_payload c size m count p none = (m, count, record p { response = address_error }, false)
array_payload c size m count p (some bs) =
    if not (is_supported_length p.data_length)
      || ltb size p.address
      || ltb (size - p.address) p.data_length
    then (m, count, record p { response = address_error }, false)
    else transfer c m count p p.command bs

unfoldable pub access_array : Config → ℕ → RegBytes → ℕ → Payload → Outcome
unfolding array_payload transfer
access_array c size m count p = array_payload c size m count p p.bytes

unfoldable pub is_iviewr_window : ℕ → Bool
is_iviewr_window offset = leb gicd_iviewr_base offset && ltb offset gicd_iviewr_limit

unfoldable pub is_supported_iviewr : ℕ → ℕ → Bool
is_supported_iviewr offset len =
    let index = (offset - gicd_iviewr_base) / 4 in
    not (
      ltb offset gicd_iviewr_base
      || leb gicd_iviewr_limit offset
      || not (len == 4)
      || not ((offset - gicd_iviewr_base) % 4 == 0))
    && leb gicd_iviewr_first index
    && leb index gicd_iviewr_last

-- A view register that there is not: it reads as zero.
unfoldable pub no_iviewr : Config → Gic → Payload → Command → Gic × Payload × Bool
no_iviewr c s p read = (
  record s { trace_count = trace_access c s.trace_count },
  record p { bytes = some (bytes_of 0); response = ok },
  true,
)
no_iviewr c s p write =
    (record s { trace_count = trace_access c s.trace_count }, record p { response = ok }, true)
no_iviewr c s p ignore = (s, record p { response = command_error }, false)

unfoldable pub dist_array : Config → Gic → Payload → Gic × Payload × Bool
dist_array c s p =
    let (m, count, p', done) = access_array c dist_bytes s.dist_regs s.trace_count p in
    (record s { dist_regs = m; trace_count = count }, p', done)

unfoldable pub dist_payload : Config → Gic → Payload → Option (List ℕ) → Gic × Payload × Bool
dist_payload c s p none = (s, record p { response = address_error }, false)
dist_payload c s p (some bs) =
    if not (p.data_length == 4)
    then (s, record p { response = address_error }, false)
    else if not (is_supported_iviewr p.address p.data_length)
    then no_iviewr c s p p.command
    else dist_array c s p

unfoldable pub access_dist : Config → Gic → Payload → Gic × Payload × Bool
unfolding dist_payload dist_array no_iviewr
access_dist c s p =
    if is_iviewr_window p.address then dist_payload c s p p.bytes else dist_array c s p

-- The word that a write to a register of a redistributor stores.
unfoldable pub masked : ℕ → ℕ → ℕ
masked offset value =
    if offset == gicr_pwrr
    then 0
    else if offset == gicr_viewr
    then bit_and value gicr_viewr_mask
    else if offset == gicr_flushr
    then bit_and value gicr_flushr_rw_mask
    else value

-- The bytes of the payload, replaced for the writes that mask.
unfoldable pub mask_bytes : Payload → Command → Option (List ℕ) → Option (List ℕ)
mask_bytes p write (some bs) = some (
    if p.data_length == 4
      && (p.address == gicr_pwrr || p.address == gicr_viewr || p.address == gicr_flushr)
    then bytes_of (masked p.address (word_of bs))
    else bs)
mask_bytes p write none = none
mask_bytes p read payload = payload
mask_bytes p ignore payload = payload

unfoldable pub access_redist : Config → ℕ → Gic → Payload → Gic × Payload × Bool
unfolding mask_bytes
access_redist c index s p =
    let stored = record p { bytes = mask_bytes p p.command p.bytes } in
    let (m, count, p', done) =
      access_array c redist_bytes (s.redist_regs index) s.trace_count stored in
    if leb redist_count index then (s, record p { response = address_error }, false) else (
      record s {
        redist_regs = λ k. if k == index then m else s.redist_regs k;
        trace_count = count;
      },
      p',
      done,
    )

unfoldable pub b_transport_dist : Config → Gic → Payload → Gic × Payload
b_transport_dist c s p =
    let (s', p', done) = access_dist c s (record p { dmi_allowed = false }) in (s', p')

unfoldable pub transport_dbg_dist : Config → Gic → Payload → Gic × Payload × ℕ
transport_dbg_dist c s p =
    let (s', p', done) = access_dist c s p in (s', p', if done then p'.data_length else 0)

unfoldable pub b_transport_redist : Config → ℕ → Gic → Payload → Gic × Payload
b_transport_redist c index s p =
    let (s', p', done) = access_redist c index s (record p { dmi_allowed = false }) in (s', p')

unfoldable pub transport_dbg_redist : Config → ℕ → Gic → Payload → Gic × Payload × ℕ
transport_dbg_redist c index s p =
    let (s', p', done) = access_redist c index s p in (s', p', if done then p'.data_length else 0)
