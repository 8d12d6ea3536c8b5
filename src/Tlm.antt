-- ===== src/Tlm.antt =====
-- The part of the TLM interface that the components use: a generic payload, and the `access`
-- function of the register targets. It is read off rse_atu.h; rse_kmu.h, rse_lcm.h, zena_ssu.h,
-- zena_fmu.h and host_ppu.h repeat it with their own register reads and writes.
pub mod Guard
pub mod Words
mod Tests
use qbox_platform.Prelude.{
  ℕ, ◌+◌, ◌%◌, ◌^◌, Bool, true, false, ◌&&◌, ◌||◌, Option, none, some, List, leb, ◌==◌,
  if◌then◌else◌,
}

-- `tlm::tlm_command`
pub data Command : Type 0 where
  read write ignore : Command

-- `tlm::tlm_response_status`, as far as the components set it. `incomplete` is its first value.
pub data Response : Type 0 where
  incomplete ok address_error command_error : Response

-- `tlm::tlm_generic_payload`. A null data pointer is `none`; the bytes behind one that is not null
-- are a list, of the payload's `data_length`.
pub record Payload : Type 0 where
  pub command : Command
  pub address : ℕ
  pub bytes : Option (List ℕ)
  pub data_length : ℕ
  pub response : Response
  pub dmi_allowed : Bool

-- `is_response_ok`
abbrev pub is_ok : Response → Bool
is_ok ok = true
is_ok _ = false

unfoldable pub is_supported_length : ℕ → Bool
is_supported_length len = len == 1 || len == 2 || len == 4 || len == 8

-- `offset + len > size` is computed in `uint64_t`, so the sum wraps.
unfoldable pub in_bounds : ℕ → ℕ → ℕ → Bool
in_bounds size offset len = leb ((offset + len) % 2 ^ 64) size

-- What a register target does itself. A write takes the offset, the bytes and
-- their number; `trace` comes last.
pub record Target (S : Type 0) : Type 0 where
  pub size : ℕ
  pub fetch : S → ℕ → ℕ → List ℕ
  pub update : S → ℕ → List ℕ → ℕ → S
  pub trace : S → Command → ℕ → ℕ → S

module _ {S : Type 0} (t : Target S) where
  -- What `access` returns: the component, the payload, and its `bool`.
  abbrev pub Outcome : Type 0
  Outcome = S × Payload × Bool

  perform : S → Payload → Command → List ℕ → S × Payload × Bool
  perform s p read payload = (
    t.trace s read p.address p.data_length,
    record p { bytes = some (t.fetch s p.address p.data_length); response = ok },
    true,
  )
  perform s p write payload = (
    t.trace (t.update s p.address payload p.data_length) write p.address p.data_length,
    record p { response = ok },
    true,
  )
  perform s p ignore payload = (s, record p { response = command_error }, false)

  check : S → Payload → Option (List ℕ) → S × Payload × Bool
  unfolding perform
  check s p none = (s, record p { response = address_error }, false)
  check s p (some payload) =
      if is_supported_length p.data_length && in_bounds t.size p.address p.data_length
      then perform s p p.command payload
      else (s, record p { response = address_error }, false)

  unfoldable pub access : S → Payload → S × Payload × Bool
  unfolding check
  access s p = check s p p.bytes

  -- `b_transport`: the payload's DMI hint is cleared first.
  unfoldable pub b_transport : S → Payload → S × Payload
  b_transport s p = let (s', p', done) = access s (record p { dmi_allowed = false }) in (s', p')

  -- `transport_dbg`: the number of bytes transferred, 0 on failure.
  unfoldable pub transport_dbg : S → Payload → S × Payload × ℕ
  transport_dbg s p =
      let (s', p', done) = access s p in (s', p', if done then p'.data_length else 0)
