-- ===== src/Fmu/Access.antt =====
-- The bus accesses of zena_fmu.h.
use qbox_platform.Prelude.{ℕ, ◌+◌, ◌*◌, ◌%◌, Bool, not, ◌&&◌, ◌||◌, List, leb, ◌==◌, if◌then◌else◌}
use qbox_platform.RegFile.{word_of}
use qbox_platform.Tlm
use qbox_platform.Tlm.{Command, Payload, Target}
use qbox_platform.Tlm.Words.{fetch}
use qbox_platform.Fmu.{Config, Fmu, bank_bytes, bank_count}
use qbox_platform.Fmu.Writes.{write32}
use qbox_platform.Fmu.Reads.{read32}

unfoldable pub update : Config → Fmu → ℕ → List ℕ → ℕ → Fmu
update c s offset payload len =
    if len == 4 && offset % 4 == 0 then write32 c s offset (word_of payload) else s

unfoldable pub trace_access : Config → Fmu → Command → ℕ → ℕ → Fmu
trace_access c s command offset len =
    if not c.trace || leb c.trace_limit s.trace_count
    then s
    else record s { trace_count = s.trace_count + 1 }

unfoldable pub target : Config → Target Fmu
target c = record {
  size = bank_count c * bank_bytes;
  fetch = λ s offset len. fetch (read32 c s) offset len;
  update = update c;
  trace = trace_access c;
}

unfoldable pub access : Config → Fmu → Payload → Fmu × Payload × Bool
unfolding target
access c = Tlm.access (target c)

unfoldable pub b_transport : Config → Fmu → Payload → Fmu × Payload
unfolding target
b_transport c = Tlm.b_transport (target c)

unfoldable pub transport_dbg : Config → Fmu → Payload → Fmu × Payload × ℕ
unfolding target
transport_dbg c = Tlm.transport_dbg (target c)
