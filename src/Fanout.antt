-- ===== src/Fanout.antt =====
-- systemc-components/reset_fanout/include/reset_fanout.h: the reset line that is repeated to many
-- targets.
pub mod Delivery
mod Tests
use qbox_platform.Prelude.{
  ℕ, ◌+◌, Bool, true, false, not, ◌&&◌, ◌||◌, List, [], ◌∷◌, ◌++◌, leb, if◌then◌else◌,
}

pub record Config : Type 0 where
  pub trace : Bool
  pub trace_limit : ℕ

-- `notified` says that `m_reset_event` is pending; `written` has the levels that were handed to
-- `reset_out`, in order.
pub record Fanout : Type 0 where
  pub trace_count : ℕ
  pub pending_resets : List Bool
  pub last_reset : Bool
  pub have_last_reset : Bool
  pub notified : Bool
  pub written : List Bool

abbrev pub initial : Fanout
initial = record {
  trace_count = 0;
  pending_resets = [];
  last_reset = false;
  have_last_reset = false;
  notified = false;
  written = [];
}

unfoldable pub trace_write : Config → ℕ → ℕ
trace_write c count = if not c.trace || leb c.trace_limit count then count else count + 1

abbrev same : Bool → Bool → Bool
same a b = if a then b else not b

-- The callback of `reset_in`.
unfoldable pub reset_in : Config → Fanout → Bool → Fanout
reset_in c s value = if s.have_last_reset && same value s.last_reset then s else record {
  trace_count = trace_write c s.trace_count;
  pending_resets = s.pending_resets ++ (value ∷ []);
  last_reset = value;
  have_last_reset = true;
  notified = true;
  written = s.written;
}

unfoldable pub emit_reset : Fanout → Fanout
emit_reset s = record s {
  pending_resets = [];
  notified = false;
  written = s.written ++ s.pending_resets;
}

-- What the simulation kernel does with the module: a level arrives, or time passes, in which the method
-- runs if its event is pending.
pub data Step : Type 0 where
  level : Bool → Step
  time : Step

unfoldable pub perform : Config → Fanout → Step → Fanout
perform c s (level v) = reset_in c s v
perform c s time = if s.notified then emit_reset s else s

unfoldable pub run : Config → Fanout → List Step → Fanout
run c s [] = s
run c s (x ∷ xs) = run c (perform c s x) xs
