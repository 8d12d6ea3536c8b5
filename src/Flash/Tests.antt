-- ===== src/Flash/Tests.antt =====
-- The flash of strata_flash_j3.h with 16 bytes in four sectors.
use qbox_platform.Prelude.{
  ℕ, ◌+◌, ◌/◌, ◌<◌, ◌≡◌, refl, arith, Bool, true, false, none, some, List, [], ◌∷◌, get_or, ◌==◌,
  ◌&&◌, ◌-◌, leb, ltb, bit_and, not, if◌then◌else◌,
}
use qbox_platform.RegFile
use qbox_platform.RegFile.{RegBytes}
use qbox_platform.Tlm.{Command, read, write, Payload, incomplete}
use qbox_platform.Flash.{Config, Flash, unopened, idle, read_array}
use qbox_platform.Flash.Sectors.{ensure_storage, initialize_sector_erased_map, sector_count}
use qbox_platform.Flash.Program.{erase_sector, program, is_sector_aligned_program_ff_erase}
use qbox_platform.Flash.Access.{fetch, fast_access, slow_access}
use qbox_platform.Flash.Marks.{marks, Fits, IsSound}
use qbox_platform.Flash.Erase.{erase_sector_lem}
use qbox_platform.Flash.Programs.{program_lem}
use qbox_platform.Flash.RoundTrip.{word_program, program_erased}
use qbox_platform.Flash.View.{view}
use qbox_platform.Flash.Requests.{Event, transport, request, run, run-IsQuiet}
use qbox_platform.Flash.Granted.{IsQuiet}
use qbox_platform.Flash.Fast.{switches, access_lem}

abbrev config : Config
config = record {
  flash_size = 16;
  dmi_ranges_text = [];
  stats_file = 0;
  stats_interval = 0;
  socket_bound = true;
  open_file = λ file. unopened;
  stoull = λ text. none;
}

-- As the constructor leaves it, with sectors of four bytes.
abbrev created : Bool → Flash
created dmi = record {
  contents = λ i. 0;
  size = 0;
  mode = read_array;
  pending = idle;
  status = 0x80;
  trace_count = 0;
  open_dmi_ranges = [];
  dmi_ranges = [];
  dmi_ranges_valid = true;
  dmi_granted = false;
  open_backing_file = 0;
  stats_collecting = false;
  trace_enabled = false;
  trace_limit_value = 64;
  enable_dmi_value = dmi;
  program_ff_sets_bits_value = false;
  program_ff_erases_sector_value = false;
  defer_backing_write_value = false;
  defer_backing_flush_interval_value = 1024;
  sector_size_value = 4;
  backing_file_value = 0;
  backing_dirty = false;
  backing_dirty_start = 0;
  backing_dirty_end = 0;
  backing_deferred_since_flush = 0;
  backing_size = none;
  disk = λ file i. 0;
  counters = λ k. 0;
  last_stats_access = 0;
  last_stats_dmi_request = 0;
  stats_writes = 0;
  write_buffer_base = 0;
  write_buffer = λ i. 0;
  write_buffer_written = λ i. false;
  write_buffer_size = 0;
  sector_erased = λ i. false;
  sectors = 0;
  sector_erased_map_size = 0;
  invalidations = 0;
}

abbrev fresh : Flash
fresh = ensure_storage config (created false)

fresh-Fits : Fits (marks fresh)
unfolding ensure_storage initialize_sector_erased_map marks
fresh-Fits = (omega arith, omega arith, omega arith, omega arith)

fresh-IsSound : IsSound (marks fresh)
unfolding ensure_storage initialize_sector_erased_map marks sector_count
fresh-IsSound = ((refl, refl), λ j lt flag. refl)

abbrev bytes : RegBytes
bytes i = get_or (0x12 ∷ 0x34 ∷ []) i 0

program_lem_example :
    let after = program config fresh 5 bytes 2 in
    IsSound (marks after)
    × ((j : ℕ)
        → after.contents j ≡ (
            if leb 5 j && ltb j (5 + 2)
            then (if fresh.program_ff_sets_bits_value && bytes (j - 5) == 0xff
                then 0xff
                else bit_and (fresh.contents j) (bytes (j - 5)))
            else fresh.contents j))
unfolding is_sector_aligned_program_ff_erase ensure_storage initialize_sector_erased_map
program_lem_example = program_lem config fresh 5 bytes 2 fresh-Fits fresh-IsSound refl

-- A byte of the second sector is programmed.
abbrev used : Flash
used = record fresh {
  contents = λ i. if i == 5 then 0x12 else 0xff;
  sector_erased = λ k. not (k == 1);
}

used-IsSound : IsSound (marks used)
unfolding ensure_storage initialize_sector_erased_map marks sector_count
used-IsSound = ((refl, refl), λ j lt flag. ground arith)

erase_sector_lem_example :
    let after = erase_sector config used 6 in
    IsSound (marks after)
    × ((j : ℕ)
        → j < used.size
        → after.contents j ≡ (
            if j / used.sector_size_value == 6 / used.sector_size_value
            then 0xff
            else used.contents j))
unfolding ensure_storage initialize_sector_erased_map marks
erase_sector_lem_example = erase_sector_lem config used 6 fresh-Fits used-IsSound (omega arith)

bytes-lt : (k : ℕ) → k < 2 → bytes k < 0x100
bytes-lt k h = ground arith

-- As the platforms have it: a byte of 0xff at the start of a sector stands for an erase.
abbrev erasing : Flash
erasing = record fresh { program_ff_erases_sector_value = true }

program_erased_example :
    fetch (word_program config erasing 0 5 bytes 2) 5 2 ≡ RegFile.read_bytes bytes 0 2
unfolding ensure_storage initialize_sector_erased_map marks
program_erased_example =
    program_erased config erasing 0 5 bytes 2 refl fresh-Fits fresh-IsSound (omega arith)
      (λ k lt. refl) (λ k lt. bytes-lt k lt)

abbrev payload : Command → Payload
payload k = record {
  command = k;
  address = 5;
  bytes = some (0x40 ∷ []);
  data_length = 1;
  response = incomplete;
  dmi_allowed = false;
}

abbrev events : List Event
events = transport false (payload read) ∷ request read 5 1 ∷ transport false (payload write) ∷ []

run-IsQuiet_example : IsQuiet (view (run config (created true) events))
unfolding view
run-IsQuiet_example = run-IsQuiet config refl events (created true) (refl, λ h. (refl, refl))

access_lem_example :
    slow_access config fresh (payload write) ≡ fast_access config fresh (payload write)
unfolding switches ensure_storage initialize_sector_erased_map
access_lem_example = access_lem config fresh (payload write) refl
