-- ===== src/Flash/Program.antt =====
-- Programming and erasing of strata_flash_j3.h. A data pointer is the function from an index to its
-- byte.
use qbox_platform.Prelude.{
  ℕ, zero, suc, ◌+◌, ◌-◌, ◌*◌, ◌/◌, ◌%◌, ◌^◌, min, bit_and, Bool, not, ◌&&◌, ltb, leb, ◌==◌,
  if◌then◌else◌,
}
use qbox_platform.RegFile.{RegBytes, store8}
use qbox_platform.Flash.{
  Config, Flash, ready, program_ops, program_bytes, program_changed_bytes, program_noop_bytes,
  compat_ff_sector_erase_ops, sector_erase_ops, sector_erase_bytes,
}
use qbox_platform.Flash.Stats.{add_stat, count_stat}
use qbox_platform.Flash.Sectors.{
  mark_programmed_byte, mark_programmed_range, sector_is_erased, mark_sector_erased,
}
use qbox_platform.Flash.Backing.{write_backing_range}

-- `std::fill`
unfoldable pub fill_bytes : RegBytes → ℕ → ℕ → ℕ → RegBytes
fill_bytes m start end value i = if leb start i && ltb i end then value else m i

unfoldable pub erase_sector : Config → Flash → ℕ → Flash
erase_sector c s offset =
    let start = offset / s.sector_size_value * s.sector_size_value in
    let end = min ((start + s.sector_size_value) % 2 ^ 64) s.size in
    let counted = add_stat (count_stat s sector_erase_ops) sector_erase_bytes (end - start) in
    let (tested, erased) = sector_is_erased counted start in
    if erased
    then ready tested
    else ready (
        write_backing_range c
          (mark_sector_erased
            (record tested { contents = fill_bytes tested.contents start end 0xff }) start)
          start (end - start))

unfoldable pub is_sector_aligned_program_ff_erase : Flash → ℕ → RegBytes → ℕ → Bool
is_sector_aligned_program_ff_erase s offset from len =
    s.program_ff_erases_sector_value
    && len == 1
    && from 0 == 0xff
    && not (s.sector_size_value == 0)
    && offset % s.sector_size_value == 0

-- The new value of a byte.
unfoldable pub programmed : Bool → ℕ → ℕ → ℕ
programmed ff_sets_bits old new = if ff_sets_bits && new == 0xff then 0xff else bit_and old new

-- What the loop of `program` computes.
pub record Progress : Type 0 where
  pub bytes : RegBytes
  pub changed : ℕ
  pub first_changed : ℕ
  pub last_changed : ℕ

unfoldable pub program_byte : Bool → ℕ → RegBytes → ℕ → Progress → Progress
program_byte ff_sets_bits offset from i p =
    let old = p.bytes (offset + i) in
    let new = programmed ff_sets_bits old (from i) in
    if new == old then p else record {
      bytes = store8 p.bytes (offset + i) new;
      changed = p.changed + 1;
      first_changed = min p.first_changed i;
      last_changed = i;
    }

-- The rounds that are left, from an index on.
unfoldable pub program_loop : Bool → ℕ → RegBytes → ℕ → ℕ → Progress → Progress
program_loop ff_sets_bits offset from i zero p = p
program_loop ff_sets_bits offset from i (suc n) p =
    program_loop ff_sets_bits offset from (i + 1) n (program_byte ff_sets_bits offset from i p)

-- A single byte, without statistics.
unfoldable pub program_one : Config → Flash → ℕ → RegBytes → Flash
program_one c s offset from =
    let old = s.contents offset in
    let new = programmed s.program_ff_sets_bits_value old (from 0) in
    if new == old
    then ready s
    else ready (
        write_backing_range c
          (mark_programmed_byte (record s { contents = store8 s.contents offset new }) offset)
          offset 1)

unfoldable pub program_many : Config → Flash → ℕ → RegBytes → ℕ → Flash
program_many c s offset from len =
    let counted = add_stat (count_stat s program_ops) program_bytes len in
    let p =
      program_loop s.program_ff_sets_bits_value offset from 0 len
        (record { bytes = s.contents; changed = 0; first_changed = len; last_changed = 0 }) in
    let stored =
      add_stat (add_stat (record counted { contents = p.bytes }) program_changed_bytes p.changed)
        program_noop_bytes (len - p.changed) in
    let start = offset + p.first_changed in
    let span = p.last_changed - p.first_changed + 1 in
    if p.first_changed == len
    then ready stored
    else ready (write_backing_range c (mark_programmed_range stored start span) start span)

unfoldable pub program : Config → Flash → ℕ → RegBytes → ℕ → Flash
program c s offset from len =
    if is_sector_aligned_program_ff_erase s offset from len
    then erase_sector c
        (count_stat (add_stat (count_stat s program_ops) program_bytes len)
          compat_ff_sector_erase_ops)
        offset
    else if not s.stats_collecting && len == 1
    then program_one c s offset from
    else program_many c s offset from len
