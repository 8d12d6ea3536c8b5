-- ===== src/Flash/RoundTrip.antt =====
-- What is programmed into strata_flash_j3.h is read back.
use qbox_platform.Prelude.{
  ℕ, zero, suc, if_both, checks_below, checks_below_at, ◌+◌, ◌-◌, ◌*◌, ◌/◌, ◌%◌, ◌^◌, min, sym, ◌≤◌,
  ◌<◌, ◌≡◌, ◌∙◌, refl, ap, arith, bit_and, Bool, Bool-cases, inl, inr, true, false, not, ◌&&◌, ◌∷◌,
  ◌==◌, ==_iff,
}
use qbox_platform.RegFile
use qbox_platform.RegFile.{RegBytes, store8}
use qbox_platform.Flash.{
  Config, Flash, program_ops, program_bytes, program_changed_bytes, program_noop_bytes,
  sector_erase_ops, sector_erase_bytes, compat_ff_sector_erase_ops, Pending, ready, idle,
  programming, read_array, cmd_read_array, cmd_word_program,
}
use qbox_platform.Flash.Stats.{add_stat, count_stat, record_command}
use qbox_platform.Flash.Sectors.{
  sector_is_erased, mark_sector_erased, mark_programmed_byte, mark_programmed_range,
}
use qbox_platform.Flash.Backing.{write_backing_range}
use qbox_platform.Flash.Program.{
  programmed, program_loop, program, program_one, program_many, erase_sector, fill_bytes,
  is_sector_aligned_program_ff_erase,
}
use qbox_platform.Flash.Commands.{
  invalidate_dmi, start_command, after_pending, handle_command, write_pending, write,
}
use qbox_platform.Flash.Access.{fetch}
use qbox_platform.Flash.Bytes.{begun}
use qbox_platform.Flash.Marks.{Marks, marks, Fits, IsSound}
use qbox_platform.Flash.Programs.{program_lem}
use qbox_platform.Flash.Erase.{erase_sector_lem}

-- The command, the data, and the command that returns to the array.
abbrev pub word_program : Config → Flash → ℕ → ℕ → RegBytes → ℕ → Flash
word_program c s at o d l =
    write c (write c (write c s at (λ i. cmd_word_program) 1) o d l) at (λ i. cmd_read_array) 1

accepted : Config → Flash → ℕ → Flash
accepted c s k = record_command (invalidate_dmi c s) k

marks-accepted : (c : Config) (s : Flash) (k : ℕ) → marks (accepted c s k) ≡ marks s
unfolding marks accepted record_command invalidate_dmi add_stat
marks-accepted c s k =
    if_both marks (not (invalidate_dmi c s).stats_collecting) refl refl ∙ if_both marks _ refl refl

write-idle :
    (c : Config) (s : Flash) (o : ℕ) (d : RegBytes) (l : ℕ)
    → s.pending ≡ idle
    → write c s o d l ≡ after_pending c (invalidate_dmi c s).pending (accepted c s (d 0)) o (d 0)
unfolding write write_pending handle_command accepted
write-idle c s o d l waits = ap (λ q. write_pending c q s o d l) waits

pending-invalidate : (c : Config) (s : Flash) → (invalidate_dmi c s).pending ≡ s.pending
unfolding invalidate_dmi add_stat
pending-invalidate c s = if_both (λ (t : Flash). t.pending) _ refl refl

commanded :
    (c : Config) (s : Flash) (o : ℕ) (d : RegBytes) (l : ℕ)
    → s.pending ≡ idle
    → write c s o d l ≡ start_command (accepted c s (d 0)) (d 0)
unfolding after_pending
commanded c s o d l waits =
    write-idle c s o d l waits
    ∙ ap (λ q. after_pending c q (accepted c s (d 0)) o (d 0)) (pending-invalidate c s ∙ waits)

unfoldable pending_of : Flash → Pending
pending_of s = s.pending

ready-idle : (s : Flash) → pending_of (ready s) ≡ idle
unfolding pending_of
ready-idle s = refl

program_one-idle :
    (c : Config) (s : Flash) (o : ℕ) (d : RegBytes) → pending_of (program_one c s o d) ≡ idle
unfolding program_one
program_one-idle c s o d =
    let new = programmed s.program_ff_sets_bits_value (s.contents o) (d 0) in
    let stored = mark_programmed_byte (record s { contents = store8 s.contents o new }) o in
    if_both pending_of (new == s.contents o) (ready-idle s)
      (ready-idle (write_backing_range c stored o 1))

program_many-idle :
    (c : Config) (s : Flash) (o : ℕ) (d : RegBytes) (l : ℕ)
    → pending_of (program_many c s o d l) ≡ idle
unfolding program_many
program_many-idle c s o d l =
    let p = program_loop s.program_ff_sets_bits_value o d 0 l (begun s.contents l) in
    let counted = add_stat (count_stat s program_ops) program_bytes l in
    let stored =
      add_stat (add_stat (record counted { contents = p.bytes }) program_changed_bytes p.changed)
        program_noop_bytes (l - p.changed) in
    let start = o + p.first_changed in
    let span = p.last_changed - p.first_changed + 1 in
    if_both pending_of (p.first_changed == l) (ready-idle stored)
      (ready-idle (write_backing_range c (mark_programmed_range stored start span) start span))

program-idle :
    (c : Config) (s : Flash) (o : ℕ) (d : RegBytes) (l : ℕ)
    → is_sector_aligned_program_ff_erase s o d l ≡ false
    → pending_of (program c s o d l) ≡ idle
unfolding program
program-idle c s o d l no_erase = rw no_erase (
    if_both pending_of (not s.stats_collecting && l == 1) (program_one-idle c s o d)
      (program_many-idle c s o d l))

erase_sector-idle : (c : Config) (s : Flash) (o : ℕ) → pending_of (erase_sector c s o) ≡ idle
unfolding erase_sector
erase_sector-idle c s o =
    let start = o / s.sector_size_value * s.sector_size_value in
    let end = min ((start + s.sector_size_value) % 2 ^ 64) s.size in
    let counted = add_stat (count_stat s sector_erase_ops) sector_erase_bytes (end - start) in
    let (tested, erased) = sector_is_erased counted start in
    let filled = record tested { contents = fill_bytes tested.contents start end 0xff } in
    if_both pending_of erased (ready-idle tested)
      (ready-idle (write_backing_range c (mark_sector_erased filled start) start (end - start)))

-- What the test for such an erase says of the data.
stands_for_erase :
    (s : Flash) (o : ℕ) (d : RegBytes) (l : ℕ)
    → is_sector_aligned_program_ff_erase s o d l ≡ true
    → (l ≡ 1) × (d 0 ≡ 0xff)
unfolding is_sector_aligned_program_ff_erase
stands_for_erase s o d l h = ground (arith, h)

read_bytes_cong :
    (f g : RegBytes) (a b n : ℕ)
    → ((k : ℕ) → k < n → f (a + k) ≡ g (b + k))
    → RegFile.read_bytes f a n ≡ RegFile.read_bytes g b n
unfolding RegFile.read_bytes
read_bytes_cong f g a b zero h = refl
read_bytes_cong f g a b (suc n) h =
    let first : f a ≡ g b = ap f (omega arith) ∙ h 0 (omega arith) ∙ ap g (omega arith) in
    let rest =
      read_bytes_cong f g (a + 1) (b + 1) n
        (λ k lt. ap f (omega arith) ∙ h (suc k) (omega arith) ∙ ap g (omega arith)) in
    ap (λ x. x ∷ RegFile.read_bytes f (a + 1) n) first ∙ ap (λ xs. g b ∷ xs) rest

all_bits : (b : Bool) (v : ℕ) → v < 0x100 → programmed b 0xff v ≡ v
unfolding programmed checks_below
all_bits b v h =
    let anded : bit_and 0xff v ≡ v =
      (==_iff (bit_and 0xff v) v).0 (checks_below_at 0x100 (λ k. bit_and 0xff k == k) v refl h) in
    ground (arith, anded)

-- The bytes of a range are the data.
abbrev Stored : RegBytes → ℕ → RegBytes → ℕ → Type 0
Stored m o d l = (k : ℕ) → k < l → m (o + k) ≡ d k

module _ (c : Config) (s : Flash) (o : ℕ) (d : RegBytes) (l : ℕ) (fits : Fits (marks s))
    (sound : IsSound (marks s)) (inside : o + l ≤ s.size)
    (erased : (k : ℕ) → k < l → s.contents (o + k) ≡ 0xff)
    (bytes : (k : ℕ) → k < l → d k < 0x100) where
  -- A byte of 0xff that stands for an erase is what the erase leaves there.
  erase_stores :
      is_sector_aligned_program_ff_erase s o d l ≡ true
      → (pending_of (program c s o d l) ≡ idle) × Stored (program c s o d l).contents o d l
  unfolding program marks add_stat
  erase_stores stands =
      let counted =
        count_stat (add_stat (count_stat s program_ops) program_bytes l)
          compat_ff_sector_erase_ops in
      let (single, ff) = stands_for_erase s o d l stands in
      let (kept, contents) = erase_sector_lem c counted o fits sound (omega arith) in
      rw stands (
        erase_sector-idle c counted o,
        λ k lt.
            let zeroth : k ≡ 0 = omega arith in
            let place : o + k ≡ o = omega arith in
            let here = contents o (omega arith) in
            let value : (erase_sector c counted o).contents o ≡ 0xff = ground (arith, here) in
            ap (erase_sector c counted o).contents place ∙ value ∙ sym ff ∙ ap d (sym zeroth),
      )

  program_stores :
      is_sector_aligned_program_ff_erase s o d l ≡ false
      → (pending_of (program c s o d l) ≡ idle) × Stored (program c s o d l).contents o d l
  unfolding programmed
  program_stores plain =
      let b = s.program_ff_sets_bits_value in
      let (kept, contents) = program_lem c s o d l fits sound plain in
      (
        program-idle c s o d l plain,
        λ k lt.
            let place : o + k - o ≡ k = omega arith in
            let value : programmed b (s.contents (o + k)) (d (o + k - o)) ≡ d k =
              ap (λ i. programmed b (s.contents (o + k)) (d i)) place
              ∙ ap (λ v. programmed b v (d k)) (erased k lt)
              ∙ all_bits b (d k) (bytes k lt) in
            ground (arith, contents (o + k), value),
      )

  stores : (pending_of (program c s o d l) ≡ idle) × Stored (program c s o d l).contents o d l
  stores = elim (Bool-cases (is_sector_aligned_program_ff_erase s o d l)) [
    | inl stands ↦ erase_stores stands
    | inr plain ↦ program_stores plain
  ]

-- Bytes of the array that are erased and then programmed with the word-program command are read back as
-- they were given, after the command that returns to the array, whatever the configuration takes a byte
-- of 0xff for. The flash waits for a command, has an array and sectors whose sums do not wrap, and its
-- map of erased sectors is sound.
pub program_erased :
    (c : Config) (s : Flash) (at o : ℕ) (d : RegBytes) (l : ℕ)
    → s.pending ≡ idle
    → Fits (marks s)
    → IsSound (marks s)
    → o + l ≤ s.size
    → ((k : ℕ) → k < l → s.contents (o + k) ≡ 0xff)
    → ((k : ℕ) → k < l → d k < 0x100)
    → fetch (word_program c s at o d l) o l ≡ RegFile.read_bytes d 0 l
unfolding marks pending_of start_command write write_pending fetch
program_erased c s at o d l waits fits sound inside erased bytes =
    let asked = accepted c s cmd_word_program in
    let s1 = record asked { pending = programming } in
    let s2 = program c s1 o d l in
    let kept = marks-accepted c s cmd_word_program in
    let (rests, stored) =
      stores c s1 o d l (coe 1 0 (i. Fits (kept i)) fits) (coe 1 0 (i. IsSound (kept i)) sound)
        (coe 1 0 (i. o + l ≤ (kept i).size) inside)
        (λ k lt. ap (λ (m : Marks). m.contents (o + k)) kept ∙ erased k lt) bytes in
    let first : write c s at (λ i. cmd_word_program) 1 ≡ s1 = commanded c s at _ 1 waits in
    let last : write c s2 at (λ i. cmd_read_array) 1
        ≡ record (accepted c s2 cmd_read_array) { mode = read_array } =
      commanded c s2 at _ 1 rests in
    ap (λ (t : Flash). fetch (write c (write c t o d l) at (λ i. cmd_read_array) 1) o l) first
    ∙ ap (λ (t : Flash). fetch t o l) last
    ∙ read_bytes_cong _ d o 0 l (λ k lt.
      ap (λ (m : Marks). m.contents (o + k)) (marks-accepted c s2 cmd_read_array)
      ∙ stored k lt
      ∙ ap d (omega arith))
