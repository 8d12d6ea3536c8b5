-- ===== src/Flash/Programs.antt =====
-- Programming of strata_flash_j3.h: the bytes, and the map of erased sectors.
use qbox_platform.Prelude.{
  ℕ, if_split, ◌+◌, ◌-◌, ◌≤◌, ◌<◌, ◌≡◌, ◌⊎◌, ◌∙◌, sym, ap, arith, ltb, leb, bit_and, Bool, true,
  false, not, ◌&&◌, ◌==◌, if◌then◌else◌, dec_lt, ℕ_discrete, ==_iff, inl, inr,
}
use qbox_platform.RegFile.{RegBytes, store8}
use qbox_platform.Flash.{
  Config, Flash, ready, program_ops, program_bytes, program_changed_bytes, program_noop_bytes,
}
use qbox_platform.Flash.Stats.{add_stat, count_stat}
use qbox_platform.Flash.Sectors.{mark_programmed_byte, mark_programmed_range}
use qbox_platform.Flash.Program.{
  programmed, program_loop, program_one, program_many, program, is_sector_aligned_program_ff_erase,
}
use qbox_platform.Flash.Bytes.{programmed_bytes, begun, covered, programmed-at}
use qbox_platform.Flash.Marks.{Marks, marks, Fits, IsSound}
use qbox_platform.Flash.Sound.{range-IsSound, byte-IsSound}
use qbox_platform.Flash.Erase.{marks-written}

-- What is left after programming a range.
Programmed : Flash → ℕ → RegBytes → ℕ → Marks → Type 0
Programmed s o d l m =
    IsSound m
    × ((j : ℕ) → m.contents j ≡ programmed_bytes s.program_ff_sets_bits_value s.contents o d l j)

-- New contents that are the old ones.
unchanged :
    (s : Flash) (new : RegBytes)
    → IsSound (marks s)
    → ((j : ℕ) → new j ≡ s.contents j)
    → IsSound (marks (record s { contents = new }))
unfolding marks
unchanged s new (counted, sound) same = (counted, λ j lt flag. same j ∙ sound j lt flag)

one_at :
    (b : Bool) (m : RegBytes) (o : ℕ) (d : RegBytes) (j : ℕ)
    → programmed_bytes b m o d 1 j ≡ (if j == o then programmed b (m o) (d 0) else m j)
one_at b m o d j = elim (ℕ_discrete j o) [
  | yes e ↦ let none_after : o - o ≡ 0 = omega arith in rw (e, none_after) (ground arith)
  | no e ↦ ground (arith, e)
]

-- The single byte keeps its value, or changes.
one_same :
    (s : Flash) (o : ℕ) (d : RegBytes)
    → IsSound (marks s)
    → programmed s.program_ff_sets_bits_value (s.contents o) (d 0) ≡ s.contents o
    → Programmed s o d 1 (marks (ready s))
unfolding Programmed marks
one_same s o d sound same = (
  sound,
  λ j. elim (ℕ_discrete j o) [
    | yes e ↦
        rw (one_at s.program_ff_sets_bits_value s.contents o d j)
          (ground (arith, e, same, ap s.contents e))
    | no e ↦ ground (arith, e)
  ],
)

one_new :
    (s : Flash) (o : ℕ) (d : RegBytes)
    → Fits (marks s)
    → IsSound (marks s)
    → let new = programmed s.program_ff_sets_bits_value (s.contents o) (d 0) in
      Programmed s o d 1
        (marks (mark_programmed_byte (record s { contents = store8 s.contents o new }) o))
unfolding Programmed marks store8
one_new s o d fits sound =
    let new = programmed s.program_ff_sets_bits_value (s.contents o) (d 0) in
    let marked = byte-IsSound s (store8 s.contents o new) o fits sound (λ j e. ground (arith, e)) in
    (
      marked.0,
      λ j.
          ap (λ (m : Marks). m.contents j) marked.1
          ∙ sym (one_at s.program_ff_sets_bits_value s.contents o d j),
    )

program_one_lem :
    (c : Config) (s : Flash) (o : ℕ) (d : RegBytes)
    → Fits (marks s)
    → IsSound (marks s)
    → Programmed s o d 1 (marks (program_one c s o d))
unfolding program_one Programmed
program_one_lem c s o d fits sound =
    let new = programmed s.program_ff_sets_bits_value (s.contents o) (d 0) in
    if_split (λ t. Programmed s o d 1 (marks t)) (new == s.contents o)
      (λ same. one_same s o d sound ((==_iff new (s.contents o)).0 same))
      (λ differs.
        coe 1 0
          (i. Programmed s o d 1 (
            marks-written c
              (mark_programmed_byte (record s { contents = store8 s.contents o new }) o) o 1 i))
          (one_new s o d fits sound))

-- A range in which nothing changes.
many_same :
    (s : Flash) (o : ℕ) (d : RegBytes) (l : ℕ)
    → IsSound (marks s)
    → let p = program_loop s.program_ff_sets_bits_value o d 0 l (begun s.contents l) in
      p.first_changed ≡ l → Programmed s o d l (marks (record s { contents = p.bytes }))
unfolding Programmed marks
many_same s o d l sound none_changed =
    let b = s.program_ff_sets_bits_value in
    let kept = covered s.contents b o d l in
    let at = programmed-at s.contents b o d l in
    (
      unchanged s _ sound (λ j. elim (dec_lt j (o + l)) [
        | yes below ↦ kept j (inl (omega (arith, none_changed)))
        | no beyond ↦ at j ∙ ground (arith, beyond)
      ]),
      at,
    )

beyond :
    (o first last j : ℕ)
    → (j < o + first) ⊎ (o + first + (last - first + 1) ≤ j)
    → (j < o + first) ⊎ (o + last < j)
beyond o first last j (inl below) = inl below
beyond o first last j (inr above) = inr (omega arith)

-- A range in which something does, marked from the first change to the last.
many_new :
    (s : Flash) (o : ℕ) (d : RegBytes) (l : ℕ)
    → Fits (marks s)
    → IsSound (marks s)
    → let p = program_loop s.program_ff_sets_bits_value o d 0 l (begun s.contents l) in
      Programmed s o d l (
        marks (
          mark_programmed_range
            (record s { contents = p.bytes })
            (o + p.first_changed)
            (p.last_changed - p.first_changed + 1)))
unfolding Programmed marks
many_new s o d l fits sound =
    let b = s.program_ff_sets_bits_value in
    let p = program_loop b o d 0 l (begun s.contents l) in
    let marked =
      range-IsSound s p.bytes (o + p.first_changed) (p.last_changed - p.first_changed + 1) fits
        sound (λ j h. covered s.contents b o d l j (beyond o p.first_changed p.last_changed j h)) in
    (marked.0, λ j. ap (λ (m : Marks). m.contents j) marked.1 ∙ programmed-at s.contents b o d l j)

program_many_lem :
    (c : Config) (s : Flash) (o : ℕ) (d : RegBytes) (l : ℕ)
    → Fits (marks s)
    → IsSound (marks s)
    → Programmed s o d l (marks (program_many c s o d l))
unfolding program_many add_stat Programmed marks
program_many_lem c s o d l fits sound =
    let p = program_loop s.program_ff_sets_bits_value o d 0 l (begun s.contents l) in
    let counted = add_stat (count_stat s program_ops) program_bytes l in
    let stored =
      add_stat (add_stat (record counted { contents = p.bytes }) program_changed_bytes p.changed)
        program_noop_bytes (l - p.changed) in
    let start = o + p.first_changed in
    let span = p.last_changed - p.first_changed + 1 in
    if_split (λ t. Programmed s o d l (marks t)) (p.first_changed == l)
      (λ none_changed. many_same s o d l sound ((==_iff p.first_changed l).0 none_changed))
      (λ some_changed.
        coe 1 0
          (i.
            Programmed s o d l
              (marks-written c (mark_programmed_range stored start span) start span i))
          (many_new (record s { counters = stored.counters }) o d l fits sound))

single_lem :
    (c : Config) (s : Flash) (o : ℕ) (d : RegBytes) (l : ℕ)
    → Fits (marks s)
    → IsSound (marks s)
    → (not s.stats_collecting && l == 1) ≡ true
    → Programmed s o d l (marks (program_one c s o d))
single_lem c s o d l fits sound single =
    let one : 1 ≡ l = ground arith in
    coe 0 1 (i. Programmed s o d (one i) (marks (program_one c s o d)))
      (program_one_lem c s o d fits sound)

-- With a map that is sound, programming a range of the array leaves each byte of it with the bits that
-- both its value and the data have (or as 0xff, where the configuration lets 0xff set bits), changes no
-- other byte, and leaves the map sound; a byte of 0xff at a sector's start may stand for an erase, and
-- is not meant here.
pub program_lem :
    (c : Config) (s : Flash) (o : ℕ) (d : RegBytes) (l : ℕ)
    → Fits (marks s)
    → IsSound (marks s)
    → is_sector_aligned_program_ff_erase s o d l ≡ false
    → let after = program c s o d l in
      IsSound (marks after)
      × ((j : ℕ)
          → after.contents j ≡ (
              if leb o j && ltb j (o + l)
              then (if s.program_ff_sets_bits_value && d (j - o) == 0xff
                  then 0xff
                  else bit_and (s.contents j) (d (j - o)))
              else s.contents j))
unfolding programmed program Programmed marks
program_lem c s o d l fits sound no_erase = rw no_erase (
    if_split (λ t. Programmed s o d l (marks t)) (not s.stats_collecting && l == 1)
      (λ single. single_lem c s o d l fits sound single)
      (λ more. program_many_lem c s o d l fits sound))
