-- ===== src/Flash/Erase.antt =====
-- Erasing a sector of strata_flash_j3.h, which is left out where the map has it as erased.
use qbox_platform.Prelude.{
  ℕ, if_split, ◌+◌, ◌-◌, ◌*◌, ◌/◌, ◌%◌, ◌^◌, ◌≤◌, ◌<◌, ◌≡◌, ◌∙◌, refl, ap, arith, min, true, ◌&&◌,
  ◌||◌, ltb, leb, ◌==◌, if◌then◌else◌, dec_lt, ℕ_discrete, ==_iff,
}
use native.Mathlib.Nat.{mul-div_cancel, div-eq_of_lt-le, div-mul-le_self, lt-div-mul-add}
use qbox_platform.Flash.{Config, Flash, Counter, ready, sector_erase_ops, sector_erase_bytes}
use qbox_platform.Flash.Stats.{add_stat, count_stat}
use qbox_platform.Flash.Sectors.{mark_sector_erased, sector_is_erased}
use qbox_platform.Flash.Backing.{write_backing_range}
use qbox_platform.Flash.Program.{fill_bytes, erase_sector}
use qbox_platform.Flash.Frame.{bare, bare-write_backing_range}
use qbox_platform.Flash.Marks.{Marks, marks, Fits, IsCounted, IsSound, ensure_same}
use qbox_platform.Flash.Sound.{filled-IsSound}

marks-bare : (s t : Flash) → bare s ≡ bare t → marks s ≡ marks t
unfolding marks bare
marks-bare s t e = ap marks e

pub marks-written :
    (c : Config) (s : Flash) (o l : ℕ) → marks (ready (write_backing_range c s o l)) ≡ marks s
unfolding marks
marks-written c s o l = marks-bare _ s (bare-write_backing_range c s o l)

pub marks-add_stat : (s : Flash) (k : Counter) (d : ℕ) → marks (add_stat s k d) ≡ marks s
unfolding marks add_stat
marks-add_stat s k d = refl

-- The bytes between the start and the end of a sector are those of the sector.
sector_range :
    (size ss q j : ℕ)
    → 0 < ss
    → ss ≤ 2 ^ 63
    → size ≤ 2 ^ 63
    → q * ss < size
    → j < size
    → (leb (q * ss) j && ltb j (min ((q * ss + ss) % 2 ^ 64) size)) ≡ (j / ss == q)
sector_range size ss q j pos small few start lt =
    let whole : (q * ss + ss) % 2 ^ 64 ≡ q * ss + ss = omega arith in
    let above = div-mul-le_self j ss in
    let below = lt-div-mul-add {a = j} pos in
    elim (ℕ_discrete (j / ss) q) [
      | yes e ↦
          let start_of : j / ss * ss ≡ q * ss = ap (λ k. k * ss) e in
          ground (arith, whole, start_of, above, below, e)
      | no e ↦ elim (dec_lt j (q * ss)) [
        | yes before ↦ ground (arith, e, before)
        | no p ↦ elim (dec_lt j (q * ss + ss)) [
          | yes within ↦ absurd (e (div-eq_of_lt-le ss (omega arith) (grind arith)))
          | no after ↦ ground (arith, whole, e, after)
        ]
      ]
    ]

is_erased_lem :
    (s : Flash) (start : ℕ)
    → Fits (marks s)
    → IsCounted (marks s)
    → let index = start / s.sector_size_value in
      sector_is_erased s start ≡ (s, ltb index s.sectors && s.sector_erased index)
unfolding sector_is_erased marks
is_erased_lem s start fits counted =
    if_split
      (λ r. r ≡ (
        s,
        ltb (start / s.sector_size_value) s.sectors
            && s.sector_erased (start / s.sector_size_value),
      ))
      (s.sector_size_value == 0 || s.size == 0) (λ none. absurd (ground (arith, fits.0, fits.2)))
      (λ some.
        ap
          (λ (t : Flash). (
            t,
            ltb (start / s.sector_size_value) t.sectors
                && t.sector_erased (start / s.sector_size_value),
          ))
          (ensure_same s fits counted))

start_inside : (ss size o : ℕ) → o < size → o / ss * ss < size
start_inside ss size o h = omega (arith, div-mul-le_self o ss)

-- What is left after erasing the sector of an index.
Erased : Flash → ℕ → Marks → Type 0
Erased s q m =
    IsSound m
    × ((j : ℕ)
        → j < s.size
        → m.contents j ≡ (if j / s.sector_size_value == q then 0xff else s.contents j))

-- The map has it as erased.
kept_sector :
    (s : Flash) (q : ℕ) → IsSound (marks s) → s.sector_erased q ≡ true → Erased s q (marks s)
unfolding Erased marks
kept_sector s q (counted, sound) flag = (
  (counted, sound),
  λ j lt.
      if_split (λ v. s.contents j ≡ v) (j / s.sector_size_value == q)
        (λ same.
          sound j lt (ap s.sector_erased ((==_iff (j / s.sector_size_value) q).0 same) ∙ flag))
        (λ other. refl),
)

-- It has not.
new_sector :
    (s : Flash) (q : ℕ)
    → Fits (marks s)
    → IsSound (marks s)
    → q * s.sector_size_value < s.size
    → let start = q * s.sector_size_value in
      let end = min ((start + s.sector_size_value) % 2 ^ 64) s.size in
      Erased s q (
        marks
          (mark_sector_erased (record s { contents = fill_bytes s.contents start end 0xff }) start))
unfolding Erased fill_bytes marks
new_sector s q fits sound inside =
    let ss = s.sector_size_value in
    let start = q * ss in
    let end = min ((start + ss) % 2 ^ 64) s.size in
    let range =
      λ (j : ℕ) (lt : j < s.size). sector_range s.size ss q j fits.2 fits.3 fits.1 inside lt in
    let remarked =
      filled-IsSound s (fill_bytes s.contents start end 0xff) q fits sound
        (λ j lt e. ground (arith, range j lt, e)) (λ j lt e. ground (arith, range j lt, e)) in
    (
      remarked.0,
      λ j lt.
          ap (λ (m : Marks). m.contents j) remarked.1
          ∙ ap (λ b. if b then 0xff else s.contents j) (range j lt),
    )

-- With a map that is sound, an erase of a sector of the array leaves all of its bytes 0xff and all
-- others as they were, whether or not the map has it as erased, and the map is sound again.
pub erase_sector_lem :
    (c : Config) (s : Flash) (o : ℕ)
    → Fits (marks s)
    → IsSound (marks s)
    → o < s.size
    → let after = erase_sector c s o in
      IsSound (marks after)
      × ((j : ℕ)
          → j < s.size
          → after.contents j
            ≡ (if j / s.sector_size_value == o / s.sector_size_value then 0xff else s.contents j))
unfolding erase_sector Erased marks add_stat
erase_sector_lem c s o fits (counted, sound) inside =
    let ss = s.sector_size_value in
    let q = o / ss in
    let start = q * ss in
    let len = min ((start + ss) % 2 ^ 64) s.size - start in
    let stats = add_stat (count_stat s sector_erase_ops) sector_erase_bytes len in
    let place : start / ss ≡ q = mul-div_cancel q fits.2 in
    let tested = is_erased_lem stats start fits counted in
    let state = λ (t : Flash). Erased s q (marks t) in
    let marked : Flash → Flash = λ t.
      mark_sector_erased
        (record t {
          contents = fill_bytes t.contents start (min ((start + ss) % 2 ^ 64) s.size) 0xff;
        })
        start in
    let whole = new_sector stats q fits (counted, sound) (start_inside ss s.size o inside) in
    coe 1 0
      (i.
        let (t, erased) = tested i in
        state (if erased then ready t else ready (write_backing_range c (marked t) start len)))
      (if_split state (ltb (start / ss) s.sectors && s.sector_erased (start / ss))
        (λ erased.
          kept_sector stats q (counted, sound) (ground (arith, erased, ap s.sector_erased place)))
        (λ programmed. coe 1 0 (i. Erased s q (marks-written c (marked stats) start len i)) whole))
