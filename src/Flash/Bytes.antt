-- ===== src/Flash/Bytes.antt =====
-- What the programming loop of strata_flash_j3.h does to the bytes.
use qbox_platform.Prelude.{
  ℕ, zero, suc, if_split, ◌+◌, ◌-◌, ◌≤◌, ◌<◌, ◌≡◌, ◌≢◌, ◌⊎◌, refl, arith, min, Bool, ◌&&◌, ltb, leb,
  ◌==◌, if◌then◌else◌, inl, inr,
}
use qbox_platform.RegFile.{RegBytes, store8}
use qbox_platform.Flash.Program.{programmed, Progress, program_byte, program_loop}

-- The bytes that a program of a length leaves.
abbrev pub programmed_bytes : Bool → RegBytes → ℕ → RegBytes → ℕ → RegBytes
programmed_bytes b m o d l j =
    if leb o j && ltb j (o + l) then programmed b (m j) (d (j - o)) else m j

program_byte-at :
    (b : Bool) (o : ℕ) (d : RegBytes) (i : ℕ) (p : Progress) (j : ℕ)
    → (program_byte b o d i p).bytes j
      ≡ (if j == o + i then programmed b (p.bytes j) (d i) else p.bytes j)
unfolding program_byte store8
program_byte-at b o d i p j = ground arith

same_data :
    (d : RegBytes) (b : Bool) (old i j o : ℕ)
    → j ≡ o + i
    → programmed b old (d i) ≡ programmed b old (d (j - o))
same_data d b old i j o e = let k : i ≡ j - o = omega arith in rw k refl

loop-at :
    (b : Bool) (o : ℕ) (d : RegBytes) (i n : ℕ) (p : Progress) (j : ℕ)
    → (program_loop b o d i n p).bytes j ≡ (
        if leb (o + i) j && ltb j (o + i + n)
        then programmed b (p.bytes j) (d (j - o))
        else p.bytes j)
unfolding program_loop
loop-at b o d i zero p j = ground arith
loop-at b o d i (suc n) p j =
    let here = program_byte-at b o d i p j in
    let later = loop-at b o d (i + 1) n (program_byte b o d i p) j in
    ground (arith, here, later, same_data d b (p.bytes j) i j o)

-- The bytes that have changed so far lie between the first and the last change.
Covers : RegBytes → ℕ → ℕ → Progress → Type 0
Covers m o i p =
    (p.last_changed ≤ i)
    × ((j : ℕ) → (j < o + p.first_changed) ⊎ (o + p.last_changed < j) → p.bytes j ≡ m j)

outside :
    (o i first last j : ℕ)
    → last ≤ i
    → (j < o + min first i) ⊎ (o + i < j)
    → (j < o + first) ⊎ (o + last < j)
outside o i first last j h (inl below) = inl (omega arith)
outside o i first last j h (inr above) = inr (omega arith)

at_none : (o i first j : ℕ) → (j < o + min first i) ⊎ (o + i < j) → j ≢ o + i
at_none o i first j (inl below) e = omega arith
at_none o i first j (inr above) e = omega arith

byte-Covers :
    (m : RegBytes) (b : Bool) (o : ℕ) (d : RegBytes) (i : ℕ) (p : Progress)
    → Covers m o i p
    → Covers m o (i + 1) (program_byte b o d i p)
unfolding Covers program_byte store8
byte-Covers m b o d i p (last, covers) =
    if_split (Covers m o (i + 1)) (programmed b (p.bytes (o + i)) (d i) == p.bytes (o + i))
      (λ same. (omega arith, covers))
      (λ new. (
        omega arith,
        λ j h.
            let old : p.bytes j ≡ m j =
              covers j (outside o i p.first_changed p.last_changed j last h) in
            let beyond : j ≢ o + i = at_none o i p.first_changed j h in ground (arith, old, beyond),
      ))

loop-covered :
    (m : RegBytes) (b : Bool) (o : ℕ) (d : RegBytes) (i n : ℕ) (p : Progress)
    → Covers m o i p
    → let q = program_loop b o d i n p in
      (j : ℕ) → (j < o + q.first_changed) ⊎ (o + q.last_changed < j) → q.bytes j ≡ m j
unfolding program_loop Covers
loop-covered m b o d i zero p h = h.1
loop-covered m b o d i (suc n) p h =
    loop-covered m b o d (i + 1) n (program_byte b o d i p) (byte-Covers m b o d i p h)

-- What `program` starts the loop with.
abbrev pub begun : RegBytes → ℕ → Progress
begun m l = record { bytes = m; changed = 0; first_changed = l; last_changed = 0 }

pub covered :
    (m : RegBytes) (b : Bool) (o : ℕ) (d : RegBytes) (l j : ℕ)
    → let p = program_loop b o d 0 l (begun m l) in
      (j < o + p.first_changed) ⊎ (o + p.last_changed < j) → p.bytes j ≡ m j
unfolding Covers
covered m b o d l j h = loop-covered m b o d 0 l (begun m l) (omega arith, λ k g. refl) j h

pub programmed-at :
    (m : RegBytes) (b : Bool) (o : ℕ) (d : RegBytes) (l j : ℕ)
    → (program_loop b o d 0 l (begun m l)).bytes j ≡ programmed_bytes b m o d l j
programmed-at m b o d l j = ground (arith, loop-at b o d 0 l (begun m l) j)
