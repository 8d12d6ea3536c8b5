-- ===== src/Flash/Sound.antt =====
-- The updates of the map of erased sectors of strata_flash_j3.h.
use qbox_platform.Prelude.{
  ℕ, if_split, ◌+◌, ◌*◌, ◌/◌, ◌≤◌, ◌<◌, ◌≡◌, ◌≢◌, ◌⊎◌, ◌∙◌, refl, ap, arith, Bool, true, false,
  ◌||◌, ◌==◌, dec_lt, ℕ_discrete, inl, inr,
}
use native.Mathlib.Nat.{mul-div_cancel}
use qbox_platform.RegFile.{RegBytes}
use qbox_platform.Flash.{Flash}
use qbox_platform.Flash.Sectors.{
  ensure_sector_erased_map, put_flag, put_erased, mark_bytes, mark_programmed_byte,
  mark_programmed_range, mark_sector_erased,
}
use qbox_platform.Flash.Marks.{marks, Fits, IsSound, in_map, ensure_same, mark_bytes_lem}

-- A flash whose map alone differs, and is sound.
abbrev pub Remarked : Flash → Flash → Type 0
Remarked s t = IsSound (marks t) × (marks t ≡ record (marks s) { erased = t.sector_erased })

either : (j a n : ℕ) → n ≡ 0 → (j < a) ⊎ (a + n ≤ j)
either j a n h = elim (dec_lt j a) [ yes p ↦ inl p | no p ↦ inr (omega arith) ]

-- New bytes in a range, and the range marked.
pub range-IsSound :
    (s : Flash) (new : RegBytes) (a n : ℕ)
    → Fits (marks s)
    → IsSound (marks s)
    → ((j : ℕ) → (j < a) ⊎ (a + n ≤ j) → new j ≡ s.contents j)
    → let stored = record s { contents = new } in Remarked stored (mark_programmed_range stored a n)
unfolding mark_programmed_range marks
range-IsSound s new a n fits (counted, sound) outside =
    let stored = record s { contents = new } in
    let same : ensure_sector_erased_map stored ≡ stored = ensure_same stored fits counted in
    let index = λ (j : ℕ). j / s.sector_size_value in
    if_split (Remarked stored) (n == 0 || s.sector_size_value == 0 || s.size == 0)
      (λ none.
        let empty : n ≡ 0 = ground (arith, fits.0, fits.2) in
        ((counted, λ j lt flag. outside j (either j a n empty) ∙ sound j lt flag), refl))
      (λ some.
        coe 1 0
          (i.
            let s' = same i in
            Remarked stored (record s' {
              sector_erased =
                  mark_bytes s'.contents s'.sector_size_value s'.sectors s'.sector_erased a n;
            }))
          (
            (
              counted,
              λ j lt flag.
                  let left =
                    mark_bytes_lem new s.sector_size_value s.sectors s.sector_erased a n (index j)
                      flag in
                  elim (dec_lt j a) [
                    | yes below ↦ outside j (inl below) ∙ sound j lt left.0
                    | no p ↦ elim (dec_lt j (a + n)) [
                      | yes q ↦
                          left.1 j (omega arith) q
                            (omega
                              (arith, counted.1, in_map s.size s.sector_size_value j fits.2 lt))
                            refl
                      | no q ↦ outside j (inr (omega arith)) ∙ sound j lt left.0
                    ]
                  ],
            ),
            refl,
          ))

unflagged : (n : ℕ) (e : ℕ → Bool) (q k : ℕ) → put_flag n e q false k ≡ true → e k ≡ true
unfolding put_flag
unflagged n e q k h = ground arith

-- One new byte, marked.
pub byte-IsSound :
    (s : Flash) (new : RegBytes) (o : ℕ)
    → Fits (marks s)
    → IsSound (marks s)
    → ((j : ℕ) → j ≢ o → new j ≡ s.contents j)
    → let stored = record s { contents = new } in Remarked stored (mark_programmed_byte stored o)
unfolding mark_programmed_byte put_erased put_flag marks
byte-IsSound s new o fits (counted, sound) elsewhere =
    let stored = record s { contents = new } in
    let same : ensure_sector_erased_map stored ≡ stored = ensure_same stored fits counted in
    if_split (Remarked stored) (s.sector_size_value == 0 || s.size == 0 || new o == 0xff)
      (λ erased.
        let value : new o ≡ 0xff = ground (arith, fits.0, fits.2) in
        (
          (
            counted,
            λ j lt flag. elim (ℕ_discrete j o) [
              | yes e ↦ ap new e ∙ value
              | no e ↦ elsewhere j e ∙ sound j lt flag
            ],
          ),
          refl,
        ))
      (λ programmed.
        coe 1 0 (i. Remarked stored (put_erased (same i) (o / s.sector_size_value) false)) (
          (
            counted,
            λ j lt flag.
                let inside = in_map s.size s.sector_size_value j fits.2 lt in
                elim (ℕ_discrete j o) [
                  | yes e ↦ absurd (ground (arith, flag, e, inside, counted.1))
                  | no e ↦
                      elsewhere j e
                      ∙ sound j lt (
                          unflagged s.sectors s.sector_erased (o / s.sector_size_value)
                            (j / s.sector_size_value) flag)
                ],
          ),
          refl,
        ))

-- A sector that is filled, marked.
pub filled-IsSound :
    (s : Flash) (new : RegBytes) (q : ℕ)
    → Fits (marks s)
    → IsSound (marks s)
    → ((j : ℕ) → j < s.size → j / s.sector_size_value ≡ q → new j ≡ 0xff)
    → ((j : ℕ) → j < s.size → j / s.sector_size_value ≢ q → new j ≡ s.contents j)
    → let stored = record s { contents = new } in
      Remarked stored (mark_sector_erased stored (q * s.sector_size_value))
unfolding mark_sector_erased put_erased put_flag marks
filled-IsSound s new q fits (counted, sound) inside outside =
    let stored = record s { contents = new } in
    let same : ensure_sector_erased_map stored ≡ stored = ensure_same stored fits counted in
    let place : q * s.sector_size_value / s.sector_size_value ≡ q = mul-div_cancel q fits.2 in
    if_split (Remarked stored) (s.sector_size_value == 0 || s.size == 0)
      (λ none. absurd (ground (arith, fits.0, fits.2)))
      (λ some.
        coe 1 0
          (i.
            Remarked stored
              (put_erased (same i) (q * s.sector_size_value / s.sector_size_value) true))
          (
            (
              counted,
              λ j lt flag. elim (ℕ_discrete (j / s.sector_size_value) q) [
                | yes e ↦ inside j lt e
                | no e ↦ outside j lt e ∙ sound j lt (ground (arith, flag, place, e))
              ],
            ),
            refl,
          ))
