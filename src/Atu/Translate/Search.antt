-- ===== src/Atu/Translate/Search.antt =====
-- The region search of `translate_range` in rse_atu.h.
use qbox_platform.Prelude.{
  ℕ, zero, suc, ◌+◌, ◌≤◌, ◌<◌, ◌≡◌, ◌⊎◌, refl, sym, arith, inl, inr, Bool, true, false, ◌&&◌, ◌||◌,
  not, Bool-cases, if◌then◌else◌, ◌∙◌, ap, ℕ_discrete,
}
use qbox_platform.RegFile.{RegBytes}
use qbox_platform.Atu.{Config, empty_info, Fault, unmapped, out_of_range, supported_region_count}
use qbox_platform.Atu.Translate.{disable, resolve, search_regions, access_length, translate_range}
use qbox_platform.Atu.Translate.Visit.{
  touches, holds, admits, Translated, visit-admits, visit-skip, resolve-Translated,
}

-- Some of the `n` regions from `r` on passes the test.
abbrev pub any_region : (ℕ → Bool) → ℕ → ℕ → Bool
any_region test zero r = false
any_region test (suc n) r = test r || any_region test n (r + 1)

-- No region from `r` up to `j` admits the access.
abbrev pub NoneBefore : RegBytes → ℕ → ℕ → ℕ → ℕ → Type 0
NoneBefore m logical len r j = (i : ℕ) → r ≤ i → i < j → admits m logical len i ≡ false

-- The fault of a search that no region admits: an access that leaves a region it starts in comes
-- first, then a region that has it and is disabled.
abbrev pub classify : RegBytes → ℕ → ℕ → ℕ → ℕ → Fault → Fault
classify m logical len n r pending =
    if any_region (λ i. touches m logical i && not (holds m logical len i)) n r
    then out_of_range
    else if any_region (λ i. holds m logical len i) n r
    then disable pending
    else pending

classify_step :
    (m : RegBytes) (logical len n r : ℕ) (pending : Fault)
    → classify m logical len n (r + 1) (
        if holds m logical len r
        then disable pending
        else if touches m logical r
        then out_of_range
        else pending)
      ≡ classify m logical len (suc n) r pending
classify_step m logical len n r pending = ground arith

NoneBefore-extend :
    (m : RegBytes) (logical len r j : ℕ)
    → admits m logical len r ≡ false
    → NoneBefore m logical len (r + 1) j
    → NoneBefore m logical len r j
NoneBefore-extend m logical len r j here later i p q = elim (ℕ_discrete r i) [
  | yes e ↦ rw e at here
  | no ne ↦ later i (omega arith) q
]

module _ (c : Config) (m : RegBytes) (logical len : ℕ) (pos : 0 < len) where
  pub search_finds :
      (n r : ℕ) (pending : Fault) (j : ℕ)
      → r ≤ j
      → j < r + n
      → NoneBefore m logical len r j
      → admits m logical len j ≡ true
      → search_regions c m logical len n r pending ≡ resolve c m logical j
  unfolding search_regions
  search_finds zero r pending j a b before h = absurd (omega arith)
  search_finds (suc n) r pending j a b before h = elim (ℕ_discrete r j) [
    | yes e ↦
        rw (search_regions, visit-admits c m logical len r pending (rw e h))
          (ap (resolve c m logical) e)
    | no ne ↦
        let later = λ (f : Fault).
          search_finds n (r + 1) f j (omega arith) (omega arith) (λ i p q. before i (omega arith) q)
            h in
        rw
          (
            search_regions,
            visit-skip c m logical len r pending (before r (omega arith) (omega arith)) pos,
          )
          (later _)
  ]

  pub search_none :
      (n r : ℕ) (pending : Fault)
      → NoneBefore m logical len r (r + n)
      → search_regions c m logical len n r pending
        ≡ (record empty_info { fault = classify m logical len n r pending }, false)
  unfolding search_regions
  search_none zero r pending before = refl
  search_none (suc n) r pending before =
      let later =
        λ (f : Fault). search_none n (r + 1) f (λ i p q. before i (omega arith) (omega arith)) in
      rw
        (
          search_regions,
          visit-skip c m logical len r pending (before r (omega arith) (omega arith)) pos,
        )
        (later _
          ∙ ap (λ f. (record empty_info { fault = f }, false))
              (classify_step m logical len n r pending))

  -- Either some region is the first to admit the access, or none does.
  pub first_admitting :
      (n r : ℕ)
      → ((j : ℕ) × (r ≤ j)
          × (j < r + n)
          × NoneBefore m logical len r j
          × (admits m logical len j ≡ true))
        ⊎ NoneBefore m logical len r (r + n)
  first_admitting zero r = inr (λ i p q. absurd (omega arith))
  first_admitting (suc n) r = elim (Bool-cases (admits m logical len r)) [
    | inl y ↦ inl (r, omega arith, omega arith, λ i p q. absurd (omega arith), y)
    | inr x ↦ elim (first_admitting n (r + 1)) [
      | inl (j, p, q, before, y) ↦
          inl (j, omega arith, omega arith, NoneBefore-extend m logical len r j x before, y)
      | inr none_later ↦
          inr (
            NoneBefore-extend m logical len r (r + suc n) x (λ i p q. none_later i p (omega arith)))
    ]
  ]

-- The range of an access of any length, 0 read as 1.
access_length_pos : (len : ℕ) → 0 < access_length len
access_length_pos len = ground arith

module _ (c : Config) (m : RegBytes) (logical len : ℕ) (latch : Bool) where
  -- The lowest enabled region that is in use and has the whole access decides the translation,
  -- whether it succeeds or not.
  pub translate_range_first :
      (j : ℕ)
      → j < supported_region_count m
      → admits m logical (access_length len) j ≡ true
      → NoneBefore m logical (access_length len) 0 j
      → ((translate_range c m logical len latch).1 ≡ (resolve c m logical j).0)
        × ((translate_range c m logical len latch).2 ≡ (resolve c m logical j).1)
  unfolding translate_range
  translate_range_first j lt h before =
      rw
        (search_finds c m logical (access_length len) (access_length_pos len)
          (supported_region_count m) 0 unmapped j (omega arith) (omega arith) before h)
        (refl, refl)

  -- If no region admits the access, the translation fails; the fault is `out_of_range` if the
  -- access leaves a region that it starts in, else `disabled` if a region has it, else `unmapped`.
  pub translate_range_none :
      NoneBefore m logical (access_length len) 0 (supported_region_count m)
      → ((translate_range c m logical len latch).2 ≡ false)
        × ((translate_range c m logical len latch).1.fault
            ≡ classify m logical (access_length len) (supported_region_count m) 0 unmapped)
  unfolding translate_range
  translate_range_none before =
      rw
        (search_none c m logical (access_length len) (access_length_pos len)
          (supported_region_count m) 0 unmapped (λ i p q. before i p (omega arith)))
        (refl, refl)

  unchanged :
      (translate_range c m logical len latch).2 ≡ true
      → (translate_range c m logical len latch).0 ≡ m
  unfolding translate_range
  unchanged h = ground arith

  -- A translation that succeeds reports the lowest region that admits the access, with a physical
  -- address that its offset gives, and leaves the registers alone.
  pub translate_range_sound :
      (translate_range c m logical len latch).2 ≡ true
      → let info = (translate_range c m logical len latch).1 in
        Translated c m logical (access_length len) info
        × (info.region < supported_region_count m)
        × NoneBefore m logical (access_length len) 0 info.region
        × ((translate_range c m logical len latch).0 ≡ m)
  translate_range_sound h =
      elim (first_admitting c m logical (access_length len) (access_length_pos len)
        (supported_region_count m) 0) [
          | inl (j, p, q, before, y) ↦
              let (e, d) = translate_range_first j (omega arith) y before in
              let (t, at_j) =
                resolve-Translated c m logical (access_length len) j (access_length_pos len) y
                  (sym d ∙ h) in
              rw e (t, rw at_j (omega arith), rw at_j before, unchanged h)
          | inr before ↦
              let (failed, why) = translate_range_none (λ i p q. before i p (omega arith)) in
              cc (h, failed)
        ]
