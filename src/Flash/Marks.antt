-- ===== src/Flash/Marks.antt =====
-- The map of erased sectors of strata_flash_j3.h: what it says of a sector is so.
use qbox_platform.Prelude.{
  ℕ, zero, suc, if_split, ◌+◌, ◌-◌, ◌*◌, ◌/◌, ◌%◌, ◌^◌, ◌≤◌, ◌<◌, ◌≡◌, ◌∙◌, sym, refl, ap, arith,
  Bool, true, not, ◌||◌, ◌==◌, dec_lt, ℕ_discrete,
}
use native.Mathlib.Nat.{div-add-mod', mod-lt, mul-le-mul_right}
use qbox_platform.RegFile.{RegBytes}
use qbox_platform.Flash.{Flash}
use qbox_platform.Flash.Sectors.{
  sector_count, ensure_sector_erased_map, put_flag, mark_one, mark_bytes,
}

-- What the map is about, and the map.
pub record Marks : Type 0 where
  pub contents : RegBytes
  pub size : ℕ
  pub sector_size : ℕ
  pub erased : ℕ → Bool
  pub sectors : ℕ
  pub map_size : ℕ

unfoldable pub marks : Flash → Marks
marks s = record {
  contents = s.contents;
  size = s.size;
  sector_size = s.sector_size_value;
  erased = s.sector_erased;
  sectors = s.sectors;
  map_size = s.sector_erased_map_size;
}

-- There are bytes and sectors, and the sums of the code do not wrap.
abbrev pub Fits : Marks → Type 0
Fits m = (0 < m.size) × (m.size ≤ 2 ^ 63) × (0 < m.sector_size) × (m.sector_size ≤ 2 ^ 63)

-- The map has the sectors of the array.
abbrev pub IsCounted : Marks → Type 0
IsCounted m =
    (m.map_size ≡ m.sector_size) × (m.sectors ≡ (m.size + m.sector_size - 1) / m.sector_size)

-- Each byte of a sector that the map calls erased is 0xff.
abbrev pub IsSound : Marks → Type 0
IsSound m =
    IsCounted m × ((j : ℕ) → j < m.size → m.erased (j / m.sector_size) ≡ true → m.contents j ≡ 0xff)

-- A byte of the array is in a sector of the map.
pub in_map : (size k j : ℕ) → 0 < k → j < size → j / k < (size + k - 1) / k
in_map size k j pos lt = elim (dec_lt (j / k) ((size + k - 1) / k)) [
  | yes p ↦ p
  | no p ↦
      let few : (size + k - 1) / k * k ≤ j / k * k = mul-le-mul_right k (omega arith) in
      absurd (
        omega
          (arith, few, div-add-mod' j k, div-add-mod' (size + k - 1) k, mod-lt (size + k - 1) pos))
]

count_lem :
    (s : Flash)
    → Fits (marks s)
    → sector_count s ≡ (s.size + s.sector_size_value - 1) / s.sector_size_value
unfolding sector_count marks
count_lem s (bytes, few, some_size, small) =
    let whole : (s.size + s.sector_size_value - 1) % 2 ^ 64 ≡ s.size + s.sector_size_value - 1 =
      omega arith in
    ground (arith, ap (λ n. n / s.sector_size_value) whole)

-- A map of the right size is not built again.
pub ensure_same :
    (s : Flash) → Fits (marks s) → IsCounted (marks s) → ensure_sector_erased_map s ≡ s
unfolding ensure_sector_erased_map marks
ensure_same s fits right =
    let counted = count_lem s fits in
    if_split (λ t. t ≡ s)
      (not (s.sector_erased_map_size == s.sector_size_value) || not (s.sectors == sector_count s))
      (λ differs. absurd (ground (arith, right.0, right.1, counted))) (λ same. refl)

mark_one_lem :
    (m : RegBytes) (ss n : ℕ) (e : ℕ → Bool) (p k : ℕ)
    → mark_one m ss n e p k ≡ true
    → (e k ≡ true) × (k < n → p / ss ≡ k → m p ≡ 0xff)
unfolding mark_one put_flag
mark_one_lem m ss n e p k h = ground arith

-- A flag that the marking leaves was set, and of the bytes of its sector none that it passed is
-- programmed.
pub mark_bytes_lem :
    (m : RegBytes) (ss n : ℕ) (e : ℕ → Bool) (p l k : ℕ)
    → mark_bytes m ss n e p l k ≡ true
    → (e k ≡ true) × ((j : ℕ) → p ≤ j → j < p + l → k < n → j / ss ≡ k → m j ≡ 0xff)
unfolding mark_bytes
mark_bytes_lem m ss n e p zero k h = (h, λ j below above. absurd (omega arith))
mark_bytes_lem m ss n e p (suc l) k h =
    let later = mark_bytes_lem m ss n (mark_one m ss n e p) (p + 1) l k h in
    let here = mark_one_lem m ss n e p k later.0 in
    (
      here.0,
      λ j below above inside place. elim (ℕ_discrete p j) [
        | yes same ↦ ap m (sym same) ∙ here.1 inside (ap (λ i. i / ss) same ∙ place)
        | no other ↦ later.1 j (omega arith) (omega arith) inside place
      ],
    )
