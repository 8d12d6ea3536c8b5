-- ===== src/Flash/Ranges.antt =====
-- The `dmi_ranges` parameter of strata_flash_j3.h.
use qbox_platform.Prelude.{
  ℕ, zero, suc, ◌+◌, ◌-◌, ◌^◌, min, Bool, true, false, not, ◌&&◌, ◌||◌, Option, none, some, List,
  [], ◌∷◌, length, ltb, leb, ◌==◌, if◌then◌else◌,
}
use qbox_platform.Flash.{Config, Flash, DmiRange}
use qbox_platform.Flash.Sectors.{ensure_storage}

abbrev pub comma : ℕ
comma = 0x2c

abbrev pub colon : ℕ
colon = 0x3a

abbrev pub dash : ℕ
dash = 0x2d

-- `std::isspace` in the C locale.
abbrev pub is_space : ℕ → Bool
is_space ch = ch == 0x20 || leb 9 ch && leb ch 13

unfoldable pub remove_spaces : List ℕ → List ℕ
remove_spaces [] = []
remove_spaces (ch ∷ rest) = if is_space ch then remove_spaces rest else ch ∷ remove_spaces rest

unfoldable pub same_text : List ℕ → List ℕ → Bool
same_text [] [] = true
same_text [] (y ∷ ys) = false
same_text (x ∷ xs) [] = false
same_text (x ∷ xs) (y ∷ ys) = x == y && same_text xs ys

-- `find` and the two `substr` around what it finds; `none` for `npos`.
unfoldable pub split_at : ℕ → List ℕ → Option (List ℕ × List ℕ)
split_at ch [] = none
split_at ch (x ∷ xs) =
    if x == ch
    then some ([], xs)
    else elim (split_at ch xs) [ none ↦ none | some parts ↦ some (x ∷ parts.0, parts.1) ]

is_empty : List ℕ → Bool
is_empty [] = true
is_empty (x ∷ xs) = false

whole : List ℕ → Option (ℕ × ℕ) → Option ℕ
whole text none = none
whole text (some (value, pos)) = if pos == length text then some value else none

unfoldable pub parse_u64 : Config → List ℕ → Option ℕ
unfolding is_empty whole
parse_u64 c text = if is_empty text then none else whole text (c.stoull text)

with_size : Option ℕ → Option ℕ → Option DmiRange
with_size (some start) (some value) =
    if value == 0 || ltb (2 ^ 64 - 1 - (value - 1)) start
    then none
    else some (record { first = start; last = start + value - 1 })
with_size (some start) none = none
with_size none value = none

with_end : Option ℕ → Option ℕ → Option DmiRange
with_end (some start) (some value) =
    if ltb value start then none else some (record { first = start; last = value })
with_end (some start) none = none
with_end none value = none

parse_split : Config → Option (List ℕ × List ℕ) → Option (List ℕ × List ℕ) → Option DmiRange
parse_split c (some sized) (some ended) = none
parse_split c (some (start, size)) none = with_size (parse_u64 c start) (parse_u64 c size)
parse_split c none (some (start, end)) = with_end (parse_u64 c start) (parse_u64 c end)
parse_split c none none = none

unfoldable pub parse_dmi_range : Config → List ℕ → Option DmiRange
unfolding parse_split with_size with_end
parse_dmi_range c token = parse_split c (split_at colon token) (split_at dash token)

-- A token that is a range in an array of some size, cut at its end.
admit_range : ℕ → Option DmiRange → Option DmiRange
admit_range size none = none
admit_range size (some r) =
    if leb size r.first
    then none
    else some (record { first = r.first; last = min r.last (size - 1) })

prepend_range : Option DmiRange → Option (List DmiRange) → Option (List DmiRange)
prepend_range (some r) (some rs) = some (r ∷ rs)
prepend_range (some r) none = none
prepend_range none rs = none

-- The loop over the tokens, whose fuel is one more than the characters; `none` for an invalid one.
unfoldable pub parse_ranges : Config → ℕ → ℕ → List ℕ → Option (List DmiRange)
unfolding admit_range prepend_range is_empty
parse_ranges c size zero spec = none
parse_ranges c size (suc fuel) spec = elim (split_at comma spec) [
  | none ↦
      if is_empty spec
      then none
      else prepend_range (admit_range size (parse_dmi_range c spec)) (some [])
  | some (token, rest) ↦
      let later = parse_ranges c size fuel rest in
      if is_empty token
      then none
      else prepend_range (admit_range size (parse_dmi_range c token)) later
]

unfoldable pub store_ranges : Flash → Option (List DmiRange) → Flash
store_ranges s none = record s { dmi_ranges = []; dmi_ranges_valid = false }
store_ranges s (some ranges) = record s { dmi_ranges = ranges; dmi_ranges_valid = true }

unfoldable pub refresh_dmi_ranges : Config → Flash → Flash
unfolding store_ranges is_empty
refresh_dmi_ranges c s =
    let spec = remove_spaces c.dmi_ranges_text in
    let parsed = if is_empty spec then some [] else parse_ranges c s.size (length spec + 1) spec in
    if same_text spec s.open_dmi_ranges
    then s
    else store_ranges (record s { open_dmi_ranges = spec }) parsed

unfoldable pub first_holding : ℕ → ℕ → List DmiRange → Option DmiRange
first_holding offset last [] = none
first_holding offset last (r ∷ rs) =
    if leb r.first offset && leb last r.last then some r else first_holding offset last rs

unfoldable pub find_dmi_range : Config → Flash → ℕ → ℕ → Flash × Option DmiRange
unfolding is_empty
find_dmi_range c initial offset len =
    let s = ensure_storage c initial in
    let s' = refresh_dmi_ranges c s in
    let last = if len == 0 then offset else offset + len - 1 in
    if s.size == 0 || leb s.size offset || not (len == 0) && ltb (s.size - offset) len
    then (s, none)
    else (
      s',
      if not s'.dmi_ranges_valid
          then none
          else if is_empty s'.open_dmi_ranges
          then some (record { first = 0; last = s.size - 1 })
          else first_holding offset last s'.dmi_ranges,
    )
