-- ===== src/Flash/Sectors.antt =====
-- The array of strata_flash_j3.h and the map of its erased sectors.
use qbox_platform.Prelude.{
  ℕ, zero, suc, ◌+◌, ◌-◌, ◌*◌, ◌/◌, ◌%◌, ◌^◌, min, Bool, true, false, not, ◌&&◌, ◌||◌, ltb, leb,
  ◌==◌, if◌then◌else◌,
}
use qbox_platform.RegFile.{RegBytes}
use qbox_platform.Flash.{Config, Flash}

-- `all_of` over some bytes from a start.
unfoldable pub all_erased : RegBytes → ℕ → ℕ → Bool
all_erased m start zero = true
all_erased m start (suc n) = m start == 0xff && all_erased m (start + 1) n

unfoldable pub sector_count : Flash → ℕ
sector_count s =
    if s.sector_size_value == 0 || s.size == 0
    then 0
    else (s.size + s.sector_size_value - 1) % 2 ^ 64 / s.sector_size_value

unfoldable pub initialize_sector_erased_map : Flash → Flash
initialize_sector_erased_map s = record s {
  sector_erased_map_size = s.sector_size_value;
  sector_erased = λ index. true;
  sectors = sector_count s;
}

unfoldable pub ensure_storage : Config → Flash → Flash
ensure_storage c s =
    if not (s.size == 0)
    then s
    else initialize_sector_erased_map (record s { contents = λ i. 0xff; size = c.flash_size })

-- The bytes of a sector, as the loops of rebuild and refresh test them.
unfoldable pub sector_erased_now : Flash → ℕ → Bool
sector_erased_now s index =
    let start = index * s.sector_size_value in
    let end = min ((start + s.sector_size_value) % 2 ^ 64) s.size in
    all_erased s.contents start (end - start)

unfoldable pub rebuild_sector_erased_map : Flash → Flash
rebuild_sector_erased_map s = record s {
  sector_erased_map_size = s.sector_size_value;
  sectors = sector_count s;
  sector_erased =
      if s.sector_size_value == 0 || s.size == 0 then (λ index. true) else sector_erased_now s;
}

unfoldable pub ensure_sector_erased_map : Flash → Flash
ensure_sector_erased_map s =
    if not (s.sector_erased_map_size == s.sector_size_value) || not (s.sectors == sector_count s)
    then rebuild_sector_erased_map s
    else s

-- The loop of refresh, at each index.
unfoldable pub refresh_between : Flash → ℕ → ℕ → Flash
refresh_between s first last = record s {
  sector_erased = λ index.
      if leb first index && leb index last && ltb index s.sectors
      then sector_erased_now s index
      else s.sector_erased index;
}

unfoldable pub refresh_sector_erased_range : Flash → ℕ → ℕ → Flash
unfolding refresh_between
refresh_sector_erased_range s offset len =
    if len == 0 || s.sector_size_value == 0 || s.size == 0
    then s
    else refresh_between (ensure_sector_erased_map s) (offset / s.sector_size_value)
        ((offset + len - 1) / s.sector_size_value)

-- An entry of the map, which has some sectors, set to a value.
unfoldable pub put_flag : ℕ → (ℕ → Bool) → ℕ → Bool → ℕ → Bool
put_flag sectors erased index value k = if ltb index sectors && k == index then value else erased k

unfoldable pub put_erased : Flash → ℕ → Bool → Flash
put_erased s index value = record s {
  sector_erased = put_flag s.sectors s.sector_erased index value;
}

unfoldable pub mark_programmed_byte : Flash → ℕ → Flash
mark_programmed_byte s offset =
    if s.sector_size_value == 0 || s.size == 0 || s.contents offset == 0xff
    then s
    else put_erased (ensure_sector_erased_map s) (offset / s.sector_size_value) false

-- The loop of mark_programmed_range on the map, over the bytes that are left; one round of it first.
unfoldable pub mark_one : RegBytes → ℕ → ℕ → (ℕ → Bool) → ℕ → ℕ → Bool
mark_one m sector_size sectors erased pos =
    if m pos == 0xff then erased else put_flag sectors erased (pos / sector_size) false

unfoldable pub mark_bytes : RegBytes → ℕ → ℕ → (ℕ → Bool) → ℕ → ℕ → ℕ → Bool
mark_bytes m sector_size sectors erased pos zero = erased
mark_bytes m sector_size sectors erased pos (suc n) =
    mark_bytes m sector_size sectors (mark_one m sector_size sectors erased pos) (pos + 1) n

unfoldable pub mark_programmed_range : Flash → ℕ → ℕ → Flash
mark_programmed_range s offset len =
    let s' = ensure_sector_erased_map s in
    if len == 0 || s.sector_size_value == 0 || s.size == 0 then s else record s' {
      sector_erased =
          mark_bytes s'.contents s'.sector_size_value s'.sectors s'.sector_erased offset len;
    }

-- `ensure_sector_erased_map` and the flag.
unfoldable pub sector_is_erased : Flash → ℕ → Flash × Bool
sector_is_erased s start =
    if s.sector_size_value == 0 || s.size == 0
    then (s, false)
    else let s' = ensure_sector_erased_map s in
      let index = start / s.sector_size_value in
      (s', ltb index s'.sectors && s'.sector_erased index)

unfoldable pub mark_sector_erased : Flash → ℕ → Flash
mark_sector_erased s start =
    if s.sector_size_value == 0 || s.size == 0
    then s
    else put_erased (ensure_sector_erased_map s) (start / s.sector_size_value) true
