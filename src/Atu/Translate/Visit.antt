-- ===== src/Atu/Translate/Visit.antt =====
-- One round of the region search of rse_atu.h.
use qbox_platform.Prelude.{
  ℕ, ◌+◌, ◌*◌, ◌^◌, ◌≤◌, ◌<◌, ◌≡◌, arith, Bool, true, false, ◌&&◌, some, ltb, leb, if◌then◌else◌,
}
use qbox_platform.RegFile.{RegBytes}
use qbox_platform.Atu.{
  Config, Info, Fault, no_fault, out_of_range, page_shift, region_configured, region_offset_pages,
  region_security_allowed,
}
use qbox_platform.Atu.Offset.{apply_region_offset}
use qbox_platform.Atu.Translate.{
  skip, stop, region_start, region_end, region_enabled, disable, resolve, visit,
}
use qbox_platform.Atu.Translate.Pages.{shifted_offset-exact}

-- The region is in use and its range has the first address of the access.
unfoldable pub touches : RegBytes → ℕ → ℕ → Bool
touches m logical r =
    region_configured m r && leb (region_start m r) logical && ltb logical (region_end m r)

-- It has the last address too.
unfoldable pub holds : RegBytes → ℕ → ℕ → ℕ → Bool
unfolding touches
holds m logical len r = touches m logical r && leb (logical + len) (region_end m r)

-- And it is enabled.
unfoldable pub admits : RegBytes → ℕ → ℕ → ℕ → Bool
unfolding holds
admits m logical len r = holds m logical len r && region_enabled m r

-- What a translation that succeeds reports.
pub record Translated (c : Config) (m : RegBytes) (logical len : ℕ) (info : Info) : Type 0 where
  pub admitted : admits m logical len info.region ≡ true
  pub allowed : region_security_allowed c m info.region ≡ true
  pub first : info.logical_start ≡ region_start m info.region
  pub last : info.logical_end + 1 ≡ region_end m info.region
  pub starts_in : info.logical_start ≤ logical
  pub ends_in : logical + len ≤ info.logical_end + 1
  pub pages : info.offset_pages ≡ region_offset_pages m info.region
  pub exact : info.offset ≡ info.offset_pages * 2 ^ page_shift m
  pub placed : apply_region_offset logical info.offset ≡ some info.physical
  pub clear : info.fault ≡ no_fault

module _ (c : Config) (m : RegBytes) (logical len r : ℕ) (pending : Fault) where
  pub visit-admits :
      admits m logical len r ≡ true
      → visit c m logical len r pending
        ≡ (let (info, found) = resolve c m logical r in stop info found)
  unfolding visit admits
  visit-admits h = ground arith

  pub visit-skip :
      admits m logical len r ≡ false
      → 0 < len
      → visit c m logical len r pending
        ≡ skip (
            if holds m logical len r
            then (disable pending)
            else if touches m logical r
            then out_of_range
            else pending)
  unfolding visit admits
  visit-skip h k = ground arith

module _ (c : Config) (m : RegBytes) (logical len r : ℕ) where
  pub resolve-Translated :
      0 < len
      → admits m logical len r ≡ true
      → (resolve c m logical r).1 ≡ true
      → Translated c m logical len (resolve c m logical r).0
        × ((resolve c m logical r).0.region ≡ r)
  unfolding resolve admits
  resolve-Translated k a h =
      ground (arith, shifted_offset-exact (region_offset_pages m r) (page_shift m))
