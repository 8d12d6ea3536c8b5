-- ===== src/Tlm/Tests.antt =====
-- The guard of a register block of 4 KiB, and a read across two words.
use qbox_platform.Prelude.{ℕ, ◌+◌, ◌*◌, ◌^◌, ◌≤◌, ◌≡◌, ◌↔◌, ◌⊎◌, refl, arith, true, [], ◌∷◌}
use qbox_platform.RegFile.{bytes_of}
use qbox_platform.Tlm.{in_bounds}
use qbox_platform.Tlm.Guard.{in_bounds_iff}
use qbox_platform.Tlm.Words.{fetch_words, fetch, bytes_from, fetch-bytes_from}

-- The end of the second request wraps into the block.
in_bounds_iff_example : (in_bounds 0x1000 0xffff_ffff_ffff_fffe 4 ≡ true) ↔ (
    (0xffff_ffff_ffff_fffe + 4 ≤ 0x1000)
    ⊎ (2 ^ 64 ≤ 0xffff_ffff_ffff_fffe + 4) × (0xffff_ffff_ffff_fffe + 4 ≤ 2 ^ 64 + 0x1000))
in_bounds_iff_example =
    in_bounds_iff 0x1000 0xffff_ffff_ffff_fffe 4 (omega arith) (omega arith) (omega arith)

wraps : in_bounds 0x1000 0xffff_ffff_ffff_fffe 4 ≡ true
unfolding in_bounds
wraps = refl

abbrev numbers : ℕ → ℕ
numbers a = 0x3020100 + 0x4040404 * a

across : fetch numbers 2 4 ≡ 2 ∷ 3 ∷ 0x10 ∷ 0x11 ∷ []
unfolding fetch fetch_words bytes_of
across = refl

-- The read goes on at address 0.
over_the_end : fetch numbers 0xffff_ffff_ffff_fffe 4 ≡ 0xf1 ∷ 0xf2 ∷ 0 ∷ 1 ∷ []
unfolding fetch fetch_words bytes_of
over_the_end = refl

fetch-bytes_from_example :
    fetch numbers 0xffff_ffff_ffff_fffe 4 ≡ bytes_from numbers 0xffff_ffff_ffff_fffe 4
fetch-bytes_from_example = fetch-bytes_from numbers 0xffff_ffff_ffff_fffe 4 (omega arith)
