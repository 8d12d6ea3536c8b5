-- ===== src/Gic/Masks.antt =====
-- The masked registers of the redistributors of gicx00_multiview.h.
use qbox_platform.Prelude.{
  ℕ, if_intro, if_split, ◌+◌, ◌%◌, ◌<◌, ◌≤◌, ◌≡◌, ◌≢◌, ◌⊎◌, ◌∙◌, inl, inr, refl, arith, bit_and,
  Bool, not, ◌&&◌, ◌||◌, Option, none, some, List, length, leb, ◌==◌, if◌then◌else◌, ℕ_discrete,
  dec_lt,
}
use qbox_platform.Prelude.Bits.{bit_and-le}
use qbox_platform.RegFile.{
  RegBytes, zeroed, load32, store32, store8, write_bytes, bytes_of, word_of,
}
use qbox_platform.RegFile.Laws.{write_bytes_frame}
use qbox_platform.Tlm.{Command, read, write, ignore, Payload}
use qbox_platform.Gic.{
  Config, Gic, reset_registers, redist_bytes, redist_count, gicr_pwrr, gicr_viewr, gicr_flushr,
  gicr_viewr_mask,
}
use qbox_platform.Gic.Access.{
  Outcome, is_supported_iviewr, is_iviewr_window, transfer, array_payload, access_array, no_iviewr,
  dist_array, dist_payload, access_dist, masked, mask_bytes, access_redist,
}

-- The power register reads as zero, and the view register as one of the four views.
abbrev pub IsMasked : RegBytes → Type 0
IsMasked m = (load32 m gicr_pwrr ≡ 0) × (load32 m gicr_viewr < 4)

-- A write of four bytes at a multiple of four.
abbrev pub IsWord : Payload → Type 0
IsWord p =
    (p.data_length ≡ 4) × (p.address % 4 ≡ 0) × ((bs : List ℕ) → p.bytes ≡ some bs → length bs ≡ 4)

load32-bytes_of : (m : RegBytes) (o v : ℕ) → v < 0x100 → load32 (write_bytes m o (bytes_of v)) o ≡ v
unfolding load32 write_bytes store8 bytes_of
load32-bytes_of m o v h = ground arith

outside : (o q k n : ℕ) → n ≡ 4 → k < 4 → (q + 4 ≤ o) ⊎ (o + 4 ≤ q) → (q + k < o) ⊎ (o + n ≤ q + k)
outside o q k n h lt (inl below) = inl (omega arith)
outside o q k n h lt (inr above) = inr (omega arith)

first : (o q n : ℕ) → n ≡ 4 → (q + 4 ≤ o) ⊎ (o + 4 ≤ q) → (q < o) ⊎ (o + n ≤ q)
first o q n h (inl below) = inl (omega arith)
first o q n h (inr above) = inr (omega arith)

apart : (o q : ℕ) → o % 4 ≡ 0 → q % 4 ≡ 0 → o ≢ q → (q + 4 ≤ o) ⊎ (o + 4 ≤ q)
apart o q h g e = elim (dec_lt q o) [ yes below ↦ inl (omega arith) | no p ↦ inr (omega arith) ]

load32-elsewhere :
    (m : RegBytes) (o q : ℕ) (bs : List ℕ)
    → length bs ≡ 4
    → (q + 4 ≤ o) ⊎ (o + 4 ≤ q)
    → load32 (write_bytes m o bs) q ≡ load32 m q
unfolding load32
load32-elsewhere m o q bs h clear = omega (
  arith,
  write_bytes_frame m o bs q (first o q (length bs) h clear),
  write_bytes_frame m o bs (q + 1) (outside o q 1 (length bs) h (omega arith) clear),
  write_bytes_frame m o bs (q + 2) (outside o q 2 (length bs) h (omega arith) clear),
  write_bytes_frame m o bs (q + 3) (outside o q 3 (length bs) h (omega arith) clear),
)

-- The bytes that a word write to a redistributor stores.
stored : ℕ → List ℕ → List ℕ
stored a bs =
    if a == gicr_pwrr || a == gicr_viewr || a == gicr_flushr
    then bytes_of (masked a (word_of bs))
    else bs

length-stored : (a : ℕ) (bs : List ℕ) → length bs ≡ 4 → length (stored a bs) ≡ 4
unfolding stored bytes_of
length-stored a bs h =
    if_split (λ (xs : List ℕ). length xs ≡ 4)
      (a == gicr_pwrr || a == gicr_viewr || a == gicr_flushr) (λ e. refl) (λ e. h)

-- A word at the power register, at the view register, and anywhere else.
stored-pwrr : (bs : List ℕ) → stored gicr_pwrr bs ≡ bytes_of 0
unfolding stored masked
stored-pwrr bs = refl

stored-viewr :
    (bs : List ℕ) → stored gicr_viewr bs ≡ bytes_of (bit_and (word_of bs) gicr_viewr_mask)
unfolding stored masked
stored-viewr bs = refl

write-IsMasked :
    (m : RegBytes) (a : ℕ) (bs : List ℕ)
    → a % 4 ≡ 0
    → length bs ≡ 4
    → IsMasked m
    → IsMasked (write_bytes m a (stored a bs))
write-IsMasked m a bs aligned four (power, view) =
    let four' = length-stored a bs four in
    elim (ℕ_discrete a gicr_pwrr) [
      | yes e ↦
          let at_view = load32-elsewhere m a gicr_viewr (stored a bs) four' (inr (omega arith)) in
          let at_power = load32-bytes_of m gicr_pwrr 0 (omega arith) in
          (rw (e, stored-pwrr bs) at_power, omega (arith, at_view))
      | no p ↦
          let at_power =
            load32-elsewhere m a gicr_pwrr (stored a bs) four' (apart a gicr_pwrr aligned refl p) in
          elim (ℕ_discrete a gicr_viewr) [
            | yes e ↦
                let v = bit_and (word_of bs) gicr_viewr_mask in
                let small : v ≤ 3 = bit_and-le 2 (word_of bs) 3 (omega arith) in
                let at_view = load32-bytes_of m gicr_viewr v (omega arith) in
                (at_power ∙ power, rw (e, stored-viewr bs) (omega (arith, at_view)))
            | no q ↦
                let at_view =
                  load32-elsewhere m a gicr_viewr (stored a bs) four'
                    (apart a gicr_viewr aligned refl q) in
                (at_power ∙ power, omega (arith, at_view))
          ]
    ]

abbrev MaskedResult : Outcome → Type 0
MaskedResult r = IsMasked r.0

-- An access to the registers of a redistributor, by the command and the payload's pointer.
array-IsMasked :
    (c : Config) (m : RegBytes) (n : ℕ) (p : Payload) (k : Command) (payload : Option (List ℕ))
    → p.command ≡ k
    → p.address % 4 ≡ 0
    → p.data_length ≡ 4
    → ((bs : List ℕ) → payload ≡ some bs → length bs ≡ 4)
    → IsMasked m
    → let after = mask_bytes p k payload in
      IsMasked (array_payload c redist_bytes m n (record p { bytes = after }) after).0
unfolding mask_bytes array_payload transfer stored
array-IsMasked c m n p read none e aligned word four h = h
array-IsMasked c m n p write none e aligned word four h = h
array-IsMasked c m n p ignore none e aligned word four h = h
array-IsMasked c m n p read (some bs) e aligned word four h =
    let p' = record p { bytes = some bs } in
    if_intro MaskedResult _ h (coe 1 0 (i. MaskedResult (transfer c m n p' (e i) bs)) h)
array-IsMasked c m n p ignore (some bs) e aligned word four h =
    let p' = record p { bytes = some bs } in
    if_intro MaskedResult _ h (coe 1 0 (i. MaskedResult (transfer c m n p' (e i) bs)) h)
array-IsMasked c m n p write (some bs) e aligned word four h =
    let masks = p.address == gicr_pwrr || p.address == gicr_viewr || p.address == gicr_flushr in
    let list =
      λ (len : ℕ). if len == 4 && masks then bytes_of (masked p.address (word_of bs)) else bs in
    let p' = record p { bytes = some (list p.data_length) } in
    let written = write-IsMasked m p.address bs aligned (four bs refl) h in
    if_intro MaskedResult _ h (
      coe 1 0 (i. MaskedResult (transfer c m n p' (e i) (list p.data_length)))
        (coe 1 0 (i. IsMasked (write_bytes m p.address (list (word i)))) written))

-- Accesses from reset: any to the distributor, words to a redistributor.
pub data Reach (c : Config) : Gic → Type 0 where
  start : Reach c reset_registers
  dist : {s : Gic} → Reach c s → (p : Payload) → Reach c (access_dist c s p).0
  redist :
      {s : Gic}
      → Reach c s
      → (index : ℕ) (p : Payload) → IsWord p
      → Reach c (access_redist c index s p).0

abbrev pub AllMasked : Gic → Type 0
AllMasked s = (index : ℕ) → IsMasked (s.redist_regs index)

reset-AllMasked : AllMasked reset_registers
unfolding reset_registers load32 store32 store8 zeroed
reset-AllMasked index = (refl, omega arith)

abbrev Kept : Gic × Payload × Bool → Type 0
Kept r = AllMasked r.0

redist-AllMasked :
    (c : Config) (s : Gic) (index : ℕ) (p : Payload)
    → IsWord p
    → AllMasked s
    → AllMasked (access_redist c index s p).0
unfolding access_redist access_array
redist-AllMasked c s index p (word, aligned, four) h =
    if_intro Kept (leb redist_count index) h (λ k.
      if_intro IsMasked (k == index)
        (array-IsMasked c (s.redist_regs index) s.trace_count p p.command p.bytes refl aligned word
          four (h index))
        (h k))

iviewr-AllMasked :
    (c : Config) (s : Gic) (p : Payload) (k : Command) → AllMasked s → Kept (no_iviewr c s p k)
unfolding no_iviewr
iviewr-AllMasked c s p read h = h
iviewr-AllMasked c s p write h = h
iviewr-AllMasked c s p ignore h = h

payload-AllMasked :
    (c : Config) (s : Gic) (p : Payload) (payload : Option (List ℕ))
    → AllMasked s
    → Kept (dist_payload c s p payload)
unfolding dist_payload dist_array
payload-AllMasked c s p none h = h
payload-AllMasked c s p (some bs) h = if_intro Kept (not (p.data_length == 4)) h (
    if_intro Kept (not (is_supported_iviewr p.address p.data_length))
      (iviewr-AllMasked c s p p.command h) h)

dist-AllMasked : (c : Config) (s : Gic) (p : Payload) → AllMasked s → Kept (access_dist c s p)
unfolding access_dist dist_array
dist-AllMasked c s p h =
    if_intro Kept (is_iviewr_window p.address) (payload-AllMasked c s p p.bytes h) h

-- After any accesses to the distributor and any accesses of words at multiples of four to the
-- redistributors, from reset, in each redistributor the power register reads as zero and the view
-- register is one of the four views.
pub Reach-AllMasked : (c : Config) (s : Gic) → Reach c s → AllMasked s
Reach-AllMasked c _ start = reset-AllMasked
Reach-AllMasked c _ (dist {s = s} r p) = dist-AllMasked c s p (Reach-AllMasked c s r)
Reach-AllMasked c _ (redist {s = s} r index p w) =
    redist-AllMasked c s index p w (Reach-AllMasked c s r)
