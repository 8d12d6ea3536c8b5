-- ===== src/Fmu/Raised.antt =====
-- The interrupt flags of zena_fmu.h against the records that raise them.
use qbox_platform.Prelude.{
  not, bit_and, ℕ, zero, suc, ◌+◌, ◌≡◌, ◌∙◌, ap, sym, refl, arith, Bool, false, ◌&&◌, ◌||◌, List,
  ◌==◌,
}
use qbox_platform.Prelude.Bits.{bit, flag_lem, bit_cases}
use qbox_platform.Fmu.{
  is_non_critical_record, ctlr_non_critical, Config, Table, Lines, bank_count, record_count,
  is_critical_record, irq_record, irq_records, irq_banks, pending_irqs, reset_registers,
}
use qbox_platform.Fmu.Irqs.{IsConsistent, Event, run, run_from-IsConsistent}

-- What the two nested loops look for.
abbrev pub any_below : ℕ → ℕ → (ℕ → Bool) → Bool
any_below zero i test = false
any_below (suc n) i test = test i || any_below n (i + 1) test

abbrev pub raises_critical : Config → Table → Table → ℕ → ℕ → Bool
raises_critical c ctlr status bank index =
    bit (status bank index) 30 == 1 && is_critical_record c index && bit (ctlr bank index) 13 == 1

abbrev pub raises_non_critical : Config → Table → Table → ℕ → ℕ → Bool
raises_non_critical c ctlr status bank index =
    bit (status bank index) 30 == 1
    && is_non_critical_record c index
    && not (bit_and (ctlr bank index) ctlr_non_critical == 0)

-- What the records add to the flags that there were.
abbrev AreRaised : Lines → Bool → Bool → Lines → Type 0
AreRaised lines critical non_critical acc =
    (lines.critical ≡ (critical || acc.critical))
    × (lines.non_critical ≡ (non_critical || acc.non_critical))

irq_record-AreRaised :
    (c : Config) (ctlr status : Table) (bank index : ℕ) (acc : Lines)
    → AreRaised
        (irq_record c ctlr status bank index acc)
        (raises_critical c ctlr status bank index)
        (raises_non_critical c ctlr status bank index)
        acc
unfolding irq_record
irq_record-AreRaised c ctlr status bank index acc = ground (
  arith,
  flag_lem (status bank index) 30,
  flag_lem (ctlr bank index) 13,
  bit_cases (status bank index) 30,
  bit_cases (ctlr bank index) 13,
)

irq_records-AreRaised :
    (c : Config) (ctlr status : Table) (bank n index : ℕ) (acc : Lines)
    → AreRaised
        (irq_records c ctlr status bank n index acc)
        (any_below n index (raises_critical c ctlr status bank))
        (any_below n index (raises_non_critical c ctlr status bank))
        acc
unfolding irq_records
irq_records-AreRaised c ctlr status bank zero index acc = (refl, refl)
irq_records-AreRaised c ctlr status bank (suc n) index acc = ground (
  arith,
  irq_records-AreRaised c ctlr status bank n (index + 1) (irq_record c ctlr status bank index acc),
  irq_record-AreRaised c ctlr status bank index acc,
)

irq_banks-AreRaised :
    (c : Config) (ctlr status : Table) (n bank : ℕ) (acc : Lines)
    → AreRaised
        (irq_banks c ctlr status n bank acc)
        (any_below n bank (λ b. any_below (record_count c) 0 (raises_critical c ctlr status b)))
        (any_below n bank (λ b. any_below (record_count c) 0 (raises_non_critical c ctlr status b)))
        acc
unfolding irq_banks
irq_banks-AreRaised c ctlr status zero bank acc = (refl, refl)
irq_banks-AreRaised c ctlr status (suc n) bank acc = ground (
  arith,
  irq_banks-AreRaised c ctlr status n (bank + 1)
      (irq_records c ctlr status bank (record_count c) 0 acc),
  irq_records-AreRaised c ctlr status bank (record_count c) 0 acc,
)

or_false : (b : Bool) → (b || false) ≡ b
or_false b = ground arith

-- With no valid record the loops change nothing.
quiet_records :
    (c : Config) (ctlr : Table) (bank n index : ℕ) (acc : Lines)
    → irq_records c ctlr (λ b i. 0) bank n index acc ≡ acc
unfolding irq_records irq_record
quiet_records c ctlr bank zero index acc = refl
quiet_records c ctlr bank (suc n) index acc = quiet_records c ctlr bank n (index + 1) acc

quiet_banks :
    (c : Config) (ctlr : Table) (n bank : ℕ) (acc : Lines)
    → irq_banks c ctlr (λ b i. 0) n bank acc ≡ acc
unfolding irq_banks
quiet_banks c ctlr zero bank acc = refl
quiet_banks c ctlr (suc n) bank acc =
    rw (quiet_records c ctlr bank (record_count c) 0 acc) (quiet_banks c ctlr n (bank + 1) acc)

reset-IsConsistent : (c : Config) → IsConsistent c (reset_registers c)
unfolding reset_registers pending_irqs
reset-IsConsistent c = record {
  flags = sym (quiet_banks c (λ b i. c.default_ctlr) (bank_count c) 0 _);
}

-- After any accesses from the start, the critical interrupt is up exactly when some valid record
-- that is critical has its interrupt enabled, in some bank, and the non-critical one exactly when
-- some valid record that is not critical has one of its three interrupts enabled.
pub run-irqs :
    (c : Config) (es : List Event)
    → let s = run c (reset_registers c) es in
      (s.irqs.critical
        ≡ any_below
            (bank_count c)
            0
            (λ b. any_below (record_count c) 0 (raises_critical c s.ctlr s.status b)))
      × (s.irqs.non_critical
          ≡ any_below
              (bank_count c)
              0
              (λ b. any_below (record_count c) 0 (raises_non_critical c s.ctlr s.status b)))
unfolding pending_irqs
run-irqs c es =
    let s = run c (reset_registers c) es in
    let flags = (run_from-IsConsistent c (reset_registers c) es (reset-IsConsistent c)).flags in
    let (up, other) =
      irq_banks-AreRaised c s.ctlr s.status (bank_count c) 0
        (record { critical = false; non_critical = false }) in
    (
      ap (λ (l : Lines). l.critical) flags ∙ up ∙ or_false _,
      ap (λ (l : Lines). l.non_critical) flags ∙ other ∙ or_false _,
    )
