-- ===== src/Smmu/Acks.antt =====
-- The acknowledge registers of mmu720ae_core.cc.
use qbox_platform.Prelude.{
  ℕ, ◌+◌, ◌*◌, ◌%◌, ◌^◌, ◌≤◌, ◌<◌, ◌≡◌, ◌≢◌, ◌⊎◌, inl, ◌∙◌, sym, refl, arith, bit_and, bit_or, Bool,
  List, [], ◌∷◌,
}
use qbox_platform.Prelude.Bits.{bit_and-le, not_word}
use qbox_platform.RegFile.{RegBytes, zeroed, load32}
use qbox_platform.RegFile.Laws.{load32-store32_self, load32-store32_disjoint}
use qbox_platform.RegFile
use qbox_platform.Smmu.{
  Core, cr0, cr0ack, gbpa, irq_ctrl, irq_ctrlack, gerror, gerrorn, cmdq_prod, cmdq_cons, evtq_prod,
  page1_offset, reg_sz, cr0_implemented_mask, irq_ctrl_mask, gerror_evtq_abt_err, store32,
  event_queue_next_prod,
}
use qbox_platform.Smmu.Registers.{
  update_irq, invalidate_cached_translations, reset, store_gerror, record_event_queue_abort,
  complete_event_queue_write, write_cr0, write_irq_ctrl, write_cmdq_prod, write32,
}

-- A store shows in page 0 where it was made.
pub store32_self :
    (m : RegBytes) (o v : ℕ) → o + 4 ≤ reg_sz → v < 2 ^ 32 → load32 (store32 m o v) o ≡ v
unfolding store32
store32_self m o v h k = ground (
  arith,
  load32-store32_self m o v k,
  load32-store32_disjoint (RegFile.store32 m o v) (page1_offset + o) o v (inl (omega arith)),
)

-- And nowhere else in page 0.
pub store32_other :
    (m : RegBytes) (o v p : ℕ)
    → o % 4 ≡ 0
    → p % 4 ≡ 0
    → o ≢ p
    → p < reg_sz
    → load32 (store32 m o v) p ≡ load32 m p
unfolding store32
store32_other m o v p a b ne h =
    let apart : (p + 4 ≤ o) ⊎ (o + 4 ≤ p) = omega arith in
    ground (
      arith,
      load32-store32_disjoint m o p v apart,
      load32-store32_disjoint (RegFile.store32 m o v) (page1_offset + o) p v (inl (omega arith)),
    )

-- CR0ACK and IRQ_CTRLACK repeat the register that they acknowledge.
pub record IsAcked (m : RegBytes) : Type 0 where
  pub control : load32 m cr0ack ≡ load32 m cr0
  pub interrupt : load32 m irq_ctrlack ≡ load32 m irq_ctrl

store32-IsAcked :
    (m : RegBytes) (o v : ℕ)
    → o % 4 ≡ 0
    → o ≢ cr0
    → o ≢ cr0ack
    → o ≢ irq_ctrl
    → o ≢ irq_ctrlack
    → IsAcked m
    → IsAcked (store32 m o v)
store32-IsAcked m o v al a b c d h =
    let kept =
      λ (p : ℕ) (e : p % 4 ≡ 0) (ne : o ≢ p) (lt : p < reg_sz). store32_other m o v p al e ne lt in
    record {
      control =
          kept cr0ack (omega arith) b (omega arith)
          ∙ h.control
          ∙ sym (kept cr0 (omega arith) a (omega arith));
      interrupt =
          kept irq_ctrlack (omega arith) d (omega arith)
          ∙ h.interrupt
          ∙ sym (kept irq_ctrl (omega arith) c (omega arith));
    }

-- both registers of a pair are stored
paired :
    (m : RegBytes) (o p v : ℕ)
    → o % 4 ≡ 0
    → p % 4 ≡ 0
    → o ≢ p
    → o + 4 ≤ reg_sz
    → p + 4 ≤ reg_sz
    → v < 2 ^ 32
    → load32 (store32 (store32 m o v) p v) p ≡ load32 (store32 (store32 m o v) p v) o
paired m o p v a b ne lo hi k =
    store32_self (store32 m o v) p v hi k
    ∙ sym (
        store32_other (store32 m o v) p v o b a (λ e. ne (sym e)) (omega arith)
        ∙ store32_self m o v lo k)

other_twice :
    (m : RegBytes) (o o' v v' p : ℕ)
    → o % 4 ≡ 0
    → o' % 4 ≡ 0
    → p % 4 ≡ 0
    → o ≢ p
    → o' ≢ p
    → p < reg_sz
    → load32 (store32 (store32 m o v) o' v') p ≡ load32 m p
other_twice m o o' v v' p a b d ne ne' h =
    store32_other (store32 m o v) o' v' p b d ne' h ∙ store32_other m o v p a d ne h

control-IsAcked :
    (m : RegBytes) (v : ℕ) → v < 2 ^ 32 → IsAcked m → IsAcked (store32 (store32 m cr0 v) cr0ack v)
control-IsAcked m v k h =
    let kept = λ (p : ℕ) (e : p % 4 ≡ 0) (ne : cr0 ≢ p) (ne' : cr0ack ≢ p) (lt : p < reg_sz).
      other_twice m cr0 cr0ack v v p (omega arith) (omega arith) e ne ne' lt in
    record {
      control =
          paired m cr0 cr0ack v (omega arith) (omega arith) (omega arith) (omega arith)
            (omega arith) k;
      interrupt =
          kept irq_ctrlack (omega arith) (omega arith) (omega arith) (omega arith)
          ∙ h.interrupt
          ∙ sym (kept irq_ctrl (omega arith) (omega arith) (omega arith) (omega arith));
    }

interrupt-IsAcked :
    (m : RegBytes) (v : ℕ)
    → v < 2 ^ 32
    → IsAcked m
    → IsAcked (store32 (store32 m irq_ctrl v) irq_ctrlack (load32 (store32 m irq_ctrl v) irq_ctrl))
interrupt-IsAcked m v k h =
    let kept =
      λ (p : ℕ) (e : p % 4 ≡ 0) (ne : irq_ctrl ≢ p) (ne' : irq_ctrlack ≢ p) (lt : p < reg_sz).
        other_twice m irq_ctrl irq_ctrlack v v p (omega arith) (omega arith) e ne ne' lt in
    rw (store32_self m irq_ctrl v (omega arith) k) (record {
      control =
          kept cr0ack (omega arith) (omega arith) (omega arith) (omega arith)
          ∙ h.control
          ∙ sym (kept cr0 (omega arith) (omega arith) (omega arith) (omega arith));
      interrupt =
          paired m irq_ctrl irq_ctrlack v (omega arith) (omega arith) (omega arith) (omega arith)
            (omega arith) k;
    })

module _ (s : Core) (h : IsAcked s.regs) where
  write_cr0-IsAcked : (value : ℕ) → IsAcked (write_cr0 s value).regs
  unfolding write_cr0 invalidate_cached_translations
  write_cr0-IsAcked value =
      let implemented = bit_and value cr0_implemented_mask in
      let k : implemented < 2 ^ 32 =
        omega (arith, bit_and-le 32 value cr0_implemented_mask (omega arith)) in
      let after = control-IsAcked s.regs implemented k h in ground (arith, after)

  write_irq_ctrl-IsAcked : (value : ℕ) → IsAcked (write_irq_ctrl s value).regs
  unfolding write_irq_ctrl update_irq
  write_irq_ctrl-IsAcked value =
      interrupt-IsAcked s.regs (bit_and value irq_ctrl_mask)
        (omega (arith, bit_and-le 32 value irq_ctrl_mask (omega arith))) h

  store_gerror-IsAcked : (value : ℕ) → IsAcked (store_gerror s.regs value)
  unfolding store_gerror
  store_gerror-IsAcked value =
      store32-IsAcked (store32 s.regs gerror value) gerrorn _ (omega arith) (omega arith)
        (omega arith) (omega arith) (omega arith)
        (store32-IsAcked s.regs gerror value (omega arith) (omega arith) (omega arith) (omega arith)
          (omega arith) h)

  write_cmdq_prod-IsAcked : (value : ℕ) → IsAcked (write_cmdq_prod s value).regs
  unfolding write_cmdq_prod invalidate_cached_translations
  write_cmdq_prod-IsAcked value =
      store32-IsAcked (store32 s.regs cmdq_prod value) cmdq_cons value (omega arith) (omega arith)
        (omega arith) (omega arith) (omega arith)
        (store32-IsAcked s.regs cmdq_prod value (omega arith) (omega arith) (omega arith)
          (omega arith) (omega arith) h)

  -- A word write keeps CR0ACK equal to CR0, and IRQ_CTRLACK equal to IRQ_CTRL.
  pub write32-IsAcked : (offset value : ℕ) → offset % 4 ≡ 0 → IsAcked (write32 s offset value).regs
  unfolding write32 update_irq
  write32-IsAcked offset value al = ground (
    arith,
    write_cr0-IsAcked value,
    write_irq_ctrl-IsAcked value,
    write_cmdq_prod-IsAcked value,
    store_gerror-IsAcked (bit_and (load32 s.regs gerror) (not_word 32 value)),
    store32-IsAcked s.regs gbpa (bit_and value (not_word 32 (2 ^ 31))) (omega arith) (omega arith)
        (omega arith) (omega arith) (omega arith) h,
    store32-IsAcked s.regs offset value al,
  )

  -- So does the end of a write to the event queue, whether it succeeded or not.
  complete-IsAcked : (ok : Bool) → IsAcked (complete_event_queue_write s ok).regs
  unfolding complete_event_queue_write record_event_queue_abort update_irq
  complete-IsAcked ok = ground (
    arith,
    store_gerror-IsAcked (bit_or (load32 s.regs gerror) gerror_evtq_abt_err),
    store32-IsAcked s.regs evtq_prod (event_queue_next_prod s.regs) (omega arith) (omega arith)
        (omega arith) (omega arith) (omega arith) h,
  )

reset-IsAcked : (s : Core) → IsAcked (reset s).regs
unfolding reset store32 RegFile.store32 load32 zeroed
reset-IsAcked s = record { control = refl; interrupt = refl }

-- What happens to the registers: a word write from the bus, the end of an event's write to memory, a
-- reset.
pub data Step : Type 0 where
  word : ℕ → ℕ → Step
  completed : Bool → Step
  restarted : Step

abbrev pub step : Core → Step → Core
step s (word index value) = write32 s (index * 4) value
step s (completed ok) = complete_event_queue_write s ok
step s restarted = reset s

abbrev pub run : Core → List Step → Core
run s [] = s
run s (e ∷ es) = run (step s e) es

step-IsAcked : (s : Core) (e : Step) → IsAcked s.regs → IsAcked (step s e).regs
step-IsAcked s (word index value) h = write32-IsAcked s h (index * 4) value (omega arith)
step-IsAcked s (completed ok) h = complete-IsAcked s h ok
step-IsAcked s restarted h = reset-IsAcked s

run_from-IsAcked : (s : Core) (es : List Step) → IsAcked s.regs → IsAcked (run s es).regs
run_from-IsAcked s [] h = h
run_from-IsAcked s (e ∷ es) h = run_from-IsAcked (step s e) es (step-IsAcked s e h)

-- After any word writes, event completions and resets from a reset, the acknowledge registers repeat
-- the control registers.
pub run-IsAcked : (s : Core) (es : List Step) → IsAcked (run (reset s) es).regs
run-IsAcked s es = run_from-IsAcked (reset s) es (reset-IsAcked s)
