-- ===== src/Smmu/Events.antt =====
-- Recording an event of mmu720ae_core.cc, on the registers.
use native.Mathlib.Nat.{pow-le-pow_right, mod-lt}
use qbox_platform.Prelude.{ℕ, suc, ◌+◌, ◌^◌, ◌≤◌, ◌<◌, ◌≡◌, refl, arith, true, false}
use qbox_platform.Prelude.Bits.{pow_pos}
use qbox_platform.RegFile.{RegBytes, load32}
use qbox_platform.Smmu.{
  Core, evtq_base, evtq_prod, evtq_cons, load64, store32, event_queue_log2_entries,
  event_queue_configured, event_queue_full, event_queue_next_prod, next_pointer,
}
use qbox_platform.Smmu.Registers.{update_irq, complete_event_queue_write}
use qbox_platform.Smmu.Acks.{store32_self, store32_other}
use qbox_platform.Smmu.Queue.{Holds, next_pointer-Holds, next_pointer_lem, is_full_iff}

configured_log2 : (m : RegBytes) → event_queue_configured m ≡ true → event_queue_log2_entries m < 31
unfolding event_queue_configured
configured_log2 m h = ground arith

room :
    (m : RegBytes) (n : ℕ)
    → event_queue_configured m ≡ true
    → event_queue_full m ≡ false
    → Holds (event_queue_log2_entries m) (load32 m evtq_prod) (load32 m evtq_cons) n
    → n < 2 ^ event_queue_log2_entries m
unfolding event_queue_full
room m n c f h =
    ground (
      arith,
      is_full_iff (event_queue_log2_entries m) (load32 m evtq_prod) (load32 m evtq_cons) n h,
    )

base_kept : (m : RegBytes) (v : ℕ) → load64 (store32 m evtq_prod v) evtq_base ≡ load64 m evtq_base
unfolding load64
base_kept m v =
    rw
      (
        store32_other m evtq_prod v evtq_base (omega arith) (omega arith) (omega arith)
            (omega arith),
        store32_other m evtq_prod v (evtq_base + 4) (omega arith) (omega arith) (omega arith)
            (omega arith),
      )
      refl

next_lt : (k p : ℕ) → k < 31 → next_pointer k p < 2 ^ 32
next_lt k p h =
    let top : 2 ^ suc k ≤ 2 ^ 31 = pow-le-pow_right (omega arith) h in
    omega (arith, next_pointer_lem k p, mod-lt (p + 1) (pow_pos (suc k)), top)

module _ (s : Core) (n : ℕ) where
  -- An event that is written to a queue with room is in it: the queue keeps its place and size, and
  -- holds one event more, which is no more than it has entries.
  pub event_recorded :
      event_queue_configured s.regs ≡ true
      → event_queue_full s.regs ≡ false
      → Holds
          (event_queue_log2_entries s.regs)
          (load32 s.regs evtq_prod)
          (load32 s.regs evtq_cons)
          n
      → let m = (complete_event_queue_write s true).regs in
        (load64 m evtq_base ≡ load64 s.regs evtq_base)
        × Holds (event_queue_log2_entries m) (load32 m evtq_prod) (load32 m evtq_cons) (n + 1)
  unfolding complete_event_queue_write update_irq event_queue_log2_entries event_queue_next_prod
  event_recorded c f h =
      let k = event_queue_log2_entries s.regs in
      let next = next_pointer k (load32 s.regs evtq_prod) in
      let small : next < 2 ^ 32 = next_lt k (load32 s.regs evtq_prod) (configured_log2 s.regs c) in
      rw
        (
          base_kept s.regs next,
          store32_self s.regs evtq_prod next (omega arith) small,
          store32_other s.regs evtq_prod next evtq_cons (omega arith) (omega arith) (omega arith)
              (omega arith),
        )
        (
          refl,
          next_pointer-Holds k (load32 s.regs evtq_prod) (load32 s.regs evtq_cons) n
              (room s.regs n c f h) h,
        )
