-- ===== src/Fanout/Delivery.antt =====
-- The levels that reset_fanout.h hands on.
use mathlib.Core.List.{append_assoc, append-nil}
use qbox_platform.Prelude.{
  ℕ, ◌≡◌, ◌∙◌, refl, sym, ap, arith, if_intro, if_split, Bool, true, false, List, [], ◌∷◌, ◌++◌,
}
use qbox_platform.Fanout.{
  Config, Fanout, initial, reset_in, emit_reset, Step, level, time, perform, run,
}

-- The levels of a history.
unfoldable pub levels : List Step → List Bool
levels [] = []
levels (level v ∷ xs) = v ∷ levels xs
levels (time ∷ xs) = levels xs

-- A list without the levels that repeat the one before, which is `previous` for the first.
unfoldable pub changes_from : Bool → List Bool → List Bool
changes_from previous [] = []
changes_from true (true ∷ vs) = changes_from true vs
changes_from true (false ∷ vs) = false ∷ changes_from false vs
changes_from false (true ∷ vs) = true ∷ changes_from true vs
changes_from false (false ∷ vs) = changes_from false vs

unfoldable pub changes : List Bool → List Bool
changes [] = []
changes (v ∷ vs) = v ∷ changes_from v vs

rest : Bool → Bool → List Bool → List Bool
rest false last vs = changes vs
rest true last vs = changes_from last vs

-- What was written, what waits, and what is to come.
total : Fanout → List Bool → List Bool
total s vs = (s.written ++ s.pending_resets) ++ rest s.have_last_reset s.last_reset vs

move : (w p cs : List Bool) (v : Bool) → (w ++ (p ++ (v ∷ []))) ++ cs ≡ (w ++ p) ++ (v ∷ cs)
move w p cs v =
    append_assoc w (p ++ (v ∷ [])) cs
    ∙ ap (λ xs. w ++ xs) (append_assoc p (v ∷ []) cs)
    ∙ sym (append_assoc w p (v ∷ cs))

-- A level, by what the module remembers.
total-reset_in :
    (c : Config) (t : ℕ) (p : List Bool) (l h n : Bool) (w : List Bool) (v : Bool) (vs : List Bool)
    → let s : Fanout = record {
      trace_count = t;
      pending_resets = p;
      last_reset = l;
      have_last_reset = h;
      notified = n;
      written = w;
    } in
      total (reset_in c s v) vs ≡ total s (v ∷ vs)
unfolding total rest reset_in changes changes_from
total-reset_in c t p l false n w v vs = move w p (changes_from v vs) v
total-reset_in c t p true true n w true vs = refl
total-reset_in c t p true true n w false vs = move w p (changes_from false vs) false
total-reset_in c t p false true n w true vs = move w p (changes_from true vs) true
total-reset_in c t p false true n w false vs = refl

total-emit_reset : (s : Fanout) (vs : List Bool) → total (emit_reset s) vs ≡ total s vs
unfolding total emit_reset
total-emit_reset s vs =
    ap (λ xs. xs ++ rest s.have_last_reset s.last_reset vs)
      (append-nil (s.written ++ s.pending_resets))

total-run : (c : Config) (s : Fanout) (xs : List Step) → total (run c s xs) [] ≡ total s (levels xs)
unfolding run levels perform
total-run c s [] = refl
total-run c s (level v ∷ xs) =
    total-run c (reset_in c s v) xs
    ∙ total-reset_in c s.trace_count s.pending_resets s.last_reset s.have_last_reset s.notified
        s.written v (levels xs)
total-run c s (time ∷ xs) =
    total-run c (perform c s time) xs
    ∙ if_intro (λ t. total t (levels xs) ≡ total s (levels xs)) s.notified
        (total-emit_reset s (levels xs)) refl

-- Without a pending event no level waits.
abbrev IsAwake : Fanout → Type 0
IsAwake s = s.notified ≡ false → s.pending_resets ≡ []

no_wait : (vs : List Bool) → true ≡ false → vs ≡ []
no_wait vs e = absurd (ground (arith, e))

run-IsAwake : (c : Config) (s : Fanout) (xs : List Step) → IsAwake s → IsAwake (run c s xs)
unfolding run perform reset_in emit_reset
run-IsAwake c s [] h = h
run-IsAwake c s (level v ∷ xs) h =
    run-IsAwake c (reset_in c s v) xs
      (if_intro IsAwake _ h (no_wait (s.pending_resets ++ (v ∷ []))))
run-IsAwake c s (time ∷ xs) h =
    run-IsAwake c (perform c s time) xs (if_intro IsAwake s.notified (λ e. refl) h)

rest_none : (h l : Bool) → rest h l [] ≡ []
unfolding rest changes changes_from
rest_none false l = refl
rest_none true l = refl

abbrev IsSettled : Fanout → Type 0
IsSettled s = s.pending_resets ≡ []

written_total : (s : Fanout) → IsSettled s → s.written ≡ total s []
unfolding total
written_total s e =
    rw (e, rest_none s.have_last_reset s.last_reset)
      (sym (append-nil (s.written ++ []) ∙ append-nil s.written))

-- Once time passes, every change of the level so far has been handed on, in order and once: what was
-- written is the history of the levels without the repetitions, and nothing waits.
pub time_delivers :
    (c : Config) (xs : List Step)
    → let s = perform c (run c initial xs) time in
      (s.written ≡ changes (levels xs)) × (s.pending_resets ≡ [])
unfolding perform rest total emit_reset
time_delivers c xs =
    let s = run c initial xs in
    let awake = run-IsAwake c initial xs (λ e. refl) in
    let quiet : IsSettled (perform c s time) = if_split IsSettled s.notified (λ e. refl) awake in
    let kept = if_intro (λ t. total t [] ≡ total s []) s.notified (total-emit_reset s []) refl in
    (written_total (perform c s time) quiet ∙ kept ∙ total-run c initial xs, quiet)
