-- ===== src/WriteOp/Flight/Sending.antt =====
-- Which steps a run sends (web/src/lib/api/writeOp.ts, R10).
use zte_u60_pro_mu5250_manag.Common.{
  ℕ, zero, suc, ◌+◌, ◌≤◌, ◌<◌, ◌≡◌, ◌≢◌, refl, ◌∙◌, inl, inr, true, false, Option, none, some, List,
  [], ◌∷◌, get_elem?, length, map, Bool-cases, Option-cases, ◌==◌, arith,
}
use mathlib.Core.Path.{subst, sym}
use zte_u60_pro_mu5250_manag.WriteOp.State.{StepState, resubmittable, is_done}
use zte_u60_pro_mu5250_manag.WriteOp.Reducer.{write_op_reducer, start_run, restart_step}
use zte_u60_pro_mu5250_manag.WriteOp.Controller.{
  WriteOpConfig, Ctl, Task, Mode, step_done_at, finish_steps, steps_from, run_steps, run_verify,
  probe_loop, after_settle,
}
use zte_u60_pro_mu5250_manag.WriteOp.Actions.{resubmit}

-- A result that waits for no step.
abbrev NoStep : Ctl × Option Task → Type 0
NoStep r = (k : WriteOpConfig) (n i : ℕ) → r.1 ≢ some (Task.step_running k n i)

run_verify-NoStep : (c : Ctl) → NoStep (run_verify c)
unfolding run_verify
run_verify-NoStep c k n i h = ground arith

probe_loop-NoStep : (m : Mode) (c : Ctl) (now : ℕ) → NoStep (probe_loop m c now)
unfolding probe_loop
probe_loop-NoStep m c now k n i h = ground arith

finish_steps-NoStep :
    (k : WriteOpConfig) (r : ℕ) (c : Ctl) (now : ℕ) → NoStep (finish_steps k r c now)
unfolding finish_steps after_settle
finish_steps-NoStep k r c now j n i h = grind (arith, run_verify-NoStep, probe_loop-NoStep)

first_or_later :
    (c : Ctl) (i q m : ℕ)
    → step_done_at c i ≡ true
    → (i + 1 ≤ q → q < m → step_done_at c q ≡ true)
    → i ≤ q
    → q < m
    → step_done_at c q ≡ true
first_or_later c i q m d h a b = elim (Bool-cases (i == q)) [
  | inl e ↦ let eq : i ≡ q = ground arith in subst (λ x. step_done_at c x ≡ true) eq d
  | inr ne ↦ h (ground arith) b
]

-- The loop of `runSteps` sends the first step that is not done.
steps_from-sends :
    (k : WriteOpConfig) (r : ℕ) (c : Ctl) (now i left : ℕ) {j : WriteOpConfig} {n m : ℕ}
    → (steps_from k r c now i left).1 ≡ some (Task.step_running j n m)
    → (step_done_at c m ≡ false) × ((q : ℕ) → i ≤ q → q < m → step_done_at c q ≡ true)
unfolding steps_from
steps_from-sends k r c now i zero {j} {n} {m} h = absurd (finish_steps-NoStep k r c now j n m h)
steps_from-sends k r c now i (suc left) {j} {n} {m} h = elim (Bool-cases (step_done_at c i)) [
  | inr waits ↦
      let e : i ≡ m = ground arith in
      (subst (λ x. step_done_at c x ≡ false) e waits, λ q a b. absurd (omega arith))
  | inl done ↦
      let later : (steps_from k r c now (i + 1) left).1 ≡ some (Task.step_running j n m) =
        ground arith in
      let (undone, before) = steps_from-sends k r c now (i + 1) left later in
      (undone, λ q a b. first_or_later c i q m done (before q) a b)
]

-- A new run keeps which steps are done.
step_done_at-start_run :
    (c : Ctl) (xs : List StepState) (i : ℕ)
    → (elim (get_elem? (map restart_step xs) i) [ none ↦ false | some x ↦ is_done x.status ])
      ≡ (elim (get_elem? xs i) [ none ↦ false | some x ↦ is_done x.status ])
step_done_at-start_run c [] i = refl
step_done_at-start_run c (x ∷ xs) zero = ground arith
step_done_at-start_run c (x ∷ xs) (suc i) = step_done_at-start_run c xs i

resubmit_nothing :
    (c : Ctl) (now : ℕ) → resubmittable c.state.phase ≡ false → (resubmit c now).1 ≡ none
unfolding resubmit write_op_reducer
resubmit_nothing c now h = ground arith

resubmit_runs :
    (c : Ctl) (now : ℕ)
    → resubmittable c.state.phase ≡ true
    → (resubmit c now).1 ≢ none
    → resubmit c now ≡ run_steps (record c { state = start_run c.state }) now
unfolding resubmit write_op_reducer start_run
resubmit_runs c now h ne = ground arith

run_steps_sends :
    (c : Ctl) (now : ℕ) {k : WriteOpConfig} {n i : ℕ}
    → (run_steps c now).1 ≡ some (Task.step_running k n i)
    → (step_done_at c i ≡ false) × ((q : ℕ) → q < i → step_done_at c q ≡ true)
unfolding run_steps
run_steps_sends c now {k} {n} {i} h = elim (Option-cases c.cfg) [
  | inl e ↦ absurd (ground arith)
  | inr (j, e) ↦
      let sent : (steps_from j c.state.run_id c now 0 (length j.steps)).1
          ≡ some (Task.step_running k n i) =
        ground arith in
      let (undone, before) = steps_from-sends j c.state.run_id c now 0 (length j.steps) sent in
      (undone, λ q b. before q (omega arith) b)
]

-- Every step before an index is done.
abbrev pub DoneBelow : Ctl → ℕ → Type 0
DoneBelow c zero = Unit
DoneBelow c (suc i) = DoneBelow c i × (step_done_at c i ≡ true)

DoneBelow-of_all : (c : Ctl) (i : ℕ) → ((q : ℕ) → q < i → step_done_at c q ≡ true) → DoneBelow c i
DoneBelow-of_all c zero h = tt
DoneBelow-of_all c (suc i) h = (DoneBelow-of_all c i (λ q b. h q (omega arith)), h i (omega arith))

-- A resubmission never sends a step that is done: what it sends is the first step that is not,
-- all steps before it being done.
pub resubmit_sends_undone :
    (c : Ctl) (now : ℕ) (k : WriteOpConfig) (n i : ℕ)
    → (resubmit c now).1 ≡ some (Task.step_running k n i)
    → (step_done_at c i ≡ false) × DoneBelow c i
unfolding start_run
resubmit_sends_undone c now k n i h = elim (Bool-cases (resubmittable c.state.phase)) [
  | inr other ↦ absurd (ground (arith, resubmit_nothing c now other))
  | inl can ↦
      let d : Ctl = record c { state = start_run c.state } in
      let eq = resubmit_runs c now can (λ e. ground arith) in
      let sent : (run_steps d now).1 ≡ some (Task.step_running k n i) = ground arith in
      let (undone, before) = run_steps_sends d now sent in
      (
        sym (step_done_at-start_run c c.state.steps i) ∙ undone,
        DoneBelow-of_all c i (λ q b. sym (step_done_at-start_run c c.state.steps q) ∙ before q b),
      )
]
