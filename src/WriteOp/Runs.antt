-- ===== src/WriteOp/Runs.antt =====
-- Runs of a write operation (web/src/lib/api/writeOp.ts): what a resubmission keeps, and what the
-- run number tells apart.
use zte_u60_pro_mu5250_manag.Common.{
  ℕ, zero, suc, ◌+◌, ◌≤◌, ◌≡◌, refl, ap, ◌⊎◌, true, false, not, Option, none, some, List, [], ◌∷◌,
  String, map, modify, filter, All, arith,
}
use zte_u60_pro_mu5250_manag.WriteOp.State.{
  StepStatus, StepState, WriteOpState, WriteOpEvent, is_submitting, is_done,
}
use zte_u60_pro_mu5250_manag.WriteOp.Reducer.{
  write_op_reducer, start_run, restart_step, confirm_step, doubt_step, with_status, with_error,
  summarize_steps,
}

abbrev pub labels : List StepState → List String
labels = map (λ x. x.label)

-- A change of the steps that keeps every label.
labels-map :
    (f : StepState → StepState)
    → ((x : StepState) → (f x).label ≡ x.label)
    → (xs : List StepState) → labels (map f xs) ≡ labels xs
labels-map f h [] = refl
labels-map f h (x ∷ xs) = ground (arith, h x, labels-map f h xs)

labels-modify :
    (f : StepState → StepState)
    → ((x : StepState) → (f x).label ≡ x.label)
    → (xs : List StepState) (i : ℕ) → labels (modify xs i f) ≡ labels xs
labels-modify f h [] i = refl
labels-modify f h (x ∷ xs) zero = ground (arith, h x)
labels-modify f h (x ∷ xs) (suc i) = ap (◌∷◌ x.label) (labels-modify f h xs i)

pub labels-with_status :
    (st : StepStatus) (xs : List StepState) (i : ℕ)
    → labels (modify xs i (with_status st)) ≡ labels xs
labels-with_status st xs i = labels-modify (with_status st) (λ x. refl) xs i

pub labels-with_error :
    (st : StepStatus) (m : Option String) (xs : List StepState) (i : ℕ)
    → labels (modify xs i (with_error st m)) ≡ labels xs
labels-with_error st m xs i = labels-modify (with_error st m) (λ x. refl) xs i

confirm_step-label : (x : StepState) → (confirm_step x).label ≡ x.label
confirm_step-label x = ground arith

doubt_step-label : (x : StepState) → (doubt_step x).label ≡ x.label
doubt_step-label x = ground arith

restart_step-label : (x : StepState) → (restart_step x).label ≡ x.label
restart_step-label x = ground arith

pub labels-confirm : (xs : List StepState) → labels (map confirm_step xs) ≡ labels xs
labels-confirm xs = labels-map confirm_step confirm_step-label xs

pub labels-doubt : (xs : List StepState) → labels (map doubt_step xs) ≡ labels xs
labels-doubt xs = labels-map doubt_step doubt_step-label xs

pub labels-restart : (xs : List StepState) → labels (map restart_step xs) ≡ labels xs
labels-restart xs = labels-map restart_step restart_step-label xs

-- Within a run, no event changes the tier or the labels of the steps, in number or in order.
pub run_keeps_steps :
    (s : WriteOpState) (e : WriteOpEvent)
    → (write_op_reducer s e).run_id ≡ s.run_id
    → ((write_op_reducer s e).tier ≡ s.tier)
      × (labels (write_op_reducer s e).steps ≡ labels s.steps)
unfolding write_op_reducer
run_keeps_steps s (WriteOpEvent.start tier ls) h = (ground arith, ground arith)
run_keeps_steps s WriteOpEvent.confirm h = (ground arith, ground arith)
run_keeps_steps s WriteOpEvent.cancel h = (ground arith, ground arith)
run_keeps_steps s (WriteOpEvent.step_start i) h =
    (ground arith, ground (arith, labels-with_error StepStatus.running none s.steps i))
run_keeps_steps s (WriteOpEvent.step_ok i) h =
    (ground arith, ground (arith, labels-with_status StepStatus.done s.steps i))
run_keeps_steps s (WriteOpEvent.step_error e) h = (
  ground arith,
  ground (
    arith,
    labels-with_status StepStatus.pending s.steps e.index,
    labels-with_error StepStatus.unconfirmed (some e.message) s.steps e.index,
    labels-with_error StepStatus.failed (some e.message) s.steps e.index,
  ),
)
run_keeps_steps s (WriteOpEvent.steps_done now v none) h = (ground arith, ground arith)
run_keeps_steps s (WriteOpEvent.steps_done now v (some w)) h = (ground arith, ground arith)
run_keeps_steps s (WriteOpEvent.probe ok) h = (ground arith, ground arith)
run_keeps_steps s (WriteOpEvent.back v) h = (ground arith, ground arith)
run_keeps_steps s (WriteOpEvent.verify_result ok) h =
    (ground arith, ground (arith, labels-confirm s.steps, labels-doubt s.steps))
run_keeps_steps s (WriteOpEvent.verify_error e) h = (ground arith, ground arith)
run_keeps_steps s (WriteOpEvent.wait_timeout r) h = (ground arith, ground arith)
run_keeps_steps s WriteOpEvent.login h = (ground arith, ground arith)
run_keeps_steps s WriteOpEvent.resubmit h = (ground arith, ground arith)
run_keeps_steps s WriteOpEvent.reset h = (ground arith, ground arith)

-- The run number never falls and grows by at most one.
pub run_id-reducer :
    (s : WriteOpState) (e : WriteOpEvent)
    → (s.run_id ≤ (write_op_reducer s e).run_id) × ((write_op_reducer s e).run_id ≤ s.run_id + 1)
unfolding write_op_reducer
run_id-reducer s (WriteOpEvent.start tier ls) = ground arith
run_id-reducer s (WriteOpEvent.steps_done now v none) = ground arith
run_id-reducer s (WriteOpEvent.steps_done now v (some w)) = ground arith
run_id-reducer s _ = ground arith

-- An event that makes the operation submit gives it a new run number, unless it confirms the
-- question that the same start has opened.
pub submitting_new_run :
    (s : WriteOpState) (e : WriteOpEvent)
    → is_submitting s.phase ≡ false
    → is_submitting (write_op_reducer s e).phase ≡ true
    → (e ≡ WriteOpEvent.confirm) ⊎ ((write_op_reducer s e).run_id ≡ s.run_id + 1)
unfolding write_op_reducer
submitting_new_run s (WriteOpEvent.start tier ls) h g = ground arith
submitting_new_run s (WriteOpEvent.steps_done now v none) h g = ground arith
submitting_new_run s (WriteOpEvent.steps_done now v (some w)) h g = ground arith
submitting_new_run s _ h g = ground arith

-- What a resubmission leaves of a step: done, or to be sent with no error shown.
abbrev pub IsRestarted : StepState → Type 0
IsRestarted x = (x.status ≡ StepStatus.done) ⊎ ((x.status ≡ StepStatus.pending) × (x.error ≡ none))

done_of-restart :
    (xs : List StepState)
    → labels (filter (λ x. is_done x.status) (map restart_step xs))
      ≡ labels (filter (λ x. is_done x.status) xs)
done_of-restart [] = refl
done_of-restart (x ∷ xs) = ground (arith, done_of-restart xs)

not_done_of-restart :
    (xs : List StepState)
    → labels (filter (λ x. not (is_done x.status)) (map restart_step xs))
      ≡ labels (filter (λ x. not (is_done x.status)) xs)
not_done_of-restart [] = refl
not_done_of-restart (x ∷ xs) = ground (arith, not_done_of-restart xs)

restart-IsRestarted : (xs : List StepState) → All IsRestarted (map restart_step xs)
restart-IsRestarted [] = tt
restart-IsRestarted (x ∷ xs) = (ground arith, restart-IsRestarted xs)

-- A new run of the same operation keeps the list of done steps and the list of steps not done,
-- in order, and makes every step that is not done pending again, without its error.
pub summarize_steps-start_run :
    (s : WriteOpState)
    → (summarize_steps (start_run s) ≡ summarize_steps s) × All IsRestarted (start_run s).steps
unfolding summarize_steps start_run
summarize_steps-start_run s = (
  ground (arith, done_of-restart s.steps, not_done_of-restart s.steps),
  restart-IsRestarted s.steps,
)
