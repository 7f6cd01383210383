-- ===== src/WriteOp/Consent.antt =====
-- What makes the reducer of web/src/lib/api/writeOp.ts submit, and what a running submission
-- ignores.
use zte_u60_pro_mu5250_manag.Common.{
  ℕ, ◌≡◌, ◌≢◌, ◌⊎◌, inl, inr, true, false, none, some, List, String, arith,
}
use zte_u60_pro_mu5250_manag.WriteOp.State.{
  Tier, Phase, WriteOpState, WriteOpEvent, busy_phase, resubmittable, is_submitting,
  is_reading_back,
}
use zte_u60_pro_mu5250_manag.WriteOp.Reducer.{write_op_reducer, was_dropped}

-- The two clicks that may send a write of tier 2 or 3.
pub data IsClick (s : WriteOpState) : WriteOpEvent → Type 0 where
  confirmed : s.phase ≡ Phase.confirming → IsClick s WriteOpEvent.confirm
  resubmitted : resubmittable s.phase ≡ true → IsClick s WriteOpEvent.resubmit

-- When an event makes an operation of tier 2 or 3 submit, or begins a new run of one that submits
-- already, it is the confirmation of a shown question, or a resubmission of a partial, failed or
-- ready operation: never a start, a login or an answer.
pub submitting-IsClick :
    (s : WriteOpState) (e : WriteOpEvent)
    → (is_submitting s.phase ≡ false) ⊎ ((write_op_reducer s e).run_id ≢ s.run_id)
    → is_submitting (write_op_reducer s e).phase ≡ true
    → (write_op_reducer s e).tier ≢ Tier.tier1
    → IsClick s e
unfolding write_op_reducer
submitting-IsClick s (WriteOpEvent.start tier labels) h g t = absurd (ground arith)
submitting-IsClick s WriteOpEvent.confirm h g t = confirmed (ground arith)
submitting-IsClick s WriteOpEvent.cancel h g t = absurd (ground arith)
submitting-IsClick s (WriteOpEvent.step_start i) h g t = absurd (ground arith)
submitting-IsClick s (WriteOpEvent.step_ok i) h g t = absurd (ground arith)
submitting-IsClick s (WriteOpEvent.step_error e) h g t = absurd (ground arith)
submitting-IsClick s (WriteOpEvent.steps_done now v w) h g t = absurd (ground arith)
submitting-IsClick s (WriteOpEvent.probe ok) h g t = absurd (ground arith)
submitting-IsClick s (WriteOpEvent.back v) h g t = absurd (ground arith)
submitting-IsClick s (WriteOpEvent.verify_result ok) h g t = absurd (ground arith)
submitting-IsClick s (WriteOpEvent.verify_error e) h g t = absurd (ground arith)
submitting-IsClick s (WriteOpEvent.wait_timeout r) h g t = absurd (ground arith)
submitting-IsClick s WriteOpEvent.login h g t = absurd (ground arith)
submitting-IsClick s WriteOpEvent.resubmit h g t = resubmitted (ground arith)
submitting-IsClick s WriteOpEvent.reset h g t = absurd (ground arith)

-- The events that the page or a login raises, all but `reset`.
pub data IsUser : WriteOpEvent → Type 0 where
  starts : (t : Tier) (labels : List String) → IsUser (WriteOpEvent.start t labels)
  confirms : IsUser WriteOpEvent.confirm
  cancels : IsUser WriteOpEvent.cancel
  resubmits : IsUser WriteOpEvent.resubmit
  logs_in : IsUser WriteOpEvent.login

-- While a submission is in flight (submitting, verifying or waiting for the device) no click but
-- a reset, and no login, changes anything: a double submit is ignored.
pub busy_ignores :
    (s : WriteOpState) {e : WriteOpEvent}
    → busy_phase s.phase ≡ true
    → IsUser e
    → write_op_reducer s e ≡ s
unfolding write_op_reducer
busy_ignores s h (starts t labels) = ground arith
busy_ignores s h confirms = ground arith
busy_ignores s h cancels = ground arith
busy_ignores s h resubmits = ground arith
busy_ignores s h logs_in = ground arith

-- An operation becomes applied only by a readback that shows the change.
pub applied_by :
    (s : WriteOpState) (e : WriteOpEvent)
    → s.phase ≢ Phase.applied
    → (write_op_reducer s e).phase ≡ Phase.applied
    → (e ≡ WriteOpEvent.verify_result true) × (is_reading_back s.phase ≡ true)
unfolding write_op_reducer
applied_by s (WriteOpEvent.verify_result ok) h g = ground arith
applied_by s (WriteOpEvent.steps_done now v none) h g = ground arith
applied_by s (WriteOpEvent.steps_done now v (some w)) h g = ground arith
applied_by s _ h g = ground arith

-- An operation becomes accepted only when no readback is configured: when all steps were answered
-- and no wait was asked for, or when the device is back after a wait whose last request was
-- answered.
pub accepted_by :
    (s : WriteOpState) (e : WriteOpEvent)
    → s.phase ≢ Phase.accepted
    → (write_op_reducer s e).phase ≡ Phase.accepted
    → ((now : ℕ) × (e ≡ WriteOpEvent.steps_done now false none) × (s.phase ≡ Phase.submitting))
      ⊎ ((e ≡ WriteOpEvent.back false)
          × (s.phase ≡ Phase.wait_device)
          × (was_dropped s.wait ≡ false))
unfolding write_op_reducer
accepted_by s (WriteOpEvent.steps_done now v none) h g = inl (now, ground arith, ground arith)
accepted_by s (WriteOpEvent.steps_done now v (some w)) h g = absurd (ground arith)
accepted_by s (WriteOpEvent.back v) h g = inr (ground arith, ground arith, ground arith)
accepted_by s _ h g = absurd (ground arith)
