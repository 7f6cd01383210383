-- ===== src/WriteOp/Flight/StepError.antt =====
-- What the invariant is after a step has thrown (web/src/lib/api/writeOp.ts, `stepError`).
use zte_u60_pro_mu5250_manag.Common.{
  ◌+◌, ◌≡◌, ◌≢◌, refl, inl, inr, true, false, Option, none, some, List, length, length-modify,
  length-map, modify, map, All, Bool-cases, ◌==◌, arith,
}
use mathlib.Core.Path.{subst, sym}
use zte_u60_pro_mu5250_manag.WriteOp.State.{
  Phase, StepStatus, ErrorKind, StepState, WaitTimes, WriteOpState, WriteOpEvent, StepFailure,
  is_tier1,
}
use zte_u60_pro_mu5250_manag.WriteOp.Reducer.{
  write_op_reducer, with_error, with_status, error_base, dropped_wait, done_elsewhere, on_dropped,
  on_refused, on_kind, start_run, restart_step,
}
use zte_u60_pro_mu5250_manag.WriteOp.Controller.{WriteOpConfig}
use zte_u60_pro_mu5250_manag.WriteOp.StepLists.{
  IsReady, IsCalm, Progress, Progress-end, Progress-drop_last, Ready-restart,
}
use zte_u60_pro_mu5250_manag.WriteOp.Flight.Facts.{Matches, Facts, Facts-as, Matches-length}

module _ (k : Option WriteOpConfig) (s : WriteOpState) (e : StepFailure) (m : Matches k s.steps)
    (g : Progress e.index s.steps) where
  abbrev marked : (StepState → StepState) → List StepState
  marked f = modify s.steps e.index f

  abbrev dropped_steps : List StepState
  dropped_steps = modify s.steps e.index (with_error StepStatus.unconfirmed (some e.message))

  marked-Matches : (f : StepState → StepState) → Matches k (modify s.steps e.index f)
  marked-Matches f = Matches-length k s.steps _ (length-modify s.steps e.index f) m

  dropped-Calm : All IsCalm dropped_steps
  dropped-Calm = Progress-end e.index s.steps _ (λ x h. cc) g

  -- The request was dropped and nothing waits for the device.
  unwaited-Facts :
      (x : WriteOpState)
      → ((done_elsewhere s.steps e.index ≡ true)
          → x ≡ record (error_base s e) { phase = Phase.partial; steps = dropped_steps })
      → ((done_elsewhere s.steps e.index ≡ false)
          → x ≡ record (error_base s e) { phase = Phase.unknown; steps = dropped_steps })
      → Facts x.phase x k × (x.phase ≢ Phase.submitting)
  unwaited-Facts x yes_partial no_partial = elim (Bool-cases (done_elsewhere s.steps e.index)) [
    | inl d ↦ (Facts-as k x _ (yes_partial d) (marked-Matches _), λ h. cc (yes_partial d))
    | inr d ↦
        (Facts-as k x _ (no_partial d) (marked-Matches _, dropped-Calm), λ h. cc (no_partial d))
  ]

  dropped-Facts :
      (w : Option WaitTimes)
      → Facts (on_dropped s e w).phase (on_dropped s e w) k
        × ((on_dropped s e w).phase ≢ Phase.submitting)
  unfolding on_dropped
  dropped-Facts none = unwaited-Facts (on_dropped s e none) (λ d. ground arith) (λ d. ground arith)
  dropped-Facts (some w) = elim (Bool-cases (e.index + 1 == length s.steps)) [
    | inr more ↦ unwaited-Facts (on_dropped s e (some w)) (λ d. ground arith) (λ d. ground arith)
    | inl last ↦ (
      Facts-as k (on_dropped s e (some w))
          (record (error_base s e) {
            phase = Phase.wait_device;
            steps = dropped_steps;
            wait = some (dropped_wait e.now w);
          })
          (ground arith)
          (
            marked-Matches _,
            Progress-drop_last e.index s.steps (some e.message) (ground arith) g,
            λ h. cc,
          ),
      λ h. ground arith,
    )
  ]

  refused-Facts :
      Facts (on_refused s e).phase (on_refused s e) k × ((on_refused s e).phase ≢ Phase.submitting)
  unfolding on_refused
  refused-Facts = elim (Bool-cases (done_elsewhere s.steps e.index)) [
    | inl d ↦ (
      Facts-as k (on_refused s e)
          (record (error_base s e) {
            phase = Phase.partial;
            steps = modify s.steps e.index (with_error StepStatus.failed (some e.message));
          })
          (ground arith) (marked-Matches _),
      λ h. ground arith,
    )
    | inr d ↦ (
      Facts-as k (on_refused s e)
          (record (error_base s e) {
            phase = Phase.failed;
            steps = modify s.steps e.index (with_error StepStatus.failed (some e.message));
          })
          (ground arith) (marked-Matches _),
      λ h. ground arith,
    )
  ]

  -- A new run of the same operation.
  abbrev IsNewRun : WriteOpState → Type 0
  IsNewRun x =
      x.phase ≡ Phase.submitting
      → (x.run_id ≡ s.run_id + 1) × Matches k x.steps × All IsReady x.steps

  not_new : (x : WriteOpState) → x.phase ≢ Phase.submitting → IsNewRun x
  not_new x h p = absurd (h p)

  -- The stale 401 of a tier 1 operation.
  restarted :
      (x : WriteOpState)
      → x ≡ start_run (record s { steps = modify s.steps e.index (with_status StepStatus.pending) })
      → Facts x.phase x k × IsNewRun x
  unfolding start_run
  restarted x eq =
      let ms : List StepState = modify s.steps e.index (with_status StepStatus.pending) in
      let mt =
        Matches-length k ms (map restart_step ms) (length-map ms restart_step)
          (marked-Matches (with_status StepStatus.pending)) in
      let next = start_run (record s { steps = ms }) in
      let ready = Ready-restart ms in
      (
        Facts-as k x next eq mt,
        λ p.
            subst
              (λ (q : WriteOpState).
                (q.run_id ≡ s.run_id + 1) × Matches k q.steps × All IsReady q.steps)
              (sym eq) (refl, mt, ready),
      )

  kind-Facts :
      (q : ErrorKind) → Facts (on_kind s e q).phase (on_kind s e q) k × IsNewRun (on_kind s e q)
  unfolding on_kind
  kind-Facts ErrorKind.unauthorized =
      ((marked-Matches _, λ h. cc), not_new (on_kind s e ErrorKind.unauthorized) (λ h. cc))
  kind-Facts ErrorKind.stale_unauthorized = elim (Bool-cases (is_tier1 s.tier)) [
    | inl t ↦ restarted (on_kind s e ErrorKind.stale_unauthorized) (ground arith)
    | inr t ↦ (
      Facts-as k (on_kind s e ErrorKind.stale_unauthorized)
          (record (error_base s e) {
            phase = Phase.resubmit_ready;
            steps = modify s.steps e.index (with_status StepStatus.pending);
          })
          (ground arith) (marked-Matches _),
      not_new (on_kind s e ErrorKind.stale_unauthorized) (λ h. ground arith),
    )
  ]
  kind-Facts ErrorKind.timeout =
      let (f, n) = dropped-Facts e.wait in (f, not_new (on_dropped s e e.wait) n)
  kind-Facts ErrorKind.network =
      let (f, n) = dropped-Facts e.wait in (f, not_new (on_dropped s e e.wait) n)
  kind-Facts ErrorKind.device = (refused-Facts.0, not_new (on_refused s e) refused-Facts.1)
  kind-Facts ErrorKind.mismatch = (refused-Facts.0, not_new (on_refused s e) refused-Facts.1)
  kind-Facts ErrorKind.busy = (refused-Facts.0, not_new (on_refused s e) refused-Facts.1)
  kind-Facts ErrorKind.other = (refused-Facts.0, not_new (on_refused s e) refused-Facts.1)

  pub step_error-Facts :
      s.phase ≡ Phase.submitting
      → Facts
          (write_op_reducer s (WriteOpEvent.step_error e)).phase
          (write_op_reducer s (WriteOpEvent.step_error e))
          k
        × IsNewRun (write_op_reducer s (WriteOpEvent.step_error e))
  unfolding write_op_reducer
  step_error-Facts p =
      let eq : write_op_reducer s (WriteOpEvent.step_error e) ≡ on_kind s e e.kind = ground arith in
      subst (λ (q : WriteOpState). Facts q.phase q k × IsNewRun q) (sym eq) (kind-Facts e.kind)
