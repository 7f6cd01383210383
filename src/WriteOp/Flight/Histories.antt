-- ===== src/WriteOp/Flight/Histories.antt =====
-- The invariant over histories of a controller (web/src/lib/api/writeOp.ts), and what it gives:
-- one task in flight, none forgotten, and no success with a step left.
use mathlib.Core.Path.{subst}
use zte_u60_pro_mu5250_manag.Common.{
  ℕ, zero, suc, ◌≤◌, ◌≡◌, ◌≢◌, refl, sym, ◌⊎◌, inl, inr, Bool, true, false, none, some, List, [],
  ◌∷◌, All, Bool-cases, Option-cases, leb, ◌==◌, arith,
}
use zte_u60_pro_mu5250_manag.WriteOp.Controller.{Ctl, Task, Outcome, task_run}
use zte_u60_pro_mu5250_manag.WriteOp.Resume.{resume, probe_answer}
use zte_u60_pro_mu5250_manag.WriteOp.Session.{Session, Input, spawn, take_task}
use zte_u60_pro_mu5250_manag.WriteOp.Flight.Facts.{Sound, Carries, Good}
use zte_u60_pro_mu5250_manag.WriteOp.Flight.Answers.{
  IsHeld, is_second_stale, resume_step-Good, resume_verify-Good,
}
use zte_u60_pro_mu5250_manag.WriteOp.Flight.Loops.{
  resume_sleep-Good, resume_probe-Good, resume_loop_verify-Good,
}
use zte_u60_pro_mu5250_manag.WriteOp.Flight.Numbers.{resume-Grows, resume_stale}
use zte_u60_pro_mu5250_manag.WriteOp.Flight.Sessions.{
  Inv, CarriesAll, tasks_of, in_flight, spawn-Inv, tasks_after, older-le,
}

-- The answer that `runVerify` does not handle: a second stale 401 in a row.
abbrev pub gives_up : Task → Outcome → Bool
gives_up (Task.verify_running r a) o = is_second_stale a o
gives_up _ o = false

resume-Good :
    (loose : Bool) (t : Task) (c : Ctl) (o : Outcome) (now : ℕ)
    → IsHeld loose c
    → Carries loose c (some t)
    → (loose ≡ true) ⊎ (gives_up t o ≡ false)
    → Sound c
    → Good loose (resume t c o now)
unfolding resume
resume-Good loose (Task.step_running k r i) c o now h (er, (e, p, g)) u f =
    resume_step-Good loose k r i c o now h er e p g f
resume-Good loose (Task.verify_running r a) c o now h (er, p) u f =
    resume_verify-Good loose r a c o now h er p u f
resume-Good loose (Task.loop_sleeping l) c o now h (er, g) u f =
    resume_sleep-Good loose l c now h er g f
resume-Good loose (Task.loop_probing l) c o now h (er, g) u f =
    resume_probe-Good loose l c (probe_answer o) h er g f
resume-Good loose (Task.loop_verifying l) c o now h (er, (g, v)) u f =
    resume_loop_verify-Good loose l c o h er g v f

module _ (P : Task → Type 0) where
  take_task-All :
      (k : ℕ) (ts : List Task) (t : Task) (us : List Task)
      → take_task k ts ≡ some (t, us)
      → All P ts
      → P t × All P us
  unfolding take_task
  take_task-All k [] t us e a = cc
  take_task-All zero (x ∷ xs) t us e (p, ps) =
      let q : x ≡ t = cc e in let r : xs ≡ us = cc e in (subst P q p, subst (All P) r ps)
  take_task-All (suc k) (x ∷ xs) t us e (p, ps) = elim (Option-cases (take_task k xs)) [
    | inl n ↦ absurd (ground arith)
    | inr ((u, vs), s) ↦
        let (pu, pvs) = take_task-All k xs u vs s ps in
        let q : u ≡ t = ground arith in
        let r : x ∷ vs ≡ us = ground arith in (subst P q pu, subst (All P) r (p, pvs))
  ]

module _ (n : ℕ) where
  take_of_none :
      (k : ℕ) (ts : List Task) (t : Task) (us : List Task)
      → take_task k ts ≡ some (t, us)
      → tasks_of n ts ≡ []
      → (task_run t ≢ n) × (tasks_of n us ≡ [])
  unfolding take_task
  take_of_none k [] t us e a = cc
  take_of_none zero (x ∷ xs) t us e a = (λ q. ground arith, ground arith)
  take_of_none (suc k) (x ∷ xs) t us e a = elim (Option-cases (take_task k xs)) [
    | inl q ↦ absurd (ground arith)
    | inr ((u, vs), s) ↦
        let rest : tasks_of n xs ≡ [] = ground arith in
        let (ne, empty) = take_of_none k xs u vs s rest in (λ q. ground (arith, ne), ground arith)
  ]

  take_of_one :
      (k : ℕ) (ts : List Task) (t : Task) (us : List Task) (w : Task)
      → take_task k ts ≡ some (t, us)
      → tasks_of n ts ≡ w ∷ []
      → ((task_run t ≡ n) × (w ≡ t) × (tasks_of n us ≡ []))
        ⊎ ((task_run t ≢ n) × (tasks_of n us ≡ w ∷ []))
  unfolding take_task
  take_of_one k [] t us w e a = cc
  take_of_one zero (x ∷ xs) t us w e a = elim (Bool-cases (task_run x == n)) [
    | inl live ↦ inl (ground arith, ground arith, ground arith)
    | inr dead ↦ inr (λ q. ground arith, ground arith)
  ]
  take_of_one (suc k) (x ∷ xs) t us w e a = elim (Option-cases (take_task k xs)) [
    | inl q ↦ absurd (ground arith)
    | inr ((u, vs), s) ↦ elim (Bool-cases (task_run x == n)) [
      | inl live ↦
          let rest : tasks_of n xs ≡ [] = ground arith in
          let (ne, empty) = take_of_none k xs u vs s rest in
          inr (λ q. ground (arith, ne), ground arith)
      | inr dead ↦
          let rest : tasks_of n xs ≡ w ∷ [] = ground arith in
          ground (arith, take_of_one k xs u vs w s rest)
    ]
  ]

-- What is known of a task that is taken out.
taken :
    (loose : Bool) (c : Ctl) (k : ℕ) (ts : List Task) (t : Task) (us : List Task) (fs : List Task)
    → take_task k ts ≡ some (t, us)
    → tasks_of c.state.run_id ts ≡ fs
    → CarriesAll loose c fs
    → (Carries loose c (some t) × (tasks_of c.state.run_id us ≡ []))
      ⊎ ((task_run t ≢ c.state.run_id) × (tasks_of c.state.run_id us ≡ fs))
taken loose c k ts t us [] e a f = inr (take_of_none c.state.run_id k ts t us e a)
taken loose c k ts t us (w ∷ []) e a f = elim (take_of_one c.state.run_id k ts t us w e a) [
  | inl (l, q, n) ↦ inl (subst (λ x. Carries loose c (some x)) q f, n)
  | inr (d, n) ↦ inr (d, n)
]
taken loose c k ts t us (w ∷ v ∷ fs) e a f = absurd f

-- The end of a task keeps the invariant.
pub settled-Inv :
    (loose : Bool) (s : Session) (k : ℕ) (o : Outcome) (now : ℕ) (t : Task) (us : List Task)
    → take_task k s.tasks ≡ some (t, us)
    → (loose ≡ true) ⊎ (gives_up t o ≡ false)
    → Inv loose s
    → Inv loose (spawn us (resume t s.ctl o now))
settled-Inv loose s k o now t us e u v =
    let c = s.ctl in
    let r = resume t c o now in
    let (grows, att) = resume-Grows t c o now in
    let olds = (take_task-All (λ x. task_run x ≤ c.state.run_id) k s.tasks t us e v.old).1 in
    elim (taken loose c k s.tasks t us (in_flight s) e refl v.flight) [
      | inl (live, alone) ↦
          spawn-Inv loose us r.0 r.1 (resume-Good loose t c o now v.held live u v.sound)
            (ground (arith, v.held)) (older-le c.state.run_id r.0.state.run_id us grows olds)
            (tasks_after c.state.run_id r.0.state.run_id us grows olds (λ q. alone))
      | inr (dead, same) ↦
          subst (λ q. Inv loose (spawn us q)) (sym (resume_stale t c o now dead))
            (record {
              sound = v.sound;
              held = v.held;
              old = olds;
              flight = subst (CarriesAll loose c) (sym same) v.flight;
            })
    ]

-- The inputs after which the page no longer waits for what it sent: the last `detach`, and a
-- readback that `runVerify` gives up.
unfoldable pub lets_go : Session → ℕ × Input → Bool
unfolding take_task
lets_go s (now, Input.detach) = leb s.ctl.attached 1
lets_go s (now, Input.settle k o) = elim (take_task k s.tasks) [
  | none ↦ false
  | some (t, us) ↦ gives_up t o
]
lets_go s _ = false
