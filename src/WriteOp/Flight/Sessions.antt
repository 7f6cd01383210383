-- ===== src/WriteOp/Flight/Sessions.antt =====
-- Whole histories of a controller (web/src/lib/api/writeOp.ts): any calls of the page, logins and
-- answers, in any order.
use mathlib.Core.Path.{subst}
use zte_u60_pro_mu5250_manag.Common.{
  ℕ, suc, ◌≤◌, ◌<◌, ◌≡◌, refl, sym, inl, inr, Bool, true, false, Option, none, some, List, [], ◌∷◌,
  filter, All, Bool-cases, ◌==◌, arith,
}
use zte_u60_pro_mu5250_manag.WriteOp.State.{WriteOpState}
use zte_u60_pro_mu5250_manag.WriteOp.Controller.{WriteOpConfig, Ctl, Mode, Task, task_run}
use zte_u60_pro_mu5250_manag.WriteOp.Session.{Session, spawn}
use zte_u60_pro_mu5250_manag.WriteOp.Flight.Facts.{Sound, Carries, Fits, ModeFits, Good}
use zte_u60_pro_mu5250_manag.WriteOp.Flight.Answers.{IsHeld}
use zte_u60_pro_mu5250_manag.WriteOp.Flight.Clicks.{live_phase, Acts}

-- The tasks of a run.
abbrev pub tasks_of : ℕ → List Task → List Task
tasks_of n ts = filter (λ t. task_run t == n) ts

-- What is in flight for the current run: requests, readbacks, probes and sleeps.
abbrev pub in_flight : Session → List Task
in_flight s = tasks_of s.ctl.state.run_id s.tasks

abbrev pub CarriesAll : Bool → Ctl → List Task → Type 0
CarriesAll loose c [] = Carries loose c none
CarriesAll loose c (t ∷ []) = Carries loose c (some t)
CarriesAll loose c (t ∷ u ∷ ts) = ⊥

pub record Inv (loose : Bool) (s : Session) : Type 0 where
  pub sound : Sound s.ctl
  pub held : IsHeld loose s.ctl
  pub old : All (λ t. task_run t ≤ s.ctl.state.run_id) s.tasks
  pub flight : CarriesAll loose s.ctl (in_flight s)

older : (n : ℕ) (ts : List Task) → All (λ t. suc (task_run t) ≤ n) ts → tasks_of n ts ≡ []
older n [] h = refl
older n (t ∷ ts) (h, hs) = ground (arith, older n ts hs)

pub older-le :
    (m n : ℕ) (ts : List Task) → m ≤ n → All (λ t. task_run t ≤ m) ts → All (λ t. task_run t ≤ n) ts
older-le m n [] h a = tt
older-le m n (t ∷ ts) h (a, as') = (omega arith, older-le m n ts h as')

older-lt :
    (m n : ℕ) (ts : List Task)
    → m < n
    → All (λ t. task_run t ≤ m) ts
    → All (λ t. suc (task_run t) ≤ n) ts
older-lt m n [] h a = tt
older-lt m n (t ∷ ts) h (a, as') = (omega arith, older-lt m n ts h as')

-- A task in flight puts the phase among the live ones.
mode-live_phase :
    (m : Mode) (k : WriteOpConfig) (s : WriteOpState) → ModeFits m k s → live_phase s.phase ≡ true
mode-live_phase Mode.wait k s p = ground arith
mode-live_phase Mode.reconfirm k s p = ground arith

Fits-live_phase :
    (t : Task) (s : WriteOpState) (c : Option WriteOpConfig)
    → Fits t s c
    → live_phase s.phase ≡ true
Fits-live_phase (Task.step_running k r i) s c f = ground arith
Fits-live_phase (Task.verify_running r a) s c f = ground arith
Fits-live_phase (Task.loop_sleeping l) s c f = mode-live_phase l.mode l.cfg s f.1
Fits-live_phase (Task.loop_probing l) s c f = mode-live_phase l.mode l.cfg s f.1
Fits-live_phase (Task.loop_verifying l) s c f = mode-live_phase l.mode l.cfg s f.0.1

pub nothing_live :
    (loose : Bool) (c : Ctl) (ts : List Task)
    → CarriesAll loose c ts
    → live_phase c.state.phase ≡ false
    → ts ≡ []
nothing_live loose c [] f h = refl
nothing_live loose c (t ∷ []) f h = absurd (ground (arith, Fits-live_phase t c.state c.cfg f.1))
nothing_live loose c (t ∷ u ∷ ts) f h = absurd f

-- The tasks after a call whose result begins a run, or finds none in flight.
pub tasks_after :
    (m n : ℕ) (ts : List Task)
    → m ≤ n
    → All (λ t. task_run t ≤ m) ts
    → (m ≡ n → tasks_of m ts ≡ [])
    → tasks_of n ts ≡ []
tasks_after m n ts h a same = elim (Bool-cases (m == n)) [
  | inl e ↦ let q : m ≡ n = ground arith in subst (λ x. tasks_of x ts ≡ []) q (same q)
  | inr ne ↦ older n ts (older-lt m n ts (ground arith) a)
]

-- A good result and no other task in flight make the invariant.
pub spawn-Inv :
    (loose : Bool) (ts : List Task) (c : Ctl) (o : Option Task)
    → Good loose (c, o)
    → IsHeld loose c
    → All (λ t. task_run t ≤ c.state.run_id) ts
    → tasks_of c.state.run_id ts ≡ []
    → Inv loose (spawn ts (c, o))
spawn-Inv loose ts c none g h a e = record {
  sound = g.0;
  held = h;
  old = a;
  flight = subst (CarriesAll loose c) (sym e) g.1;
}
spawn-Inv loose ts c (some t) g h a e =
    let only : t ∷ [] ≡ tasks_of c.state.run_id (t ∷ ts) = ground (arith, e, g.1.0) in
    record {
      sound = g.0;
      held = h;
      old = (omega (arith, g.1.0), a);
      flight = subst (CarriesAll loose c) only g.1;
    }

-- A call of the page.
pub Acts-Inv :
    (loose : Bool) (s : Session) (r : Ctl × Option Task)
    → Inv loose s
    → Acts loose s.ctl r
    → Inv loose (spawn s.tasks r)
Acts-Inv loose s r v (inl same) = subst (λ q. Inv loose (spawn s.tasks q)) (sym same) v
Acts-Inv loose s r v (inr (g, att, inl grows)) =
    spawn-Inv loose s.tasks r.0 r.1 g (ground (arith, v.held))
      (older-le s.ctl.state.run_id r.0.state.run_id s.tasks (omega arith) v.old)
      (tasks_after s.ctl.state.run_id r.0.state.run_id s.tasks (omega arith) v.old
        (λ q. absurd (omega arith)))
Acts-Inv loose s r v (inr (g, att, inr (quiet, le))) =
    spawn-Inv loose s.tasks r.0 r.1 g (ground (arith, v.held))
      (older-le s.ctl.state.run_id r.0.state.run_id s.tasks le v.old)
      (tasks_after s.ctl.state.run_id r.0.state.run_id s.tasks le v.old
        (λ q. nothing_live loose s.ctl (in_flight s) v.flight quiet))
