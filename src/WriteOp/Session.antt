-- ===== src/WriteOp/Session.antt =====
-- What happens to a controller from outside (web/src/lib/api/writeOp.ts): the calls of the page,
-- logins, and the ends of what the async methods await, in any order.
use zte_u60_pro_mu5250_manag.Common.{ℕ, zero, suc, Option, none, some, List, [], ◌∷◌}
use zte_u60_pro_mu5250_manag.WriteOp.Controller.{WriteOpConfig, Ctl, new_ctl, Task, Outcome}
use zte_u60_pro_mu5250_manag.WriteOp.Controller
use zte_u60_pro_mu5250_manag.WriteOp.Resume.{resume}
use zte_u60_pro_mu5250_manag.WriteOp.Actions

-- A controller with what it awaits, the newest first.
pub record Session : Type 0 where
  pub ctl : Ctl
  pub tasks : List Task

abbrev pub new_session : Session
new_session = record { ctl = new_ctl; tasks = [] }

pub data Input : Type 0 where
  start : WriteOpConfig → Input
  confirm cancel resubmit reset login attach detach : Input
  -- What task number `k` awaits is over.
  settle : ℕ → Outcome → Input

abbrev pub add_task : Option Task → List Task → List Task
add_task none ts = ts
add_task (some t) ts = t ∷ ts

abbrev pub spawn : List Task → Ctl × Option Task → Session
spawn ts (c, t) = record { ctl = c; tasks = add_task t ts }

-- The task at an index and the others.
unfoldable pub take_task : ℕ → List Task → Option (Task × List Task)
take_task k [] = none
take_task zero (t ∷ ts) = some (t, ts)
take_task (suc k) (t ∷ ts) = elim (take_task k ts) [ none ↦ none | some (u, us) ↦ some (u, t ∷ us) ]

unfoldable pub settle_task : Session → ℕ → Outcome → ℕ → Session
unfolding take_task resume
settle_task s k o now = elim (take_task k s.tasks) [
  | none ↦ s
  | some (t, ts) ↦ spawn ts (resume t s.ctl o now)
]

-- One input at the browser time `now`.
unfoldable pub step : Session → ℕ × Input → Session
unfolding Actions.start Actions.confirm Actions.cancel Actions.resubmit Actions.reset
    Actions.handle_login Controller.attach Controller.detach settle_task
step s (now, Input.start k) = spawn s.tasks (Actions.start s.ctl k now)
step s (now, Input.confirm) = spawn s.tasks (Actions.confirm s.ctl now)
step s (now, Input.cancel) = spawn s.tasks (Actions.cancel s.ctl)
step s (now, Input.resubmit) = spawn s.tasks (Actions.resubmit s.ctl now)
step s (now, Input.reset) = spawn s.tasks (Actions.reset s.ctl)
step s (now, Input.login) = spawn s.tasks (Actions.handle_login s.ctl now)
step s (now, Input.attach) = record s { ctl = Controller.attach s.ctl }
step s (now, Input.detach) = record s { ctl = Controller.detach s.ctl }
step s (now, Input.settle k o) = settle_task s k o now

unfoldable pub run : Session → List (ℕ × Input) → Session
unfolding step
run s [] = s
run s (x ∷ xs) = run (step s x) xs
