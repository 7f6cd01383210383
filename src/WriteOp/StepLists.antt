-- ===== src/WriteOp/StepLists.antt =====
-- How far a run of a write operation has come, read off the statuses of its steps
-- (web/src/lib/api/writeOp.ts).
use zte_u60_pro_mu5250_manag.Common.{
  ℕ, zero, suc, ◌+◌, ◌≤◌, ◌≡◌, ◌≢◌, refl, ◌⊎◌, inl, inr, true, false, Option, some, List, [], ◌∷◌,
  String, map, modify, length, get_elem?, any, All, arith,
}
use zte_u60_pro_mu5250_manag.WriteOp.State.{StepStatus, StepState, is_done}
use zte_u60_pro_mu5250_manag.WriteOp.Reducer.{
  restart_step, fresh_step, confirm_step, with_status, with_error,
}
use zte_u60_pro_mu5250_manag.WriteOp.Controller.{is_pending_or_failed}

abbrev pub IsDone : StepState → Type 0
IsDone x = x.status ≡ StepStatus.done

abbrev pub IsReady : StepState → Type 0
IsReady x = (x.status ≡ StepStatus.done) ⊎ (x.status ≡ StepStatus.pending)

abbrev pub IsSettled : StepState → Type 0
IsSettled x = (x.status ≡ StepStatus.done) ⊎ (x.status ≡ StepStatus.unconfirmed)

-- No step is running.
abbrev pub IsCalm : StepState → Type 0
IsCalm x = x.status ≢ StepStatus.running

-- The steps before an index are done, the others done or pending.
abbrev pub Upto : ℕ → List StepState → Type 0
Upto zero xs = All IsReady xs
Upto (suc i) [] = ⊥
Upto (suc i) (x ∷ xs) = IsDone x × Upto i xs

-- The step at an index is running, those before it are done, the others done or pending.
abbrev pub Progress : ℕ → List StepState → Type 0
Progress i [] = ⊥
Progress zero (x ∷ xs) = (x.status ≡ StepStatus.running) × All IsReady xs
Progress (suc i) (x ∷ xs) = IsDone x × Progress i xs

pub Ready-restart : (xs : List StepState) → All IsReady (map restart_step xs)
Ready-restart [] = tt
Ready-restart (x ∷ xs) = (ground arith, Ready-restart xs)

pub Ready-fresh : (ls : List String) → All IsReady (map fresh_step ls)
Ready-fresh [] = tt
Ready-fresh (l ∷ ls) = (inr refl, Ready-fresh ls)

pub Upto-All-IsDone : (i : ℕ) (xs : List StepState) → i ≡ length xs → Upto i xs → All IsDone xs
Upto-All-IsDone zero [] e u = tt
Upto-All-IsDone zero (x ∷ xs) e u = absurd (omega arith)
Upto-All-IsDone (suc i) [] e u = absurd u
Upto-All-IsDone (suc i) (x ∷ xs) e (d, u) = (d, Upto-All-IsDone i xs (omega arith) u)

-- A done step at the front of the loop is passed over.
pub Upto-skip :
    (i : ℕ) (xs : List StepState) {x : StepState}
    → Upto i xs
    → get_elem? xs i ≡ some x
    → is_done x.status ≡ true
    → Upto (suc i) xs
Upto-skip zero [] u g d = cc
Upto-skip zero (x ∷ xs) u g d = (ground arith, u.1)
Upto-skip (suc i) [] u g d = absurd u
Upto-skip (suc i) (x ∷ xs) (e, u) g d = (e, Upto-skip i xs u g d)

-- Another is started.
pub Progress-start :
    (i : ℕ) (xs : List StepState) (m : Option String)
    → suc i ≤ length xs
    → Upto i xs
    → Progress i (modify xs i (with_error StepStatus.running m))
Progress-start zero [] m l u = absurd (omega arith)
Progress-start zero (x ∷ xs) m l u = (refl, u.1)
Progress-start (suc i) [] m l u = absurd u
Progress-start (suc i) (x ∷ xs) m l (e, u) = (e, Progress-start i xs m (omega arith) u)

pub Upto-ok :
    (i : ℕ) (xs : List StepState)
    → Progress i xs
    → Upto (suc i) (modify xs i (with_status StepStatus.done))
Upto-ok i [] p = absurd p
Upto-ok zero (x ∷ xs) (r, u) = (refl, u)
Upto-ok (suc i) (x ∷ xs) (d, p) = (d, Upto-ok i xs p)

pub Progress-lt : (i : ℕ) (xs : List StepState) → Progress i xs → suc i ≤ length xs
Progress-lt i [] p = absurd p
Progress-lt zero (x ∷ xs) p = omega arith
Progress-lt (suc i) (x ∷ xs) (d, p) = omega (arith, Progress-lt i xs p)

Ready-Calm : (xs : List StepState) → All IsReady xs → All IsCalm xs
Ready-Calm [] r = tt
Ready-Calm (x ∷ xs) (r, rs) = (ground arith, Ready-Calm xs rs)

pub Settled-Calm : (xs : List StepState) → All IsSettled xs → All IsCalm xs
Settled-Calm [] r = tt
Settled-Calm (x ∷ xs) (r, rs) = (ground arith, Settled-Calm xs rs)

pub Done-Settled : (xs : List StepState) → All IsDone xs → All IsSettled xs
Done-Settled [] d = tt
Done-Settled (x ∷ xs) (d, ds) = (inl d, Done-Settled xs ds)

-- The running step has ended in some other way.
pub Progress-end :
    (i : ℕ) (xs : List StepState) (f : StepState → StepState)
    → ((x : StepState) → IsCalm (f x))
    → Progress i xs
    → All IsCalm (modify xs i f)
Progress-end i [] f h p = absurd p
Progress-end zero (x ∷ xs) f h (r, u) = (h x, Ready-Calm xs u)
Progress-end (suc i) (x ∷ xs) f h (d, p) = (ground arith, Progress-end i xs f h p)

-- The last step was dropped, all others are done.
pub Progress-drop_last :
    (i : ℕ) (xs : List StepState) (m : Option String)
    → i + 1 ≡ length xs
    → Progress i xs
    → All IsSettled (modify xs i (with_error StepStatus.unconfirmed m))
Progress-drop_last i [] m e p = absurd p
Progress-drop_last zero (x ∷ []) m e p = (inr refl, tt)
Progress-drop_last zero (x ∷ y ∷ xs) m e p = absurd (omega arith)
Progress-drop_last (suc i) (x ∷ xs) m e (d, p) = (inl d, Progress-drop_last i xs m (omega arith) p)

pub Settled-confirm : (xs : List StepState) → All IsSettled xs → All IsDone (map confirm_step xs)
Settled-confirm [] s = tt
Settled-confirm (x ∷ xs) (s, ss) = (ground arith, Settled-confirm xs ss)

-- The test of the reconfirmation.
pub Settled-of_Calm :
    (xs : List StepState)
    → All IsCalm xs
    → any (λ x. is_pending_or_failed x.status) xs ≡ false
    → All IsSettled xs
Settled-of_Calm [] c h = tt
Settled-of_Calm (x ∷ xs) (c, cs) h = (ground arith, Settled-of_Calm xs cs (ground arith))
