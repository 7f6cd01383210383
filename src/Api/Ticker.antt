-- ===== src/Api/Ticker.antt =====
-- The one-second ticker of web/src/lib/api/freshness.ts. A subscriber is known by a number; the
-- set `listeners` is a list without repetition.
use zte_u60_pro_mu5250_manag.Common.{
  ℕ, ◌≡◌, refl, Bool, true, false, ◌&&◌, not, List, [], ◌∷◌, ◌++◌, if◌then◌else◌, ◌==◌, any, filter,
  arith,
}

pub record Ticker : Type 0 where
  pub listeners : List ℕ
  pub running : Bool
  pub tick_now : ℕ

abbrev pub new_ticker : ℕ → Ticker
new_ticker now = record { listeners = []; running = false; tick_now = now }

abbrev pub is_empty : List ℕ → Bool
is_empty [] = true
is_empty (_ ∷ _) = false

-- `listeners.add(cb)`.
unfoldable pub add : ℕ → List ℕ → List ℕ
add i xs = if any (λ x. x == i) xs then xs else xs ++ i ∷ []

unfoldable pub subscribe : Ticker → ℕ → ℕ → Ticker
subscribe t i now = record {
  listeners = add i t.listeners;
  running = true;
  tick_now = if t.running then t.tick_now else now;
}

-- The function that `subscribeFresh` returned, for the subscriber `i`.
unfoldable pub unsubscribe : Ticker → ℕ → Ticker
unsubscribe t i =
    let rest = filter (λ x. not (x == i)) t.listeners in
    record t { listeners = rest; running = t.running && not (is_empty rest) }

-- The timer goes off, which it does only while it runs.
unfoldable pub tick : Ticker → ℕ → Ticker
tick t now = if t.running then record t { tick_now = now } else t

-- `freshNow`: the clock itself while nothing ticks.
unfoldable pub fresh_now : Ticker → ℕ → Ticker × ℕ
fresh_now t now = if t.running then (t, t.tick_now) else (record t { tick_now = now }, now)

-- What `recordOutcome` does to the ticker.
unfoldable pub note_record : Ticker → ℕ → Ticker
note_record t now = record t { tick_now = now }

pub data Event : Type 0 where
  subscribed unsubscribed : ℕ → Event
  ticked asked recorded : Event

unfoldable pub step : Ticker → ℕ × Event → Ticker
unfolding subscribe unsubscribe tick fresh_now note_record
step t (now, Event.subscribed i) = subscribe t i now
step t (now, Event.unsubscribed i) = unsubscribe t i
step t (now, Event.ticked) = tick t now
step t (now, Event.asked) = (fresh_now t now).0
step t (now, Event.recorded) = note_record t now

unfoldable pub run : Ticker → List (ℕ × Event) → Ticker
unfolding step
run t [] = t
run t (e ∷ es) = run (step t e) es

is_empty-add : (i : ℕ) (xs : List ℕ) → is_empty (add i xs) ≡ false
unfolding add
is_empty-add i [] = refl
is_empty-add i (x ∷ xs) = ground arith

step_runs :
    (t : Ticker) (e : ℕ × Event)
    → t.running ≡ not (is_empty t.listeners)
    → (step t e).running ≡ not (is_empty (step t e).listeners)
unfolding step
step_runs t (now, Event.subscribed i) h = ground (arith, is_empty-add i t.listeners)
step_runs t (now, Event.unsubscribed i) h = unsubscribed_runs i t.listeners t.running h
  where
    unsubscribed_runs :
        (i : ℕ) (xs : List ℕ) (r : Bool)
        → r ≡ not (is_empty xs)
        → (r && not (is_empty (filter (λ x. not (x == i)) xs)))
          ≡ not (is_empty (filter (λ x. not (x == i)) xs))
    unsubscribed_runs i [] r k = ground arith
    unsubscribed_runs i (x ∷ xs) r k = ground arith
step_runs t (now, Event.ticked) h = ground arith
step_runs t (now, Event.asked) h = ground arith
step_runs t (now, Event.recorded) h = ground arith

run_from-runs :
    (t : Ticker) (es : List (ℕ × Event))
    → t.running ≡ not (is_empty t.listeners)
    → (run t es).running ≡ not (is_empty (run t es).listeners)
unfolding run
run_from-runs t [] h = h
run_from-runs t (e ∷ es) h = run_from-runs (step t e) es (step_runs t e h)

-- After any subscriptions, cancellations (also repeated ones), ticks and recorded answers the timer runs exactly
-- while there is a subscriber.
pub timer_runs_iff_subscribed :
    (start : ℕ) (es : List (ℕ × Event))
    → (run (new_ticker start) es).running ≡ not (is_empty (run (new_ticker start) es).listeners)
timer_runs_iff_subscribed start es = run_from-runs (new_ticker start) es refl
