-- ===== src/Tests/TrendRuns.antt =====
-- The curves of the last minutes (web/src/lib/liveTrend.ts, web/src/lib/cpuTrend.ts).
use zte_u60_pro_mu5250_manag.Common.{ℕ, ◌≡◌, List, [], ◌∷◌, arith}
use zte_u60_pro_mu5250_manag.Trend.Samples.{TrendSample}
use zte_u60_pro_mu5250_manag.Trend.Recent.{backwards, gathered, recent, gathered-recent}

abbrev sample : ℕ → ℕ → TrendSample ℕ
sample t v = record { t = t; values = v }

abbrev history : List (TrendSample ℕ)
history = sample 400000 4 ∷ sample 380000 3 ∷ sample 90000 2 ∷ sample 3000 1 ∷ []

gathered-recent_example : gathered history ≡ backwards (recent history)
gathered-recent_example = gathered-recent history (omega arith, (omega arith, (omega arith, tt)))

abbrev points : List ℕ
points = 3 ∷ 2 ∷ 1 ∷ []
