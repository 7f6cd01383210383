-- ===== src/Trend/Samples.antt =====
-- The samples of web/src/lib/liveTrend.ts and the points of web/src/lib/cpuTrend.ts. A sample is its
-- time and its values, of any type; the points are of any type.
use zte_u60_pro_mu5250_manag.Common.{
  ℕ, ◌-◌, Bool, Option, none, some, List, [], ◌∷◌, ◌++◌, if◌then◌else◌, ltb, leb, length, drop,
  filter,
}

pub record TrendSample {ℓ} (A : Type ℓ) : Type ℓ where
  pub t : ℕ
  pub values : A

module _ {ℓ} {A : Type ℓ} where
  abbrev pub last_of : List A → Option A
  last_of [] = none
  last_of (x ∷ []) = some x
  last_of (x ∷ y ∷ xs) = last_of (y ∷ xs)

  -- `pushPoint`.
  unfoldable pub push_point : ℕ → List A → A → List A
  push_point max list v =
      let out = list ++ (v ∷ []) in
      if ltb max (length out) then drop (length out - max) out else out

module _ {ℓ} {A : Type ℓ} where
  abbrev pub within : TrendSample A → TrendSample A → Bool
  within s x = leb (s.t - x.t) 300000

  -- `samples` after a gap of more than a minute since the last sample, none of them kept.
  abbrev pub after_gap :
      Option (TrendSample A) → TrendSample A → List (TrendSample A) → List (TrendSample A)
  after_gap none s samples = samples
  after_gap (some last) s samples = if ltb 60000 (s.t - last.t) then [] else samples

  -- `pushSample`. Where a time runs backwards, the source compares a negative number and this model
  -- compares 0: both are below the limits.
  unfoldable pub push_sample : List (TrendSample A) → TrendSample A → List (TrendSample A)
  push_sample samples s = filter (within s) (after_gap (last_of samples) s samples) ++ (s ∷ [])
