-- ===== src/Api/Reboot.antt =====
-- A reboot that is read back (web/src/lib/api/reboot.ts). A reading is what `uptime` answers, none
-- where it could not be read, and the time at which the loop looks at the clock after it.
use mathlib.Core.Path.{sym, subst}
use zte_u60_pro_mu5250_manag.Common.{
  ℕ, zero, suc, ◌+◌, ◌*◌, ◌≤◌, ◌<◌, ◌≡◌, refl, Bool, true, false, Option, none, some, if◌then◌else◌,
  ltb, Bool-cases, inl, inr, ◌⊎◌, arith,
}

pub record Reading : Type 0 where
  pub uptime : Option ℕ
  pub at : ℕ

-- `now !== null && now < before`.
abbrev pub is_below : Option ℕ → ℕ → Bool
is_below none before = false
is_below (some now) before = ltb now before

-- The loop of `verify`, from a pass on; none where the passes that are given are used up.
unfoldable pub read_until : ℕ → ℕ → ℕ → (ℕ → Reading) → ℕ → Option Bool
read_until zero before until readings n = none
read_until (suc fuel) before until readings n =
    let rest = read_until fuel before until readings (suc n) in
    if is_below (readings n).uptime before
    then some true
    else if ltb until (readings n).at
    then some false
    else rest

-- `verify`; `before` is the uptime before the request, and the loop starts at `now`.
unfoldable pub verify_reboot : ℕ → Option ℕ → ℕ → (ℕ → Reading) → Option Bool
unfolding read_until
verify_reboot fuel none now readings = some true
verify_reboot fuel (some before) now readings = read_until fuel before (now + 120000) readings 0

-- The passes are at least 3 seconds apart.
abbrev pub IsSpaced : (ℕ → Reading) → Type 0
IsSpaced readings = (n : ℕ) → (readings n).at + 3000 ≤ (readings (suc n)).at

-- What the end of the loop tells, from a pass on: that some pass read a lower uptime, and no pass
-- before it was over the limit; or that some pass was over the limit, and none up to it read a lower
-- uptime.
abbrev pub IsEnd : ℕ → ℕ → (ℕ → Reading) → ℕ → Bool → Type 0
IsEnd before until readings n true =
    (k : ℕ) × (is_below (readings k).uptime before ≡ true)
    × ((i : ℕ) → n ≤ i → i < k → ltb until (readings i).at ≡ false)
IsEnd before until readings n false =
    (k : ℕ) × (ltb until (readings k).at ≡ true)
    × ((i : ℕ) → n ≤ i → i ≤ k → is_below (readings i).uptime before ≡ false)

first_or_later : (n i : ℕ) → n ≤ i → (i ≡ n) ⊎ (suc n ≤ i)
first_or_later n i h = omega arith

IsEnd-suc :
    (before until n : ℕ) (readings : ℕ → Reading) (b : Bool)
    → is_below (readings n).uptime before ≡ false
    → ltb until (readings n).at ≡ false
    → IsEnd before until readings (suc n) b
    → IsEnd before until readings n b
IsEnd-suc before until n readings true e late (k, low, early) = (
  k,
  low,
  λ i h lt. elim (first_or_later n i h) [
    | inl same ↦ subst (λ j. ltb until (readings j).at ≡ false) (sym same) late
    | inr after ↦ early i after lt
  ],
)
IsEnd-suc before until n readings false e late (k, over, high) = (
  k,
  over,
  λ i h le. elim (first_or_later n i h) [
    | inl same ↦ subst (λ j. is_below (readings j).uptime before ≡ false) (sym same) e
    | inr after ↦ high i after le
  ],
)

only_first : (p : ℕ → Bool) (n i : ℕ) → n ≤ i → i ≤ n → p n ≡ false → p i ≡ false
only_first p n i a b e = let same : n ≡ i = omega arith in subst (λ j. p j ≡ false) same e

pass-IsEnd :
    (fuel before until n : ℕ) (readings : ℕ → Reading)
    → (ltb until (readings n).at ≡ false
        → (b : Bool) × (read_until fuel before until readings (suc n) ≡ some b)
          × IsEnd before until readings (suc n) b)
    → (b : Bool) × (read_until (suc fuel) before until readings n ≡ some b)
      × IsEnd before until readings n b
unfolding read_until
pass-IsEnd fuel before until n readings next =
    elim (Bool-cases (is_below (readings n).uptime before)) [
      | inl low ↦ (true, rw low refl, (n, low, λ i a b. absurd (omega arith)))
      | inr high ↦ elim (Bool-cases (ltb until (readings n).at)) [
        | inl over ↦ (
          false,
          rw (high, over) refl,
          (n, over, λ i a b. only_first (λ j. is_below (readings j).uptime before) n i a b high),
        )
        | inr early ↦
            let (b, e, end) = next early in
            (b, rw (high, early) e, IsEnd-suc before until n readings b high early end)
      ]
    ]

read_until-IsEnd :
    (fuel before until n : ℕ) (readings : ℕ → Reading)
    → IsSpaced readings
    → until < (readings n).at + 3000 * fuel
    → (b : Bool) × (read_until (suc fuel) before until readings n ≡ some b)
      × IsEnd before until readings n b
read_until-IsEnd zero before until n readings s h =
    pass-IsEnd 0 before until n readings (λ early. absurd (ground arith))
read_until-IsEnd (suc fuel) before until n readings s h =
    let apart = s n in
    let near : until < (readings (suc n)).at + 3000 * fuel = omega (arith, apart, h) in
    pass-IsEnd (suc fuel) before until n readings
      (λ early. read_until-IsEnd fuel before until (suc n) readings s near)

-- Whatever the readings are, the readback of a reboot ends within 42 passes, where the passes are at
-- least 3 seconds apart and none is before the start. It confirms the reboot exactly where a reading
-- is below the uptime before, and no pass before that one was over the limit of 2 minutes.
pub verify_reboot-ends :
    (before now : ℕ) (readings : ℕ → Reading)
    → IsSpaced readings
    → now ≤ (readings 0).at
    → (b : Bool) × (verify_reboot 42 (some before) now readings ≡ some b)
      × IsEnd before (now + 120000) readings 0 b
unfolding verify_reboot
verify_reboot-ends before now readings s h =
    read_until-IsEnd 41 before (now + 120000) 0 readings s (omega (arith, h))
