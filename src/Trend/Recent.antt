-- ===== src/Trend/Recent.antt =====
-- What the curves hold after any samples (web/src/lib/liveTrend.ts, web/src/lib/cpuTrend.ts).
use zte_u60_pro_mu5250_manag.Common.{
  ℕ, zero, suc, ◌-◌, ◌≤◌, ◌<◌, ◌≡◌, ◌∙◌, refl, ap, Bool, true, false, some, List, [], ◌∷◌, ◌++◌,
  if◌then◌else◌, ltb, length, length-append, take, filter, Bool-cases, inl, inr, arith,
}
use zte_u60_pro_mu5250_manag.Trend.Samples.{TrendSample, last_of, push_point, within, push_sample}

module _ {ℓ} {A : Type ℓ} where
  -- A list from its end.
  abbrev pub backwards : List A → List A
  backwards [] = []
  backwards (x ∷ xs) = backwards xs ++ (x ∷ [])

  last_of-snoc : (xs : List A) (x : A) → last_of (xs ++ (x ∷ [])) ≡ some x
  last_of-snoc [] x = refl
  last_of-snoc (y ∷ []) x = refl
  last_of-snoc (y ∷ z ∷ xs) x = last_of-snoc (z ∷ xs) x

  filter-append : (p : A → Bool) (xs ys : List A) → filter p (xs ++ ys) ≡ filter p xs ++ filter p ys
  filter-append p [] ys = refl
  filter-append p (x ∷ xs) ys = elim (Bool-cases (p x)) [
    | inl h ↦ rw h (ap (λ zs. x ∷ zs) (filter-append p xs ys))
    | inr h ↦ rw h (filter-append p xs ys)
  ]

  append-empty : (xs : List A) → xs ++ [] ≡ xs
  append-empty [] = refl
  append-empty (x ∷ xs) = ap (λ ys. x ∷ ys) (append-empty xs)

  filter-backwards :
      (p : A → Bool) (xs : List A) → filter p (backwards xs) ≡ backwards (filter p xs)
  filter-backwards p [] = refl
  filter-backwards p (x ∷ xs) = elim (Bool-cases (p x)) [
    | inl h ↦ filter-append p (backwards xs) (x ∷ []) ∙ rw (h, filter-backwards p xs) refl
    | inr h ↦
        filter-append p (backwards xs) (x ∷ [])
        ∙ rw (h, filter-backwards p xs) (append-empty (backwards (filter p xs)))
  ]

module _ {ℓ} {A : Type ℓ} where
  -- The samples since the last gap of more than a minute, of a history that starts with the newest.
  abbrev pub since_gap : List (TrendSample A) → List (TrendSample A)
  since_gap [] = []
  since_gap (s ∷ []) = s ∷ []
  since_gap (s ∷ r ∷ older) =
      let rest = since_gap (r ∷ older) in if ltb 60000 (s.t - r.t) then s ∷ [] else s ∷ rest

  -- Those of them that are at most five minutes older than the newest.
  abbrev pub recent : List (TrendSample A) → List (TrendSample A)
  recent [] = []
  recent (s ∷ older) = filter (within s) (since_gap (s ∷ older))

  -- The samples after a history, which starts with the newest.
  abbrev pub gathered : List (TrendSample A) → List (TrendSample A)
  gathered [] = []
  gathered (s ∷ older) = push_sample (gathered older) s

  abbrev pub IsOrdered : List (TrendSample A) → Type 0
  IsOrdered [] = Unit
  IsOrdered (s ∷ []) = Unit
  IsOrdered (s ∷ r ∷ older) = (r.t ≤ s.t) × IsOrdered (r ∷ older)

  within_both :
      (s r : TrendSample A) (xs : List (TrendSample A))
      → r.t ≤ s.t
      → filter (within s) (filter (within r) xs) ≡ filter (within s) xs
  within_both s r [] h = refl
  within_both s r (x ∷ xs) h = elim (Bool-cases (within r x)) [
    | inl near ↦ rw near (same_head (within s x) x (within_both s r xs h))
    | inr far ↦
        let farther : within s x ≡ false = ground arith in rw (far, farther) (within_both s r xs h)
  ]
    where
      same_head :
          (b : Bool) (x : TrendSample A) {ys zs : List (TrendSample A)}
          → ys ≡ zs
          → (if b then x ∷ ys else ys) ≡ (if b then x ∷ zs else zs)
      same_head b x e = rw e refl

  within_self : (s : TrendSample A) → within s s ≡ true
  within_self s = ground arith

  since_gap-head :
      (s : TrendSample A) (older : List (TrendSample A))
      → (rest : List (TrendSample A)) × (since_gap (s ∷ older) ≡ s ∷ rest)
  since_gap-head s [] = ([], refl)
  since_gap-head s (r ∷ older) = elim (Bool-cases (ltb 60000 (s.t - r.t))) [
    | inl h ↦ ([], rw h refl)
    | inr h ↦ (since_gap (r ∷ older), rw h refl)
  ]

  recent-head :
      (s : TrendSample A) (older : List (TrendSample A))
      → (rest : List (TrendSample A)) × (recent (s ∷ older) ≡ s ∷ rest)
  recent-head s older =
      let (rest, e) = since_gap-head s older in (filter (within s) rest, rw (e, within_self s) refl)

  push_sample-last :
      (samples : List (TrendSample A)) (r s : TrendSample A)
      → last_of samples ≡ some r
      → push_sample samples s
        ≡ filter (within s) (if ltb 60000 (s.t - r.t) then [] else samples) ++ (s ∷ [])
  unfolding push_sample
  push_sample-last samples r s h = rw h refl

  last_of-recent :
      (r : TrendSample A) (older : List (TrendSample A))
      → last_of (backwards (recent (r ∷ older))) ≡ some r
  last_of-recent r older =
      let (rest, e) = recent-head r older in rw e (last_of-snoc (backwards rest) r)

  next_recent :
      (s r : TrendSample A) (older : List (TrendSample A))
      → r.t ≤ s.t
      → push_sample (backwards (recent (r ∷ older))) s ≡ backwards (recent (s ∷ r ∷ older))
  next_recent s r older le =
      let e = push_sample-last (backwards (recent (r ∷ older))) r s (last_of-recent r older) in
      elim (Bool-cases (ltb 60000 (s.t - r.t))) [
        | inl gap ↦ e ∙ rw (gap, within_self s) refl
        | inr near ↦
            e
            ∙ rw
                (
                  near,
                  within_self s,
                  filter-backwards (within s) (recent (r ∷ older)),
                  within_both s r (since_gap (r ∷ older)) le,
                )
                refl
      ]

  -- Whatever samples came before, at times that do not run backwards, the curve holds those since the
  -- last gap of more than a minute that are at most five minutes older than the newest, oldest first.
  pub gathered-recent :
      (history : List (TrendSample A))
      → IsOrdered history
      → gathered history ≡ backwards (recent history)
  unfolding push_sample
  gathered-recent [] h = refl
  gathered-recent (s ∷ []) h = rw (within_self s) refl
  gathered-recent (s ∷ r ∷ older) (le, h) =
      ap (λ samples. push_sample samples s) (gathered-recent (r ∷ older) h)
      ∙ next_recent s r older le

module _ {ℓ} {A : Type ℓ} where
  -- The points after a history, which starts with the newest.
  abbrev pub plotted : ℕ → List A → List A
  plotted max [] = []
  plotted max (v ∷ older) = push_point max (plotted max older) v

  length-backwards : (xs : List A) → length (backwards xs) ≡ length xs
  length-backwards [] = refl
  length-backwards (x ∷ xs) =
      omega (arith, length-append (backwards xs) (x ∷ []), length-backwards xs)

  oldest_taken :
      (m : ℕ) (xs : List A)
      → m < length xs
      → (y : A) × (backwards (take (suc m) xs) ≡ y ∷ backwards (take m xs))
  oldest_taken m [] h = absurd (omega arith)
  oldest_taken zero (x ∷ xs) h = (x, refl)
  oldest_taken (suc m) (x ∷ xs) h =
      let (y, e) = oldest_taken m xs (omega (arith, h)) in (y, ap (λ ys. ys ++ (x ∷ [])) e)

  take_all : (m : ℕ) (xs : List A) → length xs ≤ m → take m xs ≡ xs
  take_all zero [] h = refl
  take_all zero (x ∷ xs) h = absurd (omega arith)
  take_all (suc m) [] h = refl
  take_all (suc m) (x ∷ xs) h = ap (λ ys. x ∷ ys) (take_all m xs (omega (arith, h)))

  length-take_all : (m : ℕ) (xs : List A) → m ≤ length xs → length (take m xs) ≡ m
  length-take_all zero xs h = refl
  length-take_all (suc m) [] h = absurd (omega arith)
  length-take_all (suc m) (x ∷ xs) h = ap suc (length-take_all m xs (omega (arith, h)))

  push_point-full :
      (m : ℕ) (y v : A) (zs : List A)
      → length zs ≡ m
      → push_point (suc m) (y ∷ zs) v ≡ zs ++ (v ∷ [])
  unfolding push_point
  push_point-full m y v zs h =
      let size : length (zs ++ (v ∷ [])) ≡ suc m = omega (arith, length-append zs (v ∷ []), h) in
      let over : ltb (suc m) (suc (suc m)) ≡ true = ground arith in
      let one : suc (suc m) - suc m ≡ 1 = omega arith in rw (size, over, one) refl

  push_point-room :
      (m : ℕ) (v : A) (zs : List A) → length zs ≤ m → push_point (suc m) zs v ≡ zs ++ (v ∷ [])
  unfolding push_point
  push_point-room m v zs h =
      let fits : ltb (suc m) (length (zs ++ (v ∷ []))) ≡ false =
        ground (arith, length-append zs (v ∷ []), h) in
      rw fits refl

  push_point-taken :
      (max : ℕ) (v : A) (older : List A)
      → push_point max (backwards (take max older)) v ≡ backwards (take max (v ∷ older))
  unfolding push_point
  push_point-taken zero v older = refl
  push_point-taken (suc m) v older = elim (Bool-cases (ltb m (length older))) [
    | inl more ↦
        let (y, e) = oldest_taken m older (ground arith) in
        let size : length (backwards (take m older)) ≡ m =
          length-backwards (take m older) ∙ length-take_all m older (ground arith) in
        ap (λ zs. push_point (suc m) zs v) e ∙ push_point-full m y v (backwards (take m older)) size
    | inr fits ↦
        let short : length older ≤ m = ground arith in
        let whole = take_all m older short in
        let longer = take_all (suc m) older (omega (arith, short)) in
        let size : length (backwards older) ≤ m = omega (arith, length-backwards older, short) in
        rw (longer, whole) (push_point-room m v (backwards older) size)
  ]

  -- Whatever points came before, the curve holds the newest of them, as many as it has room for, oldest
  -- first.
  pub plotted-take :
      (max : ℕ) (history : List A) → plotted max history ≡ backwards (take max history)
  plotted-take zero [] = refl
  plotted-take (suc m) [] = refl
  plotted-take max (v ∷ older) =
      ap (λ points. push_point max points v) (plotted-take max older) ∙ push_point-taken max v older
