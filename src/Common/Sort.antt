-- ===== src/Common/Sort.antt =====
-- A stable sort by a rank, as `Array.prototype.sort` with the difference of two ranks does it.
use Prim.Native.Nat.{ℕ, ◌≤◌}
use mathlib.Core.Path.{◌≡◌, refl}
use mathlib.Core.Logic.{inl, inr}
use mathlib.Core.List.{List, [], ◌∷◌}
use native.Mathlib.Omega.{arith}
use zte_u60_pro_mu5250_manag.Common.Tests.{leb, ◌==◌, if◌then◌else◌, Bool-cases}
use zte_u60_pro_mu5250_manag.Common.Lists.{All, filter}

module _ {ℓ} {A : Type ℓ} (rank : A → ℕ) where
  unfoldable pub insert_by : A → List A → List A
  insert_by x [] = x ∷ []
  insert_by x (y ∷ ys) =
      let rest = insert_by x ys in if leb (rank x) (rank y) then x ∷ y ∷ ys else y ∷ rest

  -- `sort((a, b) => rank(a) - rank(b))`, as an insertion from the right.
  unfoldable pub sort_by : List A → List A
  unfolding insert_by
  sort_by [] = []
  sort_by (x ∷ xs) = insert_by x (sort_by xs)

  -- Each element's rank is at most that of all elements after it.
  abbrev pub IsRanked : List A → Type 0
  IsRanked [] = Unit {0}
  IsRanked (x ∷ xs) = All (λ y. rank x ≤ rank y) xs × IsRanked xs

  -- The elements of one rank, in the order of the list.
  abbrev pub of_rank : ℕ → List A → List A
  of_rank r xs = filter (λ x. rank x == r) xs

  All-below : (m n : ℕ) (xs : List A) → m ≤ n → All (λ y. n ≤ rank y) xs → All (λ y. m ≤ rank y) xs
  All-below m n [] h a = tt
  All-below m n (x ∷ xs) h (p, ps) = (omega (arith, h, p), All-below m n xs h ps)

  All-insert_by :
      (m : ℕ) (x : A) (xs : List A)
      → m ≤ rank x
      → All (λ y. m ≤ rank y) xs
      → All (λ y. m ≤ rank y) (insert_by x xs)
  unfolding insert_by
  All-insert_by m x [] h a = (h, tt)
  All-insert_by m x (y ∷ ys) h (p, ps) = elim (Bool-cases (leb (rank x) (rank y))) [
    | inl e ↦ rw e (h, (p, ps))
    | inr e ↦ rw e (p, All-insert_by m x ys h ps)
  ]

  insert_by-IsRanked : (x : A) (xs : List A) → IsRanked xs → IsRanked (insert_by x xs)
  unfolding insert_by
  insert_by-IsRanked x [] h = (tt, tt)
  insert_by-IsRanked x (y ∷ ys) (p, ps) = elim (Bool-cases (leb (rank x) (rank y))) [
    | inl e ↦
        let low : rank x ≤ rank y = ground arith in
        rw e ((low, All-below (rank x) (rank y) ys low p), (p, ps))
    | inr e ↦
        let low : rank y ≤ rank x = ground arith in
        rw e (All-insert_by (rank y) x ys low p, insert_by-IsRanked x ys ps)
  ]

  of_rank-insert_by :
      (r : ℕ) (x : A) (xs : List A) → of_rank r (insert_by x xs) ≡ of_rank r (x ∷ xs)
  unfolding insert_by
  of_rank-insert_by r x [] = refl
  of_rank-insert_by r x (y ∷ ys) = ground (arith, of_rank-insert_by r x ys)

  pub of_rank-sort_by : (xs : List A) (r : ℕ) → of_rank r (sort_by xs) ≡ of_rank r xs
  unfolding sort_by
  of_rank-sort_by [] r = refl
  of_rank-sort_by (x ∷ xs) r =
      ground (arith, of_rank-insert_by r x (sort_by xs), of_rank-sort_by xs r)

  pub sort_by-IsRanked : (xs : List A) → IsRanked (sort_by xs)
  unfolding sort_by
  sort_by-IsRanked [] = tt
  sort_by-IsRanked (x ∷ xs) = insert_by-IsRanked x (sort_by xs) (sort_by-IsRanked xs)
