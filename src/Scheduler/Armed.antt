-- ===== src/Scheduler/Armed.antt =====
-- The scheduler page and the device together (web/src/app/(panel)/scheduler/page.tsx,
-- zte-agent/src/scheduler.rs).
use mathlib.Core.List.{Memᴰ}
use mathlib.Core.Path.{subst}
use zte_u60_pro_mu5250_manag.Common.{
  ℕ, ◌≡◌, ◌∙◌, refl, ap, sym, Bool, true, false, not, Option, none, some, List, [], ◌∷◌, ◌++◌,
  if◌then◌else◌, ◌==◌, filter, ◌&&◌, ◌⊎◌, inl, inr, arith,
}
use zte_u60_pro_mu5250_manag.Scheduler.Jobs.{Schedule, Action, Job, is_tier3}
use zte_u60_pro_mu5250_manag.Scheduler.Form.{FormState}
use zte_u60_pro_mu5250_manag.Scheduler.Writes.{
  Asked, ask_save, ask_toggle, ask_delete, find_job, tier_if,
}
use zte_u60_pro_mu5250_manag.Scheduler.Agent.{carry_out, change_job, switch_job, switched, armed}

not_tier3 : (b : Bool) → tier_if b ≡ 2 → b ≡ false
not_tier3 true h = absurd (omega (arith, h))
not_tier3 false h = refl

if_cases {ℓ κ} :
    {A : Type ℓ} (P : A → Type κ) (b : Bool) (x y : A) → P (if b then x else y) → (P x) ⊎ (P y)
if_cases P true x y p = inl p
if_cases P false x y p = inr p

not_both : (p q : Bool) → (p && q) ≡ false → (q && p) ≡ true → false ≡ true
not_both p q h k = ground arith

module _ {ℓ} {J : Type ℓ} where
  -- A write that the page offers while the device has these jobs.
  pub data Offered (jobs : List (Job J)) : Asked J → Type ℓ where
    saves_new : (f : FormState) (a : Action J) (s : Schedule) → Offered jobs (ask_save none f a s)
    saves :
        (job : Job J) (f : FormState) (a : Action J) (s : Schedule)
        → find_job job.id jobs ≡ some job
        → Offered jobs (ask_save (some job) f a s)
    toggles :
        (job : Job J) (on : Bool)
        → find_job job.id jobs ≡ some job
        → Offered jobs (ask_toggle job on)
    deletes : (job : Job J) → Offered jobs (ask_delete job)

  Memᴰ-snoc : (xs : List (Job J)) (x y : Job J) → Memᴰ x (xs ++ (y ∷ [])) → (Memᴰ x xs) ⊎ (x ≡ y)
  Memᴰ-snoc [] x y (Memᴰ.head e) = inr e
  Memᴰ-snoc [] x y (Memᴰ.tail m) = elim m [ ]
  Memᴰ-snoc (z ∷ xs) x y (Memᴰ.head e) = inl (Memᴰ.head e)
  Memᴰ-snoc (z ∷ xs) x y (Memᴰ.tail m) = elim (Memᴰ-snoc xs x y m) [
    | inl n ↦ inl (Memᴰ.tail n)
    | inr e ↦ inr e
  ]

  kept_or_not :
      (b : Bool) (y x : Job J) (ys xs : List (Job J))
      → (Memᴰ x ys → Memᴰ x xs)
      → Memᴰ x (if b then y ∷ ys else ys)
      → Memᴰ x (y ∷ xs)
  kept_or_not true y x ys xs f (Memᴰ.head e) = Memᴰ.head e
  kept_or_not true y x ys xs f (Memᴰ.tail n) = Memᴰ.tail (f n)
  kept_or_not false y x ys xs f n = Memᴰ.tail (f n)

  Memᴰ-filter :
      (p : Job J → Bool) (xs : List (Job J)) (x : Job J) → Memᴰ x (filter p xs) → Memᴰ x xs
  Memᴰ-filter p [] x m = m
  Memᴰ-filter p (y ∷ xs) x m = kept_or_not (p y) y x (filter p xs) xs (Memᴰ-filter p xs x) m

  changed_or_not :
      (b : Bool) (f : Job J → Job J) (y x : Job J) (ys xs : List (Job J)) (found : Option (Job J))
      → (Memᴰ x ys → (Memᴰ x xs) ⊎ ((j : Job J) × (found ≡ some j) × (x ≡ f j)))
      → Memᴰ x (if b then f y ∷ xs else y ∷ ys)
      → (Memᴰ x (y ∷ xs)) ⊎ ((j : Job J) × ((if b then some y else found) ≡ some j) × (x ≡ f j))
  changed_or_not true f y x ys xs found g (Memᴰ.head e) = inr (y, refl, e)
  changed_or_not true f y x ys xs found g (Memᴰ.tail n) = inl (Memᴰ.tail n)
  changed_or_not false f y x ys xs found g (Memᴰ.head e) = inl (Memᴰ.head e)
  changed_or_not false f y x ys xs found g (Memᴰ.tail n) = elim (g n) [
    | inl m ↦ inl (Memᴰ.tail m)
    | inr r ↦ inr r
  ]

  -- A job of the changed list is an old one, or the first job with the id, changed.
  Memᴰ-change_job :
      (id : ℕ) (f : Job J → Job J) (xs : List (Job J)) (x : Job J)
      → Memᴰ x (change_job id f xs)
      → (Memᴰ x xs) ⊎ ((j : Job J) × (find_job id xs ≡ some j) × (x ≡ f j))
  unfolding change_job find_job
  Memᴰ-change_job id f [] x m = inl m
  Memᴰ-change_job id f (y ∷ xs) x m =
      changed_or_not (y.id == id) f y x (change_job id f xs) xs (find_job id xs)
        (Memᴰ-change_job id f xs x) m

  created_is_old :
      (valid : Action J → Schedule → Bool) (may_run : Action J → Bool) (jobs : List (Job J))
      (f : FormState) (a : Action J) (s : Schedule) (x : Job J)
      → (ask_save none f a s).tier ≡ 2
      → Memᴰ x (carry_out valid may_run (ask_save none f a s).request jobs)
      → armed x ≡ true
      → Memᴰ x jobs
  unfolding ask_save carry_out
  created_is_old valid may_run jobs f a s x t m h = elim (if_cases (Memᴰ x) (valid a s) _ _ m) [
    | inr old ↦ old
    | inl grown ↦ elim (Memᴰ-snoc jobs x _ grown) [
      | inl old ↦ old
      | inr e ↦ absurd (cc (not_tier3 _ t, ap armed e, h))
    ]
  ]

  saved_is_old :
      (valid : Action J → Schedule → Bool) (may_run : Action J → Bool) (jobs : List (Job J))
      (job : Job J) (f : FormState) (a : Action J) (s : Schedule) (x : Job J)
      → (ask_save (some job) f a s).tier ≡ 2
      → Memᴰ x (carry_out valid may_run (ask_save (some job) f a s).request jobs)
      → armed x ≡ true
      → Memᴰ x jobs
  unfolding ask_save carry_out
  saved_is_old valid may_run jobs job f a s x t m h = elim (if_cases (Memᴰ x) (valid a s) _ _ m) [
    | inr old ↦ old
    | inl changed ↦ elim (Memᴰ-change_job job.id _ jobs x changed) [
      | inl old ↦ old
      | inr (j, found, e) ↦
          let never = not_both (is_tier3 a.method a.path) job.enabled (not_tier3 _ t) in
          absurd (cc (never (sym (ap armed e) ∙ h)))
    ]
  ]

  toggled_is_old :
      (valid : Action J → Schedule → Bool) (may_run : Action J → Bool) (jobs : List (Job J))
      (job : Job J) (on : Bool) (x : Job J)
      → find_job job.id jobs ≡ some job
      → (ask_toggle job on).tier ≡ 2
      → Memᴰ x (carry_out valid may_run (ask_toggle job on).request jobs)
      → armed x ≡ true
      → Memᴰ x jobs
  unfolding ask_toggle carry_out
  toggled_is_old valid may_run jobs job on x found t m h =
      elim (if_cases (Memᴰ x) (on && not (may_run job.action)) _ _ switched_list) [
        | inl old ↦ old
        | inr changed ↦ elim (Memᴰ-change_job job.id (switched on) jobs x changed) [
          | inl old ↦ old
          | inr (j, there, e) ↦
              let same : j ≡ job = cc (found, there) in
              let armed_job : armed (switched on job) ≡ true =
                sym (ap armed (e ∙ ap (switched on) same)) ∙ h in
              absurd (cc (not_tier3 _ t, armed_job))
        ]
      ]
    where
      switched_list :
          Memᴰ x
            (if on && not (may_run job.action) then jobs else change_job job.id (switched on) jobs)
      switched_list = subst (λ o. Memᴰ x (switch_job may_run job.id on o jobs)) found m

  -- Whatever the device validates and lets run: when the page offers a write at tier 2, a job that is
  -- on afterwards and sends a request that would need the dialog of tier 3 was there before, the same.
  -- A write on an old job is offered from the list that the device holds.
  pub armed_needs_tier3 :
      (valid : Action J → Schedule → Bool) (may_run : Action J → Bool) (jobs : List (Job J))
      (a : Asked J) (x : Job J)
      → Offered jobs a
      → a.tier ≡ 2
      → Memᴰ x (carry_out valid may_run a.request jobs)
      → armed x ≡ true
      → Memᴰ x jobs
  unfolding carry_out ask_delete
  armed_needs_tier3 valid may_run jobs _ x (Offered.saves_new f a s) t m h =
      created_is_old valid may_run jobs f a s x t m h
  armed_needs_tier3 valid may_run jobs _ x (Offered.saves job f a s found) t m h =
      saved_is_old valid may_run jobs job f a s x t m h
  armed_needs_tier3 valid may_run jobs _ x (Offered.toggles job on found) t m h =
      toggled_is_old valid may_run jobs job on x found t m h
  armed_needs_tier3 valid may_run jobs _ x (Offered.deletes job) t m h =
      Memᴰ-filter (λ j. not (j.id == job.id)) jobs x m
