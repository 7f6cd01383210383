-- ===== src/Esim/JobEnds.antt =====
-- How the wait for a job of the eSIM card ends (web/src/app/(panel)/router/esim/page.tsx).
use mathlib.Core.Path.{subst}
use zte_u60_pro_mu5250_manag.Common.{
  ℕ, zero, suc, ◌+◌, ◌*◌, ◌≤◌, ◌<◌, ◌≡◌, refl, ap, sym, ◌∙◌, Bool, true, false, ◌&&◌, Option, none,
  some, ltb, ◌==◌, ==_iff, get_or_else, [], Option-cases, inl, inr, ◌⊎◌, arith,
}
use zte_u60_pro_mu5250_manag.Common.Texts.{Text}
use zte_u60_pro_mu5250_manag.Esim.Jobs.{
  JobStatus, EsimJob, JobAnswer, Poll, JobEnd, pass_end, poll_until, run_job, is_done_job, is_error,
  first_of, first_end, answer_end, message_or,
}

first_or_after : (n i : ℕ) → n ≤ i → (i ≡ n) ⊎ (suc n ≤ i)
first_or_after n i h = omega arith

own_done :
    (same finished : Bool) (a b : ℕ)
    → (same && finished) ≡ true
    → (same ≡ true → a ≡ b)
    → (a ≡ b) × (finished ≡ true)
own_done true true a b h f = (f refl, refl)
own_done true false a b h f = absurd cc
own_done false finished a b h f = absurd cc

is_done_job_sound : (s : JobStatus) → is_done_job s ≡ true → s ≡ JobStatus.done
is_done_job_sound JobStatus.idle h = absurd cc
is_done_job_sound JobStatus.running h = absurd cc
is_done_job_sound JobStatus.done h = refl
is_done_job_sound JobStatus.error h = absurd cc

module _ {ℓ} {E : Type ℓ} where
  -- The loop stops with this end at some pass, and no pass before ended it.
  abbrev pub IsFirst : (Poll E → Option (JobEnd E)) → (ℕ → Poll E) → ℕ → JobEnd E → Type ℓ
  IsFirst ends polls n e =
      (k : ℕ) × (n ≤ k)
      × (ends (polls k) ≡ some e)
      × ((i : ℕ) → n ≤ i → i < k → ends (polls i) ≡ none)

  abbrev pub IsPaced : ℕ → (ℕ → Poll E) → Type 0
  IsPaced every polls = (n : ℕ) → (polls n).at + every ≤ (polls (suc n)).at

  IsFirst-suc :
      (ends : Poll E → Option (JobEnd E)) (polls : ℕ → Poll E) (n : ℕ) (e : JobEnd E)
      → ends (polls n) ≡ none
      → IsFirst ends polls (suc n) e
      → IsFirst ends polls n e
  IsFirst-suc ends polls n e now (k, low, at_k, before) = (
    k,
    omega arith,
    at_k,
    λ i h lt. elim (first_or_after n i h) [
      | inl same ↦ subst (λ j. ends (polls j) ≡ none) (sym same) now
      | inr after ↦ before i after lt
    ],
  )

  -- A loop that returned stopped at its first end.
  poll_until-IsFirst :
      (fuel : ℕ) (ends : Poll E → Option (JobEnd E)) (polls : ℕ → Poll E) (n : ℕ) (e : JobEnd E)
      → poll_until fuel ends polls n ≡ some e
      → IsFirst ends polls n e
  unfolding poll_until
  poll_until-IsFirst zero ends polls n e h = absurd cc
  poll_until-IsFirst (suc fuel) ends polls n e h = elim (Option-cases (ends (polls n))) [
    | inl w ↦
        let later : poll_until fuel ends polls (suc n) ≡ some e =
          sym (ap (λ o. first_of o (poll_until fuel ends polls (suc n))) w) ∙ h in
        IsFirst-suc ends polls n e w (poll_until-IsFirst fuel ends polls (suc n) e later)
    | inr (e', w) ↦
        let same : some e' ≡ some e =
          sym (ap (λ o. first_of o (poll_until fuel ends polls (suc n))) w) ∙ h in
        (n, omega arith, w ∙ same, λ i a b. absurd (omega arith))
  ]

  -- A pass over the time ends the loop.
  first_end-late :
      (a b c : Bool) (w x y z : JobEnd E) → (e : JobEnd E) × (first_end a b c true w x y z ≡ some e)
  first_end-late true b c w x y z = (w, refl)
  first_end-late false true c w x y z = (x, refl)
  first_end-late false false true w x y z = (y, refl)
  first_end-late false false false w x y z = (z, refl)

  answer_end-late :
      (started limit : ℕ) (a : JobAnswer E)
      → (e : JobEnd E) × (answer_end started true limit a ≡ some e)
  answer_end-late started limit (JobAnswer.request_failed e) = (JobEnd.request_error e, refl)
  answer_end-late started limit (JobAnswer.answered j) =
      first_end-late ((j.id == started) && is_done_job j.status)
        ((j.id == started) && is_error j.status) (ltb started j.id) (JobEnd.returned j)
        (JobEnd.job_error (message_or j.message) (get_or_else j.reason []))
        (JobEnd.returned (record j { rebooting = false })) (JobEnd.time_out limit)

  pass_end-late :
      (started until limit : ℕ) (p : Poll E)
      → ltb until p.at ≡ true
      → (e : JobEnd E) × (pass_end started until limit p ≡ some e)
  unfolding pass_end
  pass_end-late started until limit p h = rw h (answer_end-late started limit p.answer)

  poll_until-ends :
      (fuel every started until limit n : ℕ) (polls : ℕ → Poll E)
      → IsPaced every polls
      → until < (polls n).at + every * fuel
      → (e : JobEnd E) × (poll_until (suc fuel) (pass_end started until limit) polls n ≡ some e)
  unfolding poll_until
  poll_until-ends zero every started until limit n polls paced h =
      let (e, w) = pass_end-late started until limit (polls n) (ground arith) in (e, rw w refl)
  poll_until-ends (suc fuel) every started until limit n polls paced h =
      let apart = paced n in
      let near : until < (polls (suc n)).at + every * fuel = omega (arith, apart, h) in
      let (e, w) = poll_until-ends fuel every started until limit (suc n) polls paced near in
      elim (Option-cases (pass_end started until limit (polls n))) [
        | inl go ↦ (e, rw go w)
        | inr (e', stop) ↦ (e', rw stop refl)
      ]

  -- Whatever the polls answer, a wait for a job of the card ends, within as many passes as the limit
  -- has steps of `every` and one, where the passes are at least `every` apart; and it ends with the
  -- first poll that ends it.
  pub run_job-ends :
      (every fuel started now limit : ℕ) (polls : ℕ → Poll E)
      → IsPaced every polls
      → now + every ≤ (polls 0).at
      → limit < every * suc fuel
      → (e : JobEnd E) × (run_job (suc fuel) started now limit polls ≡ some e)
        × IsFirst (pass_end started (now + limit) limit) polls 0 e
  unfolding run_job
  run_job-ends every fuel started now limit polls paced start enough =
      let (e, w) =
        poll_until-ends fuel every started (now + limit) limit 0 polls paced
          (omega (arith, start, enough)) in
      (e, w, poll_until-IsFirst (suc fuel) (pass_end started (now + limit) limit) polls 0 e w)

  -- An end that returns a job.
  first_end-returned :
      (own failed newer late : Bool) (j k : EsimJob) (m r : Text) (limit : ℕ)
      → first_end {E = E} own failed newer late
          (JobEnd.returned j)
          (JobEnd.job_error m r)
          (JobEnd.returned (record j { rebooting = false }))
          (JobEnd.time_out limit)
        ≡ some (JobEnd.returned k)
      → k.rebooting ≡ true
      → (own ≡ true) × (k ≡ j)
  first_end-returned true failed newer late j k m r limit h b = (refl, ap job_of (sym h))
    where
      job_of : Option (JobEnd E) → EsimJob
      job_of (some (JobEnd.returned i)) = i
      job_of _ = j
  first_end-returned false true newer late j k m r limit h b = absurd cc
  first_end-returned false false true late j k m r limit h b =
      let quiet : false ≡ k.rebooting = ap (λ o. (job_of o).rebooting) h in
      let no : false ≡ true = quiet ∙ b in absurd cc
    where
      job_of : Option (JobEnd E) → EsimJob
      job_of (some (JobEnd.returned i)) = i
      job_of _ = k
  first_end-returned false false false true j k m r limit h b = absurd cc
  first_end-returned false false false false j k m r limit h b = absurd cc

  answer_end-rebooting :
      (started limit : ℕ) (late : Bool) (a : JobAnswer E) (k : EsimJob)
      → answer_end started late limit a ≡ some (JobEnd.returned k)
      → k.rebooting ≡ true
      → (a ≡ JobAnswer.answered k) × (k.id ≡ started) × (k.status ≡ JobStatus.done)
  answer_end-rebooting started limit late (JobAnswer.request_failed e) k h b = absurd cc
  answer_end-rebooting started limit late (JobAnswer.answered j) k h b =
      let (own, same) =
        first_end-returned ((j.id == started) && is_done_job j.status)
          ((j.id == started) && is_error j.status) (ltb started j.id) late j k
          (message_or j.message) (get_or_else j.reason []) limit h b in
      let both =
        own_done (j.id == started) (is_done_job j.status) j.id started own
          (==_iff j.id started).0 in
      (
        ap JobAnswer.answered (sym same),
        ap (λ i. i.id) same ∙ both.0,
        ap (λ i. i.status) same ∙ is_done_job_sound j.status both.1,
      )

  -- A wait that returns a job on the way to a restart has read that job in a poll, as the one that was
  -- started, and done: the restart that another job asks for is not taken for its own.
  pub run_job-rebooting :
      (fuel started now limit : ℕ) (polls : ℕ → Poll E) (k : EsimJob)
      → run_job fuel started now limit polls ≡ some (JobEnd.returned k)
      → k.rebooting ≡ true
      → (n : ℕ) × ((polls n).answer ≡ JobAnswer.answered k)
        × (k.id ≡ started)
        × (k.status ≡ JobStatus.done)
  unfolding run_job pass_end
  run_job-rebooting fuel started now limit polls k h b =
      let (n, _, stop, _) =
        poll_until-IsFirst fuel (pass_end started (now + limit) limit) polls 0 (JobEnd.returned k)
          h in
      let (read, own, done) =
        answer_end-rebooting started limit (ltb (now + limit) (polls n).at) (polls n).answer k stop
          b in
      (n, read, own, done)
