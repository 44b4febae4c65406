-- ===== src/Candles/Worker/Claim.antt =====
-- What `claimNext` (src/candles/ingest-worker.service.ts) claims, and when it claims nothing.
use mathlib.Core.Option
use tradetrack_api.Prelude.{
  ℕ, ◌≡◌, refl, ap, subst, ◌∙◌, sym, ◌≤◌, true, false, none, some, List, Option-cases, inl, inr,
  ==_refl, value_or,
}
use tradetrack_api.Candles.Jobs.{
  Status, pending, running, done, failed, same_status, JobKey, same_job_refl, Job, JobTable,
  matches,
}
use tradetrack_api.Candles.Worker.{claimable, unchanged, claim_update, claim_next}

same_status_refl : (s : Status) → same_status s s ≡ true
same_status_refl pending = refl
same_status_refl running = refl
same_status_refl done = refl
same_status_refl failed = refl

unchanged_self : (r : Job) → unchanged r r ≡ true
unchanged_self r = rw (same_status_refl r.status, ==_refl r.updated_at)

module _ {T : Type 0} ⦃jobs : JobTable T⦄ where
  open jobs use {
    row, find_first, update_many, find_first-some, find_first-none, row-update_many,
    count-update_many,
  }

  -- With a candidate, the claim succeeds.
  pub claim_next_found :
      (now : ℕ) (exclude : List JobKey) (t : T) (r : Job)
      → find_first t (claimable now exclude) ≡ some r
      → claim_next now exclude t
        ≡ ((update_many t now r.key (unchanged r) claim_update).0, some (claim_update r))
  unfolding claim_next
  claim_next_found now exclude t r e =
      let (at, ok, oldest) = find_first-some t (claimable now exclude) r e in
      let one : (update_many t now r.key (unchanged r) claim_update).1 ≡ 1 =
        count-update_many t now r.key (unchanged r) claim_update
        ∙ ap (matches (unchanged r)) at
        ∙ rw (unchanged_self r) refl in
      rw (e, claim_next) (rw one refl)

  claimed_row :
      (now : ℕ) (t : T) (r : Job)
      → row t r.key ≡ some r
      → row (update_many t now r.key (unchanged r) claim_update).0 r.key
        ≡ some (record (claim_update r) { updated_at = now })
  claimed_row now t r at =
      row-update_many t now r.key r.key (unchanged r) claim_update (λ x. refl)
      ∙ rw (same_job_refl r.key, at) (rw (unchanged_self r) refl)

  pub claim_next_missing :
      (now : ℕ) (exclude : List JobKey) (t : T)
      → find_first t (claimable now exclude) ≡ none
      → claim_next now exclude t ≡ (t, none)
  unfolding claim_next
  claim_next_missing now exclude t e = rw (e, claim_next) refl

  -- The job `job` is the oldest that may run, and its row is marked.
  abbrev pub IsClaimed : ℕ → List JobKey → T → Job → Type 0
  IsClaimed now exclude t job =
      (r : Job) × (row t job.key ≡ some r)
      × (claimable now exclude r ≡ true)
      × ((k : JobKey) (s : Job)
          → row t k ≡ some s
          → claimable now exclude s ≡ true
          → r.created_at ≤ s.created_at)
      × (job ≡ claim_update r)
      × (row (claim_next now exclude t).0 job.key ≡ some (record job { updated_at = now }))

  claim_update-IsClaimed :
      (now : ℕ) (exclude : List JobKey) (t : T) (r : Job)
      → find_first t (claimable now exclude) ≡ some r
      → IsClaimed now exclude t (claim_update r)
  claim_update-IsClaimed now exclude t r f =
      let (at, ok, oldest) = find_first-some t (claimable now exclude) r f in
      (
        r,
        at,
        ok,
        oldest,
        refl,
        ap (λ x. row x.0 r.key) (claim_next_found now exclude t r f) ∙ claimed_row now t r at,
      )

  -- A claim takes the oldest job that may run and was not seen in this pass, and marks its row as
  -- running with one more attempt.
  pub claim_next-IsClaimed :
      (now : ℕ) (exclude : List JobKey) (t : T) (job : Job)
      → (claim_next now exclude t).1 ≡ some job
      → IsClaimed now exclude t job
  claim_next-IsClaimed now exclude t job e =
      elim (Option-cases (find_first t (claimable now exclude))) [
        | inl f ↦
            absurd (
              Option.none-ne-some job
                (sym (ap (λ x. x.1) (claim_next_missing now exclude t f)) ∙ e))
        | inr (r, f) ↦
            subst (IsClaimed now exclude t)
              (ap (value_or (claim_update r))
                (sym (ap (λ x. x.1) (claim_next_found now exclude t r f)) ∙ e))
              (claim_update-IsClaimed now exclude t r f)
      ]

  -- If a claim comes back empty, no row may run that was not seen in this pass.
  pub claim_next-none :
      (now : ℕ) (exclude : List JobKey) (t : T)
      → (claim_next now exclude t).1 ≡ none
      → (k : JobKey) (s : Job) → row t k ≡ some s
      → claimable now exclude s ≡ false
  claim_next-none now exclude t e k s at =
      elim (Option-cases (find_first t (claimable now exclude))) [
        | inl f ↦ find_first-none t (claimable now exclude) f k s at
        | inr (r, f) ↦ absurd (
            Option.none-ne-some (claim_update r)
              (sym e ∙ ap (λ x. x.1) (claim_next_found now exclude t r f)))
      ]
