-- ===== src/Candles/Worker/Covered.antt =====
-- The keys of the rows (src/candles/ingest-worker.service.ts), which no claim and no run changes, and
-- how many of them a pass has not claimed yet.
use mathlib.Core.Option
use mathlib.Core.Bool.{true≢false}
use tradetrack_api.Prelude.{
  ℕ, ◌+◌, ◌≤◌, ◌<◌, ◌≡◌, refl, sym, ap, ◌∙◌, subst, Bool, true, false, ◌&&◌, not, Option, none,
  some, List, [], ◌∷◌, inl, inr, Bool-cases, Option-cases, arith, if◌then◌else◌,
}
use tradetrack_api.Number.{JsNumber}
use tradetrack_api.Candles.Archive.{Archive}
use tradetrack_api.Candles.Jobs.{JobKey, same_job, same_job_refl, same_job→eq, Job, JobTable}
use tradetrack_api.Candles.Worker.{
  ChunkTable, excludes, claimable, unchanged, claim_update, claim_next, settle, settle_update,
  run_job,
}
use tradetrack_api.Candles.Worker.Claim.{claim_next-IsClaimed, claim_next_found, claim_next_missing}

-- How many of the keys are not excluded.
abbrev pub unseen : List JobKey → List JobKey → ℕ
unseen seen [] = 0
unseen seen (k ∷ ks) = (if excludes seen k then 0 else 1) + unseen seen ks

not_excluded : (b c : Bool) → (c && not b) ≡ true → b ≡ false
not_excluded b c h = ground arith

unseen-le :
    (seen : List JobKey) (k : JobKey) (ks : List JobKey) → unseen (k ∷ seen) ks ≤ unseen seen ks
unseen-le seen k [] = omega arith
unseen-le seen k (j ∷ ks) = ground (arith, unseen-le seen k ks)

-- One more key that was not excluded.
pub unseen-lt :
    (seen : List JobKey) (k : JobKey) (ks : List JobKey)
    → excludes seen k ≡ false
    → excludes ks k ≡ true
    → unseen (k ∷ seen) ks < unseen seen ks
unseen-lt seen k [] out at = absurd (true≢false (sym at))
unseen-lt seen k (j ∷ ks) out at = elim (Bool-cases (same_job j k)) [
  | inl e ↦
      let same = same_job→eq j k e in
      let new : same_job k j ≡ true =
        subst (λ x. same_job k x ≡ true) (sym same) (same_job_refl k) in
      rw (new, ap (excludes seen) same ∙ out) (omega (arith, unseen-le seen k ks))
  | inr e ↦ ground (arith, unseen-lt seen k ks out (rw (e) at at))
]

module _ {T : Type 0} ⦃jobs : JobTable T⦄ where
  open jobs use {row, find_first, update_many, row-update_many, find_first-some}

  -- Every row has one of these keys.
  abbrev pub Covers : List JobKey → T → Type 0
  Covers ks t = (k : JobKey) (r : Job) → row t k ≡ some r → excludes ks k ≡ true

  update_many-Covers :
      (ks : List JobKey) (t : T) (now : ℕ) (k : JobKey) (test : Job → Bool) (update : Job → Job)
      → ((r : Job) → (update r).key ≡ r.key)
      → Covers ks t
      → Covers ks (update_many t now k test update).0
  update_many-Covers ks t now k test update keeps covers j r at =
      let read = sym (row-update_many t now k j test update keeps) ∙ at in
      elim (Bool-cases (same_job k j)) [
        | inl e ↦
            subst (λ x. excludes ks x ≡ true) (same_job→eq k j e)
              (covered_by _ (λ r0 there. covers k r0 there) (row t k) refl (rw (e) at read))
        | inr e ↦ covers j r (rw (e) at read)
      ]
    where
      covered_by :
          (f : Job → Job)
          → ((r0 : Job) → row t k ≡ some r0 → excludes ks k ≡ true)
          → (o : Option Job) → row t k ≡ o
          → Option.map f o ≡ some r
          → excludes ks k ≡ true
      covered_by f there none e m = absurd (Option.none-ne-some r m)
      covered_by f there (some r0) e m = there r0 e

  pub claim_next-Covers :
      (ks : List JobKey) (now : ℕ) (exclude : List JobKey) (t : T)
      → Covers ks t
      → Covers ks (claim_next now exclude t).0
  claim_next-Covers ks now exclude t covers =
      elim (Option-cases (find_first t (claimable now exclude))) [
        | inl e ↦
            subst (Covers ks) (sym (ap (λ x. x.0) (claim_next_missing now exclude t e))) covers
        | inr (r, e) ↦
            subst (Covers ks) (sym (ap (λ x. x.0) (claim_next_found now exclude t r e)))
              (update_many-Covers ks t now r.key (unchanged r) claim_update (λ x. refl) covers)
      ]

  -- A claim that comes back empty leaves the table as it is.
  pub claim_next-unclaimed :
      (now : ℕ) (exclude : List JobKey) (t : T)
      → (claim_next now exclude t).1 ≡ none
      → (claim_next now exclude t).0 ≡ t
  claim_next-unclaimed now exclude t e =
      elim (Option-cases (find_first t (claimable now exclude))) [
        | inl f ↦ ap (λ x. x.0) (claim_next_missing now exclude t f)
        | inr (r, f) ↦ absurd (
            Option.none-ne-some (claim_update r)
              (sym e ∙ ap (λ x. x.1) (claim_next_found now exclude t r f)))
      ]

  -- What is claimed was not excluded, and its row has one of the keys.
  pub claim_next-new :
      (ks : List JobKey) (now : ℕ) (exclude : List JobKey) (t : T) (job : Job)
      → Covers ks t
      → (claim_next now exclude t).1 ≡ some job
      → (excludes exclude job.key ≡ false) × (excludes ks job.key ≡ true)
  claim_next-new ks now exclude t job covers e =
      let (r, at, ok, oldest, same, marked) = claim_next-IsClaimed now exclude t job e in
      (
        ap (λ x. excludes exclude x.key) same ∙ not_excluded (excludes exclude r.key) _ ok,
        covers job.key r at,
      )

module _ (F : Type 0) {S T : Type 0} ⦃num : JsNumber F⦄ ⦃chunks : ChunkTable F S⦄
    ⦃jobs : JobTable T⦄ (archive : Archive) where
  pub run_job-Covers :
      (ks : List JobKey) (now : ℕ) (job : Job) (t : T) (s : S)
      → Covers ks t
      → Covers ks (run_job F archive now job (t, s)).0
  unfolding run_job settle
  run_job-Covers ks now job t s covers =
      update_many-Covers ks t now job.key (λ r. true) (settle_update _) (λ x. refl) covers
