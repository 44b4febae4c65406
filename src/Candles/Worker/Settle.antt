-- ===== src/Candles/Worker/Settle.antt =====
-- The ways in which `runJob` (src/candles/ingest-worker.service.ts) ends, and the row after each.
use tradetrack_api.Prelude.{
  ℕ, ◌+◌, ◌≡◌, refl, ap, ◌∙◌, true, false, some, List, arith, leb, inl, inr, Bool-cases,
  if◌then◌else◌,
}
use tradetrack_api.Number.{JsNumber}
use tradetrack_api.Candles.Archive.{Archive}
use tradetrack_api.Candles.Jobs.{
  Status, pending, running, done, failed, same_status, JobKey, same_job_refl, Job, JobTable,
}
use tradetrack_api.Candles.Ingest.{Outcome, ingested, not_published, terminal, errored, ingest}
use tradetrack_api.Candles.Worker.{
  Written, written, refused, ChunkTable, write_chunk, claim_next, Settlement, settle_update, settle,
  stored, concluded, run_job,
}
use tradetrack_api.Candles.Worker.Claim.{claim_next-IsClaimed}

-- The four ways in which a run ends.
pub data Ending : Type 0 where
  stores publishes_later rejects fails : Ending

module _ {S : Type 0} where
  abbrev pub ending_of_write : Written S → Ending
  ending_of_write (written s) = stores
  ending_of_write (refused e) = fails

module _ {F S : Type 0} ⦃chunks : ChunkTable F S⦄ where
  abbrev pub ending : JobKey → S → Outcome F → Ending
  ending key s (ingested cs files) = ending_of_write (write_chunk key cs s)
  ending key s not_published = publishes_later
  ending key s (terminal e) = rejects
  ending key s (errored e) = fails

-- What a row should say after a run that a claim started, by the attempts it had before the claim.
abbrev pub final_status : ℕ → Ending → Status
final_status attempts stores = done
final_status attempts publishes_later = pending
final_status attempts rejects = failed
final_status attempts fails = if leb 3 (attempts + 1) then failed else pending

abbrev pub final_attempts : ℕ → Ending → ℕ
final_attempts attempts publishes_later = attempts
final_attempts attempts _ = attempts + 1

-- A row that was claimed, and settled by this rule, ends as it should.
abbrev Ends : Settlement → ℕ → Ending → Type 0
Ends settlement attempts end =
    (row : Job)
    → row.attempts ≡ attempts + 1
    → ((settle_update settlement row).status ≡ final_status attempts end)
      × ((settle_update settlement row).attempts ≡ final_attempts attempts end)

module _ {S : Type 0} where
  stored-Ends :
      (job : Job) (attempts : ℕ) (s : S) (w : Written S)
      → job.attempts ≡ attempts + 1
      → Ends (stored job w s).0 attempts (ending_of_write w)
  stored-Ends job attempts s (written s') e row at = ground arith
  stored-Ends job attempts s (refused x) e row at = rw (e, at) (refl, omega arith)

module _ {F S : Type 0} ⦃chunks : ChunkTable F S⦄ where
  concluded-Ends :
      (job : Job) (attempts : ℕ) (s : S) (o : Outcome F)
      → job.attempts ≡ attempts + 1
      → Ends (concluded job o s).0 attempts (ending job.key s o)
  concluded-Ends job attempts s (ingested cs files) e row at =
      stored-Ends job attempts s (write_chunk job.key cs s) e row at
  concluded-Ends job attempts s not_published e row at = ground arith
  concluded-Ends job attempts s (terminal x) e row at = ground arith
  concluded-Ends job attempts s (errored x) e row at = rw (e, at) (refl, omega arith)

not_running :
    (attempts : ℕ) (end : Ending) → same_status (final_status attempts end) running ≡ false
not_running attempts stores = refl
not_running attempts publishes_later = refl
not_running attempts rejects = refl
not_running attempts fails = elim (Bool-cases (leb 3 (attempts + 1))) [
  | inl e ↦ rw (e) refl
  | inr e ↦ rw (e) refl
]

module _ (F : Type 0) {S T : Type 0} ⦃num : JsNumber F⦄ ⦃chunks : ChunkTable F S⦄
    ⦃jobs : JobTable T⦄ (archive : Archive) where
  open jobs use {row, row-update_many}

  -- Say that a pass claims the job of row `r` at the time `now`, and that the run of it ends at the time
  -- `later`. Then the row of the job, under its key, is DONE if the chunk was stored; it is PENDING
  -- with the attempts it had before the claim if the archive has not published the span; it is
  -- FAILED if the error is terminal or the run was the third attempt or a later one; and it is
  -- PENDING with one more attempt after any other error. It is never left RUNNING.
  pub run_job-settles :
      (now later : ℕ) (exclude : List JobKey) (t : T) (s : S) (job : Job)
      → (claim_next now exclude t).1 ≡ some job
      → (r after : Job) × (row t job.key ≡ some r)
        × (row (run_job F archive later job ((claim_next now exclude t).0, s)).0 job.key
            ≡ some after)
        × (let end = ending job.key s (ingest {F = F} archive later job.key) in
            (after.status ≡ final_status r.attempts end)
            × (after.attempts ≡ final_attempts r.attempts end)
            × (same_status after.status running ≡ false))
  unfolding run_job settle
  run_job-settles now later exclude t s job e =
      let (r, at, ok, oldest, same, claimed) = claim_next-IsClaimed now exclude t job e in
      let claimed_table = (claim_next now exclude t).0 in
      let (settlement, s') = concluded job (ingest {F = F} archive later job.key) s in
      let ends =
        concluded-Ends job r.attempts s (ingest {F = F} archive later job.key)
          (ap (λ x. x.attempts) same) (record job { updated_at = now })
          (ap (λ x. x.attempts) same) in
      (
        r,
        record (settle_update settlement (record job { updated_at = now })) { updated_at = later },
        at,
        row-update_many claimed_table later job.key job.key (λ x. true) (settle_update settlement)
              (λ x. refl)
            ∙ rw (same_job_refl job.key, claimed) refl,
        (ends.0, ends.1, ap (λ x. same_status x running) ends.0 ∙ not_running r.attempts _),
      )
