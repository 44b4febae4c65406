-- ===== src/Candles/Worker.antt =====
-- src/candles/ingest-worker.service.ts: claiming a job, running it, settling its row; and
-- src/candles/chunk-writer.service.ts. `now` is the time of each call of `Date.now()`.
pub mod Claim
pub mod Drain
pub mod Covered
pub mod Drained
pub mod Settle
use tradetrack_api.Prelude.{
  ℕ, ◌+◌, ◌-◌, ◌*◌, ◌==◌, Bool, true, false, ◌&&◌, ◌||◌, not, String, Option, none, some, List, [],
  ◌∷◌, ltb, leb, length, if◌then◌else◌,
}
use tradetrack_api.Number.{JsNumber}
use tradetrack_api.Candles.Types.{Candle}
use tradetrack_api.Candles.Archive.{Archive}
use tradetrack_api.Candles.Jobs.{
  Status, pending, running, done, failed, same_status, JobKey, same_job, Job, JobTable,
}
use tradetrack_api.Candles.Ingest.{Outcome, ingested, not_published, terminal, errored, ingest}

abbrev pub max_job_attempts : ℕ
max_job_attempts = 3

abbrev pub stuck_running_reclaim_ms : ℕ
stuck_running_reclaim_ms = 10 * 60000

abbrev pub chunk_source : String
chunk_source = "dukascopy-s3"

-- The columns of `CandleChunk` that are written; `candles` is the list that is printed as JSON.
pub record Chunk (F : Type 0) : Type 0 where
  pub candles : List (Candle F)
  pub candle_count : ℕ
  pub source : String

-- The `CandleChunk` table: an upsert that sets the whole row, or throws.
pub data Written (S : Type 0) : Type 0 where
  written : S → Written S
  refused : String → Written S

pub record ChunkTable (F S : Type 0) : Type 0 where
  pub upsert_chunk : S → JobKey → Chunk F → Written S

unfoldable pub write_chunk :
    {F S : Type 0} ⦃chunks : ChunkTable F S⦄ → JobKey → List (Candle F) → S → Written S
write_chunk ⦃chunks⦄ key candles s =
    chunks.upsert_chunk s key
      (record { candles = candles; candle_count = length candles; source = chunk_source })

abbrev pub excludes : List JobKey → JobKey → Bool
excludes [] k = false
excludes (e ∷ es) k = same_job e k || excludes es k

-- PENDING, or RUNNING and untouched for ten minutes; and not seen in this pass.
abbrev pub claimable : ℕ → List JobKey → Job → Bool
claimable now exclude r =
    (same_status r.status pending
      || same_status r.status running && ltb (r.updated_at + stuck_running_reclaim_ms) now)
    && not (excludes exclude r.key)

-- The row is as it was read.
abbrev pub unchanged : Job → Job → Bool
unchanged candidate r =
    same_status r.status candidate.status && (r.updated_at == candidate.updated_at)

abbrev pub claim_update : Job → Job
claim_update r = record r { status = running; attempts = r.attempts + 1 }

-- The error text that `settle` stores, and the new status and attempts.
pub record Settlement : Type 0 where
  pub status : Status
  pub last_error : Option String
  pub decrement : ℕ

abbrev pub settle_update : Settlement → Job → Job
settle_update s r = record r {
  status = s.status;
  last_error = s.last_error;
  attempts = r.attempts - s.decrement;
}

-- The `catch` of `runJob`.
abbrev pub failure : Job → Bool → String → Settlement
failure job terminal_error message = record {
  status = if terminal_error || leb max_job_attempts job.attempts then failed else pending;
  last_error = some message;
  decrement = 0;
}

module _ {T : Type 0} ⦃jobs : JobTable T⦄ where
  open jobs use {find_first, update_many}

  -- `claimNext`: the rows after it, and the job that is now ours.
  unfoldable pub claim_next : ℕ → List JobKey → T → T × Option Job
  claim_next now exclude t = elim (find_first t (claimable now exclude)) [
    | none ↦ (t, none)
    | some candidate ↦
        let (t', count) = update_many t now candidate.key (unchanged candidate) claim_update in
        if count == 1 then (t', some (claim_update candidate)) else (t', none)
  ]

  unfoldable pub settle : ℕ → Job → Settlement → T → T
  settle now job s t = (update_many t now job.key (λ r. true) (settle_update s)).0

module _ {S : Type 0} where
  -- What is settled after the chunk is written, or not, and the chunks.
  abbrev pub stored : Job → Written S → S → Settlement × S
  stored job (written s') s = (record { status = done; last_error = none; decrement = 0 }, s')
  stored job (refused e) s = (failure job false e, s)

module _ {F S : Type 0} ⦃chunks : ChunkTable F S⦄ where
  -- How the body of `runJob` ends, by what `ingest` gives.
  abbrev pub concluded : Job → Outcome F → S → Settlement × S
  concluded job (ingested cs files) s = stored job (write_chunk job.key cs s) s
  concluded job not_published s = (
    record {
      status = pending;
      last_error = some "archive has not published this span yet";
      decrement = 1;
    },
    s,
  )
  concluded job (terminal e) s = (failure job true e, s)
  concluded job (errored e) s = (failure job false e, s)

module _ (F : Type 0) {S T : Type 0} ⦃num : JsNumber F⦄ ⦃chunks : ChunkTable F S⦄
    ⦃jobs : JobTable T⦄ (archive : Archive) where
  unfoldable pub run_job : ℕ → Job → T × S → T × S
  unfolding settle
  run_job now job (t, s) =
      let (settlement, s') = concluded job (ingest {F = F} archive now job.key) s in
      (settle now job settlement t, s')
