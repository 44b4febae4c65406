-- ===== src/Candles/Worker/Drain.antt =====
-- src/candles/ingest-worker.service.ts: `drain`, one pass over the queue. `clock` is the time of each
-- call of `Date.now()`. The jobs of a batch are run one after the other, which is one of the orders in
-- which their steps may come; a failing database, which ends the pass, is left out.
use tradetrack_api.Prelude.{
  ℕ, zero, suc, ◌+◌, String, str_eq, Bool, true, false, Option, none, some, List, [], ◌∷◌,
  if◌then◌else◌,
}
use tradetrack_api.Number.{JsNumber}
use tradetrack_api.Candles.Archive.{Archive}
use tradetrack_api.Candles.Jobs.{JobKey, Job, JobTable}
use tradetrack_api.Candles.Worker.{ChunkTable, claim_next, run_job}

abbrev pub job_concurrency : ℕ
job_concurrency = 4

-- `onModuleInit`: whether the worker polls, by the variables of the environment.
abbrev pub is_set : Option String → Bool
is_set none = false
is_set (some v) = if str_eq v "" then false else true

abbrev pub polls : Option String → Option String → Option String → Bool
polls none id secret = false
polls (some enabled) id secret =
    if str_eq enabled "true" then if is_set id then is_set secret else false else false

-- The keys that were claimed in this pass, newest first, and the number of calls of the clock.
pub record Pass (T S : Type 0) : Type 0 where
  pub table : T
  pub chunks : S
  pub seen : List JobKey
  pub ticks : ℕ

module _ {T S : Type 0} where
  abbrev pub unclaimed : T → Pass T S → Pass T S
  unclaimed t p = record p { table = t; ticks = p.ticks + 1 }

  abbrev pub noted : T → Job → Pass T S → Pass T S
  noted t job p = record p { table = t; ticks = p.ticks + 1; seen = job.key ∷ p.seen }

  abbrev pub put_first : Job → Pass T S × List Job → Pass T S × List Job
  put_first job (p, jobs) = (p, job ∷ jobs)

  -- After a claim: the batch ends where nothing was claimed.
  abbrev pub filled :
      (Pass T S → Pass T S × List Job) → Pass T S → T × Option Job → Pass T S × List Job
  filled rest p (t, none) = (unclaimed t p, [])
  filled rest p (t, some job) = put_first job (rest (noted t job p))

  -- After a batch: the pass ends where it is empty.
  abbrev pub after_batch :
      (Pass T S → Option (Pass T S))
      → (List Job → Pass T S → Pass T S)
      → Pass T S × List Job
      → Option (Pass T S)
  after_batch rest run (p, []) = some p
  after_batch rest run (p, j ∷ js) = rest (run (j ∷ js) p)

module _ {T S : Type 0} ⦃jobs : JobTable T⦄ (clock : ℕ → ℕ) where
  unfoldable pub fill : ℕ → Pass T S → Pass T S × List Job
  fill zero p = (p, [])
  fill (suc n) p = filled (fill n) p (claim_next (clock p.ticks) p.seen p.table)

module _ (F : Type 0) {T S : Type 0} ⦃num : JsNumber F⦄ ⦃chunks : ChunkTable F S⦄
    ⦃jobs : JobTable T⦄ (archive : Archive) (clock : ℕ → ℕ) where
  abbrev pub with_run : Pass T S → T × S → Pass T S
  with_run p (t, s) = record p { table = t; chunks = s; ticks = p.ticks + 1 }

  unfoldable pub run_all : List Job → Pass T S → Pass T S
  run_all [] p = p
  run_all (job ∷ rest) p =
      run_all rest (with_run p (run_job F archive (clock p.ticks) job (p.table, p.chunks)))

  -- The loop, on fuel: `none` where the fuel does not last.
  unfoldable pub drain_on : ℕ → Pass T S → Option (Pass T S)
  drain_on zero p = none
  drain_on (suc n) p = after_batch (drain_on n) run_all (fill clock job_concurrency p)

  abbrev pub drain : ℕ → T → S → Option (Pass T S)
  drain fuel t s = drain_on fuel (record { table = t; chunks = s; seen = []; ticks = 0 })
