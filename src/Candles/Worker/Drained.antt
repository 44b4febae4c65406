-- ===== src/Candles/Worker/Drained.antt =====
-- A pass over the queue (src/candles/ingest-worker.service.ts, `drain`) ends.
use tradetrack_api.Prelude.{
  ℕ, zero, suc, ◌+◌, ◌≤◌, ◌<◌, ◌≡◌, refl, sym, ap, ◌∙◌, subst, true, false, Option, none, some,
  List, [], ◌∷◌, length, arith,
}
use tradetrack_api.Number.{JsNumber}
use tradetrack_api.Candles.Archive.{Archive}
use tradetrack_api.Candles.Jobs.{JobKey, Job, JobTable}
use tradetrack_api.Candles.Worker.{ChunkTable, excludes, claimable, claim_next}
use tradetrack_api.Candles.Worker.Claim.{claim_next-none}
use tradetrack_api.Candles.Worker.Drain.{
  job_concurrency, Pass, noted, filled, after_batch, fill, run_all, drain_on, drain,
}
use tradetrack_api.Candles.Worker.Covered.{
  unseen, unseen-lt, Covers, claim_next-Covers, claim_next-unclaimed, claim_next-new,
  run_job-Covers,
}

suc-ne : (n : ℕ) → suc n ≡ 0 → ⊥
suc-ne n e = omega arith

unseen-none : (js : List JobKey) → unseen [] js ≡ length js
unseen-none [] = refl
unseen-none (j ∷ js) = omega (arith, unseen-none js)

-- No key stands twice in the list.
abbrev pub NoRepeat : List JobKey → Type 0
NoRepeat [] = Unit {0}
NoRepeat (k ∷ ks) = (excludes ks k ≡ false) × NoRepeat ks

module _ {T S : Type 0} ⦃jobs : JobTable T⦄ (ks : List JobKey) where
  open jobs use {row}

  -- What holds between the steps of a pass.
  abbrev IsPass : Pass T S → Type 0
  IsPass p = Covers ks p.table × NoRepeat p.seen

  -- What a batch does: it keeps that, and every job of it is one key less.
  abbrev IsBatch : Pass T S → Pass T S × List Job → Type 0
  IsBatch p x = IsPass x.0 × (unseen x.0.seen ks + length x.1 ≤ unseen p.seen ks)

module _ {T S : Type 0} ⦃jobs : JobTable T⦄ (clock : ℕ → ℕ) (ks : List JobKey) where
  open jobs use {row}

  filled-IsBatch :
      (rest : Pass T S → Pass T S × List Job)
      → ((p : Pass T S) → IsPass ks p → IsBatch ks p (rest p))
      → (p : Pass T S) (x : T × Option Job) → IsPass ks p
      → Covers ks x.0
      → ((job : Job)
          → x.1 ≡ some job
          → (excludes p.seen job.key ≡ false) × (excludes ks job.key ≡ true))
      → IsBatch ks p (filled rest p x)
  filled-IsBatch rest go p (t, none) h covers new = ((covers, h.1), omega arith)
  filled-IsBatch rest go p (t, some job) h covers new =
      let (out, at) = new job refl in
      let (pass, fewer) = go (noted t job p) (covers, (out, h.1)) in
      (pass, omega (arith, unseen-lt p.seen job.key ks out at))

  fill-IsBatch : (n : ℕ) (p : Pass T S) → IsPass ks p → IsBatch ks p (fill clock n p)
  unfolding fill
  fill-IsBatch zero p h = (h, omega arith)
  fill-IsBatch (suc n) p h =
      filled-IsBatch (fill clock n) (fill-IsBatch n) p (claim_next (clock p.ticks) p.seen p.table) h
        (claim_next-Covers ks (clock p.ticks) p.seen p.table h.0)
        (λ job e. claim_next-new ks (clock p.ticks) p.seen p.table job h.0 e)

module _ {T S : Type 0} ⦃jobs : JobTable T⦄ (clock : ℕ → ℕ) where
  open jobs use {row}

  -- No row may run that this pass has not claimed.
  abbrev pub IsExhausted : Pass T S → Type 0
  IsExhausted p =
      (time : ℕ) × ((k : JobKey) (r : Job)
        → row p.table k ≡ some r
        → claimable (clock time) p.seen r ≡ false)

  -- An empty batch.
  filled-IsExhausted :
      (rest : Pass T S → Pass T S × List Job) (p : Pass T S) (x : T × Option Job)
      → (x.1 ≡ none
          → (x.0 ≡ p.table)
            × ((k : JobKey) (r : Job)
                → row p.table k ≡ some r
                → claimable (clock p.ticks) p.seen r ≡ false))
      → (filled rest p x).1 ≡ []
      → IsExhausted (filled rest p x).0
  filled-IsExhausted rest p (t, none) h e =
      (p.ticks, λ k r at. (h refl).1 k r (sym (ap (λ u. row u k) (h refl).0) ∙ at))
  filled-IsExhausted rest p (t, some job) h e =
      absurd (suc-ne (length (rest (noted t job p)).1) (ap length e))

  fill-IsExhausted :
      (p : Pass T S)
      → (fill clock job_concurrency p).1 ≡ []
      → IsExhausted (fill clock job_concurrency p).0
  unfolding fill
  fill-IsExhausted p e =
      filled-IsExhausted (fill clock 3) p (claim_next (clock p.ticks) p.seen p.table)
        (λ nothing. (
          claim_next-unclaimed (clock p.ticks) p.seen p.table nothing,
          claim_next-none (clock p.ticks) p.seen p.table nothing,
        ))
        e

module _ (F : Type 0) {T S : Type 0} ⦃num : JsNumber F⦄ ⦃chunks : ChunkTable F S⦄
    ⦃jobs : JobTable T⦄ (archive : Archive) (clock : ℕ → ℕ) (ks : List JobKey) where
  run_all-IsPass :
      (js : List Job) (p : Pass T S) → IsPass ks p → IsPass ks (run_all F archive clock js p)
  unfolding run_all
  run_all-IsPass [] p h = h
  run_all-IsPass (job ∷ js) p h =
      run_all-IsPass js _
        (run_job-Covers F archive ks (clock p.ticks) job p.table p.chunks h.0, h.1)

  run_all-seen : (js : List Job) (p : Pass T S) → (run_all F archive clock js p).seen ≡ p.seen
  unfolding run_all
  run_all-seen [] p = refl
  run_all-seen (job ∷ js) p = run_all-seen js _

  abbrev Ends : Option (Pass T S) → Type 0
  Ends o = (q : Pass T S) × (o ≡ some q) × NoRepeat q.seen × IsExhausted clock q

  after_batch-Ends :
      (n : ℕ) (p : Pass T S) (x : Pass T S × List Job)
      → IsBatch ks p x
      → (x.1 ≡ [] → IsExhausted clock x.0)
      → unseen p.seen ks < suc n
      → ((q : Pass T S) → IsPass ks q → unseen q.seen ks < n → Ends (drain_on F archive clock n q))
      → Ends (after_batch (drain_on F archive clock n) (run_all F archive clock) x)
  after_batch-Ends n p (q, []) (pass, fewer) done enough go = (q, refl, pass.1, done refl)
  after_batch-Ends n p (q, j ∷ js) (pass, fewer) done enough go =
      go (run_all F archive clock (j ∷ js) q) (run_all-IsPass (j ∷ js) q pass)
        (subst (λ seen. unseen seen ks < n) (sym (run_all-seen (j ∷ js) q)) (omega arith))

  drain_on-Ends :
      (n : ℕ) (p : Pass T S)
      → IsPass ks p
      → unseen p.seen ks < n
      → Ends (drain_on F archive clock n p)
  unfolding drain_on
  drain_on-Ends zero p h enough = absurd (omega arith)
  drain_on-Ends (suc n) p h enough =
      after_batch-Ends n p (fill clock job_concurrency p)
        (fill-IsBatch clock ks job_concurrency p h) (fill-IsExhausted clock p) enough
        (drain_on-Ends n)

  -- If the keys `ks` are those of all rows, a pass over the queue ends, one batch more than there are
  -- rows being enough, whatever happens to the jobs; it claims no job twice, and at its end no row may
  -- run that it has not claimed.
  pub drain-ends :
      (t : T) (s : S)
      → Covers ks t
      → (q : Pass T S) × (drain F archive clock (suc (length ks)) t s ≡ some q)
        × NoRepeat q.seen
        × IsExhausted clock q
  drain-ends t s covers =
      drain_on-Ends (suc (length ks)) _ (covers, tt) (omega (arith, unseen-none ks))
